-- ===== src/Partitioner/Replicas/Caches.antt =====
-- internal/partitioner/solver.go: the caches of `SolveReplicas` hold what a call would give again, as long as no
-- id has a `|`.
use sofmat.Base.{
  ℕ, zero, suc, ◌≤◌, ◌≡◌, refl, sym, ap, ◌∙◌, List, [], ◌∷◌, length, Option, none, some,
  Option-cases, All, Result, ok, err, arith, if_pos, if_neg, inl, inr, if◌then◌else◌,
}
use sofmat.Base.Assoc.{lookup, insert, lookup-insert}
use sofmat.Base.Strings.{Str, str_discrete}
use sofmat.Partitioner.{Floats, PartitionError, NodeProfile, ModelSpec, PartitionPlan}
use sofmat.Partitioner.Solve.{solve_plan}
use sofmat.Partitioner.Replicas.{
  Assignment, Cached, beside, splits, set_key, with_replica, wins_share, share_round, share_rounds,
  best_assignment, plan_of, plan_for, cached_round, cached_rounds, cached_assignment,
}
use sofmat.Partitioner.Replicas.Keys.{Keyed, set_key_same}
use sofmat.Partitioner.Replicas.Fuel.{best_assignment_fuel}

same_value : {V : Type 0} (v w : V) → Path (Option V) (some v) (some w) → v ≡ w
same_value v w e = cc

module _ {A : Type 0} (P : A → Type 0) where
  -- A property of both parts, of which the second is not longer than a number.
  abbrev Halves : ℕ → List A × List A → Type 0
  Halves n s = All P s.0 × All P s.1 × (length s.1 ≤ n)

  beside-Halves :
      (x : A) (n : ℕ) (ss : List (List A × List A))
      → P x
      → All (Halves n) ss
      → All (Halves (suc n)) (beside x ss)
  beside-Halves x n [] p h = tt
  beside-Halves x n ((group, remaining) ∷ ss) p ((g, r, short), hs) = (
    (g, (p, r), omega (arith, short)),
    (((p, g), r, omega (arith, short)), beside-Halves x n ss p hs),
  )

  splits-Halves : (xs : List A) → All P xs → All (Halves (length xs)) (splits xs)
  splits-Halves [] h = ((tt, tt, omega arith), tt)
  splits-Halves (x ∷ xs) (p, h) = beside-Halves x (length xs) (splits xs) p (splits-Halves xs h)

module _ {F : Type 0} (node_of : Str → Option (NodeProfile F)) where
  -- A cache holds the value of its nodes under their key.
  abbrev Right : {V : Type 0} → (List (NodeProfile F) → V) → List (Str × V) → Type 0
  Right {V} value m =
      (n : NodeProfile F) (ns : List (NodeProfile F))
      → All (Keyed node_of) (n ∷ ns)
      → (v : V) → lookup str_discrete (set_key (n ∷ ns)) m ≡ some v
      → value (n ∷ ns) ≡ v

  insert-Right :
      {V : Type 0} (value : List (NodeProfile F) → V) (m : List (Str × V)) (n : NodeProfile F)
      (ns : List (NodeProfile F)) (w : V)
      → value (n ∷ ns) ≡ w
      → All (Keyed node_of) (n ∷ ns)
      → Right value m
      → Right value (insert str_discrete (set_key (n ∷ ns)) w m)
  insert-Right value m n ns w is_w keyed right k ks keyed' v e =
      let here = set_key (n ∷ ns) in
      let there = set_key (k ∷ ks) in
      let found = sym (lookup-insert str_discrete here there w m) ∙ e in
      elim (str_discrete here there) [
        | yes one ↦
            ap value (sym (set_key_same node_of n k ns ks keyed keyed' one))
            ∙ is_w
            ∙ same_value w v (sym (if_pos (str_discrete here there) one _ _) ∙ found)
        | no two ↦ right k ks keyed' v (sym (if_neg (str_discrete here there) two _ _) ∙ found)
      ]

  module _ (fl : Floats F) (overhead budget : F) (model : ModelSpec F) where
    abbrev plan_value : List (NodeProfile F) → Option (PartitionPlan F)
    plan_value group =
        plan_of fl overhead budget model (solve_plan fl overhead budget model none group)

    abbrev best_value : List (NodeProfile F) → Assignment F
    best_value ns = best_assignment fl overhead budget model (length ns) ns

    abbrev pub AreRight : Cached F → Type 0
    AreRight c = Right plan_value c.plan_cache × Right best_value c.best_cache

    plan_for_lem :
        (n : NodeProfile F) (ns : List (NodeProfile F)) (c : Cached F)
        → All (Keyed node_of) (n ∷ ns)
        → AreRight c
        → ((plan_for fl overhead budget model (n ∷ ns) c).0 ≡ plan_value (n ∷ ns))
          × AreRight (plan_for fl overhead budget model (n ∷ ns) c).1
    unfolding plan_for
    plan_for_lem n ns c keyed (plans, bests) =
        elim (Option-cases (lookup str_discrete (set_key (n ∷ ns)) c.plan_cache)) [
          | inl missing ↦
              rw (missing, plan_for)
                (refl, (insert-Right plan_value c.plan_cache n ns _ refl keyed plans, bests))
          | inr (found, e) ↦ rw (e, plan_for) (sym (plans n ns keyed found e), (plans, bests))
        ]

    -- What share_round does with a plan or nil.
    abbrev share_on : Option (PartitionPlan F) → Assignment F → Assignment F → Assignment F
    share_on none sub best = best
    share_on (some plan) sub best =
        if wins_share fl (with_replica fl plan sub) best then with_replica fl plan sub else best

    share_round_on :
        (group : List (NodeProfile F)) (sub best : Assignment F)
        → share_round fl overhead budget model group sub best ≡ share_on (plan_value group) sub best
    unfolding share_round
    share_round_on group sub best = on_result (solve_plan fl overhead budget model none group)
      where
        on_result :
            (r : Result (PartitionError F) (PartitionPlan F))
            → (let chosen : Assignment F = elim r [
              | err e ↦ best
              | ok plan ↦
                  if wins_share fl (with_replica fl plan sub) best
                  then with_replica fl plan sub
                  else best
            ] in
                chosen ≡ share_on (plan_of fl overhead budget model r) sub best)
        on_result (err e) = refl
        on_result (ok plan) = refl

    -- An assignment with caches is the one without, and leaves the caches right.
    abbrev Gives : Assignment F × Cached F → Assignment F → Type 0
    Gives w a = (w.0 ≡ a) × AreRight w.1

    module _ (assign : List (NodeProfile F) → Cached F → Assignment F × Cached F) where
      cached_round_lem :
          (n : NodeProfile F) (ns remaining : List (NodeProfile F)) (sub best : Assignment F)
          (c : Cached F)
          → All (Keyed node_of) (n ∷ ns)
          → AreRight c
          → ((c : Cached F) → AreRight c → Gives (assign remaining c) sub)
          → Gives
              (cached_round fl overhead budget model assign (n ∷ ns) remaining best c)
              (share_round fl overhead budget model (n ∷ ns) sub best)
      unfolding cached_round
      cached_round_lem n ns remaining sub best c keyed right assigned =
          let (e, right') = plan_for_lem n ns c keyed right in
          let c' = (plan_for fl overhead budget model (n ∷ ns) c).1 in
          let plain = share_round_on (n ∷ ns) sub best in
          elim (Option-cases (plan_for fl overhead budget model (n ∷ ns) c).0) [
            | inl nil ↦
                rw (nil, cached_round)
                  (sym (plain ∙ ap (λ p. share_on p sub best) (sym e ∙ nil)), right')
            | inr (plan, found) ↦
                let (s, right'') = assigned c' right' in
                rw (found, cached_round)
                  (
                    ap (λ a. share_on (some plan) a best) s
                        ∙ sym (plain ∙ ap (λ p. share_on p sub best) (sym e ∙ found)),
                    right'',
                  )
          ]

      cached_rounds_lem :
          (value : List (NodeProfile F) → Assignment F) (m : ℕ) (first : NodeProfile F)
          (ss : List (List (NodeProfile F) × List (NodeProfile F))) (best best' : Assignment F)
          (c : Cached F)
          → ((rs : List (NodeProfile F)) (c : Cached F)
              → length rs ≤ m
              → All (Keyed node_of) rs
              → AreRight c
              → Gives (assign rs c) (value rs))
          → Keyed node_of first
          → All (Halves (Keyed node_of) m) ss
          → best ≡ best'
          → AreRight c
          → Gives
              (cached_rounds fl overhead budget model assign first best ss c)
              (share_rounds fl overhead budget model value first best' ss)
      cached_rounds_lem value m first [] best best' c assigned keyed hs e right = (e, right)
      cached_rounds_lem value m first ((group, remaining) ∷ ss) best best' c assigned keyed
            ((g, r, short), hs) e right =
          let (e', right') =
            cached_round_lem first group remaining (value remaining) best c (keyed, g) right
              (λ d ok_d. assigned remaining d short r ok_d) in
          cached_rounds_lem value m first ss _ _ _ assigned keyed hs
            (e' ∙ ap (share_round fl overhead budget model (first ∷ group) (value remaining)) e)
            right'

    -- The search with caches finds what the search without them finds.
    pub cached_assignment_lem :
        (f : ℕ) (ns : List (NodeProfile F)) (c : Cached F)
        → length ns ≤ f
        → All (Keyed node_of) ns
        → AreRight c
        → Gives
            (cached_assignment fl overhead budget model f ns c)
            (best_assignment fl overhead budget model (length ns) ns)
    unfolding cached_assignment best_assignment
    cached_assignment_lem zero [] c h keyed right = (refl, right)
    cached_assignment_lem zero (n ∷ ns) c h keyed right = absurd (omega (arith, h))
    cached_assignment_lem (suc f) [] c h keyed right = (refl, right)
    cached_assignment_lem (suc f) (first ∷ rest) c h (keyed, others) right =
        elim (Option-cases (lookup str_discrete (set_key (first ∷ rest)) c.best_cache)) [
          | inl missing ↦
              let (e, right') = cached_assignment_lem f rest c (omega (arith, h)) others right in
              let (e', (plans, bests)) =
                cached_rounds_lem (cached_assignment fl overhead budget model f)
                  (best_assignment fl overhead budget model (length rest)) (length rest) first
                  (splits rest) _ _ _
                  (λ rs d short keyed_rs right_d.
                    let (v, right_v) =
                      cached_assignment_lem f rs d (omega (arith, h, short)) keyed_rs right_d in
                    (
                      v
                          ∙ best_assignment_fuel fl overhead budget model (length rs) (length rest)
                              rs (omega arith) short,
                      right_v,
                    ))
                  keyed (splits-Halves (Keyed node_of) rest others) e right' in
              rw (missing, cached_assignment)
                (e', (plans, insert-Right best_value _ first rest _ (sym e') (keyed, others) bests))
          | inr (found, e) ↦
              rw (e, cached_assignment) (sym (right.1 first rest (keyed, others) found e), right)
        ]
