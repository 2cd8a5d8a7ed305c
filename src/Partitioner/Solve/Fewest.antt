-- ===== src/Partitioner/Solve/Fewest.antt =====
-- internal/partitioner/solver.go: with a floor that a plan reaches, `Solve` uses the fewest nodes.
use sofmat.Base.{
  ℕ, zero, suc, ◌≤◌, ◌<◌, ◌≡◌, ◌≢◌, refl, sym, ap, subst, ◌∙◌, true, false, List, [], ◌∷◌, length,
  length-map, Option, none, some, Option-cases, ok, arith, Bool-cases, ◌⊎◌, inl, inr, ℕ_discrete,
  true-false,
}
use sofmat.Partitioner.{Floats, NodeProfile, ModelSpec, PartitionPlan}
use sofmat.Partitioner.Plans.{plan_for_subset, present_sorted, choose}
use sofmat.Partitioner.Plans.Choose.{In, Sub, choose_iff}
use sofmat.Partitioner.Plans.Cover.{plan_for_subset-IsPlan}
use sofmat.Partitioner.Solve.{
  best_of, best_per_k, choose_plan, solve_plan, fastest_from, first_within, floor_of,
}
use sofmat.Partitioner.Solve.Sound.{
  passed, ok_same, same_plan, nothing, solve_present-ok, best_of-PlanOf, fastest_from-In,
}
use sofmat.Partitioner.Solve.Fastest.{Ordered, NotBelow, best_of-least}

abbrev with_best :
    {F : Type 0} → Option (PartitionPlan F) → List (PartitionPlan F) → List (PartitionPlan F)
with_best o rest = elim o [ none ↦ rest | some p ↦ p ∷ rest ]

or_fastest_none :
    {F : Type 0} (o : Option (PartitionPlan F)) (f : PartitionPlan F)
    → o ≡ none
    → (elim o [ some p ↦ p | none ↦ f ]) ≡ f
or_fastest_none none f h = refl
or_fastest_none (some p) f h = cc

or_fastest_some :
    {F : Type 0} (o : Option (PartitionPlan F)) (f p : PartitionPlan F)
    → o ≡ some p
    → (elim o [ some x ↦ x | none ↦ f ]) ≡ p
or_fastest_some none f p h = absurd (nothing p h)
or_fastest_some (some x) f p h = same_plan x p h

module _ {F : Type 0} (fl : Floats F) where
  first_within-cons :
      (c : F) (p q : PartitionPlan F) (ps : List (PartitionPlan F))
      → first_within fl c (q ∷ ps) ≡ some p
      → (q ≡ p) ⊎ ((fl.le q.token_ms c ≡ false) × (first_within fl c ps ≡ some p))
  unfolding first_within
  first_within-cons c p q ps h = elim (Bool-cases (fl.le q.token_ms c)) [
    | inl reached ↦ inl (same_plan q p (rw reached at h))
    | inr missed ↦ inr (missed, rw missed at h)
  ]

  first_within-none :
      (c : F) (p : PartitionPlan F) (ps : List (PartitionPlan F))
      → first_within fl c ps ≡ none
      → In p ps
      → fl.le p.token_ms c ≡ false
  unfolding first_within
  first_within-none c p [] h m = absurd m
  first_within-none c p (q ∷ ps) h m = elim (Bool-cases (fl.le q.token_ms c)) [
    | inl reached ↦ absurd (nothing q (sym (rw reached at h)))
    | inr missed ↦ elim m [
      | inl e ↦ subst (λ x. fl.le x.token_ms c ≡ false) e missed
      | inr later ↦ first_within-none c p ps (rw missed at h) later
    ]
  ]

  module _ (laws : Ordered fl) (overhead budget : F) (model : ModelSpec F) where
    -- The plan of a depth has as many stages.
    depth :
        (k : ℕ) (present : List (NodeProfile F)) (p : PartitionPlan F)
        → best_of fl overhead budget model none (choose k present) ≡ ok (some p)
        → length p.stages ≡ k
    depth k present p h =
        elim (best_of-PlanOf fl overhead budget model none (choose k present) p h) [
          | inl impossible ↦ absurd (nothing p impossible)
          | inr (s, m, at_s) ↦
              let ids = (plan_for_subset-IsPlan fl overhead budget model s p at_s).0 in
              sym (length-map p.stages (λ t. t.node_id))
              ∙ ap length ids
              ∙ length-map s (λ n. n.id)
              ∙ ((choose_iff k present s).0 m).1
        ]

    missed_too : (c : F) (q p : F) → fl.lt q p ≡ false → fl.le p c ≡ false → fl.le q c ≡ false
    missed_too c q p below missed = elim (Bool-cases (fl.le q c)) [
      | inl reached ↦ absurd (true-false (sym (laws.under q p c reached below) ∙ missed))
      | inr f ↦ f
    ]

    best_per_k-missed :
        (c : F) (present : List (NodeProfile F)) (k more d : ℕ) (ps : List (PartitionPlan F))
        (p : PartitionPlan F) (s : List (NodeProfile F)) (q : PartitionPlan F)
        → best_per_k fl overhead budget model present k more ≡ ok ps
        → first_within fl c ps ≡ some p
        → k ≤ d
        → d < length p.stages
        → In s (choose d present)
        → plan_for_subset fl overhead budget model s ≡ ok (some q)
        → fl.le q.token_ms c ≡ false
    unfolding best_per_k first_within
    best_per_k-missed c present k zero d ps p s q h w low high m e =
        absurd (nothing p (subst (λ x. first_within fl c x ≡ some p) (sym (ok_same [] ps h)) w))
    best_per_k-missed c present k (suc more) d ps p s q h w low high m e =
        let (o, at_k, later) =
          passed (best_of fl overhead budget model none (choose k present)) _ ps h in
        let (rest, at_rest, is_ps) =
          passed (best_per_k fl overhead budget model present (suc k) more) _ ps later in
        let w' : first_within fl c (with_best o rest) ≡ some p =
          subst (λ x. first_within fl c x ≡ some p) (sym (ok_same _ ps is_ps)) w in
        let deeper : first_within fl c rest ≡ some p → k ≢ d → fl.le q.token_ms c ≡ false = λ w3 ne.
          best_per_k-missed c present (suc k) more d rest p s q at_rest w3 (omega (arith, low, ne))
            high m e in
        let here : k ≡ d → NotBelow fl laws overhead budget model q.token_ms o = λ same_depth.
          best_of-least fl laws overhead budget model none (choose k present) o s q at_k
            (subst (λ x. In s (choose x present)) (sym same_depth) m) e in
        elim (Option-cases o) [
          | inl no_best ↦ elim (ℕ_discrete k d) [
            | yes same_depth ↦
                let (p', at_o, n) = here same_depth in absurd (nothing p' (sym no_best ∙ at_o))
            | no ne ↦
                deeper (subst (λ x. first_within fl c (with_best x rest) ≡ some p) no_best w') ne
          ]
          | inr (p', at_o) ↦
              elim (first_within-cons c p p' rest
                (subst (λ x. first_within fl c (with_best x rest) ≡ some p) at_o w')) [
                  | inl is_p ↦
                      let deep = depth k present p' (at_k ∙ ap ok at_o) in
                      let same_length : length p'.stages ≡ length p.stages =
                        ap (λ x. length x.stages) is_p in
                      absurd (omega (arith, deep, same_length, low, high))
                  | inr (missed, w3) ↦ elim (ℕ_discrete k d) [
                    | yes same_depth ↦
                        let (p2, at_o2, n) = here same_depth in
                        let e2 = same_plan p2 p' (sym at_o2 ∙ at_o) in
                        missed_too c q.token_ms p'.token_ms
                          (subst (λ x. fl.lt q.token_ms x.token_ms ≡ false) e2 n) missed
                    | no ne ↦ deeper w3 ne
                  ]
                ]
        ]

    -- When the plan of Solve reaches a speed floor, no plan of fewer present nodes reaches it.
    pub solve_plan-fewest :
        (usable : F) (nodes : List (NodeProfile F)) (best : PartitionPlan F)
        (s : List (NodeProfile F)) (q : PartitionPlan F)
        → solve_plan fl overhead budget model (some usable) nodes ≡ ok best
        → fl.le best.token_ms (floor_of fl usable) ≡ true
        → Sub s (present_sorted nodes)
        → 1 ≤ length s
        → length s < length best.stages
        → plan_for_subset fl overhead budget model s ≡ ok (some q)
        → fl.le q.token_ms (floor_of fl usable) ≡ false
    unfolding choose_plan
    solve_plan-fewest usable nodes best s q h reached sub some_node fewer e =
        let present = present_sorted nodes in
        let c = floor_of fl usable in
        let (ps, at_ps, b, rest, is_ps, chosen) =
          solve_present-ok fl overhead budget model (some usable) present best h in
        elim (Option-cases (first_within fl c (b ∷ rest))) [
          | inl none_within ↦
              let last =
                sym (
                  or_fastest_none (first_within fl c (b ∷ rest)) (fastest_from fl b rest)
                    none_within)
                ∙ chosen in
              absurd (
                true-false (
                  sym reached
                  ∙ first_within-none c best (b ∷ rest) none_within
                      (subst (λ x. In x (b ∷ rest)) last (fastest_from-In fl b rest))))
          | inr (p, within) ↦
              let is_best =
                sym
                  (or_fastest_some (first_within fl c (b ∷ rest)) (fastest_from fl b rest) p within)
                ∙ chosen in
              best_per_k-missed c present 1 (length present) (length s) ps p s q at_ps
                (subst (λ x. first_within fl c x ≡ some p) (sym is_ps) within) some_node
                (subst (λ x. length s < length x.stages) (sym is_best) fewer)
                ((choose_iff (length s) present s).1 (sub, refl)) e
        ]
