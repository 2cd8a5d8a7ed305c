-- ===== src/Partitioner/Replicas/Apart.antt =====
-- internal/partitioner/solver.go: the replicas of `SolveReplicas` share no node.
use sofmat.Base.{
  ℕ, zero, suc, ◌≡◌, ◌≢◌, refl, sym, ◌∙◌, true-false, subst, Bool, true, false, List, [], ◌∷◌, none,
  if◌then◌else◌, All, All-swap, Result, ok, err, Bool-cases, inl, inr,
}
use sofmat.Base.Strings.{Str, same}
use sofmat.Update.Guard.Refusals.{same_self}
use sofmat.Partitioner.{Floats, PartitionError, NodeProfile, ModelSpec, PartitionPlan, node_ids}
use sofmat.Partitioner.Plans.{present_sorted}
use sofmat.Partitioner.Plans.Cover.{IsPlan, plan_for_subset-IsPlan}
use sofmat.Partitioner.Solve.{solve_plan}
use sofmat.Partitioner.Solve.Sound.{solve_present-FromPool}
use sofmat.Partitioner.Solve.Members.{All-Sub, All-present_sorted}
use sofmat.Partitioner.Solve.Fallbacks.{solve_plan-All}
use sofmat.Partitioner.Replicas.{
  Assignment, beside, splits, has_id, by_ids, with_replica, wins_share, share_round, share_rounds,
  best_assignment,
}

pub not_either : (a b : Bool) → (if a then true else b) ≡ false → (a ≡ false) × (b ≡ false)
not_either true b h = cc
not_either false b h = (refl, h)

pub differ : {a b : Str} → same a b ≡ false → a ≢ b
differ {a} h e = true-false (sym (subst (λ x. same a x ≡ true) e (same_self a)) ∙ h)

module _ {F : Type 0} where
  abbrev pub AllOf : (Str → Type 0) → List (NodeProfile F) → Type 0
  AllOf P ns = All (λ n. P n.id) ns

  -- No id stands twice.
  abbrev pub OneEach : List (NodeProfile F) → Type 0
  OneEach [] = Unit
  OneEach (n ∷ ns) = AllOf (λ i. n.id ≢ i) ns × OneEach ns

  -- No node is in both lists.
  abbrev Cross : List (NodeProfile F) → List (NodeProfile F) → Type 0
  Cross group remaining = All (λ n. AllOf (λ i. n.id ≢ i) remaining) group

  has_id-none :
      (id : Str) (ns : List (NodeProfile F)) → has_id id ns ≡ false → AllOf (λ i. id ≢ i) ns
  has_id-none id [] h = tt
  has_id-none id (n ∷ ns) h =
      let (other, later) = not_either (same id n.id) (has_id id ns) h in
      (differ other, has_id-none id ns later)

  pub All-by_ids :
      (P : NodeProfile F → Type 0) (ns : List (NodeProfile F)) → All P ns → All P (by_ids ns)
  All-by_ids P [] hs = tt
  All-by_ids P (n ∷ ns) (h, hs) = elim (Bool-cases (has_id n.id ns)) [
    | inl twice ↦ rw twice (All-by_ids P ns hs)
    | inr last ↦ rw last (h, All-by_ids P ns hs)
  ]

  pub by_ids-OneEach : (ns : List (NodeProfile F)) → OneEach (by_ids ns)
  by_ids-OneEach [] = tt
  by_ids-OneEach (n ∷ ns) = elim (Bool-cases (has_id n.id ns)) [
    | inl twice ↦ rw twice (by_ids-OneEach ns)
    | inr last ↦
        rw last (All-by_ids (λ m. n.id ≢ m.id) ns (has_id-none n.id ns last), by_ids-OneEach ns)
  ]

  -- What a split of nodes without a repeated id is: what all have, both parts have; no node is in
  -- both; and what remains has no repeated id.
  abbrev Parts : List (NodeProfile F) → List (NodeProfile F) × List (NodeProfile F) → Type 1
  Parts ns (group, remaining) =
      ((P : NodeProfile F → Type 0) → All P ns → All P group × All P remaining)
      × Cross group remaining
      × OneEach remaining

  Cross-cons :
      (x : NodeProfile F) (group remaining : List (NodeProfile F))
      → AllOf (λ i. x.id ≢ i) group
      → Cross group remaining
      → Cross group (x ∷ remaining)
  Cross-cons x [] remaining h c = tt
  Cross-cons x (n ∷ group) remaining (h, hs) (c, cs) =
      ((λ e. h (sym e), c), Cross-cons x group remaining hs cs)

  beside-Parts :
      (x : NodeProfile F) (xs : List (NodeProfile F))
      (ss : List (List (NodeProfile F) × List (NodeProfile F)))
      → AllOf (λ i. x.id ≢ i) xs
      → All (Parts xs) ss
      → All (Parts (x ∷ xs)) (beside x ss)
  beside-Parts x xs [] off hs = tt
  beside-Parts x xs ((group, remaining) ∷ ss) off ((both, cross, once), hs) =
      let (off_group, off_remaining) = both (λ n. x.id ≢ n.id) off in
      (
        (
          λ P h. ((both P h.1).0, (h.0, (both P h.1).1)),
          Cross-cons x group remaining off_group cross,
          (off_remaining, once),
        ),
        (
          (λ P h. ((h.0, (both P h.1).0), (both P h.1).1), (off_remaining, cross), once),
          beside-Parts x xs ss off hs,
        ),
      )

  splits-Parts : (ns : List (NodeProfile F)) → OneEach ns → All (Parts ns) (splits ns)
  splits-Parts [] once = ((λ P h. (tt, tt), tt, tt), tt)
  splits-Parts (n ∷ ns) (off, once) = beside-Parts n ns (splits ns) off (splits-Parts ns once)

  -- Two plans without a common node.
  abbrev pub ApartOf : PartitionPlan F → PartitionPlan F → Type 0
  ApartOf p q = All (λ i. All (λ j. i ≢ j) (node_ids q)) (node_ids p)

  abbrev pub PairsApart : List (PartitionPlan F) → Type 0
  PairsApart [] = Unit
  PairsApart (p ∷ ps) = All (ApartOf p) ps × PairsApart ps

module _ {F : Type 0} (fl : Floats F) (overhead budget : F) (model : ModelSpec F) where
  -- A plan that covers the model with some of the nodes that have a property.
  abbrev pub ValidOf : (NodeProfile F → Type 0) → PartitionPlan F → Type 0
  ValidOf P p = (s : List (NodeProfile F)) × All P s × IsPlan fl budget model s p

  -- The plans are apart and cover the model each, and what all nodes have, their nodes have.
  abbrev pub Good : List (NodeProfile F) → List (PartitionPlan F) → Type 1
  Good ns ps =
      PairsApart ps
      × ((P : NodeProfile F → Type 0) → All P ns → All (ValidOf P) ps)
      × ((P : Str → Type 0) → AllOf P ns → All (λ p. All P (node_ids p)) ps)

  solve_plan-ValidOf :
      (P : NodeProfile F → Type 0) (group : List (NodeProfile F)) (plan : PartitionPlan F)
      → All P group
      → solve_plan fl overhead budget model none group ≡ ok plan
      → ValidOf P plan
  solve_plan-ValidOf P group plan hs h =
      let (s, sub, some_node, at_s) =
        solve_present-FromPool fl overhead budget model none (present_sorted group) plan h in
      (
        s,
        All-Sub P sub (All-present_sorted P group hs),
        plan_for_subset-IsPlan fl overhead budget model s plan at_s,
      )

  Good-with_replica :
      (ns group remaining : List (NodeProfile F)) (plan : PartitionPlan F) (sub : Assignment F)
      → ((P : NodeProfile F → Type 0) → All P ns → All P group × All P remaining)
      → Cross group remaining
      → solve_plan fl overhead budget model none group ≡ ok plan
      → Good remaining sub.plans
      → Good ns (with_replica fl plan sub).plans
  Good-with_replica ns group remaining plan sub both cross solved (apart, valid, within) = (
    (
      all_apart sub.plans (
          within (λ j. AllOf (λ i. i ≢ j) group)
            (All-swap (λ n m. n.id ≢ m.id) group remaining cross)),
      apart,
    ),
    λ P h. (solve_plan-ValidOf P group plan (both P h).0 solved, valid P (both P h).1),
    λ P h. (
      solve_plan-All fl overhead budget model none P group plan (both (λ n. P n.id) h).0 solved,
      within P (both (λ n. P n.id) h).1,
    ),
  )
    where
      all_apart :
          (qs : List (PartitionPlan F))
          → All (λ q. All (λ j. AllOf (λ i. i ≢ j) group) (node_ids q)) qs
          → All (ApartOf plan) qs
      all_apart [] h = tt
      all_apart (q ∷ qs) (h, hs) = (
        solve_plan-All fl overhead budget model none (λ i. All (λ j. i ≢ j) (node_ids q)) group plan
            (All-swap (λ j n. n.id ≢ j) (node_ids q) group h) solved,
        all_apart qs hs,
      )

  module _ (rest : List (NodeProfile F)) (first : NodeProfile F)
      (off : AllOf (λ i. first.id ≢ i) rest) (sub : List (NodeProfile F) → Assignment F)
      (sub_good : (rs : List (NodeProfile F)) → OneEach rs → Good rs (sub rs).plans) where
    -- One round keeps the best assignment good.
    Good-share_round :
        (group remaining : List (NodeProfile F)) (best : Assignment F)
        → Parts rest (group, remaining)
        → Good (first ∷ rest) best.plans
        → Good
            (first ∷ rest)
            (share_round fl overhead budget model (first ∷ group) (sub remaining) best).plans
    unfolding share_round
    Good-share_round group remaining best (both, cross, once) good =
        pick (solve_plan fl overhead budget model none (first ∷ group)) (λ plan solved.
          Good-with_replica (first ∷ rest) (first ∷ group) remaining plan (sub remaining)
            (λ P h. ((h.0, (both P h.1).0), (both P h.1).1))
            ((both (λ n. first.id ≢ n.id) off).1, cross) solved (sub_good remaining once))
      where
        pick :
            (r : Result (PartitionError F) (PartitionPlan F))
            → ((plan : PartitionPlan F)
                → r ≡ ok plan
                → Good (first ∷ rest) (with_replica fl plan (sub remaining)).plans)
            → (let chosen : Assignment F = elim r [
              | err e ↦ best
              | ok plan ↦
                  if wins_share fl (with_replica fl plan (sub remaining)) best
                  then with_replica fl plan (sub remaining)
                  else best
            ] in
                Good (first ∷ rest) chosen.plans)
        pick (err e) h = good
        pick (ok plan) h =
            elim (Bool-cases (wins_share fl (with_replica fl plan (sub remaining)) best)) [
              | inl wins ↦ rw wins (h plan refl)
              | inr loses ↦ rw loses good
            ]

    Good-share_rounds :
        (ss : List (List (NodeProfile F) × List (NodeProfile F))) (best : Assignment F)
        → All (Parts rest) ss
        → Good (first ∷ rest) best.plans
        → Good (first ∷ rest) (share_rounds fl overhead budget model sub first best ss).plans
    Good-share_rounds [] best hs good = good
    Good-share_rounds ((group, remaining) ∷ ss) best (h, hs) good =
        Good-share_rounds ss _ hs (Good-share_round group remaining best h good)

  pub best_assignment-Good :
      (f : ℕ) (ns : List (NodeProfile F))
      → OneEach ns
      → Good ns (best_assignment fl overhead budget model f ns).plans
  unfolding best_assignment
  best_assignment-Good zero ns once = (tt, λ P h. tt, λ P h. tt)
  best_assignment-Good (suc f) [] once = (tt, λ P h. tt, λ P h. tt)
  best_assignment-Good (suc f) (first ∷ rest) (off, once) =
      let idle = best_assignment-Good f rest once in
      Good-share_rounds rest first off (best_assignment fl overhead budget model f)
        (best_assignment-Good f) (splits rest) _ (splits-Parts rest once)
        (idle.0, λ P h. idle.1 P h.1, λ P h. idle.2 P h.1)
