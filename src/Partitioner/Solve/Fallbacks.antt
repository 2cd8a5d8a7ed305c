-- ===== src/Partitioner/Solve/Fallbacks.antt =====
-- internal/partitioner/solver.go: each fallback of `Solve` is a plan that does without its node.
use sofmat.Base.{
  ◌≡◌, refl, sym, ap, subst, true, false, List, [], ◌∷◌, map, Option, none, some, Result, ok, err,
  All,
}
use sofmat.Base.Strings.{Str, same}
use sofmat.Partitioner.{
  Floats, PartitionError, NodeProfile, ModelSpec, PartitionPlan, PartitionResult, node_ids,
}
use sofmat.Partitioner.Plans.{present_sorted}
use sofmat.Partitioner.Plans.Cover.{plan_for_subset-IsPlan}
use sofmat.Partitioner.Solve.{without, solve_plan, fallbacks_of, solve}
use sofmat.Partitioner.Solve.Members.{All-Sub, All-present_sorted, All-ids, without-All}
use sofmat.Partitioner.Solve.Sound.{solve_present-FromPool, ok_same, passed}

module _ {F : Type 0} (fl : Floats F) (overhead budget : F) (model : ModelSpec F)
    (usable : Option F) where
  -- What all nodes have, the nodes of the plan have.
  pub solve_plan-All :
      (P : Str → Type 0) (nodes : List (NodeProfile F)) (p : PartitionPlan F)
      → All (λ n. P n.id) nodes
      → solve_plan fl overhead budget model usable nodes ≡ ok p
      → All P (node_ids p)
  solve_plan-All P nodes p hs h =
      let (s, sub, some_node, at_s) =
        solve_present-FromPool fl overhead budget model usable (present_sorted nodes) p h in
      let ids = (plan_for_subset-IsPlan fl overhead budget model s p at_s).0 in
      subst (All P) (sym ids)
        (All-ids P s (All-Sub (λ n. P n.id) sub (All-present_sorted (λ n. P n.id) nodes hs)))

  -- A fallback for a node, if there is one, does not use it.
  abbrev pub DoesWithout : Str × Option (PartitionPlan F) → Type 0
  DoesWithout (id, none) = Unit
  DoesWithout (id, some p) = All (λ i. same i id ≡ false) (node_ids p)

  one_more :
      (id : Str) (ids : List Str) (r : Result (PartitionError F) (PartitionPlan F))
      (rest : List (Str × Option (PartitionPlan F)))
      → ((p : PartitionPlan F) → r ≡ ok p → All (λ i. same i id ≡ false) (node_ids p))
      → All DoesWithout rest × (map (λ f. f.0) rest ≡ ids)
      → (let whole : List (Str × Option (PartitionPlan F)) = elim r [
        | err e ↦ (id, none) ∷ rest
        | ok p ↦ (id, some p) ∷ rest
      ] in
          All DoesWithout whole × (map (λ f. f.0) whole ≡ id ∷ ids))
  one_more id ids (err e) rest h (hs, keys) = ((tt, hs), ap (λ x. id ∷ x) keys)
  one_more id ids (ok p) rest h (hs, keys) = ((h p refl, hs), ap (λ x. id ∷ x) keys)

  fallbacks_of-DoesWithout :
      (present : List (NodeProfile F)) (ids : List Str)
      → All DoesWithout (fallbacks_of fl overhead budget model usable present ids)
        × (map (λ f. f.0) (fallbacks_of fl overhead budget model usable present ids) ≡ ids)
  unfolding fallbacks_of
  fallbacks_of-DoesWithout present [] = (tt, refl)
  fallbacks_of-DoesWithout present (id ∷ ids) =
      one_more id ids (solve_plan fl overhead budget model usable (without id present))
        (fallbacks_of fl overhead budget model usable present ids)
        (λ p h.
          solve_plan-All (λ i. same i id ≡ false) (without id present) p (without-All id present) h)
        (fallbacks_of-DoesWithout present ids)

  -- Solve with fallbacks gives one for each node of its plan, and the plan of a fallback does not use
  -- that node.
  pub solve-DoesWithout :
      (nodes : List (NodeProfile F)) (r : PartitionResult F)
      → solve fl overhead budget model usable true nodes ≡ ok r
      → (map (λ f. f.0) r.fallbacks ≡ node_ids r.plan) × All DoesWithout r.fallbacks
  unfolding solve
  solve-DoesWithout nodes r h =
      let (best, at_best, e) = passed (solve_plan fl overhead budget model usable nodes) _ r h in
      let (each, keys) = fallbacks_of-DoesWithout (present_sorted nodes) (node_ids best) in
      subst (λ x. (map (λ f. f.0) x.fallbacks ≡ node_ids x.plan) × All DoesWithout x.fallbacks)
        (ok_same _ r e) (keys, each)
