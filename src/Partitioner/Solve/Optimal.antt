-- ===== src/Partitioner/Solve/Optimal.antt =====
-- internal/partitioner/solver.go: without a floor, `Solve` gives a plan that no other part of the nodes
-- beats.
use sofmat.Base.{
  ℕ, zero, suc, ◌+◌, ◌≤◌, ◌<◌, ◌≡◌, refl, sym, subst, false, List, ◌∷◌, length, Option, none, some,
  ok, arith, inl, inr, ℕ_discrete,
}
use sofmat.Partitioner.{Floats, NodeProfile, ModelSpec, PartitionPlan}
use sofmat.Partitioner.Plans.{plan_for_subset, present_sorted, choose}
use sofmat.Partitioner.Plans.Choose.{In, Sub, choose_iff, length-Sub}
use sofmat.Partitioner.Solve.{best_of, best_per_k, choose_plan, solve_plan}
use sofmat.Partitioner.Solve.Sound.{passed, ok_same, same_plan, solve_present-ok}
use sofmat.Partitioner.Solve.Fastest.{Ordered, best_of-least, fastest_from-least}

In-rest :
    {F : Type 0} (o : Option (PartitionPlan F)) (p : PartitionPlan F) (ps : List (PartitionPlan F))
    → In p ps
    → In p (elim o [ none ↦ ps | some q ↦ q ∷ ps ])
In-rest none p ps h = h
In-rest (some q) p ps h = inr h

In-best :
    {F : Type 0} (o : Option (PartitionPlan F)) (p : PartitionPlan F) (ps : List (PartitionPlan F))
    → o ≡ some p
    → In p (elim o [ none ↦ ps | some q ↦ q ∷ ps ])
In-best none p ps h = cc
In-best (some q) p ps h = inl (same_plan q p h)

module _ {F : Type 0} (fl : Floats F) (laws : Ordered fl) (overhead budget : F)
    (model : ModelSpec F) where
  -- One of some plans is not above a number.
  abbrev Reached : F → List (PartitionPlan F) → Type 0
  Reached x ps = (p : PartitionPlan F) × In p ps × (fl.lt x p.token_ms ≡ false)

  best_per_k-least :
      (present : List (NodeProfile F)) (k more d : ℕ) (ps : List (PartitionPlan F))
      (s : List (NodeProfile F)) (q : PartitionPlan F)
      → best_per_k fl overhead budget model present k more ≡ ok ps
      → k ≤ d
      → d < k + more
      → In s (choose d present)
      → plan_for_subset fl overhead budget model s ≡ ok (some q)
      → Reached q.token_ms ps
  unfolding best_per_k
  best_per_k-least present k zero d ps s q h low high m e = absurd (omega (arith, low, high))
  best_per_k-least present k (suc more) d ps s q h low high m e =
      let (o, at_k, later) =
        passed (best_of fl overhead budget model none (choose k present)) _ ps h in
      let (rest, at_rest, is_ps) =
        passed (best_per_k fl overhead budget model present (suc k) more) _ ps later in
      subst (Reached q.token_ms) (ok_same _ ps is_ps) (elim (ℕ_discrete k d) [
        | yes here ↦
            let (p, at_o, n) =
              best_of-least fl laws overhead budget model none (choose k present) o s q at_k
                (subst (λ x. In s (choose x present)) (sym here) m) e in
            (p, In-best o p rest at_o, n)
        | no ne ↦
            let (p, i, n) =
              best_per_k-least present (suc k) more d rest s q at_rest (omega (arith, low, ne))
                (omega (arith, high)) m e in
            (p, In-rest o p rest i, n)
      ])

  -- When no speed floor is set, no plan of a part of the present nodes is faster than the plan that
  -- Solve gives.
  pub solve_plan-fastest :
      (nodes : List (NodeProfile F)) (best : PartitionPlan F) (s : List (NodeProfile F))
      (q : PartitionPlan F)
      → solve_plan fl overhead budget model none nodes ≡ ok best
      → Sub s (present_sorted nodes)
      → 1 ≤ length s
      → plan_for_subset fl overhead budget model s ≡ ok (some q)
      → fl.lt q.token_ms best.token_ms ≡ false
  unfolding choose_plan
  solve_plan-fastest nodes best s q h sub some_node e =
      let present = present_sorted nodes in
      let (ps, at_ps, b, rest, is_ps, chosen) =
        solve_present-ok fl overhead budget model none present best h in
      let (p, i, n) =
        best_per_k-least present 1 (length present) (length s) ps s q at_ps some_node
          (omega (arith, length-Sub sub)) ((choose_iff (length s) present s).1 (sub, refl)) e in
      subst (λ x. fl.lt q.token_ms x.token_ms ≡ false) chosen
        (fastest_from-least fl laws b rest p q.token_ms (subst (In p) is_ps i) n)
