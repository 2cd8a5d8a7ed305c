-- ===== src/Partitioner/Plans/Cover.antt =====
-- internal/partitioner/solver.go: the stages of a plan cover the layers of the model.
use sofmat.Base.{
  ℕ, ◌+◌, ◌≡◌, ◌≢◌, refl, ap, subst, Bool, false, ◌&&◌, List, [], ◌∷◌, map, length, Option, none,
  some, if◌then◌else◌, Result, ok, err, ltb, Bool-cases, inl, inr,
}
use sofmat.Base.Int.{pos}
use sofmat.Partitioner.{
  Floats, PartitionError, NodeProfile, ModelSpec, Stage, PartitionPlan, node_ids, time_of,
  gb_per_layer_total, gb_per_layer_resident,
}
use sofmat.Partitioner.Layers.{assign_layers}
use sofmat.Partitioner.Layers.Counts.{sum, Held, assign_layers-Held}
use sofmat.Partitioner.Plans.{stages_from, plan_of, plan_for_subset}

-- Each stage starts where the one before it ends.
abbrev pub Contiguous : {F : Type 0} → ℕ → List (Stage F) → Type 0
Contiguous first [] = Unit
Contiguous first (s ∷ ss) = (s.first_layer ≡ first) × Contiguous (first + s.layers) ss

same_stages :
    {F : Type 0} (x y : List (Stage F))
    → ◌≡◌ {A = Result (PartitionError F) (List (Stage F))} (ok x) (ok y)
    → x ≡ y
same_stages x y e = cc

module _ {F : Type 0} (fl : Floats F) where
  -- The stages of some nodes with some counts.
  abbrev Staged : ℕ → List (NodeProfile F) → List ℕ → List (Stage F) → Type 0
  Staged first ns counts stages =
      (map (λ s. s.node_id) stages ≡ map (λ n. n.id) ns)
      × (map (λ s. s.layers) stages ≡ counts)
      × Contiguous first stages

  one_stage :
      (t : Result (PartitionError F) F) (r : Result (PartitionError F) (List (Stage F)))
      (make : F → Stage F) (stages : List (Stage F))
      → (elim t [ err e ↦ err e | ok ms ↦ elim r [ err e ↦ err e | ok ss ↦ ok (make ms ∷ ss) ] ])
        ≡ ok stages
      → (ms : F) × (rest : List (Stage F)) × (r ≡ ok rest) × ((make ms ∷ rest) ≡ stages)
  one_stage (err e) r make stages h = cc
  one_stage (ok ms) (err e) make stages h = cc
  one_stage (ok ms) (ok rest) make stages h = (ms, rest, refl, same_stages _ stages h)

  stages_from-Staged :
      (model : ModelSpec F) (gb : F) (first : ℕ) (ns : List (NodeProfile F)) (counts : List ℕ)
      (stages : List (Stage F))
      → Held fl gb ns counts
      → stages_from fl model first ns counts ≡ ok stages
      → Staged first ns counts stages
  unfolding stages_from
  stages_from-Staged model gb first [] [] stages d h =
      subst (Staged first [] []) (same_stages [] stages h) (refl, refl, tt)
  stages_from-Staged model gb first [] (c ∷ cs) stages d h = absurd d
  stages_from-Staged model gb first (n ∷ ns) [] stages d h = absurd d
  stages_from-Staged model gb first (n ∷ ns) (c ∷ cs) stages (low, cap, d) h =
      let (ms, rest, at_rest, e) =
        one_stage (time_of fl n (pos c) (gb_per_layer_total fl model))
          (stages_from fl model (first + c) ns cs) _ stages h in
      let (ids, layers, contiguous) =
        stages_from-Staged model gb (first + c) ns cs rest d at_rest in
      subst (Staged first (n ∷ ns) (c ∷ cs)) e
        (ap (λ xs. n.id ∷ xs) ids, ap (λ xs. c ∷ xs) layers, (refl, contiguous))

  -- A plan of some nodes: a stage for each, in their order; the stages follow each other from the
  -- first layer to the last; each has one layer at least and what its node can hold; and no more of a
  -- token's time than the budget goes to the network.
  abbrev pub IsPlan : F → ModelSpec F → List (NodeProfile F) → PartitionPlan F → Type 0
  IsPlan budget model subset plan =
      (node_ids plan ≡ map (λ n. n.id) subset)
      × Contiguous 0 plan.stages
      × (pos (sum (map (λ s. s.layers) plan.stages)) ≡ model.n_layers)
      × Held fl (gb_per_layer_resident fl model) subset (map (λ s. s.layers) plan.stages)
      × ((ltb 1 (length subset) && fl.lt budget plan.network_fraction) ≡ false)

  same_plan :
      (x y : PartitionPlan F)
      → ◌≡◌ {A = Result (PartitionError F) (Option (PartitionPlan F))} (ok (some x)) (ok (some y))
      → x ≡ y
  same_plan x y e = cc

  no_plan :
      (y : PartitionPlan F)
      → ◌≢◌ {A = Result (PartitionError F) (Option (PartitionPlan F))} (ok none) (ok (some y))
  no_plan y e = cc

  kept :
      (r : Result (PartitionError F) (List (Stage F))) (make : List (Stage F) → PartitionPlan F)
      (over : PartitionPlan F → Bool) (plan : PartitionPlan F)
      → ◌≡◌ {A = Result (PartitionError F) (Option (PartitionPlan F))}
          (elim r [
            | err e ↦ err e
            | ok stages ↦ if over (make stages) then ok none else ok (some (make stages))
          ])
          (ok (some plan))
      → (stages : List (Stage F)) × (r ≡ ok stages) × (make stages ≡ plan) × (over plan ≡ false)
  kept (err e) make over plan h = cc
  kept (ok stages) make over plan h = elim (Bool-cases (over (make stages))) [
    | inl t ↦ absurd (no_plan plan (rw t at h))
    | inr f ↦
        let e = same_plan (make stages) plan (rw f at h) in
        (stages, refl, e, subst (λ x. over x ≡ false) e f)
  ]

  planned :
      (a : Result (PartitionError F) (Option (List ℕ)))
      (st : List ℕ → Result (PartitionError F) (List (Stage F)))
      (make : List (Stage F) → PartitionPlan F) (over : PartitionPlan F → Bool)
      (plan : PartitionPlan F)
      → ◌≡◌ {A = Result (PartitionError F) (Option (PartitionPlan F))}
          (elim a [
            | err e ↦ err e
            | ok none ↦ ok none
            | ok (some counts) ↦ elim (st counts) [
              | err e ↦ err e
              | ok stages ↦ if over (make stages) then ok none else ok (some (make stages))
            ]
          ])
          (ok (some plan))
      → (counts : List ℕ) × (a ≡ ok (some counts))
        × (stages : List (Stage F)) × (st counts ≡ ok stages)
        × (make stages ≡ plan)
        × (over plan ≡ false)
  planned (err e) st make over plan h = cc
  planned (ok none) st make over plan h = absurd (no_plan plan h)
  planned (ok (some counts)) st make over plan h =
      let (stages, at_stages, e, o) = kept (st counts) make over plan h in
      (counts, refl, stages, at_stages, e, o)

  -- A plan of a subset covers the layers of the model with a stage for each node, in order; each stage
  -- has a layer at least and no more than its node can hold, and a plan of several stages is within
  -- the network budget.
  pub plan_for_subset-IsPlan :
      (overhead budget : F) (model : ModelSpec F) (subset : List (NodeProfile F))
      (plan : PartitionPlan F)
      → plan_for_subset fl overhead budget model subset ≡ ok (some plan)
      → IsPlan budget model subset plan
  unfolding plan_for_subset
  plan_for_subset-IsPlan overhead budget model subset plan h =
      let (counts, at_counts, stages, at_stages, is_plan, within) =
        planned (assign_layers fl subset model) (stages_from fl model 0 subset)
          (plan_of fl overhead (length subset))
          (λ p. ltb 1 (length subset) && fl.lt budget p.network_fraction) plan h in
      let (total, d) = assign_layers-Held fl model subset counts at_counts in
      let (ids, layers, contiguous) =
        stages_from-Staged model (gb_per_layer_resident fl model) 0 subset counts stages d
          at_stages in
      let same_st : stages ≡ plan.stages = ap (λ p. p.stages) is_plan in
      (
        subst (λ x. map (λ s. s.node_id) x ≡ map (λ n. n.id) subset) same_st ids,
        subst (Contiguous 0) same_st contiguous,
        subst (λ x. pos (sum (map (λ s. s.layers) x)) ≡ model.n_layers) same_st (rw layers total),
        subst (λ x. Held fl (gb_per_layer_resident fl model) subset (map (λ s. s.layers) x)) same_st
            (rw layers d),
        within,
      )
