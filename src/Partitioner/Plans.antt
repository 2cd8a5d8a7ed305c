-- ===== src/Partitioner/Plans.antt =====
-- internal/partitioner/solver.go: `planForSubset`, `presentSorted` and `combinations`.
pub mod Cover
pub mod Choose
use sofmat.Base.{
  ℕ, zero, suc, ◌+◌, Bool, true, false, not, ◌&&◌, List, [], ◌∷◌, ◌++◌, map, length, Option, none,
  some, if◌then◌else◌, Result, ok, err, ltb,
}
use sofmat.Base.Int.{ℤ, pos, negsuc, ◌-ℤ◌}
use sofmat.Base.Strings.{Str, str_le}
use sofmat.Partitioner.{
  Floats, PartitionError, NodeProfile, ModelSpec, Stage, PartitionPlan, time_of, gb_per_layer,
  gb_per_layer_total, kv_total_gb, zero_f,
}
use sofmat.Partitioner.Layers.{assign_layers}

module _ {A : Type 0} where
  -- `combinations`: what `fn` is called with, in the order of the calls. What is left to choose comes
  -- from the items after the last choice, and the loop stops when they are too few.
  unfoldable pub choose : ℕ → List A → List (List A)
  choose zero items = [] ∷ []
  choose (suc left) [] = []
  choose (suc left) (x ∷ xs) =
      let with_x = choose left xs in
      let without_x = choose (suc left) xs in
      if ltb (length xs) left then [] else map (λ s. x ∷ s) with_x ++ without_x

-- `presentSorted`: what is not absent, by id.
unfoldable pub by_id : {F : Type 0} → NodeProfile F → List (NodeProfile F) → List (NodeProfile F)
by_id n [] = n ∷ []
by_id n (m ∷ ms) = let rest = by_id n ms in if str_le n.id m.id then n ∷ m ∷ ms else m ∷ rest

unfoldable pub present_sorted : {F : Type 0} → List (NodeProfile F) → List (NodeProfile F)
present_sorted [] = []
present_sorted (n ∷ ns) = let rest = present_sorted ns in if n.absent then rest else by_id n rest

module _ {F : Type 0} (fl : Floats F) where
  -- The stages, from a first layer.
  unfoldable pub stages_from :
      ModelSpec F → ℕ → List (NodeProfile F) → List ℕ → Result (PartitionError F) (List (Stage F))
  stages_from model first [] counts = ok []
  stages_from model first (n ∷ ns) [] = ok []
  stages_from model first (n ∷ ns) (c ∷ counts) =
      let rest = stages_from model (first + c) ns counts in
      elim (time_of fl n (pos c) (gb_per_layer_total fl model)) [
        | err e ↦ err e
        | ok ms ↦ elim rest [
          | err e ↦ err e
          | ok stages ↦ ok (
              record {
                node_id = n.id;
                first_layer = first;
                layers = c;
                mem_gb = fl.mul (fl.of_int (pos c)) (
                    fl.add (gb_per_layer fl model)
                      (fl.div (kv_total_gb fl model) (fl.of_int model.n_layers)));
                stage_ms = ms;
              }
              ∷ stages)
        ]
      ]

  unfoldable pub compute_from : F → List (Stage F) → F
  compute_from acc [] = acc
  compute_from acc (s ∷ ss) = compute_from (fl.add acc s.stage_ms) ss

  -- The plan of some stages.
  abbrev pub plan_of : F → ℕ → List (Stage F) → PartitionPlan F
  plan_of overhead n stages =
      let network = fl.mul (fl.of_int (pos n -ℤ pos 1)) overhead in
      let token = fl.add (compute_from (zero_f fl) stages) network in
      record {
        stages = stages;
        token_ms = token;
        network_ms = network;
        network_fraction = if fl.lt (zero_f fl) token then fl.div network token else zero_f fl;
      }

  -- `planForSubset`, with `none` for nil.
  unfoldable pub plan_for_subset :
      F
      → F
      → ModelSpec F
      → List (NodeProfile F)
      → Result (PartitionError F) (Option (PartitionPlan F))
  plan_for_subset overhead budget model subset = elim (assign_layers fl subset model) [
    | err e ↦ err e
    | ok none ↦ ok none
    | ok (some counts) ↦ elim (stages_from model 0 subset counts) [
      | err e ↦ err e
      | ok stages ↦
          let plan = plan_of overhead (length subset) stages in
          if ltb 1 (length subset) && fl.lt budget plan.network_fraction
          then ok none
          else ok (some plan)
    ]
  ]
