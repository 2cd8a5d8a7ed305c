-- ===== src/Partitioner/Layers.antt =====
-- internal/partitioner/solver.go: `assignLayers`. A node has a slot: its cap and its count.
pub mod Counts
use sofmat.Base.{
  ℕ, zero, suc, ◌+◌, ◌-◌, min, Bool, true, false, List, [], ◌∷◌, ◌++◌, map, length, Option, none,
  some, if◌then◌else◌, Result, ok, err, ltb, ◌==◌,
}
use sofmat.Base.Int.{ℤ, pos, negsuc, ltb_ℤ, ◌-ℤ◌}
use sofmat.Partitioner.{
  Floats, PartitionError, NodeProfile, ModelSpec, time_of, gb_per_layer_resident,
  gb_per_layer_total,
}

pub record Slot : Type 0 where
  pub cap : ℕ
  pub count : ℕ

-- `counts[i] += take` of the slot at an index, with what it takes.
unfoldable pub fill_at : ℕ → ℕ → List Slot → ℕ × List Slot
fill_at i left [] = (left, [])
fill_at zero left (s ∷ ss) =
    let taken = min left (s.cap - s.count) in
    (left - taken, record s { count = s.count + taken } ∷ ss)
fill_at (suc i) left (s ∷ ss) = let (left', ss') = fill_at i left ss in (left', s ∷ ss')

-- The loop over the order, which stops when nothing is left.
unfoldable pub fill : List ℕ → ℕ → List Slot → ℕ × List Slot
fill [] left ss = (left, ss)
fill (i ∷ order) left ss =
    let (left', ss') = fill_at i left ss in
    let rest = fill order left' ss' in if left' == 0 then (left', ss') else rest

unfoldable pub total_cap : List Slot → ℕ
total_cap [] = 0
total_cap (s ∷ ss) = s.cap + total_cap ss

module _ {F : Type 0} (fl : Floats F) where
  -- The caps; a node that holds no layer gives nil.
  unfoldable pub slots_of : F → List (NodeProfile F) → Option (List Slot)
  slots_of gb_layer [] = some []
  slots_of gb_layer (n ∷ ns) =
      let rest = slots_of gb_layer ns in
      elim (fl.trunc (fl.div n.model_mem_cap_gb gb_layer)) [
        | negsuc k ↦ none
        | pos zero ↦ none
        | pos (suc k) ↦ elim rest [
          | none ↦ none
          | some ss ↦ some (record { cap = suc k; count = 1 } ∷ ss)
        ]
      ]

  -- The time of one layer on each node, with the index of the node.
  unfoldable pub speeds_from :
      F → ℕ → List (NodeProfile F) → Result (PartitionError F) (List (ℕ × F))
  speeds_from gb i [] = ok []
  speeds_from gb i (n ∷ ns) =
      let rest = speeds_from gb (suc i) ns in
      elim (time_of fl n (pos 1) gb) [
        | err e ↦ err e
        | ok ms ↦ elim rest [ err e ↦ err e | ok ss ↦ ok ((i, ms) ∷ ss) ]
      ]

  -- `sort.SliceStable` by the speed.
  unfoldable pub by_speed : ℕ × F → List (ℕ × F) → List (ℕ × F)
  by_speed s [] = s ∷ []
  by_speed s (t ∷ ts) = let rest = by_speed s ts in if fl.lt t.1 s.1 then t ∷ rest else s ∷ t ∷ ts

  unfoldable pub fastest_first : List (ℕ × F) → List (ℕ × F)
  fastest_first [] = []
  fastest_first (s ∷ ss) = by_speed s (fastest_first ss)

  -- `assignLayers`, with `none` for nil.
  unfoldable pub assign_layers :
      List (NodeProfile F) → ModelSpec F → Result (PartitionError F) (Option (List ℕ))
  assign_layers subset model = elim (slots_of (gb_per_layer_resident fl model) subset) [
    | none ↦ ok none
    | some ss ↦
        if ltb_ℤ (pos (total_cap ss)) model.n_layers
        then ok none
        else elim (model.n_layers -ℤ pos (length subset)) [
          | negsuc k ↦ ok none
          | pos left ↦ elim (speeds_from (gb_per_layer_total fl model) 0 subset) [
            | err e ↦ err e
            | ok speeds ↦
                let (left', ss') = fill (map (λ s. s.0) (fastest_first speeds)) left ss in
                if left' == 0 then ok (some (map (λ s. s.count) ss')) else ok none
          ]
        ]
  ]
