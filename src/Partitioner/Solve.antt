-- ===== src/Partitioner/Solve.antt =====
-- internal/partitioner/solver.go: `Solve`. The plans of the depths stand in the order of the depths.
pub mod Members
pub mod Sound
pub mod Fastest
pub mod Optimal
pub mod Fewest
pub mod Fallbacks
use sofmat.Base.{
  ℕ, zero, suc, ◌+◌, Bool, true, false, not, ◌&&◌, ◌||◌, List, [], ◌∷◌, ◌++◌, map, length, Option,
  none, some, if◌then◌else◌, Result, ok, err, ltb, ◌==◌,
}
use sofmat.Base.Int.{pos}
use sofmat.Base.Strings.{Str, same}
use sofmat.Partitioner.{
  Floats, PartitionError, no_nodes, too_large, no_map, NodeProfile, ModelSpec, PartitionPlan,
  PartitionResult, pool_fits, caps_from, total_gb, zero_f, node_ids,
}
use sofmat.Partitioner.Plans.{plan_for_subset, present_sorted, choose}

-- The nodes of another id.
unfoldable pub without : {F : Type 0} → Str → List (NodeProfile F) → List (NodeProfile F)
without id [] = []
without id (n ∷ ns) = let rest = without id ns in if same n.id id then rest else n ∷ rest

module _ {F : Type 0} (fl : Floats F) where
  -- The callback of `combinations`: the best plan so far of one depth.
  abbrev pub better : Option (PartitionPlan F) → Option (PartitionPlan F) → Option (PartitionPlan F)
  better best none = best
  better none (some p) = some p
  better (some b) (some p) = if fl.lt p.token_ms b.token_ms then some p else some b

  unfoldable pub best_of :
      F
      → F
      → ModelSpec F
      → Option (PartitionPlan F)
      → List (List (NodeProfile F))
      → Result (PartitionError F) (Option (PartitionPlan F))
  best_of overhead budget model best [] = ok best
  best_of overhead budget model best (s ∷ ss) = elim (plan_for_subset fl overhead budget model s) [
    | err e ↦ err e
    | ok p ↦ best_of overhead budget model (better best p) ss
  ]

  -- `bestPerK`, for so many depths from `k`.
  unfoldable pub best_per_k :
      F
      → F
      → ModelSpec F
      → List (NodeProfile F)
      → ℕ
      → ℕ
      → Result (PartitionError F) (List (PartitionPlan F))
  best_per_k overhead budget model present k zero = ok []
  best_per_k overhead budget model present k (suc more) =
      let rest = best_per_k overhead budget model present (suc k) more in
      elim (best_of overhead budget model none (choose k present)) [
        | err e ↦ err e
        | ok best ↦ elim rest [
          | err e ↦ err e
          | ok plans ↦ ok (elim best [ none ↦ plans | some p ↦ p ∷ plans ])
        ]
      ]

  -- `fastest`: ties go to fewer stages.
  abbrev pub faster : PartitionPlan F → PartitionPlan F → Bool
  faster p b =
      fl.lt p.token_ms b.token_ms
      || (fl.same p.token_ms b.token_ms && ltb (length p.stages) (length b.stages))

  unfoldable pub fastest_from : PartitionPlan F → List (PartitionPlan F) → PartitionPlan F
  fastest_from b [] = b
  fastest_from b (p ∷ ps) = fastest_from (if faster p b then p else b) ps

  -- The first plan that reaches the floor.
  unfoldable pub first_within : F → List (PartitionPlan F) → Option (PartitionPlan F)
  first_within floor_ms [] = none
  first_within floor_ms (p ∷ ps) =
      let rest = first_within floor_ms ps in if fl.le p.token_ms floor_ms then some p else rest

  abbrev pub floor_of : F → F
  floor_of usable =
      if fl.lt (zero_f fl) usable then fl.div (fl.of_int (pos 1000)) usable else fl.infinite

  -- The choice among the depths; `b` is the first of them.
  unfoldable pub choose_plan : Option F → PartitionPlan F → List (PartitionPlan F) → PartitionPlan F
  choose_plan none b ps = fastest_from b ps
  choose_plan (some usable) b ps = elim (first_within (floor_of usable) (b ∷ ps)) [
    | some p ↦ p
    | none ↦ fastest_from b ps
  ]

  -- `Solve` without fallbacks, of the nodes that are present.
  unfoldable pub solve_present :
      F
      → F
      → ModelSpec F
      → Option F
      → List (NodeProfile F)
      → Result (PartitionError F) (PartitionPlan F)
  solve_present overhead budget model usable present =
      if length present == 0
      then err no_nodes
      else if not (pool_fits fl present model)
      then err (too_large (total_gb fl model) (caps_from fl (zero_f fl) present))
      else elim (best_per_k overhead budget model present 1 (length present)) [
        | err e ↦ err e
        | ok [] ↦ err (no_map budget)
        | ok (b ∷ ps) ↦ ok (choose_plan usable b ps)
      ]

  abbrev pub solve_plan :
      F
      → F
      → ModelSpec F
      → Option F
      → List (NodeProfile F)
      → Result (PartitionError F) (PartitionPlan F)
  solve_plan overhead budget model usable nodes =
      solve_present overhead budget model usable (present_sorted nodes)

  unfoldable pub fallbacks_of :
      F
      → F
      → ModelSpec F
      → Option F
      → List (NodeProfile F)
      → List Str
      → List (Str × Option (PartitionPlan F))
  fallbacks_of overhead budget model usable present [] = []
  fallbacks_of overhead budget model usable present (id ∷ ids) =
      let rest = fallbacks_of overhead budget model usable present ids in
      elim (solve_plan overhead budget model usable (without id present)) [
        | err e ↦ (id, none) ∷ rest
        | ok p ↦ (id, some p) ∷ rest
      ]

  -- `Solve`.
  unfoldable pub solve :
      F
      → F
      → ModelSpec F
      → Option F
      → Bool
      → List (NodeProfile F)
      → Result (PartitionError F) (PartitionResult F)
  solve overhead budget model usable with_fallbacks nodes =
      elim (solve_plan overhead budget model usable nodes) [
        | err e ↦ err e
        | ok best ↦ ok (record {
          plan = best;
          fallbacks =
              if with_fallbacks
              then fallbacks_of overhead budget model usable (present_sorted nodes) (node_ids best)
              else [];
        })
      ]
