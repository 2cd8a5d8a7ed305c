-- ===== src/Partitioner/Replicas.antt =====
-- internal/partitioner/solver.go: `SolveReplicas`. A set of ids is the list of its nodes, by id.
-- `best_assignment` is the search without the caches of the code, and `cached_assignment` the search with
-- them.
pub mod Apart
pub mod Shared
pub mod Fuel
pub mod Keys
pub mod Caches
pub mod Search
mod Tests
use sofmat.Base.{
  ℕ, zero, suc, Bool, true, false, not, ◌&&◌, ◌||◌, List, [], ◌∷◌, ◌++◌, map, length, Option, some,
  none, if◌then◌else◌, Result, ok, err, ltb, ◌==◌,
}
use sofmat.Base.Int.{pos}
use sofmat.Base.Assoc.{lookup, insert}
use sofmat.Base.Strings.{Str, str_discrete, same, str_le}
use sofmat.Coordinator.Janitor.{contains}
use sofmat.Partitioner.{
  Floats, PartitionError, no_nodes, no_pool, NodeProfile, ModelSpec, PartitionPlan, total_gb,
  zero_f, node_ids,
}
use sofmat.Partitioner.Plans.{present_sorted}
use sofmat.Partitioner.Solve.{solve_plan}

pub record ReplicaPlan (F : Type 0) : Type 0 where
  pub replicas : List (PartitionPlan F)
  pub aggregate_tokens_s : F
  pub idle_node_ids : List Str

pub record Assignment (F : Type 0) : Type 0 where
  pub agg : F
  pub plans : List (PartitionPlan F)

-- What `planCache` and `bestCache` hold, by the joined ids.
pub record Cached (F : Type 0) : Type 0 where
  pub plan_cache : List (Str × Option (PartitionPlan F))
  pub best_cache : List (Str × Assignment F)

-- The loop over the masks: the group of a mask, and what remains. The first item is the lowest bit.
abbrev pub beside : {A : Type 0} → A → List (List A × List A) → List (List A × List A)
beside x [] = []
beside x ((group, remaining) ∷ ss) = (group, x ∷ remaining) ∷ (x ∷ group, remaining) ∷ beside x ss

abbrev pub splits : {A : Type 0} → List A → List (List A × List A)
splits [] = ([], []) ∷ []
splits (x ∷ xs) = beside x (splits xs)

abbrev pub has_id : {F : Type 0} → Str → List (NodeProfile F) → Bool
has_id id [] = false
has_id id (n ∷ ns) = if same id n.id then true else has_id id ns

-- `byID`: of the nodes with one id, the last.
abbrev pub by_ids : {F : Type 0} → List (NodeProfile F) → List (NodeProfile F)
by_ids [] = []
by_ids (n ∷ ns) = if has_id n.id ns then by_ids ns else n ∷ by_ids ns

-- `strings.Join(ids, "|")`.
abbrev pub join : List Str → Str
join [] = []
join (id ∷ []) = id
join (id ∷ ids) = id ++ b'|' ∷ join ids

-- `setKey`.
abbrev pub set_key : {F : Type 0} → List (NodeProfile F) → Str
set_key ns = join (map (λ n. n.id) ns)

abbrev pub by_join :
    {F : Type 0} → PartitionPlan F → List (PartitionPlan F) → List (PartitionPlan F)
by_join p [] = p ∷ []
by_join p (q ∷ qs) =
    if str_le (join (node_ids p)) (join (node_ids q)) then p ∷ q ∷ qs else q ∷ by_join p qs

-- The order of the replicas.
abbrev pub sort_plans : {F : Type 0} → List (PartitionPlan F) → List (PartitionPlan F)
sort_plans [] = []
sort_plans (p ∷ ps) = by_join p (sort_plans ps)

-- `used`.
abbrev pub used_ids : {F : Type 0} → List (PartitionPlan F) → List Str
used_ids [] = []
used_ids (p ∷ ps) = node_ids p ++ used_ids ps

abbrev pub idle_from : {F : Type 0} → List Str → List (NodeProfile F) → List Str
idle_from used [] = []
idle_from used (n ∷ ns) = if contains used n.id then idle_from used ns else n.id ∷ idle_from used ns

module _ {F : Type 0} (fl : Floats F) where
  -- Whether a candidate wins: a higher aggregate, or the same one with fewer replicas.
  abbrev pub wins_share : Assignment F → Assignment F → Bool
  wins_share c best =
      fl.lt (fl.add best.agg fl.tolerance) c.agg
      || (fl.le (fl.abs (fl.sub c.agg best.agg)) fl.tolerance
          && ltb (length c.plans) (length best.plans))

  abbrev pub with_replica : PartitionPlan F → Assignment F → Assignment F
  with_replica plan sub = record {
    agg = fl.add (fl.div (fl.of_int (pos 1000)) plan.token_ms) sub.agg;
    plans = plan ∷ sub.plans;
  }

  module _ (overhead budget : F) (model : ModelSpec F) where
    -- One mask, with the assignment of what remains.
    unfoldable pub share_round : List (NodeProfile F) → Assignment F → Assignment F → Assignment F
    share_round group sub best = elim (solve_plan fl overhead budget model none group) [
      | err e ↦ best
      | ok plan ↦ if wins_share (with_replica plan sub) best then with_replica plan sub else best
    ]

    abbrev pub share_rounds :
        (List (NodeProfile F) → Assignment F)
        → NodeProfile F
        → Assignment F
        → List (List (NodeProfile F) × List (NodeProfile F))
        → Assignment F
    share_rounds sub first best [] = best
    share_rounds sub first best ((group, remaining) ∷ ss) =
        share_rounds sub first (share_round (first ∷ group) (sub remaining) best) ss

    -- `bestAssignment` without its cache, with fuel for so many nodes.
    unfoldable pub best_assignment : ℕ → List (NodeProfile F) → Assignment F
    best_assignment zero ns = record { agg = zero_f fl; plans = [] }
    best_assignment (suc f) [] = record { agg = zero_f fl; plans = [] }
    best_assignment (suc f) (first ∷ rest) =
        share_rounds (best_assignment f) first (best_assignment f rest) (splits rest)

    -- A plan, or nil on an error.
    abbrev pub plan_of : Result (PartitionError F) (PartitionPlan F) → Option (PartitionPlan F)
    plan_of (err e) = none
    plan_of (ok plan) = some plan

    -- `planFor`.
    unfoldable pub plan_for : List (NodeProfile F) → Cached F → Option (PartitionPlan F) × Cached F
    plan_for group c = elim (lookup str_discrete (set_key group) c.plan_cache) [
      | some found ↦ (found, c)
      | none ↦
          let plan = plan_of (solve_plan fl overhead budget model none group) in
          (plan, record c { plan_cache = insert str_discrete (set_key group) plan c.plan_cache })
    ]

    -- One mask, with the caches.
    unfoldable pub cached_round :
        (List (NodeProfile F) → Cached F → Assignment F × Cached F)
        → List (NodeProfile F)
        → List (NodeProfile F)
        → Assignment F
        → Cached F
        → Assignment F × Cached F
    cached_round assign group remaining best c =
        let (found, c') = plan_for group c in
        elim found [
          | none ↦ (best, c')
          | some plan ↦
              let (sub, c'') = assign remaining c' in
              (if wins_share (with_replica plan sub) best then with_replica plan sub else best, c'')
        ]

    abbrev pub cached_rounds :
        (List (NodeProfile F) → Cached F → Assignment F × Cached F)
        → NodeProfile F
        → Assignment F
        → List (List (NodeProfile F) × List (NodeProfile F))
        → Cached F
        → Assignment F × Cached F
    cached_rounds assign first best [] c = (best, c)
    cached_rounds assign first best ((group, remaining) ∷ ss) c =
        let (best', c') = cached_round assign (first ∷ group) remaining best c in
        cached_rounds assign first best' ss c'

    -- `bestAssignment`, with fuel for so many nodes.
    unfoldable pub cached_assignment : ℕ → List (NodeProfile F) → Cached F → Assignment F × Cached F
    cached_assignment zero ns c = (record { agg = zero_f fl; plans = [] }, c)
    cached_assignment (suc f) [] c = (record { agg = zero_f fl; plans = [] }, c)
    cached_assignment (suc f) (first ∷ rest) c =
        elim (lookup str_discrete (set_key (first ∷ rest)) c.best_cache) [
          | some a ↦ (a, c)
          | none ↦
              let (idle, c') = cached_assignment f rest c in
              let (a, c'') = cached_rounds (cached_assignment f) first idle (splits rest) c' in
              (
                a,
                record c'' {
                  best_cache = insert str_discrete (set_key (first ∷ rest)) a c''.best_cache;
                },
              )
        ]

    abbrev pub replica_plan : List (NodeProfile F) → Assignment F → ReplicaPlan F
    replica_plan present best = record {
      replicas = sort_plans best.plans;
      aggregate_tokens_s = best.agg;
      idle_node_ids = idle_from (used_ids best.plans) present;
    }

    -- `SolveReplicas`.
    unfoldable pub solve_replicas : List (NodeProfile F) → Result (PartitionError F) (ReplicaPlan F)
    solve_replicas nodes =
        let present = present_sorted nodes in
        let pool = by_ids present in
        let none_yet : Cached F = record { plan_cache = []; best_cache = [] } in
        let best = (cached_assignment (length pool) pool none_yet).0 in
        if length present == 0
        then err no_nodes
        else if length best.plans == 0
        then err (no_pool (total_gb fl model))
        else ok (replica_plan present best)
