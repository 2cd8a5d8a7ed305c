-- ===== src/Partitioner/Replicas/Tests.antt =====
-- Tests of `SolveReplicas` over whole numbers, and its theorems at concrete inputs.
use sofmat.Base.{ℕ, ◌+◌, ◌-◌, ℕ_discrete, ◌≡◌, refl, List, [], ◌∷◌, All, ok, err, arith}
use sofmat.Base.Int.{◌-ℤ◌}
use sofmat.Base.Strings.{str_discrete, str_le}
use sofmat.Coordinator.Janitor.{contains}
use sofmat.Partitioner.Layers.{
  fill_at, fill, total_cap, slots_of, speeds_from, by_speed, fastest_first, assign_layers,
}
use sofmat.Partitioner.Plans.{
  choose, by_id, present_sorted, stages_from, compute_from, plan_for_subset,
}
use sofmat.Partitioner.Solve.{best_of, best_per_k, fastest_from, choose_plan, solve_present}
use sofmat.Partitioner.{Floats, time_of, caps_from, NodeProfile, PartitionPlan, no_pool}
use sofmat.Partitioner.Tests.{whole, node, model, large}
use sofmat.Base.Assoc.{lookup, insert}
use sofmat.Partitioner.Replicas.Keys.{NoBar}
use sofmat.Partitioner.Replicas.Search.{cached_assignment-best_assignment}
use sofmat.Partitioner.Replicas.{
  by_ids, plan_for, cached_round, cached_assignment, ReplicaPlan, share_round, best_assignment,
  solve_replicas,
}
use sofmat.Partitioner.Replicas.Apart.{PairsApart}
use sofmat.Partitioner.Replicas.Shared.{Idle, Valid, solve_replicas-PairsApart}
use sofmat.Partitioner.Replicas.Fuel.{best_assignment_fuel}

replicas : Unit {0}
unfolding lookup insert plan_for cached_round cached_assignment str_discrete str_le ℕ_discrete ◌-ℤ◌
    contains time_of caps_from fill_at fill total_cap slots_of speeds_from by_speed fastest_first
    assign_layers choose by_id present_sorted stages_from compute_from plan_for_subset best_of
    best_per_k fastest_from choose_plan solve_present share_round best_assignment solve_replicas
replicas = tt

-- Whole numbers whose difference has no sign.
abbrev distance : Floats ℕ
distance = record whole { sub = λ x y. (x - y) + (y - x) }

-- Two nodes that hold the model, and one that does not.
abbrev second : NodeProfile ℕ
second = node (b'b' ∷ []) 20 5

abbrev slow : NodeProfile ℕ
slow = node (b'c' ∷ []) 3 50

abbrev pool : List (NodeProfile ℕ)
pool = slow ∷ second ∷ large ∷ []

abbrev alone : ℕ → ℕ → PartitionPlan ℕ
alone name ms = record {
  stages =
      record { node_id = name ∷ []; first_layer = 0; layers = 8; mem_gb = 16; stage_ms = ms } ∷ [];
  token_ms = ms;
  network_ms = 0;
  network_fraction = 0;
}

abbrev two_replicas : ReplicaPlan ℕ
two_replicas = record {
  replicas = alone b'a' 24 ∷ alone b'b' 40 ∷ [];
  aggregate_tokens_s = 66;
  idle_node_ids = (b'c' ∷ []) ∷ [];
}

replicas_solved : solve_replicas distance 1 0 model pool ≡ ok two_replicas
unfolding replicas
replicas_solved = refl

replicas_refused : solve_replicas distance 1 0 model (slow ∷ []) ≡ err (no_pool 16)
unfolding replicas
replicas_refused = refl

no_bar : All (λ n. NoBar n.id) pool
no_bar = (
  ((λ e. omega (arith, e)), tt),
  (((λ e. omega (arith, e)), tt), (((λ e. omega (arith, e)), tt), tt)),
)

solve_replicas-PairsApart_example :
    PairsApart two_replicas.replicas
    × All (Valid distance 1 0 model pool) two_replicas.replicas
    × All (Idle two_replicas.replicas) two_replicas.idle_node_ids
solve_replicas-PairsApart_example =
    solve_replicas-PairsApart distance 1 0 model pool two_replicas no_bar replicas_solved

cached_assignment-best_assignment_example :
    (cached_assignment distance 1 0 model 3
      (by_ids (present_sorted pool))
      (record { plan_cache = []; best_cache = [] })).0
    ≡ best_assignment distance 1 0 model 3 (by_ids (present_sorted pool))
unfolding present_sorted by_id str_le str_discrete ℕ_discrete
cached_assignment-best_assignment_example =
    cached_assignment-best_assignment distance 1 0 model pool no_bar

best_assignment_fuel_example :
    best_assignment distance 1 0 model 7 (large ∷ second ∷ [])
    ≡ best_assignment distance 1 0 model 2 (large ∷ second ∷ [])
best_assignment_fuel_example =
    best_assignment_fuel distance 1 0 model 7 2 (large ∷ second ∷ []) (omega arith) (omega arith)
