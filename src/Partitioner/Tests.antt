-- ===== src/Partitioner/Tests.antt =====
-- Tests of the partitioner over whole numbers, and its theorems at concrete inputs.
use sofmat.Base.{
  ℕ, ◌+◌, ◌*◌, ◌-◌, ◌/◌, ◌≡◌, refl, true, false, List, [], ◌∷◌, map, none, some, ok, ltb, leb, ◌==◌,
  arith, ℕ_discrete, All, ◌↔◌, length,
}
use sofmat.Base.Int.{pos, pos_part, ◌-ℤ◌}
use sofmat.Base.Strings.{Str, str_discrete, str_le}
use sofmat.Coordinator.Janitor.{contains}
use sofmat.Partitioner.{
  Floats, NodeProfile, ModelSpec, PartitionPlan, PartitionResult, time_of, caps_from, node_ids,
}
use sofmat.Partitioner.Layers.{
  fill_at, fill, total_cap, slots_of, speeds_from, by_speed, fastest_first, assign_layers,
}
use sofmat.Partitioner.Plans.{
  choose, by_id, present_sorted, stages_from, compute_from, plan_for_subset,
}
use sofmat.Partitioner.Plans.Choose.{Sub, In, stop, skip, keep, choose_iff}
use sofmat.Partitioner.Plans.Cover.{IsPlan, plan_for_subset-IsPlan}
use sofmat.Partitioner.Solve.{
  without, best_of, best_per_k, fastest_from, first_within, choose_plan, solve_present, solve_plan,
  fallbacks_of, solve,
}
use sofmat.Partitioner.Solve.Fastest.{Ordered}
use sofmat.Partitioner.Solve.Optimal.{solve_plan-fastest}
use sofmat.Partitioner.Solve.Fewest.{solve_plan-fewest}
use sofmat.Partitioner.Solve.{floor_of}
use sofmat.Partitioner.Solve.Fallbacks.{DoesWithout, solve-DoesWithout}
use sofmat.Partitioner.Roles.{
  RoleDemand, RolePlan, node_by_id, unused, sum_gb, one_node, draft_for, two_nodes, reservations,
  role_ms, candidate, best_role, solve_roles,
}
use sofmat.Partitioner.Roles.Isolation.{IsIsolated, solve_roles-IsIsolated}

partition : Unit {0}
unfolding str_discrete str_le ℕ_discrete ◌-ℤ◌ contains time_of caps_from fill_at fill total_cap
    slots_of speeds_from by_speed fastest_first assign_layers choose by_id present_sorted
    stages_from compute_from plan_for_subset without best_of best_per_k fastest_from first_within
    choose_plan solve_present fallbacks_of solve node_by_id unused sum_gb one_node draft_for
    two_nodes reservations role_ms candidate best_role solve_roles
partition = tt

abbrev pub whole : Floats ℕ
whole = record {
  of_int = pos_part;
  trunc = λ x. pos x;
  add = λ x y. x + y;
  sub = λ x y. x - y;
  mul = λ x y. x * y;
  div = λ x y. x / y;
  lt = ltb;
  le = leb;
  same = λ x y. x == y;
  abs = λ x. x;
  infinite = 1000000;
  tolerance = 0;
}

lt_irreflexive : (a : ℕ) → ltb a a ≡ false
lt_irreflexive a = ground arith

lt_asymmetric : (a b : ℕ) → ltb a b ≡ true → ltb b a ≡ false
lt_asymmetric a b h = ground arith

lt_above : (a b c : ℕ) → ltb a b ≡ false → ltb b c ≡ false → ltb a c ≡ false
lt_above a b c h e = ground arith

le_under : (a b c : ℕ) → leb a c ≡ true → ltb a b ≡ false → leb b c ≡ true
le_under a b c h e = ground arith

lt_level : (a b : ℕ) → (a == b) ≡ true → ltb b a ≡ false
lt_level a b h = ground arith

abbrev whole-Ordered : Ordered whole
whole-Ordered = record {
  irreflexive = lt_irreflexive;
  asymmetric = lt_asymmetric;
  above = lt_above;
  under = le_under;
  level = lt_level;
}

abbrev pub node : Str → ℕ → ℕ → NodeProfile ℕ
node id cap ms = record {
  id = id;
  model_mem_cap_gb = cap;
  ms_per_layer = ms;
  mem_bandwidth_gbps = 0;
  absent = false;
}

abbrev quick : NodeProfile ℕ
quick = node (b'b' ∷ []) 6 1

abbrev pub large : NodeProfile ℕ
large = node (b'a' ∷ []) 20 3

abbrev small : NodeProfile ℕ
small = node (b'c' ∷ []) 3 2

-- Eight layers of two units.
abbrev pub model : ModelSpec ℕ
model = record {
  n_layers = pos 8;
  weights_gb = 16;
  kv_cache_gb = 0;
  batch_slots = pos 1;
  prefix_cache_gb = 0;
}

-- The quick node takes three layers, the large one the other five.
two_counts : assign_layers whole (large ∷ quick ∷ []) model ≡ ok (some (5 ∷ 3 ∷ []))
unfolding partition
two_counts = refl

abbrev plan_of_two : PartitionPlan ℕ
plan_of_two = record {
  stages =
      record { node_id = b'a' ∷ []; first_layer = 0; layers = 5; mem_gb = 10; stage_ms = 15 }
      ∷ record { node_id = b'b' ∷ []; first_layer = 5; layers = 3; mem_gb = 6; stage_ms = 3 }
      ∷ [];
  token_ms = 19;
  network_ms = 1;
  network_fraction = 0;
}

two_planned : plan_for_subset whole 1 0 model (large ∷ quick ∷ []) ≡ ok (some plan_of_two)
unfolding partition
two_planned = refl

plan_for_subset-IsPlan_example : IsPlan whole 0 model (large ∷ quick ∷ []) plan_of_two
plan_for_subset-IsPlan_example =
    plan_for_subset-IsPlan whole 1 0 model (large ∷ quick ∷ []) plan_of_two two_planned

choose_iff_example :
    In (large ∷ small ∷ []) (choose 2 (large ∷ quick ∷ small ∷ []))
    ↔ (Sub (large ∷ small ∷ []) (large ∷ quick ∷ small ∷ []) × (length (large ∷ small ∷ []) ≡ 2))
choose_iff_example = choose_iff 2 (large ∷ quick ∷ small ∷ []) (large ∷ small ∷ [])

abbrev pool : List (NodeProfile ℕ)
pool = quick ∷ large ∷ []

-- Both nodes together are faster than the large one alone.
pool_solved : solve_plan whole 1 0 model none pool ≡ ok plan_of_two
unfolding partition
pool_solved = refl

abbrev large_alone : PartitionPlan ℕ
large_alone = record {
  stages =
      record { node_id = b'a' ∷ []; first_layer = 0; layers = 8; mem_gb = 16; stage_ms = 24 } ∷ [];
  token_ms = 24;
  network_ms = 0;
  network_fraction = 0;
}

alone_planned : plan_for_subset whole 1 0 model (large ∷ []) ≡ ok (some large_alone)
unfolding partition
alone_planned = refl

large_present : Sub (large ∷ []) (present_sorted pool)
unfolding partition
large_present = keep (skip stop)

solve_plan-fastest_example : ltb 24 19 ≡ false
solve_plan-fastest_example =
    solve_plan-fastest whole whole-Ordered 1 0 model pool plan_of_two (large ∷ []) large_alone
      pool_solved large_present (omega arith) alone_planned

-- Without the quick node the large one serves alone; without the large one nothing fits.
abbrev both : PartitionResult ℕ
both = record {
  plan = plan_of_two;
  fallbacks = (b'a' ∷ [], none) ∷ (b'b' ∷ [], some large_alone) ∷ [];
}

both_solved : solve whole 1 0 model none true pool ≡ ok both
unfolding partition
both_solved = refl

solve-DoesWithout_example :
    (map (λ f. f.0) both.fallbacks ≡ node_ids both.plan)
    × All (DoesWithout whole 1 0 model none) both.fallbacks
solve-DoesWithout_example = solve-DoesWithout whole 1 0 model none pool both both_solved

-- A draft of one layer.
abbrev draft_model : ModelSpec ℕ
draft_model = record {
  n_layers = pos 1;
  weights_gb = 3;
  kv_cache_gb = 0;
  batch_slots = pos 1;
  prefix_cache_gb = 0;
}

abbrev demand : RoleDemand ℕ
demand = record { prefill_model = none; draft_model = some draft_model; draft_lead_factor = 2 }

abbrev roles : RolePlan ℕ
roles = record {
  decode = record {
    plan = plan_of_two;
    fallbacks = (b'a' ∷ [], none) ∷ (b'b' ∷ [], some large_alone) ∷ [];
  };
  prefill_node_id = [];
  draft_node_id = b'c' ∷ [];
  draft_ms = 2;
  idle_node_ids = [];
}

roles_solved : solve_roles whole 1 0 model none demand (small ∷ pool) ≡ ok roles
unfolding partition
roles_solved = refl

solve_roles-IsIsolated_example : IsIsolated whole demand roles
solve_roles-IsIsolated_example =
    solve_roles-IsIsolated whole 1 0 model none demand (small ∷ pool) roles roles_solved

-- A floor of 50 tokens each second is 20 ms for a token, which the large node alone does not reach.
pool_reaches : solve_plan whole 1 0 model (some 50) pool ≡ ok plan_of_two
unfolding partition
pool_reaches = refl

solve_plan-fewest_example : leb 24 (floor_of whole 50) ≡ false
solve_plan-fewest_example =
    solve_plan-fewest whole whole-Ordered 1 0 model 50 pool plan_of_two (large ∷ []) large_alone
      pool_reaches refl large_present (omega arith) (omega arith) alone_planned
