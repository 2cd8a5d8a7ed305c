-- ===== src/Gateway/Tests.antt =====
-- Tests of the gateway, and its theorems at concrete inputs.
use sofmat.Base.{inl, ℕ, ◌≤◌, ◌≡◌, ◌↔◌, refl, List, [], ◌∷◌, true, arith, length, ok, ℕ_discrete}
use mathlib.Core.List.{foldl}
use sofmat.Base.Assoc.{keys, lookup, insert, delete}
use sofmat.Base.Strings.{Str, str_discrete}
use sofmat.Base.Int.{pos, ◌+ℤ◌, ◌-ℤ◌}
use sofmat.Gateway.Lru.{
  Lru, Call, remembers, forgets, reads, empty, remember, make_room, evict, read, run, remove_first,
  touch, forget,
}
use sofmat.Gateway.Lru.Refines.{note}
use sofmat.Gateway.Lru.History
use sofmat.Gateway.Admission.{
  AdmissionInput, classify_admission, new_tokens, threshold_of, prefill, large_new_prefill,
}
use sofmat.Gateway.Admission.Routes.{Reaches}
use sofmat.Gateway.Admission.Routes
use sofmat.Gateway.Prompts.{new_last_prompts, match_length, common_prefix, best_prefix}
use sofmat.Gateway.Backends.{BackendConfig, endpoint, prefill_of, backends_from_role_plan}

registry : Unit {0}
unfolding lookup insert delete evict make_room remember forget read run remove_first touch
    ℕ_discrete str_discrete match_length common_prefix best_prefix new_last_prompts endpoint
    prefill_of backends_from_role_plan
registry = tt

abbrev calls : List (Call ℕ ℕ)
calls = remembers 1 10 ∷ remembers 2 20 ∷ reads 1 ∷ remembers 3 30 ∷ forgets 2 ∷ []

abbrev held : Lru ℕ ℕ
held = record { capacity = 2; values = (1, 10) ∷ (3, 30) ∷ []; order = 1 ∷ 3 ∷ [] }

-- 2 was the least recently used when 3 came.
calls-run : run ℕ_discrete calls (empty 2) ≡ ok held
unfolding registry
calls-run = refl

run_from_empty_example :
    (c : Lru ℕ ℕ) × (run ℕ_discrete calls (empty 2) ≡ ok c)
    × (length c.values ≤ c.capacity)
    × (c.order ≡ keys (foldl (note ℕ_discrete 2) [] calls))
    × ((k : ℕ)
        → lookup ℕ_discrete k c.values ≡ lookup ℕ_discrete k (foldl (note ℕ_discrete 2) [] calls))
run_from_empty_example = History.run_from_empty ℕ_discrete calls 2 (omega arith)

abbrev long_turn : AdmissionInput
long_turn = record {
  prefix_tokens = pos 1000;
  tail_tokens = pos 9000;
  hot_prefix_tokens = pos 0;
  resident_tokens = pos 100;
  threshold = pos 0;
  prefill_available = true;
}

long_turn_routed :
    (classify_admission (record long_turn { resident_tokens = pos 2000 })).route ≡ prefill
unfolding classify_admission new_tokens threshold_of ◌+ℤ◌ ◌-ℤ◌
long_turn_routed = refl

prefill_iff_example :
    ((classify_admission long_turn).route ≡ prefill)
    ↔ ((true ≡ true) × Reaches long_turn (pos 6144))
prefill_iff_example = Routes.prefill_iff long_turn (pos 6144) (inl (refl, refl)) (omega arith)

reason_route_example :
    (((classify_admission long_turn).reason ≡ large_new_prefill)
      ↔ ((classify_admission long_turn).route ≡ prefill))
    × ((classify_admission long_turn).est_new_tokens ≡ new_tokens long_turn)
reason_route_example = Routes.reason_route long_turn

-- A conversation whose last prompt had three tokens.
abbrev prompts : Lru Str (List ℕ)
prompts = record {
  capacity = 4;
  values = (b'c' ∷ [], 7 ∷ 8 ∷ 9 ∷ []) ∷ [];
  order = (b'c' ∷ []) ∷ [];
}

prompts_kept :
    remember str_discrete (new_last_prompts (pos 0)) (b'c' ∷ []) (7 ∷ 8 ∷ 9 ∷ []) ≡ ok prompts
unfolding registry
prompts_kept = refl

abbrev seven_eight : List ℕ
seven_eight = 7 ∷ 8 ∷ []

shared_two : best_prefix ℕ_discrete prompts (b'd' ∷ []) (b'c' ∷ []) seven_eight ≡ 2
unfolding registry
shared_two = refl

abbrev addresses : List (Str × Str)
addresses = (b'a' ∷ [], b'u' ∷ []) ∷ []

-- The prefill role has no address.
abbrev decode_only : BackendConfig
decode_only = record { decode_entry_url = b'u' ∷ []; prefill_url = []; node_ids = (b'a' ∷ []) ∷ [] }

decode_only_made :
    backends_from_role_plan
      (record { decode_node_ids = (b'a' ∷ []) ∷ []; prefill_node_id = b'p' ∷ [] })
      addresses
    ≡ ok decode_only
unfolding registry
decode_only_made = refl
