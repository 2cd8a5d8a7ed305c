-- ===== src/Coordinator/Tests.antt =====
-- Tests of the coordinator, and its theorems at concrete inputs.
use sofmat.Base.{
  inl, arith, ℕ, ◌-◌, ◌/◌, ◌≤◌, ◌≡◌, none, ◌⊎◌, ◌+◌, refl, Bool, true, false, [], ◌∷◌, some, ok,
  leb, ℕ_discrete,
}
use sofmat.Base.Assoc.{lookup, insert, delete, Distinct}
use sofmat.Base.Int.{pos, pos_part}
use sofmat.Base.Strings.{Str, str_discrete}
use sofmat.Gateway.Lru.{empty, remember, make_room, evict, touch, remove_first}
use sofmat.Coordinator.Balancer.{
  DecodeNode, DecodeBalancer, held_tokens, node_at, update_at, pinned, consider, least_loaded,
  available, nth_available, spread, choose_node, fits, fits_at, free_from, roomier, roomiest,
  too_big_for_every_engine, sticky_cap,
}
use sofmat.Coordinator.Balancer.Pick.{
  serves, repin, wait_for_room, claim_or_refuse, pick_engine, pick,
}
use sofmat.Coordinator.Balancer.Admin.{
  index_by_url, node_by_url, set_excluded, other_from, other_than, trim_slashes, new_node,
  new_decode_balancer,
}
use sofmat.Coordinator.Balancer.Choice.{choose_node-is_open, is_open}
use sofmat.Coordinator.Balancer.Room.{pick_bound}
use sofmat.Coordinator.Janitor.{KvPipe, MayHold, AllDeleted, purge, purge_lem}

balancer : Unit {0}
unfolding lookup insert delete str_discrete remember make_room evict touch remove_first held_tokens
    node_at update_at pinned consider least_loaded available nth_available spread choose_node fits
    fits_at free_from roomier roomiest too_big_for_every_engine repin wait_for_room claim_or_refuse
    pick_engine pick index_by_url node_by_url set_excluded other_from other_than trim_slashes
    new_node new_decode_balancer ℕ_discrete
balancer = tt

-- Nine tenths of a context may be claimed here.
abbrev usable : ℕ → ℕ
usable budget = budget - budget / 10

abbrev within : ℕ → ℕ → Bool
within amount budget = leb amount (usable budget)

abbrev engine : ℕ → Bool → DecodeNode
engine budget excluded = record {
  name = [];
  url = [];
  budget = budget;
  inflight = 0;
  tokens = 0;
  held = 0;
  fresh = false;
  occupancy = some (some 20);
  excluded = excluded;
}

-- Two engines in service and one that is training.
abbrev idle : DecodeBalancer
idle = record {
  nodes = engine 200 true ∷ engine 100 false ∷ engine 50 false ∷ [];
  sticky = empty sticky_cap;
  rr = 1;
}

abbrev conversation : Str
conversation = b'k' ∷ []

abbrev turned : DecodeBalancer
turned = record idle {
  sticky = record {
    capacity = sticky_cap;
    values = (conversation, 2) ∷ [];
    order = conversation ∷ [];
  };
  rr = 2;
}

-- The tie goes to the second engine in service.
chooses : choose_node conversation idle ≡ ok (some 2, turned)
unfolding balancer
chooses = refl

choose_node-is_open_example : (turned.nodes ≡ idle.nodes) × (is_open idle.nodes 2 ≡ true)
choose_node-is_open_example = choose_node-is_open conversation idle turned 2 chooses

-- A request of 30 tokens beside the 20 that the small engine holds goes to the larger one.
abbrev moved : DecodeBalancer
moved = record turned {
  nodes =
      engine 200 true
      ∷ record (engine 100 false) { inflight = 1; tokens = 30; held = 20 }
      ∷ record (engine 50 false) { held = 20; fresh = true }
      ∷ [];
  sticky = record {
    capacity = sticky_cap;
    values = (conversation, 1) ∷ [];
    order = conversation ∷ [];
  };
}

picks : pick within usable (λ _ b. b) (λ b. b) conversation (pos 30) 4 idle ≡ ok (serves 1, moved)
unfolding balancer
picks = refl

pick_bound_example :
    (m : DecodeNode) × (node_at 1 moved.nodes ≡ some m)
    × (m.tokens ≤ usable m.budget)
    × (pos_part (pos 30) ≤ m.tokens)
pick_bound_example =
    pick_bound within usable (λ amount budget. refl) (λ _ b. b) (λ b. b) conversation (pos 30) 4 1
      idle moved (λ b i n h. (n, h, omega arith, refl)) picks

too_big : too_big_for_every_engine usable 95 idle ≡ some (1, 90)
unfolding balancer
too_big = refl

second : node_at 2 idle.nodes ≡ some (engine 50 false)
unfolding balancer
second = refl

-- The engines `a` and `b`, the URL of the second with a slash at its end.
abbrev pair : DecodeBalancer
pair = new_decode_balancer ((b'a' ∷ [], b'a' ∷ []) ∷ (b'b' ∷ [], b'b' ∷ b'/' ∷ []) ∷ [])

found : node_by_url (b'b' ∷ []) pair ≡ some 1
unfolding balancer
found = refl

abbrev first_only : DecodeBalancer
first_only = record (set_excluded (b'b' ∷ []) true pair).1 {
  sticky = record {
    capacity = sticky_cap;
    values = (conversation, 0) ∷ [];
    order = conversation ∷ [];
  };
}

first_chosen :
    choose_node conversation (set_excluded (b'b' ∷ []) true pair).1 ≡ ok (some 0, first_only)
unfolding balancer
first_chosen = refl

-- The engine that holds the least prefills for another.
other_engine : (other_than 1 idle).0 ≡ some 2
unfolding balancer
other_engine = refl

-- A state that two agents may hold.
abbrev tracking : KvPipe
tracking = record {
  gc = (conversation, record { ctls = (b'x' ∷ []) ∷ (b'y' ∷ []) ∷ []; since = 5 }) ∷ [];
  decode_ctl = b'd' ∷ [];
  prefill_ctl = b'p' ∷ [];
  persists = true;
  saved = [];
}

tracking-Distinct : Distinct str_discrete tracking.gc
unfolding balancer
tracking-Distinct = (refl, tt)

-- The agents confirm the first three deletions and no more.
abbrev tiring : Str → Str → ℕ → Bool × ℕ
tiring base name n = (leb n 2, n + 1)

tracking-MayHold : MayHold conversation tracking ((b'x' ∷ []) ∷ (b'y' ∷ []) ∷ [])
unfolding balancer
tracking-MayHold =
    inl (record { ctls = (b'x' ∷ []) ∷ (b'y' ∷ []) ∷ []; since = 5 }, refl, refl, (λ e. cc))

purge_lem_example :
    (AllDeleted tiring conversation ((b'x' ∷ []) ∷ (b'y' ∷ []) ∷ []) 0
      × (lookup str_discrete conversation (purge tiring conversation tracking 0).1.0.gc ≡ none))
    ⊎ ((¬ AllDeleted tiring conversation ((b'x' ∷ []) ∷ (b'y' ∷ []) ∷ []) 0)
        × ((purge tiring conversation tracking 0).1.0 ≡ tracking))
purge_lem_example =
    purge_lem tiring conversation tracking ((b'x' ∷ []) ∷ (b'y' ∷ []) ∷ []) 0 tracking-Distinct
      tracking-MayHold
