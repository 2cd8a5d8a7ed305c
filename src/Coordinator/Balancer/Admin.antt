-- ===== src/Coordinator/Balancer/Admin.antt =====
-- internal/coordinator/balancer.go: how the balancer is built, the fence that training puts around an
-- engine, and the questions that the other parts of the coordinator ask.
use sofmat.Base.{
  ℕ, suc, Bool, true, false, ◌&&◌, ◌||◌, List, [], ◌∷◌, Option, none, some, ltb, ◌==◌,
  if◌then◌else◌, map,
}
use sofmat.Base.Strings.{Str, is_empty, same}
use sofmat.Gateway.Lru.{empty}
use sofmat.Coordinator.Balancer.{
  DecodeNode, DecodeBalancer, default_ctx, sticky_cap, held_tokens, update_at,
}

-- `strings.TrimRight(s, "/")`.
unfoldable pub trim_slashes : Str → Str
trim_slashes [] = []
trim_slashes (c ∷ cs) =
    let rest = trim_slashes cs in if c == b'/' && is_empty rest then [] else c ∷ rest

unfoldable pub new_node : Str × Str → DecodeNode
new_node e = record {
  name = e.0;
  url = trim_slashes e.1;
  budget = default_ctx;
  inflight = 0;
  tokens = 0;
  held = 0;
  fresh = false;
  occupancy = none;
  excluded = false;
}

-- `newDecodeBalancer`, of names and URLs.
unfoldable pub new_decode_balancer : List (Str × Str) → DecodeBalancer
new_decode_balancer endpoints = record {
  nodes = map new_node endpoints;
  sticky = empty sticky_cap;
  rr = 0;
}

unfoldable pub index_by_url : Str → ℕ → List DecodeNode → Option ℕ
index_by_url url i [] = none
index_by_url url i (n ∷ ns) =
    let rest = index_by_url url (suc i) ns in if same n.url url then some i else rest

-- `nodeByURL`.
unfoldable pub node_by_url : Str → DecodeBalancer → Option ℕ
node_by_url url b = index_by_url (trim_slashes url) 0 b.nodes

abbrev pub fence : Bool → DecodeNode → DecodeNode
fence on n = record n { excluded = on }

-- `setExcluded`.
unfoldable pub set_excluded : Str → Bool → DecodeBalancer → Bool × DecodeBalancer
set_excluded url on b = elim (node_by_url url b) [
  | none ↦ (false, b)
  | some i ↦ (true, record b { nodes = update_at i (fence on) b.nodes })
]

-- The loop of `otherThan`: the engines are read as it goes; `best` is an index and what it holds.
unfoldable pub other_from :
    ℕ → ℕ → List DecodeNode → Option (ℕ × ℕ) → Option (ℕ × ℕ) × List DecodeNode
other_from not_this i [] best = (best, [])
other_from not_this i (n ∷ ns) best =
    let skip = i == not_this || n.excluded in
    let (held, read) = held_tokens n in
    let closer : Option (ℕ × ℕ) = elim best [
      | none ↦ some (i, held)
      | some c ↦ if ltb held c.1 then some (i, held) else some c
    ] in
    let (chosen, rest) = other_from not_this (suc i) ns (if skip then best else closer) in
    (chosen, (if skip then n else read) ∷ rest)

-- `otherThan` the engine `i`.
unfoldable pub other_than : ℕ → DecodeBalancer → Option ℕ × DecodeBalancer
other_than i b =
    let (chosen, nodes) = other_from i 0 b.nodes none in
    (elim chosen [ none ↦ none | some c ↦ some c.0 ], record b { nodes = nodes })

unfoldable pub count_of : ℕ → List (Str × ℕ) → ℕ
count_of i [] = 0
count_of i ((k, j) ∷ m) = let rest = count_of i m in if j == i then suc rest else rest

-- `sessionsOn`.
unfoldable pub sessions_on : ℕ → DecodeBalancer → ℕ
sessions_on i b = count_of i b.sticky.values

-- `sessionsOnNode`, of an engine or of nil.
unfoldable pub sessions_on_node : Option ℕ → DecodeBalancer → ℕ
sessions_on_node none b = 1
sessions_on_node (some i) b = if ltb 1 (sessions_on i b) then sessions_on i b else 1
