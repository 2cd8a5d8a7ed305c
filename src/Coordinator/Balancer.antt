-- ===== src/Coordinator/Balancer.antt =====
-- internal/coordinator/balancer.go: the engine of a conversation and the room that it has. A pointer to
-- an engine is its index in `nodes`, which never changes its length. The budget test is made in
-- floating point there: `within a b` stands for `float64(a) <= float64(b)*budgetUse` and `usable b` for
-- `int(float64(b)*budgetUse)`. What others do while a request sleeps is a function of the round.
pub mod Admin
pub mod Choice
pub mod Fence
pub mod Pick
pub mod Room
pub mod TooBig
use sofmat.Base.{
  ℕ, zero, suc, ◌+◌, ◌-◌, ◌%◌, Bool, true, false, not, ◌&&◌, ◌||◌, List, [], ◌∷◌, Option, none,
  some, ltb, leb, ◌==◌, if◌then◌else◌, Result, ok, err, ◌>>=◌,
}
use sofmat.Base.Assoc.{lookup}
use sofmat.Base.Int.{ℤ, pos_part}
use sofmat.Base.Strings.{Str, str_discrete}
use sofmat.Gateway.Lru.{Lru, Panic, touch, remember}

abbrev pub sticky_cap : ℕ
sticky_cap = 256

abbrev pub default_ctx : ℕ
default_ctx = 100096

-- `fresh` is `time.Since(heldAt) < time.Second`; `occupancy` is what the probe, if there is one, would
-- answer now: `none` when it fails.
pub record DecodeNode : Type 0 where
  pub name : Str
  pub url : Str
  pub budget : ℕ
  pub inflight : ℕ
  pub tokens : ℕ
  pub held : ℕ
  pub fresh : Bool
  pub occupancy : Option (Option ℕ)
  pub excluded : Bool

-- `heldTokens`.
unfoldable pub held_tokens : DecodeNode → ℕ × DecodeNode
held_tokens n = elim n.occupancy [
  | none ↦ (0, n)
  | some reading ↦ if n.fresh then (n.held, n) else elim reading [
    | some v ↦ (v, record n { held = v; fresh = true })
    | none ↦ (n.held, record n { fresh = true })
  ]
]

abbrev pub invalidate_held : DecodeNode → DecodeNode
invalidate_held n = record n { fresh = false }

abbrev pub claim : ℕ → DecodeNode → DecodeNode
claim tok n = record n { inflight = n.inflight + 1; tokens = n.tokens + tok }

-- `release`: what would be negative is 0, and so is subtraction here.
abbrev pub release : ℕ → DecodeNode → DecodeNode
release tok n = record n { inflight = n.inflight - 1; tokens = n.tokens - tok }

pub record DecodeBalancer : Type 0 where
  pub nodes : List DecodeNode
  pub sticky : Lru Str ℕ
  pub rr : ℕ

-- `b.nodes[i]`.
unfoldable pub node_at : ℕ → List DecodeNode → Option DecodeNode
node_at i [] = none
node_at zero (n ∷ ns) = some n
node_at (suc i) (n ∷ ns) = node_at i ns

-- A change of the engine that a pointer points to.
unfoldable pub update_at : ℕ → (DecodeNode → DecodeNode) → List DecodeNode → List DecodeNode
update_at i f [] = []
update_at zero f (n ∷ ns) = f n ∷ ns
update_at (suc i) f (n ∷ ns) = n ∷ update_at i f ns

-- The sticky entry of a conversation, unless its engine is fenced.
unfoldable pub pinned : Str → DecodeBalancer → Option ℕ
pinned key b = elim (lookup str_discrete key b.sticky.values) [
  | none ↦ none
  | some i ↦ elim (node_at i b.nodes) [ none ↦ none | some n ↦ if n.excluded then none else some i ]
]

-- The candidate of the loop of `chooseNode`: its index, requests and tokens.
pub record Best : Type 0 where
  pub index : ℕ
  pub requests : ℕ
  pub load : ℕ

abbrev pub better : DecodeNode → Best → Bool
better n best = ltb n.tokens best.load || (n.tokens == best.load && ltb n.inflight best.requests)

abbrev pub candidate : ℕ → DecodeNode → Best
candidate i n = record { index = i; requests = n.inflight; load = n.tokens }

-- What the loop keeps after one more engine.
unfoldable pub consider : ℕ → DecodeNode → Option Best → Option Best
consider i n best = if n.excluded then best else elim best [
  | none ↦ some (candidate i n)
  | some c ↦ if better n c then some (candidate i n) else some c
]

unfoldable pub least_loaded : ℕ → List DecodeNode → Option Best → Option Best
least_loaded i [] best = best
least_loaded i (n ∷ ns) best = least_loaded (suc i) ns (consider i n best)

unfoldable pub available : List DecodeNode → ℕ
available [] = 0
available (n ∷ ns) = if n.excluded then available ns else suc (available ns)

-- The loop of a perfect tie: the index of the engine `k` among those that are not fenced, else the one
-- chosen before.
unfoldable pub nth_available : ℕ → ℕ → List DecodeNode → ℕ → ℕ
nth_available k i [] before = before
nth_available k i (n ∷ ns) before =
    let rest = nth_available (if n.excluded then k else k - 1) (suc i) ns before in
    if not n.excluded && k == 0 then i else rest

-- The engine of a new conversation, with the cursor of the round robin.
unfoldable pub spread : DecodeBalancer → Best → ℕ × ℕ
spread b best =
    if best.load == 0 && best.requests == 0 && ltb 1 (available b.nodes)
    then (nth_available (b.rr % available b.nodes) 0 b.nodes best.index, suc b.rr)
    else (best.index, b.rr)

-- `chooseNode`: no engine when all are fenced. A map without order would make `order[0]` panic.
unfoldable pub choose_node : Str → DecodeBalancer → Result Panic (Option ℕ × DecodeBalancer)
choose_node key b = elim (pinned key b) [
  | some i ↦ ok (
    some i,
    record b { sticky = record b.sticky { order = touch str_discrete key b.sticky.order } },
  )
  | none ↦ elim (least_loaded 0 b.nodes none) [
    | none ↦ ok (none, b)
    | some best ↦
        let (i, rr) = spread b best in
        remember str_discrete b.sticky key i >>= λ sticky.
        ok (some i, record b { sticky = sticky; rr = rr })
  ]
]

module _ (within : ℕ → ℕ → Bool) where
  -- `fits`.
  unfoldable pub fits : ℕ → DecodeNode → Bool × DecodeNode
  fits tok n =
      let (held, n') = held_tokens n in
      let used : ℕ = if ltb n.tokens held then held else n.tokens in
      (within (used + tok) n.budget, n')

  unfoldable pub fits_at : ℕ → ℕ → DecodeBalancer → Bool × DecodeBalancer
  fits_at tok i b = elim (node_at i b.nodes) [
    | none ↦ (false, b)
    | some n ↦
        let (room, n') = fits tok n in (room, record b { nodes = update_at i (λ _. n') b.nodes })
  ]

  -- `freeNode`: the engines before `i` had no room.
  unfoldable pub free_from : ℕ → ℕ → List DecodeNode → DecodeBalancer → Option ℕ × DecodeBalancer
  free_from tok i [] b = (none, b)
  free_from tok i (n ∷ ns) b =
      let (room, b') = fits_at tok i b in
      let rest = free_from tok (suc i) ns (if n.excluded then b else b') in
      if not n.excluded && room then (some i, b') else rest

module _ (usable : ℕ → ℕ) where
  unfoldable pub roomier : ℕ → DecodeNode → Option (ℕ × ℕ) → Option (ℕ × ℕ)
  roomier i n best = if n.excluded then best else elim best [
    | none ↦ some (i, usable n.budget)
    | some (j, u) ↦ if ltb u (usable n.budget) then some (i, usable n.budget) else some (j, u)
  ]

  -- `tooBigForEveryEngine`: the roomiest engine and its room, in the loop so far. An unknown budget
  -- ends the search.
  unfoldable pub roomiest : ℕ → List DecodeNode → Option (ℕ × ℕ) → Option (ℕ × ℕ)
  roomiest i [] best = best
  roomiest i (n ∷ ns) best =
      let rest = roomiest (suc i) ns (roomier i n best) in
      if not n.excluded && n.budget == 0 then none else rest

  unfoldable pub too_big_for_every_engine : ℕ → DecodeBalancer → Option (ℕ × ℕ)
  too_big_for_every_engine tok b = if tok == 0 then none else elim (roomiest 0 b.nodes none) [
    | none ↦ none
    | some (i, room) ↦ if ltb room tok then some (i, room) else none
  ]
