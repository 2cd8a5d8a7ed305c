-- ===== src/Gateway/Lru.antt =====
-- The bounded LRU registries of the gateway and the balancer: a Go map and the order of its keys,
-- oldest first. internal/gateway/admission.go (KnownPrefixes), internal/gateway/cachecost.go
-- (lastPrompts) and internal/coordinator/balancer.go (sticky) each hold one. The keys are strings
-- there, and a type with a decidable equality here.
pub mod Refines
pub mod History
use sofmat.Base.{
  ℕ, ◌≤◌, List, [], ◌∷◌, ◌++◌, Option, none, some, ite, leb, if◌then◌else◌, length, Result, ok, err,
  ◌>>=◌,
}
use sofmat.Base.Assoc.{lookup, insert, delete}

-- `order[0]` of an empty slice.
pub data Panic : Type 0 where
  index_out_of_range : Panic

pub record Lru (K V : Type 0) : Type 0 where
  pub capacity : ℕ
  pub values : List (K × V)
  pub order : List K

-- `NewKnownPrefixes` behind its test of the capacity, and `newLastPrompts`.
abbrev pub empty : {K V : Type 0} → ℕ → Lru K V
empty capacity = record { capacity = capacity; values = []; order = [] }

module _ {K : Type 0} (dec : Discrete K) where
  -- The loop that drops the first occurrence of a key.
  unfoldable pub remove_first : K → List K → List K
  remove_first k [] = []
  remove_first k (o ∷ os) = ite (dec o k) os (o ∷ remove_first k os)

  -- `touch`: the key becomes the newest.
  unfoldable pub touch : K → List K → List K
  touch k order = remove_first k order ++ k ∷ []

module _ {K V : Type 0} (dec : Discrete K) where
  unfoldable pub evict : Lru K V → Result Panic (Lru K V)
  evict c = elim c.order [
    | [] ↦ err index_out_of_range
    | oldest ∷ rest ↦ ok (record c { values = delete dec oldest c.values; order = rest })
  ]

  -- The first part of `Record`: a new key takes the place of the oldest when the map is full.
  unfoldable pub make_room : Lru K V → K → Result Panic (Lru K V)
  make_room c key = elim (lookup dec key c.values) [
    | none ↦ if leb c.capacity (length c.values) then evict c else ok c
    | some _ ↦ ok c
  ]

  -- `KnownPrefixes.Record`, `lastPrompts.remember` and `decodeBalancer.setLocked`.
  unfoldable pub remember : Lru K V → K → V → Result Panic (Lru K V)
  remember c key v = do
    c' ← make_room c key
    ok (record c' { values = insert dec key v c'.values; order = touch dec key c'.order })

  -- `KnownPrefixes.Forget` and `lastPrompts.forget`.
  unfoldable pub forget : Lru K V → K → Lru K V
  forget c key = elim (lookup dec key c.values) [
    | none ↦ c
    | some _ ↦ record c { values = delete dec key c.values; order = remove_first dec key c.order }
  ]

  -- A read that refreshes the key: `KnownPrefixes.HotTokens`.
  unfoldable pub read : Lru K V → K → Lru K V × Option V
  read c key = elim (lookup dec key c.values) [
    | none ↦ (c, none)
    | some v ↦ (record c { order = touch dec key c.order }, some v)
  ]

pub data Call (K V : Type 0) : Type 0 where
  remembers : K → V → Call K V
  forgets : K → Call K V
  reads : K → Call K V

module _ {K V : Type 0} (dec : Discrete K) where
  unfoldable pub run : List (Call K V) → Lru K V → Result Panic (Lru K V)
  run [] c = ok c
  run (remembers k v ∷ calls) c = do c' ← remember dec c k v; run calls c'
  run (forgets k ∷ calls) c = run calls (forget dec c k)
  run (reads k ∷ calls) c = run calls (read dec c k).0
