-- ===== src/Gateway/Ring.antt =====
-- internal/gateway/policy.go: Ring, the consistent hashing of keys to members. `sum` is SHA-256 and
-- `decimal` prints a number, and `sort` is `sort.Slice` by the hash; sort.Search is the first index at which its test
-- holds.
pub mod Sort
pub mod Order
pub mod Moves
pub mod Growth
pub mod Invariant
mod Tests
use sofmat.Base.{
  ℕ, zero, suc, ◌+◌, ◌*◌, Bool, true, false, not, List, [], ◌∷◌, ◌++◌, take, Option, none, some,
  leb, ltb, if◌then◌else◌, Result, ok, err,
}
use sofmat.Base.Int.{ℤ, pos, negsuc}
use sofmat.Base.Strings.{Str, same}
use sofmat.Wire.Bytes.{from_be}
use sofmat.Coordinator.Janitor.{contains}

-- `ringPoint`.
pub record RingPoint : Type 0 where
  pub h : ℕ
  pub m : Str

pub record Ring : Type 0 where
  pub vnodes : ℕ
  pub ring : List RingPoint
  pub members : List Str

pub data RingError : Type 0 where
  no_members : RingError

-- The loops of `Remove`.
unfoldable pub other_members : Str → List Str → List Str
other_members x [] = []
other_members x (m ∷ ms) = let rest = other_members x ms in if same m x then rest else m ∷ rest

unfoldable pub other_points : Str → List RingPoint → List RingPoint
other_points x [] = []
other_points x (p ∷ ps) = let rest = other_points x ps in if same p.m x then rest else p ∷ rest

-- `Remove`.
abbrev pub remove : Str → Ring → Ring
remove x r = record r { ring = other_points x r.ring; members = other_members x r.members }

-- `sort.Search`: the first point at a hash or after it.
unfoldable pub first_at : ℕ → List RingPoint → Option RingPoint
first_at h [] = none
first_at h (p ∷ ps) = let rest = first_at h ps in if leb h p.h then some p else rest

-- The owner of a hash; after the last point comes the first one.
unfoldable pub owner : ℕ → List RingPoint → Result RingError Str
owner h [] = err no_members
owner h (p ∷ ps) = ok (elim (first_at h (p ∷ ps)) [ some q ↦ q.m | none ↦ p.m ])

module _ (sum : Str → Str) (decimal : ℕ → Str) where
  -- `ringHash`.
  abbrev pub ring_hash : Str → ℕ
  ring_hash s = from_be (take 8 (sum s))

  -- The points of a member, from a number on.
  unfoldable pub points_of : Str → ℕ → ℕ → List RingPoint
  points_of member v zero = []
  points_of member v (suc more) =
      record { h = ring_hash (member ++ (b'#' ∷ decimal v)); m = member }
      ∷ points_of member (suc v) more

  -- `Route`.
  abbrev pub route : Str → Ring → Result RingError Str
  route key r = owner (ring_hash key) r.ring

  module _ (sort : List RingPoint → List RingPoint) where
    -- `Add`.
    unfoldable pub add : Str → Ring → Ring
    add member r = if contains r.members member then r else record r {
      members = r.members ++ member ∷ [];
      ring = sort (r.ring ++ points_of member 0 r.vnodes);
    }

    unfoldable pub add_all : List Str → Ring → Ring
    add_all [] r = r
    add_all (m ∷ ms) r = add_all ms (add m r)

    -- `NewRing`, with a count of points that may be too small.
    abbrev pub new_ring : List Str → ℤ → Ring
    new_ring members vnodes = add_all members (record {
      vnodes = elim vnodes [ pos zero ↦ 1 | pos (suc n) ↦ suc n | negsuc n ↦ 1 ];
      ring = [];
      members = [];
    })
