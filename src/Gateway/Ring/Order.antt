-- ===== src/Gateway/Ring/Order.antt =====
-- internal/gateway/policy.go: the order of the points of a Ring, and what filtering keeps of it.
use sofmat.Base.{ℕ, ◌≤◌, ◌≡◌, false, List, [], ◌∷◌, leb, arith, Bool-cases, inl, inr, All}
use sofmat.Base.Strings.{Str, same}
use sofmat.Gateway.Ring.{RingPoint, other_points}

abbrev pub Sorted : List RingPoint → Type 0
Sorted [] = Unit
Sorted (p ∷ ps) = All (λ q. p.h ≤ q.h) ps × Sorted ps

pub All-le : (a b : ℕ) (ps : List RingPoint) → a ≤ b → All (λ q. b ≤ q.h) ps → All (λ q. a ≤ q.h) ps
All-le a b [] h hs = tt
All-le a b (p ∷ ps) h (k, ks) = (omega (arith, h, k), All-le a b ps h ks)

pub after_le : (a b : ℕ) → leb a b ≡ false → b ≤ a
after_le a b h = ground arith

pub All-other_points :
    (P : RingPoint → Type 0) (x : Str) (ps : List RingPoint) → All P ps → All P (other_points x ps)
unfolding other_points
All-other_points P x [] hs = tt
All-other_points P x (p ∷ ps) (h, hs) = elim (Bool-cases (same p.m x)) [
  | inl gone ↦ rw gone (All-other_points P x ps hs)
  | inr stays ↦ rw stays (h, All-other_points P x ps hs)
]

pub other_points-Sorted : (x : Str) (ps : List RingPoint) → Sorted ps → Sorted (other_points x ps)
unfolding other_points
other_points-Sorted x [] s = tt
other_points-Sorted x (p ∷ ps) (low, s) = elim (Bool-cases (same p.m x)) [
  | inl gone ↦ rw gone (other_points-Sorted x ps s)
  | inr stays ↦ rw stays (All-other_points (λ q. p.h ≤ q.h) x ps low, other_points-Sorted x ps s)
]
