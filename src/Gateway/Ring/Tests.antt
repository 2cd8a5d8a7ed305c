-- ===== src/Gateway/Ring/Tests.antt =====
-- Tests of the ring, and its theorems at concrete inputs.
use sofmat.Base.{
  ℕ, ℕ_discrete, ◌≡◌, refl, Bool, true, List, [], ◌∷◌, ◌++◌, ok, ◌==◌, ◌&&◌, if◌then◌else◌, All,
  arith,
}
use sofmat.Update.Guard.Refusals.{eq_of_same}
use sofmat.Base.Int.{pos}
use sofmat.Base.Strings.{Str, str_discrete, same}
use sofmat.Coordinator.Janitor.{contains}
use sofmat.Wire.Bytes.{from_be_acc}
use sofmat.Gateway.Ring.{
  Ring, RingPoint, other_members, other_points, remove, first_at, owner, points_of, add, add_all,
  new_ring, route,
}
use sofmat.Gateway.Ring.Sort.{by_hash, sort_points, sort_points-Sorts, OneHash, Mem-All}
use sofmat.Gateway.Ring.Moves.{route-remove}
use sofmat.Gateway.Ring.Growth.{IsRing, route-add}
use sofmat.Gateway.Ring.Invariant.{ring-IsRing}

ring_test : Unit {0}
unfolding ℕ_discrete str_discrete contains by_hash sort_points other_members other_points first_at
    owner points_of add add_all from_be_acc
ring_test = tt

-- The text itself in place of its hash, and the number itself in place of its digits.
abbrev text : Str → Str
text s = s

abbrev digit : ℕ → Str
digit n = n ∷ []

abbrev a : Str
a = 10 ∷ []

abbrev b : Str
b = 20 ∷ []

abbrev key : Str
key = 15 ∷ 0 ∷ 0 ∷ []

abbrev both : Ring
both = new_ring text digit sort_points (a ∷ b ∷ []) (pos 2)

abbrev other_key : Str
other_key = 9 ∷ 0 ∷ 0 ∷ []

both-IsRing : IsRing both
both-IsRing =
    (ring-IsRing text digit sort_points sort_points-Sorts (a ∷ b ∷ []) (pos 2) a
      (record { vnodes = 1; ring = []; members = [] }) (tt, tt)).0

served : route text digit key both ≡ ok b
unfolding ring_test
served = refl

served_first : route text digit other_key both ≡ ok a
unfolding ring_test
served_first = refl

route-remove_example : route text digit key (remove a both) ≡ ok b
unfolding ring_test
route-remove_example = route-remove text digit a b key both served refl

abbrev c : Str
c = 30 ∷ []

still_served : route text digit key (add text digit sort_points c both) ≡ ok b
unfolding ring_test
still_served = refl

-- Whether points with one hash are one point.
abbrev agree : RingPoint → RingPoint → Bool
agree p q = if p.h == q.h then same p.m q.m else true

agree_lem : (p q : RingPoint) → agree p q ≡ true → p.h ≡ q.h → p ≡ q
agree_lem p q t e = let members : p.m ≡ q.m = eq_of_same p.m q.m (ground (arith, t, e)) in cc

abbrev all_agree : RingPoint → List RingPoint → Bool
all_agree p [] = true
all_agree p (q ∷ qs) = agree p q && all_agree p qs

abbrev pairs_agree : List RingPoint → List RingPoint → Bool
pairs_agree [] qs = true
pairs_agree (p ∷ ps) qs = all_agree p qs && pairs_agree ps qs

both_true : (x y : Bool) → x && y ≡ true → (x ≡ true) × (y ≡ true)
both_true x y h = ground arith

all_agree_lem :
    (p : RingPoint) (qs : List RingPoint) → all_agree p qs ≡ true → All (λ q. agree p q ≡ true) qs
all_agree_lem p [] h = tt
all_agree_lem p (q ∷ qs) h =
    let (here, rest) = both_true (agree p q) (all_agree p qs) h in (here, all_agree_lem p qs rest)

pairs_agree_lem :
    (ps qs : List RingPoint) → pairs_agree ps qs ≡ true → All (λ p. all_agree p qs ≡ true) ps
pairs_agree_lem [] qs h = tt
pairs_agree_lem (p ∷ ps) qs h =
    let (here, rest) = both_true (all_agree p qs) (pairs_agree ps qs) h in
    (here, pairs_agree_lem ps qs rest)

OneHash-pairs_agree : (ps : List RingPoint) → pairs_agree ps ps ≡ true → OneHash ps
OneHash-pairs_agree ps h p q m n =
    let row = Mem-All (λ p. all_agree p ps ≡ true) (λ p. hlevel) ps (pairs_agree_lem ps ps h) p m in
    agree_lem p q (Mem-All (λ q. agree p q ≡ true) (λ q. hlevel) ps (all_agree_lem p ps row) q n)

abbrev points : List RingPoint
points = both.ring ++ points_of text digit c 0 2

points_agree : pairs_agree points points ≡ true
unfolding ring_test
points_agree = refl

route-add_example : route text digit key both ≡ ok b
unfolding ring_test
route-add_example =
    route-add text digit sort_points c b key both sort_points-Sorts
      (OneHash-pairs_agree points points_agree) both-IsRing still_served refl
