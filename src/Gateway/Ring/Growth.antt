-- ===== src/Gateway/Ring/Growth.antt =====
-- internal/gateway/policy.go: the invariant of a Ring, and that a new member takes keys but moves none between
-- the others.
use sofmat.Base.{
  arith, ℕ, zero, suc, ◌≤◌, ◌≡◌, refl, sym, ap, subst, ◌∙◌, true, false, List, [], ◌∷◌, ◌++◌, leb,
  Bool-cases, inl, inr, All, ok, leb→le, true-false, append-nil,
}
use sofmat.Base.Strings.{Str, same}
use sofmat.Coordinator.Janitor.{contains}
use sofmat.Update.Guard.Refusals.{eq_of_same, same_self}
use sofmat.Gateway.Ring.{Ring, RingPoint, other_points, owner, points_of, add, route, ring_hash}
use sofmat.Gateway.Ring.Order.{Sorted, All-le, All-other_points}
use sofmat.Gateway.Ring.Moves.{owner-other_points}
use sofmat.Gateway.Ring.Sort.{
  by_hash, sort_points, sort_points-Sorted, sort_points-eq, by_hash-first, Sorts, OneHash,
  sort-sort_points,
}

other_points-by_hash_self :
    (x : Str) (p : RingPoint) (qs : List RingPoint)
    → same p.m x ≡ true
    → other_points x (by_hash p qs) ≡ other_points x qs
unfolding other_points by_hash
other_points-by_hash_self x p [] e = ground (arith, e)
other_points-by_hash_self x p (q ∷ qs) e = elim (Bool-cases (leb p.h q.h)) [
  | inl before ↦ rw before (rw e refl)
  | inr after ↦ rw after (rw (other_points-by_hash_self x p qs e) refl)
]

other_points-by_hash :
    (x : Str) (p : RingPoint) (qs : List RingPoint)
    → same p.m x ≡ false
    → Sorted qs
    → other_points x (by_hash p qs) ≡ by_hash p (other_points x qs)
unfolding other_points by_hash
other_points-by_hash x p [] e s = rw e refl
other_points-by_hash x p (q ∷ qs) e (low, s) = elim (Bool-cases (leb p.h q.h)) [
  | inl before ↦
      let le = leb→le p.h q.h before in
      let first =
        by_hash-first p (other_points x (q ∷ qs))
          (All-other_points (λ r. p.h ≤ r.h) x (q ∷ qs) (le, All-le p.h q.h qs le low)) in
      rw before (rw e (sym first))
  | inr after ↦
      let rest = other_points-by_hash x p qs e s in
      elim (Bool-cases (same q.m x)) [
        | inl gone ↦ rw after (rw gone rest)
        | inr stays ↦ rw after (rw stays (rw after (rw rest refl)))
      ]
]

other_points-sort_points :
    (x : Str) (ps : List RingPoint)
    → other_points x (sort_points ps) ≡ sort_points (other_points x ps)
unfolding other_points sort_points
other_points-sort_points x [] = refl
other_points-sort_points x (p ∷ ps) = elim (Bool-cases (same p.m x)) [
  | inl gone ↦
      rw gone (other_points-by_hash_self x p (sort_points ps) gone ∙ other_points-sort_points x ps)
  | inr stays ↦ rw stays (
      other_points-by_hash x p (sort_points ps) stays (sort_points-Sorted ps)
      ∙ ap (by_hash p) (other_points-sort_points x ps))
]

other_points-append :
    (x : Str) (ps qs : List RingPoint)
    → other_points x (ps ++ qs) ≡ other_points x ps ++ other_points x qs
unfolding other_points
other_points-append x [] qs = refl
other_points-append x (p ∷ ps) qs = elim (Bool-cases (same p.m x)) [
  | inl gone ↦ rw gone (other_points-append x ps qs)
  | inr stays ↦ rw stays (ap (λ r. p ∷ r) (other_points-append x ps qs))
]

-- The points of members alone.
abbrev pub Owned : List Str → List RingPoint → Type 0
Owned ms = All (λ p. contains ms p.m ≡ true)

other_points-Owned :
    (x : Str) (ms : List Str) (ps : List RingPoint)
    → contains ms x ≡ false
    → Owned ms ps
    → other_points x ps ≡ ps
unfolding other_points
other_points-Owned x ms [] f o = refl
other_points-Owned x ms (p ∷ ps) f (h, o) = elim (Bool-cases (same p.m x)) [
  | inl gone ↦ absurd (true-false (sym h ∙ ap (contains ms) (eq_of_same p.m x gone) ∙ f))
  | inr stays ↦ rw stays (ap (λ r. p ∷ r) (other_points-Owned x ms ps f o))
]

-- The points stand in order, and each has a member of the ring.
abbrev pub IsRing : Ring → Type 0
IsRing r = Sorted r.ring × Owned r.members r.ring

module _ (sum : Str → Str) (decimal : ℕ → Str) where
  other_points-points_of : (x : Str) (v n : ℕ) → other_points x (points_of sum decimal x v n) ≡ []
  unfolding other_points points_of
  other_points-points_of x v zero = refl
  other_points-points_of x v (suc n) = rw (same_self x) (other_points-points_of x (suc v) n)

  module _ (sort : List RingPoint → List RingPoint) where
    remove-add :
        (x : Str) (r : Ring)
        → Sorts sort
        → OneHash (r.ring ++ points_of sum decimal x 0 r.vnodes)
        → IsRing r
        → contains r.members x ≡ false
        → other_points x (add sum decimal sort x r).ring ≡ r.ring
    unfolding add
    remove-add x r sorts one (s, o) f =
        let news = points_of sum decimal x 0 r.vnodes in
        rw f (
          ap (other_points x) (sort-sort_points sort (r.ring ++ news) sorts one)
          ∙ other_points-sort_points x (r.ring ++ news)
          ∙ ap sort_points (
              other_points-append x r.ring news
              ∙ ap (λ q. other_points x r.ring ++ q) (other_points-points_of x 0 r.vnodes)
              ∙ append-nil (other_points x r.ring)
              ∙ other_points-Owned x r.members r.ring f o)
          ∙ sort_points-eq r.ring s)

    -- When a member is added to a ring with its invariant, for any sort by the hash, and no two different
    -- points of the ring and the member have one hash, a key that another member serves afterwards was
    -- served by it before.
    pub route-add :
        (x m key : Str) (r : Ring)
        → Sorts sort
        → OneHash (r.ring ++ points_of sum decimal x 0 r.vnodes)
        → IsRing r
        → route sum decimal key (add sum decimal sort x r) ≡ ok m
        → same m x ≡ false
        → route sum decimal key r ≡ ok m
    unfolding add
    route-add x m key r sorts one is e f = elim (Bool-cases (contains r.members x)) [
      | inl known ↦ rw known at e
      | inr new ↦
          let h = ring_hash sum decimal key in
          subst (λ ps. owner h ps ≡ ok m) (remove-add x r sorts one is new)
            (owner-other_points x m h (add sum decimal sort x r).ring e f)
    ]
