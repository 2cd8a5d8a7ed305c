-- ===== src/Gateway/Ring/Invariant.antt =====
-- internal/gateway/policy.go: NewRing, Add and Remove keep the invariant of a Ring.
use sofmat.Base.{
  ℕ, zero, suc, ◌≡◌, refl, sym, subst, true, false, List, [], ◌∷◌, ◌++◌, Bool-cases, inl, inr,
  All-append,
}
use sofmat.Base.Int.{ℤ}
use sofmat.Base.Strings.{Str, same}
use sofmat.Coordinator.Janitor.{contains}
use sofmat.Update.Guard.Refusals.{eq_of_same, same_self}
use sofmat.Gateway.Ring.{
  Ring, RingPoint, other_points, other_members, remove, points_of, add, add_all, new_ring,
}
use sofmat.Gateway.Ring.Order.{other_points-Sorted}
use sofmat.Gateway.Ring.Sort.{Sorts, All-Perm}
use sofmat.Gateway.Ring.Growth.{Owned, IsRing}

contains-append :
    (ms : List Str) (x m : Str) → contains ms m ≡ true → contains (ms ++ x ∷ []) m ≡ true
unfolding contains
contains-append [] x m h = cc
contains-append (k ∷ ms) x m h = elim (Bool-cases (same k m)) [
  | inl here ↦ rw here refl
  | inr there ↦ rw there (contains-append ms x m (rw there at h))
]

contains_last : (ms : List Str) (x : Str) → contains (ms ++ x ∷ []) x ≡ true
unfolding contains
contains_last [] x = rw (same_self x) refl
contains_last (k ∷ ms) x = elim (Bool-cases (same k x)) [
  | inl here ↦ rw here refl
  | inr there ↦ rw there (contains_last ms x)
]

Owned-append :
    (ms : List Str) (x : Str) (ps : List RingPoint) → Owned ms ps → Owned (ms ++ x ∷ []) ps
Owned-append ms x [] o = tt
Owned-append ms x (p ∷ ps) (h, o) = (contains-append ms x p.m h, Owned-append ms x ps o)

contains-other_members :
    (x m : Str) (ms : List Str)
    → same m x ≡ false
    → contains ms m ≡ true
    → contains (other_members x ms) m ≡ true
unfolding contains other_members
contains-other_members x m [] f h = h
contains-other_members x m (k ∷ ms) f h = elim (Bool-cases (same k m)) [
  | inl here ↦ rw (subst (λ y. same y x ≡ false) (sym (eq_of_same k m here)) f) (rw here refl)
  | inr there ↦
      let rest = contains-other_members x m ms f (rw there at h) in
      elim (Bool-cases (same k x)) [
        | inl gone ↦ rw gone rest
        | inr stays ↦ rw stays (rw there rest)
      ]
]

Owned-other_points :
    (x : Str) (ms : List Str) (ps : List RingPoint)
    → Owned ms ps
    → Owned (other_members x ms) (other_points x ps)
unfolding other_points
Owned-other_points x ms [] o = tt
Owned-other_points x ms (p ∷ ps) (h, o) = elim (Bool-cases (same p.m x)) [
  | inl gone ↦ rw gone (Owned-other_points x ms ps o)
  | inr stays ↦ rw stays (contains-other_members x p.m ms stays h, Owned-other_points x ms ps o)
]

remove-IsRing : (x : Str) (r : Ring) → IsRing r → IsRing (remove x r)
remove-IsRing x r (s, o) = (other_points-Sorted x r.ring s, Owned-other_points x r.members r.ring o)

module _ (sum : Str → Str) (decimal : ℕ → Str) where
  Owned-points_of :
      (x : Str) (ms : List Str) (v n : ℕ) → Owned (ms ++ x ∷ []) (points_of sum decimal x v n)
  unfolding points_of
  Owned-points_of x ms v zero = tt
  Owned-points_of x ms v (suc n) = (contains_last ms x, Owned-points_of x ms (suc v) n)

  module _ (sort : List RingPoint → List RingPoint) (sorts : Sorts sort) where
    add-IsRing : (x : Str) (r : Ring) → IsRing r → IsRing (add sum decimal sort x r)
    unfolding add
    add-IsRing x r (s, o) = elim (Bool-cases (contains r.members x)) [
      | inl known ↦ rw known (s, o)
      | inr new ↦
          let points = r.ring ++ points_of sum decimal x 0 r.vnodes in
          let (sorted, e) = sorts points in
          rw new (
            sorted,
            All-Perm (λ q. contains (r.members ++ x ∷ []) q.m ≡ true) (λ q. hlevel) (sort points)
                points e
                (All-append (λ q. contains (r.members ++ x ∷ []) q.m ≡ true) r.ring
                  (points_of sum decimal x 0 r.vnodes) (Owned-append r.members x r.ring o)
                  (Owned-points_of x r.members 0 r.vnodes)),
          )
    ]

    add_all-IsRing : (ms : List Str) (r : Ring) → IsRing r → IsRing (add_all sum decimal sort ms r)
    unfolding add_all
    add_all-IsRing [] r is = is
    add_all-IsRing (m ∷ ms) r is = add_all-IsRing ms (add sum decimal sort m r) (add-IsRing m r is)

    -- A new ring has the points of its members alone, in the order of their hashes, and Add and Remove
    -- keep this.
    pub ring-IsRing :
        (members : List Str) (vnodes : ℤ) (x : Str) (r : Ring)
        → IsRing r
        → IsRing (new_ring sum decimal sort members vnodes)
          × IsRing (add sum decimal sort x r)
          × IsRing (remove x r)
    ring-IsRing members vnodes x r is =
        (add_all-IsRing members _ (tt, tt), add-IsRing x r is, remove-IsRing x r is)
