-- ===== src/Gateway/Ring/Sort.antt =====
-- internal/gateway/policy.go: what sort.Slice does to points of which no two have one hash, by a sort that
-- inserts them one by one.
use mathlib.Core.Path.{ap₂}
use native.Mathlib.Bridge.{le_prop}
use mathlib.Core.List.{not-mem-nil, Mem, Perm, mem-cons_self, mem-cons_of_mem, forall_mem-cons}
use mathlib.Core.List.Perm
use sofmat.Base.{
  ◌≤◌, ◌≡◌, refl, ap, ◌∙◌, List, [], ◌∷◌, leb, arith, Bool-cases, inl, inr, All, leb→le,
  if◌then◌else◌,
}
use sofmat.Gateway.Ring.{RingPoint}
use sofmat.Gateway.Ring.Order.{Sorted, All-le, after_le}

unfoldable pub by_hash : RingPoint → List RingPoint → List RingPoint
by_hash p [] = p ∷ []
by_hash p (q ∷ qs) = let rest = by_hash p qs in if leb p.h q.h then p ∷ q ∷ qs else q ∷ rest

unfoldable pub sort_points : List RingPoint → List RingPoint
sort_points [] = []
sort_points (p ∷ ps) = by_hash p (sort_points ps)

Perm-by_hash : (p : RingPoint) (qs : List RingPoint) → Perm (by_hash p qs) (p ∷ qs)
unfolding by_hash
Perm-by_hash p [] = Perm.rfl
Perm-by_hash p (q ∷ qs) = elim (Bool-cases (leb p.h q.h)) [
  | inl first ↦ rw first Perm.rfl
  | inr later ↦ rw later (Perm.trans (Perm.cons q (Perm-by_hash p qs)) (Perm.swap p q qs))
]

Perm-sort_points : (ps : List RingPoint) → Perm (sort_points ps) ps
unfolding sort_points
Perm-sort_points [] = Perm.rfl
Perm-sort_points (p ∷ ps) =
    Perm.trans (Perm-by_hash p (sort_points ps)) (Perm.cons p (Perm-sort_points ps))

All-by_hash :
    (P : RingPoint → Type 0) (p : RingPoint) (qs : List RingPoint)
    → P p
    → All P qs
    → All P (by_hash p qs)
unfolding by_hash
All-by_hash P p [] h hs = (h, tt)
All-by_hash P p (q ∷ qs) h (k, ks) = elim (Bool-cases (leb p.h q.h)) [
  | inl before ↦ rw before (h, (k, ks))
  | inr after ↦ rw after (k, All-by_hash P p qs h ks)
]

by_hash-Sorted : (p : RingPoint) (qs : List RingPoint) → Sorted qs → Sorted (by_hash p qs)
unfolding by_hash
by_hash-Sorted p [] s = (tt, tt)
by_hash-Sorted p (q ∷ qs) (low, s) = elim (Bool-cases (leb p.h q.h)) [
  | inl before ↦
      let le = leb→le p.h q.h before in rw before ((le, All-le p.h q.h qs le low), (low, s))
  | inr after ↦
      rw after
        (All-by_hash (λ r. q.h ≤ r.h) p qs (after_le p.h q.h after) low, by_hash-Sorted p qs s)
]

pub sort_points-Sorted : (ps : List RingPoint) → Sorted (sort_points ps)
unfolding sort_points
sort_points-Sorted [] = tt
sort_points-Sorted (p ∷ ps) = by_hash-Sorted p (sort_points ps) (sort_points-Sorted ps)

-- A point that is not above any other goes to the front.
pub by_hash-first :
    (p : RingPoint) (qs : List RingPoint) → All (λ q. p.h ≤ q.h) qs → by_hash p qs ≡ p ∷ qs
unfolding by_hash
by_hash-first p [] hs = refl
by_hash-first p (q ∷ qs) (h, hs) = ground (arith, h)

pub sort_points-eq : (ps : List RingPoint) → Sorted ps → sort_points ps ≡ ps
unfolding sort_points
sort_points-eq [] s = refl
sort_points-eq (p ∷ ps) (low, s) = ap (by_hash p) (sort_points-eq ps s) ∙ by_hash-first p ps low

-- The points in the order of their hashes.
abbrev pub Sorts : (List RingPoint → List RingPoint) → Type 0
Sorts sort = (ps : List RingPoint) → Sorted (sort ps) × Perm (sort ps) ps

pub sort_points-Sorts : Sorts sort_points
sort_points-Sorts ps = (sort_points-Sorted ps, Perm-sort_points ps)

-- No two different points have one hash.
abbrev pub OneHash : List RingPoint → Type 0
OneHash ps = (p q : RingPoint) → Mem p ps → Mem q ps → p.h ≡ q.h → p ≡ q

module _ (P : RingPoint → Type 0) (pP : (p : RingPoint) → IsProp (P p)) where
  pub Mem-All : (ps : List RingPoint) → All P ps → (p : RingPoint) → Mem p ps → P p
  Mem-All [] h = λ p m. absurd (not-mem-nil m)
  Mem-All (q ∷ ps) (h, hs) = (forall_mem-cons pP).1 (h, Mem-All ps hs)

  All-Mem : (ps : List RingPoint) → ((p : RingPoint) → Mem p ps → P p) → All P ps
  All-Mem [] h = tt
  All-Mem (q ∷ ps) h = (h q mem-cons_self, All-Mem ps (λ p m. h p (mem-cons_of_mem q m)))

  pub All-Perm : (ps qs : List RingPoint) → Perm ps qs → All P qs → All P ps
  All-Perm ps qs e h = All-Mem ps (λ p m. Mem-All qs h p ((Perm.mem_iff e).0 m))

head_low :
    (p q : RingPoint) (ps qs : List RingPoint)
    → Sorted (p ∷ ps)
    → Perm (q ∷ qs) (p ∷ ps)
    → p.h ≤ q.h
head_low p q ps qs (low, s) e =
    (All-Perm (λ r. p.h ≤ r.h) (λ r. le_prop) (q ∷ qs) (p ∷ ps) e (omega arith, low)).0

-- Points with different hashes have one order.
Sorted-Perm : (ps qs : List RingPoint) → Sorted ps → Sorted qs → OneHash ps → Perm ps qs → ps ≡ qs
Sorted-Perm [] qs s t one e = Perm.nil-eq e
Sorted-Perm (p ∷ ps) [] s t one e = Perm.eq-nil e
Sorted-Perm (p ∷ ps) (q ∷ qs) s t one e =
    let up = head_low p q ps qs s (Perm.symm e) in
    let down = head_low q p qs ps t e in
    let heads : p ≡ q =
      one p q mem-cons_self ((Perm.mem_iff e).1 mem-cons_self) (omega (arith, up, down)) in
    let tails = Perm.cons_inv (Perm.trans e (Perm.symm (Perm.cons' heads Perm.rfl))) in
    ap₂ ◌∷◌ heads (
      Sorted-Perm ps qs s.1 t.1 (λ a b m n. one a b (mem-cons_of_mem p m) (mem-cons_of_mem p n))
        tails)

-- However points with different hashes are sorted, they come out as by inserting them.
pub sort-sort_points :
    (sort : List RingPoint → List RingPoint) (ps : List RingPoint)
    → Sorts sort
    → OneHash ps
    → sort ps ≡ sort_points ps
sort-sort_points sort ps sorts one =
    let (s, e) = sorts ps in
    Sorted-Perm (sort ps) (sort_points ps) s (sort_points-Sorted ps)
      (λ a b m n. one a b ((Perm.mem_iff e).0 m) ((Perm.mem_iff e).0 n))
      (Perm.trans e (Perm.symm (Perm-sort_points ps)))
