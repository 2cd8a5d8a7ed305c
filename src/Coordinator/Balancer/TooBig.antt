-- ===== src/Coordinator/Balancer/TooBig.antt =====
-- internal/coordinator/balancer.go: what `tooBigForEveryEngine` refuses would not fit later either.
use sofmat.Base.{
  ℕ, zero, suc, ◌≤◌, ◌<◌, ◌≡◌, subst, inl, inr, Bool, false, List, [], ◌∷◌, Option, none, some,
  arith, leb, Bool-cases,
}
use sofmat.Coordinator.Balancer.{
  DecodeNode, DecodeBalancer, node_at, fits, roomiest, roomier, too_big_for_every_engine,
}
use sofmat.Coordinator.Balancer.Room.{fits_bound}

first_node : {m n : DecodeNode} → Path (Option DecodeNode) (some m) (some n) → m ≡ n
first_node e = cc

module _ (usable : ℕ → ℕ) where
  abbrev score : Option (ℕ × ℕ) → ℕ
  score none = 0
  score (some p) = p.1

  roomier_keeps :
      (i : ℕ) (n : DecodeNode) (best : Option (ℕ × ℕ))
      → score best ≤ score (roomier usable i n best)
  unfolding roomier
  roomier_keeps i n none = omega arith
  roomier_keeps i n (some p) = ground arith

  roomier_counts :
      (i : ℕ) (n : DecodeNode) (best : Option (ℕ × ℕ))
      → n.excluded ≡ false
      → usable n.budget ≤ score (roomier usable i n best)
  unfolding roomier
  roomier_counts i n none h = ground arith
  roomier_counts i n (some p) h = ground arith

  roomiest_step :
      (i : ℕ) (n : DecodeNode) (ns : List DecodeNode) (best : Option (ℕ × ℕ)) (r : ℕ × ℕ)
      → roomiest usable i (n ∷ ns) best ≡ some r
      → roomiest usable (suc i) ns (roomier usable i n best) ≡ some r
  unfolding roomiest
  roomiest_step i n ns best r h = ground arith

  roomiest_bound :
      (i : ℕ) (ns : List DecodeNode) (best : Option (ℕ × ℕ)) (r : ℕ × ℕ)
      → roomiest usable i ns best ≡ some r
      → score best ≤ r.1
  unfolding roomiest
  roomiest_bound i [] none r h = omega arith
  roomiest_bound i [] (some p) r h = ground arith
  roomiest_bound i (n ∷ ns) best r h =
      omega (
        arith,
        roomier_keeps i n best,
        roomiest_bound (suc i) ns _ r (roomiest_step i n ns best r h),
      )

  roomiest_all :
      (i : ℕ) (ns : List DecodeNode) (best : Option (ℕ × ℕ)) (r : ℕ × ℕ) (j : ℕ) (n : DecodeNode)
      → roomiest usable i ns best ≡ some r
      → node_at j ns ≡ some n
      → n.excluded ≡ false
      → usable n.budget ≤ r.1
  unfolding node_at
  roomiest_all i [] best r j n h at_j ready = cc
  roomiest_all i (m ∷ ns) best r zero n h at_j ready =
      let later = roomiest_bound (suc i) ns _ r (roomiest_step i m ns best r h) in
      subst (λ (e : DecodeNode). usable e.budget ≤ r.1) (first_node at_j)
        (omega (arith, roomier_counts i m best (rw (first_node at_j) ready), later))
  roomiest_all i (m ∷ ns) best r (suc j) n h at_j ready =
      roomiest_all (suc i) ns _ r j n (roomiest_step i m ns best r h) at_j ready

  too_big_room :
      (tok : ℕ) (b : DecodeBalancer) (r : ℕ × ℕ)
      → too_big_for_every_engine usable tok b ≡ some r
      → (roomiest usable 0 b.nodes none ≡ some r) × (r.1 < tok)
  unfolding too_big_for_every_engine
  too_big_room tok b r h = ground arith

-- A request that is refused as too big fits no engine in service, whatever is in flight on it.
pub too_big_never_fits :
    (within : ℕ → ℕ → Bool) (usable : ℕ → ℕ)
    (floats : (amount budget : ℕ) → within amount budget ≡ leb amount (usable budget))
    (tok tokens j : ℕ) (b : DecodeBalancer) (n : DecodeNode) (r : ℕ × ℕ)
    → too_big_for_every_engine usable tok b ≡ some r
    → node_at j b.nodes ≡ some n
    → n.excluded ≡ false
    → (fits within tok (record n { tokens = tokens })).0 ≡ false
too_big_never_fits within usable floats tok tokens j b n r h at_j ready =
    let (best, over) = too_big_room usable tok b r h in
    let all = roomiest_all usable 0 b.nodes none r j n best at_j ready in
    elim (Bool-cases (fits within tok (record n { tokens = tokens })).0) [
      | inr refused ↦ refused
      | inl room ↦
          absurd
            (omega (arith, fits_bound within usable floats tok (record n { tokens = tokens }) room))
    ]
