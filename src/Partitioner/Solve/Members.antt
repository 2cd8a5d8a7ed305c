-- ===== src/Partitioner/Solve/Members.antt =====
-- internal/partitioner/solver.go: what the nodes of a pool have, the chosen ones have.
use sofmat.Base.{
  ◌≡◌, Bool, true, false, List, [], ◌∷◌, map, All, Bool-cases, if◌then◌else◌, inl, inr,
}
use sofmat.Base.Strings.{Str, same, str_le}
use sofmat.Partitioner.{NodeProfile}
use sofmat.Partitioner.Plans.{by_id, present_sorted}
use sofmat.Partitioner.Plans.Choose.{Sub, stop, skip, keep}
use sofmat.Partitioner.Solve.{without}

module _ {A : Type 0} (P : A → Type 0) where
  pub All-Sub : {xs ys : List A} → Sub xs ys → All P ys → All P xs
  All-Sub stop h = h
  All-Sub (skip s) (h, hs) = All-Sub s hs
  All-Sub (keep s) (h, hs) = (h, All-Sub s hs)

module _ {F : Type 0} (P : NodeProfile F → Type 0) where
  All-by_id : (n : NodeProfile F) (ns : List (NodeProfile F)) → P n → All P ns → All P (by_id n ns)
  unfolding by_id
  All-by_id n [] h hs = (h, tt)
  All-by_id n (m ∷ ms) h (k, ks) = elim (Bool-cases (str_le n.id m.id)) [
    | inl first ↦ rw first (h, (k, ks))
    | inr later ↦ rw later (k, All-by_id n ms h ks)
  ]

  All-if :
      (t : Bool) (xs ys : List (NodeProfile F)) → All P xs → All P ys → All P (if t then xs else ys)
  All-if true xs ys hx hy = hx
  All-if false xs ys hx hy = hy

  pub All-present_sorted : (ns : List (NodeProfile F)) → All P ns → All P (present_sorted ns)
  unfolding present_sorted
  All-present_sorted [] hs = tt
  All-present_sorted (n ∷ ns) (h, hs) =
      All-if n.absent (present_sorted ns) (by_id n (present_sorted ns)) (All-present_sorted ns hs)
        (All-by_id n (present_sorted ns) h (All-present_sorted ns hs))

module _ {F : Type 0} where
  -- Nothing without an id has it.
  pub without-All :
      (id : Str) (ns : List (NodeProfile F)) → All (λ n. same n.id id ≡ false) (without id ns)
  unfolding without
  without-All id [] = tt
  without-All id (n ∷ ns) = elim (Bool-cases (same n.id id)) [
    | inl here ↦ rw here (without-All id ns)
    | inr other ↦ rw other (other, without-All id ns)
  ]

  pub All-ids :
      (P : Str → Type 0) (ns : List (NodeProfile F))
      → All (λ n. P n.id) ns
      → All P (map (λ n. n.id) ns)
  All-ids P [] hs = tt
  All-ids P (n ∷ ns) (h, hs) = (h, All-ids P ns hs)
