-- ===== src/Wire/Handoff/Chunks.antt =====
-- The chunks of a blob, joined, are the blob.
use native.Mathlib.Nat.{suc-mul, suc-add, zero-add, mul_comm, lt-mul-div-succ}
use sofmat.Base.{
  ℕ, zero, suc, ◌+◌, ◌-◌, ◌*◌, ◌/◌, ◌<◌, ◌≤◌, ◌≡◌, refl, sym, ap, ◌∙◌, List, [], ◌∷◌, ◌++◌, arith,
  ltb, ltb→lt, Bool-cases, inl, inr, length, length-take, length-drop, take, drop,
  take_of_length-le,
}
use sofmat.Wire.Handoff.{chunk_at, n_chunks}

take-nil : {A : Type 0} (n : ℕ) → take {A = A} n [] ≡ []
take-nil zero = refl
take-nil (suc n) = refl

-- Past the end of the list a longer prefix is the list.
take-of_ge :
    {A : Type 0} (m n : ℕ) (xs : List A) → length xs ≤ m → length xs ≤ n → take m xs ≡ take n xs
take-of_ge m n xs h k = take_of_length-le m xs h ∙ sym (take_of_length-le n xs k)

take-append-take :
    {A : Type 0} (m n : ℕ) (xs : List A) → take m xs ++ take n (drop m xs) ≡ take (m + n) xs
take-append-take zero n xs = rw zero-add
take-append-take (suc m) n [] = rw suc-add (take-nil n)
take-append-take (suc m) n (x ∷ xs) = rw suc-add (ap (◌∷◌ x) (take-append-take m n xs))

-- The chunk `i` is the next `size` bytes, or what is left of them.
pub chunk_at-take :
    (blob : List ℕ) (size i : ℕ) → chunk_at blob size i ≡ take size (drop (i * size) blob)
chunk_at-take blob size i = elim (Bool-cases (ltb (length blob) (i * size + size))) [
  | inl past ↦ rw past (
      take-of_ge (length blob - i * size) size (drop (i * size) blob)
        (omega (arith, length-drop (i * size) blob))
        (omega (arith, length-drop (i * size) blob, ltb→lt (length blob) (i * size + size) past)))
  | inr inside ↦ rw inside (ap (λ k. take k (drop (i * size) blob)) (omega arith))
]

pub take-chunk_at :
    (blob : List ℕ) (size i : ℕ)
    → take (i * size) blob ++ chunk_at blob size i ≡ take (suc i * size) blob
take-chunk_at blob size i =
    ap (λ l. take (i * size) blob ++ l) (chunk_at-take blob size i)
    ∙ take-append-take (i * size) size blob
    ∙ ap (λ k. take k blob) (sym (suc-mul i size))

pub length-chunk_at-le : (blob : List ℕ) (size i : ℕ) → length (chunk_at blob size i) ≤ size
length-chunk_at-le blob size i =
    rw (chunk_at-take blob size i) (omega (arith, length-take size (drop (i * size) blob)))

-- The chunks are just as many as the blob needs.
pub n_chunks-covers : (total size : ℕ) → 0 < size → total ≤ n_chunks total size * size
n_chunks-covers total size h = elim (Bool-cases (ltb 0 total)) [
  | inl some_bytes ↦ rw some_bytes (
      omega
        (arith, lt-mul-div-succ (total + size - 1) h, mul_comm size ((total + size - 1) / size)))
  | inr none_left ↦ rw none_left (ground arith)
]
