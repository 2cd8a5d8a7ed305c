-- ===== src/Gguf/RoundTrip.antt =====
-- internal/gguf/gguf.go: what the writer of Gguf/Print writes is read back.
use sofmat.Base.{
  ℕ, zero, suc, ◌+◌, ◌-◌, ◌*◌, ◌^◌, ◌<◌, ◌≤◌, ◌≡◌, refl, ap, subst, true, ◌++◌, length, take-append,
  drop-append, length-append, append_assoc, some, lt→ltb, leb, sym, Result, ok, arith,
}
use sofmat.Base.Strings.{Str}
use sofmat.Gguf.{
  Scalar, Value, Items, scalar, text, array, no_items, item, Failure, read_full, read_uint,
  read_str, read_scalar, scalar_of, width, bits_of,
}
use sofmat.Gguf.Bytes.{put_le, from_le-put_le, length-put_le}
use sofmat.Gguf.Fuel.{width_pos}
use sofmat.Gguf.Header.{read_value, read_items, max_stored_array, store}
use sofmat.Gguf.Print.{
  scalar_tag, tag, item_tag, count, emit_str, emit, emit_items, Fits, FitsItems, elide, first_items,
  size,
}

-- A reader that takes just what was printed, whatever follows it.
abbrev pub Reads : {A : Type 0} → (Str → Result Failure (A × Str)) → Str → A → Type 0
Reads r printed a = (rest : Str) → r (printed ++ rest) ≡ ok (a, rest)

pub read_full-Reads : (b : Str) → Reads (read_full (length b)) b b
unfolding read_full
read_full-Reads b rest =
    ground (arith, length-append b rest, take-append b rest, drop-append b rest)

pub read_uint-Reads : (w n : ℕ) → n < 256 ^ w → Reads (read_uint w) (put_le w n) n
unfolding read_uint
read_uint-Reads w n h rest =
    let full =
      subst (λ k. Reads (read_full k) (put_le w n) (put_le w n)) (length-put_le w n)
        (read_full-Reads (put_le w n)) in
    rw (full rest, read_uint, from_le-put_le w n h) refl

pub le→leb : {a b : ℕ} → a ≤ b → leb a b ≡ true
le→leb h = ground (arith, h)

pub read_str-Reads :
    (max_alloc : ℕ) (s : Str)
    → length s ≤ max_alloc
    → length s < 256 ^ 8
    → Reads (read_str max_alloc) (emit_str s) s
unfolding read_str emit_str
read_str-Reads max_alloc s small h rest =
    rw (append_assoc, read_uint-Reads 8 (length s) h (s ++ rest), le→leb small)
      (read_full-Reads s rest)

scalar_of-tag : (k : Scalar) → scalar_of (scalar_tag k) ≡ some k
unfolding scalar_of
scalar_of-tag k = ground arith

read_scalar-Reads :
    (k : Scalar) (n : ℕ)
    → n < 256 ^ width k
    → bits_of k n ≡ n
    → Reads (read_scalar k) (put_le (width k) n) (scalar k n)
unfolding read_scalar
read_scalar-Reads k n h same rest = rw (read_uint-Reads (width k) n h rest, read_scalar, same) refl

emit_pos : (v : Value) → 1 ≤ length (emit v)
unfolding emit emit_str
emit_pos (scalar k n) = omega (arith, length-put_le (width k) n, width_pos k)
emit_pos (text s) = omega (arith, length-append (put_le 8 (length s)) s, length-put_le 8 (length s))
emit_pos (array vs) = omega (
  arith,
  length-append (put_le 4 (item_tag vs)) (put_le 8 (count vs) ++ emit_items vs),
  length-put_le 4 (item_tag vs),
)

lengths : (vs : Items) → length (emit (array vs)) ≡ 12 + length (emit_items vs)
unfolding emit
lengths vs = omega (
  arith,
  length-append (put_le 4 (item_tag vs)) (put_le 8 (count vs) ++ emit_items vs),
  length-append (put_le 8 (count vs)) (emit_items vs),
  length-put_le 4 (item_tag vs),
  length-put_le 8 (count vs),
)

-- Fuel above a bound is a successor.
spend : {n : ℕ} (P : ℕ → Type 0) → ((f : ℕ) → n < suc f → P (suc f)) → (f : ℕ) → n < f → P f
spend P k zero h = absurd (omega (arith, h))
spend P k (suc f) h = k f h

scalar_tag_bound : (k : Scalar) → scalar_tag k < 256 ^ 4
scalar_tag_bound k = ground arith

pub tag_bound : (v : Value) → tag v < 256 ^ 4
tag_bound (scalar k n) = scalar_tag_bound k
tag_bound (text s) = omega arith
tag_bound (array vs) = omega arith

item_tag_bound : (vs : Items) → item_tag vs < 256 ^ 4
item_tag_bound no_items = omega arith
item_tag_bound (item v vs) = tag_bound v

-- What is stored of an array are its first values.
store-first_items :
    (keep : ℕ) (v : Value) (vs : Items)
    → store keep (elide v) (first_items (keep - 1) vs) ≡ first_items keep (item v vs)
unfolding first_items
store-first_items zero v vs = refl
store-first_items (suc keep) v vs = ap (λ k. item (elide v) (first_items k vs)) (omega arith)

first_items_none : (keep : ℕ) → first_items keep no_items ≡ no_items
unfolding first_items
first_items_none zero = refl
first_items_none (suc keep) = refl

abbrev ReadsValue : ℕ → Value → Type 0
ReadsValue max_alloc v =
    (rest : Str)
    → Fits max_alloc v
    → (f : ℕ) → 2 * length (emit v) < f
    → read_value max_alloc f (tag v) (emit v ++ rest) ≡ ok ((elide v, size v), rest)

abbrev ReadsItems : ℕ → Items → Type 0
ReadsItems max_alloc vs =
    (et keep : ℕ) (rest : Str)
    → FitsItems max_alloc et vs
    → (f : ℕ) → suc (2 * length (emit_items vs)) < f
    → read_items max_alloc f et keep (count vs) (emit_items vs ++ rest)
      ≡ ok (first_items keep vs, rest)

module _ (max_alloc : ℕ) where
  pub read_value-ReadsValue : (v : Value) → ReadsValue max_alloc v
  unfolding read_value read_items emit emit_items elide first_items scalar_of
  read_value-ReadsValue v = elim v as (ReadsValue max_alloc) (ReadsItems max_alloc) [
    | scalar k n ↦ λ rest fits.
        spend _
          λ f h. rw (scalar_of-tag k, read_value, read_scalar-Reads k n fits.0 fits.1 rest) refl
    | text s ↦ λ rest fits. spend _ λ f h. rw (read_str-Reads max_alloc s fits.0 fits.1 rest) refl
    | array (vs → ih) ↦ λ rest fits. spend _ λ f h.
        rw
          (
            append_assoc,
            read_uint-Reads 4 (item_tag vs) (item_tag_bound vs)
                ((put_le 8 (count vs) ++ emit_items vs) ++ rest),
            append_assoc,
            read_uint-Reads 8 (count vs) (omega (arith, fits.0)) (emit_items vs ++ rest),
            lt→ltb (count vs) (2 ^ 63) fits.0,
            ih (item_tag vs) max_stored_array rest fits.1 f (omega (arith, h, lengths vs)),
          )
          refl
    | no_items ↦ λ et keep rest fits. spend _ λ f h. rw (first_items_none keep) refl
    | item (v → ih) (vs → ihs) ↦ λ et keep rest fits. spend _ λ f h.
        rw
          (
            append_assoc,
            sym fits.0,
            ih (emit_items vs ++ rest) fits.1 f
                (omega (arith, h, length-append (emit v) (emit_items vs))),
            ihs et (keep - 1) rest fits.2 f
                (omega (arith, h, emit_pos v, length-append (emit v) (emit_items vs))),
          )
          (ap (λ x. ok (x, rest)) (store-first_items keep v vs))
  ]
