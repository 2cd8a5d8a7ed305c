-- ===== src/Wire/Framing/Size.antt =====
-- The size that a shape implies: `ExpectedBytes` multiplies in Go's `int`, which wraps.
use native.Mathlib.Nat.{mod-eq_of_lt, mul_assoc, add-mul-mod_self_left, div-add-mod}
use sofmat.Base.{
  ℕ, ◌*◌, ◌^◌, ◌≤◌, ◌<◌, ◌%◌, ◌/◌, ◌≡◌, refl, sym, ap, ◌∙◌, List, [], ◌∷◌, some, arith, length, All,
  ok, int_mod, int_mul,
}
use sofmat.Wire.Bytes.{IsBytes}
use sofmat.Wire.Framing.{
  ActivationHeader, dtype_size, expected_bytes, shape_product, activation_bytes, decode_activation,
  max_ndim,
}
use sofmat.Wire.Framing.Shape.{IsDim, validate_shape-ok, ok-validate_shape}
use sofmat.Wire.Framing.RoundTrip.{IsHeader, decode-encode, ok-encode_activation}
use sofmat.Wire.Framing.Canonical.{decode_activation-Accepted}

-- The number of elements of a shape, with no bound.
abbrev pub elements : List ℕ → ℕ
elements [] = 1
elements (d ∷ ds) = d * elements ds

mul_mod : (a b : ℕ) → ((a % int_mod) * b) % int_mod ≡ (a * b) % int_mod
mul_mod a b =
    ap (λ k. k % int_mod) (refl)
    ∙ sym (add-mul-mod_self_left ((a % int_mod) * b) int_mod ((a / int_mod) * b))
    ∙ ap (λ k. k % int_mod) (omega (arith, ap (λ (t : ℕ). t * b) (div-add-mod a int_mod)))

pub shape_product-mod :
    (s : ℕ) (ds : List ℕ) → s < 2 ^ 64 → shape_product s ds ≡ (s * elements ds) % int_mod
unfolding shape_product
shape_product-mod s [] h = omega arith
shape_product-mod s (d ∷ ds) h =
    shape_product-mod (int_mul s d) ds (omega arith)
    ∙ mul_mod (s * d) (elements ds)
    ∙ ap (λ k. k % int_mod) (mul_assoc s d (elements ds))

dtype_size-bounds : (d s : ℕ) → dtype_size d ≡ some s → (1 ≤ s) × (s ≤ 8)
unfolding dtype_size
dtype_size-bounds d s h = ground arith

-- The size that the code computes is the true one, modulo 2 ^ 64.
pub expected_bytes-mod :
    (h : ActivationHeader) (s n : ℕ)
    → dtype_size h.dtype ≡ some s
    → expected_bytes h ≡ ok n
    → n ≡ (s * elements h.shape) % int_mod
unfolding expected_bytes
expected_bytes-mod h s n size e =
    ground (arith, shape_product-mod s h.shape, dtype_size-bounds h.dtype s)

pub uint8-size : dtype_size 5 ≡ some 1
unfolding dtype_size
uint8-size = refl

pub expected_bytes-some :
    (h : ActivationHeader) (s : ℕ)
    → dtype_size h.dtype ≡ some s
    → expected_bytes h ≡ ok ((s * elements h.shape) % int_mod)
unfolding expected_bytes
expected_bytes-some h s size =
    ground (arith, shape_product-mod s h.shape, dtype_size-bounds h.dtype s)

elements-le : (ds : List ℕ) → All IsDim ds → length ds ≤ 2 → elements ds ≤ 2 ^ 48
elements-le [] h k = omega arith
elements-le (a ∷ []) h k = omega arith
elements-le (a ∷ b ∷ []) h k = grind arith
elements-le (a ∷ b ∷ c ∷ ds) h k = absurd (omega arith)

mul_small : (s n : ℕ) → s ≤ 8 → n ≤ 2 ^ 48 → s * n < 2 ^ 64
mul_small s n h k = grind arith

-- With at most two dimensions the product cannot wrap, and an accepted payload has exactly the
-- size of its shape.
pub decode_exact :
    (buf : List ℕ) (max_payload s : ℕ) (h : ActivationHeader) (payload : List ℕ)
    → IsBytes buf
    → length buf < 2 ^ 63
    → max_payload < 2 ^ 63
    → dtype_size h.dtype ≡ some s
    → length h.shape ≤ 2
    → decode_activation buf max_payload ≡ ok (h, payload)
    → (length payload ≡ s * elements h.shape) × (length payload ≤ max_payload)
decode_exact buf max_payload s h payload bytes short cap size dims e =
    let a = decode_activation-Accepted buf max_payload h payload bytes short cap e in
    let small : elements h.shape ≤ 2 ^ 48 =
      elements-le h.shape (validate_shape-ok h.shape a.valid).1 dims in
    let unit : s ≤ 8 = (dtype_size-bounds h.dtype s size).1 in
    let whole : s * elements h.shape < 2 ^ 64 = mul_small s (elements h.shape) unit small in
    (expected_bytes-mod h s (length payload) size a.expected ∙ mod-eq_of_lt whole, a.fits)

-- With more dimensions it can wrap: a shape whose size is a multiple of 2 ^ 64, say three axes of
-- 2 ^ 24, 2 ^ 24 and 2 ^ 16 bytes, is accepted with no payload at all.
pub decode_overflow :
    (h : ActivationHeader) (s max_payload : ℕ)
    → IsHeader h
    → dtype_size h.dtype ≡ some s
    → length h.shape ≤ max_ndim
    → All IsDim h.shape
    → max_payload < 2 ^ 63
    → (s * elements h.shape) % 2 ^ 64 ≡ 0
    → decode_activation (activation_bytes h []) max_payload ≡ ok (h, [])
decode_overflow h s max_payload wf size dims all cap wraps =
    decode-encode h [] (activation_bytes h []) max_payload wf (omega arith) cap (
      ok-encode_activation h [] (ok-validate_shape h.shape dims all)
        (expected_bytes-some h s size ∙ ap ok wraps))
