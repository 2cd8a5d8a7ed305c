-- ===== src/Gguf/Fuel.antt =====
-- internal/gguf/gguf.go: reading a header comes to an end. Every value takes a byte at least, so the fuel
-- of `read_value` is never used up.
use sofmat.Base.{
  ℕ, zero, suc, ◌+◌, ◌-◌, ◌*◌, ◌^◌, ◌≤◌, ◌<◌, Bool, true, false, length, length-drop, Option-cases,
  ltb, leb, ◌==◌, Result, ok, err, ◌>>=◌, ◌>>◌, guard, arith, Bool-cases, inl, inr,
}
use sofmat.Base.Strings.{Str}
use sofmat.Gguf.{
  Scalar, Value, scalar, Failure, end_of_file, panicked, out_of_fuel, unknown_type, no_gguf,
  truncated_header, truncated_metadata, truncated_infos, unsupported, metadata, reported, read_full,
  read_uint, read_str, scalar_of, read_scalar, width, bits_of,
}
use sofmat.Gguf.Header.{read_value, read_items, max_stored_array}

abbrev pub Known : Failure → Type 0
Known out_of_fuel = ⊥
Known _ = Unit

-- A reader's result behind an input: at least `k` bytes are taken, or it fails with fuel left.
abbrev pub Takes : {A : Type 0} → ℕ → Str → Result Failure (A × Str) → Type 0
Takes k s (ok (a, rest)) = length rest + k ≤ length s
Takes k s (err e) = Known e

Takes-mono :
    {A : Type 0} (j k l : ℕ) (s t : Str) (r : Result Failure (A × Str))
    → length t + j ≤ length s
    → l ≤ k + j
    → Takes k t r
    → Takes l s r
Takes-mono j k l s t (ok (a, rest)) h e w = omega (arith, h, e, w)
Takes-mono j k l s t (err f) h e w = w

Takes-bind :
    {A B : Type 0} (j k : ℕ) (s : Str) (m : Result Failure (A × Str))
    (f : A × Str → Result Failure (B × Str))
    → Takes j s m
    → ((a : A) (rest : Str) → length rest + j ≤ length s → Takes k s (f (a, rest)))
    → Takes k s (m >>= f)
Takes-bind j k s (ok (a, rest)) f w g = g a rest w
Takes-bind j k s (err e) f w g = w

Takes-guard :
    {B : Type 0} (k : ℕ) (s : Str) (t : Bool) (e : Failure) (r : Result Failure (B × Str))
    → Known e
    → Takes k s r
    → Takes k s (guard t e >> r)
Takes-guard k s true e r h w = w
Takes-guard k s false e r h w = h

pub Takes-reported :
    {A : Type 0} (k : ℕ) (s : Str) (f : Failure) (r : Result Failure (A × Str))
    → Known f
    → Takes k s r
    → Takes k s (reported f r)
Takes-reported k s f (ok (a, rest)) h w = w
Takes-reported k s f (err out_of_fuel) h w = w
Takes-reported k s f (err panicked) h w = tt
Takes-reported k s f (err end_of_file) h w = h
Takes-reported k s f (err (unknown_type t)) h w = h
Takes-reported k s f (err no_gguf) h w = h
Takes-reported k s f (err truncated_header) h w = h
Takes-reported k s f (err truncated_metadata) h w = h
Takes-reported k s f (err truncated_infos) h w = h
Takes-reported k s f (err (unsupported v)) h w = h
Takes-reported k s f (err (metadata key e)) h w = h

pub read_full-Takes : (n : ℕ) (s : Str) → Takes n s (read_full n s)
unfolding read_full
read_full-Takes n s = elim (Bool-cases (ltb (length s) n)) [
  | inl short ↦ rw short tt
  | inr enough ↦ rw enough (ground (arith, enough, length-drop n s))
]

pub read_uint-Takes : (w : ℕ) (s : Str) → Takes w s (read_uint w s)
unfolding read_uint
read_uint-Takes w s = Takes-bind w w s (read_full w s) _ (read_full-Takes w s) (λ b rest h. h)

pub read_str-Takes : (max_alloc : ℕ) (s : Str) → Takes 8 s (read_str max_alloc s)
unfolding read_str
read_str-Takes max_alloc s = Takes-bind 8 8 s (read_uint 8 s) _ (read_uint-Takes 8 s) (λ n rest h.
    Takes-guard 8 s (leb n max_alloc) panicked _ tt
      (Takes-mono 8 n 8 s rest (read_full n rest) h (omega arith) (read_full-Takes n rest)))

pub width_pos : (k : Scalar) → 1 ≤ width k
width_pos k = ground arith

read_scalar-Takes : (k : Scalar) (s : Str) → Takes 1 s (read_scalar k s)
unfolding read_scalar
read_scalar-Takes k s = some_bits (read_uint (width k) s) (read_uint-Takes (width k) s)
  where
    some_bits :
        (r : Result Failure (ℕ × Str))
        → Takes (width k) s r
        → Takes 1 s
            (elim r [ ok (n, rest) ↦ ok (scalar k (bits_of k n), rest) | err e ↦ err panicked ])
    some_bits (ok (n, rest)) w = omega (arith, w, width_pos k)
    some_bits (err e) w = tt

-- One more component beside the value.
Takes-pair :
    (s : Str) (r : Result Failure (Value × Str))
    → Takes 1 s r
    → Takes {A = Value × ℕ} 1 s (elim r [ ok (v, rest) ↦ ok ((v, 1), rest) | err e ↦ err e ])
Takes-pair s (ok (v, rest)) w = w
Takes-pair s (err e) w = w

mutual
  unfolding read_value read_items

  pub read_value-Takes :
      (max_alloc f t : ℕ) (s : Str) → 2 * length s < f → Takes 1 s (read_value max_alloc f t s)
  read_value-Takes max_alloc zero t s h = absurd (omega (arith, h))
  read_value-Takes max_alloc (suc f) t s h = elim (Option-cases (scalar_of t)) [
    | inr (k, known) ↦
        rw (known, read_value) (Takes-pair s (read_scalar k s) (read_scalar-Takes k s))
    | inl other ↦
        rw (other, read_value)
          (elim (Bool-cases (t == 8)) [
            | inl is_text ↦ rw is_text (
                Takes-bind 8 1 s (read_str max_alloc s) _ (read_str-Takes max_alloc s)
                  (λ b rest w. omega (arith, w)))
            | inr no_text ↦ rw no_text (elim (Bool-cases (t == 9)) [
              | inr unknown ↦ rw unknown tt
              | inl is_array ↦ rw is_array (
                  Takes-bind 4 1 s (read_uint 4 s) _ (read_uint-Takes 4 s) (λ et s1 w1.
                    Takes-mono 4 0 1 s s1 _ w1 (omega arith) (
                      Takes-bind 8 0 s1 (read_uint 8 s1) _ (read_uint-Takes 8 s1) (λ n s2 w2.
                        Takes-guard 0 s1 (ltb n (2 ^ 63)) panicked _ tt (
                          Takes-mono 8 0 0 s1 s2 _ w2 (omega arith) (
                            Takes-bind 0 0 s2 (read_items max_alloc f et max_stored_array n s2) _
                              (read_items-Takes max_alloc f et max_stored_array n s2
                                (omega (arith, h, w1, w2)))
                              (λ vs rest w. w)))))))
            ])
          ])
  ]

  read_items-Takes :
      (max_alloc f et keep n : ℕ) (s : Str)
      → 2 * length s + 1 < f
      → Takes 0 s (read_items max_alloc f et keep n s)
  read_items-Takes max_alloc zero et keep n s h = absurd (omega (arith, h))
  read_items-Takes max_alloc (suc f) et keep zero s h = omega arith
  read_items-Takes max_alloc (suc f) et keep (suc n) s h =
      Takes-bind 1 0 s (read_value max_alloc f et s) _
        (read_value-Takes max_alloc f et s (omega (arith, h)))
        (λ v rest w.
          Takes-bind 0 0 s (read_items max_alloc f et (keep - 1) n rest) _
            (Takes-mono 1 0 0 s rest (read_items max_alloc f et (keep - 1) n rest) w (omega arith)
              (read_items-Takes max_alloc f et (keep - 1) n rest (omega (arith, h, w))))
            (λ vs u x. omega (arith, x)))
