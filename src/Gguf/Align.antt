-- ===== src/Gguf/Align.antt =====
-- internal/gguf/gguf.go: the arithmetic of int64 where no result leaves its range, and where the data of
-- a file start.
use native.Mathlib.Nat.{div-add-mod', div-le_self, mod-lt, mul-mod_left}
use sofmat.Base.{ℕ, zero, suc, ◌+◌, ◌-◌, ◌*◌, ◌/◌, ◌%◌, ◌^◌, ◌<◌, ◌≤◌, ◌≡◌, refl, ok, arith, lt→ltb}
use sofmat.Base.Int.{pos, ◌+ℤ◌, ◌-ℤ◌}
use sofmat.Gguf.Int64.{signed, pattern_of, wrap, product, quot}
use sofmat.Gguf.Header.{align}

pub signed_small : (half n : ℕ) → n < half → signed half n ≡ pos n
unfolding signed
signed_small half n h = rw (lt→ltb n half h) refl

pub wrap_small : (n : ℕ) → n < 2 ^ 63 → wrap (pos n) ≡ pos n
unfolding signed pattern_of
wrap_small n h = ground (arith, h)

pub add_pos : (a b : ℕ) → pos a +ℤ pos b ≡ pos (a + b)
unfolding ◌+ℤ◌
add_pos a b = ground arith

pub sub_pos : (a b : ℕ) → b ≤ a → pos a -ℤ pos b ≡ pos (a - b)
unfolding ◌-ℤ◌
sub_pos a b h = ground (arith, h)

-- For an alignment that is positive and sums within int64, the data start at the first multiple of it
-- that is not before the position.
pub align_least :
    (at alignment : ℕ)
    → 0 < alignment
    → at + alignment < 2 ^ 63
    → (start : ℕ) × (align (pos at) (pos alignment) ≡ ok (pos start))
      × (start % alignment ≡ 0)
      × (at ≤ start)
      × (start < at + alignment)
unfolding align product quot
align_least at zero h hb = absurd (omega (arith, h))
align_least at (suc a) h hb =
    let n = at + suc a - 1 in
    let q = n / suc a in
    let parts : q * suc a + n % suc a ≡ n = div-add-mod' n (suc a) in
    let left : n % suc a < suc a = mod-lt n h in
    let top : q * suc a ≤ n = omega (arith, parts) in
    let few : q ≤ n = div-le_self n (suc a) in
    (
      q * suc a,
      rw
          (
            add_pos at (suc a),
            wrap_small (at + suc a) hb,
            sub_pos (at + suc a) 1 (omega arith),
            wrap_small n (omega (arith, hb)),
            wrap_small q (omega (arith, few, hb)),
            wrap_small (q * suc a) (omega (arith, top, hb)),
          )
          refl,
      mul-mod_left q (suc a),
      omega (arith, parts, left),
      omega (arith, top),
    )
