-- ===== src/Gguf/Int64.antt =====
-- Go's int64, as an integer in its range: sums and products wrap, a quotient is cut towards zero.
use sofmat.Base.{ℕ, zero, suc, ◌-◌, ◌*◌, ◌/◌, ◌%◌, ◌^◌, ltb, if◌then◌else◌}
use sofmat.Base.Int.{ℤ, pos, negsuc}

-- The signed value of a pattern of 2 * `half` values.
unfoldable pub signed : ℕ → ℕ → ℤ
signed half n = if ltb n half then pos n else negsuc (2 * half - 1 - n)

unfoldable pub pattern_of : ℤ → ℕ
pattern_of (pos n) = n % 2 ^ 64
pattern_of (negsuc n) = 2 ^ 64 - 1 - n % 2 ^ 64

-- `int64(z)`.
abbrev pub wrap : ℤ → ℤ
wrap z = signed (2 ^ 63) (pattern_of z)

abbrev pub minus : ℕ → ℤ
minus zero = pos 0
minus (suc n) = negsuc n

unfoldable pub product : ℤ → ℤ → ℤ
product (pos a) (pos b) = pos (a * b)
product (pos a) (negsuc b) = minus (a * suc b)
product (negsuc a) (pos b) = minus (suc a * b)
product (negsuc a) (negsuc b) = pos (suc a * suc b)

unfoldable pub quot : ℤ → ℤ → ℤ
quot (pos a) (pos b) = pos (a / b)
quot (pos a) (negsuc b) = minus (a / suc b)
quot (negsuc a) (pos b) = minus (suc a / b)
quot (negsuc a) (negsuc b) = pos (suc a / suc b)
