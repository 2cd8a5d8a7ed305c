-- ===== src/Base/Words.antt =====
-- Go's `int` and the sized integers. An `int` of 64 bits is its bit pattern, a number below 2 ^ 64;
-- sums and products wrap, and an order between patterns is that of the signed values.
use Prim.Native.Nat.{ℕ, ◌+◌, ◌*◌, ◌%◌, ◌^◌}
use mathlib.Core.Bool.{Bool}
use sofmat.Base.Tests.{ltb}

abbrev pub int_mod : ℕ
int_mod = 2 ^ 64

-- The first pattern of a negative value.
abbrev pub int_sign : ℕ
int_sign = 2 ^ 63

abbrev pub int_add : ℕ → ℕ → ℕ
int_add a b = (a + b) % int_mod

abbrev pub int_mul : ℕ → ℕ → ℕ
int_mul a b = (a * b) % int_mod

-- `a < b` on the signed values: the patterns moved by 2 ^ 63 are in the unsigned order.
abbrev pub int_lt : ℕ → ℕ → Bool
int_lt a b = ltb ((a + int_sign) % int_mod) ((b + int_sign) % int_mod)
