-- ===== src/Gguf/Bytes.antt =====
-- The little-endian numbers of Go's `encoding/binary`, which GGUF files use.
use native.Mathlib.Nat.{pow-zero, pow-suc}
use sofmat.Base.{
  ℕ, zero, suc, ◌+◌, ◌*◌, ◌/◌, ◌%◌, ◌^◌, ◌<◌, ◌≡◌, refl, ap, List, [], ◌∷◌, length, arith,
}

-- `LittleEndian.Uint`.
unfoldable pub from_le : List ℕ → ℕ
from_le [] = 0
from_le (b ∷ bs) = b + 256 * from_le bs

-- `LittleEndian.PutUint`: the `w` bytes of `n`, the lowest first.
unfoldable pub put_le : ℕ → ℕ → List ℕ
put_le zero n = []
put_le (suc w) n = (n % 256) ∷ put_le w (n / 256)

pub length-put_le : (w n : ℕ) → length (put_le w n) ≡ w
unfolding put_le
length-put_le zero n = refl
length-put_le (suc w) n = ap suc (length-put_le w (n / 256))

pub from_le-put_le : (w n : ℕ) → n < 256 ^ w → from_le (put_le w n) ≡ n
unfolding put_le from_le
from_le-put_le zero n h = omega (arith, h, pow-zero 256)
from_le-put_le (suc w) n h =
    omega (arith, from_le-put_le w (n / 256) (omega (arith, h, pow-suc 256 w)))
