-- ===== src/Wire/Bytes.antt =====
-- Byte strings and the big-endian integers of Go's `encoding/binary`, which the wire formats of
-- internal/framing, internal/transport and internal/kvhandoff use.
use native.Mathlib.Nat.{pow-zero, pow-suc, zero-add, add-suc, suc-add, add-zero}
use sofmat.Base.{
  ℕ, zero, suc, ◌+◌, ◌*◌, ◌/◌, ◌%◌, ◌^◌, ◌<◌, ◌≡◌, refl, ap, ◌∙◌, sym, List, [], ◌∷◌, ◌++◌,
  append-nil, append_assoc, Bool, true, false, ◌&&◌, ◌==◌, arith, length, length-append, take, drop,
  get_or, All, All-append,
}

-- A byte.
abbrev pub IsByte : ℕ → Type 0
IsByte b = b < 256

abbrev pub IsBytes : List ℕ → Type 0
IsBytes = All IsByte

-- `[]byte` equality.
unfoldable pub bytes_eq : List ℕ → List ℕ → Bool
bytes_eq [] [] = true
bytes_eq (x ∷ xs) (y ∷ ys) = x == y && bytes_eq xs ys
bytes_eq _ _ = false

pub bytes_eq_refl : (xs : List ℕ) → bytes_eq xs xs ≡ true
unfolding bytes_eq
bytes_eq_refl [] = refl
bytes_eq_refl (x ∷ xs) = ground (arith, bytes_eq_refl xs)

pub eq_of_bytes_eq : (xs ys : List ℕ) → bytes_eq xs ys ≡ true → xs ≡ ys
unfolding bytes_eq
eq_of_bytes_eq [] [] h = refl
eq_of_bytes_eq (x ∷ xs) (y ∷ ys) h = ground (arith, eq_of_bytes_eq xs ys)
eq_of_bytes_eq [] (y ∷ ys) h = cc
eq_of_bytes_eq (x ∷ xs) [] h = cc

-- `BigEndian.PutUint`: the `w` bytes of `n`, the highest first.
unfoldable pub put_be : ℕ → ℕ → List ℕ
put_be zero n = []
put_be (suc w) n = put_be w (n / 256) ++ (n % 256) ∷ []

-- `BigEndian.Uint`, from the bytes read so far.
unfoldable pub from_be_acc : ℕ → List ℕ → ℕ
from_be_acc acc [] = acc
from_be_acc acc (b ∷ bs) = from_be_acc (acc * 256 + b) bs

abbrev pub from_be : List ℕ → ℕ
from_be = from_be_acc 0

-- The integer of `w` bytes at `buf[off:]`.
abbrev pub uint_at : ℕ → ℕ → List ℕ → ℕ
uint_at w off buf = from_be (take w (drop off buf))

-- `buf[i]`, where `i` is in range.
abbrev pub byte_at : List ℕ → ℕ → ℕ
byte_at buf i = get_or buf i 0

from_be_acc-append :
    (acc : ℕ) (xs : List ℕ) (b : ℕ) → from_be_acc acc (xs ++ b ∷ []) ≡ from_be_acc acc xs * 256 + b
unfolding from_be_acc
from_be_acc-append acc [] b = refl
from_be_acc-append acc (x ∷ xs) b = from_be_acc-append (acc * 256 + x) xs b

-- What is put is read back.
pub from_be-put_be : (w n : ℕ) → n < 256 ^ w → from_be (put_be w n) ≡ n
unfolding put_be from_be_acc
from_be-put_be zero n h = omega arith
from_be-put_be (suc w) n h =
    rw (from_be_acc-append 0 (put_be w (n / 256)) (n % 256))
      (omega (arith, from_be-put_be w (n / 256) (omega (arith, pow-suc 256 w))))

pub length-put_be : (w n : ℕ) → length (put_be w n) ≡ w
unfolding put_be
length-put_be zero n = refl
length-put_be (suc w) n =
    omega (arith, length-append (put_be w (n / 256)) ((n % 256) ∷ []), length-put_be w (n / 256))

pub put_be-IsBytes : (w n : ℕ) → IsBytes (put_be w n)
unfolding put_be
put_be-IsBytes zero n = tt
put_be-IsBytes (suc w) n =
    All-append IsByte (put_be w (n / 256)) ((n % 256) ∷ []) (put_be-IsBytes w (n / 256))
      (omega arith, tt)

div_step : (acc b : ℕ) → b < 256 → (acc * 256 + b) / 256 ≡ acc
div_step acc b h = omega arith

mod_step : (acc b : ℕ) → b < 256 → (acc * 256 + b) % 256 ≡ b
mod_step acc b h = omega arith

put_be-from_be_acc :
    (w acc : ℕ) (bs : List ℕ)
    → IsBytes bs
    → put_be (w + length bs) (from_be_acc acc bs) ≡ put_be w acc ++ bs
unfolding from_be_acc put_be
put_be-from_be_acc w acc [] h = rw (add-zero w, append-nil) refl
put_be-from_be_acc w acc (b ∷ bs) h =
    ap (λ k. put_be k (from_be_acc (acc * 256 + b) bs))
      (add-suc w (length bs) ∙ sym (suc-add w (length bs)))
    ∙ put_be-from_be_acc (suc w) (acc * 256 + b) bs h.1
    ∙ rw (div_step acc b h.0, mod_step acc b h.0) (append_assoc (put_be w acc) (b ∷ []) bs)

-- What is read is put back, byte for byte.
pub put_be-from_be : (bs : List ℕ) → IsBytes bs → put_be (length bs) (from_be bs) ≡ bs
unfolding put_be
put_be-from_be bs h =
    ap (λ k. put_be k (from_be bs)) (sym (zero-add (length bs))) ∙ put_be-from_be_acc 0 0 bs h

from_be_acc-lt :
    (w acc : ℕ) (bs : List ℕ)
    → IsBytes bs
    → acc < 256 ^ w
    → from_be_acc acc bs < 256 ^ (w + length bs)
unfolding from_be_acc
from_be_acc-lt w acc [] h k = rw add-zero k
from_be_acc-lt w acc (b ∷ bs) h k =
    rw (add-suc w (length bs), ← suc-add w (length bs))
      (from_be_acc-lt (suc w) (acc * 256 + b) bs h.1 (omega (arith, pow-suc 256 w)))

-- An integer of `w` bytes is below 256 ^ w.
pub from_be-lt : (bs : List ℕ) → IsBytes bs → from_be bs < 256 ^ length bs
from_be-lt bs h =
    rw (← zero-add (length bs)) (from_be_acc-lt 0 0 bs h (omega (arith, pow-zero 256)))
