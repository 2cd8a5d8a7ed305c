-- ===== src/Gguf.antt =====
-- internal/gguf/gguf.go: the primitives that read a GGUF header, and its values. A file is the bytes that
-- are left; `max_alloc` is the largest slice, in bytes, that Go's `make` gives: a longer one panics.
pub mod Bytes
pub mod Int64
pub mod Header
pub mod Fuel
pub mod Ends
pub mod Print
pub mod RoundTrip
pub mod Whole
pub mod Align
pub mod Tensors
pub mod Layout
pub mod Tiles
pub mod Shards
pub mod Stored
pub mod Given
pub mod Spec
mod Tests
mod SpecTests
use sofmat.Base.{
  ℕ, zero, suc, ◌+◌, ◌*◌, ◌^◌, Bool, true, false, not, ◌||◌, List, [], ◌∷◌, length, take, drop,
  Option, none, some, ltb, leb, ◌==◌, if◌then◌else◌, Result, ok, err, ◌>>=◌, ◌>>◌, guard,
}
use sofmat.Base.Strings.{Str}
use sofmat.Gguf.Bytes.{from_le}

-- The scalar types, by their number in the file.
pub data Scalar : Type 0 where
  uint8 int8 uint16 int16 uint32 int32 float32 boolean uint64 int64 float64 : Scalar

-- What a file holds: a scalar as its bits, a text, or an array with the length that is written.
mutual
  pub data Value : Type 0 where
    scalar : Scalar → ℕ → Value
    text : Str → Value
    array : Items → Value

  pub data Items : Type 0 where
    no_items : Items
    item : Value → Items → Items

pub data Failure : Type 0 where
  end_of_file panicked out_of_fuel : Failure
  unknown_type : ℕ → Failure
  no_gguf truncated_header truncated_metadata truncated_infos : Failure
  unsupported : ℕ → Failure
  metadata : Str → Failure → Failure

abbrev pub Reader : Type 0 → Type 0
Reader A = Str → Result Failure (A × Str)

-- An error that is reported as another one; a panic is none.
abbrev pub reported : {A : Type 0} → Failure → Result Failure A → Result Failure A
reported f (ok a) = ok a
reported f (err panicked) = err panicked
reported f (err out_of_fuel) = err out_of_fuel
reported f (err _) = err f

-- `io.ReadFull` into a slice of a length.
unfoldable pub read_full : ℕ → Reader Str
read_full n s = if ltb (length s) n then err end_of_file else ok (take n s, drop n s)

-- `binary.Read` of an unsigned number of some bytes.
unfoldable pub read_uint : ℕ → Reader ℕ
read_uint w s = do (b, rest) ← read_full w s; ok (from_le b, rest)

-- `rdStr`.
unfoldable pub read_str : ℕ → Reader Str
read_str max_alloc s = do
  (n, rest) ← read_uint 8 s
  guard (leb n max_alloc) panicked
  read_full n rest

-- The size of a scalar.
abbrev pub width : Scalar → ℕ
width uint8 = 1
width int8 = 1
width uint16 = 2
width int16 = 2
width uint32 = 4
width int32 = 4
width float32 = 4
width boolean = 1
width uint64 = 8
width int64 = 8
width float64 = 8

-- The `switch` of `rdVal`.
unfoldable pub scalar_of : ℕ → Option Scalar
scalar_of t =
    if t == 0
    then some uint8
    else if t == 1
    then some int8
    else if t == 2
    then some uint16
    else if t == 3
    then some int16
    else if t == 4
    then some uint32
    else if t == 5
    then some int32
    else if t == 6
    then some float32
    else if t == 7
    then some boolean
    else if t == 10
    then some uint64
    else if t == 11
    then some int64
    else if t == 12
    then some float64
    else none

-- `binary.Read` into a `*bool`.
abbrev pub bits_of : Scalar → ℕ → ℕ
bits_of boolean n = if n == 0 then 0 else 1
bits_of _ n = n

-- A scalar. When the read fails, the value is nil, and the assertion of its type panics.
unfoldable pub read_scalar : Scalar → Reader Value
read_scalar k s = elim (read_uint (width k) s) [
  | ok (n, rest) ↦ ok (scalar k (bits_of k n), rest)
  | err e ↦ err panicked
]
