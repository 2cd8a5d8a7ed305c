-- ===== src/Gguf/Header.antt =====
-- internal/gguf/gguf.go: `rdVal` and `parseHeader`. Where a value starts, twice as much fuel as there
-- are bytes is given.
use sofmat.Base.{
  ℕ, zero, suc, ◌+◌, ◌-◌, ◌*◌, ◌%◌, ◌^◌, List, [], ◌∷◌, length, drop, Option, none, some, ltb, leb,
  ◌==◌, if◌then◌else◌, Result, ok, err, ◌>>=◌, ◌>>◌, guard,
}
use sofmat.Base.Assoc.{lookup, insert}
use sofmat.Base.Int.{ℤ, pos, ◌+ℤ◌, ◌-ℤ◌}
use sofmat.Base.Strings.{Str, str_discrete, same}
use sofmat.Gguf.{
  uint8, int8, uint16, int16, uint32, int32, uint64, int64, Value, Items, scalar, text, array,
  no_items, item, Failure, panicked, out_of_fuel, unknown_type, no_gguf, truncated_header,
  truncated_metadata, truncated_infos, unsupported, metadata, Reader, reported, read_full,
  read_uint, read_str, scalar_of, read_scalar,
}
use sofmat.Gguf.Int64.{signed, wrap, product, quot}

abbrev pub max_stored_array : ℕ
max_stored_array = 32

pub record TensorRef : Type 0 where
  pub name : Str
  pub rel : ℕ

pub record Header : Type 0 where
  pub meta : List (Str × Value)
  pub infos : List TensorRef
  pub data_start : ℤ

-- What is kept of an array after one more value.
abbrev pub store : ℕ → Value → Items → Items
store zero v vs = no_items
store (suc keep) v vs = item v vs

module _ (max_alloc : ℕ) where
  -- `rdVal` of a type, with the length of an array, or 1. The values of an array that are not stored
  -- are read too. The loop over an array has `n` rounds left and `keep` places.
  unfoldable mutual
    pub read_value : ℕ → ℕ → Reader (Value × ℕ)
    read_value zero t s = err out_of_fuel
    read_value (suc f) t s =
        let texts = do (b, rest) ← read_str max_alloc s; ok ((text b, 1), rest)
        in let arrays = do
          (et, s1) ← read_uint 4 s
          (n, s2) ← read_uint 8 s1
          guard (ltb n (2 ^ 63)) panicked
          (vs, rest) ← read_items f et max_stored_array n s2
          ok ((array vs, n), rest)
          in elim (scalar_of t) [
            | some k ↦ elim (read_scalar k s) [ ok (v, rest) ↦ ok ((v, 1), rest) | err e ↦ err e ]
            | none ↦ if t == 8 then texts else if t == 9 then arrays else err (unknown_type t)
          ]

    pub read_items : ℕ → ℕ → ℕ → ℕ → Reader Items
    read_items f et keep zero s = ok (no_items, s)
    read_items zero et keep (suc n) s = err out_of_fuel
    read_items (suc f) et keep (suc n) s = do
      (v, s1) ← read_value f et s
      (vs, rest) ← read_items f et (keep - 1) n s1
      ok (store keep v.0 vs, rest)

  -- The loop over the metadata.
  unfoldable pub read_metadata : ℕ → List (Str × Value) → Reader (List (Str × Value))
  read_metadata zero meta s = ok (meta, s)
  read_metadata (suc n) meta s = do
    (key, s1) ← reported truncated_metadata (read_str max_alloc s)
    (t, s2) ← reported truncated_metadata (read_uint 4 s1)
    (v, s3) ← elim (read_value (2 * length s2 + 1) t s2) [
      | ok r ↦ ok r
      | err e ↦ reported (metadata key e) (err e)
    ]
    read_metadata n (if leb v.1 max_stored_array then insert str_discrete key v.0 meta else meta) s3

  -- The loop over the tensors. `8*nDims` is a product of uint32s.
  unfoldable pub read_infos : ℕ → Reader (List TensorRef)
  read_infos zero s = ok ([], s)
  read_infos (suc n) s = do
    (name, s1) ← reported truncated_infos (read_str max_alloc s)
    (dims, s2) ← reported truncated_infos (read_uint 4 s1)
    (rel, s3) ← reported truncated_infos (read_uint 8 (drop (8 * dims % 2 ^ 32 + 4) s2))
    (rest, s4) ← read_infos n s3
    ok (record { name = name; rel = rel } ∷ rest, s4)

-- `asInt`.
unfoldable pub as_int : Option Value → ℤ → ℤ
as_int (some (scalar uint8 n)) usual = pos n
as_int (some (scalar int8 n)) usual = signed (2 ^ 7) n
as_int (some (scalar uint16 n)) usual = pos n
as_int (some (scalar int16 n)) usual = signed (2 ^ 15) n
as_int (some (scalar uint32 n)) usual = pos n
as_int (some (scalar int32 n)) usual = signed (2 ^ 31) n
as_int (some (scalar uint64 n)) usual = signed (2 ^ 63) n
as_int (some (scalar int64 n)) usual = signed (2 ^ 63) n
as_int _ usual = usual

-- `(pos + alignment - 1) / alignment * alignment`: a division by zero panics.
unfoldable pub align : ℤ → ℤ → Result Failure ℤ
align at (pos zero) = err panicked
align at alignment =
    ok (wrap (product (wrap (quot (wrap (wrap (at +ℤ alignment) -ℤ pos 1)) alignment)) alignment))

abbrev pub magic : Str
magic = b'G' ∷ b'G' ∷ b'U' ∷ b'F' ∷ []

abbrev pub alignment_key : Str
alignment_key =
    b'g' ∷ b'e' ∷ b'n' ∷ b'e' ∷ b'r' ∷ b'a' ∷ b'l' ∷ b'.' ∷ b'a' ∷ b'l' ∷ b'i' ∷ b'g' ∷ b'n' ∷ b'm'
    ∷ b'e' ∷ b'n' ∷ b't' ∷ []

-- `parseHeader`. A seek past the end is no error; the read behind it is, so the position at the end is
-- the number of bytes that were read.
unfoldable pub parse_header : ℕ → Str → Result Failure Header
parse_header max_alloc file = do
  (tag, s1) ← reported no_gguf (read_full 4 file)
  guard (same tag magic) no_gguf
  (version, s2) ← reported truncated_header (read_uint 4 s1)
  guard (leb 2 version) (unsupported version)
  (n_tensors, s3) ← reported truncated_header (read_uint 8 s2)
  (n_kv, s4) ← reported truncated_header (read_uint 8 s3)
  (meta, s5) ← read_metadata max_alloc n_kv [] s4
  guard (leb (24 * n_tensors) max_alloc) panicked
  (infos, s6) ← read_infos max_alloc n_tensors s5
  start ←
      align (pos (length file - length s6))
        (as_int (lookup str_discrete alignment_key meta) (pos 32))
  ok (record { meta = meta; infos = infos; data_start = start })

-- `ReadMetadata`.
unfoldable pub read_metadata_of : ℕ → Str → Result Failure (List (Str × Value))
read_metadata_of max_alloc file = do h ← parse_header max_alloc file; ok h.meta
