-- ===== src/Gguf/Print.antt =====
-- A writer of GGUF files, as the format's description has it: what internal/gguf/gguf.go is to read. A
-- number is little-endian, a text and an array stand behind their length.
use sofmat.Base.{ℕ, zero, suc, ◌*◌, ◌^◌, ◌<◌, ◌≤◌, ◌≡◌, List, [], ◌∷◌, ◌++◌, length, All}
use sofmat.Base.Assoc.{insert}
use sofmat.Base.Strings.{Str, str_discrete}
use sofmat.Base.{leb, if◌then◌else◌}
use sofmat.Gguf.{
  Scalar, uint8, int8, uint16, int16, uint32, int32, float32, boolean, uint64, int64, float64,
  Value, Items, scalar, text, array, no_items, item, width, bits_of,
}
use sofmat.Gguf.Bytes.{put_le}
use sofmat.Gguf.Header.{TensorRef}

abbrev pub scalar_tag : Scalar → ℕ
scalar_tag uint8 = 0
scalar_tag int8 = 1
scalar_tag uint16 = 2
scalar_tag int16 = 3
scalar_tag uint32 = 4
scalar_tag int32 = 5
scalar_tag float32 = 6
scalar_tag boolean = 7
scalar_tag uint64 = 10
scalar_tag int64 = 11
scalar_tag float64 = 12

abbrev pub tag : Value → ℕ
tag (scalar k n) = scalar_tag k
tag (text s) = 8
tag (array vs) = 9

-- The type of an array's values; an empty array may have any, and is written with 0.
abbrev pub item_tag : Items → ℕ
item_tag no_items = 0
item_tag (item v vs) = tag v

abbrev pub count : Items → ℕ
count no_items = 0
count (item v vs) = suc (count vs)

unfoldable pub emit_str : Str → Str
emit_str s = put_le 8 (length s) ++ s

unfoldable mutual
  pub emit : Value → Str
  emit (scalar k n) = put_le (width k) n
  emit (text s) = emit_str s
  emit (array vs) = put_le 4 (item_tag vs) ++ (put_le 8 (count vs) ++ emit_items vs)

  pub emit_items : Items → Str
  emit_items no_items = []
  emit_items (item v vs) = emit v ++ emit_items vs

-- What can be written so that Go reads it: numbers that fit, a boolean of 0 or 1, texts that fit the
-- memory, arrays of one type.
abbrev mutual
  pub Fits : ℕ → Value → Type 0
  Fits max_alloc (scalar k n) = (n < 256 ^ width k) × (bits_of k n ≡ n)
  Fits max_alloc (text s) = (length s ≤ max_alloc) × (length s < 256 ^ 8)
  Fits max_alloc (array vs) = (count vs < 2 ^ 63) × FitsItems max_alloc (item_tag vs) vs

  pub FitsItems : ℕ → ℕ → Items → Type 0
  FitsItems max_alloc et no_items = Unit
  FitsItems max_alloc et (item v vs) = (tag v ≡ et) × Fits max_alloc v × FitsItems max_alloc et vs

-- What is kept of a value: the first 32 values of an array, also inside one.
unfoldable mutual
  pub elide : Value → Value
  elide (array vs) = array (first_items 32 vs)
  elide v = v

  pub first_items : ℕ → Items → Items
  first_items zero vs = no_items
  first_items (suc keep) no_items = no_items
  first_items (suc keep) (item v vs) = item (elide v) (first_items keep vs)

-- The length that is compared with the limit.
abbrev pub size : Value → ℕ
size (array vs) = count vs
size _ = 1

unfoldable pub emit_entries : List (Str × Value) → Str
emit_entries [] = []
emit_entries ((key, v) ∷ es) = emit_str key ++ (put_le 4 (tag v) ++ (emit v ++ emit_entries es))

-- The metadata with one more entry: an array that is too long is left out.
unfoldable pub store_all : List (Str × Value) → List (Str × Value) → List (Str × Value)
store_all meta [] = meta
store_all meta ((key, v) ∷ es) =
    store_all (if leb (size v) 32 then insert str_discrete key (elide v) meta else meta) es

-- A tensor: its name, the 8 bytes of each dimension, the 4 bytes of its type, and its offset.
pub record Tensor : Type 0 where
  pub ref : TensorRef
  pub dims : List ℕ
  pub kind : ℕ

unfoldable pub emit_dims : List ℕ → Str
emit_dims [] = []
emit_dims (d ∷ ds) = put_le 8 d ++ emit_dims ds

unfoldable pub emit_tensors : List Tensor → Str
emit_tensors [] = []
emit_tensors (t ∷ ts) =
    emit_str t.ref.name
    ++ (put_le 4 (length t.dims)
        ++ ((emit_dims t.dims ++ put_le 4 t.kind) ++ (put_le 8 t.ref.rel ++ emit_tensors ts)))

pub record Model : Type 0 where
  pub version : ℕ
  pub entries : List (Str × Value)
  pub tensors : List Tensor

unfoldable pub emit_model : Model → Str
emit_model m =
    (b'G' ∷ b'G' ∷ b'U' ∷ b'F' ∷ [])
    ++ (put_le 4 m.version
        ++ (put_le 8 (length m.tensors)
            ++ (put_le 8 (length m.entries) ++ (emit_entries m.entries ++ emit_tensors m.tensors))))

abbrev pub FitsStr : ℕ → Str → Type 0
FitsStr max_alloc s = (length s ≤ max_alloc) × (length s < 256 ^ 8)

abbrev pub FitsEntry : ℕ → Str × Value → Type 0
FitsEntry max_alloc e = FitsStr max_alloc e.0 × Fits max_alloc e.1

-- The bytes of the dimensions and the type are counted in a uint32.
abbrev pub FitsTensor : ℕ → Tensor → Type 0
FitsTensor max_alloc t =
    FitsStr max_alloc t.ref.name × (length t.dims < 2 ^ 29) × (t.ref.rel < 256 ^ 8)

abbrev pub FitsModel : ℕ → Model → Type 0
FitsModel max_alloc m =
    (2 ≤ m.version)
    × (m.version < 256 ^ 4)
    × (length m.tensors < 256 ^ 8)
    × (24 * length m.tensors ≤ max_alloc)
    × (length m.entries < 256 ^ 8)
    × All (FitsEntry max_alloc) m.entries
    × All (FitsTensor max_alloc) m.tensors
