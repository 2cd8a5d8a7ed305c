-- ===== src/Gguf/Tests.antt =====
-- Tests of the reader of GGUF headers, and its theorems at concrete inputs.
use mathlib.Core.List.{Perm}
use sofmat.Base.{
  ℕ, ◌-◌, ◌^◌, ◌≡◌, ◌≢◌, refl, List, [], ◌∷◌, ◌++◌, map, length, some, ok, err, ◌>>=◌, arith,
  ℕ_discrete,
}
use sofmat.Base.Assoc.{lookup, insert, Distinct}
use sofmat.Base.Int.{pos, negsuc, ◌+ℤ◌, ◌-ℤ◌}
use sofmat.Base.Strings.{Str, str_discrete}
use sofmat.Gguf.{
  Value, scalar, text, array, no_items, item, uint32, uint8, panicked, out_of_fuel, read_full,
  read_uint, read_str, scalar_of, read_scalar,
}
use sofmat.Gguf.Bytes.{from_le, put_le}
use sofmat.Gguf.Int64.{signed, pattern_of, product, quot}
use sofmat.Gguf.Header.{
  TensorRef, magic, read_value, read_items, read_metadata, read_infos, as_int, align, parse_header,
  read_metadata_of, alignment_key,
}
use sofmat.Gguf.Print.{
  emit_str, emit, emit_items, emit_entries, emit_dims, emit_tensors, emit_model, elide, first_items,
  store_all, Model, Tensor, FitsModel,
}
use sofmat.Gguf.Whole.{parse_header-emit_model}
use sofmat.Gguf.Stored.{kept, read_metadata_of-lookup, read_metadata_of_zero}
use sofmat.Gguf.Ends.{parse_header_ends}
use sofmat.Gguf.Tensors.{
  TensorInfo, non_monotonic, start_of, end_of, table_of, layout, tensor_table,
}
use sofmat.Gguf.Tiles.{Tiles, placed, place_of}
use sofmat.Gguf.Layout.{layout-Tiles, layout_given}
use sofmat.Gguf.Spec.{architecture}

reader : Unit {0}
unfolding str_discrete ℕ_discrete lookup insert ◌+ℤ◌ ◌-ℤ◌ read_full read_uint read_str scalar_of
    read_scalar from_le put_le signed pattern_of product quot read_value read_items read_metadata
    read_infos as_int align parse_header read_metadata_of emit_str emit emit_items emit_entries
    emit_dims emit_tensors emit_model elide first_items store_all start_of end_of table_of layout
    tensor_table
reader = tt

abbrev entries : List (Str × Value)
entries =
    (architecture, text (b'q' ∷ []))
    ∷ (b'n' ∷ [], array (item (scalar uint8 1) (item (scalar uint8 2) no_items)))
    ∷ (b'z' ∷ [], scalar uint32 70000)
    ∷ []

abbrev tensor : ℕ → ℕ → Tensor
tensor name rel = record {
  ref = record { name = name ∷ []; rel = rel };
  dims = 4 ∷ 2 ∷ [];
  kind = 0;
}

abbrev model : List (Str × Value) → Model
model es = record { version = 3; entries = es; tensors = tensor b'b' 32 ∷ tensor b'a' 0 ∷ [] }

abbrev bytes_of : List (Str × Value) → Str
bytes_of es = emit_model (model es)

abbrev limit : ℕ
limit = 1000

model-FitsModel : FitsModel limit (model entries)
model-FitsModel = (
  omega arith,
  omega arith,
  omega arith,
  omega arith,
  omega arith,
  (
    ((omega arith, omega arith), (omega arith, omega arith)),
    (
      (
        (omega arith, omega arith),
        (omega arith, (refl, (omega arith, refl), (refl, (omega arith, refl), tt))),
      ),
      (((omega arith, omega arith), (omega arith, refl)), tt),
    ),
  ),
  (
    ((omega arith, omega arith), omega arith, omega arith),
    (((omega arith, omega arith), omega arith, omega arith), tt),
  ),
)

entries-Distinct : Distinct str_discrete entries
unfolding reader
entries-Distinct = (refl, (refl, (refl, tt)))

written :
    parse_header limit (bytes_of entries)
    ≡ ok (record {
      meta = entries;
      infos = map (λ t. t.ref) (model entries).tensors;
      data_start = pos 192;
    })
unfolding reader
written = refl

-- The start of a file whose one scalar is cut short.
abbrev cut_short : Str
cut_short =
    magic
    ++ (put_le 4 3
        ++ (put_le 8 0 ++ (put_le 8 1 ++ (emit_str (b'k' ∷ []) ++ (put_le 4 4 ++ (1 ∷ 2 ∷ []))))))

cut_short_panics : parse_header limit cut_short ≡ err panicked
unfolding reader
cut_short_panics = refl

parse_header-emit_model_example : parse_header limit (bytes_of entries ++ (7 ∷ [])) ≡ (do
  start ←
      align
        (pos (length (bytes_of entries)))
        (as_int (lookup str_discrete alignment_key (store_all [] entries)) (pos 32))
  ok (record {
    meta = store_all [] entries;
    infos = map (λ t. t.ref) (model entries).tensors;
    data_start = start;
  }))
parse_header-emit_model_example =
    parse_header-emit_model limit (model entries) (7 ∷ []) model-FitsModel

read_metadata_of-lookup_example :
    (meta : List (Str × Value)) × (read_metadata_of limit (bytes_of entries ++ (7 ∷ [])) ≡ ok meta)
    × ((key : Str) → lookup str_discrete key meta ≡ kept (lookup str_discrete key entries))
unfolding reader
read_metadata_of-lookup_example =
    read_metadata_of-lookup limit (model entries) (7 ∷ []) 32 model-FitsModel entries-Distinct refl
      (omega arith) (omega arith)

abbrev zero_aligned : List (Str × Value)
zero_aligned = (alignment_key, scalar uint32 0) ∷ []

zero_aligned-FitsModel : FitsModel limit (model zero_aligned)
zero_aligned-FitsModel = (
  omega arith,
  omega arith,
  omega arith,
  omega arith,
  omega arith,
  (((omega arith, omega arith), (omega arith, refl)), tt),
  (
    ((omega arith, omega arith), omega arith, omega arith),
    (((omega arith, omega arith), omega arith, omega arith), tt),
  ),
)

read_metadata_of_zero_example : read_metadata_of limit (bytes_of zero_aligned ++ []) ≡ err panicked
unfolding reader
read_metadata_of_zero_example =
    read_metadata_of_zero limit (model zero_aligned) [] zero_aligned-FitsModel (refl, tt) refl

parse_header_ends_example : parse_header limit (b'G' ∷ b'G' ∷ []) ≢ err out_of_fuel
parse_header_ends_example = parse_header_ends limit (b'G' ∷ b'G' ∷ [])

abbrev infos : List TensorRef
infos = map (λ t. t.ref) (model entries).tensors

abbrev table : List TensorInfo
table =
    record { name = b'a' ∷ []; offset = pos 192; n_bytes = pos 32 }
    ∷ record { name = b'b' ∷ []; offset = pos 224; n_bytes = pos 16 }
    ∷ []

tensors_laid_out : tensor_table limit (some 240) (bytes_of entries) ≡ ok table
unfolding reader
tensors_laid_out = refl

tensor_outside : tensor_table limit (some 200) (bytes_of entries) ≡ err (non_monotonic (b'b' ∷ []))
unfolding reader
tensor_outside = refl

-- An offset from 2 ^ 63 on is taken for a negative one.
far_offset :
    layout
      (record {
        meta = [];
        infos = record { name = []; rel = 2 ^ 64 - 64 } ∷ [];
        data_start = pos 32;
      })
      (some 100)
    ≡ ok (record { name = []; offset = negsuc 31; n_bytes = pos 132 } ∷ [])
unfolding reader
far_offset = refl

layout-Tiles_example :
    (first : ℕ) × Tiles table first 240 × Perm (map place_of table) (map (placed 192) infos)
unfolding reader
layout-Tiles_example =
    layout-Tiles 192 240 (omega arith) entries infos table (omega arith, (omega arith, tt)) refl

layout_given_example :
    (table : List TensorInfo) × (layout
        (record { meta = entries; infos = infos; data_start = pos 192 })
        (some 240)
      ≡ ok table)
layout_given_example =
    layout_given 192 240 (omega arith) entries (tensor b'b' 32).ref ((tensor b'a' 0).ref ∷ [])
      ((λ e. absurd (omega (arith, e)), tt), (tt, tt)) (omega arith, (omega arith, tt))
