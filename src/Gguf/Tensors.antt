-- ===== src/Gguf/Tensors.antt =====
-- internal/gguf/gguf.go: `TensorTable`. The size of the file is what `os.Stat` says, if it can. Go's sort
-- leaves open how tensors at one offset stand; such a table is refused, whichever comes first.
use sofmat.Base.{
  ℕ, ◌^◌, List, [], ◌∷◌, Option, none, some, leb, if◌then◌else◌, Result, ok, err, ◌>>=◌,
}
use sofmat.Base.Int.{ℤ, pos, ◌+ℤ◌, ◌-ℤ◌, leb_ℤ}
use sofmat.Base.Strings.{Str}
use sofmat.Gguf.{Failure}
use sofmat.Gguf.Int64.{signed, wrap}
use sofmat.Gguf.Header.{TensorRef, Header, parse_header}

pub record TensorInfo : Type 0 where
  pub name : Str
  pub offset : ℤ
  pub n_bytes : ℤ

pub data TableFailure : Type 0 where
  bad_header : Failure → TableFailure
  no_tensors no_stat : TableFailure
  non_monotonic : Str → TableFailure

abbrev pub insert_ref : TensorRef → List TensorRef → List TensorRef
insert_ref r [] = r ∷ []
insert_ref r (t ∷ ts) = if leb r.rel t.rel then r ∷ t ∷ ts else t ∷ insert_ref r ts

-- `sort.Slice` by the relative offset.
abbrev pub sort_refs : List TensorRef → List TensorRef
sort_refs [] = []
sort_refs (r ∷ rs) = insert_ref r (sort_refs rs)

-- `dataStart + int64(rel)`.
unfoldable pub start_of : ℤ → TensorRef → ℤ
start_of data_start t = wrap (data_start +ℤ signed (2 ^ 63) t.rel)

-- Where a tensor ends: at the next one, or at the end of the file.
unfoldable pub end_of : ℤ → ℤ → List TensorRef → ℤ
end_of data_start size [] = size
end_of data_start size (t ∷ ts) = start_of data_start t

-- The loop of `TensorTable` over the ordered tensors.
unfoldable pub table_of : ℤ → ℤ → List TensorRef → Result TableFailure (List TensorInfo)
table_of data_start size [] = ok []
table_of data_start size (t ∷ ts) =
    let rest = table_of data_start size ts in
    let first = start_of data_start t in
    let last = end_of data_start size ts in
    if leb_ℤ last first then err (non_monotonic t.name) else do
      infos ← rest
      ok (record { name = t.name; offset = first; n_bytes = wrap (last -ℤ first) } ∷ infos)

-- The part of `TensorTable` behind `parseHeader`.
unfoldable pub layout : Header → Option ℕ → Result TableFailure (List TensorInfo)
layout h stat = elim h.infos [
  | [] ↦ err no_tensors
  | t ∷ ts ↦ elim stat [
    | none ↦ err no_stat
    | some size ↦ table_of h.data_start (pos size) (sort_refs h.infos)
  ]
]

-- `TensorTable`.
unfoldable pub tensor_table : ℕ → Option ℕ → Str → Result TableFailure (List TensorInfo)
tensor_table max_alloc stat file = elim (parse_header max_alloc file) [
  | ok h ↦ layout h stat
  | err e ↦ err (bad_header e)
]
