-- ===== src/Gguf/Layout.antt =====
-- internal/gguf/gguf.go: what `TensorTable` gives for the tensors of a header, in whichever order.
use mathlib.Core.List.{Perm}
use mathlib.Core.List.Perm
use sofmat.Base.{
  ℕ, ◌+◌, ◌^◌, ◌<◌, ◌≡◌, ◌≢◌, List, [], ◌∷◌, All, map, some, leb, ok, arith, Bool-cases, inl, inr,
}
use sofmat.Base.Int.{pos}
use sofmat.Base.Strings.{Str}
use sofmat.Gguf.{Value}
use sofmat.Gguf.Header.{TensorRef}
use sofmat.Gguf.Tensors.{TensorInfo, insert_ref, sort_refs, layout}
use sofmat.Gguf.Tiles.{
  Tiles, InRange, first_of, placed, place_of, table_of-ok, table_of-Rising, Rising, described,
}

Perm-insert_ref : (r : TensorRef) (ts : List TensorRef) → Perm (insert_ref r ts) (r ∷ ts)
Perm-insert_ref r [] = Perm.rfl
Perm-insert_ref r (t ∷ ts) = elim (Bool-cases (leb r.rel t.rel)) [
  | inl first ↦ rw first Perm.rfl
  | inr later ↦ rw later (Perm.trans (Perm.cons t (Perm-insert_ref r ts)) (Perm.swap r t ts))
]

Perm-sort_refs : (rs : List TensorRef) → Perm (sort_refs rs) rs
Perm-sort_refs [] = Perm.rfl
Perm-sort_refs (r ∷ rs) =
    Perm.trans (Perm-insert_ref r (sort_refs rs)) (Perm.cons r (Perm-sort_refs rs))

module _ (P : TensorRef → Type 0) where
  All-insert_ref : (r : TensorRef) (ts : List TensorRef) → P r → All P ts → All P (insert_ref r ts)
  All-insert_ref r [] h hs = (h, tt)
  All-insert_ref r (t ∷ ts) h (k, ks) = elim (Bool-cases (leb r.rel t.rel)) [
    | inl first ↦ rw first (h, (k, ks))
    | inr later ↦ rw later (k, All-insert_ref r ts h ks)
  ]

  All-sort_refs : (rs : List TensorRef) → All P rs → All P (sort_refs rs)
  All-sort_refs [] h = tt
  All-sort_refs (r ∷ rs) (h, hs) = All-insert_ref r (sort_refs rs) h (All-sort_refs rs hs)

-- In a strict order.
abbrev Strict : List TensorRef → Type 0
Strict [] = Unit
Strict (t ∷ ts) = All (λ u. t.rel < u.rel) ts × Strict ts

-- No two tensors start at one offset.
abbrev pub Apart : List TensorRef → Type 0
Apart [] = Unit
Apart (t ∷ ts) = All (λ u. t.rel ≢ u.rel) ts × Apart ts

All-trans :
    (r t : TensorRef) (ts : List TensorRef)
    → r.rel < t.rel
    → All (λ u. t.rel < u.rel) ts
    → All (λ u. r.rel < u.rel) ts
All-trans r t [] h hs = tt
All-trans r t (u ∷ us) h (k, ks) = (omega (arith, h, k), All-trans r t us h ks)

insert_ref-Strict :
    (r : TensorRef) (ts : List TensorRef)
    → All (λ u. r.rel ≢ u.rel) ts
    → Strict ts
    → Strict (insert_ref r ts)
insert_ref-Strict r [] h s = (tt, tt)
insert_ref-Strict r (t ∷ ts) (h, hs) (low, s) = elim (Bool-cases (leb r.rel t.rel)) [
  | inl first ↦
      let less : r.rel < t.rel = ground (arith, first, h) in
      rw first ((less, All-trans r t ts less low), (low, s))
  | inr later ↦ rw later (
    All-insert_ref (λ u. t.rel < u.rel) r ts (ground (arith, later)) low,
    insert_ref-Strict r ts hs s,
  )
]

sort_refs-Strict : (rs : List TensorRef) → Apart rs → Strict (sort_refs rs)
sort_refs-Strict [] h = tt
sort_refs-Strict (r ∷ rs) (h, hs) =
    insert_ref-Strict r (sort_refs rs) (All-sort_refs (λ u. r.rel ≢ u.rel) rs h)
      (sort_refs-Strict rs hs)

Rising-Strict :
    (d size : ℕ) (ts : List TensorRef)
    → All (λ t. d + t.rel < size) ts
    → Strict ts
    → Rising d size ts
Rising-Strict d size [] h s = tt
Rising-Strict d size (t ∷ []) (h, hs) s = (h, tt)
Rising-Strict d size (t ∷ u ∷ us) (h, hs) ((low, _), s) =
    (omega (arith, low), Rising-Strict d size (u ∷ us) hs s)

module _ (d size : ℕ) (size_range : size < 2 ^ 63) (meta : List (Str × Value)) where
  -- A table that is given, where the starts are int64s, has just the tensors of the header, each at its
  -- offset behind the start of the data; their ranges are not empty, and together they are the file
  -- from the first one's start to its end.
  pub layout-Tiles :
      (infos : List TensorRef) (table : List TensorInfo)
      → InRange d infos
      → layout (record { meta = meta; infos = infos; data_start = pos d }) (some size) ≡ ok table
      → (first : ℕ) × Tiles table first size × Perm (map place_of table) (map (placed d) infos)
  unfolding layout
  layout-Tiles [] table range h = cc
  layout-Tiles (t ∷ ts) table range h =
      let rs = sort_refs (t ∷ ts) in
      let (tiles, places) =
        table_of-ok d size size_range rs table (All-sort_refs _ (t ∷ ts) range) h in
      (first_of d size rs, tiles, rw places (Perm.map (placed d) (Perm-sort_refs (t ∷ ts))))

  -- When no two tensors start at one offset, and all start before the end of the file, there is a table.
  pub layout_given :
      (t : TensorRef) (ts : List TensorRef)
      → Apart (t ∷ ts)
      → All (λ u. d + u.rel < size) (t ∷ ts)
      → (table : List TensorInfo) × (layout
            (record { meta = meta; infos = t ∷ ts; data_start = pos d })
            (some size)
          ≡ ok table)
  unfolding layout
  layout_given t ts apart inside =
      let rs = sort_refs (t ∷ ts) in
      let sorted = All-sort_refs _ (t ∷ ts) inside in
      (
        described d size rs,
        table_of-Rising d size size_range rs (All-imp rs sorted)
            (Rising-Strict d size rs sorted (sort_refs-Strict (t ∷ ts) apart)),
      )
    where
      All-imp : (us : List TensorRef) → All (λ u. d + u.rel < size) us → InRange d us
      All-imp [] h = tt
      All-imp (u ∷ us) (h, hs) = (omega (arith, h, size_range), All-imp us hs)
