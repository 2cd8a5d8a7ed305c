-- ===== src/Gguf/Stored.antt =====
-- internal/gguf/gguf.go: what `ReadMetadata` says of a file that was written.
use sofmat.Base.{
  ℕ, ◌+◌, ◌^◌, ◌<◌, ◌≡◌, ◌∙◌, refl, subst, true, false, List, [], ◌∷◌, ◌++◌, Option, none, some,
  leb, if◌then◌else◌, ite, Bool-cases, inl, inr, ok, err, length,
}
use sofmat.Base.Assoc.{lookup, insert, lookup-insert, Distinct}
use sofmat.Base.Int.{pos}
use sofmat.Base.Strings.{Str, str_discrete}
use sofmat.Gguf.{Value, panicked}
use sofmat.Gguf.Header.{align, as_int, alignment_key, read_metadata_of}
use sofmat.Gguf.Print.{elide, size, store_all, Model, emit_model, FitsModel}
use sofmat.Gguf.Whole.{parse_header-emit_model}
use sofmat.Gguf.Align.{align_least}

-- What is kept of an entry: nothing of an array that is too long.
abbrev pub kept : Option Value → Option Value
kept none = none
kept (some v) = if leb (size v) 32 then some (elide v) else none

abbrev or_else : Option Value → Option Value → Option Value
or_else (some v) o = some v
or_else none o = o

module _ (k key : Str) (v : Value) (es meta : List (Str × Value))
    (fresh : lookup str_discrete k es ≡ none) where
  unseen : k ≡ key → lookup str_discrete key es ≡ none
  unseen e = subst (λ x. lookup str_discrete x es ≡ none) e fresh

  kept_large :
      leb (size v) 32 ≡ false
      → kept (lookup str_discrete key ((k, v) ∷ es)) ≡ kept (lookup str_discrete key es)
  unfolding lookup
  kept_large large = entry (str_discrete k key)
    where
      entry :
          (same : Dec (k ≡ key))
          → kept (ite same (some v) (lookup str_discrete key es))
            ≡ kept (lookup str_discrete key es)
      entry (yes e) = rw (large, unseen e)
      entry (no ne) = refl

  kept_small :
      leb (size v) 32 ≡ true
      → or_else (kept (lookup str_discrete key ((k, v) ∷ es))) (lookup str_discrete key meta)
        ≡ or_else
            (kept (lookup str_discrete key es))
            (lookup str_discrete key (insert str_discrete k (elide v) meta))
  unfolding lookup
  kept_small small =
      rw (lookup-insert str_discrete k key (elide v) meta) (entry (str_discrete k key))
    where
      entry :
          (same : Dec (k ≡ key))
          → or_else
              (kept (ite same (some v) (lookup str_discrete key es)))
              (lookup str_discrete key meta)
            ≡ or_else
                (kept (lookup str_discrete key es))
                (ite same (some (elide v)) (lookup str_discrete key meta))
      entry (yes e) = rw (small, unseen e)
      entry (no ne) = refl

lookup-store_all :
    (es meta : List (Str × Value)) (key : Str)
    → Distinct str_discrete es
    → lookup str_discrete key (store_all meta es)
      ≡ or_else (kept (lookup str_discrete key es)) (lookup str_discrete key meta)
unfolding store_all
lookup-store_all [] meta key d = unfold lookup in refl
lookup-store_all ((k, v) ∷ es) meta key (fresh, d) = elim (Bool-cases (leb (size v) 32)) [
  | inl small ↦
      rw (kept_small k key v es meta fresh small, small, store_all)
        (lookup-store_all es (insert str_discrete k (elide v) meta) key d)
  | inr large ↦
      rw (kept_large k key v es meta fresh large, large, store_all) (lookup-store_all es meta key d)
]

or_else-none : (o : Option Value) → or_else o none ≡ o
or_else-none none = refl
or_else-none (some v) = refl

lookup-store_all_nil :
    (es : List (Str × Value)) (key : Str)
    → Distinct str_discrete es
    → lookup str_discrete key (store_all [] es) ≡ kept (lookup str_discrete key es)
lookup-store_all_nil es key d =
    lookup-store_all es [] key d ∙ unfold lookup in or_else-none (kept (lookup str_discrete key es))

-- For a model that can be written, with no key twice and an alignment that is positive, `ReadMetadata` of
-- its file, whatever the tensors' data are, gives for each key what was written, but nothing for an array
-- of more than 32 values, and of an array within an array the first 32 values.
pub read_metadata_of-lookup :
    (max_alloc : ℕ) (m : Model) (tensor_data : Str) (alignment : ℕ)
    → FitsModel max_alloc m
    → Distinct str_discrete m.entries
    → as_int (kept (lookup str_discrete alignment_key m.entries)) (pos 32) ≡ pos alignment
    → 0 < alignment
    → length (emit_model m) + alignment < 2 ^ 63
    → (meta : List (Str × Value)) × (read_metadata_of max_alloc (emit_model m ++ tensor_data)
        ≡ ok meta)
      × ((key : Str) → lookup str_discrete key meta ≡ kept (lookup str_discrete key m.entries))
unfolding read_metadata_of
read_metadata_of-lookup max_alloc m tensor_data alignment fits d given positive small =
    let (start, aligned, _, _, _) = align_least (length (emit_model m)) alignment positive small in
    (
      store_all [] m.entries,
      rw
          (
            parse_header-emit_model max_alloc m tensor_data fits,
            lookup-store_all_nil m.entries alignment_key d,
            given,
            aligned,
          )
          refl,
      λ key. lookup-store_all_nil m.entries key d,
    )

-- For a model that can be written, with no key twice and an alignment of 0, `ReadMetadata` panics.
pub read_metadata_of_zero :
    (max_alloc : ℕ) (m : Model) (tensor_data : Str)
    → FitsModel max_alloc m
    → Distinct str_discrete m.entries
    → as_int (kept (lookup str_discrete alignment_key m.entries)) (pos 32) ≡ pos 0
    → read_metadata_of max_alloc (emit_model m ++ tensor_data) ≡ err panicked
unfolding read_metadata_of align
read_metadata_of_zero max_alloc m tensor_data fits d given =
    rw
      (
        parse_header-emit_model max_alloc m tensor_data fits,
        lookup-store_all_nil m.entries alignment_key d,
        given,
      )
      refl
