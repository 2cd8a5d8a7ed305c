-- ===== src/Gguf/Whole.antt =====
-- internal/gguf/gguf.go: the header of a file that was written is read back, whatever follows it.
use sofmat.Base.{
  ℕ, ◌+◌, ◌-◌, ◌*◌, ◌%◌, ◌^◌, ◌<◌, ◌≡◌, refl, subst, true, List, [], ◌∷◌, ◌++◌, ℕ_discrete, length,
  map, All, drop, drop-append, length-append, append_assoc, ok, ◌>>=◌, arith,
}
use sofmat.Base.Assoc.{lookup}
use sofmat.Base.Int.{pos}
use sofmat.Base.Strings.{Str, str_discrete, same}
use sofmat.Gguf.{Value}
use sofmat.Gguf.Bytes.{put_le, length-put_le}
use sofmat.Gguf.Header.{
  read_metadata, read_infos, align, as_int, parse_header, alignment_key, magic,
}
use sofmat.Gguf.Print.{
  tag, emit, emit_entries, store_all, Tensor, emit_dims, emit_tensors, Model, emit_model, FitsEntry,
  FitsTensor, FitsModel,
}
use sofmat.Gguf.RoundTrip.{
  Reads, read_full-Reads, read_uint-Reads, read_str-Reads, read_value-ReadsValue, le→leb, tag_bound,
}

length-emit_dims : (ds : List ℕ) → length (emit_dims ds) ≡ 8 * length ds
unfolding emit_dims
length-emit_dims [] = refl
length-emit_dims (d ∷ ds) =
    omega (arith, length-append (put_le 8 d) (emit_dims ds), length-put_le 8 d, length-emit_dims ds)

-- The dimensions and the type are skipped.
drop-dims :
    (t : Tensor) (rest : Str)
    → length t.dims < 2 ^ 29
    → drop (8 * length t.dims % 2 ^ 32 + 4) ((emit_dims t.dims ++ put_le 4 t.kind) ++ rest) ≡ rest
drop-dims t rest h = subst (λ n. drop n (skipped ++ rest) ≡ rest) bytes (drop-append skipped rest)
  where
    skipped : Str
    skipped = emit_dims t.dims ++ put_le 4 t.kind

    bytes : length skipped ≡ 8 * length t.dims % 2 ^ 32 + 4
    bytes = omega (
      arith,
      h,
      length-append (emit_dims t.dims) (put_le 4 t.kind),
      length-emit_dims t.dims,
      length-put_le 4 t.kind,
    )

length-before : (xs ys : Str) → length (xs ++ ys) - length ys ≡ length xs
length-before xs ys = omega (arith, length-append xs ys)

is_magic : same magic magic ≡ true
unfolding str_discrete ℕ_discrete
is_magic = refl

module _ (max_alloc : ℕ) where
  read_metadata-Reads :
      (es meta : List (Str × Value))
      → All (FitsEntry max_alloc) es
      → Reads (read_metadata max_alloc (length es) meta) (emit_entries es) (store_all meta es)
  unfolding read_metadata emit_entries store_all
  read_metadata-Reads [] meta fit rest = refl
  read_metadata-Reads ((key, v) ∷ es) meta fit rest =
      let more = emit_entries es ++ rest in
      rw
        (
          append_assoc,
          read_str-Reads max_alloc key fit.0.0.0 fit.0.0.1
              ((put_le 4 (tag v) ++ (emit v ++ emit_entries es)) ++ rest),
          append_assoc,
          read_uint-Reads 4 (tag v) (tag_bound v) ((emit v ++ emit_entries es) ++ rest),
          append_assoc,
          read_value-ReadsValue max_alloc v more fit.0.1 (2 * length (emit v ++ more) + 1)
              (omega (arith, length-append (emit v) more)),
        )
        (read_metadata-Reads es _ fit.1 rest)

  read_infos-Reads :
      (ts : List Tensor)
      → All (FitsTensor max_alloc) ts
      → Reads (read_infos max_alloc (length ts)) (emit_tensors ts) (map (λ t. t.ref) ts)
  unfolding read_infos emit_tensors
  read_infos-Reads [] fit rest = refl
  read_infos-Reads (t ∷ ts) fit rest =
      let more = emit_tensors ts ++ rest in
      let skipped = emit_dims t.dims ++ put_le 4 t.kind in
      rw
        (
          append_assoc,
          read_str-Reads max_alloc t.ref.name fit.0.0.0 fit.0.0.1 (
              (put_le 4 (length t.dims) ++ (skipped ++ (put_le 8 t.ref.rel ++ emit_tensors ts)))
              ++ rest),
          append_assoc,
          read_uint-Reads 4 (length t.dims) (omega (arith, fit.0.1))
              ((skipped ++ (put_le 8 t.ref.rel ++ emit_tensors ts)) ++ rest),
          append_assoc,
          drop-dims t ((put_le 8 t.ref.rel ++ emit_tensors ts) ++ rest) fit.0.1,
          append_assoc,
          read_uint-Reads 8 t.ref.rel fit.0.2 more,
          read_infos-Reads ts fit.1 rest,
        )
        refl

  pub parse_header-emit_model :
      (m : Model) (tensor_data : Str)
      → FitsModel max_alloc m
      → parse_header max_alloc (emit_model m ++ tensor_data) ≡ (do
        start ←
            align
              (pos (length (emit_model m)))
              (as_int (lookup str_discrete alignment_key (store_all [] m.entries)) (pos 32))
        ok (record {
          meta = store_all [] m.entries;
          infos = map (λ t. t.ref) m.tensors;
          data_start = start;
        }))
  unfolding parse_header emit_model
  parse_header-emit_model m tensor_data (h2, h4, hn, ha, hk, he, ht) =
      let a4 = emit_tensors m.tensors in
      let a3 = emit_entries m.entries ++ a4 in
      let a2 = put_le 8 (length m.entries) ++ a3 in
      let a1 = put_le 8 (length m.tensors) ++ a2 in
      rw
        (
          ← length-before (emit_model m) tensor_data,
          read_full-Reads magic ((put_le 4 m.version ++ a1) ++ tensor_data),
          append_assoc,
          read_uint-Reads 4 m.version h4 (a1 ++ tensor_data),
          le→leb h2,
          append_assoc,
          read_uint-Reads 8 (length m.tensors) hn (a2 ++ tensor_data),
          append_assoc,
          read_uint-Reads 8 (length m.entries) hk (a3 ++ tensor_data),
          append_assoc,
          read_metadata-Reads m.entries [] he (a4 ++ tensor_data),
          le→leb ha,
          read_infos-Reads m.tensors ht tensor_data,
          is_magic,
        )
        refl
