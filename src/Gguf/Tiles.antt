-- ===== src/Gguf/Tiles.antt =====
-- internal/gguf/gguf.go: the tensors of a table lie one behind the other up to the end of the file.
use native.Mathlib.Nat.{add-zero}
use sofmat.Base.{
  ℕ, ◌+◌, ◌-◌, ◌^◌, ◌<◌, ◌≡◌, refl, ap, subst, sym, ◌∙◌, false, List, [], ◌∷◌, All, map, leb,
  if◌then◌else◌, Result, ok, err, ◌>>=◌, arith, Bool-cases, inl, inr,
}
use sofmat.Base.Int.{ℤ, pos}
use sofmat.Base.Strings.{Str}
use sofmat.Gguf.Align.{signed_small, wrap_small, add_pos, sub_pos}
use sofmat.Gguf.Header.{TensorRef}
use sofmat.Gguf.Tensors.{TensorInfo, TableFailure, non_monotonic, start_of, end_of, table_of}

-- The byte ranges, in their order, fill a part of the file, and none is empty.
abbrev pub Tiles : List TensorInfo → ℕ → ℕ → Type 0
Tiles [] from to = from ≡ to
Tiles (t ∷ ts) from to =
    (n : ℕ) × (t.offset ≡ pos from) × (t.n_bytes ≡ pos n) × (0 < n) × Tiles ts (from + n) to

-- The offsets are int64s.
abbrev pub InRange : ℕ → List TensorRef → Type 0
InRange d ts = All (λ t. d + t.rel < 2 ^ 63) ts

-- Where the first of some tensors starts, or the end of the file.
abbrev pub first_of : ℕ → ℕ → List TensorRef → ℕ
first_of d size [] = size
first_of d size (t ∷ ts) = d + t.rel

start_of_pos : (d : ℕ) (t : TensorRef) → d + t.rel < 2 ^ 63 → start_of (pos d) t ≡ pos (d + t.rel)
unfolding start_of
start_of_pos d t h =
    rw (signed_small (2 ^ 63) t.rel (omega (arith, h)), add_pos d t.rel, wrap_small (d + t.rel) h)
      refl

end_of_pos :
    (d size : ℕ) (ts : List TensorRef)
    → InRange d ts
    → end_of (pos d) (pos size) ts ≡ pos (first_of d size ts)
unfolding end_of
end_of_pos d size [] h = refl
end_of_pos d size (t ∷ ts) h = start_of_pos d t h.0

first_bound :
    (d size : ℕ) (ts : List TensorRef) → size < 2 ^ 63 → InRange d ts → first_of d size ts < 2 ^ 63
first_bound d size [] hs h = hs
first_bound d size (t ∷ ts) hs h = h.0

abbrev info : Str → ℕ → ℕ → TensorInfo
info name from to = record { name = name; offset = pos from; n_bytes = pos (to - from) }

-- One round of the loop.
table_of-cons :
    (d size : ℕ) (t : TensorRef) (ts : List TensorRef)
    → size < 2 ^ 63
    → InRange d (t ∷ ts)
    → table_of (pos d) (pos size) (t ∷ ts) ≡ (
        if leb (first_of d size ts) (d + t.rel) then err (non_monotonic t.name) else do
          infos ← table_of (pos d) (pos size) ts
          ok (info t.name (d + t.rel) (first_of d size ts) ∷ infos))
unfolding table_of
table_of-cons d size t ts hs h =
    let z = first_of d size ts in
    rw (start_of_pos d t h.0, end_of_pos d size ts h.1, add-zero, add-zero)
      (elim (Bool-cases (leb z (d + t.rel))) [
        | inl late ↦ rw late refl
        | inr early ↦
            rw
              (
                early,
                sub_pos z (d + t.rel) (ground (arith, early)),
                wrap_small (z - (d + t.rel)) (omega (arith, first_bound d size ts hs h.1)),
              )
              refl
      ])

-- Every tensor ends behind its start.
abbrev pub Rising : ℕ → ℕ → List TensorRef → Type 0
Rising d size [] = Unit
Rising d size (t ∷ ts) = (d + t.rel < first_of d size ts) × Rising d size ts

abbrev pub described : ℕ → ℕ → List TensorRef → List TensorInfo
described d size [] = []
described d size (t ∷ ts) = info t.name (d + t.rel) (first_of d size ts) ∷ described d size ts

described-Tiles :
    (d size : ℕ) (ts : List TensorRef)
    → Rising d size ts
    → Tiles (described d size ts) (first_of d size ts) size
described-Tiles d size [] h = refl
described-Tiles d size (t ∷ ts) h =
    let z = first_of d size ts in
    let whole : z ≡ d + t.rel + (z - (d + t.rel)) = omega (arith, h.0) in
    (
      z - (d + t.rel),
      refl,
      refl,
      omega (arith, h.0),
      subst (λ n. Tiles (described d size ts) n size) whole (described-Tiles d size ts h.1),
    )

-- What is said of a tensor, apart from its length.
abbrev pub placed : ℕ → TensorRef → Str × ℤ
placed d t = (t.name, pos (d + t.rel))

abbrev pub place_of : TensorInfo → Str × ℤ
place_of i = (i.name, i.offset)

described-places :
    (d size : ℕ) (ts : List TensorRef) → map place_of (described d size ts) ≡ map (placed d) ts
described-places d size [] = refl
described-places d size (t ∷ ts) = ap (◌∷◌ (placed d t)) (described-places d size ts)

rising_round :
    {A : Type 0} (a b : ℕ) (e : TableFailure) (r : Result TableFailure A) (next : A → A) (x : A)
    → (if leb a b then err e else do y ← r; ok (next y)) ≡ ok x
    → (b < a) × (y : A) × (r ≡ ok y)
rising_round a b e (err f) next x h = ground (arith, h)
rising_round a b e (ok y) next x h = (ground (arith, h), y, refl)

ok_same : {E A : Type 0} {x y : A} → ◌≡◌ {A = Result E A} (ok x) (ok y) → x ≡ y
ok_same h = cc

module _ (d size : ℕ) (size_range : size < 2 ^ 63) where
  pub table_of-Rising :
      (ts : List TensorRef)
      → InRange d ts
      → Rising d size ts
      → table_of (pos d) (pos size) ts ≡ ok (described d size ts)
  table_of-Rising [] range h = unfold table_of in refl
  table_of-Rising (t ∷ ts) range h =
      rw
        (
          table_of-cons d size t ts size_range range,
          later (first_of d size ts) (d + t.rel) h.0,
          table_of-Rising ts range.1 h.1,
        )
        refl
    where
      later : (a b : ℕ) → b < a → leb a b ≡ false
      later a b h = ground (arith, h)

  Rising-table_of :
      (ts : List TensorRef) (table : List TensorInfo)
      → InRange d ts
      → table_of (pos d) (pos size) ts ≡ ok table
      → Rising d size ts
  Rising-table_of [] table range h = tt
  Rising-table_of (t ∷ ts) table range h =
      let (rise, rest, done) =
        rising_round (first_of d size ts) (d + t.rel) _ (table_of (pos d) (pos size) ts) _ table
          (rw (table_of-cons d size t ts size_range range) at h) in
      (rise, Rising-table_of ts rest range.1 done)

  -- What the table of some tensors is.
  pub table_of-ok :
      (ts : List TensorRef) (table : List TensorInfo)
      → InRange d ts
      → table_of (pos d) (pos size) ts ≡ ok table
      → Tiles table (first_of d size ts) size × (map place_of table ≡ map (placed d) ts)
  table_of-ok ts table range h =
      let rise = Rising-table_of ts table range h in
      let same : described d size ts ≡ table = ok_same (sym (table_of-Rising ts range rise) ∙ h) in
      subst (λ x. Tiles x (first_of d size ts) size × (map place_of x ≡ map (placed d) ts)) same
        (described-Tiles d size ts rise, described-places d size ts)
