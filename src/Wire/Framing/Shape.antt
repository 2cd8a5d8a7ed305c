-- ===== src/Wire/Framing/Shape.antt =====
-- The shape of an activation: what `validateShape` and `ExpectedBytes` accept, and how the
-- dimensions are written and read.
use sofmat.Base.{
  ℕ, ◌+◌, ◌*◌, ◌≤◌, ◌≡◌, refl, sym, ap, ◌∙◌, List, [], ◌∷◌, ◌++◌, arith, length, length-append,
  take, drop, drop-drop, All, ok,
}
use sofmat.Wire.Bytes.{put_be, from_be, uint_at, from_be-put_be, length-put_be}
use sofmat.Wire.Framing.{validate_dims, validate_shape, put_shape, read_shape, max_dim, max_ndim}

-- A dimension that `validateShape` accepts.
abbrev pub IsDim : ℕ → Type 0
IsDim d = d ≤ max_dim

validate_dims-ok : (ds : List ℕ) → validate_dims ds ≡ ok tt → All IsDim ds
unfolding validate_dims
validate_dims-ok [] h = tt
validate_dims-ok (d ∷ ds) h = ground (arith, validate_dims-ok ds)

ok-validate_dims : (ds : List ℕ) → All IsDim ds → validate_dims ds ≡ ok tt
unfolding validate_dims
ok-validate_dims [] h = refl
ok-validate_dims (d ∷ ds) h = ground (arith, ok-validate_dims ds)

pub validate_shape-ok :
    (s : List ℕ) → validate_shape s ≡ ok tt → (length s ≤ max_ndim) × All IsDim s
unfolding validate_shape
validate_shape-ok s h = ground (arith, validate_dims-ok s)

pub ok-validate_shape : (s : List ℕ) → length s ≤ max_ndim → All IsDim s → validate_shape s ≡ ok tt
unfolding validate_shape
ok-validate_shape s h k = ground (arith, ok-validate_dims s k)

pub length-put_shape : (s : List ℕ) → length (put_shape s) ≡ 4 * length s
unfolding put_shape
length-put_shape [] = omega arith
length-put_shape (d ∷ ds) =
    omega (arith, length-append (put_be 4 d) (put_shape ds), length-put_be 4 d, length-put_shape ds)

-- The dimensions are read back from where they were written.
pub read_shape-put_shape :
    (s : List ℕ) (off : ℕ) (buf post : List ℕ)
    → All IsDim s
    → drop off buf ≡ put_shape s ++ post
    → read_shape (length s) off buf ≡ s
unfolding put_shape read_shape put_be
read_shape-put_shape [] off buf post h e = refl
read_shape-put_shape (d ∷ ds) off buf post h e =
    rw (here, read_shape-put_shape ds (off + 4) buf post h.1 later) refl
  where
    later : drop (off + 4) buf ≡ put_shape ds ++ post
    later = sym (drop-drop off 4 buf) ∙ ap (drop 4) e

    here : uint_at 4 off buf ≡ d
    here = ap (λ l. from_be (take 4 l)) e ∙ from_be-put_be 4 d (omega arith)
