-- ===== src/Gguf/Ends.antt =====
-- internal/gguf/gguf.go: `parseHeader` comes to an end on every file.
use sofmat.Base.{
  ℕ, zero, suc, ◌+◌, ◌*◌, ◌%◌, ◌^◌, ◌≢◌, subst, Bool, true, false, List, [], length, drop, leb,
  Result, ok, err, ◌>>=◌, ◌>>◌, guard, arith,
}
use sofmat.Base.Int.{ℤ, pos, negsuc}
use sofmat.Base.Strings.{Str, same}
use sofmat.Gguf.{
  Value, Failure, panicked, out_of_fuel, no_gguf, truncated_header, truncated_metadata,
  truncated_infos, unsupported, metadata, reported, read_full, read_uint, read_str,
}
use sofmat.Gguf.Header.{read_value, read_metadata, read_infos, align, parse_header, magic}
use sofmat.Gguf.Fuel.{
  Known, Takes, Takes-reported, read_full-Takes, read_uint-Takes, read_str-Takes, read_value-Takes,
}

-- A result other than that the fuel is used up.
abbrev pub Ends : {A : Type 0} → Result Failure A → Type 0
Ends (ok a) = Unit
Ends (err e) = Known e

Ends-Takes : {A : Type 0} (k : ℕ) (s : Str) (r : Result Failure (A × Str)) → Takes k s r → Ends r
Ends-Takes k s (ok (a, rest)) w = tt
Ends-Takes k s (err e) w = w

Ends-bind :
    {A B : Type 0} (m : Result Failure A) (f : A → Result Failure B)
    → Ends m
    → ((a : A) → Ends (f a))
    → Ends (m >>= f)
Ends-bind (ok a) f w g = g a
Ends-bind (err e) f w g = w

Ends-guard :
    {B : Type 0} (t : Bool) (e : Failure) (r : Result Failure B)
    → Known e
    → Ends r
    → Ends (guard t e >> r)
Ends-guard true e r h w = w
Ends-guard false e r h w = h

Ends-read_str :
    (max_alloc : ℕ) (f : Failure) (s : Str) → Known f → Ends (reported f (read_str max_alloc s))
Ends-read_str max_alloc f s h =
    Ends-Takes 8 s _ (Takes-reported 8 s f (read_str max_alloc s) h (read_str-Takes max_alloc s))

Ends-read_uint : (w : ℕ) (f : Failure) (s : Str) → Known f → Ends (reported f (read_uint w s))
Ends-read_uint w f s h =
    Ends-Takes w s _ (Takes-reported w s f (read_uint w s) h (read_uint-Takes w s))

Ends-read_full : (n : ℕ) (f : Failure) (s : Str) → Known f → Ends (reported f (read_full n s))
Ends-read_full n f s h =
    Ends-Takes n s _ (Takes-reported n s f (read_full n s) h (read_full-Takes n s))

Ends-value :
    (key s : Str) (r : Result Failure ((Value × ℕ) × Str))
    → Takes 1 s r
    → Ends {A = (Value × ℕ) × Str}
        (elim r [ ok v ↦ ok v | err e ↦ reported (metadata key e) (err e) ])
Ends-value key s (ok v) w = tt
Ends-value key s (err e) w = Ends-Takes 1 s _ (Takes-reported 1 s (metadata key e) (err e) tt w)

module _ (max_alloc : ℕ) where
  Ends-read_metadata :
      (n : ℕ) (meta : List (Str × Value)) (s : Str) → Ends (read_metadata max_alloc n meta s)
  unfolding read_metadata
  Ends-read_metadata zero meta s = tt
  Ends-read_metadata (suc n) meta s =
      Ends-bind _ _ (Ends-read_str max_alloc truncated_metadata s tt) (λ key.
        Ends-bind _ _ (Ends-read_uint 4 truncated_metadata key.1 tt) (λ t.
          Ends-bind _ _
            (Ends-value key.0 t.1 (read_value max_alloc (2 * length t.1 + 1) t.0 t.1)
              (read_value-Takes max_alloc (2 * length t.1 + 1) t.0 t.1 (omega arith)))
            (λ v. Ends-read_metadata n _ v.1)))

  Ends-read_infos : (n : ℕ) (s : Str) → Ends (read_infos max_alloc n s)
  unfolding read_infos
  Ends-read_infos zero s = tt
  Ends-read_infos (suc n) s = Ends-bind _ _ (Ends-read_str max_alloc truncated_infos s tt) (λ name.
      Ends-bind _ _ (Ends-read_uint 4 truncated_infos name.1 tt) (λ dims.
        Ends-bind _ _ (Ends-read_uint 8 truncated_infos (drop (8 * dims.0 % 2 ^ 32 + 4) dims.1) tt)
          (λ rel. Ends-bind _ _ (Ends-read_infos n rel.1) (λ rest. tt))))

  Ends-align : (at a : ℤ) → Ends (align at a)
  unfolding align
  Ends-align at (pos zero) = tt
  Ends-align at (pos (suc n)) = tt
  Ends-align at (negsuc n) = tt

  Ends-parse_header : (file : Str) → Ends (parse_header max_alloc file)
  unfolding parse_header
  Ends-parse_header file = Ends-bind _ _ (Ends-read_full 4 no_gguf file tt) (λ tag.
      Ends-guard (same tag.0 magic) no_gguf _ tt (
        Ends-bind _ _ (Ends-read_uint 4 truncated_header tag.1 tt) (λ version.
          Ends-guard (leb 2 version.0) (unsupported version.0) _ tt (
            Ends-bind _ _ (Ends-read_uint 8 truncated_header version.1 tt) (λ tensors.
              Ends-bind _ _ (Ends-read_uint 8 truncated_header tensors.1 tt) (λ kv.
                Ends-bind _ _ (Ends-read_metadata kv.0 [] kv.1) (λ meta.
                  Ends-guard (leb (24 * tensors.0) max_alloc) panicked _ tt (
                    Ends-bind _ _ (Ends-read_infos tensors.0 meta.1)
                      (λ infos. Ends-bind _ _ (Ends-align _ _) (λ start. tt))))))))))

-- Reading the header of a file comes to an end with a header, an error or a panic: the fuel that each
-- value gets, twice the bytes that are left and one, is never used up.
pub parse_header_ends : (max_alloc : ℕ) (file : Str) → parse_header max_alloc file ≢ err out_of_fuel
parse_header_ends max_alloc file h = subst Ends h (Ends-parse_header max_alloc file)
