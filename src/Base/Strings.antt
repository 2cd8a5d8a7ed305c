-- ===== src/Base/Strings.antt =====
-- Go strings as lists of bytes: equality, the order of `<=`, and `strings.TrimPrefix`.
use mathlib.Core.Bool.{Bool, true, false}
use mathlib.Core.List.{List, [], ◌∷◌}
use mathlib.Core.Logic.{ite}
use mathlib.Core.Path.{◌≡◌, refl}
use mathlib.Core.Option.{Option, none, some}
use native.Mathlib.Decide.{ℕ_discrete}
use Prim.Native.Nat.{ℕ}
use sofmat.Base.Tests.{ltb, ◌==◌, if◌then◌else◌}

abbrev pub Str : Type 0
Str = List ℕ

pub head_eq : {a b : ℕ} {s t : Str} → Path Str (a ∷ s) (b ∷ t) → a ≡ b
head_eq e = cc

pub tail_eq : {a b : ℕ} {s t : Str} → Path Str (a ∷ s) (b ∷ t) → s ≡ t
tail_eq e = cc

abbrev cons_decision :
    {a b : ℕ} {s t : Str} → Dec (a ≡ b) → Dec (s ≡ t) → Dec (Path Str (a ∷ s) (b ∷ t))
cons_decision (yes p) (yes q) = yes (λ i. p i ∷ q i)
cons_decision (yes p) (no n) = no (λ e. n (tail_eq e))
cons_decision (no n) q = no (λ e. n (head_eq e))

unfoldable pub str_discrete : Discrete Str
str_discrete [] [] = yes refl
str_discrete [] (b ∷ t) = no (λ e. cc)
str_discrete (a ∷ s) [] = no (λ e. cc)
str_discrete (a ∷ s) (b ∷ t) = cons_decision (ℕ_discrete a b) (str_discrete s t)

abbrev pub is_empty : Str → Bool
is_empty [] = true
is_empty (c ∷ cs) = false

-- `s == t`.
abbrev pub same : Str → Str → Bool
same s t = ite (str_discrete s t) true false

-- `s <= t`, byte by byte.
unfoldable pub str_le : Str → Str → Bool
str_le [] t = true
str_le (a ∷ s) [] = false
str_le (a ∷ s) (b ∷ t) = if ltb a b then true else if a == b then str_le s t else false

-- What stands after a prefix.
unfoldable pub after : Str → Str → Option Str
after [] s = some s
after (p ∷ ps) [] = none
after (p ∷ ps) (c ∷ cs) = let rest = after ps cs in if p == c then rest else none

unfoldable pub trim_prefix : Str → Str → Str
trim_prefix p s = elim (after p s) [ some rest ↦ rest | none ↦ s ]
