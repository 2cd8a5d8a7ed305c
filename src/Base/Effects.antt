-- ===== src/Base/Effects.antt =====
-- Stateful code that may fail: a step takes the state, and gives its result beside the state behind
-- it, also on an error.
use mathlib.Core.Path.{◌≡◌, refl}
use sofmat.Base.Results.{Result, ok, err}

abbrev pub Act : Type 0 → Type 0 → Type 0 → Type 0
Act E S A = S → Result E A × S

abbrev pub bind_result : {E S A B : Type 0} → Result E A × S → (A → Act E S B) → Result E B × S
bind_result (ok a, s) f = f a s
bind_result (err e, s) f = (err e, s)

infixl 5 ◌>>=◌ ◌>>◌
abbrev pub ◌>>=◌ : {E S A B : Type 0} → Act E S A → (A → Act E S B) → Act E S B
◌>>=◌ m f s = bind_result (m s) f

abbrev pub ◌>>◌ : {E S B : Type 0} → Act E S (Unit {0}) → Act E S B → Act E S B
m >> k = m >>= λ _. k

abbrev pub return : {E S A : Type 0} → A → Act E S A
return a s = (ok a, s)

abbrev pub fail : {E S A : Type 0} → E → Act E S A
fail e s = (err e, s)

-- A result that leaves the state, under the error type of the step.
abbrev pub of_result : {D E S A : Type 0} → (D → E) → Result D A → Act E S A
of_result f (ok a) s = (ok a, s)
of_result f (err d) s = (err (f d), s)

-- The same for a step.
abbrev pub map_error : {D E A S : Type 0} → (D → E) → Result D A × S → Result E A × S
map_error f (ok a, s) = (ok a, s)
map_error f (err d, s) = (err (f d), s)

-- Inversion of a bind that succeeds.
pub >>=-eq-ok :
    {E S A B : Type 0} (m : Act E S A) (f : A → Act E S B) (s s' : S) {b : B}
    → (m >>= f) s ≡ (ok b, s')
    → (a : A) × (u : S) × (m s ≡ (ok a, u)) × (f a u ≡ (ok b, s'))
>>=-eq-ok {E} {S} {A} m f s s' {b} e = split (m s) refl
  where
    split :
        (r : Result E A × S)
        → m s ≡ r
        → (a : A) × (u : S) × (m s ≡ (ok a, u)) × (f a u ≡ (ok b, s'))
    split (ok a, u) h = (a, u, h, rw h at e)
    split (err x, u) h = cc (rw h at e)

pub of_result-eq-ok :
    {D E S A B : Type 0} (g : D → E) (r : Result D A) (f : A → Act E S B) (s s' : S) {b : B}
    → (of_result g r >>= f) s ≡ (ok b, s')
    → (a : A) × (r ≡ ok a) × (f a s ≡ (ok b, s'))
of_result-eq-ok g (ok a) f s s' e = (a, refl, e)
of_result-eq-ok g (err x) f s s' e = cc

pub map_error-eq-ok :
    {D E A S : Type 0} (f : D → E) (r : Result D A × S) {a : A} {s : S}
    → map_error f r ≡ (ok a, s)
    → r ≡ (ok a, s)
map_error-eq-ok f (ok b, u) e = cc
map_error-eq-ok f (err d, u) e = cc

pub ok-injective :
    {E S A : Type 0} (a b : A) (s t : S) → ◌≡◌ {A = Result E A × S} (ok a, s) (ok b, t) → a ≡ b
ok-injective a b s t e = cc
