-- ===== src/Base/Assoc.antt =====
-- Go maps as association lists with distinct keys, over keys with a decidable equality.
use Prim.Native.Nat.{◌+◌}
use mathlib.Core.Path.{◌≡◌, refl}
use mathlib.Core.Logic.{◌≢◌, ite}
use mathlib.Core.List.{List, [], ◌∷◌, ◌++◌, map}
use mathlib.Core.Option.{Option, none, some}
use native.Mathlib.Omega.{arith}
use sofmat.Base.Lists.{length}

module _ {ℓ} {K V : Type ℓ} where
  abbrev pub keys : List (K × V) → List K
  keys = map (λ e. e.0)

module _ {ℓ} {K V : Type ℓ} (dec : Discrete K) where
  -- `m[k]`, with its `ok`.
  unfoldable pub lookup : K → List (K × V) → Option V
  lookup k [] = none
  lookup k ((j, v) ∷ m) = ite (dec j k) (some v) (lookup k m)

  -- `m[k] = v`.
  unfoldable pub insert : K → V → List (K × V) → List (K × V)
  insert k v [] = (k, v) ∷ []
  insert k v ((j, w) ∷ m) = ite (dec j k) ((k, v) ∷ m) ((j, w) ∷ insert k v m)

  -- `delete(m, k)`.
  unfoldable pub delete : K → List (K × V) → List (K × V)
  delete k [] = []
  delete k ((j, w) ∷ m) = ite (dec j k) m ((j, w) ∷ delete k m)

  -- No key stands twice.
  abbrev pub Distinct : List (K × V) → Type ℓ
  Distinct [] = Unit
  Distinct ((k, v) ∷ m) = (lookup k m ≡ none) × Distinct m

  pub lookup-cons_self : (k : K) (v : V) (m : List (K × V)) → lookup k ((k, v) ∷ m) ≡ some v
  unfolding lookup
  lookup-cons_self k v m = ground arith

  pub lookup-cons_ne :
      (j k : K) (v : V) (m : List (K × V)) → j ≢ k → lookup k ((j, v) ∷ m) ≡ lookup k m
  unfolding lookup
  lookup-cons_ne j k v m h = ground arith

  pub lookup-insert :
      (k j : K) (v : V) (m : List (K × V))
      → lookup j (insert k v m) ≡ ite (dec k j) (some v) (lookup j m)
  unfolding lookup insert
  lookup-insert k j v [] = refl
  lookup-insert k j v ((i, w) ∷ m) = ground (arith, lookup-insert k j v m)

  pub lookup-delete_ne : (k j : K) (m : List (K × V)) → k ≢ j → lookup j (delete k m) ≡ lookup j m
  unfolding lookup delete
  lookup-delete_ne k j [] h = refl
  lookup-delete_ne k j ((i, w) ∷ m) h = ground (arith, lookup-delete_ne k j m)

  pub lookup-delete_self : (k : K) (m : List (K × V)) → Distinct m → lookup k (delete k m) ≡ none
  unfolding lookup delete
  lookup-delete_self k [] d = refl
  lookup-delete_self k ((i, w) ∷ m) d = ground (arith, lookup-delete_self k m d.1)

  pub delete_absent : (k : K) (m : List (K × V)) → lookup k m ≡ none → delete k m ≡ m
  unfolding lookup delete
  delete_absent k [] h = refl
  delete_absent k ((i, w) ∷ m) h = ground (arith, delete_absent k m)

  pub length-insert_new :
      (k : K) (v : V) (m : List (K × V)) → lookup k m ≡ none → length (insert k v m) ≡ length m + 1
  unfolding lookup insert
  length-insert_new k v [] h = omega arith
  length-insert_new k v ((i, w) ∷ m) h = ground (arith, length-insert_new k v m)

  pub length-insert_old :
      (k : K) (v w : V) (m : List (K × V)) → lookup k m ≡ some w → length (insert k v m) ≡ length m
  unfolding lookup insert
  length-insert_old k v w [] h = cc
  length-insert_old k v w ((i, u) ∷ m) h = ground (arith, length-insert_old k v w m)

  pub length-delete :
      (k : K) (w : V) (m : List (K × V)) → lookup k m ≡ some w → length (delete k m) + 1 ≡ length m
  unfolding lookup delete
  length-delete k w [] h = cc
  length-delete k w ((i, u) ∷ m) h = ground (arith, length-delete k w m)

  pub insert-Distinct : (k : K) (v : V) (m : List (K × V)) → Distinct m → Distinct (insert k v m)
  unfolding lookup insert
  insert-Distinct k v [] d = (refl, tt)
  insert-Distinct k v ((i, w) ∷ m) d =
      ground (arith, insert-Distinct k v m d.1, lookup-insert k i v m)

  pub delete-Distinct : (k : K) (m : List (K × V)) → Distinct m → Distinct (delete k m)
  unfolding lookup delete
  delete-Distinct k [] d = tt
  delete-Distinct k ((i, w) ∷ m) d = ground (arith, delete-Distinct k m d.1, lookup-delete_ne k i m)

  pub lookup-append_last :
      (k j : K) (v : V) (m : List (K × V))
      → lookup k m ≡ none
      → lookup j (m ++ (k, v) ∷ []) ≡ ite (dec k j) (some v) (lookup j m)
  unfolding lookup
  lookup-append_last k j v [] h = refl
  lookup-append_last k j v ((i, w) ∷ m) h = ground (arith, lookup-append_last k j v m)

  pub append_last-Distinct :
      (k : K) (v : V) (m : List (K × V))
      → lookup k m ≡ none
      → Distinct m
      → Distinct (m ++ (k, v) ∷ [])
  unfolding lookup
  append_last-Distinct k v [] h d = (refl, tt)
  append_last-Distinct k v ((i, w) ∷ m) h d =
      ground (arith, append_last-Distinct k v m, lookup-append_last k i v m)
