-- ===== src/Gguf/Given.antt =====
-- internal/gguf/gguf.go: when `ModelSpec` gives a spec.
use sofmat.Base.{
  ◌≡◌, refl, Bool, true, false, not, List, Option, none, some, Bool-cases, inl, inr, ◌⊎◌, ◌↔◌,
  if◌then◌else◌, Result, ok, err, ◌>>=◌, ◌>>◌, guard, arith,
}
use sofmat.Base.Assoc.{lookup}
use sofmat.Base.Int.{ℤ}
use sofmat.Base.Strings.{Str, str_discrete, is_empty}
use sofmat.Partitioner.{Floats}
use sofmat.Gguf.{Value}
use sofmat.Gguf.Int64.{wrap, quot}
use sofmat.Gguf.Spec.{
  Files, SpecFailure, required, missing, get, head_dim, derived_head, kv_heads, weights_bytes,
  spec_of, is_zero_int, text_of, no_head_dim, no_architecture, architecture, block_count,
  key_length, embedding_length, head_count, head_count_kv,
}

abbrev pub Known : Option ℤ → Type 0
Known o = (n : ℤ) × (o ≡ some n)

abbrev pub KnownNonzero : Option ℤ → Type 0
KnownNonzero o = (n : ℤ) × (o ≡ some n) × (is_zero_int n ≡ false)

abbrev pub Gives : {A : Type 0} → Result SpecFailure A → Type 0
Gives {A} r = (a : A) × (r ≡ ok a)

head_given :
    (o e h : Option ℤ)
    → (Known o ⊎ (Known e × KnownNonzero h))
      ↔ Gives (elim o [
        | some n ↦ ok n
        | none ↦ elim e [
          | none ↦ err no_head_dim
          | some embed ↦ elim h [
            | none ↦ err no_head_dim
            | some heads ↦
                if is_zero_int heads then err no_head_dim else ok (wrap (quot embed heads))
          ]
        ]
      ])
head_given (some n) e h = (λ w. (n, refl), λ g. inl (n, refl))
head_given none none h = (λ w. ground (arith, w), λ g. ground (arith, g))
head_given none (some m) none = (λ w. ground (arith, w), λ g. ground (arith, g))
head_given none (some m) (some n) = elim (Bool-cases (is_zero_int n)) [
  | inl is ↦ rw is (λ w. ground (arith, w), λ g. ground (arith, g))
  | inr isnt ↦ rw isnt (λ w. (wrap (quot m n), refl), λ g. inr ((m, refl), (n, refl, isnt)))
]

kv_given :
    (o h : Option ℤ)
    → (KnownNonzero o ⊎ Known h)
      ↔ Gives (elim o [
        | none ↦ required (missing head_count) h
        | some n ↦ if is_zero_int n then required (missing head_count) h else ok n
      ])
kv_given none none = (λ w. ground (arith, w), λ g. ground (arith, g))
kv_given none (some m) = (λ w. (m, refl), λ g. inr (m, refl))
kv_given (some n) none = elim (Bool-cases (is_zero_int n)) [
  | inl is ↦ rw is (λ w. ground (arith, w), λ g. ground (arith, g))
  | inr isnt ↦ rw isnt (λ w. (n, refl), λ g. inl (n, refl, isnt))
]
kv_given (some n) (some m) = elim (Bool-cases (is_zero_int n)) [
  | inl is ↦ rw is (λ w. (m, refl), λ g. inr (m, refl))
  | inr isnt ↦ rw isnt (λ w. (n, refl), λ g. inr (m, refl))
]

required_given : (e : SpecFailure) (o : Option ℤ) → Known o ↔ Gives (required e o)
required_given e none = (λ w. ground (arith, w), λ g. ground (arith, g))
required_given e (some n) = (λ w. (n, refl), λ g. (n, refl))

module _ (meta : List (Str × Value)) (arch : Str) where
  -- The length of a head is written, or follows from two other numbers.
  abbrev pub HasHead : Type 0
  HasHead =
      Known (get meta arch key_length)
      ⊎ (Known (get meta arch embedding_length) × KnownNonzero (get meta arch head_count))

  abbrev pub HasKvHeads : Type 0
  HasKvHeads = KnownNonzero (get meta arch head_count_kv) ⊎ Known (get meta arch head_count)

  HasHead_given : HasHead ↔ Gives (head_dim meta arch)
  unfolding head_dim derived_head
  HasHead_given =
      head_given (get meta arch key_length) (get meta arch embedding_length)
        (get meta arch head_count)

  HasKvHeads_given : HasKvHeads ↔ Gives (kv_heads meta arch)
  unfolding kv_heads
  HasKvHeads_given = kv_given (get meta arch head_count_kv) (get meta arch head_count)

-- A chain of the five results of `ModelSpec`.
chain_given :
    {S : Type 0} (empty : Bool) (l d h w : Result SpecFailure ℤ) (next : ℤ → ℤ → ℤ → ℤ → S)
    → ((empty ≡ false) × Gives l × Gives d × Gives h × Gives w)
      ↔ Gives (do
        guard (not empty) no_architecture
        layers ← l
        dim ← d
        heads ← h
        bytes ← w
        ok (next layers dim heads bytes))
chain_given true l d h w next = (λ g. ground (arith, g), λ g. ground (arith, g))
chain_given false (err e) d h w next = (λ g. ground (arith, g), λ g. ground (arith, g))
chain_given false (ok l) (err e) h w next = (λ g. ground (arith, g), λ g. ground (arith, g))
chain_given false (ok l) (ok d) (err e) w next = (λ g. ground (arith, g), λ g. ground (arith, g))
chain_given false (ok l) (ok d) (ok h) (err e) next =
    (λ g. ground (arith, g), λ g. ground (arith, g))
chain_given false (ok l) (ok d) (ok h) (ok w) next =
    (λ g. (next l d h w, refl), λ g. (refl, (l, refl), (d, refl), (h, refl), (w, refl)))

module _ {F : Type 0} (fl : Floats F) (fs : Files) (path : Str) (meta : List (Str × Value))
    (max_context kv_bytes : ℤ) where
  abbrev pub arch : Str
  arch = text_of (lookup str_discrete architecture meta)

  -- From the metadata of a header there is a spec just when the architecture is a text that is not empty,
  -- the number of layers is there, the length of a head is there or follows from the embedding and a
  -- number of heads other than 0, a number of key heads other than 0 or a number of heads is there, and
  -- the files of the weights have sizes.
  pub spec_of_given :
      ((is_empty arch ≡ false)
        × Known (get meta arch block_count)
        × HasHead meta arch
        × HasKvHeads meta arch
        × Gives (weights_bytes fs path))
      ↔ Gives (spec_of fl fs path meta max_context kv_bytes)
  unfolding spec_of
  spec_of_given =
      let chain =
        chain_given (is_empty arch) (required (missing block_count) (get meta arch block_count))
          (head_dim meta arch) (kv_heads meta arch) (weights_bytes fs path) _ in
      (
        λ (named, layers, head, heads, bytes). chain.0 (
          named,
          (required_given _ _).0 layers,
          (HasHead_given meta arch).0 head,
          (HasKvHeads_given meta arch).0 heads,
          bytes,
        ),
        λ given.
            let (named, layers, dim, heads, bytes) = chain.1 given in
            (
              named,
              (required_given _ _).1 layers,
              (HasHead_given meta arch).1 dim,
              (HasKvHeads_given meta arch).1 heads,
              bytes,
            ),
      )
