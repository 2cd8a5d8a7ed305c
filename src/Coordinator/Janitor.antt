-- ===== src/Coordinator/Janitor.antt =====
-- internal/coordinator/kvjanitor.go: the states that may still lie on an agent, and their deletion. The
-- agents are a state that `delete_state` asks: true stands for an answer of 2xx or 404. Times are numbers.
use sofmat.Base.{
  ℕ, suc, ◌-◌, ◌≡◌, ◌≢◌, ◌↔◌, arith, true-false, refl, sym, ◌∙◌, Bool, true, false, not, ◌&&◌, List,
  [], ◌∷◌, ◌++◌, none, some, leb, if◌then◌else◌, Bool-cases, Option-cases, ◌⊎◌, inl, inr,
}
use sofmat.Base.Assoc.{lookup, insert, delete, Distinct, lookup-delete_self}
use sofmat.Update.Guard.{sort_strings}
use sofmat.Base.Strings.{Str, str_discrete, is_empty, same}

pub record KvPending : Type 0 where
  pub ctls : List Str
  pub since : ℕ

-- `saved` is the list in the file; `persists`: there is a path, and it can be written.
pub record KvPipe : Type 0 where
  pub gc : List (Str × KvPending)
  pub decode_ctl : Str
  pub prefill_ctl : Str
  pub persists : Bool
  pub saved : List (Str × KvPending)

-- `saveGCLocked`.
abbrev pub save_gc : KvPipe → KvPipe
save_gc k = record k { saved = if k.persists then k.gc else k.saved }

unfoldable pub contains : List Str → Str → Bool
contains [] x = false
contains (y ∷ ys) x = let rest = contains ys x in if same y x then true else rest

-- The loop of `track`: each agent once, and none without a name.
unfoldable pub distinct_ctls : List Str → List Str → List Str
distinct_ctls cs [] = cs
distinct_ctls cs (c ∷ ctls) =
    distinct_ctls (if not (is_empty c) && not (contains cs c) then cs ++ c ∷ [] else cs) ctls

-- `track`, at the time `now`.
unfoldable pub track : Str → List Str → ℕ → KvPipe → KvPipe
track name ctls now k =
    let pending : KvPending = record { ctls = distinct_ctls [] ctls; since = now } in
    save_gc (record k { gc = insert str_discrete name pending k.gc })

-- `ctlsOf`.
unfoldable pub ctls_of : Str → KvPipe → List Str
ctls_of name k =
    let pair = k.decode_ctl ∷ k.prefill_ctl ∷ [] in
    elim (lookup str_discrete name k.gc) [
      | none ↦ pair
      | some p ↦ elim p.ctls [ [] ↦ pair | c ∷ cs ↦ c ∷ cs ]
    ]

-- The agents that may hold a state.
abbrev pub MayHold : Str → KvPipe → List Str → Type 0
MayHold name k bases =
    ((p : KvPending) × (lookup str_discrete name k.gc ≡ some p) × (p.ctls ≡ bases) × (bases ≢ []))
    ⊎ (((lookup str_discrete name k.gc ≡ none)
          ⊎ ((p : KvPending) × (lookup str_discrete name k.gc ≡ some p) × (p.ctls ≡ [])))
        × (bases ≡ k.decode_ctl ∷ k.prefill_ctl ∷ []))

ctls_of-MayHold :
    (name : Str) (k : KvPipe) (bases : List Str) → MayHold name k bases → ctls_of name k ≡ bases
unfolding ctls_of
ctls_of-MayHold name k [] (inl (p, known, ctls, some_base)) = absurd (some_base refl)
ctls_of-MayHold name k (c ∷ cs) (inl (p, known, ctls, some_base)) = rw (known, ctls_of, ctls) refl
ctls_of-MayHold name k bases (inr (inl unknown, pair)) = rw (unknown, ctls_of) (sym pair)
ctls_of-MayHold name k bases (inr (inr (p, known, ctls), pair)) =
    rw (known, ctls_of, ctls) (sym pair)

-- The draft beside a state.
abbrev pub draft : Str → Str
draft name = name ++ b'.' ∷ b'd' ∷ b'f' ∷ b't' ∷ []

-- The deletions that `purge` asks for, in order.
unfoldable pub requests : Str → List Str → List (Str × Str)
requests name [] = []
requests name (base ∷ bases) = (base, name) ∷ (base, draft name) ∷ requests name bases

unfoldable pub forget_state : Str → KvPipe → KvPipe
forget_state name k = elim (lookup str_discrete name k.gc) [
  | none ↦ k
  | some _ ↦ save_gc (record k { gc = delete str_discrete name k.gc })
]

forget_state-gone :
    (name : Str) (k : KvPipe)
    → Distinct str_discrete k.gc
    → lookup str_discrete name (forget_state name k).gc ≡ none
unfolding forget_state
forget_state-gone name k d = elim (Option-cases (lookup str_discrete name k.gc)) [
  | inl unknown ↦ rw (unknown, forget_state) unknown
  | inr (p, known) ↦ rw (known, forget_state) (lookup-delete_self str_discrete name k.gc d)
]

-- The names that `sweep` collects: the states of `min_age` or more.
unfoldable pub aged : ℕ → ℕ → List (Str × KvPending) → List Str
aged min_age now [] = []
aged min_age now ((n, p) ∷ gc) =
    let rest = aged min_age now gc in if leb min_age (now - p.since) then n ∷ rest else rest

abbrev pub all_true : List Bool → Bool
all_true [] = true
all_true (b ∷ bs) = b && all_true bs

module _ {E : Type 0} (delete_state : Str → Str → E → Bool × E) where
  -- The loops of `purge`: every deletion is asked for, whatever the others answer.
  unfoldable pub delete_all : List (Str × Str) → E → Bool × E
  delete_all [] e = (true, e)
  delete_all ((base, name) ∷ rs) e =
      let (gone, e') = delete_state base name e in
      let (rest, e'') = delete_all rs e' in (gone && rest, e'')

  -- `purge`.
  unfoldable pub purge : Str → KvPipe → E → Bool × (KvPipe × E)
  purge name k e =
      let (gone, e') = delete_all (requests name (ctls_of name k)) e in
      (gone, (if gone then forget_state name k else k, e'))

  -- The last loop of `sweep`: how many states are gone, and how many are left.
  unfoldable pub purge_all : List Str → KvPipe → E → (ℕ × ℕ) × (KvPipe × E)
  purge_all [] k e = ((0, 0), (k, e))
  purge_all (n ∷ ns) k e =
      let (gone, (k', e')) = purge n k e in
      let ((g, l), after) = purge_all ns k' e' in (if gone then (suc g, l) else (g, suc l), after)

  -- `sweep`, at the time `now`.
  unfoldable pub sweep : ℕ → ℕ → KvPipe → E → (ℕ × ℕ) × (KvPipe × E)
  sweep min_age now k e = purge_all (sort_strings (aged min_age now k.gc)) k e

  -- Every agent has confirmed, one after the other, that the state is gone and then that its draft is.
  abbrev pub AllDeleted : Str → List Str → E → Type 0
  AllDeleted name [] e = Unit
  AllDeleted name (base ∷ bases) e =
      let state = delete_state base name e in
      let beside = delete_state base (name ++ b'.' ∷ b'd' ∷ b'f' ∷ b't' ∷ []) state.1 in
      (state.0 ≡ true) × (beside.0 ≡ true) × AllDeleted name bases beside.1

  both_true : (a b : Bool) → (a && b) ≡ true → (a ≡ true) × (b ≡ true)
  both_true a b h = ground (arith, h)

  delete_all-AllDeleted :
      (name : Str) (bases : List Str) (e : E)
      → ((delete_all (requests name bases) e).0 ≡ true) ↔ AllDeleted name bases e
  unfolding delete_all requests
  delete_all-AllDeleted name [] e = (λ h. tt, λ h. refl)
  delete_all-AllDeleted name (base ∷ bases) e =
      let state = delete_state base name e in
      let beside = delete_state base (draft name) state.1 in
      let later = delete_all-AllDeleted name bases beside.1 in
      (
        λ h.
            let (first, rest) = both_true state.0 _ h in
            let (second, others) = both_true beside.0 _ rest in (first, second, later.0 others),
        λ h. rw (h.0, h.1) (later.1 h.2),
      )

  purge-false :
      (name : Str) (k : KvPipe) (e : E)
      → (delete_all (requests name (ctls_of name k)) e).0 ≡ false
      → (purge name k e).1.0 ≡ k
  unfolding purge
  purge-false name k e h = rw (h, purge) refl

  purge-true :
      (name : Str) (k : KvPipe) (e : E)
      → (delete_all (requests name (ctls_of name k)) e).0 ≡ true
      → (purge name k e).1.0 ≡ forget_state name k
  unfolding purge
  purge-true name k e h = rw (h, purge) refl

  -- `purge` takes a state off a list that has no name twice when every agent that may hold it, one
  -- after the other, has confirmed that the state and its draft are gone; otherwise the list stays as
  -- it was. The agents are those of the state's entry, or the two of the pair when none are written.
  pub purge_lem :
      (name : Str) (k : KvPipe) (bases : List Str) (e : E)
      → Distinct str_discrete k.gc
      → MayHold name k bases
      → (AllDeleted name bases e × (lookup str_discrete name (purge name k e).1.0.gc ≡ none))
        ⊎ ((¬ AllDeleted name bases e) × ((purge name k e).1.0 ≡ k))
  purge_lem name k bases e d m =
      let rs = requests name (ctls_of name k) in
      let confirmed : ((delete_all rs e).0 ≡ true) ↔ AllDeleted name bases e =
        rw (ctls_of-MayHold name k bases m) (delete_all-AllDeleted name bases e) in
      elim (Bool-cases (delete_all rs e).0) [
        | inl gone ↦
            inl (confirmed.0 gone, rw (purge-true name k e gone) (forget_state-gone name k d))
        | inr left ↦
            inr (λ all. true-false (sym (confirmed.1 all) ∙ left), purge-false name k e left)
      ]
