-- ===== src/Coordinator/Train/Invariant.antt =====
-- internal/coordinator/train.go: what the open transactions keep, and that each change of them keeps it.
use sofmat.Base.{
  true-false, ◌≡◌, ◌≢◌, refl, sym, ap, ◌∙◌, true, false, List, [], ◌∷◌, Option, none, some, arith,
  Bool-cases, ◌⊎◌, inl, inr, if_pos, if_neg,
}
use sofmat.Base.Assoc.{lookup, insert, Distinct, lookup-insert, lookup-cons_self, lookup-cons_ne}
use sofmat.Base.Strings.{Str, str_discrete, same}
use sofmat.Coordinator.Janitor.{contains}
use sofmat.Coordinator.Train.{Server, TrainTx, holder, wanted_key}
use sofmat.Coordinator.Train.Apart.{Apart, IsFenced}
use sofmat.Update.Guard.Refusals.{eq_of_same}

-- An instance is in one open transaction.
abbrev pub Exclusive : List (Str × TrainTx) → Type 0
Exclusive txs =
    (j l : Str) (t u : TrainTx) (k : Str)
    → lookup str_discrete j txs ≡ some t
    → lookup str_discrete l txs ≡ some u
    → contains t.instances k ≡ true
    → contains u.instances k ≡ true
    → j ≡ l

-- What is in an open transaction gets no request.
abbrev pub AllFenced : Server → Type 0
AllFenced s =
    (j : Str) (t : TrainTx) (k : Str)
    → lookup str_discrete j s.txs ≡ some t
    → contains t.instances k ≡ true
    → IsFenced s k

abbrev pub IsServer : Server → Type 0
IsServer s = Apart s.instances × Distinct str_discrete s.txs × Exclusive s.txs × AllFenced s

-- No transaction holds what a new one wants.
abbrev pub Free : List Str → List (Str × TrainTx) → Type 0
Free want txs =
    (j : Str) (t : TrainTx) (k : Str)
    → lookup str_discrete j txs ≡ some t
    → contains t.instances k ≡ true
    → contains want k ≡ false

wanted_key-none :
    (want ks : List Str) (k : Str)
    → wanted_key want ks ≡ none
    → contains ks k ≡ true
    → contains want k ≡ false
unfolding wanted_key contains
wanted_key-none want [] k h c = cc
wanted_key-none want (l ∷ ks) k h c = elim (Bool-cases (contains want l)) [
  | inl wanted ↦ ground (arith, wanted, h)
  | inr free ↦ elim (Bool-cases (same l k)) [
    | inl here ↦ rw (sym (eq_of_same l k here)) free
    | inr there ↦ wanted_key-none want ks k (rw free at h) (rw there at c)
  ]
]

found_none :
    (o : Option Str) (rest : Option (Str × Str)) (f : Str → Str × Str)
    → ◌≡◌ {A = Option (Str × Str)} (elim o [ some k ↦ some (f k) | none ↦ rest ]) none
    → (o ≡ none) × (rest ≡ none)
found_none none rest f h = (refl, h)
found_none (some k) rest f h = cc

holder-head :
    (want : List Str) (l : Str) (t : TrainTx) (txs : List (Str × TrainTx))
    → holder want ((l, t) ∷ txs) ≡ none
    → (wanted_key want t.instances ≡ none) × (holder want txs ≡ none)
unfolding holder
holder-head want l t txs h =
    found_none (wanted_key want t.instances) (holder want txs) (λ k. (k, t.job)) h

pub same_tx : (t u : TrainTx) → ◌≡◌ {A = Option TrainTx} (some t) (some u) → t ≡ u
same_tx t u e = cc

pub holder-none :
    (want : List Str) (txs : List (Str × TrainTx)) → holder want txs ≡ none → Free want txs
unfolding lookup
holder-none want [] h j t k l c = cc
holder-none want ((i, u) ∷ txs) h j t k l c =
    let (here, there) = holder-head want i u txs h in
    elim (str_discrete i j) [
      | yes e ↦
          let at_j = ap (λ x. lookup str_discrete x ((i, u) ∷ txs)) e ∙ l in
          let u_t = same_tx u t (sym (lookup-cons_self str_discrete i u txs) ∙ at_j) in
          wanted_key-none want u.instances k here (rw u_t c)
      | no n ↦
          holder-none want txs there j t k (sym (lookup-cons_ne str_discrete i j u txs n) ∙ l) c
    ]

pub insert-cases :
    (job j : Str) (tx t : TrainTx) (txs : List (Str × TrainTx))
    → lookup str_discrete j (insert str_discrete job tx txs) ≡ some t
    → ((job ≡ j) × (tx ≡ t)) ⊎ ((job ≢ j) × (lookup str_discrete j txs ≡ some t))
insert-cases job j tx t txs h =
    let found = lookup-insert str_discrete job j tx txs in
    elim (str_discrete job j) [
      | yes e ↦ inl (
        e,
        same_tx tx t
            (sym (found ∙ if_pos (str_discrete job j) e (some tx) (lookup str_discrete j txs)) ∙ h),
      )
      | no n ↦
          inr (
            n,
            sym (found ∙ if_neg (str_discrete job j) n (some tx) (lookup str_discrete j txs)) ∙ h,
          )
    ]

pub insert-Exclusive :
    (job : Str) (tx : TrainTx) (txs : List (Str × TrainTx))
    → Free tx.instances txs
    → Exclusive txs
    → Exclusive (insert str_discrete job tx txs)
insert-Exclusive job tx txs free old j l t u k at_j at_l in_t in_u =
    elim (insert-cases job j tx t txs at_j) [
      | inl (e, same_t) ↦ elim (insert-cases job l tx u txs at_l) [
        | inl (f, same_u) ↦ sym e ∙ f
        | inr (f, in_l) ↦ absurd (true-false (sym (rw same_t in_t) ∙ free l u k in_l in_u))
      ]
      | inr (e, in_j) ↦ elim (insert-cases job l tx u txs at_l) [
        | inl (f, same_u) ↦ absurd (true-false (sym (rw same_u in_u) ∙ free j t k in_j in_t))
        | inr (f, in_l) ↦ old j l t u k in_j in_l in_t in_u
      ]
    ]
