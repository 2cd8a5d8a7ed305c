-- ===== src/Coordinator/Train/Changes.antt =====
-- internal/coordinator/train.go: opening, closing and changing a transaction.
use sofmat.Base.{
  ◌≡◌, ◌≢◌, refl, sym, ap, ◌∙◌, true, false, List, Option, none, some, Bool-cases, Option-cases,
  inl, inr,
}
use sofmat.Base.Assoc.{
  lookup, insert, delete, Distinct, insert-Distinct, delete-Distinct, lookup-delete_ne,
  lookup-delete_self,
}
use sofmat.Base.Strings.{Str, str_discrete}
use sofmat.Coordinator.Janitor.{contains}
use sofmat.Coordinator.Train.{Server, TrainTx, fence_all, open_train, close_train, save_train}
use sofmat.Coordinator.Train.Handlers.{change_tx}
use sofmat.Coordinator.Train.Fencing.{
  fence_all_self, fence_all-keeps, fence_all-Apart, instances-fence_all, txs-fence_all,
}
use sofmat.Coordinator.Train.Invariant.{Exclusive, IsServer, Free, insert-cases, insert-Exclusive}

-- A transaction that holds what no other does.
pub open_train-IsServer :
    (tx : TrainTx) (s : Server) → Free tx.instances s.txs → IsServer s → IsServer (open_train tx s)
unfolding open_train
open_train-IsServer tx s free (apart, distinct, exclusive, fenced) =
    let txs' = insert str_discrete tx.job tx s.txs in
    let s' = save_train (record s { txs = txs' }) in
    let same_txs = txs-fence_all tx.instances true s' in
    let same_is = instances-fence_all tx.instances true s' in
    (
      rw same_is apart,
      rw same_txs (insert-Distinct str_discrete tx.job tx s.txs distinct),
      rw same_txs (insert-Exclusive tx.job tx s.txs free exclusive),
      λ j t k l c.
          elim (insert-cases tx.job j tx t s.txs (sym (ap (lookup str_discrete j) same_txs) ∙ l)) [
            | inl (e, same_t) ↦ fence_all_self tx.instances k s' (rw same_t c)
            | inr (n, old) ↦ fence_all-keeps tx.instances k s' (fenced j t k old c)
          ],
    )

none_some : (t : TrainTx) → ◌≢◌ {A = Option TrainTx} none (some t)
none_some t e = cc

delete-cases :
    (job j : Str) (t : TrainTx) (txs : List (Str × TrainTx))
    → Distinct str_discrete txs
    → lookup str_discrete j (delete str_discrete job txs) ≡ some t
    → (job ≢ j) × (lookup str_discrete j txs ≡ some t)
delete-cases job j t txs d h = elim (str_discrete job j) [
  | yes e ↦ absurd (
      none_some t (
        sym (lookup-delete_self str_discrete job txs d)
        ∙ ap (λ x. lookup str_discrete x (delete str_discrete job txs)) e
        ∙ h))
  | no n ↦ (n, sym (lookup-delete_ne str_discrete job j txs n) ∙ h)
]

pub close_train-some :
    (job : Str) (t : TrainTx) (s : Server)
    → lookup str_discrete job s.txs ≡ some t
    → close_train job s
      ≡ fence_all t.instances false (save_train (record s { txs = delete str_discrete job s.txs }))
unfolding close_train
close_train-some job t s h = rw (h, close_train) refl

close_train-none :
    (job : Str) (s : Server) → lookup str_discrete job s.txs ≡ none → close_train job s ≡ s
unfolding close_train
close_train-none job s h = rw (h, close_train) refl

-- What another transaction holds, this one does not.
not_held :
    (job j : Str) (t u : TrainTx) (k : Str) (txs : List (Str × TrainTx))
    → Exclusive txs
    → job ≢ j
    → lookup str_discrete job txs ≡ some t
    → lookup str_discrete j txs ≡ some u
    → contains u.instances k ≡ true
    → contains t.instances k ≡ false
not_held job j t u k txs exclusive n at_job at_j c = elim (Bool-cases (contains t.instances k)) [
  | inl held ↦ absurd (n (exclusive job j t u k at_job at_j held c))
  | inr free ↦ free
]

pub close_train-IsServer : (job : Str) (s : Server) → IsServer s → IsServer (close_train job s)
close_train-IsServer job s (apart, distinct, exclusive, fenced) =
    elim (Option-cases (lookup str_discrete job s.txs)) [
      | inl missing ↦ rw (close_train-none job s missing) (apart, distinct, exclusive, fenced)
      | inr (t, found) ↦
          let s' = save_train (record s { txs = delete str_discrete job s.txs }) in
          let same_txs = txs-fence_all t.instances false s' in
          let same_is = instances-fence_all t.instances false s' in
          rw (close_train-some job t s found) (
            rw same_is apart,
            rw same_txs (delete-Distinct str_discrete job s.txs distinct),
            λ j l u v k at_j at_l in_u in_v.
                exclusive j l u v k
                  (delete-cases job j u s.txs distinct
                    (sym (ap (lookup str_discrete j) same_txs) ∙ at_j)).1
                  (delete-cases job l v s.txs distinct
                    (sym (ap (lookup str_discrete l) same_txs) ∙ at_l)).1
                  in_u in_v,
            λ j u k at_j c.
                let (n, old) =
                  delete-cases job j u s.txs distinct
                    (sym (ap (lookup str_discrete j) same_txs) ∙ at_j) in
                fence_all-Apart t.instances k false s' apart
                  (not_held job j t u k s.txs exclusive n found old c) (fenced j u k old c),
          )
    ]

change_tx-some :
    (job : Str) (f : TrainTx → TrainTx) (t : TrainTx) (s : Server)
    → lookup str_discrete job s.txs ≡ some t
    → change_tx job f s ≡ save_train (record s { txs = insert str_discrete job (f t) s.txs })
unfolding change_tx
change_tx-some job f t s h = rw (h, change_tx) refl

change_tx-none :
    (job : Str) (f : TrainTx → TrainTx) (s : Server)
    → lookup str_discrete job s.txs ≡ none
    → change_tx job f s ≡ s
unfolding change_tx
change_tx-none job f s h = rw (h, change_tx) refl

-- After a change that keeps the instances, each transaction has those of one that was there.
changed :
    (job j : Str) (f : TrainTx → TrainTx) (t u : TrainTx) (txs : List (Str × TrainTx))
    → (f t).instances ≡ t.instances
    → lookup str_discrete job txs ≡ some t
    → lookup str_discrete j (insert str_discrete job (f t) txs) ≡ some u
    → (v : TrainTx) × (lookup str_discrete j txs ≡ some v) × (v.instances ≡ u.instances)
changed job j f t u txs keeps found h = elim (insert-cases job j (f t) u txs h) [
  | inl (e, same_u) ↦ (
    t,
    sym (ap (λ x. lookup str_discrete x txs) e) ∙ found,
    sym keeps ∙ ap (λ x. x.instances) same_u,
  )
  | inr (n, old) ↦ (u, old, refl)
]

pub change_tx-IsServer :
    (job : Str) (f : TrainTx → TrainTx) (s : Server)
    → ((t : TrainTx) → (f t).instances ≡ t.instances)
    → IsServer s
    → IsServer (change_tx job f s)
change_tx-IsServer job f s keeps (apart, distinct, exclusive, fenced) =
    elim (Option-cases (lookup str_discrete job s.txs)) [
      | inl missing ↦ rw (change_tx-none job f s missing) (apart, distinct, exclusive, fenced)
      | inr (t, found) ↦ rw (change_tx-some job f t s found) (
        apart,
        insert-Distinct str_discrete job (f t) s.txs distinct,
        λ j l u v k at_j at_l in_u in_v.
            let (u', old_j, eu) = changed job j f t u s.txs (keeps t) found at_j in
            let (v', old_l, ev) = changed job l f t v s.txs (keeps t) found at_l in
            exclusive j l u' v' k old_j old_l (rw eu in_u) (rw ev in_v),
        λ j u k at_j c.
            let (u', old_j, eu) = changed job j f t u s.txs (keeps t) found at_j in
            fenced j u' k old_j (rw eu c),
      )
    ]
