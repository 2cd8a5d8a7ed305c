-- ===== src/Coordinator/Train/Restart.antt =====
-- internal/coordinator/train.go: the fences after a restart, and what lifts them.
use sofmat.Base.{
  ◌≡◌, ◌≢◌, refl, sym, ap, not, Option-cases, ◌∙◌, Bool, true, false, List, [], ◌∷◌, Option, none,
  some, arith, ◌⊎◌, inl, inr, leb, Bool-cases, All, if_pos, if_neg,
}
use sofmat.Base.Assoc.{lookup, delete, insert, lookup-insert, lookup-cons_self, lookup-cons_ne}
use sofmat.Base.Strings.{Str, str_discrete, is_empty, same}
use sofmat.Coordinator.Janitor.{contains}
use sofmat.Coordinator.Train.{
  Instance, Server, Handoff, TrainTx, by_start, oldest_first, fence, fence_all, fence_txs,
  fence_prefill, apply_training_fences, close_train, load_train, load_list, save_train, instance_of,
  is_prefill,
}
use sofmat.Coordinator.Train.Apart.{IsFenced}
use sofmat.Coordinator.Train.Fencing.{
  fence_all_self, fence_all-keeps, txs-fence_all, instances-fence, fence-none, fence-kp,
}
use sofmat.Coordinator.Train.Changes.{close_train-some}
use sofmat.Update.Guard.Refusals.{eq_of_same}
use sofmat.Coordinator.Train.Invariant.{AllFenced, same_tx}

In : TrainTx → List TrainTx → Type 0
In t [] = ⊥
In t (u ∷ us) = (u ≡ t) ⊎ In t us

by_start-here : (t : TrainTx) (us : List TrainTx) → In t (by_start t us)
unfolding by_start In
by_start-here t [] = inl refl
by_start-here t (u ∷ us) = elim (Bool-cases (leb t.started u.started)) [
  | inl first ↦ rw first (inl refl)
  | inr later ↦ rw later (inr (by_start-here t us))
]

by_start-keeps : (t u : TrainTx) (us : List TrainTx) → In u us → In u (by_start t us)
unfolding by_start In
by_start-keeps t u [] h = absurd h
by_start-keeps t u (v ∷ us) (inl e) = elim (Bool-cases (leb t.started v.started)) [
  | inl first ↦ rw first (inr (inl e))
  | inr later ↦ rw later (inl e)
]
by_start-keeps t u (v ∷ us) (inr h) = elim (Bool-cases (leb t.started v.started)) [
  | inl first ↦ rw first (inr (inr h))
  | inr later ↦ rw later (inr (by_start-keeps t u us h))
]

none_some : (t : TrainTx) → ◌≢◌ {A = Option TrainTx} none (some t)
none_some t e = cc

oldest_first-In :
    (j : Str) (t : TrainTx) (txs : List (Str × TrainTx))
    → lookup str_discrete j txs ≡ some t
    → In t (oldest_first txs)
unfolding oldest_first lookup
oldest_first-In j t [] h = absurd (none_some t h)
oldest_first-In j t ((i, u) ∷ txs) h = elim (str_discrete i j) [
  | yes e ↦
      let at_j = ap (λ x. lookup str_discrete x ((i, u) ∷ txs)) e ∙ h in
      rw (sym (same_tx u t (sym (lookup-cons_self str_discrete i u txs) ∙ at_j)))
        (by_start-here u (oldest_first txs))
  | no n ↦
      by_start-keeps u t (oldest_first txs)
        (oldest_first-In j t txs (sym (lookup-cons_ne str_discrete i j u txs n) ∙ h))
]

fence_txs-keeps :
    (ts : List TrainTx) (k : Str) (s : Server) → IsFenced s k → IsFenced (fence_txs ts s) k
unfolding fence_txs
fence_txs-keeps [] k s h = h
fence_txs-keeps (t ∷ ts) k s h =
    fence_txs-keeps ts k (fence_all t.instances true s) (fence_all-keeps t.instances k s h)

fence_txs_self :
    (ts : List TrainTx) (t : TrainTx) (k : Str) (s : Server)
    → In t ts
    → contains t.instances k ≡ true
    → IsFenced (fence_txs ts s) k
unfolding fence_txs In
fence_txs_self [] t k s h c = absurd h
fence_txs_self (u ∷ ts) t k s (inl e) c =
    fence_txs-keeps ts k (fence_all u.instances true s) (fence_all_self u.instances k s (rw e c))
fence_txs_self (u ∷ ts) t k s (inr h) c = fence_txs_self ts t k (fence_all u.instances true s) h c

txs-fence_txs : (ts : List TrainTx) (s : Server) → (fence_txs ts s).txs ≡ s.txs
unfolding fence_txs
txs-fence_txs [] s = refl
txs-fence_txs (t ∷ ts) s =
    txs-fence_txs ts (fence_all t.instances true s) ∙ txs-fence_all t.instances true s

restart-AllFenced :
    (file : Option (List TrainTx)) (s : Server)
    → AllFenced (apply_training_fences (load_train file s))
restart-AllFenced file s j t k l c =
    let s' = load_train file s in
    fence_txs_self (oldest_first s'.txs) t k s'
      (oldest_first-In j t s'.txs
        (sym (ap (lookup str_discrete j) (txs-fence_txs (oldest_first s'.txs) s')) ∙ l))
      c

-- A transaction of a file, with no other of its job behind it.
abbrev pub Lists : TrainTx → List TrainTx → Type 0
Lists t [] = ⊥
Lists t (u ∷ us) = ((u ≡ t) × All (λ v. v.job ≢ t.job) us) ⊎ Lists t us

load_list-keeps :
    (t : TrainTx) (us : List TrainTx) (txs : List (Str × TrainTx))
    → All (λ v. v.job ≢ t.job) us
    → lookup str_discrete t.job txs ≡ some t
    → lookup str_discrete t.job (load_list us txs) ≡ some t
unfolding load_list
load_list-keeps t [] txs off h = h
load_list-keeps t (u ∷ us) txs (ne, off) h = elim (Bool-cases (is_empty u.job)) [
  | inl unnamed ↦ rw unnamed (load_list-keeps t us txs off h)
  | inr named ↦ rw named (
      load_list-keeps t us (insert str_discrete u.job u txs) off (
        lookup-insert str_discrete u.job t.job u txs
        ∙ if_neg (str_discrete u.job t.job) ne (some u) (lookup str_discrete t.job txs)
        ∙ h))
]

load_list-Lists :
    (t : TrainTx) (us : List TrainTx) (txs : List (Str × TrainTx))
    → is_empty t.job ≡ false
    → Lists t us
    → lookup str_discrete t.job (load_list us txs) ≡ some t
unfolding load_list
load_list-Lists t [] txs named h = absurd h
load_list-Lists t (u ∷ us) txs named (inr later) = load_list-Lists t us _ named later
load_list-Lists t (u ∷ us) txs named (inl (e, off)) = rw e (
    rw named (
      load_list-keeps t us (insert str_discrete t.job t txs) off (
        lookup-insert str_discrete t.job t.job t txs
        ∙ if_pos (str_discrete t.job t.job) refl (some t) (lookup str_discrete t.job txs))))

-- After the start loads a file that lists transactions and applies the fences, each of them that has a
-- name and no later one of its job is open again, and each of its instances is fenced.
pub restart-IsFenced :
    (list : List TrainTx) (s : Server) (t : TrainTx) (k : Str)
    → is_empty t.job ≡ false
    → Lists t list
    → contains t.instances k ≡ true
    → (lookup str_discrete t.job (apply_training_fences (load_train (some list) s)).txs ≡ some t)
      × IsFenced (apply_training_fences (load_train (some list) s)) k
unfolding load_train
restart-IsFenced list s t k named listed c =
    let s' = load_train (some list) s in
    let open_again : lookup str_discrete t.job (apply_training_fences s').txs ≡ some t =
      ap (lookup str_discrete t.job) (txs-fence_txs (oldest_first s'.txs) s')
      ∙ load_list-Lists t list [] named listed in
    (open_again, restart-AllFenced (some list) s t.job t k open_again c)

-- The handoff takes requests.
abbrev pub handoff_open : Option Handoff → Bool
handoff_open none = true
handoff_open (some k) = not k.disabled

fence_prefill-open :
    (i : Instance) (kp : Option Handoff)
    → handoff_open kp ≡ true
    → handoff_open (fence_prefill false i kp) ≡ true
unfolding fence_prefill
fence_prefill-open i none h = refl
fence_prefill-open i (some k) h = ground arith

fence_prefill-lifts :
    (i : Instance) (kp : Option Handoff)
    → is_prefill i ≡ true
    → handoff_open (fence_prefill false i kp) ≡ true
unfolding fence_prefill
fence_prefill-lifts i none h = refl
fence_prefill-lifts i (some k) h = ground arith

fence-open :
    (key : Str) (s : Server) → handoff_open s.kp ≡ true → handoff_open (fence key false s).kp ≡ true
fence-open key s h = elim (Option-cases (instance_of key s.instances)) [
  | inl missing ↦ rw (fence-none key false s missing) h
  | inr (i, found) ↦ rw (fence-kp key false s i found) (fence_prefill-open i s.kp h)
]

fence_all-open :
    (ks : List Str) (s : Server)
    → handoff_open s.kp ≡ true
    → handoff_open (fence_all ks false s).kp ≡ true
unfolding fence_all
fence_all-open [] s h = h
fence_all-open (k ∷ ks) s h = fence_all-open ks (fence k false s) (fence-open k s h)

fence_all-lifts :
    (ks : List Str) (key : Str) (i : Instance) (s : Server)
    → contains ks key ≡ true
    → instance_of key s.instances ≡ some i
    → is_prefill i ≡ true
    → handoff_open (fence_all ks false s).kp ≡ true
unfolding fence_all contains
fence_all-lifts [] key i s c found p = cc
fence_all-lifts (k ∷ ks) key i s c found p = elim (Bool-cases (same k key)) [
  | inl here ↦
      let at_k = ap (λ x. instance_of x s.instances) (eq_of_same k key here) ∙ found in
      fence_all-open ks (fence k false s)
        (rw (fence-kp k false s i at_k) (fence_prefill-lifts i s.kp p))
  | inr there ↦
      fence_all-lifts ks key i (fence k false s) (rw there at c)
        (ap (instance_of key) (instances-fence k false s) ∙ found) p
]

-- Closing a transaction with a prefill instance lets requests in at the handoff, whatever the other
-- open transactions hold: the handoff has one flag for all of them.
pub close_train-lifts :
    (job key : Str) (t : TrainTx) (i : Instance) (s : Server)
    → lookup str_discrete job s.txs ≡ some t
    → contains t.instances key ≡ true
    → instance_of key s.instances ≡ some i
    → is_prefill i ≡ true
    → handoff_open (close_train job s).kp ≡ true
close_train-lifts job key t i s found c at_i p = rw (close_train-some job t s found) (
    fence_all-lifts t.instances key i
      (save_train (record s { txs = delete str_discrete job s.txs })) c at_i p)
