-- ===== src/Coordinator/Train/Steps.antt =====
-- internal/coordinator/train.go: what each handler keeps, whatever others do meanwhile.
use sofmat.Base.{
  ℕ, zero, suc, ◌≡◌, refl, Bool, true, false, ◌&&◌, ◌||◌, List, [], ◌∷◌, Option, none, some,
  if◌then◌else◌, Result, ok, err, ◌==◌, map, ltb,
}
use sofmat.Base.Assoc.{lookup}
use sofmat.Base.Strings.{Str, str_discrete}
use sofmat.Coordinator.Janitor.{all_true}
use sofmat.Update.Guard.{sort_strings}
use sofmat.Coordinator.Train.{Server, TrainTx, open_train, holder}
use sofmat.Coordinator.Train.Requests.{
  Answer, BeginRequest, EndRequest, busy, instance_up, clamp_seconds, train_drain_default,
  train_drain_max, train_wait_default, train_wait_max,
}
use sofmat.Coordinator.Train.Handlers.{
  wait_drained, wait_up, train_begin, train_end, raise_down, check_tx, check_all, to_reload,
  to_alerted, raise_instance, down_keys, is_reload,
}
use sofmat.Coordinator.Train.Invariant.{IsServer, holder-none}
use sofmat.Coordinator.Train.Changes.{open_train-IsServer, close_train-IsServer, change_tx-IsServer}

-- What others do during a handler.
abbrev pub Keeps : (ℕ → Server → Server) → Type 0
Keeps others = (r : ℕ) (s : Server) → IsServer s → IsServer (others r s)

if-IsServer :
    {A : Type 0} (t : Bool) (x y : A × Server)
    → IsServer x.1
    → IsServer y.1
    → IsServer (if t then x else y).1
if-IsServer true x y hx hy = hx
if-IsServer false x y hx hy = hy

branch : (t : Bool) (x y : Server) → IsServer x → IsServer y → IsServer (if t then x else y)
branch true x y hx hy = hx
branch false x y hx hy = hy

on_result :
    (P : Answer × Server → Type 0) (r : Result Answer TrainTx) (f : TrainTx → Answer × Server)
    (s : Server)
    → ((a : Answer) → P (a, s))
    → ((tx : TrainTx) → r ≡ ok tx → P (f tx))
    → P (elim r [ err a ↦ (a, s) | ok tx ↦ f tx ])
on_result P (err a) f s bad good = bad a
on_result P (ok tx) f s bad good = good tx refl

on_option :
    (P : Answer × Server → Type 0) (o : Option TrainTx) (x : Answer × Server)
    (f : TrainTx → Answer × Server)
    → P x
    → ((tx : TrainTx) → o ≡ some tx → P (f tx))
    → P (elim o [ none ↦ x | some tx ↦ f tx ])
on_option P none x f bad good = bad
on_option P (some tx) x f bad good = good tx refl

on_list :
    (ks : List Str) (x y : Server)
    → IsServer x
    → IsServer y
    → IsServer (elim ks [ [] ↦ x | _ ∷ _ ↦ y ])
on_list [] x y hx hy = hx
on_list (k ∷ ks) x y hx hy = hy

module _ (others : ℕ → Server → Server) (health : ℕ → Str → Bool) (keeps : Keeps others) where
  wait_drained-IsServer :
      (r : ℕ) (ks : List Str) (s : Server)
      → IsServer s
      → IsServer (wait_drained others health r ks s).1
  unfolding wait_drained
  wait_drained-IsServer zero ks s h = h
  wait_drained-IsServer (suc r) ks s h =
      if-IsServer (busy s ks == 0) _ _ h (wait_drained-IsServer r ks (others r s) (keeps r s h))

  wait_up-IsServer :
      (r : ℕ) (ks : List Str) (s : Server) → IsServer s → IsServer (wait_up others health r ks s).1
  unfolding wait_up
  wait_up-IsServer zero ks s h = h
  wait_up-IsServer (suc r) ks s h =
      if-IsServer (all_true (map (instance_up (health (suc r)) s) ks)) _ _ h
        (wait_up-IsServer r ks (others r s) (keeps r s h))

  -- A check that lets no transaction in that wants what another one has.
  abbrev pub Guards : (BeginRequest → Server → Result Answer TrainTx) → Type 0
  Guards check =
      (req : BeginRequest) (s : Server) (tx : TrainTx)
      → check req s ≡ ok tx
      → holder tx.instances s.txs ≡ none

  pub begin-IsServer :
      (sleeps : ℕ → ℕ) (check : BeginRequest → Server → Result Answer TrainTx)
      (body : Option BeginRequest) (s : Server)
      → Guards check
      → IsServer s
      → IsServer (train_begin others health sleeps check body s).1
  unfolding train_begin
  begin-IsServer sleeps check none s g h = h
  begin-IsServer sleeps check (some req) s g h =
      on_result (λ x. IsServer x.1) (check req s) _ s (λ a. h)
        (λ tx e.
          wait_drained-IsServer
            (sleeps (clamp_seconds req.drain_s train_drain_default train_drain_max)) tx.instances
            (open_train tx s)
            (open_train-IsServer tx s (holder-none tx.instances s.txs (g req s tx e)) h))

  pub end-IsServer :
      (sleeps : ℕ → ℕ) (trim : Str → Str) (body : Option EndRequest) (s : Server)
      → IsServer s
      → IsServer (train_end others health sleeps trim body s).1
  unfolding train_end
  end-IsServer sleeps trim none s h = h
  end-IsServer sleeps trim (some req) s h =
      on_option (λ x. IsServer x.1) (lookup str_discrete (trim req.job) s.txs) _ _ h
        (λ tx e.
          let budget = clamp_seconds req.wait_s train_wait_default train_wait_max in
          let waited = wait_up-IsServer (sleeps budget) tx.instances s h in
          if-IsServer
            (all_true (wait_up others health (sleeps budget) tx.instances s).0 || req.force) _ _
            (close_train-IsServer tx.job _ waited)
            (change_tx-IsServer tx.job to_reload _ (λ t. refl) waited))

  raise_down-IsServer :
      (sleeps : ℕ → ℕ) (raise_preset : Str → Bool) (presets ks : List Str) (s : Server)
      → IsServer s
      → IsServer (raise_down others health sleeps raise_preset presets ks s).1
  unfolding raise_down
  raise_down-IsServer sleeps raise_preset presets [] s h = h
  raise_down-IsServer sleeps raise_preset presets (k ∷ ks) s h =
      raise_down-IsServer sleeps raise_preset presets ks _ (
        branch (raise_instance raise_preset presets s k) _ _
          (wait_up-IsServer (sleeps 30) (k ∷ []) s h) h)

  check_tx-IsServer :
      (sleeps : ℕ → ℕ) (raise_preset : Str → Bool) (presets : List Str) (now : ℕ) (t : TrainTx)
      (s : Server)
      → IsServer s
      → IsServer (check_tx others health sleeps raise_preset presets now t s)
  unfolding check_tx
  check_tx-IsServer sleeps raise_preset presets now t s h =
      let ups = map (instance_up (health 0) s) t.instances in
      let raised =
        raise_down-IsServer sleeps raise_preset presets (sort_strings (down_keys t.instances ups)) s
          h in
      branch (all_true ups && (is_reload t.phase || ltb t.deadline now)) _ _
        (close_train-IsServer t.job s h)
        (branch (ltb now t.deadline) _ _ h (
          on_list
            (raise_down others health sleeps raise_preset presets
              (sort_strings (down_keys t.instances ups)) s).0
            _ _ (close_train-IsServer t.job _ raised)
            (branch t.alerted _ _ raised
              (change_tx-IsServer t.job to_alerted _ (λ u. refl) raised))))

  pub check_all-IsServer :
      (sleeps : ℕ → ℕ) (raise_preset : Str → Bool) (presets : List Str) (now : ℕ)
      (ts : List TrainTx) (s : Server)
      → IsServer s
      → IsServer (check_all others health sleeps raise_preset presets now ts s)
  unfolding check_all
  check_all-IsServer sleeps raise_preset presets now [] s h = h
  check_all-IsServer sleeps raise_preset presets now (t ∷ ts) s h =
      check_all-IsServer sleeps raise_preset presets now ts _
        (check_tx-IsServer sleeps raise_preset presets now t s h)
