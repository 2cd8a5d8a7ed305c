-- ===== src/Coordinator/Train/History.antt =====
-- internal/coordinator/train.go: a history of requests and of rounds of the watchdog.
use sofmat.Base.{ℕ, ◌≡◌, Bool, List, [], ◌∷◌, Option, none, arith, ok}
use sofmat.Base.Strings.{Str}
use sofmat.Coordinator.Train.{Server, TrainTx, open_train_txs, holder}
use sofmat.Coordinator.Train.Requests.{BeginRequest, EndRequest, begin_tx}
use sofmat.Coordinator.Train.Handlers.{train_begin, train_end, train_check}
use sofmat.Coordinator.Train.Invariant.{IsServer}
use sofmat.Coordinator.Train.Steps.{Keeps, begin-IsServer, end-IsServer, check_all-IsServer}

module _ (trim : Str → Str) (rfc3339 : Str → Option ℕ) (clock : Str → ℕ → Option ℕ) where
  begin_tx-holder :
      (req : BeginRequest) (origin : Str) (now : ℕ) (s : Server) (tx : TrainTx)
      → begin_tx trim rfc3339 clock req origin now s ≡ ok tx
      → holder tx.instances s.txs ≡ none
  unfolding begin_tx
  begin_tx-holder req origin now s tx h = ground arith

-- A request to begin, with its origin and its time; one to end; a round of the watchdog.
pub data Event : Type 0 where
  begin : Str → ℕ → Option BeginRequest → Event
  finish : Option EndRequest → Event
  round : ℕ → Event

module _ (trim : Str → Str) (rfc3339 : Str → Option ℕ) (clock : Str → ℕ → Option ℕ) (sleeps : ℕ → ℕ)
    (raise_preset : Str → Bool) (presets : List Str) (others : ℕ → Server → Server)
    (health : ℕ → Str → Bool) where
  unfoldable pub step : Event → Server → Server
  step (begin origin now body) s =
      (train_begin others health sleeps (λ req. begin_tx trim rfc3339 clock req origin now) body
        s).1
  step (finish body) s = (train_end others health sleeps trim body s).1
  step (round now) s = train_check others health sleeps raise_preset presets now s

  unfoldable pub run : List Event → Server → Server
  run [] s = s
  run (e ∷ es) s = run es (step e s)

  step-IsServer : (e : Event) (s : Server) → Keeps others → IsServer s → IsServer (step e s)
  unfolding step
  step-IsServer (begin origin now body) s keeps h =
      begin-IsServer others health keeps sleeps (λ req. begin_tx trim rfc3339 clock req origin now)
        body s (λ req s' tx. begin_tx-holder trim rfc3339 clock req origin now s' tx) h
  step-IsServer (finish body) s keeps h = end-IsServer others health keeps sleeps trim body s h
  step-IsServer (round now) s keeps h =
      check_all-IsServer others health keeps sleeps raise_preset presets now (open_train_txs s) s h

  -- When no two instances share a fence and what others do keeps the invariant, a history of
  -- requests and of rounds of the watchdog keeps it: an instance stands in at most one open transaction, and
  -- no request is sent to an instance of an open transaction.
  pub run-IsServer :
      (es : List Event) (s : Server) → Keeps others → IsServer s → IsServer (run es s)
  unfolding run
  run-IsServer [] s keeps h = h
  run-IsServer (e ∷ es) s keeps h = run-IsServer es (step e s) keeps (step-IsServer e s keeps h)
