-- ===== src/Coordinator/Train/Handlers.antt =====
-- internal/coordinator/train.go: `trainBegin`, `trainEnd` and `trainCheck`. While a handler sleeps others
-- change the server, as a function of the round. `sleeps` is how many sleeps fit in a budget, `health` what
-- an address answers at a round, and `raise_preset` launches what serves an address.
use sofmat.Base.{
  ℕ, zero, suc, Bool, true, false, not, ◌&&◌, ◌||◌, List, [], ◌∷◌, map, Option, none, some, ltb,
  ◌==◌, if◌then◌else◌, Result, ok, err,
}
use sofmat.Base.Assoc.{lookup, insert}
use sofmat.Base.Strings.{Str, str_discrete, is_empty, same}
use sofmat.Update.Guard.{sort_strings}
use sofmat.Coordinator.Balancer.Admin.{trim_slashes}
use sofmat.Coordinator.Janitor.{all_true}
use sofmat.Coordinator.Train.{
  Server, TrainTx, Phase, training, reload, instance_of, open_train, close_train, save_train,
  open_train_txs,
}
use sofmat.Coordinator.Train.Requests.{
  Answer, refused, opened, not_open, closed, still_down, bad_json, BeginRequest, EndRequest, busy,
  instance_up, clamp_seconds, train_drain_default, train_drain_max, train_wait_default,
  train_wait_max,
}

-- The addresses that `trainBegin` ejects.
unfoldable pub addresses : Server → List Str → List Str
addresses s [] = []
addresses s (k ∷ ks) = elim (instance_of k s.instances) [
  | none ↦ addresses s ks
  | some i ↦ if is_empty i.endpoint then addresses s ks else i.endpoint ∷ addresses s ks
]

-- `raiseInstance`: the first preset at the address of the instance is launched.
unfoldable pub raise_first : (Str → Bool) → Str → List Str → Bool
raise_first raise_preset url [] = false
raise_first raise_preset url (p ∷ ps) =
    let rest = raise_first raise_preset url ps in
    if is_empty p || not (same (trim_slashes p) (trim_slashes url)) then rest else raise_preset p

unfoldable pub raise_instance : (Str → Bool) → List Str → Server → Str → Bool
raise_instance raise_preset presets s key = elim (instance_of key s.instances) [
  | none ↦ false
  | some i ↦ raise_first raise_preset i.endpoint presets
]

-- A change of an open transaction, written down.
unfoldable pub change_tx : Str → (TrainTx → TrainTx) → Server → Server
change_tx job f s = elim (lookup str_discrete job s.txs) [
  | none ↦ s
  | some t ↦ save_train (record s { txs = insert str_discrete job (f t) s.txs })
]

abbrev pub to_reload : TrainTx → TrainTx
to_reload t = record t { phase = reload }

abbrev pub to_alerted : TrainTx → TrainTx
to_alerted t = record t { alerted = true }

abbrev pub is_reload : Phase → Bool
is_reload training = false
is_reload reload = true

-- `downKeys`.
unfoldable pub down_keys : List Str → List Bool → List Str
down_keys [] ups = []
down_keys (k ∷ ks) [] = []
down_keys (k ∷ ks) (up ∷ ups) = let rest = down_keys ks ups in if up then rest else k ∷ rest

module _ (others : ℕ → Server → Server) (health : ℕ → Str → Bool) where
  -- `waitDrained`, with the rounds that are left.
  unfoldable pub wait_drained : ℕ → List Str → Server → Bool × Server
  wait_drained zero keys s = (busy s keys == 0, s)
  wait_drained (suc r) keys s =
      let rest = wait_drained r keys (others r s) in if busy s keys == 0 then (true, s) else rest

  -- `waitUp`: what each instance answers in the end.
  unfoldable pub wait_up : ℕ → List Str → Server → List Bool × Server
  wait_up zero keys s = (map (instance_up (health 0) s) keys, s)
  wait_up (suc r) keys s =
      let ups = map (instance_up (health (suc r)) s) keys in
      let rest = wait_up r keys (others r s) in if all_true ups then (ups, s) else rest

  -- `trainBegin` of a body that may not be JSON; `check` is `begin_tx` at the time of the request.
  unfoldable pub train_begin :
      (ℕ → ℕ)
      → (BeginRequest → Server → Result Answer TrainTx)
      → Option BeginRequest
      → Server
      → Answer × Server
  train_begin sleeps check none s = (refused bad_json, s)
  train_begin sleeps check (some req) s = elim (check req s) [
    | err a ↦ (a, s)
    | ok tx ↦
        let budget = clamp_seconds req.drain_s train_drain_default train_drain_max in
        let (drained, s') = wait_drained (sleeps budget) tx.instances (open_train tx s) in
        (opened tx.deadline drained (if req.stop then addresses s' tx.instances else []), s')
  ]

  -- `trainEnd`. What it raises changes nothing here: `health` shows it.
  unfoldable pub train_end : (ℕ → ℕ) → (Str → Str) → Option EndRequest → Server → Answer × Server
  train_end sleeps trim none s = (refused bad_json, s)
  train_end sleeps trim (some req) s = elim (lookup str_discrete (trim req.job) s.txs) [
    | none ↦ (not_open, s)
    | some tx ↦
        let budget = clamp_seconds req.wait_s train_wait_default train_wait_max in
        let (ups, s') = wait_up (sleeps budget) tx.instances s in
        if all_true ups || req.force
        then (closed (all_true ups), close_train tx.job s')
        else (still_down (all_true ups), change_tx tx.job to_reload s')
  ]

  -- The loop of `trainCheck` over what is down: the keys that stay down.
  unfoldable pub raise_down :
      (ℕ → ℕ) → (Str → Bool) → List Str → List Str → Server → List Str × Server
  raise_down sleeps raise_preset presets [] s = ([], s)
  raise_down sleeps raise_preset presets (k ∷ ks) s =
      let (ups, waited) = wait_up (sleeps 30) (k ∷ []) s in
      let raised = raise_instance raise_preset presets s k in
      let (still, s') = raise_down sleeps raise_preset presets ks (if raised then waited else s) in
      (if raised && all_true ups then still else k ∷ still, s')

  -- One transaction of `trainCheck`, at the time `now`.
  unfoldable pub check_tx : (ℕ → ℕ) → (Str → Bool) → List Str → ℕ → TrainTx → Server → Server
  check_tx sleeps raise_preset presets now t s =
      let ups = map (instance_up (health 0) s) t.instances in
      let (still, s') =
        raise_down sleeps raise_preset presets (sort_strings (down_keys t.instances ups)) s in
      if all_true ups && (is_reload t.phase || ltb t.deadline now)
      then close_train t.job s
      else if ltb now t.deadline
      then s
      else elim still [
        | [] ↦ close_train t.job s'
        | _ ∷ _ ↦ if t.alerted then s' else change_tx t.job to_alerted s'
      ]

  unfoldable pub check_all : (ℕ → ℕ) → (Str → Bool) → List Str → ℕ → List TrainTx → Server → Server
  check_all sleeps raise_preset presets now [] s = s
  check_all sleeps raise_preset presets now (t ∷ ts) s =
      check_all sleeps raise_preset presets now ts (check_tx sleeps raise_preset presets now t s)

  -- `trainCheck`.
  abbrev pub train_check : (ℕ → ℕ) → (Str → Bool) → List Str → ℕ → Server → Server
  train_check sleeps raise_preset presets now s =
      check_all sleeps raise_preset presets now (open_train_txs s) s
