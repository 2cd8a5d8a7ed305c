-- ===== src/Coordinator/Train/Requests.antt =====
-- internal/coordinator/train.go: the requests, their answers, and the checks of `trainBegin`. `trim` is
-- strings.TrimSpace; `rfc3339` and `clock` are the two layouts of time.Parse, the second on the day of
-- `now`.
use sofmat.Base.{
  ℕ, zero, suc, ◌+◌, ◌*◌, Bool, true, false, not, ◌||◌, List, [], ◌∷◌, Option, none, some, ltb,
  if◌then◌else◌, Result, ok, err, ◌>>=◌, ◌>>◌, guard,
}
use sofmat.Base.Assoc.{lookup}
use sofmat.Base.Int.{ℤ, pos, negsuc}
use sofmat.Base.Strings.{Str, str_discrete, is_empty}
use sofmat.Coordinator.Balancer.{DecodeBalancer, node_at}
use sofmat.Coordinator.Balancer.Admin.{node_by_url, trim_slashes}
use sofmat.Coordinator.Janitor.{contains}
use sofmat.Coordinator.Train.{
  Instance, Server, TrainTx, Handoff, training, instance_of, is_prefill, holder,
}

abbrev pub train_drain_default : ℕ
train_drain_default = 90

abbrev pub train_drain_max : ℕ
train_drain_max = 600

abbrev pub train_wait_default : ℕ
train_wait_default = 120

abbrev pub train_wait_max : ℕ
train_wait_max = 600

abbrev pub train_deadline_default : ℕ
train_deadline_default = 6 * 3600

-- `clampSeconds`.
unfoldable pub clamp_seconds : ℤ → ℕ → ℕ → ℕ
clamp_seconds (negsuc n) usual most = usual
clamp_seconds (pos zero) usual most = usual
clamp_seconds (pos (suc n)) usual most = if ltb most (suc n) then most else suc n

pub data BadRequest : Type 0 where
  bad_json no_job no_instances bad_deadline : BadRequest
  unknown_instance : Str → BadRequest

pub data Answer : Type 0 where
  refused : BadRequest → Answer
  already_open : Answer
  held_by : Str → Str → Answer
  opened : ℕ → Bool → List Str → Answer
  not_open : Answer
  closed still_down : Bool → Answer

pub record BeginRequest : Type 0 where
  pub job : Str
  pub node : Str
  pub instances : List Str
  pub deadline : Str
  pub drain_s : ℤ
  pub stop : Bool
  pub note : Str

pub record EndRequest : Type 0 where
  pub job : Str
  pub raises : Bool
  pub wait_s : ℤ
  pub force : Bool

-- The first key that no instance has.
unfoldable pub first_unknown : List Instance → List Str → Option Str
first_unknown is [] = none
first_unknown is (k ∷ ks) =
    let rest = first_unknown is ks in elim (instance_of k is) [ none ↦ some k | some _ ↦ rest ]

-- `inflightOf`: the requests on an engine, and the tokens that a prefill ingests.
unfoldable pub inflight_on : Str → Option DecodeBalancer → ℕ
inflight_on url none = 0
inflight_on url (some b) = elim (node_by_url url b) [
  | none ↦ 0
  | some i ↦ elim (node_at i b.nodes) [ none ↦ 0 | some n ↦ n.inflight ]
]

unfoldable pub ingesting_on : Instance → Option Handoff → ℕ
ingesting_on i none = 0
ingesting_on i (some k) =
    if is_prefill i
    then elim (lookup str_discrete (trim_slashes i.endpoint) k.ingesting) [ none ↦ 0 | some n ↦ n ]
    else 0

unfoldable pub inflight_of : Server → Str → ℕ
inflight_of s key = elim (instance_of key s.instances) [
  | none ↦ 0
  | some i ↦ if is_empty i.endpoint then 0 else inflight_on i.endpoint s.bal + ingesting_on i s.kp
]

unfoldable pub busy : Server → List Str → ℕ
busy s [] = 0
busy s (k ∷ ks) = inflight_of s k + busy s ks

-- `instanceUp`.
unfoldable pub instance_up : (Str → Bool) → Server → Str → Bool
instance_up health s key = elim (instance_of key s.instances) [
  | none ↦ false
  | some i ↦ if is_empty i.endpoint then false else health i.endpoint
]

module _ (trim : Str → Str) where
  -- `dedupe`, with what was seen so far.
  unfoldable pub dedupe_from : List Str → List Str → List Str
  dedupe_from seen [] = []
  dedupe_from seen (k ∷ ks) =
      let key = trim k in
      let skip = is_empty key || contains seen key in
      let rest = dedupe_from (if skip then seen else key ∷ seen) ks in
      if skip then rest else key ∷ rest

  abbrev pub dedupe : List Str → List Str
  dedupe = dedupe_from []

module _ (trim : Str → Str) (rfc3339 : Str → Option ℕ) (clock : Str → ℕ → Option ℕ) where
  -- `parseDeadline`.
  unfoldable pub parse_deadline : Str → ℕ → Option ℕ
  parse_deadline v now =
      if is_empty (trim v) then some (now + train_deadline_default) else elim (rfc3339 (trim v)) [
        | some t ↦ some t
        | none ↦ elim (clock (trim v) now) [
          | none ↦ none
          | some d ↦ some (if ltb now d then d else d + 24 * 3600)
        ]
      ]

  -- `trainBegin` up to the transaction that it opens.
  unfoldable pub begin_tx : BeginRequest → Str → ℕ → Server → Result Answer TrainTx
  begin_tx req origin now s = do
    let job = trim req.job
    let wanted = dedupe trim req.instances
    guard (not (is_empty job)) (refused no_job)
    guard (elim wanted [ [] ↦ false | _ ∷ _ ↦ true ]) (refused no_instances)
    elim (first_unknown s.instances wanted) [
      | none ↦ ok tt
      | some k ↦ err (refused (unknown_instance k))
    ]
    deadline ← elim (parse_deadline req.deadline now) [
      | none ↦ err (refused bad_deadline)
      | some d ↦ ok d
    ]
    elim (lookup str_discrete job s.txs) [ none ↦ ok tt | some _ ↦ err already_open ]
    elim (holder wanted s.txs) [ none ↦ ok tt | some h ↦ err (held_by h.0 h.1) ]
    ok (record {
      job = job;
      node = req.node;
      instances = wanted;
      deadline = deadline;
      started = now;
      origin = origin;
      phase = training;
      alerted = false;
      note = req.note;
    })
