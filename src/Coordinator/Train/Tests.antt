-- ===== src/Coordinator/Train/Tests.antt =====
-- Tests of the training transactions, and their theorems at concrete inputs.
use sofmat.Base.{
  ℕ, ◌≡◌, ◌≢◌, ℕ_discrete, refl, sym, subst, map, ◌∙◌, Bool, true, false, List, [], ◌∷◌, Option,
  none, some, Bool-cases, ◌⊎◌, inl, inr,
}
use sofmat.Base.Assoc.{lookup, insert, delete}
use sofmat.Base.Int.{pos}
use sofmat.Base.Strings.{Str, str_discrete, same, after}
use sofmat.Coordinator.Balancer.Admin.{trim_slashes}
use sofmat.Update.Guard.Refusals.{eq_of_same}
use sofmat.Coordinator.Janitor.{all_true}
use sofmat.Coordinator.Train.{
  Instance, Server, TrainTx, instance_of, is_decode, is_prefill, decode_word, prefill_word,
  training, fence_decode, fence_prefill, fence, fence_all, by_start, oldest_first, load_list,
  load_train, fence_txs, apply_training_fences, close_train, open_train, wanted_key, holder,
}
use sofmat.Coordinator.Janitor.{contains}
use sofmat.Coordinator.Train.Requests.{
  BeginRequest, begin_tx, dedupe_from, parse_deadline, first_unknown, clamp_seconds, busy,
  inflight_of, inflight_on, ingesting_on,
}
use sofmat.Coordinator.Train.Handlers.{train_begin, train_end, wait_drained}
use sofmat.Coordinator.Train.Apart.{Apart, IsFenced, clash}
use sofmat.Coordinator.Train.Invariant.{IsServer}
use sofmat.Coordinator.Train.Changes.{close_train-IsServer}
use sofmat.Coordinator.Train.Steps.{Keeps}
use sofmat.Coordinator.Train.History.{Event, begin, step, run, run-IsServer}
use sofmat.Coordinator.Train.Restart.{restart-IsFenced, close_train-lifts, handoff_open}

traintest : Unit {0}
unfolding begin_tx ℕ_discrete after inflight_on ingesting_on lookup insert delete str_discrete
    instance_of is_decode is_prefill trim_slashes fence_decode fence_prefill fence fence_all
    by_start oldest_first load_list load_train fence_txs close_train open_train wanted_key holder
    contains dedupe_from parse_deadline first_unknown clamp_seconds busy inflight_of train_begin
    train_end wait_drained step run all_true
traintest = tt

abbrev solo_word : Str
solo_word = b's' ∷ []

abbrev instance_at : Str → Str → Instance
instance_at key role = record { key = key; role = role; endpoint = key }

abbrev decode_one : Instance
decode_one = instance_at decode_word decode_word

abbrev prefill_one : Instance
prefill_one = instance_at prefill_word prefill_word

one_instance : (x y : Instance) → ◌≡◌ {A = Option Instance} (some x) (some y) → x ≡ y
one_instance x y e = cc

abbrev config : List Instance
config = decode_one ∷ prefill_one ∷ []

abbrev fresh : Server
fresh = record {
  instances = config;
  bal = none;
  kp = some (record { disabled = false; ingesting = [] });
  txs = [];
  saved = [];
  writable = true;
}

abbrev ask : Str → List Str → BeginRequest
ask job keys = record {
  job = job;
  node = [];
  instances = keys;
  deadline = [];
  drain_s = pos 0;
  stop = false;
  note = [];
}

abbrev same_text : Str → Str
same_text s = s

abbrev no_layout : Str → Option ℕ
no_layout s = none

abbrev no_clock : Str → ℕ → Option ℕ
no_clock s n = none

abbrev two : ℕ → ℕ
two n = 2

abbrev nothing_raised : Str → Bool
nothing_raised s = false

abbrev all_up : ℕ → Str → Bool
all_up r s = true

-- While a handler waits, another one ends the job `s`.
abbrev ends_s : ℕ → Server → Server
ends_s r = close_train solo_word

ends_s-Keeps : Keeps ends_s
ends_s-Keeps r s h = close_train-IsServer solo_word s h

there :
    (k : Str) (x i : Instance) (is : List Instance)
    → instance_of k (x ∷ is) ≡ some i
    → ((k ≡ x.key) × (x ≡ i)) ⊎ (instance_of k is ≡ some i)
unfolding instance_of
there k x i is h = elim (Bool-cases (same x.key k)) [
  | inl here ↦ inl (sym (eq_of_same x.key k here), one_instance x i (rw here at h))
  | inr later ↦ inr (rw later at h)
]

one_of_two :
    (k : Str) (i : Instance)
    → instance_of k config ≡ some i
    → ((k ≡ decode_word) × (decode_one ≡ i)) ⊎ ((k ≡ prefill_word) × (prefill_one ≡ i))
unfolding instance_of
one_of_two k i h = elim (there k decode_one i (prefill_one ∷ []) h) [
  | inl first ↦ inl first
  | inr rest ↦ elim (there k prefill_one i [] rest) [ inl second ↦ inr second | inr nowhere ↦ cc ]
]

apart_one_way : clash decode_one prefill_one ≡ false
unfolding traintest
apart_one_way = refl

apart_other_way : clash prefill_one decode_one ≡ false
unfolding traintest
apart_other_way = refl

config-Apart : Apart config
config-Apart k l i j n hk hl = elim (one_of_two k i hk) [
  | inl (ek, ei) ↦ elim (one_of_two l j hl) [
    | inl (el, ej) ↦ absurd (n (ek ∙ sym el))
    | inr (el, ej) ↦
        subst (λ x. clash x j ≡ false) ei (subst (λ y. clash decode_one y ≡ false) ej apart_one_way)
  ]
  | inr (ek, ei) ↦ elim (one_of_two l j hl) [
    | inl (el, ej) ↦
        subst (λ x. clash x j ≡ false) ei
          (subst (λ y. clash prefill_one y ≡ false) ej apart_other_way)
    | inr (el, ej) ↦ absurd (n (ek ∙ sym el))
  ]
]

nothing_open :
    (j : Str) (t : TrainTx) → ◌≢◌ {A = Option TrainTx} (lookup str_discrete j []) (some t)
unfolding lookup
nothing_open j t h = cc

fresh-IsServer : IsServer fresh
fresh-IsServer = (
  config-Apart,
  tt,
  λ j l t u k h. absurd (nothing_open j t h),
  λ j t k h. absurd (nothing_open j t h),
)

-- A job takes both engines; another one that wants one of them is refused; the first one ends.
abbrev history : List Event
history =
    begin [] 10 (some (ask prefill_word (decode_word ∷ prefill_word ∷ [])))
    ∷ begin [] 20 (some (ask decode_word (decode_word ∷ [])))
    ∷ []

abbrev after_history : Server
after_history = run same_text no_layout no_clock two nothing_raised [] ends_s all_up history fresh

run-IsServer_example : IsServer after_history
run-IsServer_example =
    run-IsServer same_text no_layout no_clock two nothing_raised [] ends_s all_up history fresh
      ends_s-Keeps fresh-IsServer

one_open : map (λ e. e.0) after_history.txs ≡ prefill_word ∷ []
unfolding traintest
one_open = refl

abbrev held : TrainTx
held = record {
  job = solo_word;
  node = [];
  instances = prefill_word ∷ [];
  deadline = 9;
  started = 1;
  origin = [];
  phase = training;
  alerted = false;
  note = [];
}

abbrev loaded : Server
loaded = apply_training_fences (load_train (some (held ∷ [])) fresh)

restart-IsFenced_example :
    (lookup str_discrete solo_word loaded.txs ≡ some held) × IsFenced loaded prefill_word
unfolding traintest
restart-IsFenced_example =
    restart-IsFenced (held ∷ []) fresh held prefill_word refl (inl (refl, tt)) refl

close_train-lifts_example : handoff_open (close_train solo_word loaded).kp ≡ true
unfolding traintest
close_train-lifts_example =
    close_train-lifts solo_word prefill_word held prefill_one loaded refl refl refl refl
