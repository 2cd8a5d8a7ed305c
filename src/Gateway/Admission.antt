-- ===== src/Gateway/Admission.antt =====
-- internal/gateway/admission.go and admit.go: where the prompt work of a request runs. Go's `int` is an
-- integer here: the counts of tokens come nowhere near 2 ^ 63.
pub mod Routes
use sofmat.Base.{
  ℕ, ◌+◌, ◌/◌, ◌≤◌, Bool, true, false, not, ◌&&◌, if◌then◌else◌, ◌==◌, List, Option, none, some,
  length,
}
use sofmat.Base.Int.{ℤ, pos, negsuc, ◌+ℤ◌, ◌-ℤ◌, ltb_ℤ, leb_ℤ}

abbrev pub prefill_threshold_tokens : ℤ
prefill_threshold_tokens = pos 6144

abbrev pub prefill_exact_min_tokens : ℤ
prefill_exact_min_tokens = pos 8192

abbrev pub chars_per_token : ℕ
chars_per_token = 4

pub data Route : Type 0 where
  decode prefill : Route

pub data Reason : Type 0 where
  prefill_unavailable large_new_prefill prefix_hot small_new_decode : Reason

pub record AdmissionDecision : Type 0 where
  pub route : Route
  pub reason : Reason
  pub est_new_tokens : ℤ

pub record AdmissionInput : Type 0 where
  pub prefix_tokens : ℤ
  pub tail_tokens : ℤ
  pub hot_prefix_tokens : ℤ
  pub resident_tokens : ℤ
  pub threshold : ℤ
  pub prefill_available : Bool

-- `EstimateTokens`, over the characters of the text; the tokenizer is optional.
unfoldable pub estimate_tokens : List ℕ → Option (List ℕ → ℤ) → ℤ
estimate_tokens text tok = if length text == 0 then pos 0 else elim tok [
  | some f ↦ if ltb_ℤ (f text) (pos 0) then pos 0 else f text
  | none ↦ pos (length text / chars_per_token)
]

abbrev pub clamp : ℤ → ℤ
clamp n = if ltb_ℤ n (pos 0) then pos 0 else n

abbrev is_zero : ℤ → Bool
is_zero (pos n) = n == 0
is_zero (negsuc n) = false

-- The threshold in force.
unfoldable pub threshold_of : AdmissionInput → ℤ
threshold_of i = if is_zero i.threshold then prefill_threshold_tokens else i.threshold

-- The tokens that the slot does not hold.
unfoldable pub new_tokens : AdmissionInput → ℤ
new_tokens i =
    if ltb_ℤ (pos 0) i.resident_tokens
    then clamp (i.prefix_tokens +ℤ i.tail_tokens -ℤ i.resident_tokens)
    else clamp (i.prefix_tokens -ℤ i.hot_prefix_tokens) +ℤ i.tail_tokens

-- `ClassifyAdmission`.
unfoldable pub classify_admission : AdmissionInput → AdmissionDecision
classify_admission i =
    let n = new_tokens i in
    if not i.prefill_available
    then record { route = decode; reason = prefill_unavailable; est_new_tokens = n }
    else if leb_ℤ (threshold_of i) n
    then record { route = prefill; reason = large_new_prefill; est_new_tokens = n }
    else if ltb_ℤ (pos 0) i.hot_prefix_tokens
        && leb_ℤ i.prefix_tokens (i.hot_prefix_tokens +ℤ threshold_of i)
    then record { route = decode; reason = prefix_hot; est_new_tokens = n }
    else record { route = decode; reason = small_new_decode; est_new_tokens = n }

pub data Decision : Type 0 where
  decode_direct prefill_then_handoff : Decision

-- The input that `Admit` builds.
abbrev pub admit_input : ℤ → Bool → AdmissionInput
admit_input est_new_prefill_tokens prefix_is_hot = record {
  prefix_tokens = pos 0;
  tail_tokens = est_new_prefill_tokens;
  hot_prefix_tokens = if prefix_is_hot then pos 1 else pos 0;
  resident_tokens = pos 0;
  threshold = pos 0;
  prefill_available = true;
}

-- `Admit`.
unfoldable pub admit : ℤ → Bool → Decision
admit est_new_prefill_tokens prefix_is_hot =
    elim (classify_admission (admit_input est_new_prefill_tokens prefix_is_hot)).route [
      | prefill ↦ prefill_then_handoff
      | decode ↦ decode_direct
    ]
