-- ===== src/Update/Guard.antt =====
-- cmd/sofmat/updateguard.go: what the updater writes down so that a bad release is not installed, not
-- fetched again, and not tried for ever. The state lives in a JSON file; encoding/json is read as
-- giving back what it wrote. The counters that the code writes are never negative.
pub mod Refusals
pub mod Attempts
pub mod Blocked
use sofmat.Base.{
  ℕ, suc, ◌+◌, ◌-◌, Bool, true, false, not, ◌&&◌, ◌||◌, List, [], ◌∷◌, Option, none, some, ltb, leb,
  ◌==◌, if◌then◌else◌, Result, ok, err,
}
use sofmat.Base.Assoc.{keys, lookup, insert, delete}
use sofmat.Base.Strings.{Str, str_discrete, is_empty, same, str_le, trim_prefix}

abbrev pub max_attempts_per_version : ℕ
max_attempts_per_version = 3

-- Why a sum is refused.
pub data Refusal : Type 0 where
  digest_differs : Str → Refusal
  declares : Str → Str → Refusal

pub record UpdateState : Type 0 where
  pub refused : List (Str × Refusal)
  pub attempts : List (Str × ℕ)
  pub digests : List (Str × Str)
  pub refused_tags : List (Str × Str)
  pub installed_version : Str
  pub installed_sha : Str
  pub installed_at : Str

abbrev pub no_state : UpdateState
no_state = record {
  refused = [];
  attempts = [];
  digests = [];
  refused_tags = [];
  installed_version = [];
  installed_sha = [];
  installed_at = [];
}

-- The state file: a broken one carries what `json.Unmarshal` left in the state before it failed.
pub data File : Type 0 where
  missing : File
  broken holds : UpdateState → File

-- `path_known`: the program knows where the file belongs. `corrupt` is `stateCorrupt`.
pub record Updater : Type 0 where
  pub path_known : Bool
  pub writable : Bool
  pub file : File
  pub corrupt : Bool

abbrev pub contents : File → UpdateState
contents missing = no_state
contents (broken st) = st
contents (holds st) = st

abbrev pub is_broken : File → Bool
is_broken (broken st) = true
is_broken missing = false
is_broken (holds st) = false

-- `loadUpdateState`: the state, and the mark of a file that cannot be read.
unfoldable pub load_update_state : Updater → UpdateState × Updater
load_update_state u =
    if u.path_known
    then (contents u.file, record u { corrupt = is_broken u.file })
    else (no_state, u)

-- `saveUpdateState`: a temporary file and a rename.
unfoldable pub save_update_state : UpdateState → Updater → Updater
save_update_state st u = if u.path_known && u.writable then record u { file = holds st } else u

-- `m[key]` of a map of strings and of a map of numbers.
abbrev pub text_at : Str → List (Str × Str) → Str
text_at key m = elim (lookup str_discrete key m) [ some s ↦ s | none ↦ [] ]

abbrev pub count_at : Str → List (Str × ℕ) → ℕ
count_at key m = elim (lookup str_discrete key m) [ some n ↦ n | none ↦ 0 ]

-- `noteRefusedTag`.
unfoldable pub note_refused_tag : Str → Str → Updater → Updater
note_refused_tag target digest u =
    if is_empty digest || is_empty target
    then u
    else let (st, u') = load_update_state u in
      save_update_state
        (record st { refused_tags = insert str_discrete target digest st.refused_tags }) u'

-- `alreadyRefused`, asked before a download.
unfoldable pub already_refused : Str → Str → Updater → Bool × Updater
already_refused target digest u =
    if is_empty digest
    then (false, u)
    else let (st, u') = load_update_state u in (same (text_at target st.refused_tags) digest, u')

pub data UpdateError : Type 0 where
  no_sum refused_before digest_mismatch no_version mislabelled attempts_spent : UpdateError

abbrev pub sha256_prefix : Str
sha256_prefix = b's' ∷ b'h' ∷ b'a' ∷ b'2' ∷ b'5' ∷ b'6' ∷ b':' ∷ []

-- The refusal of the sum and of the tag.
abbrev pub refuse : Str → Refusal → Str → Str → UpdateState → Updater → Updater
refuse sum why want digest st u =
    note_refused_tag want digest
      (save_update_state (record st { refused = insert str_discrete sum why st.refused }) u)

-- The last check of `admitArtifact`: the version that the file itself declares.
unfoldable pub admit_declared :
    Str → Option Str → Str → Str → UpdateState → Updater → Result UpdateError (Unit {0}) × Updater
admit_declared sum declared want digest st u = elim declared [
  | none ↦ (err no_version, u)
  | some got ↦
      if same got want
      then (ok tt, u)
      else (err mislabelled, refuse sum (declares want got) want digest st u)
]

-- `admitArtifact`, given the sum of the file and its answer to `version`, which are absent when the
-- file cannot be read or run; `equal_fold` is `strings.EqualFold`.
unfoldable pub admit_artifact :
    (Str → Str → Bool)
    → Option Str
    → Option Str
    → Str
    → Str
    → Updater
    → Result UpdateError (Unit {0}) × Updater
admit_artifact equal_fold sum declared want digest u = elim sum [
  | none ↦ (err no_sum, u)
  | some s ↦
      let (st, u') = load_update_state u in
      let published = trim_prefix sha256_prefix digest in
      elim (lookup str_discrete s st.refused) [
        | some why ↦ (err refused_before, u')
        | none ↦
            if not (is_empty digest) && not (equal_fold published s)
            then (err digest_mismatch, refuse s (digest_differs published) want digest st u')
            else admit_declared s declared want digest st u'
      ]
]

-- The first part of `spendAttempt`: another artifact for the version has a budget of its own.
unfoldable pub renew : Str → Str → UpdateState → UpdateState
renew target digest st =
    if not (is_empty digest) && not (same (text_at target st.digests) digest)
    then record st {
      attempts = insert str_discrete target 0 st.attempts;
      digests = insert str_discrete target digest st.digests;
    }
    else st

-- `spendAttempt`.
unfoldable pub spend_attempt : Str → Str → Updater → Result UpdateError (Unit {0}) × Updater
spend_attempt target digest u =
    let (st, u') = load_update_state u in
    let st' = renew target digest st in
    let n = count_at target st'.attempts + 1 in
    if ltb max_attempts_per_version n then (err attempts_spent, u') else (
      ok tt,
      save_update_state (record st' { attempts = insert str_discrete target n st'.attempts }) u',
    )

-- `refundAttempt`.
unfoldable pub refund_attempt : Str → Updater → Updater
refund_attempt target u =
    let (st, u') = load_update_state u in
    let n = count_at target st.attempts in
    if n == 0
    then u'
    else if n == 1
    then save_update_state (record st { attempts = delete str_discrete target st.attempts }) u'
    else save_update_state (record st { attempts = insert str_discrete target (n - 1) st.attempts })
        u'

-- The loops of `noteInstalled`: the entries of the versions above the one installed.
unfoldable pub above {ℓ} : {V : Type ℓ} → Str → List (Str × V) → List (Str × V)
above version [] = []
above version ((t, v) ∷ m) =
    let rest = above version m in if str_le t version then rest else (t, v) ∷ rest

-- `noteInstalled`, at the time `now`.
unfoldable pub note_installed : Str → Str → Str → Updater → Updater
note_installed version sha now u =
    let (st, u') = load_update_state u in
    save_update_state
      (record st {
        attempts = above version st.attempts;
        digests = above version st.digests;
        refused_tags = above version st.refused_tags;
        installed_version = version;
        installed_sha = sha;
        installed_at = now;
      })
      u'

-- `bootstrapInstalled` of a program that says `version`; `sha` is the sum of its own file.
unfoldable pub bootstrap_installed : Str → Str → Option Str → Str → Updater → Updater
bootstrap_installed dev version sha now u =
    if same version dev || not u.path_known then u else elim sha [
      | none ↦ u
      | some s ↦
          let (st, u') = load_update_state u in
          if u'.corrupt || (same st.installed_version version && same st.installed_sha s)
          then u'
          else note_installed version s now u'
    ]

-- What the panel shows.
pub data Block : Type 0 where
  unreadable : Block
  tried_out refused_tag : Str → Block

-- `sort.Strings`.
unfoldable pub place : Str → List Str → List Str
place k [] = k ∷ []
place k (j ∷ js) = let rest = place k js in if str_le k j then k ∷ j ∷ js else j ∷ rest

unfoldable pub sort_strings : List Str → List Str
sort_strings [] = []
sort_strings (k ∷ ks) = place k (sort_strings ks)

-- The loops of `blockedReason`: the first key that passes a test.
unfoldable pub first : (Str → Bool) → List Str → Option Str
first test [] = none
first test (k ∷ ks) = let rest = first test ks in if test k then some k else rest

-- `target > version` of a version that has no attempt left.
abbrev pub tried : Str → List (Str × ℕ) → Str → Bool
tried version attempts t =
    not (str_le t version) && leb max_attempts_per_version (count_at t attempts)

-- `blockedReason` of a program that says `version`.
unfoldable pub blocked_reason : Str → Updater → Option Block × Updater
blocked_reason version u =
    let (st, u') = load_update_state u in
    let spent = first (tried version st.attempts) (sort_strings (keys st.attempts)) in
    let bad = first (λ t. not (str_le t version)) (sort_strings (keys st.refused_tags)) in
    let reason : Option Block = if u'.corrupt then some unreadable else elim spent [
      | some t ↦ some (tried_out t)
      | none ↦ elim bad [ some t ↦ some (refused_tag t) | none ↦ none ]
    ] in
    (reason, u')
