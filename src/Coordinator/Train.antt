-- ===== src/Coordinator/Train.antt =====
-- internal/coordinator/train.go: the training transactions and the fences that they put around engines.
-- The server's part that matters here: the configured instances, the balancer, the KV handoff, the open
-- transactions and the file that keeps them. Times are numbers of seconds.
pub mod Requests
pub mod Handlers
pub mod Fences
pub mod Apart
pub mod Fencing
pub mod Invariant
pub mod Changes
pub mod Steps
pub mod History
pub mod Restart
mod Tests
use sofmat.Base.{
  ℕ, leb, Bool, true, false, not, ◌&&◌, ◌||◌, List, [], ◌∷◌, map, Option, none, some, if◌then◌else◌,
}
use sofmat.Base.Assoc.{lookup, insert, delete}
use sofmat.Base.Strings.{Str, str_discrete, is_empty, same, after}
use sofmat.Coordinator.Balancer.{DecodeBalancer}
use sofmat.Coordinator.Balancer.Admin.{set_excluded}
use sofmat.Coordinator.Janitor.{contains}

-- `config.Instance`, as far as it is read here.
pub record Instance : Type 0 where
  pub key : Str
  pub role : Str
  pub endpoint : Str

-- `Config.Instance`.
unfoldable pub instance_of : Str → List Instance → Option Instance
instance_of key [] = none
instance_of key (i ∷ is) = let rest = instance_of key is in if same i.key key then some i else rest

pub data Phase : Type 0 where
  training reload : Phase

pub record TrainTx : Type 0 where
  pub job : Str
  pub node : Str
  pub instances : List Str
  pub deadline : ℕ
  pub started : ℕ
  pub origin : Str
  pub phase : Phase
  pub alerted : Bool
  pub note : Str

-- The KV handoff: the flag of `setDisabled`, and the tokens that are being ingested at an address.
pub record Handoff : Type 0 where
  pub disabled : Bool
  pub ingesting : List (Str × ℕ)

-- `saved` is the list in the file, which is `writable` or not.
pub record Server : Type 0 where
  pub instances : List Instance
  pub bal : Option DecodeBalancer
  pub kp : Option Handoff
  pub txs : List (Str × TrainTx)
  pub saved : List TrainTx
  pub writable : Bool

abbrev pub decode_word : Str
decode_word = b'd' ∷ b'e' ∷ b'c' ∷ b'o' ∷ b'd' ∷ b'e' ∷ []

abbrev pub prefill_word : Str
prefill_word = b'p' ∷ b'r' ∷ b'e' ∷ b'f' ∷ b'i' ∷ b'l' ∷ b'l' ∷ []

abbrev pub has_prefix : Str → Str → Bool
has_prefix p s = elim (after p s) [ some _ ↦ true | none ↦ false ]

unfoldable pub is_decode : Instance → Bool
is_decode i = same i.role decode_word || has_prefix decode_word i.key

unfoldable pub is_prefill : Instance → Bool
is_prefill i = same i.key prefill_word || same i.role prefill_word

-- The two effects of `fence`: a decode leaves the balancer or comes back, a prefill the handoff.
unfoldable pub fence_decode : Bool → Instance → Option DecodeBalancer → Option DecodeBalancer
fence_decode on i none = none
fence_decode on i (some b) = some (if is_decode i then (set_excluded i.endpoint on b).1 else b)

unfoldable pub fence_prefill : Bool → Instance → Option Handoff → Option Handoff
fence_prefill on i none = none
fence_prefill on i (some k) = some (if is_prefill i then record k { disabled = on } else k)

-- `fence`.
unfoldable pub fence : Str → Bool → Server → Server
fence key on s = elim (instance_of key s.instances) [
  | none ↦ s
  | some i ↦ record s { bal = fence_decode on i s.bal; kp = fence_prefill on i s.kp }
]

unfoldable pub fence_all : List Str → Bool → Server → Server
fence_all [] on s = s
fence_all (k ∷ ks) on s = fence_all ks on (fence k on s)

-- The transactions, oldest first.
unfoldable pub by_start : TrainTx → List TrainTx → List TrainTx
by_start t [] = t ∷ []
by_start t (u ∷ us) =
    let rest = by_start t us in if leb t.started u.started then t ∷ u ∷ us else u ∷ rest

unfoldable pub oldest_first : List (Str × TrainTx) → List TrainTx
oldest_first [] = []
oldest_first ((_, t) ∷ txs) = by_start t (oldest_first txs)

-- `openTrainTxs`.
abbrev pub open_train_txs : Server → List TrainTx
open_train_txs s = oldest_first s.txs

-- `saveTrainLocked`: a temporary file and a rename.
abbrev pub save_train : Server → Server
save_train s = record s { saved = if s.writable then oldest_first s.txs else s.saved }

-- `loadTrain` of a file that holds a list; another file leaves the transactions as they are.
unfoldable pub load_list : List TrainTx → List (Str × TrainTx) → List (Str × TrainTx)
load_list [] txs = txs
load_list (t ∷ ts) txs =
    load_list ts (if is_empty t.job then txs else insert str_discrete t.job t txs)

unfoldable pub load_train : Option (List TrainTx) → Server → Server
load_train none s = s
load_train (some list) s = record s { txs = load_list list [] }

-- `applyTrainingFences`.
unfoldable pub fence_txs : List TrainTx → Server → Server
fence_txs [] s = s
fence_txs (t ∷ ts) s = fence_txs ts (fence_all t.instances true s)

abbrev pub apply_training_fences : Server → Server
apply_training_fences s = fence_txs (open_train_txs s) s

-- `trainingOf`: the oldest transaction that fences an instance.
unfoldable pub first_holding : Str → List TrainTx → Option TrainTx
first_holding key [] = none
first_holding key (t ∷ ts) =
    let rest = first_holding key ts in if contains t.instances key then some t else rest

abbrev pub training_of : Str → Server → Option TrainTx
training_of key s = first_holding key (open_train_txs s)

-- `closeTrain`.
unfoldable pub close_train : Str → Server → Server
close_train job s = elim (lookup str_discrete job s.txs) [
  | none ↦ s
  | some t ↦
      fence_all t.instances false (save_train (record s { txs = delete str_discrete job s.txs }))
]

-- The end of `trainBegin`'s locked part, and its fences.
unfoldable pub open_train : TrainTx → Server → Server
open_train tx s =
    fence_all tx.instances true
      (save_train (record s { txs = insert str_discrete tx.job tx s.txs }))

-- `trainBegin`: the first instance of an open transaction that is wanted, and the job that holds it.
unfoldable pub wanted_key : List Str → List Str → Option Str
wanted_key want [] = none
wanted_key want (k ∷ ks) = let rest = wanted_key want ks in if contains want k then some k else rest

unfoldable pub holder : List Str → List (Str × TrainTx) → Option (Str × Str)
holder want [] = none
holder want ((_, t) ∷ txs) =
    let rest = holder want txs in
    elim (wanted_key want t.instances) [ some k ↦ some (k, t.job) | none ↦ rest ]
