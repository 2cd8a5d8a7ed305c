-- ===== src/Gguf/Spec.antt =====
-- internal/gguf/gguf.go: `weightsBytes` and `ModelSpec`. What the file system, the shards' expression and
-- the printing of their names say are parameters, and so are the floats, as in the partitioner.
use sofmat.Base.{
  ℕ, zero, suc, Bool, true, false, not, List, [], ◌∷◌, ◌++◌, Option, none, some, if◌then◌else◌,
  Result, ok, err, ◌>>=◌, ◌>>◌, guard,
}
use sofmat.Base.Assoc.{lookup}
use sofmat.Base.Int.{ℤ, pos, ◌+ℤ◌}
use sofmat.Base.Strings.{Str, str_discrete, is_empty}
use sofmat.Partitioner.{Floats}
use sofmat.Gguf.{Value, text, Failure}
use sofmat.Gguf.Int64.{wrap, quot}
use sofmat.Gguf.Header.{as_int, read_metadata_of}

-- `shard_of` is the base of a path against the expression of a shard: its stem and its number of shards.
pub record Files : Type 0 where
  pub stat : Str → Option ℕ
  pub shard_of : Str → Option (Str × Str)
  pub folder : Str → Option Str
  pub scan : Str → ℕ
  pub shard_name : Str → Str → ℕ → Str → Str

pub data SpecFailure : Type 0 where
  bad_header : Failure → SpecFailure
  no_architecture no_head_dim no_file : SpecFailure
  missing : Str → SpecFailure
  no_shard : Str → SpecFailure

abbrev pub required : {A : Type 0} → SpecFailure → Option A → Result SpecFailure A
required e (some a) = ok a
required e none = err e

module _ (fs : Files) where
  -- The loop over the shards from `i` on, of which `n` are left.
  unfoldable pub sum_shards : (ℕ → Str) → ℕ → ℕ → ℤ → Result SpecFailure ℤ
  sum_shards name i zero total = ok total
  sum_shards name i (suc n) total = elim (fs.stat (name i)) [
    | none ↦ err (no_shard (name i))
    | some size ↦ sum_shards name (suc i) n (wrap (total +ℤ pos size))
  ]

  -- `weightsBytes`.
  unfoldable pub weights_bytes : Str → Result SpecFailure ℤ
  weights_bytes path = elim (fs.shard_of path) [
    | none ↦ do size ← required no_file (fs.stat path); ok (pos size)
    | some (stem, shards) ↦ do
      folder ← required no_file (fs.folder path)
      sum_shards (λ i. fs.shard_name folder stem i shards) 1 (fs.scan shards) (pos 0)
  ]

abbrev pub architecture : Str
architecture =
    b'g' ∷ b'e' ∷ b'n' ∷ b'e' ∷ b'r' ∷ b'a' ∷ b'l' ∷ b'.' ∷ b'a' ∷ b'r' ∷ b'c' ∷ b'h' ∷ b'i' ∷ b't'
    ∷ b'e' ∷ b'c' ∷ b't' ∷ b'u' ∷ b'r' ∷ b'e' ∷ []

abbrev pub block_count : Str
block_count = b'b' ∷ b'l' ∷ b'o' ∷ b'c' ∷ b'k' ∷ b'_' ∷ b'c' ∷ b'o' ∷ b'u' ∷ b'n' ∷ b't' ∷ []

abbrev pub key_length : Str
key_length =
    b'a' ∷ b't' ∷ b't' ∷ b'e' ∷ b'n' ∷ b't' ∷ b'i' ∷ b'o' ∷ b'n' ∷ b'.' ∷ b'k' ∷ b'e' ∷ b'y' ∷ b'_'
    ∷ b'l' ∷ b'e' ∷ b'n' ∷ b'g' ∷ b't' ∷ b'h' ∷ []

abbrev pub embedding_length : Str
embedding_length =
    b'e' ∷ b'm' ∷ b'b' ∷ b'e' ∷ b'd' ∷ b'd' ∷ b'i' ∷ b'n' ∷ b'g' ∷ b'_' ∷ b'l' ∷ b'e' ∷ b'n' ∷ b'g'
    ∷ b't' ∷ b'h' ∷ []

abbrev pub head_count : Str
head_count =
    b'a' ∷ b't' ∷ b't' ∷ b'e' ∷ b'n' ∷ b't' ∷ b'i' ∷ b'o' ∷ b'n' ∷ b'.' ∷ b'h' ∷ b'e' ∷ b'a' ∷ b'd'
    ∷ b'_' ∷ b'c' ∷ b'o' ∷ b'u' ∷ b'n' ∷ b't' ∷ []

abbrev pub head_count_kv : Str
head_count_kv =
    b'a' ∷ b't' ∷ b't' ∷ b'e' ∷ b'n' ∷ b't' ∷ b'i' ∷ b'o' ∷ b'n' ∷ b'.' ∷ b'h' ∷ b'e' ∷ b'a' ∷ b'd'
    ∷ b'_' ∷ b'c' ∷ b'o' ∷ b'u' ∷ b'n' ∷ b't' ∷ b'_' ∷ b'k' ∷ b'v' ∷ []

abbrev pub context_length : Str
context_length =
    b'c' ∷ b'o' ∷ b'n' ∷ b't' ∷ b'e' ∷ b'x' ∷ b't' ∷ b'_' ∷ b'l' ∷ b'e' ∷ b'n' ∷ b'g' ∷ b't' ∷ b'h'
    ∷ []

-- The text under a key, or the empty one.
abbrev pub text_of : Option Value → Str
text_of (some (text s)) = s
text_of _ = []

-- `get`.
unfoldable pub get : List (Str × Value) → Str → Str → Option ℤ
get meta arch key = elim (lookup str_discrete (arch ++ (b'.' ∷ key)) meta) [
  | none ↦ none
  | some v ↦ some (as_int (some v) (pos 0))
]

abbrev pub is_zero_int : ℤ → Bool
is_zero_int (pos zero) = true
is_zero_int _ = false

-- The length of a head by the other keys.
unfoldable pub derived_head : List (Str × Value) → Str → Result SpecFailure ℤ
derived_head meta arch = elim (get meta arch embedding_length) [
  | none ↦ err no_head_dim
  | some embed ↦ elim (get meta arch head_count) [
    | none ↦ err no_head_dim
    | some heads ↦ if is_zero_int heads then err no_head_dim else ok (wrap (quot embed heads))
  ]
]

unfoldable pub head_dim : List (Str × Value) → Str → Result SpecFailure ℤ
head_dim meta arch = elim (get meta arch key_length) [
  | some n ↦ ok n
  | none ↦ derived_head meta arch
]

unfoldable pub kv_heads : List (Str × Value) → Str → Result SpecFailure ℤ
kv_heads meta arch = elim (get meta arch head_count_kv) [
  | none ↦ required (missing head_count) (get meta arch head_count)
  | some n ↦
      if is_zero_int n then required (missing head_count) (get meta arch head_count) else ok n
]

abbrev pub or_zero : Option ℤ → ℤ
or_zero (some n) = n
or_zero none = pos 0

pub record Spec (F : Type 0) : Type 0 where
  pub architecture_name : Str
  pub n_layers : ℤ
  pub weights_gb : F
  pub kv_cache_gb : F
  pub max_context_trained : ℤ

module _ {F : Type 0} (fl : Floats F) where
  -- `1e9`.
  abbrev pub giga : F
  giga = fl.of_int (pos 1000000000)

  unfoldable pub kv_gb : ℤ → ℤ → ℤ → ℤ → ℤ → F
  kv_gb layers heads dim kv_bytes max_context =
      let times = λ (a : F) (n : ℤ). fl.mul a (fl.of_int n) in
      fl.div
        (times (times (times (times (times (fl.of_int layers) (pos 2)) heads) dim) kv_bytes)
          max_context)
        giga

  -- The part of `ModelSpec` behind `ReadMetadata`.
  unfoldable pub spec_of : Files → Str → List (Str × Value) → ℤ → ℤ → Result SpecFailure (Spec F)
  spec_of fs path meta max_context kv_bytes =
      let arch = text_of (lookup str_discrete architecture meta) in
      do
        guard (not (is_empty arch)) no_architecture
        layers ← required (missing block_count) (get meta arch block_count)
        dim ← head_dim meta arch
        heads ← kv_heads meta arch
        bytes ← weights_bytes fs path
        ok (record {
          architecture_name = arch;
          n_layers = layers;
          weights_gb = fl.div (fl.of_int bytes) giga;
          kv_cache_gb = kv_gb layers heads dim kv_bytes max_context;
          max_context_trained = or_zero (get meta arch context_length);
        })

  -- `ModelSpec`.
  unfoldable pub model_spec : Files → ℕ → Str → Str → ℤ → ℤ → Result SpecFailure (Spec F)
  model_spec fs max_alloc path file max_context kv_bytes = elim (read_metadata_of max_alloc file) [
    | ok meta ↦ spec_of fs path meta max_context kv_bytes
    | err e ↦ err (bad_header e)
  ]
