-- ===== src/Gguf/Shards.antt =====
-- internal/gguf/gguf.go: the weights of a model in shards are the sum of their sizes.
use native.Mathlib.Nat.{zero-add}
use sofmat.Base.{
  ℕ, zero, suc, ◌+◌, ◌^◌, ◌<◌, ◌≤◌, ◌≡◌, ◌≢◌, refl, ap, subst, ℕ_discrete, Option, none, some,
  Option-cases, inl, inr, ok, err, arith,
}
use sofmat.Base.Int.{ℤ, pos, ◌+ℤ◌}
use sofmat.Base.Strings.{Str}
use sofmat.Gguf.Align.{wrap_small, add_pos}
use sofmat.Gguf.Int64.{wrap}
use sofmat.Gguf.Spec.{Files, no_shard, sum_shards, weights_bytes}

abbrev and_add : Option ℕ → Option ℕ → Option ℕ
and_add (some a) (some b) = some (a + b)
and_add _ _ = none

-- The sum of `n` sizes from `i` on, when all are known.
abbrev pub total_from : (ℕ → Option ℕ) → ℕ → ℕ → Option ℕ
total_from size i zero = some 0
total_from size i (suc n) = and_add (size i) (total_from size (suc i) n)

some_eq : {A : Type 0} {a b : A} → some a ≡ some b → a ≡ b
some_eq h = cc

rest_none : (o p : Option ℕ) (a : ℕ) → o ≡ some a → and_add o p ≡ none → p ≡ none
rest_none o none a h k = refl
rest_none (some b) (some c) a h k = cc
rest_none none (some c) a h k = cc

from_here :
    (P : ℕ → Type 0) (i k : ℕ)
    → P i
    → ((j : ℕ) → suc i ≤ j → j < k → P j)
    → (j : ℕ) → i ≤ j
    → j < k
    → P j
from_here P i k here later j le lt = elim (ℕ_discrete i j) [
  | yes e ↦ subst P e here
  | no ne ↦ later j (omega (arith, le, ne)) lt
]

-- A sum that is known has known parts.
and_add_known :
    (a b : Option ℕ) (total : ℕ)
    → and_add a b ≡ some total
    → (m : ℕ) × (n : ℕ) × (a ≡ some m) × (b ≡ some n) × (m + n ≡ total)
and_add_known none b total h = cc
and_add_known (some m) none total h = cc
and_add_known (some m) (some n) total h = (m, n, refl, refl, cc)

module _ (fs : Files) (name : ℕ → Str) where
  abbrev pub stats : ℕ → Option ℕ
  stats k = fs.stat (name k)

  sum_shards-total :
      (i n before total : ℕ)
      → total_from stats i n ≡ some total
      → before + total < 2 ^ 63
      → sum_shards fs name i n (pos before) ≡ ok (pos (before + total))
  unfolding sum_shards
  sum_shards-total i zero before total h small = ap (λ t. ok (pos t)) (omega (arith, some_eq h))
  sum_shards-total i (suc n) before total h small =
      let (a, b, here, later, sum) = and_add_known _ _ total h in
      rw
        (
          here,
          sum_shards,
          add_pos before a,
          wrap_small (before + a) (omega (arith, small, sum)),
          sum_shards-total (suc i) n (before + a) b later (omega (arith, small, sum)),
        )
        (ap (λ t. ok (pos t)) (omega (arith, sum)))

  -- A shard without a size, among `n` from `i` on, with those before it known.
  abbrev pub FirstMissing : ℕ → ℕ → ℕ → Type 0
  FirstMissing i n k =
      (i ≤ k) × (k < i + n) × (stats k ≡ none) × ((j : ℕ) → i ≤ j → j < k → stats j ≢ none)

  sum_shards-missing :
      (i n : ℕ) (before : ℤ)
      → total_from stats i n ≡ none
      → (k : ℕ) × FirstMissing i n k × (sum_shards fs name i n before ≡ err (no_shard (name k)))
  unfolding sum_shards
  sum_shards-missing i zero before h = cc
  sum_shards-missing i (suc n) before h = elim (Option-cases (stats i)) [
    | inl gone ↦ (
      i,
      (omega arith, omega arith, gone, λ j le lt. absurd (omega (arith, le, lt))),
      rw (gone, sum_shards) refl,
    )
    | inr (a, here) ↦
        let (k, (low, high, gone, known), e) =
          sum_shards-missing (suc i) n (wrap (before +ℤ pos a)) (rest_none (stats i) _ a here h) in
        (
          k,
          (
            omega (arith, low),
            omega (arith, high),
            gone,
            from_here (λ j. stats j ≢ none) i k (λ no_size. cc) known,
          ),
          rw (here, sum_shards) e,
        )
  ]

module _ (fs : Files) (path stem shards folder : Str)
    (split : fs.shard_of path ≡ some (stem, shards))
    (folder_known : fs.folder path ≡ some folder) where
  abbrev pub shard : ℕ → Str
  shard i = fs.shard_name folder stem i shards

  -- For a path of a model in shards: when each shard, from the first to the last, has a size, the bytes of
  -- the weights are the sum of the sizes, if that is an int64.
  pub weights_bytes-total :
      (total : ℕ)
      → total_from (stats fs shard) 1 (fs.scan shards) ≡ some total
      → total < 2 ^ 63
      → weights_bytes fs path ≡ ok (pos total)
  unfolding weights_bytes
  weights_bytes-total total h small =
      let sum = sum_shards-total fs shard 1 (fs.scan shards) 0 total h (omega (arith, small)) in
      rw (split, weights_bytes, folder_known) (rw zero-add at sum)

  -- When a shard has no size, the error names the first such shard.
  pub weights_bytes-missing :
      total_from (stats fs shard) 1 (fs.scan shards) ≡ none
      → (k : ℕ) × FirstMissing fs shard 1 (fs.scan shards) k
        × (weights_bytes fs path ≡ err (no_shard (shard k)))
  unfolding weights_bytes
  weights_bytes-missing h =
      let (k, first, e) = sum_shards-missing fs shard 1 (fs.scan shards) (pos 0) h in
      (k, first, rw (split, weights_bytes, folder_known) e)
