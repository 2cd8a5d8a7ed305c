-- ===== src/Gguf/SpecTests.antt =====
-- Tests of `weightsBytes` and `ModelSpec` over whole numbers, and the theorem at a concrete input.
use sofmat.Base.{
  ℕ, ◌+◌, ◌*◌, ◌-◌, ◌/◌, ◌≡◌, ◌↔◌, refl, false, List, [], ◌∷◌, Option, none, some, ok, ltb, leb,
  if◌then◌else◌, ◌==◌, ℕ_discrete,
}
use sofmat.Base.Assoc.{lookup}
use sofmat.Base.Int.{pos, pos_part, ◌+ℤ◌}
use sofmat.Base.Strings.{Str, str_discrete, is_empty}
use sofmat.Partitioner.{Floats}
use sofmat.Gguf.{Value, scalar, text, uint32}
use sofmat.Gguf.Int64.{signed, pattern_of, quot}
use sofmat.Gguf.Header.{as_int}
use sofmat.Gguf.Spec.{
  Files, sum_shards, weights_bytes, get, derived_head, head_dim, kv_heads, kv_gb, spec_of,
  architecture, block_count, embedding_length, head_count, head_count_kv,
}
use sofmat.Gguf.Given.{Known, arch, HasHead, HasKvHeads, Gives, spec_of_given}

specs : Unit {0}
unfolding str_discrete ℕ_discrete lookup ◌+ℤ◌ signed pattern_of quot as_int sum_shards weights_bytes
    get derived_head head_dim kv_heads kv_gb spec_of
specs = tt

-- The files of a model in two shards, of 10 and 20 bytes.
abbrev sizes : Str → Option ℕ
sizes [] = none
sizes (n ∷ s) = if n == 1 then some 10 else if n == 2 then some 20 else none

abbrev two_shards : Files
two_shards = record {
  stat = sizes;
  shard_of = λ path. some (b's' ∷ [], b'2' ∷ []);
  folder = λ path. some [];
  scan = λ s. 2;
  shard_name = λ folder stem i s. i ∷ [];
}

abbrev whole : Floats ℕ
whole = record {
  of_int = pos_part;
  trunc = λ x. pos x;
  add = λ x y. x + y;
  sub = λ x y. x - y;
  mul = λ x y. x * y;
  div = λ x y. x / y;
  lt = ltb;
  le = leb;
  same = λ x y. x == y;
  abs = λ x. x;
  infinite = 1000000;
  tolerance = 0;
}

abbrev of_arch : Str → Str
of_arch key = b'q' ∷ b'.' ∷ key

abbrev described_model : List (Str × Value)
described_model =
    (architecture, text (b'q' ∷ []))
    ∷ (of_arch block_count, scalar uint32 4)
    ∷ (of_arch embedding_length, scalar uint32 4096)
    ∷ (of_arch head_count, scalar uint32 32)
    ∷ (of_arch head_count_kv, scalar uint32 0)
    ∷ []

described_spec :
    spec_of whole two_shards [] described_model (pos 100000) (pos 2)
    ≡ ok (record {
      architecture_name = b'q' ∷ [];
      n_layers = pos 4;
      weights_gb = 0;
      kv_cache_gb = 6;
      max_context_trained = pos 0;
    })
unfolding specs
described_spec = refl

spec_of_given_example :
    ((is_empty (arch whole two_shards [] described_model (pos 100000) (pos 2)) ≡ false)
      × Known (get described_model (b'q' ∷ []) block_count)
      × HasHead described_model (b'q' ∷ [])
      × HasKvHeads described_model (b'q' ∷ [])
      × Gives (weights_bytes two_shards []))
    ↔ Gives (spec_of whole two_shards [] described_model (pos 100000) (pos 2))
unfolding specs
spec_of_given_example = spec_of_given whole two_shards [] described_model (pos 100000) (pos 2)
