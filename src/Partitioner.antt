-- ===== src/Partitioner.antt =====
-- internal/partitioner/solver.go: the profiles of the nodes, the model to place and the plans. The
-- arithmetic of float64 is a record of operations without laws, so rounding, infinities and NaN are
-- covered; only the comparison of plans asks for an order.
pub mod Layers
pub mod Plans
pub mod Replicas
pub mod Solve
pub mod Roles
mod Tests
use sofmat.Base.{
  ℕ, zero, suc, Bool, true, false, ◌||◌, List, [], ◌∷◌, map, Option, none, some, if◌then◌else◌,
  Result, ok, err,
}
use sofmat.Base.Int.{ℤ, pos, negsuc, ltb_ℤ}
use sofmat.Base.Strings.{Str}

-- `of_int` is float64(n), `trunc` is int(x), `lt` and `le` are `<` and `<=`.
pub record Floats (F : Type 0) : Type 0 where
  pub of_int : ℤ → F
  pub trunc : F → ℤ
  pub add : F → F → F
  pub sub : F → F → F
  pub mul : F → F → F
  pub div : F → F → F
  pub lt : F → F → Bool
  pub le : F → F → Bool
  pub same : F → F → Bool
  pub abs : F → F
  pub infinite : F
  pub tolerance : F

pub data PartitionError (F : Type 0) : Type 0 where
  no_profile : Str → PartitionError F
  bad_layers bad_slots : ℤ → PartitionError F
  bad_sizes : F → F → F → PartitionError F
  no_nodes : PartitionError F
  too_large : F → F → PartitionError F
  no_map : F → PartitionError F
  no_pool : F → PartitionError F
  bad_lead : F → PartitionError F
  no_role : F → F → PartitionError F
  no_assignment : PartitionError F
  no_assignment_after : PartitionError F → PartitionError F
  draft_slow : Str → F → F → F → PartitionError F

pub record NodeProfile (F : Type 0) : Type 0 where
  pub id : Str
  pub model_mem_cap_gb : F
  pub ms_per_layer : F
  pub mem_bandwidth_gbps : F
  pub absent : Bool

pub record ModelSpec (F : Type 0) : Type 0 where
  pub n_layers : ℤ
  pub weights_gb : F
  pub kv_cache_gb : F
  pub batch_slots : ℤ
  pub prefix_cache_gb : F

pub record Stage (F : Type 0) : Type 0 where
  pub node_id : Str
  pub first_layer : ℕ
  pub layers : ℕ
  pub mem_gb : F
  pub stage_ms : F

pub record PartitionPlan (F : Type 0) : Type 0 where
  pub stages : List (Stage F)
  pub token_ms : F
  pub network_ms : F
  pub network_fraction : F

-- `NodeIDs`.
abbrev pub node_ids : {F : Type 0} → PartitionPlan F → List Str
node_ids p = map (λ s. s.node_id) p.stages

-- `Fallbacks` is a map: a node and the plan without it.
pub record PartitionResult (F : Type 0) : Type 0 where
  pub plan : PartitionPlan F
  pub fallbacks : List (Str × Option (PartitionPlan F))

module _ {F : Type 0} (fl : Floats F) where
  abbrev pub zero_f : F
  zero_f = fl.of_int (pos 0)

  -- `StageMS`.
  unfoldable pub time_of : NodeProfile F → ℤ → F → Result (PartitionError F) F
  time_of n layers gb_per_layer =
      if fl.lt zero_f n.ms_per_layer
      then ok (fl.mul (fl.of_int layers) n.ms_per_layer)
      else if fl.lt zero_f n.mem_bandwidth_gbps
      then ok (
          fl.mul (fl.div (fl.mul (fl.of_int layers) gb_per_layer) n.mem_bandwidth_gbps)
            (fl.of_int (pos 1000)))
      else err (no_profile n.id)

  -- `NewModelSpec`.
  unfoldable pub new_model_spec : ℤ → F → F → ℤ → F → Result (PartitionError F) (ModelSpec F)
  new_model_spec n_layers weights kv slots prefix =
      let batch : ℤ = elim slots [
        | pos zero ↦ pos 1
        | pos (suc s) ↦ pos (suc s)
        | negsuc s ↦ negsuc s
      ] in
      if ltb_ℤ n_layers (pos 1)
      then err (bad_layers n_layers)
      else if ltb_ℤ batch (pos 1)
      then err (bad_slots batch)
      else if fl.le weights zero_f || (fl.lt kv zero_f || fl.lt prefix zero_f)
      then err (bad_sizes weights kv prefix)
      else ok (record {
        n_layers = n_layers;
        weights_gb = weights;
        kv_cache_gb = kv;
        batch_slots = batch;
        prefix_cache_gb = prefix;
      })

  -- `KVTotalGB`, `GBPerLayerTotal`, `GBPerLayerResident`, `TotalGB` and `gbPerLayer`.
  abbrev pub kv_total_gb : ModelSpec F → F
  kv_total_gb m = fl.add (fl.mul m.kv_cache_gb (fl.of_int m.batch_slots)) m.prefix_cache_gb

  abbrev pub gb_per_layer_total : ModelSpec F → F
  gb_per_layer_total m = fl.div (fl.add m.weights_gb m.kv_cache_gb) (fl.of_int m.n_layers)

  abbrev pub gb_per_layer_resident : ModelSpec F → F
  gb_per_layer_resident m = fl.div (fl.add m.weights_gb (kv_total_gb m)) (fl.of_int m.n_layers)

  abbrev pub total_gb : ModelSpec F → F
  total_gb m = fl.add m.weights_gb (kv_total_gb m)

  abbrev pub gb_per_layer : ModelSpec F → F
  gb_per_layer m = fl.div m.weights_gb (fl.of_int m.n_layers)

  -- `sum += n.ModelMemCapGB`, from a sum.
  unfoldable pub caps_from : F → List (NodeProfile F) → F
  caps_from acc [] = acc
  caps_from acc (n ∷ ns) = caps_from (fl.add acc n.model_mem_cap_gb) ns

  -- `fits`.
  abbrev pub pool_fits : List (NodeProfile F) → ModelSpec F → Bool
  pool_fits nodes m = fl.le (total_gb m) (caps_from zero_f nodes)
