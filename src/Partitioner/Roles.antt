-- ===== src/Partitioner/Roles.antt =====
-- internal/partitioner/solver.go: `SolveRoles`. A reservation names the node of each role that is
-- demanded.
pub mod Isolation
use sofmat.Base.{
  ℕ, zero, suc, ◌+◌, Bool, true, false, not, ◌&&◌, ◌||◌, List, [], ◌∷◌, ◌++◌, map, length, Option,
  none, some, if◌then◌else◌, Result, ok, err, ltb, ◌==◌, ◌>>=◌, ◌>>◌, guard,
}
use sofmat.Base.Int.{ℤ, pos, negsuc}
use sofmat.Base.Strings.{Str, same, is_empty}
use sofmat.Coordinator.Janitor.{contains}
use sofmat.Partitioner.{
  Floats, PartitionError, no_profile, no_nodes, bad_lead, no_role, no_assignment,
  no_assignment_after, draft_slow, NodeProfile, ModelSpec, PartitionResult, total_gb, zero_f,
  gb_per_layer_total, node_ids, time_of,
}
use sofmat.Partitioner.Plans.{present_sorted}
use sofmat.Partitioner.Solve.{solve}

pub record RoleDemand (F : Type 0) : Type 0 where
  pub prefill_model : Option (ModelSpec F)
  pub draft_model : Option (ModelSpec F)
  pub draft_lead_factor : F

pub record RolePlan (F : Type 0) : Type 0 where
  pub decode : PartitionResult F
  pub prefill_node_id : Str
  pub draft_node_id : Str
  pub draft_ms : F
  pub idle_node_ids : List Str

-- `reservation`: an empty id for a role that is not demanded.
pub record Reservation : Type 0 where
  pub prefill : Str
  pub draft : Str

pub record Scored (F : Type 0) : Type 0 where
  pub token_ms : F
  pub n_reserved : ℕ
  pub prefill_ms : F
  pub plan : RolePlan F

-- `byID`: the last node of an id.
unfoldable pub node_by_id : {F : Type 0} → Str → List (NodeProfile F) → Option (NodeProfile F)
node_by_id id [] = none
node_by_id id (n ∷ ns) = elim (node_by_id id ns) [
  | some m ↦ some m
  | none ↦ if same n.id id then some n else none
]

abbrev pub add_id : Str → List Str → List Str
add_id id ids = if is_empty id || contains ids id then ids else id ∷ ids

-- The set `reserved`.
abbrev pub reserved : Reservation → List Str
reserved r = add_id r.draft (add_id r.prefill [])

-- The nodes whose id is not in a list, and their ids.
unfoldable pub unused : {F : Type 0} → List Str → List (NodeProfile F) → List (NodeProfile F)
unused ids [] = []
unused ids (n ∷ ns) = let rest = unused ids ns in if contains ids n.id then rest else n ∷ rest

abbrev pub idle_of : {F : Type 0} → List Str → List (NodeProfile F) → List Str
idle_of ids ns = map (λ n. n.id) (unused ids ns)

module _ {F : Type 0} (fl : Floats F) where
  -- `leadFactor`.
  abbrev pub lead_factor : RoleDemand F → F
  lead_factor d =
      if fl.same d.draft_lead_factor (zero_f fl) then fl.of_int (pos 2) else d.draft_lead_factor

  -- `residentMS`.
  abbrev pub resident_ms : NodeProfile F → ModelSpec F → Result (PartitionError F) F
  resident_ms n m = time_of fl n m.n_layers (gb_per_layer_total fl m)

  -- `fitsRoles`.
  unfoldable pub sum_gb : F → List (ModelSpec F) → F
  sum_gb acc [] = acc
  sum_gb acc (m ∷ ms) = sum_gb (fl.add acc (total_gb fl m)) ms

  abbrev pub fits_roles : NodeProfile F → List (ModelSpec F) → Bool
  fits_roles n ms = fl.le (sum_gb (zero_f fl) ms) n.model_mem_cap_gb

  -- The loops over the nodes that are present.
  unfoldable pub one_node :
      List (ModelSpec F) → (Str → Reservation) → List (NodeProfile F) → List Reservation
  one_node ms make [] = []
  one_node ms make (n ∷ ns) =
      let rest = one_node ms make ns in if fits_roles n ms then make n.id ∷ rest else rest

  unfoldable pub draft_for :
      ModelSpec F → ModelSpec F → NodeProfile F → List (NodeProfile F) → List Reservation
  draft_for pm dm p [] = []
  draft_for pm dm p (d ∷ ds) =
      let rest = draft_for pm dm p ds in
      if not (same p.id d.id) && (fits_roles p (pm ∷ []) && fits_roles d (dm ∷ []))
      then record { prefill = p.id; draft = d.id } ∷ rest
      else rest

  unfoldable pub two_nodes :
      ModelSpec F → ModelSpec F → List (NodeProfile F) → List (NodeProfile F) → List Reservation
  two_nodes pm dm [] ds = []
  two_nodes pm dm (p ∷ ps) ds = draft_for pm dm p ds ++ two_nodes pm dm ps ds

  -- `reservations`, where some role is demanded.
  unfoldable pub reservations : RoleDemand F → List (NodeProfile F) → List Reservation
  reservations d present = elim d.prefill_model [
    | some pm ↦ elim d.draft_model [
      | some dm ↦
          one_node (pm ∷ dm ∷ []) (λ id. record { prefill = id; draft = id }) present
          ++ two_nodes pm dm present present
      | none ↦ one_node (pm ∷ []) (λ id. record { prefill = id; draft = [] }) present
    ]
    | none ↦ elim d.draft_model [
      | some dm ↦ one_node (dm ∷ []) (λ id. record { prefill = []; draft = id }) present
      | none ↦ []
    ]
  ]

  -- The time of a role on the node that is reserved for it. A key that is not in `byID` gives the node
  -- with no profile.
  unfoldable pub role_ms :
      Str → Option (ModelSpec F) → List (NodeProfile F) → Result (PartitionError F) F
  role_ms id none present = ok (zero_f fl)
  role_ms id (some m) present =
      if is_empty id
      then ok (zero_f fl)
      else elim (node_by_id id present) [ none ↦ err (no_profile []) | some n ↦ resident_ms n m ]

  -- The draft keeps ahead of the decode.
  abbrev pub draft_leads : RoleDemand F → Reservation → F → F → Result (PartitionError F) (Unit {0})
  draft_leads d r draft token =
      guard (is_empty r.draft || not (fl.lt token (fl.mul draft (lead_factor d))))
        (draft_slow r.draft draft (lead_factor d) token)

  -- One turn of the loop over the reservations, up to the comparison.
  unfoldable pub candidate :
      F
      → F
      → ModelSpec F
      → Option F
      → RoleDemand F
      → List (NodeProfile F)
      → Reservation
      → Result (PartitionError F) (Scored F)
  candidate overhead budget model usable d present r = do
    decode ← solve fl overhead budget model usable true (unused (reserved r) present)
    draft ← role_ms r.draft d.draft_model present
    draft_leads d r draft decode.plan.token_ms
    prefill ← role_ms r.prefill d.prefill_model present
    ok (record {
      token_ms = decode.plan.token_ms;
      n_reserved = length (reserved r);
      prefill_ms = prefill;
      plan = record {
        decode = decode;
        prefill_node_id = r.prefill;
        draft_node_id = r.draft;
        draft_ms = draft;
        idle_node_ids = idle_of (node_ids decode.plan ++ reserved r) present;
      };
    })

  -- A faster decode, then fewer reserved nodes, then a faster prefill.
  abbrev pub wins : Scored F → Scored F → Bool
  wins c b =
      fl.lt c.token_ms b.token_ms
      || (fl.same c.token_ms b.token_ms && ltb c.n_reserved b.n_reserved)
      || (fl.same c.token_ms b.token_ms
          && (c.n_reserved == b.n_reserved)
          && fl.lt c.prefill_ms b.prefill_ms)

  abbrev pub keep_best : Option (Scored F) → Scored F → Scored F
  keep_best none c = c
  keep_best (some b) c = if wins c b then c else b

  -- The loop: the best so far, and the last error.
  unfoldable pub best_role :
      (Reservation → Result (PartitionError F) (Scored F))
      → Option (Scored F)
      → Option (PartitionError F)
      → List Reservation
      → Option (Scored F) × Option (PartitionError F)
  best_role score best last [] = (best, last)
  best_role score best last (r ∷ rs) =
      let step : Option (Scored F) × Option (PartitionError F) = elim (score r) [
        | err e ↦ (best, some e)
        | ok c ↦ (some (keep_best best c), last)
      ] in
      best_role score step.0 step.1 rs

  abbrev pub gb_of : Option (ModelSpec F) → F
  gb_of none = zero_f fl
  gb_of (some m) = total_gb fl m

  abbrev pub role_result :
      Option (Scored F) × Option (PartitionError F) → Result (PartitionError F) (RolePlan F)
  role_result (some b, last) = ok b.plan
  role_result (none, none) = err no_assignment
  role_result (none, some e) = err (no_assignment_after e)

  abbrev pub wants_none : RoleDemand F → Bool
  wants_none d = elim d.prefill_model [
    | some _ ↦ false
    | none ↦ elim d.draft_model [ some _ ↦ false | none ↦ true ]
  ]

  -- `SolveRoles`.
  unfoldable pub solve_roles :
      F
      → F
      → ModelSpec F
      → Option F
      → RoleDemand F
      → List (NodeProfile F)
      → Result (PartitionError F) (RolePlan F)
  solve_roles overhead budget model usable d nodes =
      let present = present_sorted nodes in
      let rs = reservations d present in
      if fl.le (lead_factor d) (fl.of_int (pos 1))
      then err (bad_lead d.draft_lead_factor)
      else if length present == 0
      then err no_nodes
      else if wants_none d
      then elim (solve fl overhead budget model usable true present) [
        | err e ↦ err e
        | ok decode ↦ ok (record {
          decode = decode;
          prefill_node_id = [];
          draft_node_id = [];
          draft_ms = zero_f fl;
          idle_node_ids = idle_of (node_ids decode.plan) present;
        })
      ]
      else if length rs == 0
      then err (no_role (gb_of d.prefill_model) (gb_of d.draft_model))
      else role_result (best_role (candidate overhead budget model usable d present) none none rs)
