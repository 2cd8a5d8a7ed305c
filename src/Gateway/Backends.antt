-- ===== src/Gateway/Backends.antt =====
-- internal/gateway/roleplan.go: where a plan of roles is reached.
use sofmat.Base.{
  ◌≡◌, refl, ◌⊎◌, inl, inr, Bool, true, false, not, List, [], ◌∷◌, Option, none, some, arith,
  if◌then◌else◌, Result, ok, err, Option-cases, Bool-cases,
}
use sofmat.Base.Assoc.{lookup}
use sofmat.Base.Strings.{Str, str_discrete, is_empty}

-- The part of `partitioner.RolePlan` that is read here: the nodes of the decode stages, in order, and the
-- node of the prefill role.
pub record RolePlan : Type 0 where
  pub decode_node_ids : List Str
  pub prefill_node_id : Str

pub record BackendConfig : Type 0 where
  pub decode_entry_url : Str
  pub prefill_url : Str
  pub node_ids : List Str

pub data PlanError : Type 0 where
  no_decode_stages : PlanError
  no_endpoint : Str → PlanError

abbrev pub prefill_available : BackendConfig → Bool
prefill_available b = not (is_empty b.prefill_url)

-- An endpoint that is configured, and not empty.
unfoldable pub endpoint : List (Str × Str) → Str → Option Str
endpoint endpoints node = elim (lookup str_discrete node endpoints) [
  | none ↦ none
  | some url ↦ if is_empty url then none else some url
]

-- The prefill role falls back to decode alone when it cannot be reached.
unfoldable pub prefill_of : List (Str × Str) → Str → Str
prefill_of endpoints node =
    if is_empty node then [] else elim (endpoint endpoints node) [ some url ↦ url | none ↦ [] ]

-- `BackendsFromRolePlan`.
unfoldable pub backends_from_role_plan :
    RolePlan → List (Str × Str) → Result PlanError BackendConfig
backends_from_role_plan plan endpoints = elim plan.decode_node_ids [
  | [] ↦ err no_decode_stages
  | entry ∷ rest ↦ elim (endpoint endpoints entry) [
    | none ↦ err (no_endpoint entry)
    | some url ↦ ok (record {
      decode_entry_url = url;
      prefill_url = prefill_of endpoints plan.prefill_node_id;
      node_ids = entry ∷ rest;
    })
  ]
]

endpoint_known :
    (endpoints : List (Str × Str)) (node url : Str)
    → endpoint endpoints node ≡ some url
    → (lookup str_discrete node endpoints ≡ some url) × (is_empty url ≡ false)
unfolding endpoint
endpoint_known endpoints node url h = ground arith

prefill_known :
    (endpoints : List (Str × Str)) (node : Str)
    → (is_empty (prefill_of endpoints node) ≡ true)
      ⊎ (lookup str_discrete node endpoints ≡ some (prefill_of endpoints node))
unfolding prefill_of
prefill_known endpoints node = elim (Option-cases (endpoint endpoints node)) [
  | inl unknown ↦ inl (rw (unknown, prefill_of) ground arith)
  | inr (url, known) ↦ elim (Bool-cases (is_empty node)) [
    | inl unplanned ↦ inl (rw (unplanned, prefill_of) refl)
    | inr planned ↦
        inr (rw (planned, prefill_of) (rw known (endpoint_known endpoints node url known).0))
  ]
]

plan_entry :
    (ids : List Str) (prefill : Str) (endpoints : List (Str × Str)) (c : BackendConfig)
    → backends_from_role_plan
        (record { decode_node_ids = ids; prefill_node_id = prefill })
        endpoints
      ≡ ok c
    → (entry : Str) × (rest : List Str) × (ids ≡ entry ∷ rest)
      × (endpoint endpoints entry ≡ some c.decode_entry_url)
      × (c.prefill_url ≡ prefill_of endpoints prefill)
unfolding backends_from_role_plan
plan_entry [] prefill endpoints c h = cc
plan_entry (entry ∷ rest) prefill endpoints c h = (entry, rest, refl, ground arith, ground arith)

-- A plan that is accepted enters at the configured address of its first decode stage, and the prefill
-- role is unavailable or at its configured address.
pub backends_reachable :
    (ids : List Str) (prefill : Str) (endpoints : List (Str × Str)) (c : BackendConfig)
    → backends_from_role_plan
        (record { decode_node_ids = ids; prefill_node_id = prefill })
        endpoints
      ≡ ok c
    → (entry : Str) × (rest : List Str) × (ids ≡ entry ∷ rest)
      × (lookup str_discrete entry endpoints ≡ some c.decode_entry_url)
      × (is_empty c.decode_entry_url ≡ false)
      × ((prefill_available c ≡ false)
          ⊎ (lookup str_discrete prefill endpoints ≡ some c.prefill_url))
backends_reachable ids prefill endpoints c h =
    let (entry, rest, e, known, at_prefill) = plan_entry ids prefill endpoints c h in
    let (listed, some_url) = endpoint_known endpoints entry c.decode_entry_url known in
    (
      entry,
      rest,
      e,
      listed,
      some_url,
      elim (prefill_known endpoints prefill) [
        | inl nothing ↦ inl (rw at_prefill (rw nothing refl))
        | inr reached ↦ inr (rw at_prefill reached)
      ],
    )
