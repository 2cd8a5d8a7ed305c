-- ===== src/Partitioner/Roles/Isolation.antt =====
-- internal/partitioner/solver.go: the decode of `SolveRoles` keeps off the nodes of the other roles.
use sofmat.Base.{
  ◌∙◌, true-false, arith, sym, ◌≡◌, refl, subst, Bool, true, false, not, ◌||◌, ◌&&◌, List, [], ◌∷◌,
  length, Option, none, some, Result, ok, err, All, inl, inr, Bool-cases, ◌==◌, if◌then◌else◌,
  >>=-eq-ok, guard-eq-ok, ap,
}
use sofmat.Base.Int.{pos}
use sofmat.Base.Strings.{Str, is_empty, same}
use sofmat.Coordinator.Janitor.{contains}
use sofmat.Update.Guard.Refusals.{eq_of_same}
use sofmat.Partitioner.{Floats, PartitionError, NodeProfile, ModelSpec, PartitionResult, node_ids}
use sofmat.Partitioner.Plans.{present_sorted}
use sofmat.Partitioner.Solve.{solve, solve_plan}
use sofmat.Partitioner.Solve.Fallbacks.{solve_plan-All}
use sofmat.Partitioner.Solve.Sound.{ok_same, passed, refused}
use sofmat.Partitioner.Roles.{
  RoleDemand, RolePlan, Reservation, Scored, reserved, add_id, unused, lead_factor, role_ms,
  draft_leads, candidate, keep_best, wins, best_role, role_result, reservations, solve_roles,
  wants_none,
}

unused-All :
    {F : Type 0} (ids : List Str) (ns : List (NodeProfile F))
    → All (λ n. contains ids n.id ≡ false) (unused ids ns)
unfolding unused
unused-All ids [] = tt
unused-All ids (n ∷ ns) = elim (Bool-cases (contains ids n.id)) [
  | inl used ↦ rw used (unused-All ids ns)
  | inr free ↦ rw free (free, unused-All ids ns)
]

-- A node does not have a role that has a node.
abbrev pub Off : Str → Str → Type 0
Off role i = (not (is_empty role) && same role i) ≡ false

-- The first of a list apart, nothing else is added.
Off-same : (id i : Str) → same id i ≡ false → Off id i
Off-same id i h = ground arith

Off-empty : (id i : Str) → is_empty id ≡ true → Off id i
Off-empty id i h = ground arith

contains-cons :
    (id i : Str) (ids : List Str)
    → contains (id ∷ ids) i ≡ false
    → (same id i ≡ false) × (contains ids i ≡ false)
unfolding contains
contains-cons id i ids h = ground arith

not_there :
    (id i : Str) (ids : List Str)
    → contains ids id ≡ true
    → contains ids i ≡ false
    → same id i ≡ false
not_there id i ids t f = elim (Bool-cases (same id i)) [
  | inl here ↦ absurd (true-false (sym t ∙ ap (contains ids) (eq_of_same id i here) ∙ f))
  | inr apart ↦ apart
]

contains-add_id :
    (id i : Str) (ids : List Str)
    → contains (add_id id ids) i ≡ false
    → Off id i × (contains ids i ≡ false)
contains-add_id id i ids h = elim (Bool-cases (is_empty id)) [
  | inl empty ↦ (Off-empty id i empty, rw empty at h)
  | inr name ↦ elim (Bool-cases (contains ids id)) [
    | inl known ↦
        let old : contains ids i ≡ false = rw known at (rw name at h) in
        (Off-same id i (not_there id i ids known old), old)
    | inr new ↦
        let (apart, later) = contains-cons id i ids (rw new at (rw name at h)) in
        (Off-same id i apart, later)
  ]
]

Off-reserved :
    (r : Reservation) (i : Str) → contains (reserved r) i ≡ false → Off r.prefill i × Off r.draft i
Off-reserved r i h =
    let (d, later) = contains-add_id r.draft i (add_id r.prefill []) h in
    let (p, nothing_left) = contains-add_id r.prefill i [] later in (p, d)

All-imp :
    {F : Type 0} {P Q : NodeProfile F → Type 0}
    → ((n : NodeProfile F) → P n → Q n)
    → (ns : List (NodeProfile F)) → All P ns
    → All Q ns
All-imp f [] h = tt
All-imp f (n ∷ ns) (h, hs) = (f n h, All-imp f ns hs)

unused-Off :
    {F : Type 0} (r : Reservation) (ns : List (NodeProfile F))
    → All (λ n. Off r.prefill n.id × Off r.draft n.id) (unused (reserved r) ns)
unused-Off r ns =
    All-imp (λ n. Off-reserved r n.id) (unused (reserved r) ns) (unused-All (reserved r) ns)

every : (ids : List Str) → All (λ i. Off [] i × Off [] i) ids
every [] = tt
every (i ∷ ids) = ((refl, refl), every ids)

module _ {F : Type 0} (fl : Floats F) where
  -- No stage of the decode is on a node with another role, and a draft keeps ahead of the decode.
  abbrev pub IsIsolated : RoleDemand F → RolePlan F → Type 0
  IsIsolated d p =
      All (λ i. Off p.prefill_node_id i × Off p.draft_node_id i) (node_ids p.decode.plan)
      × ((is_empty p.draft_node_id
            || not (fl.lt p.decode.plan.token_ms (fl.mul p.draft_ms (lead_factor fl d))))
          ≡ true)

  module _ (overhead budget : F) (model : ModelSpec F) (usable : Option F) (d : RoleDemand F) where
    solve-All :
        (P : Str → Type 0) (nodes : List (NodeProfile F)) (r : PartitionResult F)
        → All (λ n. P n.id) nodes
        → solve fl overhead budget model usable true nodes ≡ ok r
        → All P (node_ids r.plan)
    unfolding solve
    solve-All P nodes r hs h =
        let (best, at_best, e) = passed (solve_plan fl overhead budget model usable nodes) _ r h in
        subst (λ x. All P (node_ids x.plan)) (ok_same _ r e)
          (solve_plan-All fl overhead budget model usable P nodes best hs at_best)

    candidate-IsIsolated :
        (present : List (NodeProfile F)) (r : Reservation) (c : Scored F)
        → candidate fl overhead budget model usable d present r ≡ ok c
        → IsIsolated d c.plan
    unfolding candidate
    candidate-IsIsolated present r c h =
        let (decode, at_decode, h1) =
          >>=-eq-ok (solve fl overhead budget model usable true (unused (reserved r) present)) _
            h in
        let (draft, at_draft, h2) = >>=-eq-ok (role_ms fl r.draft d.draft_model present) _ h1 in
        let (done, leads, h3) = >>=-eq-ok (draft_leads fl d r draft decode.plan.token_ms) _ h2 in
        let (prefill, at_prefill, e) =
          >>=-eq-ok (role_ms fl r.prefill d.prefill_model present) _ h3 in
        subst (λ x. IsIsolated d x.plan) (ok_same _ c e)
          (
            solve-All (λ i. Off r.prefill i × Off r.draft i) _ decode (unused-Off r present)
                at_decode,
            guard-eq-ok _ _ leads,
          )

    abbrev BestIs : Option (Scored F) → Type 0
    BestIs none = Unit
    BestIs (some c) = IsIsolated d c.plan

    one_of :
        (t : Bool) (c b : Scored F)
        → IsIsolated d c.plan
        → IsIsolated d b.plan
        → IsIsolated d (if t then c else b).plan
    one_of true c b hc hb = hc
    one_of false c b hc hb = hb

    keep_best-IsIsolated :
        (best : Option (Scored F)) (c : Scored F)
        → BestIs best
        → IsIsolated d c.plan
        → IsIsolated d (keep_best fl best c).plan
    keep_best-IsIsolated none c b h = h
    keep_best-IsIsolated (some k) c b h = one_of (wins fl c k) c k h b

    turn :
        (a : Result (PartitionError F) (Scored F)) (best : Option (Scored F))
        (last : Option (PartitionError F)) (rs : List Reservation)
        (score : Reservation → Result (PartitionError F) (Scored F))
        → ((c : Scored F) → a ≡ ok c → IsIsolated d (keep_best fl best c).plan)
        → BestIs best
        → ((best' : Option (Scored F)) (last' : Option (PartitionError F))
            → BestIs best'
            → BestIs (best_role fl score best' last' rs).0)
        → (let step : Option (Scored F) × Option (PartitionError F) = elim a [
          | err e ↦ (best, some e)
          | ok c ↦ (some (keep_best fl best c), last)
        ] in
            BestIs (best_role fl score step.0 step.1 rs).0)
    turn (err e) best last rs score new b later = later best (some e) b
    turn (ok c) best last rs score new b later =
        later (some (keep_best fl best c)) last (new c refl)

    best_role-IsIsolated :
        (score : Reservation → Result (PartitionError F) (Scored F)) (best : Option (Scored F))
        (last : Option (PartitionError F)) (rs : List Reservation)
        → ((r : Reservation) (c : Scored F) → score r ≡ ok c → IsIsolated d c.plan)
        → BestIs best
        → BestIs (best_role fl score best last rs).0
    unfolding best_role
    best_role-IsIsolated score best last [] all b = b
    best_role-IsIsolated score best last (r ∷ rs) all b =
        turn (score r) best last rs score (λ c e. keep_best-IsIsolated best c b (all r c e)) b
          (λ best' last' b'. best_role-IsIsolated score best' last' rs all b')

    role_result-IsIsolated :
        (b : Option (Scored F) × Option (PartitionError F)) (p : RolePlan F)
        → BestIs b.0
        → role_result fl b ≡ ok p
        → IsIsolated d p
    role_result-IsIsolated (some c, last) p h e = subst (IsIsolated d) (ok_same c.plan p e) h
    role_result-IsIsolated (none, none) p h e = cc
    role_result-IsIsolated (none, some why) p h e = cc

    -- When SolveRoles gives a plan, no stage of the decode pipeline stands on a node with another role,
    -- and a draft is ahead of the decode by the lead factor.
    pub solve_roles-IsIsolated :
        (nodes : List (NodeProfile F)) (p : RolePlan F)
        → solve_roles fl overhead budget model usable d nodes ≡ ok p
        → IsIsolated d p
    unfolding solve_roles
    solve_roles-IsIsolated nodes p h =
        let present = present_sorted nodes in
        let (lead, h1) = refused (fl.le (lead_factor fl d) (fl.of_int (pos 1))) _ _ p h in
        let (some_node, h2) = refused (length present == 0) _ _ p h1 in
        elim (Bool-cases (wants_none fl d)) [
          | inl nobody ↦
              let (decode, at_decode, e) =
                passed (solve fl overhead budget model usable true present) _ p (rw nobody at h2) in
              subst (IsIsolated d) (ok_same _ p e) (every (node_ids decode.plan), refl)
          | inr somebody ↦
              let (some_role, h3) =
                refused (length (reservations fl d present) == 0) _ _ p (rw somebody at h2) in
              role_result-IsIsolated
                (best_role fl (candidate fl overhead budget model usable d present) none none
                  (reservations fl d present))
                p
                (best_role-IsIsolated (candidate fl overhead budget model usable d present) none
                  none (reservations fl d present) (candidate-IsIsolated present) tt)
                h3
        ]
