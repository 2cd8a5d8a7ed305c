-- ===== src/Partitioner/Replicas/Shared.antt =====
-- internal/partitioner/solver.go: what `SolveReplicas` gives, and that its fuel is enough.
use sofmat.Base.{
  ◌≡◌, ◌≢◌, refl, sym, subst, false, List, [], ◌∷◌, ◌++◌, length, All, All-swap, ok, Bool-cases,
  inl, inr, ◌==◌,
}
use sofmat.Base.Strings.{Str, same, str_le}
use sofmat.Partitioner.Replicas.Keys.{NoBar}
use sofmat.Partitioner.Replicas.Search.{cached_assignment-best_assignment}
use sofmat.Coordinator.Janitor.{contains}
use sofmat.Partitioner.{Floats, NodeProfile, ModelSpec, PartitionPlan, node_ids}
use sofmat.Partitioner.Plans.{present_sorted}
use sofmat.Partitioner.Plans.Choose.{In}
use sofmat.Partitioner.Solve.Members.{All-present_sorted}
use sofmat.Partitioner.Solve.Sound.{ok_same, refused}
use sofmat.Partitioner.Replicas.{
  cached_assignment, ReplicaPlan, by_ids, by_join, sort_plans, used_ids, idle_from, join,
  solve_replicas,
}
use sofmat.Partitioner.Replicas.Apart.{
  ApartOf, PairsApart, not_either, differ, Good, ValidOf, All-by_ids, best_assignment-Good,
  by_ids-OneEach,
}

All-turn : (i : Str) (js : List Str) → All (λ j. i ≢ j) js → All (λ j. j ≢ i) js
All-turn i [] h = tt
All-turn i (j ∷ js) (h, hs) = ((λ e. h (sym e)), All-turn i js hs)

All-turns :
    (is js : List Str) → All (λ i. All (λ j. i ≢ j) js) is → All (λ i. All (λ j. j ≢ i) js) is
All-turns [] js h = tt
All-turns (i ∷ is) js (h, hs) = (All-turn i js h, All-turns is js hs)

module _ {F : Type 0} where
  All-by_join :
      (P : PartitionPlan F → Type 0) (p : PartitionPlan F) (qs : List (PartitionPlan F))
      → P p
      → All P qs
      → All P (by_join p qs)
  All-by_join P p [] h hs = (h, tt)
  All-by_join P p (q ∷ qs) h (k, ks) =
      elim (Bool-cases (str_le (join (node_ids p)) (join (node_ids q)))) [
        | inl first ↦ rw first (h, (k, ks))
        | inr later ↦ rw later (k, All-by_join P p qs h ks)
      ]

  All-sort_plans :
      (P : PartitionPlan F → Type 0) (ps : List (PartitionPlan F))
      → All P ps
      → All P (sort_plans ps)
  All-sort_plans P [] h = tt
  All-sort_plans P (p ∷ ps) (h, hs) = All-by_join P p (sort_plans ps) h (All-sort_plans P ps hs)

  ApartOf-sym : (p q : PartitionPlan F) → ApartOf p q → ApartOf q p
  ApartOf-sym p q h =
      All-swap (λ i j. j ≢ i) (node_ids p) (node_ids q) (All-turns (node_ids p) (node_ids q) h)

  PairsApart-by_join :
      (p : PartitionPlan F) (qs : List (PartitionPlan F))
      → All (ApartOf p) qs
      → PairsApart qs
      → PairsApart (by_join p qs)
  PairsApart-by_join p [] h hs = (tt, tt)
  PairsApart-by_join p (q ∷ qs) (h, hs) (k, ks) =
      elim (Bool-cases (str_le (join (node_ids p)) (join (node_ids q)))) [
        | inl first ↦ rw first ((h, hs), (k, ks))
        | inr later ↦
            rw later
              (All-by_join (ApartOf q) p qs (ApartOf-sym p q h) k, PairsApart-by_join p qs hs ks)
      ]

  PairsApart-sort_plans : (ps : List (PartitionPlan F)) → PairsApart ps → PairsApart (sort_plans ps)
  PairsApart-sort_plans [] h = tt
  PairsApart-sort_plans (p ∷ ps) (h, hs) =
      PairsApart-by_join p (sort_plans ps) (All-sort_plans (ApartOf p) ps h)
        (PairsApart-sort_plans ps hs)

contains_append :
    (xs ys : List Str) (id : Str)
    → contains (xs ++ ys) id ≡ false
    → All (λ i. i ≢ id) xs × (contains ys id ≡ false)
unfolding contains
contains_append [] ys id h = (tt, h)
contains_append (x ∷ xs) ys id h =
    let (other, later) = not_either (same x id) (contains (xs ++ ys) id) h in
    let (apart, behind) = contains_append xs ys id later in ((differ other, apart), behind)

module _ {F : Type 0} where
  used_ids-none :
      (ps : List (PartitionPlan F)) (id : Str)
      → contains (used_ids ps) id ≡ false
      → All (λ p. All (λ i. i ≢ id) (node_ids p)) ps
  used_ids-none [] id h = tt
  used_ids-none (p ∷ ps) id h =
      let (here, later) = contains_append (node_ids p) (used_ids ps) id h in
      (here, used_ids-none ps id later)

  -- An id that no plan uses.
  abbrev pub Idle : List (PartitionPlan F) → Str → Type 0
  Idle ps id = All (λ p. All (λ i. i ≢ id) (node_ids p)) ps

  idle_from-Idle :
      (ps : List (PartitionPlan F)) (ns : List (NodeProfile F))
      → All (Idle (sort_plans ps)) (idle_from (used_ids ps) ns)
  idle_from-Idle ps [] = tt
  idle_from-Idle ps (n ∷ ns) = elim (Bool-cases (contains (used_ids ps) n.id)) [
    | inl used ↦ rw used (idle_from-Idle ps ns)
    | inr idle ↦ rw idle (All-sort_plans _ ps (used_ids-none ps n.id idle), idle_from-Idle ps ns)
  ]

All-In : {A : Type 0} (P : A → Type 0) (xs : List A) → ((x : A) → In x xs → P x) → All P xs
All-In P [] h = tt
All-In P (x ∷ xs) h = (h x (inl refl), All-In P xs (λ y m. h y (inr m)))

module _ {F : Type 0} (fl : Floats F) (overhead budget : F) (model : ModelSpec F) where
  -- A plan that covers the model with some of the nodes.
  abbrev pub Valid : List (NodeProfile F) → PartitionPlan F → Type 0
  Valid nodes = ValidOf fl overhead budget model (λ n. In n nodes)

  -- When no id has a `|`, each replica of a plan of SolveReplicas is a plan that covers the model with
  -- some of the given nodes; no node is in two replicas, and no idle node is in any.
  pub solve_replicas-PairsApart :
      (nodes : List (NodeProfile F)) (r : ReplicaPlan F)
      → All (λ n. NoBar n.id) nodes
      → solve_replicas fl overhead budget model nodes ≡ ok r
      → PairsApart r.replicas × All (Valid nodes) r.replicas × All (Idle r.replicas) r.idle_node_ids
  unfolding solve_replicas
  solve_replicas-PairsApart nodes r no_bar h =
      let present = present_sorted nodes in
      let pool = by_ids present in
      let best =
        (cached_assignment fl overhead budget model (length pool) pool
          (record { plan_cache = []; best_cache = [] })).0 in
      let (some_node, h1) = refused (length present == 0) _ _ r h in
      let (some_plan, h2) = refused (length best.plans == 0) _ _ r h1 in
      let (apart, valid, within) =
        subst (λ a. Good fl overhead budget model pool a.plans)
          (sym (cached_assignment-best_assignment fl overhead budget model nodes no_bar))
          (best_assignment-Good fl overhead budget model (length pool) pool
            (by_ids-OneEach present)) in
      subst
        (λ x.
          PairsApart x.replicas
          × All (Valid nodes) x.replicas
          × All (Idle x.replicas) x.idle_node_ids)
        (ok_same _ r h2)
        (
          PairsApart-sort_plans best.plans apart,
          All-sort_plans _ best.plans (
              valid _
                (All-by_ids _ present (All-present_sorted _ nodes (All-In _ nodes (λ n m. m))))),
          idle_from-Idle best.plans present,
        )
