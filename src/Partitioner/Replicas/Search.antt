-- ===== src/Partitioner/Replicas/Search.antt =====
-- internal/partitioner/solver.go: the search of `SolveReplicas` with its caches and without them.
use sofmat.Base.{
  ◌≡◌, ◌≢◌, refl, List, [], ◌∷◌, length, Option, none, some, All, Bool-cases, inl, inr, arith,
  if◌then◌else◌,
}
use sofmat.Base.Assoc.{lookup}
use sofmat.Base.Strings.{Str, same}
use sofmat.Update.Guard.Refusals.{eq_of_same, same_self}
use sofmat.Partitioner.{Floats, NodeProfile, ModelSpec}
use sofmat.Partitioner.Plans.{present_sorted}
use sofmat.Partitioner.Solve.Members.{All-present_sorted}
use sofmat.Partitioner.Replicas.{by_ids, best_assignment, cached_assignment}
use sofmat.Partitioner.Replicas.Apart.{AllOf, OneEach, All-by_ids, by_ids-OneEach}
use sofmat.Partitioner.Replicas.Keys.{NoBar, Keyed}
use sofmat.Partitioner.Replicas.Caches.{cached_assignment_lem}

never : {V : Type 0} (v : V) → Path (Option V) none (some v) → ⊥
never v e = cc

module _ {F : Type 0} where
  -- `byID`.
  node_of : List (NodeProfile F) → Str → Option (NodeProfile F)
  node_of [] id = none
  node_of (n ∷ ns) id = if same n.id id then some n else node_of ns id

  node_of-cons :
      (n : NodeProfile F) (ns ms : List (NodeProfile F))
      → AllOf (λ i. n.id ≢ i) ms
      → All (λ m. node_of ns m.id ≡ some m) ms
      → All (λ m. node_of (n ∷ ns) m.id ≡ some m) ms
  unfolding node_of
  node_of-cons n ns [] off h = tt
  node_of-cons n ns (m ∷ ms) (ne, off) (h, hs) = (here, node_of-cons n ns ms off hs)
    where
      here : (if same n.id m.id then some n else node_of ns m.id) ≡ some m
      here = elim (Bool-cases (same n.id m.id)) [
        | inl one ↦ absurd (ne (eq_of_same n.id m.id one))
        | inr two ↦ rw two h
      ]

  node_of-OneEach :
      (ns : List (NodeProfile F)) → OneEach ns → All (λ n. node_of ns n.id ≡ some n) ns
  unfolding node_of
  node_of-OneEach [] h = tt
  node_of-OneEach (n ∷ ns) (off, once) =
      (rw (same_self n.id) refl, node_of-cons n ns ns off (node_of-OneEach ns once))

  All-both :
      (P Q : NodeProfile F → Type 0) (ns : List (NodeProfile F))
      → All P ns
      → All Q ns
      → All (λ n. P n × Q n) ns
  All-both P Q [] h k = tt
  All-both P Q (n ∷ ns) (h, hs) (k, ks) = ((h, k), All-both P Q ns hs ks)

module _ {F : Type 0} (fl : Floats F) (overhead budget : F) (model : ModelSpec F) where
  -- When no id has a `|`, the search that starts with empty caches finds what it finds without them.
  pub cached_assignment-best_assignment :
      (nodes : List (NodeProfile F))
      → All (λ n. NoBar n.id) nodes
      → (let pool : List (NodeProfile F) = by_ids (present_sorted nodes) in
          (cached_assignment fl overhead budget model
            (length pool)
            pool
            (record { plan_cache = []; best_cache = [] })).0
          ≡ best_assignment fl overhead budget model (length pool) pool)
  unfolding lookup
  cached_assignment-best_assignment nodes no_bar =
      let present = present_sorted nodes in
      let pool = by_ids present in
      let keyed : All (Keyed (node_of pool)) pool =
        All-both (λ n. NoBar n.id) (λ n. node_of pool n.id ≡ some n) pool
          (All-by_ids _ present (All-present_sorted _ nodes no_bar))
          (node_of-OneEach pool (by_ids-OneEach present)) in
      (cached_assignment_lem (node_of pool) fl overhead budget model (length pool) pool _
        (omega arith) keyed
        ((λ n ns k v e. absurd (never v e)), (λ n ns k v e. absurd (never v e)))).0
