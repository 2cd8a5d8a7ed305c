-- ===== src/Partitioner/Replicas/Keys.antt =====
-- internal/partitioner/solver.go: the keys of the caches of `SolveReplicas`. Ids without a `|` can be read off
-- the text that joins them.
use mathlib.Core.Path.{ap₂}
use sofmat.Base.{
  ℕ, ◌≡◌, ◌≢◌, refl, sym, ap, ◌∙◌, List, [], ◌∷◌, ◌++◌, map, Option, some, All, append-nil,
}
use sofmat.Base.Strings.{Str}
use sofmat.Partitioner.{NodeProfile}
use sofmat.Partitioner.Replicas.{join, set_key}

abbrev pub NoBar : Str → Type 0
NoBar = All (λ c. c ≢ b'|')

-- What follows an id in a key.
abbrev behind : List Str → Str
behind [] = []
behind (id ∷ ids) = b'|' ∷ join (id ∷ ids)

join-cons : (id : Str) (ids : List Str) → join (id ∷ ids) ≡ id ++ behind ids
join-cons id [] = sym (append-nil id)
join-cons id (k ∷ ks) = refl

cons_same : (c d : ℕ) (xs ys : Str) → Path (List ℕ) (c ∷ xs) (d ∷ ys) → (c ≡ d) × (xs ≡ ys)
cons_same c d xs ys e = (cc, cc)

cons_not_nil : (c : ℕ) (xs : Str) → Path (List ℕ) (c ∷ xs) [] → ⊥
cons_not_nil c xs e = cc

starts_behind : (c : ℕ) (xs : Str) (ids : List Str) → Path (List ℕ) (c ∷ xs) (behind ids) → c ≡ b'|'
starts_behind c xs [] e = absurd (cons_not_nil c xs e)
starts_behind c xs (k ∷ ks) e = (cons_same c b'|' xs (join (k ∷ ks)) e).0

-- The first id ends at the first bar.
first_id :
    (a b : Str) (ks ls : List Str)
    → NoBar a
    → NoBar b
    → a ++ behind ks ≡ b ++ behind ls
    → (a ≡ b) × (behind ks ≡ behind ls)
first_id [] [] ks ls h k e = (refl, e)
first_id [] (d ∷ b) ks ls h (k, _) e = absurd (k (starts_behind d (b ++ behind ls) ks (sym e)))
first_id (c ∷ a) [] ks ls (h, _) k e = absurd (h (starts_behind c (a ++ behind ks) ls e))
first_id (c ∷ a) (d ∷ b) ks ls (_, h) (_, k) e =
    let (heads, tails) = cons_same c d (a ++ behind ks) (b ++ behind ls) e in
    let (same_id, rest) = first_id a b ks ls h k tails in (ap₂ ◌∷◌ heads same_id, rest)

behind_same : (ks ls : List Str) → All NoBar ks → All NoBar ls → behind ks ≡ behind ls → ks ≡ ls
behind_same [] [] h k e = refl
behind_same [] (l ∷ ls) h k e = absurd (cons_not_nil b'|' (join (l ∷ ls)) (sym e))
behind_same (k ∷ ks) [] h l e = absurd (cons_not_nil b'|' (join (k ∷ ks)) e)
behind_same (k ∷ ks) (l ∷ ls) (h, hs) (g, gs) e =
    let joined = (cons_same b'|' b'|' (join (k ∷ ks)) (join (l ∷ ls)) e).1 in
    let (heads, rest) = first_id k l ks ls h g (sym (join-cons k ks) ∙ joined ∙ join-cons l ls) in
    ap₂ ◌∷◌ heads (behind_same ks ls hs gs rest)

module _ {F : Type 0} (node_of : Str → Option (NodeProfile F)) where
  -- The id of a node is its own, and has no bar.
  abbrev pub Keyed : NodeProfile F → Type 0
  Keyed n = NoBar n.id × (node_of n.id ≡ some n)

  same_node : (m n : NodeProfile F) → Path (Option (NodeProfile F)) (some m) (some n) → m ≡ n
  same_node m n e = cc

  same_nodes :
      (ms ns : List (NodeProfile F))
      → All Keyed ms
      → All Keyed ns
      → map (λ n. n.id) ms ≡ map (λ n. n.id) ns
      → ms ≡ ns
  same_nodes [] [] h k e = refl
  same_nodes [] (n ∷ ns) h k e = cc
  same_nodes (m ∷ ms) [] h k e = cc
  same_nodes (m ∷ ms) (n ∷ ns) ((_, h), hs) ((_, k), ks) e =
      let (heads, tails) = ids_same m.id n.id (map (λ x. x.id) ms) (map (λ x. x.id) ns) e in
      ap₂ ◌∷◌ (same_node m n (sym h ∙ ap node_of heads ∙ k)) (same_nodes ms ns hs ks tails)
    where
      ids_same :
          (i j : Str) (is js : List Str) → Path (List Str) (i ∷ is) (j ∷ js) → (i ≡ j) × (is ≡ js)
      ids_same i j is js e = (cc, cc)

  ids-NoBar : (ns : List (NodeProfile F)) → All Keyed ns → All NoBar (map (λ n. n.id) ns)
  ids-NoBar [] h = tt
  ids-NoBar (n ∷ ns) ((h, _), hs) = (h, ids-NoBar ns hs)

  -- Nodes of one key are the same.
  pub set_key_same :
      (m n : NodeProfile F) (ms ns : List (NodeProfile F))
      → All Keyed (m ∷ ms)
      → All Keyed (n ∷ ns)
      → set_key (m ∷ ms) ≡ set_key (n ∷ ns)
      → m ∷ ms ≡ n ∷ ns
  set_key_same m n ms ns h k e = same_nodes (m ∷ ms) (n ∷ ns) h k (
      behind_same (map (λ x. x.id) (m ∷ ms)) (map (λ x. x.id) (n ∷ ns)) (ids-NoBar (m ∷ ms) h)
        (ids-NoBar (n ∷ ns) k) (ap (λ s. b'|' ∷ s) e))
