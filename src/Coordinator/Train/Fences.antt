-- ===== src/Coordinator/Train/Fences.antt =====
-- internal/coordinator/train.go: what `fence` does to the balancer and to the handoff.
use sofmat.Base.{
  ℕ, zero, suc, ◌+◌, ◌≡◌, ◌≢◌, refl, sym, ap, ◌∙◌, Bool, true, false, not, List, [], ◌∷◌, Option,
  none, some, arith, if◌then◌else◌, Bool-cases, Option-cases, inl, inr,
}
use sofmat.Base.Strings.{Str, same}
use sofmat.Coordinator.Balancer.{DecodeNode, DecodeBalancer, node_at, update_at}
use sofmat.Coordinator.Balancer.Admin.{fence, index_by_url, node_by_url, set_excluded, trim_slashes}
use sofmat.Coordinator.Balancer.Choice.{is_open}
use sofmat.Coordinator.Balancer.Fence.{fenced-is_open, set_excluded-some}
use sofmat.Update.Guard.Refusals.{eq_of_same}

index_by_url-fence :
    (url : Str) (k i : ℕ) (on : Bool) (ns : List DecodeNode)
    → index_by_url url k (update_at i (fence on) ns) ≡ index_by_url url k ns
unfolding index_by_url update_at
index_by_url-fence url k i on [] = refl
index_by_url-fence url k zero on (n ∷ ns) = refl
index_by_url-fence url k (suc i) on (n ∷ ns) = rw (index_by_url-fence url (suc k) i on ns)

is_open-fence_ne :
    (i j : ℕ) (on : Bool) (ns : List DecodeNode)
    → i ≢ j
    → is_open (update_at i (fence on) ns) j ≡ is_open ns j
unfolding node_at update_at
is_open-fence_ne i j on [] h = refl
is_open-fence_ne zero zero on (n ∷ ns) h = absurd (h refl)
is_open-fence_ne zero (suc j) on (n ∷ ns) h = refl
is_open-fence_ne (suc i) zero on (n ∷ ns) h = refl
is_open-fence_ne (suc i) (suc j) on (n ∷ ns) h = is_open-fence_ne i j on ns (λ e. h (ap suc e))

-- Fencing one engine opens no other.
is_open-fence :
    (i j : ℕ) (ns : List DecodeNode)
    → is_open ns j ≡ false
    → is_open (update_at i (fence true) ns) j ≡ false
unfolding node_at update_at
is_open-fence i j [] h = h
is_open-fence zero zero (n ∷ ns) h = refl
is_open-fence zero (suc j) (n ∷ ns) h = h
is_open-fence (suc i) zero (n ∷ ns) h = h
is_open-fence (suc i) (suc j) (n ∷ ns) h = is_open-fence i j ns h

found_here :
    (k i : ℕ) (t : Bool) (rest : Option ℕ)
    → t ≡ true
    → (if t then some k else rest) ≡ some i
    → i ≡ k + 0
found_here k i t rest h e = ground arith

found_later :
    (k i : ℕ) (t : Bool) (rest : Option ℕ)
    → t ≡ false
    → (if t then some k else rest) ≡ some i
    → rest ≡ some i
found_later k i t rest h e = ground arith

-- One index has one address.
index_by_url-le :
    (url : Str) (k i : ℕ) (ns : List DecodeNode)
    → index_by_url url k ns ≡ some i
    → (j : ℕ) × (i ≡ k + j) × (n : DecodeNode) × (node_at j ns ≡ some n) × (same n.url url ≡ true)
unfolding index_by_url node_at
index_by_url-le url k i [] h = cc
index_by_url-le url k i (n ∷ ns) h = elim (Bool-cases (same n.url url)) [
  | inl here ↦
      (0, found_here k i (same n.url url) (index_by_url url (suc k) ns) here h, n, refl, here)
  | inr there ↦
      let (j, e, m, at_j, s) =
        index_by_url-le url (suc k) i ns
          (found_later k i (same n.url url) (index_by_url url (suc k) ns) there h) in
      (suc j, omega (arith, e), m, at_j, s)
]

-- The engine of an address is fenced, if there is one.
abbrev pub closed_to : Str → List DecodeNode → Bool
closed_to url ns = elim (index_by_url (trim_slashes url) 0 ns) [
  | none ↦ true
  | some i ↦ not (is_open ns i)
]

closed_to-none :
    (url : Str) (ns : List DecodeNode)
    → index_by_url (trim_slashes url) 0 ns ≡ none
    → closed_to url ns ≡ true
closed_to-none url ns h = rw (h, closed_to) refl

closed_to-some :
    (url : Str) (ns : List DecodeNode) (i : ℕ)
    → index_by_url (trim_slashes url) 0 ns ≡ some i
    → closed_to url ns ≡ not (is_open ns i)
closed_to-some url ns i h = rw (h, closed_to) refl

-- `closed_to` after one fence, where the address has the index `j`.
closed_to-fence :
    (url : Str) (i j : ℕ) (on : Bool) (ns : List DecodeNode)
    → index_by_url (trim_slashes url) 0 ns ≡ some j
    → closed_to url (update_at i (fence on) ns) ≡ not (is_open (update_at i (fence on) ns) j)
closed_to-fence url i j on ns h =
    closed_to-some url _ j (index_by_url-fence (trim_slashes url) 0 i on ns ∙ h)

set_excluded-none :
    (url : Str) (on : Bool) (b : DecodeBalancer)
    → node_by_url url b ≡ none
    → (set_excluded url on b).1 ≡ b
unfolding set_excluded
set_excluded-none url on b h = rw (h, set_excluded) refl

not-false : {t : Bool} → not t ≡ true → t ≡ false
not-false h = ground arith

pub set_excluded-closes :
    (url : Str) (b : DecodeBalancer) → closed_to url (set_excluded url true b).1.nodes ≡ true
unfolding node_by_url
set_excluded-closes url b = elim (Option-cases (node_by_url url b)) [
  | inl missing ↦ rw (set_excluded-none url true b missing) (closed_to-none url b.nodes missing)
  | inr (i, found) ↦
      rw (set_excluded-some url true b i found)
        (closed_to-fence url i i true b.nodes found ∙ ap not (fenced-is_open i b.nodes))
]

pub set_excluded-keeps :
    (u url : Str) (b : DecodeBalancer)
    → closed_to u b.nodes ≡ true
    → closed_to u (set_excluded url true b).1.nodes ≡ true
unfolding node_by_url
set_excluded-keeps u url b h = elim (Option-cases (node_by_url url b)) [
  | inl missing ↦ rw (set_excluded-none url true b missing) h
  | inr (i, found) ↦
      rw (set_excluded-some url true b i found)
        (elim (Option-cases (index_by_url (trim_slashes u) 0 b.nodes)) [
          | inl none_there ↦
              closed_to-none u _ (index_by_url-fence (trim_slashes u) 0 i true b.nodes ∙ none_there)
          | inr (j, there) ↦
              closed_to-fence u i j true b.nodes there
              ∙ ap not (
                  is_open-fence i j b.nodes
                    (not-false (sym (closed_to-some u b.nodes j there) ∙ h)))
        ])
]

one_address :
    (u url : Str) (n m : DecodeNode)
    → ◌≡◌ {A = Option DecodeNode} (some n) (some m)
    → same n.url url ≡ true
    → same m.url u ≡ true
    → same u url ≡ true
one_address u url n m e sn sm =
    let e' : n ≡ m = cc in rw (sym (eq_of_same m.url u sm)) (rw (sym e') sn)

-- Two addresses that differ have two indices.
index_by_url-ne :
    (u url : Str) (i j : ℕ) (ns : List DecodeNode)
    → same u url ≡ false
    → index_by_url url 0 ns ≡ some i
    → index_by_url u 0 ns ≡ some j
    → i ≢ j
index_by_url-ne u url i j ns apart at_i at_j e =
    let (i', ei, n, at_n, sn) = index_by_url-le url 0 i ns at_i in
    let (j', ej, m, at_m, sm) = index_by_url-le u 0 j ns at_j in
    let same_index : j' ≡ i' = omega (arith, ei, ej, e) in
    cc (apart, one_address u url n m (sym at_n ∙ rw (sym same_index) at_m) sn sm)

pub set_excluded-apart :
    (u url : Str) (on : Bool) (b : DecodeBalancer)
    → same (trim_slashes u) (trim_slashes url) ≡ false
    → closed_to u (set_excluded url on b).1.nodes ≡ closed_to u b.nodes
unfolding node_by_url
set_excluded-apart u url on b apart = elim (Option-cases (node_by_url url b)) [
  | inl missing ↦ rw (set_excluded-none url on b missing) refl
  | inr (i, found) ↦
      rw (set_excluded-some url on b i found)
        (elim (Option-cases (index_by_url (trim_slashes u) 0 b.nodes)) [
          | inl none_there ↦
              closed_to-none u _ (index_by_url-fence (trim_slashes u) 0 i on b.nodes ∙ none_there)
              ∙ sym (closed_to-none u b.nodes none_there)
          | inr (j, there) ↦
              closed_to-fence u i j on b.nodes there
              ∙ ap not (
                  is_open-fence_ne i j on b.nodes (
                    index_by_url-ne (trim_slashes u) (trim_slashes url) i j b.nodes apart found
                      there))
              ∙ sym (closed_to-some u b.nodes j there)
        ])
]
