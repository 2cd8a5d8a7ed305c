-- ===== src/Coordinator/Balancer/Choice.antt =====
-- internal/coordinator/balancer.go: `chooseNode` never chooses an engine that training has fenced, and
-- keeps a conversation where it is.
use sofmat.Base.{
  ℕ, zero, suc, ◌+◌, ◌%◌, ◌<◌, ◌≡◌, refl, sym, ap, ◌∙◌, ◌⊎◌, inl, inr, Bool, true, false, not, ◌&&◌,
  List, [], ◌∷◌, Option, none, some, arith, ltb, ◌==◌, Result, ok, Option-cases, Bool-cases,
  >>=-eq-ok,
}
use native.Mathlib.Nat.{mod-lt, zero-add}
use sofmat.Base.Strings.{Str, str_discrete}
use sofmat.Gateway.Lru.{Panic, touch, remember}
use sofmat.Coordinator.Balancer.{
  DecodeNode, DecodeBalancer, Best, node_at, pinned, consider, least_loaded, available,
  nth_available, spread, choose_node,
}

-- `i` is an engine that takes conversations.
abbrev pub is_open : List DecodeNode → ℕ → Bool
is_open ns i = elim (node_at i ns) [ none ↦ false | some n ↦ not n.excluded ]

pinned-is_open :
    (key : Str) (b : DecodeBalancer) (i : ℕ) → pinned key b ≡ some i → is_open b.nodes i ≡ true
unfolding pinned
pinned-is_open key b i h = ground arith

nth_fenced :
    (k i : ℕ) (n : DecodeNode) (ns : List DecodeNode) (before : ℕ)
    → n.excluded ≡ true
    → nth_available k i (n ∷ ns) before ≡ nth_available k (suc i) ns before
unfolding nth_available
nth_fenced k i n ns before h = rw h refl

nth_here :
    (i : ℕ) (n : DecodeNode) (ns : List DecodeNode) (before : ℕ)
    → n.excluded ≡ false
    → nth_available 0 i (n ∷ ns) before ≡ i
unfolding nth_available
nth_here i n ns before h = rw h refl

nth_next :
    (k i : ℕ) (n : DecodeNode) (ns : List DecodeNode) (before : ℕ)
    → n.excluded ≡ false
    → nth_available (suc k) i (n ∷ ns) before ≡ nth_available k (suc i) ns before
unfolding nth_available
nth_next k i n ns before h = ground arith

available_fenced :
    (n : DecodeNode) (ns : List DecodeNode) → n.excluded ≡ true → available (n ∷ ns) ≡ available ns
unfolding available
available_fenced n ns h = rw h refl

available_ready :
    (n : DecodeNode) (ns : List DecodeNode)
    → n.excluded ≡ false
    → available (n ∷ ns) ≡ suc (available ns)
unfolding available
available_ready n ns h = rw h refl

nth_available-is_open :
    (k i : ℕ) (ns : List DecodeNode) (before : ℕ)
    → k < available ns
    → (j : ℕ) × (nth_available k i ns before ≡ i + j) × (is_open ns j ≡ true)
unfolding available node_at
nth_available-is_open k i [] before h = absurd (omega arith)
nth_available-is_open k i (n ∷ ns) before h = elim (Bool-cases n.excluded) [
  | inl fenced ↦
      let (j, e, o) =
        nth_available-is_open k (suc i) ns before (omega (arith, available_fenced n ns fenced)) in
      (suc j, omega (arith, nth_fenced k i n ns before fenced, e), o)
  | inr ready ↦
      elim k
          as (λ k.
            k < available (n ∷ ns)
            → (j : ℕ) × (nth_available k i (n ∷ ns) before ≡ i + j) × (is_open (n ∷ ns) j ≡ true)) [
              | zero ↦ λ _. (0, omega (arith, nth_here i n ns before ready), rw ready refl)
              | suc k' ↦ λ h.
                  let (j, e, o) =
                    nth_available-is_open k' (suc i) ns before
                      (omega (arith, h, available_ready n ns ready)) in
                  (suc j, omega (arith, nth_next k' i n ns before ready, e), o)
            ]
        h
]

consider-cases :
    (i : ℕ) (n : DecodeNode) (best : Option Best) (c : Best)
    → consider i n best ≡ some c
    → (best ≡ some c) ⊎ ((c.index ≡ i) × (n.excluded ≡ false))
unfolding consider
consider-cases i n none c h = ground arith
consider-cases i n (some d) c h = ground arith

least_loaded-is_open :
    (i : ℕ) (ns : List DecodeNode) (best : Option Best) (c : Best)
    → least_loaded i ns best ≡ some c
    → (best ≡ some c) ⊎ ((j : ℕ) × (c.index ≡ i + j) × (is_open ns j ≡ true))
unfolding least_loaded node_at
least_loaded-is_open i [] best c h = inl h
least_loaded-is_open i (n ∷ ns) best c h = elim (least_loaded-is_open (suc i) ns _ c h) [
  | inr (j, e, o) ↦ inr (suc j, omega (arith, e), o)
  | inl here ↦ elim (consider-cases i n best c here) [
    | inl before ↦ inl before
    | inr (e, ready) ↦ inr (0, omega (arith, e), rw ready refl)
  ]
]

many : (load requests count : ℕ) → (load == 0 && requests == 0 && ltb 1 count) ≡ true → 1 < count
many load requests count h = ground arith

turn-lt : (rr count : ℕ) → 1 < count → rr % count < count
turn-lt rr count h = mod-lt rr (omega arith)

spread-is_open :
    (b : DecodeBalancer) (best : Best)
    → is_open b.nodes best.index ≡ true
    → is_open b.nodes (spread b best).0 ≡ true
unfolding spread
spread-is_open b best h =
    elim (Bool-cases (best.load == 0 && best.requests == 0 && ltb 1 (available b.nodes))) [
      | inr busy ↦ rw (busy, spread) h
      | inl tie ↦
          let (j, e, o) = nth_available-is_open (b.rr % available b.nodes) 0 b.nodes best.index (
            turn-lt b.rr (available b.nodes)
              (many best.load best.requests (available b.nodes) tie)) in
          rw (tie, spread) (rw (e ∙ zero-add j) o)
    ]

choose_pinned :
    (key : Str) (b : DecodeBalancer) (i : ℕ)
    → pinned key b ≡ some i
    → choose_node key b
      ≡ ok (
        some i,
        record b { sticky = record b.sticky { order = touch str_discrete key b.sticky.order } },
      )
unfolding choose_node
choose_pinned key b i h = rw (h, choose_node) refl

placed :
    {i j : ℕ} {b b' : DecodeBalancer}
    → Path (Result Panic (Option ℕ × DecodeBalancer)) (ok (some i, b)) (ok (some j, b'))
    → (j ≡ i) × (b' ≡ b)
placed e = (cc, cc)

choose_fresh :
    (key : Str) (b b' : DecodeBalancer) (i : ℕ)
    → pinned key b ≡ none
    → choose_node key b ≡ ok (some i, b')
    → (best : Best) × (least_loaded 0 b.nodes none ≡ some best)
      × (i ≡ (spread b best).0)
      × (b'.nodes ≡ b.nodes)
unfolding choose_node
choose_fresh key b b' i unpinned h = elim (Option-cases (least_loaded 0 b.nodes none)) [
  | inl fenced ↦ cc (rw fenced at (rw (unpinned, choose_node) at h))
  | inr (best, least) ↦
      let (sticky, kept, e) =
        >>=-eq-ok (remember str_discrete b.sticky key (spread b best).0) _
          (rw least at (rw (unpinned, choose_node) at h)) in
      (best, least, (placed e).0, ap (λ (c : DecodeBalancer). c.nodes) (placed e).1)
]

-- `chooseNode` answers with an engine that takes conversations, whatever is pinned or tied.
pub choose_node-is_open :
    (key : Str) (b b' : DecodeBalancer) (i : ℕ)
    → choose_node key b ≡ ok (some i, b')
    → (b'.nodes ≡ b.nodes) × (is_open b.nodes i ≡ true)
choose_node-is_open key b b' i h = elim (Option-cases (pinned key b)) [
  | inl unpinned ↦
      let (best, least, e, same_nodes) = choose_fresh key b b' i unpinned h in
      elim (least_loaded-is_open 0 b.nodes none best least) [
        | inl impossible ↦ cc impossible
        | inr (j, at_j, o) ↦ (same_nodes, rw e (spread-is_open b best (rw (at_j ∙ zero-add j) o)))
      ]
  | inr (p, at_p) ↦
      let (same_index, same_balancer) = placed (sym (choose_pinned key b p at_p) ∙ h) in
      (
        ap (λ (c : DecodeBalancer). c.nodes) same_balancer,
        rw same_index (pinned-is_open key b p at_p),
      )
]
