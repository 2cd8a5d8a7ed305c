-- ===== src/Coordinator/Balancer/Room.antt =====
-- internal/coordinator/balancer.go: `pick` and the budget of an engine. The test in floating point agrees
-- with the room that the code prints.
use sofmat.Base.{
  ℕ, zero, suc, ◌+◌, ◌≤◌, ◌≡◌, refl, sym, ap, ◌∙◌, inl, inr, Bool, true, false, List, [], ◌∷◌, none,
  some, arith, ltb, leb, if◌then◌else◌, Result, ok, Option-cases, >>=-eq-ok,
}
use sofmat.Base.Int.{ℤ, pos_part}
use sofmat.Base.Strings.{Str}
use sofmat.Gateway.Lru.{Panic}
use sofmat.Coordinator.Balancer.{
  DecodeNode, DecodeBalancer, held_tokens, node_at, update_at, fits, fits_at, choose_node, claim,
  invalidate_held,
}
use sofmat.Coordinator.Balancer.Pick.{
  Answer, serves, wait_for_room, claim_or_refuse, claim_at, pick_engine, pick,
}

held_tokens_keeps :
    (n : DecodeNode) → ((held_tokens n).1.tokens ≡ n.tokens) × ((held_tokens n).1.budget ≡ n.budget)
unfolding held_tokens
held_tokens_keeps n = ground arith

node_at-update_at :
    (i : ℕ) (f : DecodeNode → DecodeNode) (ns : List DecodeNode) (n : DecodeNode)
    → node_at i ns ≡ some n
    → node_at i (update_at i f ns) ≡ some (f n)
unfolding node_at update_at
node_at-update_at i f [] n h = cc
node_at-update_at zero f (m ∷ ns) n h = ground arith
node_at-update_at (suc i) f (m ∷ ns) n h = node_at-update_at i f ns n h

beside_held :
    (tokens held tok room : ℕ)
    → leb ((if ltb tokens held then held else tokens) + tok) room ≡ true
    → tokens + tok ≤ room
beside_held tokens held tok room h = ground arith

claimed_room :
    (m h n tok room_m room_n : ℕ)
    → m ≤ h
    → h ≡ n
    → n + tok ≤ room_n
    → room_m ≡ room_n
    → m + tok ≤ room_m
claimed_room m h n tok room_m room_n fewer same fit e = omega arith

-- No engine gets more tokens, and none another budget.
abbrev pub Quiet : (DecodeBalancer → DecodeBalancer) → Type 0
Quiet between =
    (b : DecodeBalancer) (i : ℕ) (n : DecodeNode)
    → node_at i b.nodes ≡ some n
    → (m : DecodeNode) × (node_at i (between b).nodes ≡ some m)
      × (m.tokens ≤ n.tokens)
      × (m.budget ≡ n.budget)

module _ (within : ℕ → ℕ → Bool) (usable : ℕ → ℕ)
    (floats : (amount budget : ℕ) → within amount budget ≡ leb amount (usable budget)) where
  -- Room for a request, whatever the engine holds, is room beside the tokens in flight.
  pub fits_bound :
      (tok : ℕ) (n : DecodeNode) → (fits within tok n).0 ≡ true → n.tokens + tok ≤ usable n.budget
  unfolding fits
  fits_bound tok n h =
      beside_held n.tokens (held_tokens n).0 tok (usable n.budget) (sym (floats _ n.budget) ∙ h)

  claim_serves :
      (between : DecodeBalancer → DecodeBalancer) (tok i : ℕ) (b' : DecodeBalancer)
      (w : ℕ × DecodeBalancer)
      → claim_or_refuse within between tok w ≡ (serves i, b')
      → ((fits_at within tok w.0 w.1).0 ≡ true)
        × (w.0 ≡ i)
        × (b' ≡ claim_at tok w.0 (between (fits_at within tok w.0 w.1).1))
  unfolding claim_or_refuse
  claim_serves between tok i b' w h = ground arith

  fits_at-none :
      (tok i : ℕ) (b : DecodeBalancer)
      → node_at i b.nodes ≡ none
      → (fits_at within tok i b).0 ≡ false
  unfolding fits_at
  fits_at-none tok i b h = rw (h, fits_at) refl

  fits_at-some :
      (tok i : ℕ) (b : DecodeBalancer) (n : DecodeNode)
      → node_at i b.nodes ≡ some n
      → fits_at within tok i b ≡ (
        (fits within tok n).0,
        record b { nodes = update_at i (λ _. (fits within tok n).1) b.nodes },
      )
  unfolding fits_at
  fits_at-some tok i b n h = rw (h, fits_at) refl

  held_at :
      (tok i : ℕ) (b : DecodeBalancer) (n : DecodeNode)
      → node_at i b.nodes ≡ some n
      → node_at i (fits_at within tok i b).1.nodes ≡ some (held_tokens n).1
  unfolding fits
  held_at tok i b n h =
      rw (fits_at-some tok i b n h) (node_at-update_at i (λ _. (held_tokens n).1) b.nodes n h)

  claim_bound :
      (between : DecodeBalancer → DecodeBalancer) (tok i : ℕ) (b' : DecodeBalancer)
      (w : ℕ × DecodeBalancer)
      → Quiet between
      → claim_or_refuse within between tok w ≡ (serves i, b')
      → (m : DecodeNode) × (node_at i b'.nodes ≡ some m)
        × (m.tokens ≤ usable m.budget)
        × (tok ≤ m.tokens)
  claim_bound between tok i b' w quiet h =
      let (room, same_index, after) = claim_serves between tok i b' w h in
      elim (Option-cases (node_at w.0 w.1.nodes)) [
        | inl nothing ↦ cc (fits_at-none tok w.0 w.1 nothing, room)
        | inr (n, at_n) ↦
            let (same_tokens, same_budget) = held_tokens_keeps n in
            let fit = fits_bound tok n (
              sym (ap (λ (r : Bool × DecodeBalancer). r.0) (fits_at-some tok w.0 w.1 n at_n))
              ∙ room) in
            let tested = (fits_at within tok w.0 w.1).1 in
            let (m, at_m, fewer, budget) =
              quiet tested w.0 (held_tokens n).1 (held_at tok w.0 w.1 n at_n) in
            (
              invalidate_held (claim tok m),
              rw after
                  (rw (sym same_index) (node_at-update_at w.0 _ (between tested).nodes m at_m)),
              claimed_room m.tokens (held_tokens n).1.tokens n.tokens tok _ _ fewer same_tokens fit
                  (ap usable (budget ∙ same_budget)),
              omega arith,
            )
      ]

  answered :
      (answer : Answer) (b b' : DecodeBalancer) (w : Answer × DecodeBalancer)
      → Path (Result Panic (Answer × DecodeBalancer)) (ok w) (ok (answer, b'))
      → w ≡ (answer, b')
  answered answer b b' w e = cc

  pick_engine_claims :
      (others : ℕ → DecodeBalancer → DecodeBalancer) (between : DecodeBalancer → DecodeBalancer)
      (key : Str) (tok rounds i : ℕ) (b b' : DecodeBalancer)
      → pick_engine within usable others between key tok rounds b ≡ ok (serves i, b')
      → (w : ℕ × DecodeBalancer) × (claim_or_refuse within between tok w ≡ (serves i, b'))
  unfolding pick_engine
  pick_engine_claims others between key tok rounds i b b' h =
      let (p, chosen, e) = >>=-eq-ok (choose_node key b) _ h in
      elim (Option-cases p.0) [
        | inl nothing ↦ cc (rw nothing at e)
        | inr (j, at_j) ↦
            let (w, waited, e') =
              >>=-eq-ok (wait_for_room within usable others key tok rounds j p.1) _
                (rw at_j at e) in
            (w, answered (serves i) b b' _ e')
      ]

  pick_serves :
      (others : ℕ → DecodeBalancer → DecodeBalancer) (between : DecodeBalancer → DecodeBalancer)
      (key : Str) (est_tokens : ℤ) (rounds i : ℕ) (b b' : DecodeBalancer)
      → pick within usable others between key est_tokens rounds b ≡ ok (serves i, b')
      → pick_engine within usable others between key (pos_part est_tokens) rounds b
        ≡ ok (serves i, b')
  unfolding pick
  pick_serves others between key est_tokens rounds i b b' h = ground arith

  -- When other requests claim nothing between the last test of the room and the claim, an engine that
  -- `pick` answers with holds the request, and all that is in flight on it still fits.
  pub pick_bound :
      (others : ℕ → DecodeBalancer → DecodeBalancer) (between : DecodeBalancer → DecodeBalancer)
      (key : Str) (est_tokens : ℤ) (rounds i : ℕ) (b b' : DecodeBalancer)
      → Quiet between
      → pick within usable others between key est_tokens rounds b ≡ ok (serves i, b')
      → (m : DecodeNode) × (node_at i b'.nodes ≡ some m)
        × (m.tokens ≤ usable m.budget)
        × (pos_part est_tokens ≤ m.tokens)
  pick_bound others between key est_tokens rounds i b b' quiet h =
      let (w, e) =
        pick_engine_claims others between key (pos_part est_tokens) rounds i b b'
          (pick_serves others between key est_tokens rounds i b b' h) in
      claim_bound between (pos_part est_tokens) i b' w quiet e
