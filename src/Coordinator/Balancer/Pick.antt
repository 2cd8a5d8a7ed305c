-- ===== src/Coordinator/Balancer/Pick.antt =====
-- internal/coordinator/balancer.go: `pick`, which claims the room of a request or refuses it. `rounds` is
-- the number of sleeps of 250 ms that fit before the deadline, `others` is what other requests do in a
-- sleep, and `between` what they do between the last test of the room and the claim, which no lock joins.
use sofmat.Base.{ℕ, zero, suc, ◌==◌, if◌then◌else◌, Bool, [], ◌∷◌, none, some, Result, ok, ◌>>=◌}
use sofmat.Base.Int.{ℤ, pos_part}
use sofmat.Base.Strings.{Str, str_discrete}
use sofmat.Gateway.Lru.{Panic, remember}
use sofmat.Coordinator.Balancer.{
  DecodeBalancer, claim, invalidate_held, release, update_at, choose_node, fits_at, free_from,
  too_big_for_every_engine,
}

pub data PickError : Type 0 where
  too_big : ℕ → ℕ → PickError
  decode_training : PickError
  engine_full : ℕ → PickError

pub data Answer : Type 0 where
  no_engines : Answer
  serves : ℕ → Answer
  refuses : PickError → Answer

-- `remember`, under the lock.
unfoldable pub repin : Str → ℕ → DecodeBalancer → Result Panic DecodeBalancer
repin key i b = do sticky ← remember str_discrete b.sticky key i; ok (record b { sticky = sticky })

abbrev pub claim_at : ℕ → ℕ → DecodeBalancer → DecodeBalancer
claim_at tok i b = record b { nodes = update_at i (λ n. invalidate_held (claim tok n)) b.nodes }

-- The function that `pick` hands out.
abbrev pub release_at : ℕ → ℕ → DecodeBalancer → DecodeBalancer
release_at tok i b = record b { nodes = update_at i (λ n. invalidate_held (release tok n)) b.nodes }

module _ (within : ℕ → ℕ → Bool) (between : DecodeBalancer → DecodeBalancer) where
  -- The end of `pick`: the claim, if there is room by now.
  unfoldable pub claim_or_refuse : ℕ → ℕ × DecodeBalancer → Answer × DecodeBalancer
  claim_or_refuse tok w =
      let (room, b) = fits_at within tok w.0 w.1 in
      if room then (serves w.0, claim_at tok w.0 (between b)) else (refuses (engine_full w.0), b)

module _ (within : ℕ → ℕ → Bool) (usable : ℕ → ℕ)
    (others : ℕ → DecodeBalancer → DecodeBalancer) where
  -- The loop of `pick` for the engine `i`.
  unfoldable pub wait_for_room :
      Str → ℕ → ℕ → ℕ → DecodeBalancer → Result Panic (ℕ × DecodeBalancer)
  wait_for_room key tok zero i b = ok (i, (fits_at within tok i b).1)
  wait_for_room key tok (suc rounds) i b =
      let (room, b') = fits_at within tok i b in
      let (alt, b'') = free_from within tok 0 b'.nodes b' in
      let rest = wait_for_room key tok rounds i (others rounds b'') in
      if room then ok (i, b') else elim alt [
        | none ↦ rest
        | some a ↦ if a == i then rest else repin key a b'' >>= λ c. ok (a, c)
      ]

module _ (within : ℕ → ℕ → Bool) (usable : ℕ → ℕ) (others : ℕ → DecodeBalancer → DecodeBalancer)
    (between : DecodeBalancer → DecodeBalancer) where
  -- What `pick` does when the request is not too big.
  unfoldable pub pick_engine : Str → ℕ → ℕ → DecodeBalancer → Result Panic (Answer × DecodeBalancer)
  pick_engine key tok rounds b = do
    (chosen, b') ← choose_node key b
    elim chosen [
      | none ↦ ok (refuses decode_training, b')
      | some i ↦ wait_for_room within usable others key tok rounds i b' >>= λ w.
          ok (claim_or_refuse within between tok w)
    ]

  -- `pick`.
  unfoldable pub pick : Str → ℤ → ℕ → DecodeBalancer → Result Panic (Answer × DecodeBalancer)
  pick key est_tokens rounds b = elim b.nodes [
    | [] ↦ ok (no_engines, b)
    | _ ∷ _ ↦ elim (too_big_for_every_engine usable (pos_part est_tokens) b) [
      | some (i, room) ↦ ok (refuses (too_big i room), b)
      | none ↦ pick_engine key (pos_part est_tokens) rounds b
    ]
  ]
