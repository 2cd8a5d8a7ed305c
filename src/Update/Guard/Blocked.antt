-- ===== src/Update/Guard/Blocked.antt =====
-- cmd/sofmat/updateguard.go: what the panel's line of `blockedReason` says and does not say.
use sofmat.Base.{
  ℕ, ◌<◌, ◌≡◌, refl, Bool, true, false, not, ◌&&◌, List, [], ◌∷◌, none, some, arith, leb,
  Bool-cases, if_neg, ap, inl, inr, All,
}
use sofmat.Base.Assoc.{keys, lookup}
use sofmat.Base.Strings.{Str, str_discrete, str_le}
use sofmat.Update.Guard.{
  Updater, UpdateState, tried_out, load_update_state, count_at, place, sort_strings, first, tried,
  blocked_reason,
}

-- None of the keys passes the test.
abbrev None : (Str → Bool) → List Str → Type 0
None test = All (λ k. test k ≡ false)

None-place :
    (test : Str → Bool) (k : Str) (ks : List Str)
    → None test (place k ks)
    → (test k ≡ false) × None test ks
unfolding place
None-place test k [] h = h
None-place test k (j ∷ js) h = ground (arith, None-place test k js)

-- Sorting loses no key.
None-sort_strings : (test : Str → Bool) (ks : List Str) → None test (sort_strings ks) → None test ks
unfolding sort_strings
None-sort_strings test [] h = tt
None-sort_strings test (k ∷ ks) h =
    let (here, rest) = None-place test k (sort_strings ks) h in
    (here, None-sort_strings test ks rest)

-- A key that passes the test is not in the map.
None-keys :
    {V : Type 0} (test : Str → Bool) (m : List (Str × V)) (t : Str)
    → None test (keys m)
    → test t ≡ true
    → lookup str_discrete t m ≡ none
unfolding lookup
None-keys test [] t h e = refl
None-keys test ((k, w) ∷ m) t h e = elim (str_discrete k t) [
  | yes here ↦ cc (ap test here)
  | no away ↦
      rw (if_neg (str_discrete k t) away (some w) (lookup str_discrete t m))
        (None-keys test m t h.1 e)
]

first-none : (test : Str → Bool) (ks : List Str) → first test ks ≡ none → None test ks
unfolding first
first-none test [] h = tt
first-none test (k ∷ ks) h = ground (arith, first-none test ks)

first-some : (test : Str → Bool) (ks : List Str) (t : Str) → first test ks ≡ some t → test t ≡ true
unfolding first
first-some test [] t h = cc
first-some test (k ∷ ks) t h = ground (arith, first-some test ks t)

blocked_parts :
    (version : Str) (u : Updater)
    → (blocked_reason version u).0 ≡ none
    → ((load_update_state u).1.corrupt ≡ false)
      × (first
            (tried version (load_update_state u).0.attempts)
            (sort_strings (keys (load_update_state u).0.attempts))
          ≡ none)
      × (first
            (λ t. not (str_le t version))
            (sort_strings (keys (load_update_state u).0.refused_tags))
          ≡ none)
unfolding blocked_reason
blocked_parts version u h = ground arith

below : (n : ℕ) → leb 3 n ≡ false → n < 3
below n h = ground arith

over_newer : (n : ℕ) (old : Bool) → (not old && leb 3 n) ≡ true → (old ≡ false) × (2 < n)
over_newer n old h = ground arith

few_tried :
    (version t : Str) (st : UpdateState)
    → first (tried version st.attempts) (sort_strings (keys st.attempts)) ≡ none
    → str_le t version ≡ false
    → count_at t st.attempts < 3
few_tried version t st h newer =
    let few =
      None-sort_strings (tried version st.attempts) (keys st.attempts)
        (first-none _ (sort_strings (keys st.attempts)) h) in
    elim (Bool-cases (leb 3 (count_at t st.attempts))) [
      | inr under ↦ below (count_at t st.attempts) under
      | inl over ↦
          let gone = None-keys (tried version st.attempts) st.attempts t few (rw newer over) in
          rw (gone, count_at) ground arith
    ]

-- A panel that shows no block means a file that could be read and, for every version above the running
-- one, an attempt that is left and no refused release.
pub blocked_none :
    (version t : Str) (u : Updater)
    → (blocked_reason version u).0 ≡ none
    → str_le t version ≡ false
    → ((load_update_state u).1.corrupt ≡ false)
      × (count_at t (load_update_state u).0.attempts < 3)
      × (lookup str_discrete t (load_update_state u).0.refused_tags ≡ none)
blocked_none version t u h newer =
    let (readable, none_spent, none_bad) = blocked_parts version u h in
    let st = (load_update_state u).0 in
    let bad =
      None-keys (λ k. not (str_le k version)) st.refused_tags t
        (None-sort_strings (λ k. not (str_le k version)) (keys st.refused_tags)
          (first-none _ (sort_strings (keys st.refused_tags)) none_bad)) in
    (readable, few_tried version t st none_spent newer, bad (rw newer refl))

blocked_first :
    (version t : Str) (u : Updater)
    → (blocked_reason version u).0 ≡ some (tried_out t)
    → first
        (tried version (load_update_state u).0.attempts)
        (sort_strings (keys (load_update_state u).0.attempts))
      ≡ some t
unfolding blocked_reason
blocked_first version t u h = ground arith

-- A version that the panel reports as tried out is above the running one, with its attempts spent.
pub blocked_tried :
    (version t : Str) (u : Updater)
    → (blocked_reason version u).0 ≡ some (tried_out t)
    → (str_le t version ≡ false) × (2 < count_at t (load_update_state u).0.attempts)
blocked_tried version t u h =
    over_newer (count_at t (load_update_state u).0.attempts) (str_le t version)
      (first-some _ _ t (blocked_first version t u h))
