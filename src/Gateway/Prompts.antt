-- ===== src/Gateway/Prompts.antt =====
-- internal/gateway/cachecost.go: the last prompts that were routed, a lower bound on what a slot holds.
-- The registry is that of Gateway/Lru, with the tokens of a prompt for its values.
use sofmat.Base.{
  ℕ, suc, ◌≤◌, ◌≡◌, refl, ap, ◌∙◌, ◌⊎◌, inl, inr, ite, if_pos, List, [], ◌∷◌, ◌++◌, none, some,
  arith, ltb, if◌then◌else◌, length, take, ok, Option-cases,
}
use sofmat.Base.Assoc.{lookup}
use sofmat.Base.Int.{ℤ, pos, pos_part, leb_ℤ}
use sofmat.Base.Strings.{Str, str_discrete, same}
use sofmat.Gateway.Lru.{Lru, empty, remember}
use sofmat.Gateway.Lru.History.{lookup-remember}

-- `newLastPrompts`.
unfoldable pub new_last_prompts : {T : Type 0} → ℤ → Lru Str (List T)
new_last_prompts capacity = empty (if leb_ℤ capacity (pos 0) then 4 else pos_part capacity)

module _ {T : Type 0} (dec : Discrete T) where
  -- The loop of `commonPrefix`: how many leading tokens agree.
  unfoldable pub match_length : List T → List T → ℕ
  match_length [] ids = 0
  match_length (p ∷ prev) [] = 0
  match_length (p ∷ prev) (t ∷ ids) = ite (dec p t) (suc (match_length prev ids)) 0

  -- `commonPrefix`.
  unfoldable pub common_prefix : Lru Str (List T) → Str → List T → ℕ
  common_prefix l key ids = elim (lookup str_discrete key l.values) [
    | none ↦ 0
    | some prev ↦ match_length prev ids
  ]

  -- `bestPrefix`.
  unfoldable pub best_prefix : Lru Str (List T) → Str → Str → List T → ℕ
  best_prefix l ckey pkey ids =
      let n = common_prefix l ckey ids in
      if same ckey pkey
      then n
      else if ltb n (common_prefix l pkey ids)
      then common_prefix l pkey ids
      else n

  match_length-take :
      (prev ids : List T) → take (match_length prev ids) prev ≡ take (match_length prev ids) ids
  unfolding match_length
  match_length-take [] ids = refl
  match_length-take (p ∷ prev) [] = refl
  match_length-take (p ∷ prev) (t ∷ ids) =
      elim (dec p t)
        as (λ d.
          take (ite d (suc (match_length prev ids)) 0) (p ∷ prev)
          ≡ take (ite d (suc (match_length prev ids)) 0) (t ∷ ids)) [
            | yes e ↦ rw e (ap (◌∷◌ t) (match_length-take prev ids))
            | no _ ↦ refl
          ]

  match_length-append : (ids more : List T) → match_length ids (ids ++ more) ≡ length ids
  unfolding match_length
  match_length-append [] more = refl
  match_length-append (t ∷ ids) more =
      if_pos (dec t t) refl (suc (match_length ids (ids ++ more))) 0
      ∙ ap suc (match_length-append ids more)

  common_or_none :
      (l : Lru Str (List T)) (key : Str) (ids : List T)
      → (common_prefix l key ids ≡ 0)
        ⊎ ((prev : List T) × (lookup str_discrete key l.values ≡ some prev)
            × (take (common_prefix l key ids) prev ≡ take (common_prefix l key ids) ids))
  unfolding common_prefix
  common_or_none l key ids = elim (Option-cases (lookup str_discrete key l.values)) [
    | inl unknown ↦ inl (rw (unknown, common_prefix) refl)
    | inr (prev, known) ↦ inr (prev, known, rw (known, common_prefix) (match_length-take prev ids))
  ]

  best_prefix-cases :
      (l : Lru Str (List T)) (ckey pkey : Str) (ids : List T)
      → (best_prefix l ckey pkey ids ≡ common_prefix l ckey ids)
        ⊎ (best_prefix l ckey pkey ids ≡ common_prefix l pkey ids)
  unfolding best_prefix
  best_prefix-cases l ckey pkey ids = ground arith

  common-le-best :
      (l : Lru Str (List T)) (ckey pkey : Str) (ids : List T)
      → common_prefix l ckey ids ≤ best_prefix l ckey pkey ids
  unfolding best_prefix
  common-le-best l ckey pkey ids = ground arith

  -- `bestPrefix` counts nothing, or tokens that the request shares with the last prompt of one of the two
  -- keys.
  pub best_prefix_sound :
      (l : Lru Str (List T)) (ckey pkey : Str) (ids : List T)
      → (best_prefix l ckey pkey ids ≡ 0)
        ⊎ ((key : Str) × (prev : List T) × ((key ≡ ckey) ⊎ (key ≡ pkey))
            × (lookup str_discrete key l.values ≡ some prev)
            × (take (best_prefix l ckey pkey ids) prev ≡ take (best_prefix l ckey pkey ids) ids))
  best_prefix_sound l ckey pkey ids = elim (best_prefix-cases l ckey pkey ids) [
    | inl e ↦ elim (common_or_none l ckey ids) [
      | inl nothing ↦ inl (e ∙ nothing)
      | inr (prev, known, agree) ↦ inr (ckey, prev, inl refl, known, rw e agree)
    ]
    | inr e ↦ elim (common_or_none l pkey ids) [
      | inl nothing ↦ inl (e ∙ nothing)
      | inr (prev, known, agree) ↦ inr (pkey, prev, inr refl, known, rw e agree)
    ]
  ]

  -- A conversation that continues its last prompt is credited with all of it, at least.
  pub best_prefix-remember :
      (l l' : Lru Str (List T)) (ckey pkey : Str) (ids more : List T)
      → remember str_discrete l ckey ids ≡ ok l'
      → length ids ≤ best_prefix l' ckey pkey (ids ++ more)
  unfolding common_prefix
  best_prefix-remember l l' ckey pkey ids more h =
      let all : common_prefix l' ckey (ids ++ more) ≡ length ids =
        rw (lookup-remember str_discrete l l' ckey ids h, common_prefix)
          (match_length-append ids more) in
      omega (arith, all, common-le-best l' ckey pkey (ids ++ more))
