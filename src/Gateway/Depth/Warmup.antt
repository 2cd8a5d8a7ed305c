-- ===== src/Gateway/Depth/Warmup.antt =====
-- internal/gateway/policy.go: the depth that NextWaveNMax gives, and when AlphaEma has an average.
use native.Mathlib.Nat.{zero-add, add-zero}
use sofmat.Base.{
  ℕ, zero, suc, ◌+◌, ◌≤◌, ◌≡◌, refl, subst, sym, ◌∙◌, Bool, ◌||◌, List, [], ◌∷◌, Option, none, some,
  ite, if◌then◌else◌, arith, ◌↔◌, ◌⊎◌, inl, inr, Bool-cases,
}
use sofmat.Base.Assoc.{lookup, lookup-insert}
use sofmat.Base.Int.{ℤ, pos, negsuc, ◌≤ℤ◌, ◌<ℤ◌, ltb_ℤ, leb_ℤ}
use sofmat.Base.Strings.{Str, str_discrete}
use sofmat.Partitioner.{Floats}
use sofmat.Gateway.Depth.{
  Alphas, n_max_for_alpha, next_wave_n_max, alpha_of, one_alpha, zero_alpha, n_or_floor, limited,
  times_of, update, get, new_alphas,
}

-- What a depth is within: at most 3, and at most a cap above 0; at least 2, or the cap when that is
-- above 0.
abbrev pub InDepth : ℤ → ℤ → Type 0
InDepth cap d =
    (d ≤ℤ pos 3) × ((cap ≤ℤ pos 0) ⊎ (d ≤ℤ cap)) × (((d ≡ cap) × (pos 1 ≤ℤ cap)) ⊎ (pos 2 ≤ℤ d))

limited-InDepth : (n : ℕ) (cap : ℤ) → 2 ≤ n → n ≤ 3 → InDepth cap (limited n cap)
unfolding limited
limited-InDepth n (negsuc c) h k = ground (arith, h, k)
limited-InDepth n (pos zero) h k = ground (arith, h, k)
limited-InDepth n (pos (suc c)) h k = ground (arith, h, k)

module _ {F : Type 0} (fl : Floats F) where
  n_max_for_alpha_bounds :
      (alpha : F)
      → (2 ≤ n_or_floor (n_max_for_alpha fl alpha)) × (n_or_floor (n_max_for_alpha fl alpha) ≤ 3)
  unfolding n_max_for_alpha
  n_max_for_alpha_bounds alpha = ground arith

  -- The depth that NextWaveNMax gives is at most 3, and at most the cap when the cap is above 0; it is 2
  -- at least, or a cap above 0.
  pub next_wave_n_max-InDepth :
      (markers : Str → Bool) (lower : Str → Str) (alpha : Option F) (prompt : Option Str) (cap : ℤ)
      → InDepth cap (next_wave_n_max fl markers lower alpha prompt cap)
  unfolding next_wave_n_max
  next_wave_n_max-InDepth markers lower alpha prompt cap =
      let bounds = n_max_for_alpha_bounds (alpha_of fl markers lower alpha prompt) in
      limited-InDepth _ cap bounds.0 bounds.1

shift : (a b c : ℕ) → b + (a + c) ≡ a + b + c
shift a b c = omega arith

-- How often a key was counted in some calls of Update.
abbrev pub counted : Str → List (Str × ℤ × ℤ) → ℕ
counted key [] = 0
counted key ((k, drafted, accepted) ∷ us) =
    (if leb_ℤ drafted (pos 0) then 0 else ite (str_discrete k key) 1 0) + counted key us

module _ {F : Type 0} (fl : Floats F) where
  abbrev pub update_all : List (Str × ℤ × ℤ) → Alphas F → Alphas F
  update_all [] e = e
  update_all ((k, drafted, accepted) ∷ us) e = update_all us (update fl k drafted accepted e)

  -- The count of a key, and that it has an average when it was counted.
  abbrev CountIs : Str → Alphas F → ℕ → Type 0
  CountIs key e n =
      (times_of (lookup str_discrete key e.counts) ≡ n)
      × ((lookup str_discrete key e.ema ≡ none) ↔ (n ≡ 0))

  update-CountIs :
      (key k : Str) (drafted accepted : ℤ) (e : Alphas F) (n : ℕ)
      → CountIs key e n
      → CountIs key
          (update fl k drafted accepted e)
          ((if leb_ℤ drafted (pos 0) then 0 else ite (str_discrete k key) 1 0) + n)
  unfolding update
  update-CountIs key k drafted accepted e n h = elim (Bool-cases (leb_ℤ drafted (pos 0))) [
    | inl idle ↦ rw (idle, zero-add) h
    | inr drafts ↦
        rw
          (
            drafts,
            lookup-insert str_discrete k key _ e.counts,
            lookup-insert str_discrete k key _ e.ema,
          )
          (counted_once (str_discrete k key) _)
  ]
    where
      counted_once :
          (same : Dec (k ≡ key)) (rate : F)
          → (times_of (
                ite same
                  (some (times_of (lookup str_discrete k e.counts) + 1))
                  (lookup str_discrete key e.counts))
              ≡ ite same 1 0 + n)
            × ((ite same (some rate) (lookup str_discrete key e.ema) ≡ none)
                ↔ (ite same 1 0 + n ≡ 0))
      counted_once (yes p) rate =
          let old : times_of (lookup str_discrete k e.counts) ≡ n =
            subst (λ x. times_of (lookup str_discrete x e.counts) ≡ n) (sym p) h.0 in
          (
            omega (arith, old),
            ((λ no_rate. cc), (λ none_counted. absurd (omega (arith, none_counted)))),
          )
      counted_once (no np) rate = rw (zero-add) h

  update_all-CountIs :
      (key : Str) (us : List (Str × ℤ × ℤ)) (e : Alphas F) (n : ℕ)
      → CountIs key e n
      → CountIs key (update_all us e) (counted key us + n)
  update_all-CountIs key [] e n h = rw zero-add h
  update_all-CountIs key ((k, drafted, accepted) ∷ us) e n h =
      let later =
        update_all-CountIs key us (update fl k drafted accepted e) _
          (update-CountIs key k drafted accepted e n h) in
      subst (CountIs key (update_all us (update fl k drafted accepted e)))
        (shift _ (counted key us) n) later

  new_alphas_start :
      (smoothing : F) (warmup : ℤ) (fresh : Alphas F) (key : Str)
      → new_alphas fl smoothing warmup ≡ some fresh
      → CountIs key fresh 0 × (fresh.warmup ≡ warmup)
  unfolding new_alphas lookup
  new_alphas_start smoothing warmup fresh key h =
      elim (Bool-cases (fl.le smoothing (zero_alpha fl) || fl.lt (one_alpha fl) smoothing)) [
        | inl bad ↦ absurd (cc (rw bad at h))
        | inr good ↦
            subst (λ x. CountIs key x 0 × (x.warmup ≡ warmup)) (some_same (rw good at h))
              ((refl, ((λ e. refl), (λ e. refl))), refl)
      ]
    where
      some_same : {a b : Alphas F} → some a ≡ some b → a ≡ b
      some_same e = cc

  waits :
      (c : ℕ) (w : ℤ) (o : Option F) (n : ℕ) (warmup : ℤ)
      → c ≡ n
      → w ≡ warmup
      → (o ≡ none) ↔ (n ≡ 0)
      → ((if ltb_ℤ (pos c) w then none else o) ≡ none) ↔ ((pos n <ℤ warmup) ⊎ (n ≡ 0))
  waits c w o n warmup same same_w average =
      rw (same, same_w)
        (elim (Bool-cases (ltb_ℤ (pos n) warmup)) [
          | inl early ↦ rw early ((λ e. inl (ground (arith, early))), (λ e. refl))
          | inr ready ↦ rw ready (
            (λ e. inr (average.0 e)),
            (λ h. elim h [
              | inl early ↦ absurd (ground (arith, early, ready))
              | inr never ↦ average.1 never
            ]),
          )
        ])

  -- Updates do not change the warm-up.
  update_all-warmup : (us : List (Str × ℤ × ℤ)) (e : Alphas F) → (update_all us e).warmup ≡ e.warmup
  unfolding update
  update_all-warmup [] e = refl
  update_all-warmup ((k, drafted, accepted) ∷ us) e =
      update_all-warmup us (update fl k drafted accepted e) ∙ kept_warmup
    where
      kept_warmup : (update fl k drafted accepted e).warmup ≡ e.warmup
      kept_warmup = ground arith

  -- After some calls of Update on a new average, Get gives none for a key just as long as it was counted
  -- less often than the warm-up asks, or never.
  pub update_all-get :
      (smoothing : F) (warmup : ℤ) (fresh : Alphas F) (us : List (Str × ℤ × ℤ)) (key : Str)
      → new_alphas fl smoothing warmup ≡ some fresh
      → (get key (update_all us fresh) ≡ none)
        ↔ ((pos (counted key us) <ℤ warmup) ⊎ (counted key us ≡ 0))
  unfolding get new_alphas
  update_all-get smoothing warmup fresh us key h =
      let (start, asks) = new_alphas_start smoothing warmup fresh key h in
      let (count, average) =
        subst (CountIs key (update_all us fresh)) (add-zero (counted key us))
          (update_all-CountIs key us fresh 0 start) in
      waits _ _ (lookup str_discrete key (update_all us fresh).ema) (counted key us) warmup count
        (update_all-warmup us fresh ∙ asks) average
