-- ===== src/Gateway/Depth.antt =====
-- internal/gateway/policy.go: how many tokens are drafted (NMaxForAlpha, NextWaveNMax, ClassifyDomain), and
-- AlphaEma, the average that decides it. Floats are as in the partitioner; a decimal of the code is the
-- quotient of two whole numbers, which rounds to the same float. The expression of the code markers and
-- `strings.ToLower` are parameters.
pub mod Warmup
mod Tests
use sofmat.Base.{
  ℕ, zero, suc, ◌+◌, Bool, true, false, ◌||◌, List, [], ◌∷◌, Option, none, some, ltb, leb, ◌==◌,
  min, if◌then◌else◌,
}
use sofmat.Base.Assoc.{lookup, insert}
use sofmat.Base.Int.{ℤ, pos, ltb_ℤ, leb_ℤ}
use sofmat.Base.Strings.{Str, str_discrete}
use sofmat.Partitioner.{Floats}

abbrev pub n_max_floor : ℕ
n_max_floor = 2

abbrev pub n_max_cap : ℕ
n_max_cap = 4

pub data Domain : Type 0 where
  code technical prose : Domain

-- `strings.HasPrefix` and `strings.Contains`.
abbrev pub starts : Str → Str → Bool
starts [] s = true
starts (c ∷ w) [] = false
starts (c ∷ w) (d ∷ s) = if c == d then starts w s else false

abbrev pub has_word : Str → Str → Bool
has_word w [] = starts w []
has_word w (c ∷ s) = if starts w (c ∷ s) then true else has_word w s

abbrev pub has_any : List Str → Str → Bool
has_any [] s = false
has_any (w ∷ ws) s = if has_word w s then true else has_any ws s

abbrev pub technical_words : List Str
technical_words =
    (b'p' ∷ b'r' ∷ b'o' ∷ b't' ∷ b'o' ∷ b'c' ∷ b'o' ∷ b'l' ∷ [])
    ∷ (b'p' ∷ b'r' ∷ b'o' ∷ b't' ∷ b'o' ∷ b'c' ∷ b'o' ∷ b'l' ∷ b'o' ∷ [])
    ∷ (b'a' ∷ b'l' ∷ b'g' ∷ b'o' ∷ b'r' ∷ b'i' ∷ b't' ∷ b'h' ∷ b'm' ∷ [])
    ∷ (b'a' ∷ b'l' ∷ b'g' ∷ b'o' ∷ b'r' ∷ b'i' ∷ b't' ∷ b'm' ∷ b'o' ∷ [])
    ∷ (b'l' ∷ b'a' ∷ b't' ∷ b'e' ∷ b'n' ∷ b'c' ∷ b'y' ∷ [])
    ∷ (b't' ∷ b'h' ∷ b'r' ∷ b'o' ∷ b'u' ∷ b'g' ∷ b'h' ∷ b'p' ∷ b'u' ∷ b't' ∷ [])
    ∷ (b'c' ∷ b'a' ∷ b'c' ∷ b'h' ∷ b'e' ∷ [])
    ∷ (b'k' ∷ b'e' ∷ b'r' ∷ b'n' ∷ b'e' ∷ b'l' ∷ [])
    ∷ (b't' ∷ b'c' ∷ b'p' ∷ [])
    ∷ (b'h' ∷ b't' ∷ b't' ∷ b'p' ∷ [])
    ∷ (b'g' ∷ b'p' ∷ b'u' ∷ [])
    ∷ (b'c' ∷ b'o' ∷ b'n' ∷ b'f' ∷ b'i' ∷ b'g' ∷ [])
    ∷ []

abbrev pub times_of : Option ℕ → ℕ
times_of none = 0
times_of (some n) = n

-- The depth when there is no error, and the lowest one when there is.
abbrev pub n_or_floor : Option ℕ → ℕ
n_or_floor (some n) = n
n_or_floor none = n_max_floor

-- A cap of 0 or less is the cap of the module.
unfoldable pub limited : ℕ → ℤ → ℤ
limited n cap =
    let limit : ℤ = if leb_ℤ cap (pos 0) then pos n_max_cap else cap in
    if ltb_ℤ limit (pos n) then limit else pos n

pub record Alphas (F : Type 0) : Type 0 where
  pub smoothing : F
  pub warmup : ℤ
  pub ema : List (Str × F)
  pub counts : List (Str × ℕ)

module _ {F : Type 0} (fl : Floats F) where
  abbrev pub hundredths : ℕ → F
  hundredths n = fl.div (fl.of_int (pos n)) (fl.of_int (pos 100))

  abbrev pub zero_alpha : F
  zero_alpha = fl.of_int (pos 0)

  abbrev pub one_alpha : F
  one_alpha = fl.of_int (pos 1)

  -- `NMaxForAlpha`, with `none` for the error.
  unfoldable pub n_max_for_alpha : F → Option ℕ
  n_max_for_alpha alpha =
      if fl.lt alpha zero_alpha || fl.lt one_alpha alpha
      then none
      else let n = if fl.le (hundredths 55) alpha then 3 else 2 in
        let m = if ltb n n_max_floor then n_max_floor else n in
        some (if ltb n_max_cap m then n_max_cap else m)

  -- `domainAlpha`.
  abbrev pub domain_alpha : Domain → F
  domain_alpha code = hundredths 96
  domain_alpha technical = hundredths 59
  domain_alpha prose = hundredths 39

  module _ (code_markers : Str → Bool) (to_lower : Str → Str) where
    -- `ClassifyDomain`.
    abbrev pub classify_domain : Str → Domain
    classify_domain prompt =
        if code_markers prompt
        then code
        else if has_any technical_words (to_lower prompt)
        then technical
        else prose

    abbrev pub alpha_of : Option F → Option Str → F
    alpha_of (some a) prompt = a
    alpha_of none (some p) = domain_alpha (classify_domain p)
    alpha_of none none = domain_alpha technical

    -- `NextWaveNMax`.
    unfoldable pub next_wave_n_max : Option F → Option Str → ℤ → ℤ
    next_wave_n_max alpha_ema prompt cap =
        limited (n_or_floor (n_max_for_alpha (alpha_of alpha_ema prompt))) cap

  -- `NewAlphaEma`, with `none` for the error.
  unfoldable pub new_alphas : F → ℤ → Option (Alphas F)
  new_alphas smoothing warmup =
      if fl.le smoothing zero_alpha || fl.lt one_alpha smoothing
      then none
      else some (record { smoothing = smoothing; warmup = warmup; ema = []; counts = [] })

  abbrev pub clamp_rate : F → F
  clamp_rate rate =
      let low = if fl.lt rate zero_alpha then zero_alpha else rate in
      if fl.lt one_alpha low then one_alpha else low

  abbrev pub smoothed : F → F → Option F → F
  smoothed s rate none = rate
  smoothed s rate (some prev) = fl.add (fl.mul s rate) (fl.mul (fl.sub one_alpha s) prev)

  -- `Update`.
  unfoldable pub update : Str → ℤ → ℤ → Alphas F → Alphas F
  update key drafted accepted e =
      if leb_ℤ drafted (pos 0)
      then e
      else let rate = clamp_rate (fl.div (fl.of_int accepted) (fl.of_int drafted)) in
        record e {
          ema =
              insert str_discrete key (smoothed e.smoothing rate (lookup str_discrete key e.ema))
                e.ema;
          counts =
              insert str_discrete key (times_of (lookup str_discrete key e.counts) + 1) e.counts;
        }

-- `Get`.
unfoldable pub get : {F : Type 0} → Str → Alphas F → Option F
get key e =
    if ltb_ℤ (pos (times_of (lookup str_discrete key e.counts))) e.warmup
    then none
    else lookup str_discrete key e.ema
