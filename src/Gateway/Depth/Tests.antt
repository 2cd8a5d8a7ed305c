-- ===== src/Gateway/Depth/Tests.antt =====
-- Tests of the depth of speculation over hundredths, and its theorems at concrete inputs.
use sofmat.Base.{
  ℕ, ◌+◌, ◌-◌, ◌*◌, ◌/◌, ◌≡◌, ◌↔◌, ◌⊎◌, refl, Bool, false, List, [], ◌∷◌, none, some, ltb, leb,
  ◌==◌, ℕ_discrete,
}
use sofmat.Base.Assoc.{lookup, insert}
use sofmat.Base.Int.{ℤ, pos, pos_part, ◌<ℤ◌}
use sofmat.Base.Strings.{Str, str_discrete}
use sofmat.Partitioner.{Floats}
use sofmat.Gateway.Depth.{
  Alphas, n_max_for_alpha, limited, next_wave_n_max, new_alphas, update, get,
}
use sofmat.Gateway.Depth.Warmup.{
  InDepth, next_wave_n_max-InDepth, counted, update_all, update_all-get,
}

depths : Unit {0}
unfolding lookup insert str_discrete ℕ_discrete n_max_for_alpha limited next_wave_n_max new_alphas
    update get
depths = tt

abbrev fixed : Floats ℕ
fixed = record {
  of_int = λ z. 100 * pos_part z;
  trunc = λ x. pos (x / 100);
  add = λ x y. x + y;
  sub = λ x y. x - y;
  mul = λ x y. x * y / 100;
  div = λ x y. x * 100 / y;
  lt = ltb;
  le = leb;
  same = λ x y. x == y;
  abs = λ x. x;
  infinite = 1000000;
  tolerance = 0;
}

abbrev no_code : Str → Bool
no_code s = false

abbrev as_it_is : Str → Str
as_it_is s = s

-- "a gpu" is technical, "a" is prose; a cap of 1 is kept.
technical_depth :
    next_wave_n_max fixed no_code as_it_is none
      (some (b'a' ∷ b' ' ∷ b'g' ∷ b'p' ∷ b'u' ∷ []))
      (pos 0)
    ≡ pos 3
unfolding depths
technical_depth = refl

prose_depth : next_wave_n_max fixed no_code as_it_is none (some (b'a' ∷ [])) (pos 4) ≡ pos 2
unfolding depths
prose_depth = refl

capped_depth : next_wave_n_max fixed no_code as_it_is (some 96) none (pos 1) ≡ pos 1
unfolding depths
capped_depth = refl

next_wave_n_max-InDepth_example :
    InDepth (pos 1) (next_wave_n_max fixed no_code as_it_is (some 96) none (pos 1))
next_wave_n_max-InDepth_example =
    next_wave_n_max-InDepth fixed no_code as_it_is (some 96) none (pos 1)

abbrev fresh : Alphas ℕ
fresh = record { smoothing = 30; warmup = pos 2; ema = []; counts = [] }

abbrev key : Str
key = b'k' ∷ []

abbrev calls : List (Str × ℤ × ℤ)
calls = (key, pos 10, pos 5) ∷ (key, pos 0, pos 0) ∷ (key, pos 10, pos 10) ∷ []

averaged : get key (update_all fixed calls fresh) ≡ some 65
unfolding depths
averaged = refl

update_all-get_example :
    (get key (update_all fixed calls fresh) ≡ none)
    ↔ ((pos (counted key calls) <ℤ pos 2) ⊎ (counted key calls ≡ 0))
unfolding depths
update_all-get_example = update_all-get fixed 30 (pos 2) fresh calls key refl
