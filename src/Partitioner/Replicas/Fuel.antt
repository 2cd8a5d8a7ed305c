-- ===== src/Partitioner/Replicas/Fuel.antt =====
-- internal/partitioner/solver.go: the fuel of `bestAssignment` is enough.
use sofmat.Base.{ℕ, zero, suc, ◌≤◌, ◌≡◌, refl, ap, ◌∙◌, List, [], ◌∷◌, length, All, arith}
use sofmat.Partitioner.{Floats, NodeProfile, ModelSpec}
use sofmat.Partitioner.Replicas.{
  Assignment, splits, beside, share_round, share_rounds, best_assignment,
}

module _ {A : Type 0} where
  -- What remains is not longer than a number.
  abbrev Short : ℕ → List A × List A → Type 0
  Short n s = length s.1 ≤ n

  beside-Short :
      (x : A) (n : ℕ) (ss : List (List A × List A))
      → All (Short n) ss
      → All (Short (suc n)) (beside x ss)
  beside-Short x n [] h = tt
  beside-Short x n ((group, remaining) ∷ ss) (h, hs) =
      (omega (arith, h), (omega (arith, h), beside-Short x n ss hs))

  splits-Short : (xs : List A) → All (Short (length xs)) (splits xs)
  splits-Short [] = (omega arith, tt)
  splits-Short (x ∷ xs) = beside-Short x (length xs) (splits xs) (splits-Short xs)

module _ {F : Type 0} (fl : Floats F) (overhead budget : F) (model : ModelSpec F) where
  share_rounds-eq :
      (sub other : List (NodeProfile F) → Assignment F) (n : ℕ) (first : NodeProfile F)
      (ss : List (List (NodeProfile F) × List (NodeProfile F))) (best : Assignment F)
      → ((rs : List (NodeProfile F)) → length rs ≤ n → sub rs ≡ other rs)
      → All (Short n) ss
      → share_rounds fl overhead budget model sub first best ss
        ≡ share_rounds fl overhead budget model other first best ss
  share_rounds-eq sub other n first [] best same h = refl
  share_rounds-eq sub other n first ((group, remaining) ∷ ss) best same (h, hs) =
      rw (same remaining h) (
        share_rounds-eq sub other n first ss
          (share_round fl overhead budget model (first ∷ group) (other remaining) best) same hs)

  -- With fuel for the nodes, bestAssignment does not depend on the fuel, so it is never used up.
  pub best_assignment_fuel :
      (f g : ℕ) (ns : List (NodeProfile F))
      → length ns ≤ f
      → length ns ≤ g
      → best_assignment fl overhead budget model f ns
        ≡ best_assignment fl overhead budget model g ns
  unfolding best_assignment
  best_assignment_fuel zero zero ns h k = refl
  best_assignment_fuel zero (suc g) [] h k = refl
  best_assignment_fuel zero (suc g) (n ∷ ns) h k = absurd (omega (arith, h))
  best_assignment_fuel (suc f) zero [] h k = refl
  best_assignment_fuel (suc f) zero (n ∷ ns) h k = absurd (omega (arith, k))
  best_assignment_fuel (suc f) (suc g) [] h k = refl
  best_assignment_fuel (suc f) (suc g) (first ∷ rest) h k =
      let same : (rs : List (NodeProfile F))
          → length rs ≤ length rest
          → best_assignment fl overhead budget model f rs
            ≡ best_assignment fl overhead budget model g rs =
        λ rs short.
          best_assignment_fuel f g rs (omega (arith, h, short)) (omega (arith, k, short)) in
      ap
        (λ a.
          share_rounds fl overhead budget model (best_assignment fl overhead budget model f) first a
            (splits rest))
        (same rest (omega arith))
      ∙ share_rounds-eq (best_assignment fl overhead budget model f)
          (best_assignment fl overhead budget model g) (length rest) first (splits rest)
          (best_assignment fl overhead budget model g rest) same (splits-Short rest)
