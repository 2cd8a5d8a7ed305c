-- ===== src/Partitioner/Plans/Choose.antt =====
-- internal/partitioner/solver.go: `combinations` calls its function with the parts of a size, and with no
-- other list.
use sofmat.Base.{
  ℕ, zero, suc, ◌≤◌, ◌≡◌, refl, ap, subst, false, List, [], ◌∷◌, ◌++◌, map, length, arith,
  Bool-cases, ◌⊎◌, inl, inr, ltb, ◌↔◌,
}
use sofmat.Partitioner.Plans.{choose}

few_of : (k n : ℕ) → ltb n (suc k) ≡ false → ltb n k ≡ false
few_of k n h = ground arith

module _ {A : Type 0} where
  -- A list with some elements left out.
  pub data Sub : List A → List A → Type 0 where
    stop : Sub [] []
    skip : {xs ys : List A} {y : A} → Sub xs ys → Sub xs (y ∷ ys)
    keep : {xs ys : List A} {y : A} → Sub xs ys → Sub (y ∷ xs) (y ∷ ys)

  abbrev pub In : A → List A → Type 0
  In x [] = ⊥
  In x (y ∷ ys) = (y ≡ x) ⊎ In x ys

  pub In-append_left : (x : A) (xs ys : List A) → In x xs → In x (xs ++ ys)
  In-append_left x (y ∷ xs) ys (inl e) = inl e
  In-append_left x (y ∷ xs) ys (inr h) = inr (In-append_left x xs ys h)
  In-append_left x [] ys h = absurd h

  pub In-append_right : (x : A) (xs ys : List A) → In x ys → In x (xs ++ ys)
  In-append_right x [] ys h = h
  In-append_right x (y ∷ xs) ys h = inr (In-append_right x xs ys h)

  In-append_cases : (x : A) (xs ys : List A) → In x (xs ++ ys) → In x xs ⊎ In x ys
  In-append_cases x [] ys h = inr h
  In-append_cases x (y ∷ xs) ys (inl e) = inl (inl e)
  In-append_cases x (y ∷ xs) ys (inr h) = elim (In-append_cases x xs ys h) [
    | inl a ↦ inl (inr a)
    | inr b ↦ inr b
  ]

  pub length-Sub : {xs ys : List A} → Sub xs ys → length xs ≤ length ys
  length-Sub stop = omega arith
  length-Sub (skip s) = omega (arith, length-Sub s)
  length-Sub (keep s) = omega (arith, length-Sub s)

  nothing-Sub : (ys : List A) → Sub [] ys
  nothing-Sub [] = stop
  nothing-Sub (y ∷ ys) = skip (nothing-Sub ys)

module _ {A : Type 0} where
  In-map_cons :
      (x : A) (s : List A) (ss : List (List A)) → In s ss → In (x ∷ s) (map (λ t. x ∷ t) ss)
  In-map_cons x s [] h = absurd h
  In-map_cons x s (t ∷ ss) (inl e) = inl (ap (λ u. x ∷ u) e)
  In-map_cons x s (t ∷ ss) (inr h) = inr (In-map_cons x s ss h)

  In-map_uncons :
      (x : A) (s : List A) (ss : List (List A))
      → In s (map (λ t. x ∷ t) ss)
      → (t : List A) × In t ss × ((x ∷ t) ≡ s)
  In-map_uncons x s [] h = absurd h
  In-map_uncons x s (t ∷ ss) (inl e) = (t, inl refl, e)
  In-map_uncons x s (t ∷ ss) (inr h) = let (u, m, e) = In-map_uncons x s ss h in (u, inr m, e)

  choose-Sub : (k : ℕ) (ys s : List A) → In s (choose k ys) → Sub s ys × (length s ≡ k)
  unfolding choose
  choose-Sub zero ys s (inl e) = subst (λ x. Sub x ys × (length x ≡ 0)) e (nothing-Sub ys, refl)
  choose-Sub zero ys s (inr h) = absurd h
  choose-Sub (suc k) [] s h = absurd h
  choose-Sub (suc k) (y ∷ ys) s h = elim (Bool-cases (ltb (length ys) k)) [
    | inl few ↦ absurd (rw few at h)
    | inr enough ↦
        elim (In-append_cases s (map (λ t. y ∷ t) (choose k ys)) (choose (suc k) ys)
          (rw enough at h)) [
            | inl a ↦
                let (t, m, e) = In-map_uncons y s (choose k ys) a in
                let (b, n) = choose-Sub k ys t m in
                subst (λ x. Sub x (y ∷ ys) × (length x ≡ suc k)) e (keep b, ap suc n)
            | inr b ↦ let (c, n) = choose-Sub (suc k) ys s b in (skip c, n)
          ]
  ]

  not_few : (k : ℕ) (xs ys : List A) → Sub xs ys → length xs ≡ k → ltb (length ys) k ≡ false
  not_few k xs ys h e = ground (arith, length-Sub h, e)

  Sub-choose : (k : ℕ) (ys s : List A) → Sub s ys → length s ≡ k → In s (choose k ys)
  unfolding choose
  Sub-choose zero ys [] h e = inl refl
  Sub-choose zero ys (x ∷ s) h e = omega (arith, e)
  Sub-choose (suc k) [] s stop e = omega (arith, e)
  Sub-choose (suc k) (y ∷ ys) s (skip h) e = rw (few_of k (length ys) (not_few (suc k) s ys h e)) (
      In-append_right s (map (λ t. y ∷ t) (choose k ys)) (choose (suc k) ys)
        (Sub-choose (suc k) ys s h e))
  Sub-choose (suc k) (y ∷ ys) (_ ∷ s) (keep h) e =
      let n : length s ≡ k = omega (arith, e) in
      rw (not_few k s ys h n) (
        In-append_left (y ∷ s) (map (λ t. y ∷ t) (choose k ys)) (choose (suc k) ys)
          (In-map_cons y s (choose k ys) (Sub-choose k ys s h n)))

  -- combinations calls its function with a list exactly when the list is a part of the items, in their
  -- order, with as many elements as are to be chosen.
  pub choose_iff :
      (k : ℕ) (items s : List A) → In s (choose k items) ↔ (Sub s items × (length s ≡ k))
  choose_iff k items s = (choose-Sub k items s, λ p. Sub-choose k items s p.0 p.1)
