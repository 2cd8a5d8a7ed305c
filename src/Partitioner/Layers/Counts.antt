-- ===== src/Partitioner/Layers/Counts.antt =====
-- internal/partitioner/solver.go: what the counts of `assignLayers` are.
use sofmat.Base.{
  ℕ, zero, suc, ◌+◌, ◌≤◌, ◌≡◌, refl, ap, subst, ◌∙◌, Bool, List, [], ◌∷◌, map, length, Option, none,
  some, if◌then◌else◌, Result, ok, err, ◌==◌, arith, Bool-cases, inl, inr,
}
use sofmat.Base.Int.{ℤ, pos, negsuc, ltb_ℤ, ◌-ℤ◌, -ℤ_parts, eq_of_parts, pos_part, neg_part}
use sofmat.Partitioner.{
  Floats, PartitionError, NodeProfile, ModelSpec, gb_per_layer_resident, gb_per_layer_total,
}
use sofmat.Partitioner.Layers.{
  Slot, fill_at, fill, total_cap, slots_of, speeds_from, fastest_first, assign_layers,
}

abbrev sum_counts : List Slot → ℕ
sum_counts [] = 0
sum_counts (s ∷ ss) = s.count + sum_counts ss

abbrev pub sum : List ℕ → ℕ
sum [] = 0
sum (n ∷ ns) = n + sum ns

fill_at-sum :
    (i left : ℕ) (ss : List Slot)
    → (fill_at i left ss).0 + sum_counts (fill_at i left ss).1 ≡ left + sum_counts ss
unfolding fill_at
fill_at-sum i left [] = refl
fill_at-sum zero left (s ∷ ss) = omega arith
fill_at-sum (suc i) left (s ∷ ss) = omega (arith, fill_at-sum i left ss)

fill-sum :
    (order : List ℕ) (left : ℕ) (ss : List Slot)
    → (fill order left ss).0 + sum_counts (fill order left ss).1 ≡ left + sum_counts ss
unfolding fill
fill-sum [] left ss = refl
fill-sum (i ∷ order) left ss = elim (Bool-cases ((fill_at i left ss).0 == 0)) [
  | inl done ↦ rw done (fill_at-sum i left ss)
  | inr more ↦
      rw more (fill-sum order (fill_at i left ss).0 (fill_at i left ss).1 ∙ fill_at-sum i left ss)
]

sum-counts : (ss : List Slot) → sum (map (λ s. s.count) ss) ≡ sum_counts ss
sum-counts [] = refl
sum-counts (s ∷ ss) = ap (λ n. s.count + n) (sum-counts ss)

same_slots : (x y : List Slot) → ◌≡◌ {A = Option (List Slot)} (some x) (some y) → x ≡ y
same_slots x y e = cc

slot_first :
    (z : ℤ) (o : Option (List Slot)) (ss : List Slot)
    → ◌≡◌ {A = Option (List Slot)}
        (elim z [
          | negsuc k ↦ none
          | pos zero ↦ none
          | pos (suc k) ↦ elim o [
            | none ↦ none
            | some ts ↦ some (record { cap = suc k; count = 1 } ∷ ts)
          ]
        ])
        (some ss)
    → (k : ℕ) × (rest : List Slot) × (z ≡ pos (suc k))
      × (o ≡ some rest)
      × ((record { cap = suc k; count = 1 } ∷ rest) ≡ ss)
slot_first (negsuc k) o ss h = cc
slot_first (pos zero) o ss h = cc
slot_first (pos (suc k)) none ss h = cc
slot_first (pos (suc k)) (some rest) ss h = (k, rest, refl, refl, same_slots _ ss h)

taken :
    {E : Type 0} (left : ℕ) (x y : List ℕ)
    → ◌≡◌ {A = Result E (Option (List ℕ))}
        (if left == 0 then ok (some x) else ok none)
        (ok (some y))
    → (left ≡ 0) × (x ≡ y)
taken zero x y h = (refl, cc)
taken (suc left) x y h = ground arith

back : (z : ℤ) (n left m : ℕ) → z -ℤ pos n ≡ pos left → m ≡ left + n → pos m ≡ z
back z n left m h e =
    let parts : left + neg_part z + n ≡ 0 + pos_part z + 0 = rw h at (-ℤ_parts z (pos n)) in
    eq_of_parts (pos m) z (omega (arith, parts, e))

module _ {F : Type 0} (fl : Floats F) where
  -- The slots of some nodes: a cap is what the memory of its node holds, and a count is between one and
  -- the cap.
  abbrev pub Fit : F → List (NodeProfile F) → List Slot → Type 0
  Fit gb [] [] = Unit
  Fit gb (n ∷ ns) (s ∷ ss) =
      (fl.trunc (fl.div n.model_mem_cap_gb gb) ≡ pos s.cap)
      × (1 ≤ s.count)
      × (s.count ≤ s.cap)
      × Fit gb ns ss
  Fit gb (n ∷ ns) [] = ⊥
  Fit gb [] (s ∷ ss) = ⊥

  -- The same of counts alone.
  abbrev pub Held : F → List (NodeProfile F) → List ℕ → Type 0
  Held gb [] [] = Unit
  Held gb (n ∷ ns) (c ∷ cs) =
      (1 ≤ c)
      × ((cap : ℕ) × (fl.trunc (fl.div n.model_mem_cap_gb gb) ≡ pos cap) × (c ≤ cap))
      × Held gb ns cs
  Held gb (n ∷ ns) [] = ⊥
  Held gb [] (c ∷ cs) = ⊥

  Fit-fill_at :
      (gb : F) (i left : ℕ) (ns : List (NodeProfile F)) (ss : List Slot)
      → Fit gb ns ss
      → Fit gb ns (fill_at i left ss).1
  unfolding fill_at
  Fit-fill_at gb i left [] [] f = f
  Fit-fill_at gb i left [] (s ∷ ss) f = absurd f
  Fit-fill_at gb i left (n ∷ ns) [] f = absurd f
  Fit-fill_at gb zero left (n ∷ ns) (s ∷ ss) (e, low, high, f) =
      (e, omega (arith, low), omega (arith, high), f)
  Fit-fill_at gb (suc i) left (n ∷ ns) (s ∷ ss) (e, low, high, f) =
      (e, low, high, Fit-fill_at gb i left ns ss f)

  Fit-fill :
      (gb : F) (order : List ℕ) (left : ℕ) (ns : List (NodeProfile F)) (ss : List Slot)
      → Fit gb ns ss
      → Fit gb ns (fill order left ss).1
  unfolding fill
  Fit-fill gb [] left ns ss f = f
  Fit-fill gb (i ∷ order) left ns ss f = elim (Bool-cases ((fill_at i left ss).0 == 0)) [
    | inl done ↦ rw done (Fit-fill_at gb i left ns ss f)
    | inr more ↦ rw more (
        Fit-fill gb order (fill_at i left ss).0 ns (fill_at i left ss).1
          (Fit-fill_at gb i left ns ss f))
  ]

  Held-Fit :
      (gb : F) (ns : List (NodeProfile F)) (ss : List Slot)
      → Fit gb ns ss
      → Held gb ns (map (λ s. s.count) ss)
  Held-Fit gb [] [] f = f
  Held-Fit gb [] (s ∷ ss) f = absurd f
  Held-Fit gb (n ∷ ns) [] f = absurd f
  Held-Fit gb (n ∷ ns) (s ∷ ss) (e, low, high, f) = (low, (s.cap, e, high), Held-Fit gb ns ss f)

  slots_of-Fit :
      (gb : F) (ns : List (NodeProfile F)) (ss : List Slot)
      → slots_of fl gb ns ≡ some ss
      → Fit gb ns ss × (sum_counts ss ≡ length ns)
  unfolding slots_of
  slots_of-Fit gb [] ss h =
      subst (λ x. Fit gb [] x × (sum_counts x ≡ 0)) (same_slots [] ss h) (tt, refl)
  slots_of-Fit gb (n ∷ ns) ss h =
      let (k, rest, at_n, at_ns, e) =
        slot_first (fl.trunc (fl.div n.model_mem_cap_gb gb)) (slots_of fl gb ns) ss h in
      let (f, total) = slots_of-Fit gb ns rest at_ns in
      subst (λ x. Fit gb (n ∷ ns) x × (sum_counts x ≡ suc (length ns))) e
        ((at_n, omega arith, omega arith, f), omega (arith, total))

  -- The end of `assignLayers`.
  abbrev last_test : ℕ → List Slot → List (ℕ × F) → Result (PartitionError F) (Option (List ℕ))
  last_test left ss speeds =
      let (left', ss') = fill (map (λ s. s.0) (fastest_first fl speeds)) left ss in
      if left' == 0 then ok (some (map (λ s. s.count) ss')) else ok none

  reached :
      (o : Option (List Slot)) (small : List Slot → Bool) (z : ℤ)
      (r : Result (PartitionError F) (List (ℕ × F))) (counts : List ℕ)
      → (elim o [
        | none ↦ ok none
        | some ss ↦ if small ss then ok none else elim z [
          | negsuc k ↦ ok none
          | pos left ↦ elim r [ err e ↦ err e | ok speeds ↦ last_test left ss speeds ]
        ]
      ])
        ≡ ok (some counts)
      → (ss : List Slot) × (left : ℕ) × (speeds : List (ℕ × F)) × (o ≡ some ss)
        × (z ≡ pos left)
        × (last_test left ss speeds ≡ ok (some counts))
  reached none small z r counts h = cc
  reached (some ss) small (negsuc k) r counts h = ground arith
  reached (some ss) small (pos left) (err e) counts h = ground arith
  reached (some ss) small (pos left) (ok speeds) counts h = elim (Bool-cases (small ss)) [
    | inl t ↦ ground (arith, t, h)
    | inr f ↦ (ss, left, speeds, refl, refl, rw f at h)
  ]

  assign_layers-rest :
      (model : ModelSpec F) (subset : List (NodeProfile F)) (ss : List Slot) (left : ℕ)
      (speeds : List (ℕ × F)) (counts : List ℕ)
      → slots_of fl (gb_per_layer_resident fl model) subset ≡ some ss
      → model.n_layers -ℤ pos (length subset) ≡ pos left
      → last_test left ss speeds ≡ ok (some counts)
      → (pos (sum counts) ≡ model.n_layers) × Held (gb_per_layer_resident fl model) subset counts
  assign_layers-rest model subset ss left speeds counts h e r =
      let order = map (λ s. s.0) (fastest_first fl speeds) in
      let (f, total) = slots_of-Fit (gb_per_layer_resident fl model) subset ss h in
      let (empty, is_counts) =
        taken (fill order left ss).0 (map (λ s. s.count) (fill order left ss).1) counts r in
      let whole = fill-sum order left ss in
      let counted = sum-counts (fill order left ss).1 in
      let filled =
        Held-Fit (gb_per_layer_resident fl model) subset _
          (Fit-fill (gb_per_layer_resident fl model) order left subset ss f) in
      subst (λ x. (pos (sum x) ≡ model.n_layers) × Held (gb_per_layer_resident fl model) subset x)
        is_counts
        (
          back model.n_layers (length subset) left _ e
              (counted ∙ omega (arith, whole, empty, total)),
          filled,
        )

  -- When assignLayers gives counts, they add up to the layers of the model, and each node has one at
  -- least and no more than its memory holds.
  pub assign_layers-Held :
      (model : ModelSpec F) (subset : List (NodeProfile F)) (counts : List ℕ)
      → assign_layers fl subset model ≡ ok (some counts)
      → (pos (sum counts) ≡ model.n_layers) × Held (gb_per_layer_resident fl model) subset counts
  unfolding assign_layers
  assign_layers-Held model subset counts h =
      let (ss, left, speeds, at_slots, at_left, at_end) =
        reached (slots_of fl (gb_per_layer_resident fl model) subset)
          (λ ss. ltb_ℤ (pos (total_cap ss)) model.n_layers) (model.n_layers -ℤ pos (length subset))
          (speeds_from fl (gb_per_layer_total fl model) 0 subset) counts h in
      assign_layers-rest model subset ss left speeds counts at_slots at_left at_end
