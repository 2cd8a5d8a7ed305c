-- ===== src/Partitioner/Solve/Sound.antt =====
-- internal/partitioner/solver.go: the plan of `Solve` is the plan of a part of the nodes that are present.
use sofmat.Base.{
  ℕ, zero, suc, ◌≤◌, ◌≡◌, ◌≢◌, refl, sym, ap, subst, ◌∙◌, Bool, true, false, not, List, [], ◌∷◌,
  length, Option, none, some, Result, ok, err, if◌then◌else◌, arith, Bool-cases, ◌⊎◌, inl, inr,
  ◌==◌,
}
use sofmat.Partitioner.{Floats, NodeProfile, ModelSpec, PartitionPlan, pool_fits}
use sofmat.Partitioner.Plans.{plan_for_subset, choose}
use sofmat.Partitioner.Plans.Choose.{In, Sub, choose_iff}
use sofmat.Partitioner.Solve.{
  better, best_of, best_per_k, faster, fastest_from, first_within, floor_of, choose_plan,
  solve_present,
}

pub nothing : {F : Type 0} (p : PartitionPlan F) → ◌≢◌ {A = Option (PartitionPlan F)} none (some p)
nothing p e = cc

pub same_plan :
    {F : Type 0} (p q : PartitionPlan F)
    → ◌≡◌ {A = Option (PartitionPlan F)} (some p) (some q)
    → p ≡ q
same_plan p q e = cc

pub ok_same : {E A : Type 0} (x y : A) → ◌≡◌ {A = Result E A} (ok x) (ok y) → x ≡ y
ok_same x y e = cc

within_or :
    {F : Type 0} (o : Option (PartitionPlan F)) (p : PartitionPlan F) (ps : List (PartitionPlan F))
    → ((q : PartitionPlan F) → o ≡ some q → In q ps)
    → In p ps
    → In (elim o [ some q ↦ q | none ↦ p ]) ps
within_or none p ps found h = h
within_or (some q) p ps found h = found q refl

either :
    {F : Type 0} (t : Bool) (p b x : PartitionPlan F) (ps : List (PartitionPlan F))
    → In x ((if t then p else b) ∷ ps)
    → In x (b ∷ p ∷ ps)
either true p b x ps h = inr h
either false p b x ps (inl e) = inl e
either false p b x ps (inr h) = inr (inr h)

-- A result that is passed on.
pub passed :
    {E A B : Type 0} (r : Result E A) (k : A → Result E B) (y : B)
    → ◌≡◌ {A = Result E B} (elim r [ err e ↦ err e | ok x ↦ k x ]) (ok y)
    → (x : A) × (r ≡ ok x) × (k x ≡ ok y)
passed (err e) k y h = cc
passed (ok x) k y h = (x, refl, h)

pub refused :
    {E A : Type 0} (t : Bool) (e : E) (r : Result E A) (y : A)
    → ◌≡◌ {A = Result E A} (if t then err e else r) (ok y)
    → (t ≡ false) × (r ≡ ok y)
refused true e r y h = cc
refused false e r y h = (refl, h)

head_of :
    {E A : Type 0} (xs : List A) (e : E) (pick : A → List A → A) (y : A)
    → ◌≡◌ {A = Result E A} (elim xs [ [] ↦ err e | x ∷ rest ↦ ok (pick x rest) ]) (ok y)
    → (x : A) × (rest : List A) × (xs ≡ x ∷ rest) × (pick x rest ≡ y)
head_of [] e pick y h = cc
head_of (x ∷ rest) e pick y h = (x, rest, refl, ok_same _ y h)

module _ {F : Type 0} (fl : Floats F) where
  pub fastest_from-In :
      (b : PartitionPlan F) (ps : List (PartitionPlan F)) → In (fastest_from fl b ps) (b ∷ ps)
  unfolding fastest_from
  fastest_from-In b [] = inl refl
  fastest_from-In b (p ∷ ps) =
      either (faster fl p b) p b _ ps (fastest_from-In (if faster fl p b then p else b) ps)

  first_within-In :
      (floor_ms : F) (p : PartitionPlan F) (ps : List (PartitionPlan F))
      → first_within fl floor_ms ps ≡ some p
      → In p ps
  unfolding first_within
  first_within-In floor_ms p [] h = absurd (nothing p h)
  first_within-In floor_ms p (q ∷ ps) h = elim (Bool-cases (fl.le q.token_ms floor_ms)) [
    | inl reached ↦ inl (same_plan q p (rw reached at h))
    | inr missed ↦ inr (first_within-In floor_ms p ps (rw missed at h))
  ]

  choose_plan-In :
      (usable : Option F) (b : PartitionPlan F) (ps : List (PartitionPlan F))
      → In (choose_plan fl usable b ps) (b ∷ ps)
  unfolding choose_plan
  choose_plan-In none b ps = fastest_from-In b ps
  choose_plan-In (some u) b ps =
      within_or (first_within fl (floor_of fl u) (b ∷ ps)) (fastest_from fl b ps) (b ∷ ps)
        (λ p. first_within-In (floor_of fl u) p (b ∷ ps)) (fastest_from-In b ps)

  module _ (overhead budget : F) (model : ModelSpec F) where
    -- A plan of a part of the nodes.
    abbrev pub PlanOf : List (List (NodeProfile F)) → PartitionPlan F → Type 0
    PlanOf ss p =
        (s : List (NodeProfile F)) × In s ss
        × (plan_for_subset fl overhead budget model s ≡ ok (some p))

    better-cases :
        (best o : Option (PartitionPlan F)) (p : PartitionPlan F)
        → better fl best o ≡ some p
        → (best ≡ some p) ⊎ (o ≡ some p)
    better-cases best none p h = inl h
    better-cases none (some q) p h = inr h
    better-cases (some b) (some q) p h = elim (Bool-cases (fl.lt q.token_ms b.token_ms)) [
      | inl t ↦ inr (rw t at h)
      | inr f ↦ inl (rw f at h)
    ]

    first_or :
        (o : Option (PartitionPlan F)) (p : PartitionPlan F) (ps : List (PartitionPlan F))
        → In p (elim o [ none ↦ ps | some q ↦ q ∷ ps ])
        → (o ≡ some p) ⊎ In p ps
    first_or none p ps h = inr h
    first_or (some q) p ps (inl e) = inl (ap some e)
    first_or (some q) p ps (inr h) = inr h

    pub best_of-PlanOf :
        (best : Option (PartitionPlan F)) (ss : List (List (NodeProfile F))) (p : PartitionPlan F)
        → best_of fl overhead budget model best ss ≡ ok (some p)
        → (best ≡ some p) ⊎ PlanOf ss p
    unfolding best_of
    best_of-PlanOf best [] p h = inl (ok_same best (some p) h)
    best_of-PlanOf best (s ∷ ss) p h =
        let (o, at_s, later) =
          passed (plan_for_subset fl overhead budget model s)
            (λ x. best_of fl overhead budget model (better fl best x) ss) (some p) h in
        elim (best_of-PlanOf (better fl best o) ss p later) [
          | inr (t, m, e) ↦ inr (t, inr m, e)
          | inl chosen ↦ elim (better-cases best o p chosen) [
            | inl old ↦ inl old
            | inr new ↦ inr (s, inl refl, at_s ∙ ap ok new)
          ]
        ]

    -- The best plans of some depths from one on are plans of parts of those sizes.
    best_per_k-PlanOf :
        (present : List (NodeProfile F)) (k more : ℕ) (ps : List (PartitionPlan F))
        (p : PartitionPlan F)
        → best_per_k fl overhead budget model present k more ≡ ok ps
        → In p ps
        → (d : ℕ) × (k ≤ d) × PlanOf (choose d present) p
    unfolding best_per_k
    best_per_k-PlanOf present k zero ps p h m = absurd (subst (In p) (sym (ok_same [] ps h)) m)
    best_per_k-PlanOf present k (suc more) ps p h m =
        let (o, at_k, later) =
          passed (best_of fl overhead budget model none (choose k present)) _ ps h in
        let (rest, at_rest, e) =
          passed (best_per_k fl overhead budget model present (suc k) more) _ ps later in
        elim (first_or o p rest (subst (In p) (sym (ok_same _ ps e)) m)) [
          | inl here ↦ elim (best_of-PlanOf none (choose k present) p (at_k ∙ ap ok here)) [
            | inl impossible ↦ absurd (nothing p impossible)
            | inr of_k ↦ (k, omega arith, of_k)
          ]
          | inr there ↦
              let (d, low, of_d) = best_per_k-PlanOf present (suc k) more rest p at_rest there in
              (d, omega (arith, low), of_d)
        ]

    -- A part of the nodes that are present, with its plan.
    abbrev pub FromPool : List (NodeProfile F) → PartitionPlan F → Type 0
    FromPool present p =
        (s : List (NodeProfile F)) × Sub s present
        × (1 ≤ length s)
        × (plan_for_subset fl overhead budget model s ≡ ok (some p))

    pub solve_present-ok :
        (usable : Option F) (present : List (NodeProfile F)) (p : PartitionPlan F)
        → solve_present fl overhead budget model usable present ≡ ok p
        → (ps : List (PartitionPlan F)) × (best_per_k fl overhead budget model present 1
              (length present)
            ≡ ok ps)
          × (b : PartitionPlan F) × (rest : List (PartitionPlan F)) × (ps ≡ b ∷ rest)
          × (choose_plan fl usable b rest ≡ p)
    unfolding solve_present
    solve_present-ok usable present p h =
        let (some_node, h1) = refused (length present == 0) _ _ p h in
        let (room, h2) = refused (not (pool_fits fl present model)) _ _ p h1 in
        let (ps, at_ps, h3) =
          passed (best_per_k fl overhead budget model present 1 (length present)) _ p h2 in
        let (b, rest, e, chosen) = head_of ps _ (choose_plan fl usable) p h3 in
        (ps, at_ps, b, rest, e, chosen)

    pub solve_present-FromPool :
        (usable : Option F) (present : List (NodeProfile F)) (p : PartitionPlan F)
        → solve_present fl overhead budget model usable present ≡ ok p
        → FromPool present p
    unfolding solve_present
    solve_present-FromPool usable present p h =
        let (ps, at_ps, b, rest, e, chosen) = solve_present-ok usable present p h in
        let (d, low, of_d) = best_per_k-PlanOf present 1 (length present) ps p at_ps (
          subst (λ x. In p x) (sym e)
            (subst (λ x. In x (b ∷ rest)) chosen (choose_plan-In usable b rest))) in
        let (s, m, at_s) = of_d in
        let (sub, n) = (choose_iff d present s).0 m in (s, sub, omega (arith, n, low), at_s)
