-- ===== src/Partitioner/Solve/Fastest.antt =====
-- internal/partitioner/solver.go: without a floor, no part of the nodes has a faster plan.
use sofmat.Base.{
  ◌≡◌, refl, sym, ap, subst, ◌∙◌, Bool, true, false, List, [], ◌∷◌, Option, none, some, ok,
  if◌then◌else◌, arith, Bool-cases, inl, inr,
}
use sofmat.Partitioner.{Floats, NodeProfile, ModelSpec, PartitionPlan}
use sofmat.Partitioner.Plans.{plan_for_subset}
use sofmat.Partitioner.Plans.Choose.{In}
use sofmat.Partitioner.Solve.{better, best_of, faster, fastest_from}
use sofmat.Partitioner.Solve.Sound.{passed, ok_same, same_plan, nothing}

-- What the comparisons of float64 keep, NaN apart.
pub record Ordered {F : Type 0} (fl : Floats F) : Type 0 where
  pub irreflexive : (a : F) → fl.lt a a ≡ false
  pub asymmetric : (a b : F) → fl.lt a b ≡ true → fl.lt b a ≡ false
  pub above : (a b c : F) → fl.lt a b ≡ false → fl.lt b c ≡ false → fl.lt a c ≡ false
  pub under : (a b c : F) → fl.le a c ≡ true → fl.lt a b ≡ false → fl.le b c ≡ true
  pub level : (a b : F) → fl.same a b ≡ true → fl.lt b a ≡ false

some_if :
    {F : Type 0} (t : Bool) (p b : PartitionPlan F)
    → ◌≡◌ {A = Option (PartitionPlan F)} (if t then some p else some b) (some (if t then p else b))
some_if true p b = refl
some_if false p b = refl

module _ {F : Type 0} (fl : Floats F) (laws : Ordered fl) where
  -- The new one is not above the old one.
  faster_below :
      (p b : PartitionPlan F) → faster fl p b ≡ true → fl.lt b.token_ms p.token_ms ≡ false
  faster_below p b h = elim (Bool-cases (fl.lt p.token_ms b.token_ms)) [
    | inl t ↦ laws.asymmetric p.token_ms b.token_ms t
    | inr f ↦ elim (Bool-cases (fl.same p.token_ms b.token_ms)) [
      | inl t ↦ laws.level p.token_ms b.token_ms t
      | inr g ↦ ground (arith, f, g, h)
    ]
  ]

  slower : (p b : PartitionPlan F) → faster fl p b ≡ false → fl.lt p.token_ms b.token_ms ≡ false
  slower p b h = ground arith

  -- Neither of two is below the one that is taken.
  taken_old :
      (t : Bool) (p b : PartitionPlan F)
      → (t ≡ true → fl.lt b.token_ms p.token_ms ≡ false)
      → fl.lt b.token_ms (if t then p else b).token_ms ≡ false
  taken_old true p b h = h refl
  taken_old false p b h = laws.irreflexive b.token_ms

  taken_new :
      (t : Bool) (p b : PartitionPlan F)
      → (t ≡ false → fl.lt p.token_ms b.token_ms ≡ false)
      → fl.lt p.token_ms (if t then p else b).token_ms ≡ false
  taken_new true p b h = laws.irreflexive p.token_ms
  taken_new false p b h = h refl

  fastest_from-keeps :
      (b : PartitionPlan F) (ps : List (PartitionPlan F)) (x : F)
      → fl.lt x b.token_ms ≡ false
      → fl.lt x (fastest_from fl b ps).token_ms ≡ false
  unfolding fastest_from
  fastest_from-keeps b [] x h = h
  fastest_from-keeps b (p ∷ ps) x h =
      fastest_from-keeps (if faster fl p b then p else b) ps x
        (laws.above x b.token_ms _ h (taken_old (faster fl p b) p b (faster_below p b)))

  pub fastest_from-least :
      (b : PartitionPlan F) (ps : List (PartitionPlan F)) (q : PartitionPlan F) (x : F)
      → In q (b ∷ ps)
      → fl.lt x q.token_ms ≡ false
      → fl.lt x (fastest_from fl b ps).token_ms ≡ false
  unfolding fastest_from
  fastest_from-least b ps q x (inl e) h =
      fastest_from-keeps b ps x (subst (λ y. fl.lt x y.token_ms ≡ false) (sym e) h)
  fastest_from-least b [] q x (inr m) h = absurd m
  fastest_from-least b (p ∷ ps) q x (inr (inl e)) h =
      fastest_from-keeps (if faster fl p b then p else b) ps x (
        laws.above x p.token_ms _ (subst (λ y. fl.lt x y.token_ms ≡ false) (sym e) h)
          (taken_new (faster fl p b) p b (slower p b)))
  fastest_from-least b (p ∷ ps) q x (inr (inr m)) h =
      fastest_from-least (if faster fl p b then p else b) ps q x (inr m) h

  module _ (overhead budget : F) (model : ModelSpec F) where
    -- A plan that the first number is not below.
    abbrev pub NotBelow : F → Option (PartitionPlan F) → Type 0
    NotBelow x o = (p : PartitionPlan F) × (o ≡ some p) × (fl.lt x p.token_ms ≡ false)

    better-keeps :
        (x : F) (best o : Option (PartitionPlan F))
        → NotBelow x best
        → NotBelow x (better fl best o)
    better-keeps x best none h = h
    better-keeps x none (some p) (b, e, h) = absurd (nothing b e)
    better-keeps x (some b) (some p) (c, e, h) = (
      (if fl.lt p.token_ms b.token_ms then p else b),
      some_if (fl.lt p.token_ms b.token_ms) p b,
      laws.above x b.token_ms _ (subst (λ y. fl.lt x y.token_ms ≡ false) (sym (same_plan b c e)) h)
          (taken_old (fl.lt p.token_ms b.token_ms) p b (laws.asymmetric p.token_ms b.token_ms)),
    )

    better-new :
        (best : Option (PartitionPlan F)) (q : PartitionPlan F)
        → NotBelow q.token_ms (better fl best (some q))
    better-new none q = (q, refl, laws.irreflexive q.token_ms)
    better-new (some b) q = (
      (if fl.lt q.token_ms b.token_ms then q else b),
      some_if (fl.lt q.token_ms b.token_ms) q b,
      taken_new (fl.lt q.token_ms b.token_ms) q b (λ e. e),
    )

    best_of-keeps :
        (x : F) (best : Option (PartitionPlan F)) (ss : List (List (NodeProfile F)))
        (o : Option (PartitionPlan F))
        → best_of fl overhead budget model best ss ≡ ok o
        → NotBelow x best
        → NotBelow x o
    unfolding best_of
    best_of-keeps x best [] o h n = subst (NotBelow x) (ok_same best o h) n
    best_of-keeps x best (s ∷ ss) o h n =
        let (r, at_s, later) =
          passed (plan_for_subset fl overhead budget model s)
            (λ y. best_of fl overhead budget model (better fl best y) ss) o h in
        best_of-keeps x (better fl best r) ss o later (better-keeps x best r n)

    pub best_of-least :
        (best : Option (PartitionPlan F)) (ss : List (List (NodeProfile F)))
        (o : Option (PartitionPlan F)) (s : List (NodeProfile F)) (q : PartitionPlan F)
        → best_of fl overhead budget model best ss ≡ ok o
        → In s ss
        → plan_for_subset fl overhead budget model s ≡ ok (some q)
        → NotBelow q.token_ms o
    unfolding best_of
    best_of-least best [] o s q h m e = absurd m
    best_of-least best (t ∷ ss) o s q h m e =
        let (r, at_t, later) =
          passed (plan_for_subset fl overhead budget model t)
            (λ y. best_of fl overhead budget model (better fl best y) ss) o h in
        elim m [
          | inl same_list ↦
              let is_q =
                ok_same r (some q)
                  (sym at_t ∙ ap (plan_for_subset fl overhead budget model) same_list ∙ e) in
              best_of-keeps q.token_ms (better fl best r) ss o later
                (subst (λ y. NotBelow q.token_ms (better fl best y)) (sym is_q) (better-new best q))
          | inr there ↦ best_of-least (better fl best r) ss o s q later there e
        ]
