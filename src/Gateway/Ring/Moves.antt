-- ===== src/Gateway/Ring/Moves.antt =====
-- internal/gateway/policy.go: which keys of a Ring change their member when a member comes or goes.
use sofmat.Base.{
  ℕ, ◌≡◌, ◌≢◌, refl, sym, ap, subst, ◌∙◌, false, List, [], ◌∷◌, leb, Bool-cases, inl, inr, Option,
  none, some, Option-cases, Result, ok,
}
use sofmat.Base.Strings.{Str, same}
use sofmat.Gateway.Ring.{
  Ring, RingPoint, RingError, other_points, remove, first_at, owner, route, ring_hash,
}

same_point : (p q : RingPoint) → ◌≡◌ {A = Option RingPoint} (some p) (some q) → p ≡ q
same_point p q e = cc

no_point : (p : RingPoint) → ◌≢◌ {A = Option RingPoint} (some p) none
no_point p e = cc

same_member : (a b : Str) → ◌≡◌ {A = Result RingError Str} (ok a) (ok b) → a ≡ b
same_member a b e = cc

first_at-some :
    (x : Str) (h : ℕ) (ps : List RingPoint) (p : RingPoint)
    → first_at h ps ≡ some p
    → same p.m x ≡ false
    → first_at h (other_points x ps) ≡ some p
unfolding first_at other_points
first_at-some x h [] p e f = e
first_at-some x h (q ∷ qs) p e f = elim (Bool-cases (leb h q.h)) [
  | inl here ↦
      let q_p : q ≡ p = same_point q p (rw here at e) in
      let stays : same q.m x ≡ false = subst (λ y. same y.m x ≡ false) (sym q_p) f in
      rw stays (rw here (ap some q_p))
  | inr later ↦
      let rest = first_at-some x h qs p (rw later at e) f in
      elim (Bool-cases (same q.m x)) [
        | inl gone ↦ rw gone rest
        | inr stays ↦ rw stays (rw later rest)
      ]
]

first_at-none :
    (x : Str) (h : ℕ) (ps : List RingPoint)
    → first_at h ps ≡ none
    → first_at h (other_points x ps) ≡ none
unfolding first_at other_points
first_at-none x h [] e = e
first_at-none x h (q ∷ qs) e = elim (Bool-cases (leb h q.h)) [
  | inl here ↦ absurd (no_point q (rw here at e))
  | inr later ↦
      let rest = first_at-none x h qs (rw later at e) in
      elim (Bool-cases (same q.m x)) [
        | inl gone ↦ rw gone rest
        | inr stays ↦ rw stays (rw later rest)
      ]
]

owner-some :
    (h : ℕ) (ps : List RingPoint) (p : RingPoint) → first_at h ps ≡ some p → owner h ps ≡ ok p.m
unfolding owner first_at
owner-some h [] p e = absurd (no_point p (sym e))
owner-some h (q ∷ qs) p e = rw (e, owner) refl

owner-none :
    (h : ℕ) (p : RingPoint) (ps : List RingPoint)
    → first_at h (p ∷ ps) ≡ none
    → owner h (p ∷ ps) ≡ ok p.m
unfolding owner
owner-none h p ps e = rw (e, owner) refl

pub owner-other_points :
    (x m : Str) (h : ℕ) (ps : List RingPoint)
    → owner h ps ≡ ok m
    → same m x ≡ false
    → owner h (other_points x ps) ≡ ok m
unfolding other_points
owner-other_points x m h [] e f = e
owner-other_points x m h (p ∷ ps) e f = elim (Option-cases (first_at h (p ∷ ps))) [
  | inl none_after ↦
      let p_m = same_member p.m m (sym (owner-none h p ps none_after) ∙ e) in
      let stays : same p.m x ≡ false = subst (λ y. same y x ≡ false) (sym p_m) f in
      let left = first_at-none x h (p ∷ ps) none_after in
      rw stays (owner-none h p (other_points x ps) (rw stays at left) ∙ ap ok p_m)
  | inr (q, found) ↦
      let q_m = same_member q.m m (sym (owner-some h (p ∷ ps) q found) ∙ e) in
      let stays : same q.m x ≡ false = subst (λ y. same y x ≡ false) (sym q_m) f in
      owner-some h (other_points x (p ∷ ps)) q (first_at-some x h (p ∷ ps) q found stays)
      ∙ ap ok q_m
]

module _ (sum : Str → Str) (decimal : ℕ → Str) where
  -- When a member is removed, the keys of the other members stay where they are.
  pub route-remove :
      (x m key : Str) (r : Ring)
      → route sum decimal key r ≡ ok m
      → same m x ≡ false
      → route sum decimal key (remove x r) ≡ ok m
  route-remove x m key r e f = owner-other_points x m (ring_hash sum decimal key) r.ring e f
