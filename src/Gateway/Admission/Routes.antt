-- ===== src/Gateway/Admission/Routes.antt =====
-- What the admission decides, for every input.
use sofmat.Base.{
  zero, suc, inl, inr, if◌then◌else◌, ◌≢◌, ◌⊎◌, ◌≡◌, ◌↔◌, refl, sym, ap, subst, Bool, true, false,
  arith,
}
use sofmat.Base.Int.{ℤ, pos, negsuc, pos_part, neg_part, ◌+ℤ◌, ◌-ℤ◌, ◌≤ℤ◌, ◌<ℤ◌, +ℤ_parts, -ℤ_parts}
use sofmat.Gateway.Admission.{
  AdmissionInput, is_zero, prefill, large_new_prefill, classify_admission, threshold_of, new_tokens,
  clamp, admit_input, admit, prefill_then_handoff,
}

route_iff :
    (i : AdmissionInput)
    → ((classify_admission i).route ≡ prefill)
      ↔ ((i.prefill_available ≡ true) × (threshold_of i ≤ℤ new_tokens i))
unfolding classify_admission
route_iff i = (ground arith, ground arith)

-- The threshold that holds: the one of the request, or 6144 tokens when it is 0.
abbrev pub Holds : AdmissionInput → ℤ → Type 0
Holds i t = ((i.threshold ≡ pos 0) × (t ≡ pos 6144)) ⊎ ((i.threshold ≢ pos 0) × (i.threshold ≡ t))

-- So many tokens are new: those that the slot does not hold, or, when it is not known to hold any, what
-- the hot prefix leaves of the prefix, and the tail.
abbrev pub Reaches : AdmissionInput → ℤ → Type 0
Reaches i t =
    ((pos 0 <ℤ i.resident_tokens) × (t +ℤ i.resident_tokens ≤ℤ i.prefix_tokens +ℤ i.tail_tokens))
    ⊎ ((i.resident_tokens ≤ℤ pos 0)
        × (t ≤ℤ i.tail_tokens ⊎ (t +ℤ i.hot_prefix_tokens ≤ℤ i.prefix_tokens +ℤ i.tail_tokens)))

threshold_of-Holds : (i : AdmissionInput) (t : ℤ) → Holds i t → threshold_of i ≡ t
unfolding threshold_of
threshold_of-Holds i t h = in_force i.threshold t h
  where
    in_force :
        (z t : ℤ)
        → ((z ≡ pos 0) × (t ≡ pos 6144)) ⊎ ((z ≢ pos 0) × (z ≡ t))
        → (if is_zero z then pos 6144 else z) ≡ t
    in_force z t (inl (zero_z, e)) = rw (zero_z, e) refl
    in_force (pos zero) t (inr (some_z, e)) = absurd (some_z refl)
    in_force (pos (suc n)) t (inr (some_z, e)) = ground (arith, e)
    in_force (negsuc n) t (inr (some_z, e)) = e

new_tokens-Reaches : (i : AdmissionInput) (t : ℤ) → pos 0 <ℤ t → (t ≤ℤ new_tokens i) ↔ Reaches i t
unfolding new_tokens
new_tokens-Reaches i t h = (
  ground (
    arith,
    h,
    +ℤ_parts i.prefix_tokens i.tail_tokens,
    -ℤ_parts (i.prefix_tokens +ℤ i.tail_tokens) i.resident_tokens,
    -ℤ_parts i.prefix_tokens i.hot_prefix_tokens,
    +ℤ_parts (clamp (i.prefix_tokens -ℤ i.hot_prefix_tokens)) i.tail_tokens,
    +ℤ_parts t i.resident_tokens,
    +ℤ_parts t i.hot_prefix_tokens,
  ),
  ground (
    arith,
    h,
    +ℤ_parts i.prefix_tokens i.tail_tokens,
    -ℤ_parts (i.prefix_tokens +ℤ i.tail_tokens) i.resident_tokens,
    -ℤ_parts i.prefix_tokens i.hot_prefix_tokens,
    +ℤ_parts (clamp (i.prefix_tokens -ℤ i.hot_prefix_tokens)) i.tail_tokens,
    +ℤ_parts t i.resident_tokens,
    +ℤ_parts t i.hot_prefix_tokens,
  ),
)

-- Against a threshold above 0, a request goes to the prefill node exactly when there is one and its new
-- tokens reach the threshold, which is 6144 when the request has none: the prompt less what the slot
-- holds, or, when the slot is not known to hold any, the larger of the tail and the prompt less the hot
-- prefix.
pub prefill_iff :
    (i : AdmissionInput) (t : ℤ)
    → Holds i t
    → pos 0 <ℤ t
    → ((classify_admission i).route ≡ prefill) ↔ ((i.prefill_available ≡ true) × Reaches i t)
prefill_iff i t holds above =
    let same = threshold_of-Holds i t holds in
    let reaches = new_tokens-Reaches i t above in
    (
      λ h.
          let (there, enough) = (route_iff i).0 h in
          (there, reaches.0 (subst (λ x. x ≤ℤ new_tokens i) same enough)),
      λ h. (route_iff i).1 (h.0, subst (λ x. x ≤ℤ new_tokens i) (sym same) (reaches.1 h.1)),
    )

-- The reason tells the branch: it is the large-prefill tag exactly on the prefill route, and the
-- prefix-hot tag names a hot prefix.
pub reason_route :
    (i : AdmissionInput)
    → (((classify_admission i).reason ≡ large_new_prefill)
        ↔ ((classify_admission i).route ≡ prefill))
      × ((classify_admission i).est_new_tokens ≡ new_tokens i)
unfolding classify_admission
reason_route i = ((ground arith, ground arith), ground arith)

-- Tokens that the slot holds never raise the estimate of new work: it lies between 0 and the
-- whole prompt.
pub new_tokens_bounds :
    (i : AdmissionInput)
    → pos 0 ≤ℤ i.prefix_tokens
    → pos 0 ≤ℤ i.tail_tokens
    → pos 0 ≤ℤ i.hot_prefix_tokens
    → (pos 0 ≤ℤ new_tokens i) × (new_tokens i ≤ℤ i.prefix_tokens +ℤ i.tail_tokens)
unfolding new_tokens
new_tokens_bounds i p t h = grind (
  arith,
  +ℤ_parts i.prefix_tokens i.tail_tokens,
  -ℤ_parts (i.prefix_tokens +ℤ i.tail_tokens) i.resident_tokens,
  -ℤ_parts i.prefix_tokens i.hot_prefix_tokens,
  +ℤ_parts (clamp (i.prefix_tokens -ℤ i.hot_prefix_tokens)) i.tail_tokens,
)

new_tokens_mono :
    (i : AdmissionInput) (more : ℤ)
    → pos 0 <ℤ i.resident_tokens
    → i.resident_tokens ≤ℤ more
    → new_tokens (record i { resident_tokens = more }) ≤ℤ new_tokens i
unfolding new_tokens
new_tokens_mono i more r m = ground (
  arith,
  -ℤ_parts (i.prefix_tokens +ℤ i.tail_tokens) i.resident_tokens,
  -ℤ_parts (i.prefix_tokens +ℤ i.tail_tokens) more,
)

threshold_of_lem :
    (i : AdmissionInput) (more : ℤ)
    → threshold_of (record i { resident_tokens = more }) ≡ threshold_of i
unfolding threshold_of
threshold_of_lem i more = refl

-- A larger resident total never sends more requests to the prefill node.
pub more_resident :
    (i : AdmissionInput) (more : ℤ)
    → pos 0 <ℤ i.resident_tokens
    → i.resident_tokens ≤ℤ more
    → (classify_admission (record i { resident_tokens = more })).route ≡ prefill
    → (classify_admission i).route ≡ prefill
more_resident i more r m h =
    let larger = record i { resident_tokens = more } in
    let (there, enough) = (route_iff larger).0 h in
    (route_iff i).1 (
      there,
      omega (
        arith,
        new_tokens_mono i more r m,
        ap pos_part (threshold_of_lem i more),
        ap neg_part (threshold_of_lem i more),
        enough,
      ),
    )

admit_route :
    (n : ℤ) (hot : Bool)
    → (admit n hot ≡ prefill_then_handoff)
      ↔ ((classify_admission (admit_input n hot)).route ≡ prefill)
unfolding admit
admit_route n hot = (ground arith, ground arith)

admit_new :
    (n : ℤ) (hot : Bool)
    → (new_tokens (admit_input n hot) ≡ n) × (threshold_of (admit_input n hot) ≡ pos 6144)
unfolding new_tokens threshold_of ◌+ℤ◌ ◌-ℤ◌
admit_new n true = (ground arith, refl)
admit_new n false = (ground arith, refl)

-- The short form of the admission asks for the prefill node exactly from the default threshold on,
-- whether or not the prefix is hot.
pub admit_iff : (n : ℤ) (hot : Bool) → (admit n hot ≡ prefill_then_handoff) ↔ (pos 6144 ≤ℤ n)
admit_iff n hot =
    let i = admit_input n hot in
    let (new, least) = admit_new n hot in
    (
      λ h.
          subst (λ k. pos 6144 ≤ℤ k) new
            (subst (λ k. k ≤ℤ new_tokens i) least ((route_iff i).0 ((admit_route n hot).0 h)).1),
      λ h. (admit_route n hot).1 (
          (route_iff i).1 (
            refl,
            subst (λ k. k ≤ℤ new_tokens i) (sym least) (subst (λ k. pos 6144 ≤ℤ k) (sym new) h),
          )),
    )
