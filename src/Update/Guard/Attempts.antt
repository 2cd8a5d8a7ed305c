-- ===== src/Update/Guard/Attempts.antt =====
-- cmd/sofmat/updateguard.go: the budget of attempts of `spendAttempt` and `refundAttempt`, and what
-- `noteInstalled` clears.
use sofmat.Base.{
  ℕ, zero, suc, ◌+◌, ◌-◌, min, ◌≡◌, refl, ap, true, false, List, [], ◌∷◌, none, arith, ltb, ◌==◌,
  if◌then◌else◌, Result, ok, err, Bool-cases, inl, inr,
}
use sofmat.Base.Assoc.{lookup, insert, delete, Distinct, lookup-insert, lookup-delete_self}
use sofmat.Base.Strings.{Str, str_discrete, str_le}
use sofmat.Update.Guard.{
  Updater, UpdateState, UpdateError, load_update_state, save_update_state, count_at, renew,
  spend_attempt, refund_attempt, above, note_installed, attempts_spent,
}
use sofmat.Update.Guard.Refusals.{
  Persists, same_self, text_at-insert, load-save, load-load, load-Persists, save-Persists,
}

count_at-insert :
    (k : Str) (n : ℕ) (m : List (Str × ℕ)) → count_at k (insert str_discrete k n m) ≡ n
count_at-insert k n m = rw (lookup-insert str_discrete k k n m, count_at) ground arith

-- The attempts that are spent, once another artifact has had its way.
abbrev pub spent : Str → Str → Updater → ℕ
spent target digest u = count_at target (renew target digest (load_update_state u).0).attempts

-- After a renewal, and after an attempt is written down, the artifact is the same one.
renew_again :
    (target digest : Str) (n : ℕ) (st : UpdateState)
    → renew target digest (record (renew target digest st) {
      attempts = insert str_discrete target n (renew target digest st).attempts;
    })
      ≡ record (renew target digest st) {
        attempts = insert str_discrete target n (renew target digest st).attempts;
      }
unfolding renew
renew_again target digest n st =
    grind (arith, text_at-insert target digest st.digests, same_self digest)

abbrev spend_saved : Str → Str → Updater → Updater
spend_saved target digest u =
    let st = renew target digest (load_update_state u).0 in
    save_update_state
      (record st {
        attempts = insert str_discrete target (count_at target st.attempts + 1) st.attempts;
      })
      (load_update_state u).1

spend_yes :
    (target digest : Str) (u : Updater)
    → ltb 3 (spent target digest u + 1) ≡ false
    → spend_attempt target digest u ≡ (ok tt, spend_saved target digest u)
unfolding spend_attempt
spend_yes target digest u h = rw h refl

spend_no :
    (target digest : Str) (u : Updater)
    → ltb 3 (spent target digest u + 1) ≡ true
    → spend_attempt target digest u ≡ (err attempts_spent, (load_update_state u).1)
unfolding spend_attempt
spend_no target digest u h = rw h refl

spent_saved :
    (target digest : Str) (u : Updater)
    → Persists u
    → spent target digest (spend_saved target digest u) ≡ spent target digest u + 1
spent_saved target digest u p = rw (load-save _ (load_update_state u).1 (load-Persists u p)) (
    rw (renew_again target digest (spent target digest u + 1) (load_update_state u).0)
      (count_at-insert target _ _))

-- How many of `n` requests for an attempt in a row are granted.
unfoldable pub granted : ℕ → Str → Str → Updater → ℕ
granted zero target digest u = 0
granted (suc n) target digest u =
    let answer = spend_attempt target digest u in
    elim answer.0 [
      | ok _ ↦ suc (granted n target digest answer.1)
      | err _ ↦ granted n target digest answer.1
    ]

granted_yes :
    (n : ℕ) (target digest : Str) (u v : Updater)
    → spend_attempt target digest u ≡ (ok tt, v)
    → granted (suc n) target digest u ≡ suc (granted n target digest v)
unfolding granted
granted_yes n target digest u v h =
    ap {B = ℕ}
      (λ (p : Result UpdateError (Unit {0}) × Updater). elim p.0 [
        | ok _ ↦ suc (granted n target digest p.1)
        | err _ ↦ granted n target digest p.1
      ])
      h

granted_no :
    (n : ℕ) (target digest : Str) (u v : Updater) (e : UpdateError)
    → spend_attempt target digest u ≡ (err e, v)
    → granted (suc n) target digest u ≡ granted n target digest v
unfolding granted
granted_no n target digest u v e h =
    ap {B = ℕ}
      (λ (p : Result UpdateError (Unit {0}) × Updater). elim p.0 [
        | ok _ ↦ suc (granted n target digest p.1)
        | err _ ↦ granted n target digest p.1
      ])
      h

-- While the updater can write its file, however often the same artifact asks for an attempt at a
-- version, it gets what is left of its three:
-- with the count back at zero when the digest is new, and none once they are spent.
pub granted_lem :
    (n : ℕ) (target digest : Str) (u : Updater)
    → Persists u
    → granted n target digest u ≡ min n (3 - spent target digest u)
unfolding granted
granted_lem zero target digest u p = omega arith
granted_lem (suc n) target digest u p = elim (Bool-cases (ltb 3 (spent target digest u + 1))) [
  | inl over ↦ rw (granted_no n target digest u _ attempts_spent (spend_no target digest u over)) (
      rw (granted_lem n target digest (load_update_state u).1 (load-Persists u p))
        (rw (load-load u) ground arith))
  | inr under ↦ rw (granted_yes n target digest u _ (spend_yes target digest u under)) (
      rw
        (granted_lem n target digest (spend_saved target digest u)
          (save-Persists _ _ (load-Persists u p)))
        (rw (spent_saved target digest u p) ground arith))
]

count_at-delete :
    (k : Str) (m : List (Str × ℕ))
    → Distinct str_discrete m
    → count_at k (delete str_discrete k m) ≡ 0
count_at-delete k m d = rw (lookup-delete_self str_discrete k m d, count_at) refl

-- While the updater can write its file, and the counters have no key twice, a refund takes one attempt
-- back, and nothing from a version that has none.
pub refund_attempt_lem :
    (target : Str) (u : Updater)
    → Persists u
    → Distinct str_discrete (load_update_state u).0.attempts
    → count_at target (load_update_state (refund_attempt target u)).0.attempts
      ≡ count_at target (load_update_state u).0.attempts - 1
unfolding refund_attempt
refund_attempt_lem target u p d =
    let st = (load_update_state u).0 in
    let n = count_at target st.attempts in
    elim (Bool-cases (n == 0)) [
      | inl nothing ↦ rw (nothing, refund_attempt) (rw (load-load u) ground arith)
      | inr held ↦ elim (Bool-cases (n == 1)) [
        | inl one ↦
            rw (held, refund_attempt)
              (rw one (
                rw (load-save _ (load_update_state u).1 (load-Persists u p))
                  (rw (count_at-delete target st.attempts d) ground arith)))
        | inr more ↦
            rw (held, refund_attempt)
              (rw more (
                rw (load-save _ (load_update_state u).1 (load-Persists u p))
                  (rw (count_at-insert target (n - 1) st.attempts) refl)))
      ]
    ]

-- What stays of a map after the loops of `noteInstalled`.
lookup-above :
    {V : Type 0} (version t : Str) (m : List (Str × V))
    → lookup str_discrete t (above version m)
      ≡ (if str_le t version then none else lookup str_discrete t m)
unfolding lookup above
lookup-above version t [] = ground arith
lookup-above version t ((k, v) ∷ m) = ground (arith, lookup-above version t m)

-- While the updater can write its file, `noteInstalled` keeps the attempts and the refused tags of the
-- versions above the one installed, drops the others, keeps every refused sum, and writes down the sum
-- of what was installed.
pub note_installed_lem :
    (version sha now t : Str) (u : Updater)
    → Persists u
    → (lookup str_discrete t (load_update_state (note_installed version sha now u)).0.attempts ≡ (
        if str_le t version then none else lookup str_discrete t (load_update_state u).0.attempts))
      × (lookup str_discrete t (load_update_state (note_installed version sha now u)).0.refused_tags
          ≡ (if str_le t version
              then none
              else lookup str_discrete t (load_update_state u).0.refused_tags))
      × ((load_update_state (note_installed version sha now u)).0.refused
          ≡ (load_update_state u).0.refused)
      × ((load_update_state (note_installed version sha now u)).0.installed_sha ≡ sha)
unfolding note_installed
note_installed_lem version sha now t u p =
    rw (load-save _ (load_update_state u).1 (load-Persists u p))
      (lookup-above version t _, lookup-above version t _, refl, refl)
