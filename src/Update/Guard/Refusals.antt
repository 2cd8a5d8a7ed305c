-- ===== src/Update/Guard/Refusals.antt =====
-- cmd/sofmat/updateguard.go: what `admitArtifact` lets in, and what a refusal leaves behind.
use sofmat.Base.{
  ◌≡◌, ◌∙◌, subst, ap, refl, ◌⊎◌, inl, inr, Bool, true, false, Option, none, some, arith, List, ok,
  err,
}
use sofmat.Base.Assoc.{lookup, insert, lookup-insert}
use sofmat.Base.Strings.{Str, str_discrete, is_empty, same, trim_prefix}
use sofmat.Update.Guard.{
  Updater, UpdateState, holds, UpdateError, Refusal, digest_differs, declares, load_update_state,
  save_update_state, note_refused_tag, already_refused, refuse, admit_declared, admit_artifact,
  text_at, mislabelled, digest_mismatch, refused_before, sha256_prefix,
}

pub eq_of_same : (s t : Str) → same s t ≡ true → s ≡ t
eq_of_same s t h = ground arith

pub same_self : (s : Str) → same s s ≡ true
same_self s = ground arith

-- The updater knows its file and can write it.
pub record Persists (u : Updater) : Type 0 where
  pub known : u.path_known ≡ true
  pub writes : u.writable ≡ true

pub load-Persists : (u : Updater) → Persists u → Persists (load_update_state u).1
unfolding load_update_state
load-Persists u p = ground arith

pub save-Persists :
    (st : UpdateState) (u : Updater) → Persists u → Persists (save_update_state st u)
unfolding save_update_state
save-Persists st u p = ground arith

-- What is saved is what the next load finds.
pub load-save :
    (st : UpdateState) (u : Updater)
    → Persists u
    → (load_update_state (save_update_state st u)).0 ≡ st
unfolding load_update_state save_update_state
load-save st u p = ground arith

-- A load finds what the one before it found.
pub load-load :
    (u : Updater) → (load_update_state (load_update_state u).1).0 ≡ (load_update_state u).0
unfolding load_update_state
load-load u = ground arith

admit_declared_ok :
    (s : Str) (declared : Option Str) (want digest : Str) (st : UpdateState) (u u' : Updater)
    → admit_declared s declared want digest st u ≡ (ok tt, u')
    → (declared ≡ some want) × (u' ≡ u)
unfolding admit_declared
admit_declared_ok s none want digest st u u' h = cc
admit_declared_ok s (some got) want digest st u u' h = ground arith

admit_sum_ok :
    (equal_fold : Str → Str → Bool) (s : Str) (declared : Option Str) (want digest : Str)
    (u u' : Updater)
    → admit_artifact equal_fold (some s) declared want digest u ≡ (ok tt, u')
    → (lookup str_discrete s (load_update_state u).0.refused ≡ none)
      × ((is_empty digest ≡ true) ⊎ (equal_fold (trim_prefix sha256_prefix digest) s ≡ true))
      × (admit_declared s declared want digest (load_update_state u).0 (load_update_state u).1
          ≡ (ok tt, u'))
unfolding admit_artifact
admit_sum_ok equal_fold s declared want digest u u' h = ground arith

admit_lem :
    (equal_fold : Str → Str → Bool) (sum declared : Option Str) (want digest : Str) (u u' : Updater)
    → admit_artifact equal_fold sum declared want digest u ≡ (ok tt, u')
    → (s : Str) × (sum ≡ some s)
      × (lookup str_discrete s (load_update_state u).0.refused ≡ none)
      × ((is_empty digest ≡ true) ⊎ (equal_fold (trim_prefix sha256_prefix digest) s ≡ true))
      × (declared ≡ some want)
      × (u' ≡ (load_update_state u).1)
unfolding admit_artifact admit_declared
admit_lem equal_fold none declared want digest u u' h = cc
admit_lem equal_fold (some s) declared want digest u u' h =
    let (fresh, whole, e) = admit_sum_ok equal_fold s declared want digest u u' h in
    let (named, kept) = admit_declared_ok s declared want digest _ _ u' e in
    (s, refl, fresh, whole, named, kept)

load_holds :
    (u : Updater) (st : UpdateState)
    → u.path_known ≡ true
    → u.file ≡ holds st
    → ((load_update_state u).0 ≡ st) × ((load_update_state u).1.file ≡ holds st)
unfolding load_update_state
load_holds u st known file = ground (arith, known, file)

-- When the updater's file holds a state, `admitArtifact` accepts a file only when the state does not list
-- its sum as refused, the sum matches the published digest if there is one, and the file declares the
-- version wanted; the updater's file is then left as it is.
pub admit_sound :
    (equal_fold : Str → Str → Bool) (sum declared : Option Str) (want digest : Str) (u u' : Updater)
    (st : UpdateState)
    → u.path_known ≡ true
    → u.file ≡ holds st
    → admit_artifact equal_fold sum declared want digest u ≡ (ok tt, u')
    → (s : Str) × (sum ≡ some s)
      × (lookup str_discrete s st.refused ≡ none)
      × ((is_empty digest ≡ true) ⊎ (equal_fold (trim_prefix sha256_prefix digest) s ≡ true))
      × (declared ≡ some want)
      × (u'.file ≡ holds st)
admit_sound equal_fold sum declared want digest u u' st known file h =
    let (s, at_s, fresh, whole, named, kept) =
      admit_lem equal_fold sum declared want digest u u' h in
    let (loaded, left) = load_holds u st known file in
    (
      s,
      at_s,
      subst (λ x. lookup str_discrete s x.refused ≡ none) loaded fresh,
      whole,
      named,
      ap (λ x. x.file) kept ∙ left,
    )

note_keeps_refused :
    (want digest : Str) (u : Updater)
    → Persists u
    → (load_update_state (note_refused_tag want digest u)).0.refused
      ≡ (load_update_state u).0.refused
unfolding note_refused_tag load_update_state save_update_state
note_keeps_refused want digest u p = ground arith

pub text_at-insert : (k v : Str) (m : List (Str × Str)) → text_at k (insert str_discrete k v m) ≡ v
text_at-insert k v m = rw (lookup-insert str_discrete k k v m, text_at) ground arith

note_marks :
    (want digest : Str) (u : Updater)
    → Persists u
    → is_empty digest ≡ false
    → is_empty want ≡ false
    → (already_refused want digest (note_refused_tag want digest u)).0 ≡ true
unfolding note_refused_tag already_refused
note_marks want digest u p some_digest some_want = rw some_digest (
    rw some_want (
      rw (load-save _ _ (load-Persists u p))
        (rw (text_at-insert want digest _) (same_self digest))))

-- What a refusal leaves: the sum with its reason, and the tag when the release has a digest.
pub refuse_lem :
    (s : Str) (why : Refusal) (want digest : Str) (st : UpdateState) (u : Updater)
    → Persists u
    → (lookup str_discrete s (load_update_state (refuse s why want digest st u)).0.refused
        ≡ some why)
      × (is_empty digest ≡ false
          → is_empty want ≡ false
          → (already_refused want digest (refuse s why want digest st u)).0 ≡ true)
refuse_lem s why want digest st u p =
    let saved = record st { refused = insert str_discrete s why st.refused } in
    let q = save-Persists saved u p in
    (
      rw (note_keeps_refused want digest (save_update_state saved u) q) (
          rw (load-save saved u p)
            (rw (lookup-insert str_discrete s s why st.refused) ground arith)),
      note_marks want digest (save_update_state saved u) q,
    )

admit_declared_err :
    (s : Str) (declared : Option Str) (want digest : Str) (st : UpdateState) (u u' : Updater)
    (e : UpdateError)
    → admit_declared s declared want digest st u ≡ (err e, u')
    → (e ≡ mislabelled) ⊎ (e ≡ digest_mismatch)
    → (why : Refusal) × (u' ≡ refuse s why want digest st u)
unfolding admit_declared
admit_declared_err s none want digest st u u' e h bad = ground arith
admit_declared_err s (some got) want digest st u u' e h bad = (declares want got, ground arith)

admit_sum_err :
    (equal_fold : Str → Str → Bool) (s : Str) (declared : Option Str) (want digest : Str)
    (u u' : Updater) (e : UpdateError)
    → admit_artifact equal_fold (some s) declared want digest u ≡ (err e, u')
    → (e ≡ mislabelled) ⊎ (e ≡ digest_mismatch)
    → (u'
        ≡ refuse s
            (digest_differs (trim_prefix sha256_prefix digest))
            want
            digest
            (load_update_state u).0
            (load_update_state u).1)
      ⊎ (admit_declared s declared want digest (load_update_state u).0 (load_update_state u).1
          ≡ (err e, u'))
unfolding admit_artifact
admit_sum_err equal_fold s declared want digest u u' e h bad = ground arith

refused_shape :
    (equal_fold : Str → Str → Bool) (s : Str) (declared : Option Str) (want digest : Str)
    (u u' : Updater) (e : UpdateError)
    → admit_artifact equal_fold (some s) declared want digest u ≡ (err e, u')
    → (e ≡ mislabelled) ⊎ (e ≡ digest_mismatch)
    → (why : Refusal) × (u'
        ≡ refuse s why want digest (load_update_state u).0 (load_update_state u).1)
refused_shape equal_fold s declared want digest u u' e h bad =
    elim (admit_sum_err equal_fold s declared want digest u u' e h bad) [
      | inl differs ↦ (digest_differs (trim_prefix sha256_prefix digest), differs)
      | inr deeper ↦ admit_declared_err s declared want digest _ _ u' e deeper bad
    ]

admit_known :
    (equal_fold : Str → Str → Bool) (s : Str) (declared : Option Str) (want digest : Str)
    (u : Updater) (why : Refusal)
    → lookup str_discrete s (load_update_state u).0.refused ≡ some why
    → (admit_artifact equal_fold (some s) declared want digest u).0 ≡ err refused_before
unfolding admit_artifact
admit_known equal_fold s declared want digest u why h = rw (h, admit_artifact)

-- While the updater can write its file, one that was refused for its digest or for its version is
-- refused at once when it comes again, whatever release
-- it comes with.
pub refused_for_good :
    (equal_fold : Str → Str → Bool) (s : Str) (declared : Option Str) (want digest : Str)
    (u u' : Updater) (e : UpdateError) (declared' : Option Str) (want' digest' : Str)
    → Persists u
    → admit_artifact equal_fold (some s) declared want digest u ≡ (err e, u')
    → (e ≡ mislabelled) ⊎ (e ≡ digest_mismatch)
    → (admit_artifact equal_fold (some s) declared' want' digest' u').0 ≡ err refused_before
refused_for_good equal_fold s declared want digest u u' e declared' want' digest' p h bad =
    let (why, left) = refused_shape equal_fold s declared want digest u u' e h bad in
    let (listed, _) = refuse_lem s why want digest (load_update_state u).0 _ (load-Persists u p) in
    admit_known equal_fold s declared' want' digest' u' why (rw left listed)

-- While the updater can write its file, a release whose file was refused for its digest or its version
-- is not fetched again: its version and its published digest, which are not empty, are known.
pub not_fetched_again :
    (equal_fold : Str → Str → Bool) (s : Str) (declared : Option Str) (want digest : Str)
    (u u' : Updater) (e : UpdateError)
    → Persists u
    → is_empty digest ≡ false
    → is_empty want ≡ false
    → admit_artifact equal_fold (some s) declared want digest u ≡ (err e, u')
    → (e ≡ mislabelled) ⊎ (e ≡ digest_mismatch)
    → (already_refused want digest u').0 ≡ true
not_fetched_again equal_fold s declared want digest u u' e p some_digest some_want h bad =
    let (why, left) = refused_shape equal_fold s declared want digest u u' e h bad in
    let (_, tagged) = refuse_lem s why want digest (load_update_state u).0 _ (load-Persists u p) in
    rw left (tagged some_digest some_want)
