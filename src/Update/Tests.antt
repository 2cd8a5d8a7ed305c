-- ===== src/Update/Tests.antt =====
-- Tests of the update guards, and their theorems at concrete inputs.
use sofmat.Base.{
  ◌-◌, min, ◌≡◌, refl, ◌⊎◌, inl, Bool, true, false, [], ◌∷◌, none, some, ok, err, ℕ_discrete,
}
use sofmat.Base.Assoc.{lookup, insert, delete, Distinct}
use sofmat.Base.Strings.{Str, str_discrete, str_le, after, trim_prefix, is_empty, same}
use sofmat.Update.Guard.{
  Updater, declares, no_state, missing, holds, load_update_state, save_update_state,
  note_refused_tag, already_refused, admit_declared, admit_artifact, renew, spend_attempt,
  refund_attempt, above, note_installed, place, sort_strings, first, blocked_reason, mislabelled,
  refused_before, tried_out, sha256_prefix,
}
use sofmat.Update.Guard.Refusals
use sofmat.Update.Guard.Attempts.{granted, spent, granted_lem}

guards : Unit {0}
unfolding lookup insert delete str_discrete str_le after trim_prefix load_update_state
    save_update_state note_refused_tag already_refused admit_declared admit_artifact renew
    spend_attempt refund_attempt above note_installed place sort_strings first blocked_reason
    granted ℕ_discrete
guards = tt

-- A version is one letter here, and so is a digest.
abbrev old_version : Str
old_version = b'a' ∷ []

abbrev new_version : Str
new_version = b'b' ∷ []

abbrev digest : Str
digest = b'd' ∷ []

abbrev equal_fold : Str → Str → Bool
equal_fold = same

abbrev fresh : Updater
fresh = record { path_known = true; writable = true; file = missing; corrupt = false }

abbrev refusing : Updater
refusing = record {
  path_known = true;
  writable = true;
  file = holds (record no_state {
    refused = (digest, declares new_version old_version) ∷ [];
    refused_tags = (new_version, digest) ∷ [];
  });
  corrupt = false;
}

admits :
    admit_artifact equal_fold (some digest) (some new_version) new_version digest fresh
    ≡ (ok tt, fresh)
unfolding guards
admits = refl

-- An updater that has refused the digest, and another file.
abbrev other_digest : Str
other_digest = b'e' ∷ []

admits_other :
    admit_artifact equal_fold (some other_digest) (some new_version) new_version [] refusing
    ≡ (ok tt, refusing)
unfolding guards
admits_other = refl

admit_sound_example :
    (s : Str) × (some other_digest ≡ some s)
    × (lookup str_discrete s ((digest, declares new_version old_version) ∷ []) ≡ none)
    × ((is_empty [] ≡ true) ⊎ (equal_fold (trim_prefix sha256_prefix []) s ≡ true))
    × (some new_version ≡ some new_version)
    × (refusing.file ≡ refusing.file)
admit_sound_example =
    Refusals.admit_sound equal_fold (some other_digest) (some new_version) new_version [] refusing
      refusing
      (record no_state {
        refused = (digest, declares new_version old_version) ∷ [];
        refused_tags = (new_version, digest) ∷ [];
      })
      refl refl admits_other

mislabels :
    admit_artifact equal_fold (some digest) (some old_version) new_version digest fresh
    ≡ (err mislabelled, refusing)
unfolding guards
mislabels = refl

refused_for_good_example :
    (admit_artifact equal_fold (some digest) (some new_version) new_version [] refusing).0
    ≡ err refused_before
refused_for_good_example =
    Refusals.refused_for_good equal_fold digest (some old_version) new_version digest fresh refusing
      mislabelled (some new_version) new_version [] (record { known = refl; writes = refl })
      mislabels (inl refl)

granted_lem_example :
    granted 5 new_version digest fresh ≡ min 5 (3 - spent new_version digest fresh)
granted_lem_example =
    granted_lem 5 new_version digest fresh (record { known = refl; writes = refl })

three_of_five : granted 5 new_version digest fresh ≡ 3
unfolding guards
three_of_five = refl

abbrev tired : Updater
tired = record {
  path_known = true;
  writable = true;
  file =
      holds (record no_state {
        attempts = (new_version, 3) ∷ [];
        digests = (new_version, digest) ∷ [];
      });
  corrupt = false;
}

tired-Distinct : Distinct str_discrete (load_update_state tired).0.attempts
unfolding guards
tired-Distinct = (refl, tt)

quiet : (blocked_reason old_version fresh).0 ≡ none
unfolding guards
quiet = refl

newer : str_le new_version old_version ≡ false
unfolding guards
newer = refl

loud : (blocked_reason old_version tired).0 ≡ some (tried_out new_version)
unfolding guards
loud = refl
