-- ===== src/Credentials/Vault/Purged.antt =====
-- Lemmas and theorems on the purge of credentials (services/collector/credentials/src/vault.rs).
use linvesther.Prelude.{
  ℕ, ◌≡◌, ◌≤◌, ◌⊎◌, inl, inr, refl, sym, ◌∙◌, ap, subst, List, [], ◌∷◌, Option, none, some, false,
  ok, Bool-cases,
}
use linvesther.Prelude.Bytes.{Bytes, bytes_eq, bytes_eq→eq}
use linvesther.Prelude.Maps.{get, insert, bytes_keys, get-insert_same, get-insert_other}
use linvesther.Credentials.{Aead}
use linvesther.Credentials.Kms.{Kms}
use linvesther.Credentials.Vault.{
  CredentialRecord, EnvelopeJson, Records, deadline_of, mark_revoked, mark_purged, purge,
}
use linvesther.Credentials.Vault.Requests.{
  Request, or_keep, answer_to, run_requests, Writes, stored, marked_revoked, marked_purged,
  purge-Writes, answer_to-Writes,
}

-- The deadline that belongs to a time of revocation.
abbrev pub deadline_after : Option ℕ → Option ℕ
deadline_after none = none
deadline_after (some t) = some (deadline_of t)

-- A record is open, revoked with its deadline, or purged with nothing secret left.
pub record IsSound (r : CredentialRecord) : Type 0 where
  pub deadline_is : r.purge_deadline_ms ≡ deadline_after r.revoked_at_ms
  pub secrets_are : (r.purged ≡ false) ⊎ ((r.wrapped_dek ≡ []) × (r.ciphertext ≡ []))

-- A record before and after its purge.
pub record IsPurged (now_ms : ℕ) (before after : CredentialRecord) : Type 0 where
  pub revoked_at : ℕ
  pub revoked_of : before.revoked_at_ms ≡ some revoked_at
  pub deadline_passed : deadline_of revoked_at ≤ now_ms
  pub key_erased : after.wrapped_dek ≡ []
  pub ciphertext_erased : after.ciphertext ≡ []

revoked-of_deadline :
    (o : Option ℕ) {d : ℕ}
    → deadline_after o ≡ some d
    → (t : ℕ) × (o ≡ some t) × (deadline_of t ≡ d)
revoked-of_deadline none h = cc
revoked-of_deadline (some t) h = (t, refl, cc)

module _ (kms : Kms) (aead : Aead) (json : EnvelopeJson) where
  abbrev AreSound : Records → Type 0
  AreSound records = (id : Bytes) (r : CredentialRecord) → get id records ≡ some r → IsSound r

  Writes-IsSound :
      (records : Records) (id : Bytes) (r : CredentialRecord)
      → AreSound records
      → Writes kms aead json records id r
      → IsSound r
  unfolding mark_revoked mark_purged
  Writes-IsSound records id r sound (stored s fresh open_ due there) = record {
    deadline_is = rw (open_, due) refl;
    secrets_are = inl there;
  }
  Writes-IsSound records id r sound (marked_revoked s now got open_) = record {
    deadline_is = refl;
    secrets_are = (sound id s got).secrets_are;
  }
  Writes-IsSound records id r sound (marked_purged s deadline now got due late) = record {
    deadline_is = (sound id s got).deadline_is;
    secrets_are = inr (refl, refl);
  }

  insert-AreSound :
      (records : Records) (at_id : Bytes) (r : CredentialRecord)
      → AreSound records
      → IsSound r
      → AreSound (insert at_id r records)
  insert-AreSound records at_id r sound good id s h = elim (Bool-cases (bytes_eq at_id id)) [
    | inr other ↦ sound id s (sym (get-insert_other at_id id r records other) ∙ h)
    | inl here ↦
        let same = bytes_eq→eq at_id id here in
        let stored_ =
          subst (λ k. get k (insert at_id r records) ≡ some r) same
            (get-insert_same at_id r records) in
        let made : r ≡ s = cc in subst IsSound made good
  ]

  run_requests-AreSound :
      (records : Records) (requests : List Request)
      → AreSound records
      → AreSound (run_requests kms aead json records requests)
  run_requests-AreSound records [] sound = sound
  run_requests-AreSound records (request ∷ requests) sound =
      run_requests-AreSound (or_keep records (answer_to kms aead json records request)) requests
        (elim (answer_to-Writes kms aead json records request) [
          | inl same ↦ subst AreSound (sym same) sound
          | inr (at_id, r, writes, made) ↦
              subst AreSound (sym made) (
                insert-AreSound records at_id r sound (Writes-IsSound records at_id r sound writes))
        ])

  -- In a vault that was empty and ran any requests, each record has a purge deadline exactly if it
  -- was revoked, the one that belongs to the time of revocation, and a purged record holds neither
  -- the wrapped key nor the ciphertext.
  run_requests-IsSound :
      (requests : List Request) (id : Bytes) (r : CredentialRecord)
      → get id (run_requests kms aead json [] requests) ≡ some r
      → IsSound r
  unfolding get
  run_requests-IsSound requests id r h = run_requests-AreSound [] requests (λ i s g. cc) id r h

  -- In a vault that was empty and ran any requests, a purge succeeds only for a credential that was
  -- revoked, and only once the deadline of that revocation has passed; afterwards the record holds
  -- neither the wrapped key nor the ciphertext.
  pub purge-IsPurged :
      (requests : List Request) (id : Bytes) (now_ms : ℕ) (after : Records)
      → purge (run_requests kms aead json [] requests) id now_ms ≡ ok after
      → (before : CredentialRecord) × (left : CredentialRecord) × (get id
            (run_requests kms aead json [] requests)
          ≡ some before)
        × (get id after ≡ some left)
        × IsPurged now_ms before left
  unfolding mark_purged
  purge-IsPurged requests id now_ms after h =
      let (r, deadline, got, due, late, made) =
        purge-Writes kms aead json (run_requests kms aead json [] requests) id now_ms h in
      let sound = run_requests-IsSound requests id r got in
      let (t, revoked_, is_t) = revoked-of_deadline r.revoked_at_ms (sym sound.deadline_is ∙ due) in
      (
        r,
        mark_purged r,
        got,
        ap (λ m. get id m) made
            ∙ get-insert_same id (mark_purged r) (run_requests kms aead json [] requests),
        record {
          revoked_at = t;
          revoked_of = revoked_;
          deadline_passed = rw is_t late;
          key_erased = refl;
          ciphertext_erased = refl;
        },
      )
