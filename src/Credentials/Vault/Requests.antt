-- ===== src/Credentials/Vault/Requests.antt =====
-- Runs of requests to the vault (services/collector/credentials/src/vault.rs).
use linvesther.Prelude.{
  ℕ, ◌≡◌, ◌≤◌, ◌⊎◌, inl, inr, refl, sym, ◌∙◌, ap, List, [], ◌∷◌, none, some, false, Result, ok, err,
  map_err, ok_or, ok_or-eq-ok, raise_if-eq-ok, >>=-eq-ok, ok-injective, Result-cases, ltb, arith,
}
use linvesther.Prelude.Bytes.{Bytes}
use linvesther.Prelude.Maps.{get, insert, contains_key, bytes_keys}
use linvesther.Credentials.{Environment, Aead}
use linvesther.Credentials.Kms.{Kms}
use linvesther.Credentials.Vault.{
  ApiCredential, VaultError, encrypt_failed, kms_failed, not_found, CredentialRecord, EnvelopeJson,
  Draws, Records, is_revoked, encrypt, store, mark_revoked, revoke, mark_purged, purge,
}

-- A call that changes the vault.
pub data Request : Type 0 where
  store_request :
      Draws
      → (credential_id tenant_id venue_id : Bytes) → Environment
      → ApiCredential
      → (now_ms : ℕ) → Request
  revoke_request : (credential_id : Bytes) (now_ms : ℕ) → Request
  purge_request : (credential_id : Bytes) (now_ms : ℕ) → Request

-- The records after an operation, which a failure leaves as they are.
abbrev pub or_keep : Records → Result VaultError Records → Records
or_keep records (ok after) = after
or_keep records (err e) = records

module _ (kms : Kms) (aead : Aead) (json : EnvelopeJson) where
  abbrev pub answer_to : Records → Request → Result VaultError Records
  answer_to records (store_request draws id tenant venue environment credential now) =
      store kms aead json records draws id tenant venue environment credential now
  answer_to records (revoke_request id now) = revoke records id now
  answer_to records (purge_request id now) = purge records id now

  abbrev pub run_requests : Records → List Request → Records
  run_requests records [] = records
  run_requests records (request ∷ requests) =
      run_requests (or_keep records (answer_to records request)) requests

  -- The record that an accepted request writes, and what it is written over.
  pub data Writes (records : Records) (id : Bytes) : CredentialRecord → Type 0 where
    stored :
        (r : CredentialRecord)
        → contains_key id records ≡ false
        → r.revoked_at_ms ≡ none
        → r.purge_deadline_ms ≡ none
        → r.purged ≡ false
        → Writes records id r
    marked_revoked :
        (r : CredentialRecord) (now : ℕ)
        → get id records ≡ some r
        → is_revoked r ≡ false
        → Writes records id (mark_revoked r now)
    marked_purged :
        (r : CredentialRecord) (deadline now : ℕ)
        → get id records ≡ some r
        → r.purge_deadline_ms ≡ some deadline
        → deadline ≤ now
        → Writes records id (mark_purged r)

  pub store-Writes :
      (records : Records) (draws : Draws) (id tenant venue : Bytes) (environment : Environment)
      (credential : ApiCredential) (now : ℕ) {after : Records}
      → store kms aead json records draws id tenant venue environment credential now ≡ ok after
      → (r : CredentialRecord) × Writes records id r × (after ≡ insert id r records)
  unfolding store
  store-Writes records draws id tenant venue environment credential now h =
      let (fresh, h1) = raise_if-eq-ok (contains_key id records) _ _ h in
      let (dek, drawn, h2) = >>=-eq-ok (map_err encrypt_failed draws.dek) _ h1 in
      let (wrapped, wrap, h3) =
        >>=-eq-ok (map_err kms_failed (kms.wrap_dek draws.wrapping tenant dek)) _ h2 in
      let (plaintext, text, h4) =
        >>=-eq-ok (map_err encrypt_failed (json.to_vec credential)) _ h3 in
      let (sealed, seal, h5) =
        >>=-eq-ok (map_err encrypt_failed (encrypt kms aead json draws.nonce dek plaintext)) _ h4 in
      (_, stored _ fresh refl refl refl, sym (ok-injective h5))

  pub revoke-Writes :
      (records : Records) (id : Bytes) (now : ℕ) {after : Records}
      → revoke records id now ≡ ok after
      → (r : CredentialRecord) × Writes records id (mark_revoked r now)
        × (after ≡ insert id (mark_revoked r now) records)
  unfolding revoke
  revoke-Writes records id now h =
      let (found, got, h1) = >>=-eq-ok (ok_or (get id records) (not_found id)) _ h in
      let (open_, h2) = raise_if-eq-ok (is_revoked found) _ _ h1 in
      (found, marked_revoked found now (ok_or-eq-ok _ _ got) open_, sym (ok-injective h2))

  pub purge-Writes :
      (records : Records) (id : Bytes) (now : ℕ) {after : Records}
      → purge records id now ≡ ok after
      → (r : CredentialRecord) × (deadline : ℕ) × (get id records ≡ some r)
        × (r.purge_deadline_ms ≡ some deadline)
        × (deadline ≤ now)
        × (after ≡ insert id (mark_purged r) records)
  unfolding purge
  purge-Writes records id now h =
      let (found, got, h1) = >>=-eq-ok (ok_or (get id records) (not_found id)) _ h in
      let (there, h2) = raise_if-eq-ok found.purged _ _ h1 in
      let (deadline, due, h3) = >>=-eq-ok (ok_or found.purge_deadline_ms _) _ h2 in
      let (late, h4) = raise_if-eq-ok (ltb now deadline) _ _ h3 in
      (
        found,
        deadline,
        ok_or-eq-ok _ _ got,
        ok_or-eq-ok _ _ due,
        ground arith,
        sym (ok-injective h4),
      )

  -- A request changes nothing, or writes one record.
  pub answer_to-Writes :
      (records : Records) (request : Request)
      → (or_keep records (answer_to records request) ≡ records)
        ⊎ ((id : Bytes) × (r : CredentialRecord) × Writes records id r
            × (or_keep records (answer_to records request) ≡ insert id r records))
  answer_to-Writes records request = elim (Result-cases (answer_to records request)) [
    | inr (e, failed) ↦ inl (ap (or_keep records) failed)
    | inl (after, done) ↦ inr (written request after done)
  ]
    where
      written :
          (q : Request) (after : Records)
          → answer_to records q ≡ ok after
          → (id : Bytes) × (r : CredentialRecord) × Writes records id r
            × (or_keep records (answer_to records q) ≡ insert id r records)
      written (store_request draws id tenant venue environment credential now) after done =
          let (r, writes, made) =
            store-Writes records draws id tenant venue environment credential now done in
          (id, r, writes, ap (or_keep records) done ∙ made)
      written (revoke_request id now) after done =
          let (r, writes, made) = revoke-Writes records id now done in
          (id, mark_revoked r now, writes, ap (or_keep records) done ∙ made)
      written (purge_request id now) after done =
          let (r, deadline, got, due, late, made) = purge-Writes records id now done in
          (
            id,
            mark_purged r,
            marked_purged r deadline now got due late,
            ap (or_keep records) done ∙ made,
          )
