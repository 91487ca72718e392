-- ===== src/Credentials/Vault.antt =====
-- services/collector/credentials/src/vault.rs: credentials under envelope encryption. A failed
-- operation leaves the vault as it was. The records are a map, listed in the order of their ids.
pub mod Requests
pub mod Revocation
pub mod Purged
pub mod RoundTrip
use linvesther.Prelude.{
  ℕ, ◌+◌, ◌%◌, ◌^◌, List, [], ◌∷◌, ◌++◌, Option, none, some, Bool, true, false, ◌&&◌, not, Result,
  ok, err, ◌>>=◌, map_err, ok_or, raise_if, ltb, leb, if◌then◌else◌, replicate,
}
use linvesther.Prelude.Bytes.{Bytes, codes}
use linvesther.Prelude.Maps.{get, insert, contains_key, bytes_keys}
use linvesther.Credentials.{Environment, Aead}
use linvesther.Credentials.Kms.{Kms, KmsError}

abbrev pub purge_grace_period_ms : ℕ
purge_grace_period_ms = 86400000

pub record ApiCredential : Type 0 where
  pub api_key : Bytes
  pub api_secret : Bytes

pub data VaultError : Type 0 where
  not_found : Bytes → VaultError
  already_exists : Bytes → VaultError
  revoked : Bytes → VaultError
  already_revoked : Bytes → VaultError
  purge_not_due : Bytes → VaultError
  already_purged : Bytes → VaultError
  kms_failed : KmsError → VaultError
  encrypt_failed : Bytes → VaultError
  decrypt_failed : Bytes → VaultError

pub record CredentialRecord : Type 0 where
  pub credential_id : Bytes
  pub tenant_id : Bytes
  pub venue_id : Bytes
  pub environment : Environment
  pub created_at_ms : ℕ
  pub revoked_at_ms : Option ℕ
  pub purge_deadline_ms : Option ℕ
  pub purged : Bool
  pub wrapped_dek : Bytes
  pub nonce : Bytes
  pub ciphertext : Bytes

abbrev pub is_some {ℓ} : {A : Type ℓ} → Option A → Bool
is_some none = false
is_some (some a) = true

unfoldable pub is_revoked : CredentialRecord → Bool
is_revoked r = is_some r.revoked_at_ms

-- The JSON of an envelope, which the crate `serde_json` writes and reads.
pub record EnvelopeJson : Type 0 where
  pub to_vec : ApiCredential → Result Bytes Bytes
  pub from_slice : Bytes → Result Bytes ApiCredential

-- What `getrandom` gives for the key, for the wrapping of it and for the nonce.
pub record Draws : Type 0 where
  pub dek : Result Bytes Bytes
  pub wrapping : Result Bytes Bytes
  pub nonce : Result Bytes Bytes

abbrev pub Records : Type 0
Records = List (Bytes × CredentialRecord)

-- `now_ms + PURGE_GRACE_PERIOD_MS` on 64 bits.
unfoldable pub deadline_of : ℕ → ℕ
deadline_of now_ms = (now_ms + purge_grace_period_ms) % 2 ^ 64

module _ (kms : Kms) (aead : Aead) (json : EnvelopeJson) where
  unfoldable pub encrypt :
      (random : Result Bytes Bytes) (dek plaintext : Bytes) → Result Bytes (Bytes × Bytes)
  encrypt random dek plaintext = do
    nonce ← random
    ciphertext ← aead.encrypt dek nonce plaintext
    ok (nonce, ciphertext)

  unfoldable pub store :
      Records
      → Draws
      → (credential_id tenant_id venue_id : Bytes) → Environment
      → ApiCredential
      → ℕ
      → Result VaultError Records
  store records draws credential_id tenant_id venue_id environment credential now_ms = do
    _ ← raise_if (contains_key credential_id records) (already_exists credential_id)
    dek ← map_err encrypt_failed draws.dek
    wrapped_dek ← map_err kms_failed (kms.wrap_dek draws.wrapping tenant_id dek)
    plaintext ← map_err encrypt_failed (json.to_vec credential)
    sealed ← map_err encrypt_failed (encrypt draws.nonce dek plaintext)
    ok (
        insert credential_id
          (record {
            credential_id = credential_id;
            tenant_id = tenant_id;
            venue_id = venue_id;
            environment = environment;
            created_at_ms = now_ms;
            revoked_at_ms = none;
            purge_deadline_ms = none;
            purged = false;
            wrapped_dek = wrapped_dek;
            nonce = sealed.0;
            ciphertext = sealed.1;
          })
          records)

  unfoldable pub retrieve : Records → Bytes → Result VaultError ApiCredential
  retrieve records credential_id = do
    found ← ok_or (get credential_id records) (not_found credential_id)
    _ ← raise_if found.purged (not_found credential_id)
    _ ← raise_if (is_revoked found) (revoked credential_id)
    dek ← map_err kms_failed (kms.unwrap_dek found.tenant_id found.wrapped_dek)
    plaintext ← map_err decrypt_failed (aead.decrypt dek found.nonce found.ciphertext)
    map_err decrypt_failed (json.from_slice plaintext)

unfoldable pub mark_revoked : CredentialRecord → ℕ → CredentialRecord
mark_revoked r now_ms = record {
  credential_id = r.credential_id;
  tenant_id = r.tenant_id;
  venue_id = r.venue_id;
  environment = r.environment;
  created_at_ms = r.created_at_ms;
  revoked_at_ms = some now_ms;
  purge_deadline_ms = some (deadline_of now_ms);
  purged = r.purged;
  wrapped_dek = r.wrapped_dek;
  nonce = r.nonce;
  ciphertext = r.ciphertext;
}

unfoldable pub revoke : Records → Bytes → ℕ → Result VaultError Records
revoke records credential_id now_ms = do
  found ← ok_or (get credential_id records) (not_found credential_id)
  _ ← raise_if (is_revoked found) (already_revoked credential_id)
  ok (insert credential_id (mark_revoked found now_ms) records)

-- `zeroize` clears a vector, and sets an array to zeros.
unfoldable pub mark_purged : CredentialRecord → CredentialRecord
mark_purged r = record {
  credential_id = r.credential_id;
  tenant_id = r.tenant_id;
  venue_id = r.venue_id;
  environment = r.environment;
  created_at_ms = r.created_at_ms;
  revoked_at_ms = r.revoked_at_ms;
  purge_deadline_ms = r.purge_deadline_ms;
  purged = true;
  wrapped_dek = [];
  nonce = replicate 12 0;
  ciphertext = [];
}

unfoldable pub purge : Records → Bytes → ℕ → Result VaultError Records
purge records credential_id now_ms = do
  found ← ok_or (get credential_id records) (not_found credential_id)
  _ ← raise_if found.purged (already_purged credential_id)
  deadline ← ok_or found.purge_deadline_ms (not_found (credential_id ++ codes " was never revoked"))
  _ ← raise_if (ltb now_ms deadline) (purge_not_due credential_id)
  ok (insert credential_id (mark_purged found) records)

-- `is_some_and(|d| now_ms >= d)`
unfoldable pub has_passed : Option ℕ → ℕ → Bool
has_passed none now_ms = false
has_passed (some deadline) now_ms = leb deadline now_ms

unfoldable pub due_for_purge : Records → ℕ → List Bytes
due_for_purge [] now_ms = []
due_for_purge ((id, r) ∷ records) now_ms =
    if not r.purged && has_passed r.purge_deadline_ms now_ms
    then r.credential_id ∷ due_for_purge records now_ms
    else due_for_purge records now_ms
