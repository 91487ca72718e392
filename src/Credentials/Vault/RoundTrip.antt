-- ===== src/Credentials/Vault/RoundTrip.antt =====
-- Lemmas and theorems on a stored credential (services/collector/credentials/src/vault.rs).
use linvesther.Prelude.{
  ℕ, ◌≡◌, refl, sym, ◌∙◌, ap, subst, some, false, Result, ok, map_err, map_err-eq-ok,
  raise_if-eq-ok, >>=-eq-ok, ok-injective, length,
}
use linvesther.Prelude.Bytes.{Bytes}
use linvesther.Prelude.Maps.{get, contains_key, bytes_keys, get-insert_same}
use linvesther.Credentials.{Environment, Aead}
use linvesther.Credentials.Kms.{Kms}
use linvesther.Credentials.Kms.Unwraps.{IsAuthentic, IsFaithful}
use linvesther.Credentials.Vault.{
  ApiCredential, encrypt_failed, kms_failed, CredentialRecord, EnvelopeJson, Draws, Records,
  is_revoked, encrypt, store, retrieve,
}

-- The JSON of an envelope reads back as it was written.
pub record IsReadBack (json : EnvelopeJson) : Type 0 where
  pub reads :
      (credential : ApiCredential) (text : Bytes)
      → json.to_vec credential ≡ ok text
      → json.from_slice text ≡ ok credential

module _ (kms : Kms) (aead : Aead) (json : EnvelopeJson) where
  -- The key, its wrapping, the text, the nonce and the ciphertext of a stored credential.
  record IsStored (records : Records) (draws : Draws) (id tenant : Bytes)
      (credential : ApiCredential) (after : Records) : Type 0 where
    dek : Bytes
    wrapped : Bytes
    plaintext : Bytes
    nonce : Bytes
    ciphertext : Bytes
    written : CredentialRecord
    dek_of : draws.dek ≡ ok dek
    wrapped_of : kms.wrap_dek draws.wrapping tenant dek ≡ ok wrapped
    plaintext_of : json.to_vec credential ≡ ok plaintext
    ciphertext_of : aead.encrypt dek nonce plaintext ≡ ok ciphertext
    found : get id after ≡ some written
    not_purged : written.purged ≡ false
    not_revoked : is_revoked written ≡ false
    tenant_of : written.tenant_id ≡ tenant
    wrapped_in : written.wrapped_dek ≡ wrapped
    nonce_in : written.nonce ≡ nonce
    ciphertext_in : written.ciphertext ≡ ciphertext

  encrypt-eq-ok :
      (random : Result Bytes Bytes) (dek plaintext : Bytes) {sealed : Bytes × Bytes}
      → encrypt kms aead json random dek plaintext ≡ ok sealed
      → aead.encrypt dek sealed.0 plaintext ≡ ok sealed.1
  unfolding encrypt
  encrypt-eq-ok random dek plaintext h =
      let (nonce, drawn, h1) = >>=-eq-ok random _ h in
      let (ciphertext, sealed, h2) = >>=-eq-ok (aead.encrypt dek nonce plaintext) _ h1 in
      subst (λ (s : Bytes × Bytes). aead.encrypt dek s.0 plaintext ≡ ok s.1) (ok-injective h2)
        sealed

  store-IsStored :
      (records : Records) (draws : Draws) (id tenant venue : Bytes) (environment : Environment)
      (credential : ApiCredential) (now : ℕ) {after : Records}
      → store kms aead json records draws id tenant venue environment credential now ≡ ok after
      → IsStored records draws id tenant credential after
  unfolding store is_revoked
  store-IsStored records draws id tenant venue environment credential now h =
      let (fresh, h1) = raise_if-eq-ok (contains_key id records) _ _ h in
      let (dek, drawn, h2) = >>=-eq-ok (map_err encrypt_failed draws.dek) _ h1 in
      let (wrapped, wrap, h3) =
        >>=-eq-ok (map_err kms_failed (kms.wrap_dek draws.wrapping tenant dek)) _ h2 in
      let (plaintext, text, h4) =
        >>=-eq-ok (map_err encrypt_failed (json.to_vec credential)) _ h3 in
      let (sealed, seal, h5) =
        >>=-eq-ok (map_err encrypt_failed (encrypt kms aead json draws.nonce dek plaintext)) _ h4 in
      record {
        dek = dek;
        wrapped = wrapped;
        plaintext = plaintext;
        nonce = sealed.0;
        ciphertext = sealed.1;
        written = _;
        dek_of = map_err-eq-ok encrypt_failed draws.dek drawn;
        wrapped_of = map_err-eq-ok kms_failed (kms.wrap_dek draws.wrapping tenant dek) wrap;
        plaintext_of = map_err-eq-ok encrypt_failed (json.to_vec credential) text;
        ciphertext_of =
            encrypt-eq-ok draws.nonce dek plaintext
              (map_err-eq-ok encrypt_failed (encrypt kms aead json draws.nonce dek plaintext) seal);
        found = ap (λ m. get id m) (sym (ok-injective h5)) ∙ get-insert_same id _ records;
        not_purged = refl;
        not_revoked = refl;
        tenant_of = refl;
        wrapped_in = refl;
        nonce_in = refl;
        ciphertext_in = refl;
      }

  -- Over a faithful key service, an authentic cipher and JSON that reads back, what `store` accepted
  -- with a key of 32 bytes and a nonce of 12 bytes for the wrapping is what `retrieve` returns.
  pub retrieve-store :
      (records after : Records) (draws : Draws) (id tenant_id venue_id : Bytes)
      (environment : Environment) (credential : ApiCredential) (now_ms : ℕ) (dek nonce : Bytes)
      → IsFaithful kms
      → IsAuthentic aead
      → IsReadBack json
      → draws.dek ≡ ok dek
      → length dek ≡ 32
      → draws.wrapping ≡ ok nonce
      → length nonce ≡ 12
      → store kms aead json records draws id tenant_id venue_id environment credential now_ms
        ≡ ok after
      → retrieve kms aead json after id ≡ ok credential
  unfolding retrieve
  retrieve-store records after draws id tenant_id venue_id environment credential now_ms dek nonce
        faithful authentic reads key len_key drawn len_nonce h =
      let s = store-IsStored records draws id tenant_id venue_id environment credential now_ms h in
      let same : s.dek ≡ dek = ok-injective (sym s.dek_of ∙ key) in
      let unwrapped : kms.unwrap_dek s.written.tenant_id s.written.wrapped_dek ≡ ok s.dek =
        rw (s.tenant_of, s.wrapped_in)
          (faithful.unwraps draws.wrapping nonce tenant_id s.dek s.wrapped drawn len_nonce
            (ap (λ k. length k) same ∙ len_key) s.wrapped_of) in
      let opened : aead.decrypt s.dek s.written.nonce s.written.ciphertext ≡ ok s.plaintext =
        rw (s.nonce_in, s.ciphertext_in)
          (authentic.opens s.dek s.nonce s.plaintext s.ciphertext s.ciphertext_of) in
      let read = reads.reads credential s.plaintext s.plaintext_of in
      rw (s.found, s.not_purged, s.not_revoked, unwrapped, opened, read) refl
