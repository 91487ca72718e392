-- ===== src/Credentials/Kms/Unwraps.antt =====
-- Lemmas and theorems on the key services (services/collector/credentials/src/kms.rs).
use linvesther.Prelude.{
  ◌≡◌, refl, ap, [], ◌∷◌, ◌++◌, true, false, Result, ok, map_err, map_err-eq-ok, ok_or, ok_or-eq-ok,
  >>=-eq-ok, ok-injective, length, length-append, ltb, ◌==◌, arith, ◌∙◌, sym,
}
use linvesther.Prelude.Bytes.{Bytes}
use linvesther.Prelude.Maps.{get, bytes_keys}
use linvesther.Credentials.{Aead}
use linvesther.Credentials.Kms.{
  wrap_failed, Kms, LocalKms, take, drop, local_wrap_dek, local_unwrap_dek, local_kms,
}

-- Decryption undoes encryption under the same key and nonce.
pub record IsAuthentic (aead : Aead) : Type 0 where
  pub opens :
      (key nonce plaintext ciphertext : Bytes)
      → aead.encrypt key nonce plaintext ≡ ok ciphertext
      → aead.decrypt key nonce ciphertext ≡ ok plaintext

-- A key service returns the key that it wrapped for the tenant: nonces have 12 bytes, keys 32.
pub record IsFaithful (kms : Kms) : Type 0 where
  pub unwraps :
      (random : Result Bytes Bytes) (nonce tenant_id dek wrapped : Bytes)
      → random ≡ ok nonce
      → length nonce ≡ 12
      → length dek ≡ 32
      → kms.wrap_dek random tenant_id dek ≡ ok wrapped
      → kms.unwrap_dek tenant_id wrapped ≡ ok dek

take-append : (a b : Bytes) → take (length a) (a ++ b) ≡ a
unfolding take
take-append [] b = refl
take-append (x ∷ a) b = ap (λ t. x ∷ t) (take-append a b)

drop-append : (a b : Bytes) → drop (length a) (a ++ b) ≡ b
unfolding drop
drop-append [] b = refl
drop-append (x ∷ a) b = drop-append a b

-- Over an authentic cipher, the local key service unwraps a key of 32 bytes that it wrapped for a
-- tenant under a nonce of 12 bytes.
local_unwrap_dek-local_wrap_dek :
    (aead : Aead) (kms : LocalKms) (random : Result Bytes Bytes)
    (nonce tenant_id dek wrapped : Bytes)
    → IsAuthentic aead
    → random ≡ ok nonce
    → length nonce ≡ 12
    → length dek ≡ 32
    → local_wrap_dek aead kms random tenant_id dek ≡ ok wrapped
    → local_unwrap_dek aead kms tenant_id wrapped ≡ ok dek
unfolding local_wrap_dek local_unwrap_dek
local_unwrap_dek-local_wrap_dek aead kms random nonce tenant_id dek wrapped authentic drawn
      len_nonce len_dek h =
    let (kek, found, h1) = >>=-eq-ok (ok_or (get tenant_id kms.keks) _) _ h in
    let (n, drawn', h2) = >>=-eq-ok (map_err wrap_failed random) _ h1 in
    let same : n ≡ nonce = ok-injective (sym (map_err-eq-ok wrap_failed random drawn') ∙ drawn) in
    let (ciphertext, sealed, h3) = >>=-eq-ok (map_err wrap_failed (aead.encrypt kek n dek)) _ h2 in
    let made : wrapped ≡ nonce ++ ciphertext =
      sym (ok-injective h3) ∙ ap (λ m. m ++ ciphertext) same in
    let sealed' : aead.encrypt kek nonce dek ≡ ok ciphertext =
      ap (λ m. aead.encrypt kek m dek) (sym same) ∙ map_err-eq-ok wrap_failed _ sealed in
    let opened = authentic.opens kek nonce dek ciphertext sealed' in
    let front : take 12 (nonce ++ ciphertext) ≡ nonce =
      rw len_nonce at (take-append nonce ciphertext) in
    let back : drop 12 (nonce ++ ciphertext) ≡ ciphertext =
      rw len_nonce at (drop-append nonce ciphertext) in
    let long : ltb (length (nonce ++ ciphertext)) 12 ≡ false =
      let l = length-append nonce ciphertext in ground arith in
    let size : (length dek == 32) ≡ true = ground arith in
    rw (made, long, ok_or-eq-ok _ _ found, front, back, opened, size) refl

-- So it fills the interface.
pub local_kms-IsFaithful :
    (aead : Aead) (kms : LocalKms) → IsAuthentic aead → IsFaithful (local_kms aead kms)
unfolding local_kms
local_kms-IsFaithful aead kms authentic = record {
  unwraps = λ random nonce tenant_id dek wrapped.
      local_unwrap_dek-local_wrap_dek aead kms random nonce tenant_id dek wrapped authentic;
}
