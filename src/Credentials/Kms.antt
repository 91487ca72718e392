-- ===== src/Credentials/Kms.antt =====
-- services/collector/credentials/src/kms.rs: the interface of a key service, and the local one.
-- What the operating system's `getrandom` gives to a call is an argument.
pub mod Unwraps
use linvesther.Prelude.{
  ℕ, zero, suc, List, [], ◌∷◌, ◌++◌, Option, Bool, true, false, Result, ok, err, ◌>>=◌, map_err,
  ok_or, raise_if, length, ltb, ◌==◌, not, if◌then◌else◌,
}
use linvesther.Prelude.Bytes.{Bytes, codes}
use linvesther.Prelude.Maps.{get, insert, bytes_keys}
use linvesther.Credentials.{Aead}

pub data KmsError : Type 0 where
  wrap_failed : (text : Bytes) → KmsError
  unwrap_failed : (text : Bytes) → KmsError

pub record Kms : Type 0 where
  pub wrap_dek : (random : Result Bytes Bytes) (tenant_id dek : Bytes) → Result KmsError Bytes
  pub unwrap_dek : (tenant_id wrapped : Bytes) → Result KmsError Bytes

pub record LocalKms : Type 0 where
  pub keks : List (Bytes × Bytes)

unfoldable pub with_random_kek :
    (random : Result Bytes Bytes) (tenant_id : Bytes) → Result KmsError LocalKms
with_random_kek random tenant_id = do
  kek ← map_err wrap_failed random
  ok (record { keks = insert tenant_id kek [] })

-- The two parts of `split_at`.
unfoldable pub take : ℕ → Bytes → Bytes
take zero bytes = []
take (suc n) [] = []
take (suc n) (b ∷ bytes) = b ∷ take n bytes

unfoldable pub drop : ℕ → Bytes → Bytes
drop zero bytes = bytes
drop (suc n) [] = []
drop (suc n) (b ∷ bytes) = drop n bytes

module _ (aead : Aead) where
  unfoldable pub local_wrap_dek :
      LocalKms → (random : Result Bytes Bytes) (tenant_id dek : Bytes) → Result KmsError Bytes
  local_wrap_dek kms random tenant_id dek = do
    kek ← ok_or (get tenant_id kms.keks) (wrap_failed (codes "unknown tenant: " ++ tenant_id))
    nonce ← map_err wrap_failed random
    ciphertext ← map_err wrap_failed (aead.encrypt kek nonce dek)
    ok (nonce ++ ciphertext)

  unfoldable pub local_unwrap_dek : LocalKms → (tenant_id wrapped : Bytes) → Result KmsError Bytes
  local_unwrap_dek kms tenant_id wrapped = do
    _ ← raise_if (ltb (length wrapped) 12) (unwrap_failed (codes "wrapped DEK shorter than nonce"))
    kek ← ok_or (get tenant_id kms.keks) (unwrap_failed (codes "unknown tenant: " ++ tenant_id))
    plaintext ← map_err unwrap_failed (aead.decrypt kek (take 12 wrapped) (drop 12 wrapped))
    _ ←
        raise_if (not (length plaintext == 32))
          (unwrap_failed (codes "unwrapped DEK is not 32 bytes"))
    ok plaintext

  -- `impl Kms for LocalKms`
  unfoldable pub local_kms : LocalKms → Kms
  local_kms kms = record { wrap_dek = local_wrap_dek kms; unwrap_dek = local_unwrap_dek kms }
