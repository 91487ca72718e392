-- ===== src/Credentials.antt =====
-- services/collector/credentials: credentials, their restrictions, their vault and signed requests.
pub mod Kms
pub mod Vault
pub mod Restrictions
pub mod Binding
pub mod Signing
use linvesther.Prelude.{Bool, true, false, Result}
use linvesther.Prelude.Bytes.{Bytes}

pub data Environment : Type 0 where
  production : Environment
  test : Environment

-- The derived `==`.
unfoldable pub environment_eq : Environment → Environment → Bool
environment_eq production production = true
environment_eq production test = false
environment_eq test production = false
environment_eq test test = true

-- AES-256-GCM (the crate `aes_gcm`): encryption and decryption under a key and a nonce, with the
-- text of an error.
pub record Aead : Type 0 where
  pub encrypt : (key nonce plaintext : Bytes) → Result Bytes Bytes
  pub decrypt : (key nonce ciphertext : Bytes) → Result Bytes Bytes
