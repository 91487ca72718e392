-- ===== src/Performance/Origin.antt =====
-- zkvm/methods/performance/guest/src/origin.rs: which envelope was signed, and by which key. The
-- crate `k256` is a parameter: its keys and signatures, their decoders (`none` for an error), the
-- check of a signature and the compressed encoding of a key.
use linvesther.Prelude.{Bool, Option, ◌++◌, Result, ok, ◌>>=◌, ◌>>◌, ok_or, raise_if, not}
use linvesther.Prelude.Bytes.{Bytes, codes}
use linvesther.Commitments.Hash.{Sha256}
use linvesther.Performance.Envelope.{SourceEnvelope, digest}

pub record Ecdsa : Type 1 where
  pub VerifyingKey : Type 0
  pub Signature : Type 0
  pub from_sec1_bytes : Bytes → Option VerifyingKey
  pub from_slice : Bytes → Option Signature
  pub verifies : VerifyingKey → Bytes → Signature → Bool
  pub to_encoded_point : VerifyingKey → Bytes

abbrev pub fingerprint_domain : Bytes
fingerprint_domain = codes "LZK/collector-key/v1"

pub data OriginError : Type 0 where
  invalid_verifying_key invalid_signature_encoding signature_does_not_verify : OriginError

pub record VerifiedOrigin : Type 0 where
  pub envelope_digest : Bytes
  pub signer_fingerprint : Bytes

module _ (sha : Sha256) (ecdsa : Ecdsa) where
  open ecdsa use {VerifyingKey, from_sec1_bytes, from_slice, verifies, to_encoded_point}

  unfoldable pub collector_fingerprint : VerifyingKey → Bytes
  collector_fingerprint key = sha.digest (fingerprint_domain ++ to_encoded_point key)

  unfoldable pub verify_origin : SourceEnvelope → Bytes → Bytes → Result OriginError VerifiedOrigin
  verify_origin envelope verifying_key_sec1 signature_compact = do
    key ← ok_or (from_sec1_bytes verifying_key_sec1) invalid_verifying_key
    signature ← ok_or (from_slice signature_compact) invalid_signature_encoding
    let signed = digest sha envelope
    raise_if (not (verifies key signed signature)) signature_does_not_verify
    ok (record { envelope_digest = signed; signer_fingerprint = collector_fingerprint key })
