-- ===== src/Collector/Attestation.antt =====
-- services/collector/attestation: the envelope that a collector signs, the signer, and the badge of an
-- origin. The signing half of the crate `k256` is the parameter `Signing`.
pub mod Guest
use linvesther.Prelude.{
  ℕ, List, [], ◌∷◌, ◌++◌, Option, none, some, Bool, Result, ok, err, ok_or, ◌>>=◌, length,
  if◌then◌else◌, ◌%◌, ◌^◌,
}
use linvesther.Prelude.Int.{ℤ}
use linvesther.Prelude.Bytes.{Bytes, bytes_eq, codes, to_be_bytes}
use linvesther.Commitments.Hash.{Sha256}
use linvesther.Performance.Envelope.{i64_be_bytes}
use linvesther.Performance.Origin.{Ecdsa}

pub record SourceEnvelope : Type 0 where
  pub mechanism : Bytes
  pub issuer_key_id : Bytes
  pub trust_manifest_hash : Bytes
  pub account_binding_commitment : Bytes
  pub batch_commitment : Bytes
  pub raw_evidence_root : Bytes
  pub normalized_root : Bytes
  pub coverage_manifest_hash : Bytes
  pub period_start_ms : ℤ
  pub period_end_ms : ℤ
  pub observed_at_ms : ℤ
  pub expires_at_ms : ℤ
  pub policy_hash : Bytes
  pub environment : Bytes
  pub source_session_binding : Bytes

unfoldable pub write_field : Bytes → Bytes → Bytes → Bytes
write_field buf domain bytes = buf ++ domain ++ to_be_bytes 8 (length bytes % 2 ^ 64) ++ bytes

unfoldable pub canonical_bytes : SourceEnvelope → Bytes
unfolding write_field
canonical_bytes e =
    let buf = write_field [] (codes "mechanism") e.mechanism in
    let buf = write_field buf (codes "issuerKeyId") e.issuer_key_id in
    let buf = write_field buf (codes "trustManifestHash") e.trust_manifest_hash in
    let buf = write_field buf (codes "accountBindingCommitment") e.account_binding_commitment in
    let buf = write_field buf (codes "batchCommitment") e.batch_commitment in
    let buf = write_field buf (codes "rawEvidenceRoot") e.raw_evidence_root in
    let buf = write_field buf (codes "normalizedRoot") e.normalized_root in
    let buf = write_field buf (codes "coverageManifestHash") e.coverage_manifest_hash in
    let buf = write_field buf (codes "periodStart") (i64_be_bytes e.period_start_ms) in
    let buf = write_field buf (codes "periodEnd") (i64_be_bytes e.period_end_ms) in
    let buf = write_field buf (codes "observedAt") (i64_be_bytes e.observed_at_ms) in
    let buf = write_field buf (codes "expiresAt") (i64_be_bytes e.expires_at_ms) in
    let buf = write_field buf (codes "policyHash") e.policy_hash in
    let buf = write_field buf (codes "environment") e.environment in
    write_field buf (codes "sourceSessionBinding") e.source_session_binding

unfoldable pub envelope_digest : Sha256 → SourceEnvelope → Bytes
unfolding canonical_bytes
envelope_digest sha e = sha.digest (canonical_bytes e)

-- Signing keys over the keys and signatures of `Ecdsa`.
pub record Signing (ecdsa : Ecdsa) : Type 1 where
  pub SigningKey : Type 0
  pub from_bytes : Bytes → Option SigningKey
  pub verifying_key : SigningKey → ecdsa.VerifyingKey
  pub sign_with : SigningKey → Bytes → ecdsa.Signature
  pub to_bytes : ecdsa.Signature → Bytes

pub data SignerError : Type 0 where
  invalid_key : SignerError

abbrev pub fingerprint_domain : Bytes
fingerprint_domain = codes "LZK/collector-key/v1"

module _ (sha : Sha256) (ecdsa : Ecdsa) (signing : Signing ecdsa) where
  pub record A0Signer : Type 0 where
    pub key : signing.SigningKey

  unfoldable pub collector_fingerprint : ecdsa.VerifyingKey → Bytes
  collector_fingerprint key = sha.digest (fingerprint_domain ++ ecdsa.to_encoded_point key)

  unfoldable pub signer_from_bytes : Bytes → Result SignerError A0Signer
  signer_from_bytes bytes = do
    key ← ok_or (signing.from_bytes bytes) invalid_key
    ok (record { key = key })

  unfoldable pub fingerprint : A0Signer → Bytes
  unfolding collector_fingerprint
  fingerprint signer = collector_fingerprint (signing.verifying_key signer.key)

  unfoldable pub sign : A0Signer → SourceEnvelope → ecdsa.Signature
  unfolding envelope_digest
  sign signer envelope = signing.sign_with signer.key (envelope_digest sha envelope)

  unfoldable pub verify_signature : ecdsa.VerifyingKey → SourceEnvelope → ecdsa.Signature → Bool
  unfolding envelope_digest
  verify_signature key envelope signature =
      ecdsa.verifies key (envelope_digest sha envelope) signature

pub data OriginBadge : Type 0 where
  a0 a1 a2 : OriginBadge

unfoldable pub origin_badge : Bytes → OriginBadge
origin_badge mechanism =
    if bytes_eq mechanism (codes "A1")
    then a1
    else if bytes_eq mechanism (codes "A2")
    then a2
    else a0
