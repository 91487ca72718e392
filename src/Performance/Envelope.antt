-- ===== src/Performance/Envelope.antt =====
-- zkvm/methods/performance/guest/src/envelope.rs: the signed envelope and its canonical bytes. A
-- string is its UTF-8 bytes, a `[u8; 32]` a list of bytes, an `i64` the integer.
pub mod Injective
use linvesther.Prelude.{ℕ, ◌^◌, ◌-◌, ◌+◌, ◌%◌, List, [], ◌∷◌, ◌++◌, length}
use linvesther.Prelude.Int.{ℤ, pos, negsuc}
use linvesther.Prelude.Bytes.{Bytes, codes, to_be_bytes}
use linvesther.Commitments.Hash.{Sha256}

pub record SourceEnvelope : Type 0 where
  pub mechanism : Bytes
  pub issuer_key_id : Bytes
  pub trust_manifest_hash : Bytes
  pub account_binding_commitment : Bytes
  pub batch_commitment : Bytes
  pub raw_evidence_root : Bytes
  pub normalized_root : Bytes
  pub coverage_manifest_hash : Bytes
  pub period_start_ms : ℤ
  pub period_end_ms : ℤ
  pub observed_at_ms : ℤ
  pub expires_at_ms : ℤ
  pub policy_hash : Bytes
  pub environment : Bytes
  pub source_session_binding : Bytes

-- The bit pattern of an `i64`, in two's complement.
abbrev pub i64_bits : ℤ → ℕ
i64_bits (pos n) = n
i64_bits (negsuc n) = 2 ^ 64 - 1 - n

abbrev pub i64_be_bytes : ℤ → Bytes
i64_be_bytes a = to_be_bytes 8 (i64_bits a)

unfoldable pub write_field : Bytes → Bytes → Bytes → Bytes
write_field buf domain bytes = ((buf ++ domain) ++ to_be_bytes 8 (length bytes % 2 ^ 64)) ++ bytes

unfoldable pub canonical_bytes : SourceEnvelope → Bytes
canonical_bytes e =
    let buf = write_field [] (codes "mechanism") e.mechanism in
    let buf = write_field buf (codes "issuerKeyId") e.issuer_key_id in
    let buf = write_field buf (codes "trustManifestHash") e.trust_manifest_hash in
    let buf = write_field buf (codes "accountBindingCommitment") e.account_binding_commitment in
    let buf = write_field buf (codes "batchCommitment") e.batch_commitment in
    let buf = write_field buf (codes "rawEvidenceRoot") e.raw_evidence_root in
    let buf = write_field buf (codes "normalizedRoot") e.normalized_root in
    let buf = write_field buf (codes "coverageManifestHash") e.coverage_manifest_hash in
    let buf = write_field buf (codes "periodStart") (i64_be_bytes e.period_start_ms) in
    let buf = write_field buf (codes "periodEnd") (i64_be_bytes e.period_end_ms) in
    let buf = write_field buf (codes "observedAt") (i64_be_bytes e.observed_at_ms) in
    let buf = write_field buf (codes "expiresAt") (i64_be_bytes e.expires_at_ms) in
    let buf = write_field buf (codes "policyHash") e.policy_hash in
    let buf = write_field buf (codes "environment") e.environment in
    write_field buf (codes "sourceSessionBinding") e.source_session_binding

unfoldable pub digest : Sha256 → SourceEnvelope → Bytes
unfolding canonical_bytes
digest sha e = sha.digest (canonical_bytes e)
