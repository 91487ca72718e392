-- ===== src/Collector/Attestation/Guest.antt =====
-- The signer (services/collector/attestation/src/signer.rs) and `verify_origin` of the performance
-- guest.
use linvesther.Prelude.{◌≡◌, refl, some, true, ok}
use linvesther.Prelude.Bytes.{Bytes}
use linvesther.Commitments.Hash.{Sha256}
use linvesther.Performance.Envelope
use linvesther.Performance.Origin.{Ecdsa, VerifiedOrigin, verify_origin}
use linvesther.Performance.Origin
use linvesther.Collector.Attestation.{
  SourceEnvelope, write_field, canonical_bytes, envelope_digest, Signing, A0Signer, fingerprint,
  sign, collector_fingerprint,
}

-- The envelope as the guest reads it.
abbrev pub as_input : SourceEnvelope → Envelope.SourceEnvelope
as_input e = record {
  mechanism = e.mechanism;
  issuer_key_id = e.issuer_key_id;
  trust_manifest_hash = e.trust_manifest_hash;
  account_binding_commitment = e.account_binding_commitment;
  batch_commitment = e.batch_commitment;
  raw_evidence_root = e.raw_evidence_root;
  normalized_root = e.normalized_root;
  coverage_manifest_hash = e.coverage_manifest_hash;
  period_start_ms = e.period_start_ms;
  period_end_ms = e.period_end_ms;
  observed_at_ms = e.observed_at_ms;
  expires_at_ms = e.expires_at_ms;
  policy_hash = e.policy_hash;
  environment = e.environment;
  source_session_binding = e.source_session_binding;
}

digest_same :
    (sha : Sha256) (e : SourceEnvelope) → Envelope.digest sha (as_input e) ≡ envelope_digest sha e
unfolding Envelope.digest Envelope.canonical_bytes Envelope.write_field envelope_digest
    canonical_bytes write_field
digest_same sha e = refl

-- For a signature scheme in which a signature made with a key verifies under that key's verifying key,
-- and in which keys and signatures survive being encoded: the guest, given the collector's envelope,
-- key and signature, accepts, and reports the digest that the collector signed and the fingerprint
-- that the collector states as its own.
pub sign-verify_origin :
    (sha : Sha256) (ecdsa : Ecdsa) (signing : Signing ecdsa) (signer : A0Signer sha ecdsa signing)
    (e : SourceEnvelope)
    → ((k : signing.SigningKey) (m : Bytes)
        → ecdsa.verifies (signing.verifying_key k) m (signing.sign_with k m) ≡ true)
    → ((k : ecdsa.VerifyingKey) → ecdsa.from_sec1_bytes (ecdsa.to_encoded_point k) ≡ some k)
    → ((s : ecdsa.Signature) → ecdsa.from_slice (signing.to_bytes s) ≡ some s)
    → verify_origin sha ecdsa
        (as_input e)
        (ecdsa.to_encoded_point (signing.verifying_key signer.key))
        (signing.to_bytes (sign sha ecdsa signing signer e))
      ≡ ok (record {
        envelope_digest = envelope_digest sha e;
        signer_fingerprint = fingerprint sha ecdsa signing signer;
      })
unfolding verify_origin Origin.collector_fingerprint sign fingerprint collector_fingerprint
sign-verify_origin sha ecdsa signing signer e correct keys signatures =
    rw
      (
        keys (signing.verifying_key signer.key),
        signatures (signing.sign_with signer.key (envelope_digest sha e)),
        digest_same sha e,
        correct signer.key (envelope_digest sha e),
      )
      refl
