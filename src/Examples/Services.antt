-- ===== src/Examples/Services.antt =====
-- Jobs, recovery and corrections on small inputs.
use linvesther.Prelude.{ℕ, ◌+◌, List, ◌≡◌, refl, [], ◌∷◌, ◌++◌, none, some, ok, replicate}
use linvesther.Prelude.Int.{pos}
use linvesther.Prelude.Bytes.{Bytes, bytes_eq, bytes_eq_refl}
use linvesther.Commitments.Hash.{length_hash}
use linvesther.Jobs.{Job, pending}
use linvesther.Jobs.Lease.{lease, try_acquire}
use linvesther.Jobs.Outbox.{Effect, new}
use linvesther.Jobs.Outbox.Replay.{apply_all, apply-replay}
use linvesther.Jobs.Retry.{Backoff}
use linvesther.Recovery.Mirror.{verify_object_mirrored}
use linvesther.Recovery.RestoreDrill.{RestoreDrill}
use linvesther.Collector.Attestation.{
  SourceEnvelope, Signing, A0Signer, envelope_digest, fingerprint, sign,
}
use linvesther.Collector.Attestation.Guest.{as_input, sign-verify_origin}
use linvesther.Performance.Origin.{Ecdsa, verify_origin}

abbrev job : Job
job = record {
  id = 1 ∷ [];
  job_type = 2 ∷ [];
  tenant = 3 ∷ [];
  dedup_key = 4 ∷ [];
  payload_digest = replicate 32 5;
  available_at_ms = pos 100;
  lease_until_ms = some (pos 90);
  attempt = 2;
  state = pending;
  last_error_code = none;
}

acquire_job : try_acquire job (pos 100) (pos 30) ≡ ok (lease job (pos 100) (pos 30))
unfolding try_acquire
acquire_job = refl

abbrev effect_one : Effect
effect_one = record { idempotency_key = 1 ∷ []; payload_digest = replicate 32 1 }

abbrev effect_two : Effect
effect_two = record { idempotency_key = 2 ∷ []; payload_digest = replicate 32 2 }

apply-replay_example :
    apply_all (apply_all new (effect_one ∷ [])) ((effect_one ∷ []) ++ (effect_two ∷ []))
    ≡ apply_all new ((effect_one ∷ []) ++ (effect_two ∷ []))
apply-replay_example = apply-replay new (effect_one ∷ []) (effect_two ∷ [])

abbrev backoff : Backoff
backoff = record { base_ms = pos 5_000; max_ms = pos 900_000; max_attempts = 10 }

mirror_same : verify_object_mirrored length_hash (λ b. b) (1 ∷ 2 ∷ []) (1 ∷ 2 ∷ []) ≡ ok tt
unfolding verify_object_mirrored bytes_eq
mirror_same = refl

abbrev drill : RestoreDrill
drill = record {
  last_backup_at_ms = pos 0;
  failure_at_ms = pos 600_000;
  restore_completed_at_ms = pos 4_000_000;
}

abbrev double : ℕ → ℕ
double n = n + n

abbrev nine : List ℕ
nine = 1 ∷ 2 ∷ 3 ∷ 4 ∷ 5 ∷ 6 ∷ 7 ∷ 8 ∷ 9 ∷ []

-- A scheme with one key, in which the signature is the message.
abbrev scheme : Ecdsa
scheme = record {
  VerifyingKey = Unit;
  Signature = Bytes;
  from_sec1_bytes = λ b. some tt;
  from_slice = λ b. some b;
  verifies = λ k m s. bytes_eq m s;
  to_encoded_point = λ k. 2 ∷ [];
}

abbrev signing : Signing scheme
signing = record {
  SigningKey = Unit;
  from_bytes = λ b. some tt;
  verifying_key = λ k. tt;
  sign_with = λ k m. m;
  to_bytes = λ s. s;
}

abbrev signer : A0Signer length_hash scheme signing
signer = record { key = tt }

abbrev signed_envelope : SourceEnvelope
signed_envelope = record {
  mechanism = 65 ∷ 48 ∷ [];
  issuer_key_id = 66 ∷ [];
  trust_manifest_hash = replicate 32 1;
  account_binding_commitment = replicate 32 2;
  batch_commitment = replicate 32 3;
  raw_evidence_root = replicate 32 4;
  normalized_root = replicate 32 5;
  coverage_manifest_hash = replicate 32 6;
  period_start_ms = pos 0;
  period_end_ms = pos 1_000;
  observed_at_ms = pos 1_001;
  expires_at_ms = pos 2_000;
  policy_hash = replicate 32 7;
  environment = 67 ∷ [];
  source_session_binding = replicate 32 8;
}

sign-verify_origin_example :
    verify_origin length_hash scheme
      (as_input signed_envelope)
      (2 ∷ [])
      (sign length_hash scheme signing signer signed_envelope)
    ≡ ok (record {
      envelope_digest = envelope_digest length_hash signed_envelope;
      signer_fingerprint = fingerprint length_hash scheme signing signer;
    })
sign-verify_origin_example =
    sign-verify_origin length_hash scheme signing signer signed_envelope (λ k m. bytes_eq_refl m)
      (λ k. refl) (λ s. refl)
