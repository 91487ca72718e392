-- ===== src/Examples/Performance.antt =====
-- A run of the performance guest over three net asset values.
use linvesther.Prelude.{
  ℕ, ◌≡◌, ◌⊎◌, ◌*◌, ◌≤◌, refl, [], ◌∷◌, List, some, ok, true, arith, map, replicate,
}
use linvesther.Prelude.Int.{ℤ, pos, negsuc, ◌+ℤ◌, ◌-ℤ◌, ◌*ℤ◌}
use linvesther.Prelude.Machine.{◌+i64◌, ◌-i64◌, ◌-i128◌, ◌*i128◌, ◌/ℤ◌, wrap}
use linvesther.Prelude.Bytes.{Bytes}
use linvesther.Commitments.Hash.{Collision, length_hash}
use linvesther.Performance.Compute.{
  first, last, sum_from, index_loop, drawdown_loop, reconcile, twr_index, max_drawdown_bp,
}
use linvesther.Performance.Compute.Index.{chained, final, scale_ℕ, twr_index_exact}
use linvesther.Performance.Compute.Drawdown.{IsMaximum, max_drawdown_bp_exact}
use linvesther.Performance.Compute.Reconcile.{reconcile_iff, total}
use linvesther.Performance.Envelope.{SourceEnvelope, digest}
use linvesther.Performance.Envelope.Injective.{IsTyped, canonical_bytes-injective}
use linvesther.Performance.Origin.{Ecdsa, collector_fingerprint, verify_origin}
use linvesther.Performance.Run.{GuestInput, GuestOutput, run, journal}
use linvesther.Performance.Run.Sound.{journal_binds_envelope}
use linvesther.Performance.Run.Backed.{IsBacked, journal-IsBacked}

abbrev nav : List ℕ
nav = 110 ∷ 88 ∷ []

twr_index_exact_example :
    (twr_index (map pos (100 ∷ nav)) ≡ ok (pos (chained scale_ℕ (100 ∷ nav))))
    × (chained scale_ℕ (100 ∷ nav) * 100 ≤ scale_ℕ * final 100 nav)
twr_index_exact_example =
    twr_index_exact 100 nav
      ((omega arith, omega arith), ((omega arith, omega arith), ((omega arith, omega arith), tt)))

max_drawdown_bp_exact_example :
    (r : ℕ) × (max_drawdown_bp (map pos (100 ∷ nav)) ≡ ok (pos r)) × IsMaximum (100 ∷ nav) r
max_drawdown_bp_exact_example =
    max_drawdown_bp_exact 100 nav
      ((omega arith, omega arith), ((omega arith, omega arith), ((omega arith, omega arith), tt)))

abbrev deltas : List ℤ
deltas = pos 10 ∷ negsuc 21 ∷ []

reconcile_iff_example :
    ((reconcile (map pos (100 ∷ nav)) deltas ≡ ok tt) → (pos 100 +ℤ total deltas ≡ pos 88))
    × ((pos 100 +ℤ total deltas ≡ pos 88) → (reconcile (map pos (100 ∷ nav)) deltas ≡ ok tt))
unfolding first last ◌+ℤ◌ ◌-ℤ◌
reconcile_iff_example =
    reconcile_iff (map pos (100 ∷ nav)) deltas (pos 100) (pos 88) refl refl
      (omega arith, omega arith) ((omega arith, omega arith), ((omega arith, omega arith), tt))

abbrev envelope : SourceEnvelope
envelope = record {
  mechanism = 65 ∷ [];
  issuer_key_id = 66 ∷ [];
  trust_manifest_hash = replicate 32 1;
  account_binding_commitment = replicate 32 2;
  batch_commitment = replicate 32 3;
  raw_evidence_root = replicate 32 4;
  normalized_root = replicate 32 5;
  coverage_manifest_hash = replicate 32 6;
  period_start_ms = pos 0;
  period_end_ms = pos 1_000;
  observed_at_ms = pos 1_001;
  expires_at_ms = pos 2_000;
  policy_hash = replicate 32 7;
  environment = 67 ∷ [];
  source_session_binding = replicate 32 8;
}

envelope-IsTyped : IsTyped envelope
envelope-IsTyped = record {
  strings = (omega arith, omega arith, omega arith);
  digests = (
    omega arith,
    omega arith,
    omega arith,
    omega arith,
    omega arith,
    omega arith,
    omega arith,
    omega arith,
  );
  times = (
    (omega arith, omega arith),
    (omega arith, omega arith),
    (omega arith, omega arith),
    (omega arith, omega arith),
  );
}

canonical_bytes-injective_example : envelope ≡ envelope
canonical_bytes-injective_example =
    canonical_bytes-injective envelope envelope envelope-IsTyped envelope-IsTyped refl

-- A signature scheme in which every signature verifies.
abbrev scheme : Ecdsa
scheme = record {
  VerifyingKey = Bytes;
  Signature = Bytes;
  from_sec1_bytes = λ b. some b;
  from_slice = λ b. some b;
  verifies = λ key message signature. true;
  to_encoded_point = λ key. key;
}

abbrev input : GuestInput
input = record {
  envelope = envelope;
  verifying_key_sec1 = 2 ∷ [];
  signature_compact = 3 ∷ [];
  nav = map pos (100 ∷ nav);
  ledger_deltas = deltas;
}

abbrev output : GuestOutput
output = record {
  envelope_digest = digest length_hash envelope;
  signer_fingerprint = replicate 32 21;
  period_start_ms = pos 0;
  period_end_ms = pos 1_000;
  twr_index_scaled = pos 880_000;
  mdd_bp = pos 2_000;
  capital = pos 88;
}

journal-output : journal length_hash scheme input ≡ some output
unfolding journal run verify_origin collector_fingerprint reconcile first last sum_from twr_index
    index_loop max_drawdown_bp drawdown_loop ◌-i64◌ ◌+i64◌ ◌-i128◌ ◌*i128◌ ◌/ℤ◌ wrap ◌+ℤ◌ ◌-ℤ◌ ◌*ℤ◌
journal-output = refl

journal-IsBacked_example : IsBacked length_hash scheme input output
unfolding ◌+ℤ◌
journal-IsBacked_example =
    journal-IsBacked length_hash scheme input output
      (ground arith, (ground arith, (ground arith, tt))) (ground arith, (ground arith, tt))
      journal-output

journal_binds_envelope_example : (envelope ≡ envelope) ⊎ Collision length_hash
journal_binds_envelope_example =
    journal_binds_envelope length_hash scheme input input output output envelope-IsTyped
      envelope-IsTyped journal-output journal-output refl
