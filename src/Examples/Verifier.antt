-- ===== src/Examples/Verifier.antt =====
-- A bundle that passes every check of the verifier.
use linvesther.Prelude.{
  ◌≡◌, refl, [], ◌∷◌, List, none, some, true, false, Result, ok, arith, replicate,
}
use linvesther.Prelude.Int.{pos, ◌+ℤ◌}
use linvesther.Prelude.Machine.{◌+i64◌, wrap}
use linvesther.Prelude.Bytes.{Bytes, bytes_eq, to_be_bytes}
use linvesther.Checkpoint.Calendar.{Gap, derive_gaps}
use linvesther.Checkpoint.Calendar.Gaps.{Fits, interval, policy}
use linvesther.Commitments.Hash.{length_hash}
use linvesther.Commitments.Framing.{frame_hash}
use linvesther.Commitments.Merkle.{build}
use linvesther.Verifier.Bundle.{Bundle, verify_hashes, sha256_hex, get}
use linvesther.Verifier.Root.{verify_account_set_root}
use linvesther.Verifier.Anchor.{TrustedAnchor, verify_anchor}
use linvesther.Verifier.Coverage.{verify_coverage}
use linvesther.Verifier.Receipt.{Risc0, PerformanceJournal, verify_receipt, decode_journal}
use linvesther.Verifier.Trust.{
  TrustedCollector, TrustList, WireList, trusted_collector, from_json, lookup, assess_origin,
}
use linvesther.Verifier.Report.{VerificationReport, pass, offline, is_pass, all_pass}
use linvesther.Verifier.Verify.{VerificationInput, Texts, outcome_of, hashes_outcome, verify}
use linvesther.Verifier.Verify.Sound.{IsVerified, verify-IsVerified}

abbrev same : Bytes → Bytes
same b = b

abbrev bundle : Bundle
bundle = record {
  manifest = record {
    version = 49 ∷ [];
    files = ((97 ∷ [], record { hash = replicate 32 3; size_bytes = 3 }) ∷ []);
  };
  files = ((97 ∷ [], 1 ∷ 2 ∷ 3 ∷ []) ∷ []);
}

verify_bundle : verify_hashes length_hash same bundle ≡ []
unfolding verify_hashes get sha256_hex bytes_eq
verify_bundle = refl

abbrev members : List Bytes
members = (97 ∷ []) ∷ []

root_of_members : verify_account_set_root length_hash (replicate 32 71) members ≡ ok tt
unfolding verify_account_set_root build frame_hash to_be_bytes bytes_eq
root_of_members = refl

abbrev collector : TrustedCollector
collector = record {
  name = 67 ∷ [];
  fingerprint = replicate 32 9;
  valid_from_ms = some (pos 0);
  valid_until_ms = none;
  revoked = false;
}

abbrev trusted : TrustList
trusted = record { collectors = collector ∷ [] }

-- A parser that reads every text as the list with the one collector.
abbrev parse : Bytes → Result Bytes WireList
parse text = ok (record {
  wire_version = 1;
  wire_collectors =
      (record {
        wire_name = 67 ∷ [];
        wire_fingerprint = replicate 32 9;
        wire_valid_from_ms = some (pos 0);
        wire_valid_until_ms = none;
        wire_revoked = false;
      }
        ∷ []);
})

parse-trusted : from_json (λ b. some b) parse (123 ∷ 125 ∷ []) ≡ ok trusted
unfolding from_json
parse-trusted = refl

abbrev journal : PerformanceJournal
journal = record {
  envelope_digest = replicate 32 1;
  signer_fingerprint = replicate 32 9;
  period_start_ms = pos 0;
  period_end_ms = pos 10;
  twr_index_scaled = pos 1_000_000;
  mdd_bp = pos 0;
  capital = pos 100;
}

-- Receipts that are their journals, and verify.
abbrev zkvm : Risc0
zkvm = record {
  Receipt = Bytes;
  deserialize = λ b. ok b;
  verify = λ r i. ok tt;
  journal_bytes = λ r. r;
  decode = λ b. ok journal;
}

abbrev texts : Texts
texts = record {
  hashes_text = λ _. [];
  merkle_text = λ _. [];
  receipt_text = λ _. [];
  anchor_text = λ _. [];
  coverage_text = λ _ _. [];
}

abbrev anchor : TrustedAnchor
anchor = record { tx_hash = 48 ∷ []; block_number = 5 }

abbrev missed : List Gap
missed = interval 5 (pos 0) 0 ∷ interval 5 (pos 0) 1 ∷ []

abbrev input : VerificationInput
input = record {
  bundle = bundle;
  account_set_root = replicate 32 71;
  member_ids = members;
  receipt_bytes = 7 ∷ [];
  expected_journal_bytes = 7 ∷ [];
  image_id = replicate 8 0;
  claimed_anchor = anchor;
  trusted_anchors = anchor ∷ [];
  coverage_policy = policy 5 1;
  last_committed_end_ms = pos 0;
  now_ms = pos 12;
  claimed_gaps = missed;
  mode = offline (pos 12);
  trust_list = trusted;
}

abbrev report : VerificationReport
report = record {
  mode = offline (pos 12);
  hashes = pass;
  account_set_root = pass;
  calculation = pass;
  registry = pass;
  coverage = pass;
  origin = trusted_collector (67 ∷ []) (replicate 32 9);
}

verify_input : verify length_hash same zkvm texts 14 input ≡ some report
unfolding verify verify_hashes get sha256_hex bytes_eq hashes_outcome outcome_of
    verify_account_set_root build frame_hash to_be_bytes verify_anchor verify_coverage derive_gaps
    ◌+i64◌ wrap ◌+ℤ◌ verify_receipt decode_journal is_pass assess_origin lookup
verify_input = refl

report_passes : all_pass report ≡ true
unfolding all_pass
report_passes = refl

verify-IsVerified_example : IsVerified length_hash same zkvm texts 14 input
verify-IsVerified_example =
    verify-IsVerified length_hash same zkvm texts 14 input report verify_input report_passes

input-Fits : Fits 5 1 (pos 0) (pos 12)
unfolding ◌+ℤ◌
input-Fits = record {
  start_fits = (omega arith, omega arith);
  start_end = omega arith;
  now_end = omega arith;
}
