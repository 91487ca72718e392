-- ===== src/Verifier/Verify.antt =====
-- crates/verifier/src/verify.rs: the five checks and the origin, put together into one report.
pub mod Checks
pub mod Sound
use linvesther.Prelude.{
  ℕ, List, [], ◌∷◌, Option, none, some, Result, ok, err, and_then, length, is_empty, if◌then◌else◌,
}
use linvesther.Prelude.Int.{ℤ}
use linvesther.Prelude.Bytes.{Bytes, codes}
use linvesther.Checkpoint.Calendar.{CalendarPolicy, Gap}
use linvesther.Commitments.Hash.{Sha256}
use linvesther.Commitments.Merkle.{MerkleError}
use linvesther.Verifier.Bundle.{Bundle, HashMismatch, verify_hashes}
use linvesther.Verifier.Root.{verify_account_set_root}
use linvesther.Verifier.Anchor.{TrustedAnchor, AnchorError, verify_anchor}
use linvesther.Verifier.Coverage.{CoverageMismatch, verify_coverage}
use linvesther.Verifier.Receipt.{
  Risc0, PerformanceJournal, ReceiptError, verify_receipt, decode_journal,
}
use linvesther.Verifier.Trust.{TrustList, OriginAssessment, origin_unavailable, assess_origin}
use linvesther.Verifier.Report.{
  CheckOutcome, pass, fail, unavailable, is_pass, Mode, VerificationReport,
}

pub record VerificationInput : Type 0 where
  pub bundle : Bundle
  pub account_set_root : Bytes
  pub member_ids : List Bytes
  pub receipt_bytes : Bytes
  pub expected_journal_bytes : Bytes
  pub image_id : List ℕ
  pub claimed_anchor : TrustedAnchor
  pub trusted_anchors : List TrustedAnchor
  pub coverage_policy : CalendarPolicy
  pub last_committed_end_ms : ℤ
  pub now_ms : ℤ
  pub claimed_gaps : List Gap
  pub mode : Mode
  pub trust_list : TrustList

-- The texts of the errors, which `thiserror` and `format!` produce.
pub record Texts : Type 0 where
  pub hashes_text : List HashMismatch → Bytes
  pub merkle_text : MerkleError → Bytes
  pub receipt_text : ReceiptError → Bytes
  pub anchor_text : AnchorError → Bytes
  pub coverage_text : (recomputed claimed : ℕ) → Bytes

unfoldable pub hashes_outcome : Texts → List HashMismatch → CheckOutcome
hashes_outcome texts [] = pass
hashes_outcome texts (m ∷ mismatches) = fail (texts.hashes_text (m ∷ mismatches))

-- `match … { Ok(()) => Pass, Err(error) => Fail(error.to_string()) }`
unfoldable pub outcome_of : {E : Type 0} → (E → Bytes) → Result E (Unit {0}) → CheckOutcome
outcome_of text (ok _) = pass
outcome_of text (err e) = fail (text e)

-- Where there is a journal, its signer is assessed.
unfoldable pub journal_origin :
    Texts → TrustList → Result ReceiptError PerformanceJournal → OriginAssessment
journal_origin texts trust_list (ok journal) =
    assess_origin journal.signer_fingerprint journal.period_end_ms trust_list
journal_origin texts trust_list (err e) = origin_unavailable (texts.receipt_text e)

abbrev pub coverage_error_text : Texts → CoverageMismatch → Bytes
coverage_error_text texts mismatch =
    texts.coverage_text (length mismatch.recomputed) (length mismatch.claimed)

module _ (sha : Sha256) (hex_encode : Bytes → Bytes) (zkvm : Risc0) (texts : Texts) where
  unfoldable pub check_root : VerificationInput → CheckOutcome
  unfolding outcome_of
  check_root input =
      if is_empty input.member_ids
      then unavailable
          (codes "bundle carries no account membership to check accountSetRoot against")
      else outcome_of texts.merkle_text
          (verify_account_set_root sha input.account_set_root input.member_ids)

  unfoldable pub check_calculation : VerificationInput → CheckOutcome
  unfolding outcome_of
  check_calculation input =
      if is_empty input.receipt_bytes
      then unavailable (codes "bundle carries no receipt to verify")
      else outcome_of texts.receipt_text
          (verify_receipt zkvm input.receipt_bytes input.image_id input.expected_journal_bytes)

  -- The signer is read from the journal of a receipt that verified, and only then.
  unfoldable pub check_origin : VerificationInput → CheckOutcome → OriginAssessment
  unfolding journal_origin
  check_origin input calculation =
      if is_pass calculation
      then journal_origin texts input.trust_list (decode_journal zkvm input.receipt_bytes)
      else origin_unavailable (codes "no verified receipt to read the signing collector from")

  unfoldable pub check_registry : VerificationInput → CheckOutcome
  unfolding outcome_of
  check_registry input =
      if is_empty input.claimed_anchor.tx_hash
      then unavailable (codes "bundle carries no anchor to check against trusted anchors")
      else outcome_of texts.anchor_text (verify_anchor input.claimed_anchor input.trusted_anchors)

  -- On the fuel of `derive_gaps`.
  unfoldable pub verify : ℕ → VerificationInput → Option VerificationReport
  unfolding check_root check_calculation check_origin check_registry
  verify fuel input =
      let hashes = hashes_outcome texts (verify_hashes sha hex_encode input.bundle) in
      let account_set_root = check_root input in
      let calculation = check_calculation input in
      let origin = check_origin input calculation in
      let registry = check_registry input in
      and_then
        (verify_coverage fuel input.coverage_policy input.last_committed_end_ms input.now_ms
          input.claimed_gaps)
        (λ covered. some (record {
          mode = input.mode;
          hashes = hashes;
          account_set_root = account_set_root;
          calculation = calculation;
          registry = registry;
          coverage = outcome_of (coverage_error_text texts) covered;
          origin = origin;
        }))
