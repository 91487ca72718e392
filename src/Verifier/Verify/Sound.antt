-- ===== src/Verifier/Verify/Sound.antt =====
-- The report of `verify` (crates/verifier/src/verify.rs): lemmas and theorems on its checks and its
-- origin.
use linvesther.Prelude.{
  ℕ, suc, ◌≡◌, inl, inr, refl, ap, ◌∙◌, List, some, true, false, Result, ok, >>=-eq-ok, >>-eq-ok,
  and_then-eq-some, map_err, map_err-eq-ok, is_empty, Bool-cases, All, ◌<◌,
}
use linvesther.Prelude.Int.{ℤ, pos, ◌+ℤ◌, ◌<ℤ◌}
use linvesther.Prelude.Bytes.{Bytes, bytes_eq, bytes_eq→eq}
use linvesther.Checkpoint.Calendar.{CalendarPolicy, Gap, derive_gaps}
use linvesther.Checkpoint.Calendar.Gaps.{Fits, policy, derive_gaps_exact}
use linvesther.Commitments.Hash.{Sha256}
use linvesther.Verifier.Bundle.{verify_hashes}
use linvesther.Verifier.Bundle.Binding.{IsIntact, verify_hashes-nil}
use linvesther.Verifier.Root.{verify_account_set_root}
use linvesther.Verifier.Coverage.{CoverageMismatch, gaps_eq, verify_coverage}
use linvesther.Verifier.Receipt.{
  Risc0, decode_failed, verification_failed, journal_mismatch, verify_receipt,
}
use linvesther.Verifier.Report.{VerificationReport, all_pass}
use linvesther.Verifier.Verify.{
  VerificationInput, Texts, hashes_outcome, outcome_of, coverage_error_text, check_root,
  check_calculation, check_registry, verify,
}
use linvesther.Verifier.Verify.Checks.{
  gaps_eq→eq, IsAmong, all_pass-each, guarded-pass, hashes_outcome-pass, matched, outcome_of-pass,
  verify_anchor-IsAmong,
}

module _ (sha : Sha256) (hex_encode : Bytes → Bytes) (zkvm : Risc0) (texts : Texts) where
  -- The receipt decodes, verifies against the image, and its journal is the expected one.
  pub record IsProved (receipt_bytes : Bytes) (image_id : List ℕ) (expected : Bytes) : Type 0 where
    pub receipt : zkvm.Receipt
    pub decodes : zkvm.deserialize receipt_bytes ≡ ok receipt
    pub verifies : zkvm.verify receipt image_id ≡ ok tt
    pub journal_is : zkvm.journal_bytes receipt ≡ expected

  verify_receipt-IsProved :
      (b : Bytes) (image_id : List ℕ) (expected : Bytes)
      → verify_receipt zkvm b image_id expected ≡ ok tt
      → IsProved b image_id expected
  unfolding verify_receipt
  verify_receipt-IsProved b image_id expected h =
      let (receipt, decoded, f₁) = >>=-eq-ok (map_err decode_failed (zkvm.deserialize b)) _ h in
      let (verified, f₂) =
        >>-eq-ok (map_err (verification_failed image_id) (zkvm.verify receipt image_id)) _ f₁ in
      record {
        receipt = receipt;
        decodes = map_err-eq-ok decode_failed (zkvm.deserialize b) decoded;
        verifies =
            map_err-eq-ok (verification_failed image_id) (zkvm.verify receipt image_id) verified;
        journal_is =
            bytes_eq→eq (zkvm.journal_bytes receipt) expected
              (matched (bytes_eq (zkvm.journal_bytes receipt) expected) journal_mismatch f₂);
      }

  -- Each of the five dimensions, in terms of the input alone.
  pub record IsVerified (fuel : ℕ) (input : VerificationInput) : Type 0 where
    pub files : All (IsIntact sha hex_encode input.bundle.files) input.bundle.manifest.files
    pub has_members : is_empty input.member_ids ≡ false
    pub members : verify_account_set_root sha input.account_set_root input.member_ids ≡ ok tt
    pub proved : IsProved input.receipt_bytes input.image_id input.expected_journal_bytes
    pub anchored : IsAmong input.claimed_anchor input.trusted_anchors
    pub covered :
        derive_gaps fuel input.coverage_policy input.last_committed_end_ms input.now_ms
        ≡ some input.claimed_gaps

  verify_coverage-ok :
      (fuel : ℕ) (p : CalendarPolicy) (last now : ℤ) (claimed : List Gap)
      {covered : Result CoverageMismatch (Unit {0})}
      → verify_coverage fuel p last now claimed ≡ some covered
      → covered ≡ ok tt
      → derive_gaps fuel p last now ≡ some claimed
  unfolding verify_coverage
  verify_coverage-ok fuel p last now claimed h e =
      let (gaps, derived, rest) = and_then-eq-some (derive_gaps fuel p last now) _ h in
      elim (Bool-cases (gaps_eq gaps claimed)) [
        | inl same ↦ derived ∙ ap some (gaps_eq→eq gaps claimed same)
        | inr other ↦ let f = rw other at rest in cc
      ]

  -- If `verify` returns a report in which all five checks passed, then every file of the manifest is
  -- there with its hash; the account set is not empty and its tree has the claimed root; the receipt
  -- decodes, verifies against the image ID and has exactly the expected journal; the claimed anchor
  -- is one of the trusted ones; and the claimed gaps are those that the calendar gives.
  pub verify-IsVerified :
      (fuel : ℕ) (input : VerificationInput) (report : VerificationReport)
      → verify sha hex_encode zkvm texts fuel input ≡ some report
      → all_pass report ≡ true
      → IsVerified fuel input
  unfolding verify check_root check_calculation check_registry
  verify-IsVerified fuel input report h passes =
      let (covered, ran, made) =
        and_then-eq-some
          (verify_coverage fuel input.coverage_policy input.last_committed_end_ms input.now_ms
            input.claimed_gaps)
          _ h in
      let (p₁, p₂, p₃, p₄, p₅) = all_pass-each report passes in
      let hashes_of : report.hashes
          ≡ hashes_outcome texts (verify_hashes sha hex_encode input.bundle) =
        cc in
      let root_of : report.account_set_root ≡ check_root sha hex_encode zkvm texts input = cc in
      let calculation_of : report.calculation ≡ check_calculation sha hex_encode zkvm texts input =
        cc in
      let registry_of : report.registry ≡ check_registry sha hex_encode zkvm texts input = cc in
      let coverage_of : report.coverage ≡ outcome_of (coverage_error_text texts) covered = cc in
      let (members, root_ok) = guarded-pass (is_empty input.member_ids) _ _ (rw root_of at p₂) in
      let (some_receipt, receipt_ok) =
        guarded-pass (is_empty input.receipt_bytes) _ _ (rw calculation_of at p₃) in
      let (some_anchor, anchor_ok) =
        guarded-pass (is_empty input.claimed_anchor.tx_hash) _ _ (rw registry_of at p₄) in
      record {
        files = verify_hashes-nil sha hex_encode input.bundle (
            hashes_outcome-pass texts (verify_hashes sha hex_encode input.bundle)
              (rw hashes_of at p₁));
        has_members = members;
        members = outcome_of-pass texts.merkle_text _ root_ok;
        proved =
            verify_receipt-IsProved input.receipt_bytes input.image_id input.expected_journal_bytes
              (outcome_of-pass texts.receipt_text _ receipt_ok);
        anchored =
            verify_anchor-IsAmong input.claimed_anchor input.trusted_anchors
              (outcome_of-pass texts.anchor_text _ anchor_ok);
        covered =
            verify_coverage-ok fuel input.coverage_policy input.last_committed_end_ms input.now_ms
              input.claimed_gaps ran
              (outcome_of-pass (coverage_error_text texts) covered (rw coverage_of at p₅));
      }

  -- With a positive interval, a grace period of zero or more and times far enough from the bounds of
  -- `i64`, `verify` returns a report, whatever else the input holds, once the fuel exceeds the
  -- milliseconds that have passed.
  verify_total :
      (i g fuel : ℕ) (input : VerificationInput)
      → 0 < i
      → input.coverage_policy ≡ policy i g
      → Fits i g input.last_committed_end_ms input.now_ms
      → input.now_ms <ℤ input.last_committed_end_ms +ℤ pos fuel
      → (report : VerificationReport) × (verify sha hex_encode zkvm texts (suc fuel) input
          ≡ some report)
  unfolding verify verify_coverage
  verify_total i g fuel input pi same fits time =
      let (gaps, derived, prescribed) =
        derive_gaps_exact i g input.last_committed_end_ms input.now_ms fuel pi fits time in
      rw (same, derived) (_, refl)
