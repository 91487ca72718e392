-- ===== src/Verifier/Receipt.antt =====
-- crates/verifier/src/receipt.rs: a receipt against an image ID and a journal. The decoder of
-- receipts (`bincode`), their verification and the decoder of journals (`risc0_zkvm`) are a
-- parameter; an error of theirs is its text.
use linvesther.Prelude.{ℕ, List, Result, ◌>>=◌, ◌>>◌, map_err, raise_if, not}
use linvesther.Prelude.Int.{ℤ}
use linvesther.Prelude.Bytes.{Bytes, bytes_eq}

pub record PerformanceJournal : Type 0 where
  pub envelope_digest : Bytes
  pub signer_fingerprint : Bytes
  pub period_start_ms : ℤ
  pub period_end_ms : ℤ
  pub twr_index_scaled : ℤ
  pub mdd_bp : ℤ
  pub capital : ℤ

pub record Risc0 : Type 1 where
  pub Receipt : Type 0
  pub deserialize : Bytes → Result Bytes Receipt
  pub verify : Receipt → List ℕ → Result Bytes (Unit {0})
  pub journal_bytes : Receipt → Bytes
  pub decode : Bytes → Result Bytes PerformanceJournal

pub data ReceiptError : Type 0 where
  decode_failed : Bytes → ReceiptError
  verification_failed : (image_id : List ℕ) (reason : Bytes) → ReceiptError
  journal_mismatch : ReceiptError
  journal_layout : Bytes → ReceiptError

module _ (zkvm : Risc0) where
  open zkvm use {deserialize, verify, journal_bytes, decode}

  unfoldable pub verify_receipt : Bytes → List ℕ → Bytes → Result ReceiptError (Unit {0})
  verify_receipt receipt_bytes image_id expected_journal_bytes = do
    receipt ← map_err decode_failed (deserialize receipt_bytes)
    map_err (verification_failed image_id) (verify receipt image_id)
    raise_if (not (bytes_eq (journal_bytes receipt) expected_journal_bytes)) journal_mismatch

  unfoldable pub decode_journal_bytes : Bytes → Result ReceiptError PerformanceJournal
  decode_journal_bytes bytes = map_err journal_layout (decode bytes)

  unfoldable pub decode_journal : Bytes → Result ReceiptError PerformanceJournal
  unfolding decode_journal_bytes
  decode_journal receipt_bytes = do
    receipt ← map_err decode_failed (deserialize receipt_bytes)
    decode_journal_bytes (journal_bytes receipt)
