-- ===== src/Performance/Run.antt =====
-- zkvm/methods/performance/guest/src/lib.rs and main.rs: the whole guest, from its input to the
-- journal that it commits.
pub mod Sound
pub mod Backed
use linvesther.Prelude.{List, Option, ◌>>◌, to_option, Result, ok, err, ◌>>=◌, ok_or, map_err}
use linvesther.Prelude.Int.{ℤ}
use linvesther.Prelude.Bytes.{Bytes}
use linvesther.Commitments.Hash.{Sha256}
use linvesther.Performance.Envelope.{SourceEnvelope}
use linvesther.Performance.Origin.{Ecdsa, OriginError, VerifiedOrigin, verify_origin}
use linvesther.Performance.Compute.{
  ComputeError, empty_nav, last, reconcile, twr_index, max_drawdown_bp,
}

pub record GuestInput : Type 0 where
  pub envelope : SourceEnvelope
  pub verifying_key_sec1 : Bytes
  pub signature_compact : Bytes
  pub nav : List ℤ
  pub ledger_deltas : List ℤ

pub record GuestOutput : Type 0 where
  pub envelope_digest : Bytes
  pub signer_fingerprint : Bytes
  pub period_start_ms : ℤ
  pub period_end_ms : ℤ
  pub twr_index_scaled : ℤ
  pub mdd_bp : ℤ
  pub capital : ℤ

pub data GuestError : Type 0 where
  origin : OriginError → GuestError
  compute : ComputeError → GuestError

module _ (sha : Sha256) (ecdsa : Ecdsa) where
  unfoldable pub run : GuestInput → Result GuestError GuestOutput
  run input = do
    checked ←
        map_err origin
          (verify_origin sha ecdsa input.envelope input.verifying_key_sec1 input.signature_compact)
    map_err compute (reconcile input.nav input.ledger_deltas)
    twr_index_scaled ← map_err compute (twr_index input.nav)
    mdd_bp ← map_err compute (max_drawdown_bp input.nav)
    capital ← map_err compute (ok_or (last input.nav) empty_nav)
    ok (record {
      envelope_digest = checked.envelope_digest;
      signer_fingerprint = checked.signer_fingerprint;
      period_start_ms = input.envelope.period_start_ms;
      period_end_ms = input.envelope.period_end_ms;
      twr_index_scaled = twr_index_scaled;
      mdd_bp = mdd_bp;
      capital = capital;
    })

  -- `main` commits the output, or panics, so that there is no proof.
  unfoldable pub journal : GuestInput → Option GuestOutput
  journal input = to_option (run input)
