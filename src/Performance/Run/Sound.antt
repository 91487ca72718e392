-- ===== src/Performance/Run/Sound.antt =====
-- The journal of the performance guest (zkvm/methods/performance/guest/src/lib.rs) and its input.
use linvesther.Prelude.{
  ◌≡◌, ◌⊎◌, ◌∙◌, refl, sym, some, ok, >>=-eq-ok, ok_or, ok_or-eq-ok, raise_if-eq-ok, map_err,
  map_err-eq-ok, >>-eq-ok, subst, to_option-eq-some, ok-injective, not, All, true, false, Bool,
}
use linvesther.Prelude.Int.{pos, ◌<ℤ◌}
use linvesther.Prelude.Bytes.{Bytes}
use linvesther.Commitments.Hash.{Sha256, Collision}
use linvesther.Performance.Envelope.{SourceEnvelope, digest}
use linvesther.Performance.Envelope.Injective.{IsTyped, digest_binding}
use linvesther.Performance.Origin.{
  Ecdsa, VerifiedOrigin, collector_fingerprint, verify_origin, invalid_verifying_key,
  invalid_signature_encoding, signature_does_not_verify,
}
use linvesther.Performance.Compute.{empty_nav, last, reconcile, twr_index, max_drawdown_bp}
use linvesther.Performance.Compute.Reconcile.{max_drawdown_bp-positive}
use linvesther.Performance.Run.{GuestInput, GuestOutput, origin, compute, run, journal}

not-true : (b : Bool) → not b ≡ false → b ≡ true
not-true true h = refl
not-true false h = cc

module _ (sha : Sha256) (ecdsa : Ecdsa) where
  open ecdsa use {VerifyingKey, Signature, from_sec1_bytes, from_slice, verifies}

  -- The envelope was signed by the key with the reported fingerprint.
  pub record IsSigned (e : SourceEnvelope) (key_bytes signature_bytes : Bytes) (o : VerifiedOrigin)
      : Type 0 where
    pub key : VerifyingKey
    pub signature : Signature
    pub key_decodes : from_sec1_bytes key_bytes ≡ some key
    pub signature_decodes : from_slice signature_bytes ≡ some signature
    pub signed : verifies key (digest sha e) signature ≡ true
    pub digest_of : o.envelope_digest ≡ digest sha e
    pub fingerprint_of : o.signer_fingerprint ≡ collector_fingerprint sha ecdsa key

  pub verify_origin-IsSigned :
      (e : SourceEnvelope) (k s : Bytes) (o : VerifiedOrigin)
      → verify_origin sha ecdsa e k s ≡ ok o
      → IsSigned e k s o
  unfolding verify_origin
  verify_origin-IsSigned e k s o h =
      let (key, decoded, f₁) = >>=-eq-ok (ok_or (from_sec1_bytes k) invalid_verifying_key) _ h in
      let (signature, parsed, f₂) =
        >>=-eq-ok (ok_or (from_slice s) invalid_signature_encoding) _ f₁ in
      let (fails, f₃) =
        raise_if-eq-ok (not (verifies key (digest sha e) signature)) signature_does_not_verify _
          f₂ in
      record {
        key = key;
        signature = signature;
        key_decodes = ok_or-eq-ok (from_sec1_bytes k) invalid_verifying_key decoded;
        signature_decodes = ok_or-eq-ok (from_slice s) invalid_signature_encoding parsed;
        signed = not-true (verifies key (digest sha e) signature) fails;
        digest_of = cc;
        fingerprint_of = cc;
      }

  -- The checks behind a journal.
  pub record IsChecked (input : GuestInput) (output : GuestOutput) : Type 0 where
    pub signed : IsSigned input.envelope input.verifying_key_sec1 input.signature_compact (record {
      envelope_digest = output.envelope_digest;
      signer_fingerprint = output.signer_fingerprint;
    })
    pub reconciled : reconcile input.nav input.ledger_deltas ≡ ok tt
    pub positive : All (λ v. pos 0 <ℤ v) input.nav
    pub index : twr_index input.nav ≡ ok output.twr_index_scaled
    pub drawdown : max_drawdown_bp input.nav ≡ ok output.mdd_bp
    pub capital : last input.nav ≡ some output.capital
    pub starts : output.period_start_ms ≡ input.envelope.period_start_ms
    pub ends : output.period_end_ms ≡ input.envelope.period_end_ms

  run-IsChecked :
      (input : GuestInput) (output : GuestOutput)
      → run sha ecdsa input ≡ ok output
      → IsChecked input output
  unfolding run
  run-IsChecked input output h =
      let call =
        verify_origin sha ecdsa input.envelope input.verifying_key_sec1 input.signature_compact in
      let (o, checked, f₁) = >>=-eq-ok (map_err origin call) _ h in
      let (balanced, f₂) =
        >>-eq-ok (map_err compute (reconcile input.nav input.ledger_deltas)) _ f₁ in
      let (index, indexed, f₃) = >>=-eq-ok (map_err compute (twr_index input.nav)) _ f₂ in
      let (mdd, measured, f₄) = >>=-eq-ok (map_err compute (max_drawdown_bp input.nav)) _ f₃ in
      let (capital, ends, f₅) =
        >>=-eq-ok (map_err compute (ok_or (last input.nav) empty_nav)) _ f₄ in
      let drawdown = map_err-eq-ok compute (max_drawdown_bp input.nav) measured in
      let built : IsChecked input (record {
        envelope_digest = o.envelope_digest;
        signer_fingerprint = o.signer_fingerprint;
        period_start_ms = input.envelope.period_start_ms;
        period_end_ms = input.envelope.period_end_ms;
        twr_index_scaled = index;
        mdd_bp = mdd;
        capital = capital;
      }) =
        record {
          signed =
              verify_origin-IsSigned input.envelope input.verifying_key_sec1 input.signature_compact
                o (map_err-eq-ok origin call checked);
          reconciled = map_err-eq-ok compute (reconcile input.nav input.ledger_deltas) balanced;
          positive = max_drawdown_bp-positive input.nav drawdown;
          index = map_err-eq-ok compute (twr_index input.nav) indexed;
          drawdown = drawdown;
          capital =
              ok_or-eq-ok (last input.nav) empty_nav
                (map_err-eq-ok compute (ok_or (last input.nav) empty_nav) ends);
          starts = refl;
          ends = refl;
        } in
      subst (IsChecked input) (ok-injective f₅) built

  pub journal-IsChecked :
      (input : GuestInput) (output : GuestOutput)
      → journal sha ecdsa input ≡ some output
      → IsChecked input output
  unfolding journal
  journal-IsChecked input output h =
      run-IsChecked input output (to_option-eq-some (run sha ecdsa input) h)

  -- Two runs that commit the same envelope digest were given the same envelope, field for field,
  -- or two byte strings with one SHA-256 digest have been found: a proof cannot be passed off as
  -- one over another envelope.
  pub journal_binds_envelope :
      (i j : GuestInput) (o p : GuestOutput)
      → IsTyped i.envelope
      → IsTyped j.envelope
      → journal sha ecdsa i ≡ some o
      → journal sha ecdsa j ≡ some p
      → o.envelope_digest ≡ p.envelope_digest
      → (i.envelope ≡ j.envelope) ⊎ Collision sha
  journal_binds_envelope i j o p ti tj ri rj same =
      let bi = journal-IsChecked i o ri in
      let bj = journal-IsChecked j p rj in
      digest_binding sha i.envelope j.envelope ti tj
        (sym bi.signed.digest_of ∙ same ∙ bj.signed.digest_of)
