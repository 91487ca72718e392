-- ===== src/Credentials/Restrictions/ReadOnly.antt =====
-- Lemmas and theorems on `validate_read_only` (services/collector/credentials/src/restrictions.rs).
use linvesther.Prelude.{
  not-eq-false, ◌≡◌, ◌↔◌, refl, List, [], ◌∷◌, true, false, not, ok, raise_if-eq-ok, is_empty,
}
use linvesther.Prelude.Bytes.{Bytes}
use linvesther.Credentials.Restrictions.{ApiRestrictions, validate_read_only}

module _ {Value : Type 0} where
  -- The key can read, and every capability to write, trade or transfer is known and off.
  pub record IsReadOnly (r : ApiRestrictions Value) : Type 0 where
    pub all_known : r.unknown_fields ≡ []
    pub reads : r.enable_reading ≡ true
    pub no_withdrawals : r.enable_withdrawals ≡ false
    pub no_internal_transfer : r.enable_internal_transfer ≡ false
    pub no_universal_transfer : r.enable_universal_transfer ≡ false
    pub no_spot_and_margin_trading : r.enable_spot_and_margin_trading ≡ false
    pub no_margin : r.enable_margin ≡ false
    pub no_futures : r.enable_futures ≡ false
    pub no_permits_universal_transfer : r.permits_universal_transfer ≡ false
    pub no_fix_api_trade : r.enable_fix_api_trade ≡ false
    pub no_portfolio_margin_trading : r.enable_portfolio_margin_trading ≡ false
    pub no_vanilla_options : r.enable_vanilla_options ≡ false

  not_empty-nil : (l : List (Bytes × Value)) → not (is_empty l) ≡ false → l ≡ []
  not_empty-nil [] h = refl
  not_empty-nil (e ∷ l) h = cc

  -- `validate_read_only` accepts a key exactly if it can read, every field of its restrictions is a
  -- known one, and none of the capabilities to withdraw, to transfer or to trade is enabled.
  pub validate_read_only_iff :
      (r : ApiRestrictions Value) → (validate_read_only r ≡ ok tt) ↔ IsReadOnly r
  unfolding validate_read_only
  validate_read_only_iff r = (forth, back)
    where
      forth : validate_read_only r ≡ ok tt → IsReadOnly r
      forth h =
          let (known, h1) = raise_if-eq-ok (not (is_empty r.unknown_fields)) _ _ h in
          let (reads, h2) = raise_if-eq-ok (not r.enable_reading) _ _ h1 in
          let (a, h3) = raise_if-eq-ok r.enable_withdrawals _ _ h2 in
          let (b, h4) = raise_if-eq-ok r.enable_internal_transfer _ _ h3 in
          let (c, h5) = raise_if-eq-ok r.enable_universal_transfer _ _ h4 in
          let (d, h6) = raise_if-eq-ok r.enable_spot_and_margin_trading _ _ h5 in
          let (e, h7) = raise_if-eq-ok r.enable_margin _ _ h6 in
          let (f, h8) = raise_if-eq-ok r.enable_futures _ _ h7 in
          let (g, h9) = raise_if-eq-ok r.permits_universal_transfer _ _ h8 in
          let (i, h10) = raise_if-eq-ok r.enable_fix_api_trade _ _ h9 in
          let (j, h11) = raise_if-eq-ok r.enable_portfolio_margin_trading _ _ h10 in
          let (k, h12) = raise_if-eq-ok r.enable_vanilla_options _ _ h11 in
          record {
            all_known = not_empty-nil r.unknown_fields known;
            reads = not-eq-false r.enable_reading reads;
            no_withdrawals = a;
            no_internal_transfer = b;
            no_universal_transfer = c;
            no_spot_and_margin_trading = d;
            no_margin = e;
            no_futures = f;
            no_permits_universal_transfer = g;
            no_fix_api_trade = i;
            no_portfolio_margin_trading = j;
            no_vanilla_options = k;
          }

      back : IsReadOnly r → validate_read_only r ≡ ok tt
      back s =
          rw
            (
              s.all_known, s.reads, s.no_withdrawals, s.no_internal_transfer,
              s.no_universal_transfer, s.no_spot_and_margin_trading, s.no_margin, s.no_futures,
              s.no_permits_universal_transfer, s.no_fix_api_trade, s.no_portfolio_margin_trading,
              s.no_vanilla_options,
            )
            refl
