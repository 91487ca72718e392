-- ===== src/Credentials/Restrictions.antt =====
-- services/collector/credentials/src/restrictions.rs: a key may read and do nothing else.
pub mod ReadOnly
use linvesther.Prelude.{
  ℕ, List, [], ◌∷◌, Option, Bool, true, false, not, Result, ok, err, ◌>>=◌, raise_if, is_empty,
}
use linvesther.Prelude.Bytes.{Bytes, codes}
use linvesther.Prelude.Maps.{bytes_lt, bytes_keys, keys_of}
use linvesther.Prelude.Sort.{sort_by}

-- `Value` is the crate's JSON value.
pub record ApiRestrictions (Value : Type 0) : Type 0 where
  pub ip_restrict : Bool
  pub enable_reading : Bool
  pub enable_withdrawals : Bool
  pub enable_internal_transfer : Bool
  pub enable_universal_transfer : Bool
  pub enable_spot_and_margin_trading : Bool
  pub enable_margin : Bool
  pub enable_futures : Bool
  pub permits_universal_transfer : Bool
  pub enable_fix_api_trade : Bool
  pub enable_fix_read_only : Bool
  pub enable_portfolio_margin_trading : Bool
  pub enable_vanilla_options : Bool
  pub create_time : Option ℕ
  pub unknown_fields : List (Bytes × Value)

pub data RestrictionsError : Type 0 where
  reading_disabled : RestrictionsError
  write_capability_enabled : (name : Bytes) → RestrictionsError
  unknown_fields_error : (names : List Bytes) → RestrictionsError

module _ {Value : Type 0} where
  -- The names of the fields, sorted.
  unfoldable pub unknown_names : ApiRestrictions Value → List Bytes
  unknown_names r = sort_by (λ a b. not (bytes_lt b a)) (keys_of r.unknown_fields)

  unfoldable pub validate_read_only : ApiRestrictions Value → Result RestrictionsError (Unit {0})
  validate_read_only r = do
    _ ← raise_if (not (is_empty r.unknown_fields)) (unknown_fields_error (unknown_names r))
    _ ← raise_if (not r.enable_reading) reading_disabled
    _ ← raise_if r.enable_withdrawals (write_capability_enabled (codes "enableWithdrawals"))
    _ ←
        raise_if r.enable_internal_transfer
          (write_capability_enabled (codes "enableInternalTransfer"))
    _ ←
        raise_if r.enable_universal_transfer
          (write_capability_enabled (codes "enableUniversalTransfer"))
    _ ←
        raise_if r.enable_spot_and_margin_trading
          (write_capability_enabled (codes "enableSpotAndMarginTrading"))
    _ ← raise_if r.enable_margin (write_capability_enabled (codes "enableMargin"))
    _ ← raise_if r.enable_futures (write_capability_enabled (codes "enableFutures"))
    _ ←
        raise_if r.permits_universal_transfer
          (write_capability_enabled (codes "permitsUniversalTransfer"))
    _ ← raise_if r.enable_fix_api_trade (write_capability_enabled (codes "enableFixApiTrade"))
    _ ←
        raise_if r.enable_portfolio_margin_trading
          (write_capability_enabled (codes "enablePortfolioMarginTrading"))
    _ ← raise_if r.enable_vanilla_options (write_capability_enabled (codes "enableVanillaOptions"))
    ok tt
