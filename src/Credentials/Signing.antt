-- ===== src/Credentials/Signing.antt =====
-- services/collector/credentials/src/signing.rs: signed requests to an allow-list of paths.
pub mod Allowed
use linvesther.Prelude.{
  ℕ, List, [], ◌∷◌, ◌++◌, Bool, true, false, ◌||◌, not, Result, ok, err, ◌>>=◌, raise_if, length,
  is_empty, if◌then◌else◌,
}
use linvesther.Prelude.Bytes.{Bytes, bytes_eq, codes}
use linvesther.Credentials.{Environment, production, test}

abbrev pub production_host : Bytes
production_host = codes "https://api.binance.com"

abbrev pub test_host : Bytes
test_host = codes "https://testnet.binance.vision"

abbrev pub allowed_paths : List Bytes
allowed_paths =
    codes "/api/v3/account"
    ∷ codes "/sapi/v1/account/apiRestrictions"
    ∷ codes "/api/v3/myTrades"
    ∷ codes "/api/v3/exchangeInfo"
    ∷ codes "/sapi/v1/capital/deposit/hisrec"
    ∷ codes "/sapi/v1/capital/withdraw/history"
    ∷ codes "/sapi/v1/asset/transfer"
    ∷ codes "/sapi/v1/convert/tradeFlow"
    ∷ codes "/sapi/v1/asset/dribblet"
    ∷ codes "/sapi/v1/asset/assetDividend"
    ∷ codes "/sapi/v1/simple-earn/flexible/position"
    ∷ codes "/sapi/v1/simple-earn/locked/position"
    ∷ codes "/sapi/v1/simple-earn/flexible/history/rewardsRecord"
    ∷ codes "/sapi/v1/simple-earn/locked/history/rewardsRecord"
    ∷ codes "/api/v3/klines"
    ∷ []

pub data SigningError : Type 0 where
  path_not_allowed : Bytes → SigningError
  empty_secret : SigningError

unfoldable pub host_for : Environment → Bytes
host_for production = production_host
host_for test = test_host

-- `contains`
unfoldable pub contains : List Bytes → Bytes → Bool
contains [] path = false
contains (allowed ∷ paths) path = bytes_eq allowed path || contains paths path

-- `hmac` is HMAC-SHA-256 (the crates `hmac` and `sha2`), `hex_encode` is `hex::encode`, and
-- `to_string` writes a number in decimal.
module _ (hmac : (key message : Bytes) → Bytes) (hex_encode : Bytes → Bytes) where
  unfoldable pub sign_request : (secret path query : Bytes) → Result SigningError Bytes
  sign_request secret path query = do
    _ ← raise_if (not (contains allowed_paths path)) (path_not_allowed path)
    _ ← raise_if (is_empty secret) empty_secret
    ok (hex_encode (hmac secret query))

module _ (to_string : ℕ → Bytes) where
  unfoldable pub redact_query_for_logging : Bytes → Bytes
  redact_query_for_logging query =
      if is_empty query
      then codes "[empty]"
      else codes "[redacted " ++ to_string (length query) ++ codes " bytes]"
