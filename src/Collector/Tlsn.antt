-- ===== src/Collector/Tlsn.antt =====
-- services/collector/tlsn: the checks of a TLS session, as the collector makes them.
pub mod Guest
use linvesther.Prelude.{
  ℕ, List, [], ◌∷◌, ◌++◌, Option, Bool, true, false, ◌||◌, not, Result, ok, err, ◌>>=◌, ◌>>◌, ok_or,
  raise_if, if◌then◌else◌,
}
use linvesther.Prelude.Bytes.{Bytes, bytes_eq, codes, to_be_bytes}
use linvesther.Commitments.Hash.{Sha256}
use linvesther.Performance.Origin.{Ecdsa}

pub record TlsSessionReceipt : Type 0 where
  pub server_name : Bytes
  pub request_method : Bytes
  pub request_path : Bytes
  pub request_query : Bytes
  pub response_status : ℕ
  pub response_body_hash : Bytes
  pub disclosed_fields : List Bytes
  pub wallet_binding_signature : Bytes
  pub wallet_address : Bytes

abbrev pub required_disclosed_categories : List Bytes
required_disclosed_categories =
    codes "wallet_selector"
    ∷ codes "symbol"
    ∷ codes "filter"
    ∷ codes "type"
    ∷ codes "time_window"
    ∷ codes "error"
    ∷ codes "relevant_count"
    ∷ []

pub data SessionError : Type 0 where
  hostname_mismatch : (expected actual : Bytes) → SessionError
  redaction_hides_required_field : (category : Bytes) → SessionError
  wallet_binding_invalid : SessionError
  raw_not_bound_to_input : SessionError

-- What the loop over the fields feeds the hasher with, and what follows it.
unfoldable pub update_fields : List Bytes → Bytes → Bytes
update_fields [] rest = rest
update_fields (field ∷ fields) rest = field ++ update_fields fields rest

-- `any(|field| field == category)`
unfoldable pub any_field : List Bytes → Bytes → Bool
any_field [] category = false
any_field (field ∷ fields) category = bytes_eq field category || any_field fields category

unfoldable pub check_categories : List Bytes → List Bytes → Result SessionError (Unit {0})
check_categories fields [] = ok tt
check_categories fields (category ∷ categories) =
    if not (any_field fields category)
    then err (redaction_hides_required_field category)
    else check_categories fields categories

unfoldable pub verify_session_shape : TlsSessionReceipt → Bytes → Result SessionError (Unit {0})
verify_session_shape receipt expected_hostname =
    raise_if (not (bytes_eq receipt.server_name expected_hostname))
      (hostname_mismatch expected_hostname receipt.server_name)
    >> check_categories receipt.disclosed_fields required_disclosed_categories

module _ (sha : Sha256) (ecdsa : Ecdsa) where
  unfoldable pub binding_digest : TlsSessionReceipt → Bytes
  binding_digest r = sha.digest (
      r.server_name
      ++ r.request_method
      ++ r.request_path
      ++ r.request_query
      ++ to_be_bytes 2 r.response_status
      ++ r.response_body_hash
      ++ update_fields r.disclosed_fields r.wallet_address)

  unfoldable pub verify_wallet_binding : TlsSessionReceipt → Bytes → Result SessionError (Unit {0})
  verify_wallet_binding receipt verifying_key_sec1 = do
    verifying_key ← ok_or (ecdsa.from_sec1_bytes verifying_key_sec1) wallet_binding_invalid
    signature ← ok_or (ecdsa.from_slice receipt.wallet_binding_signature) wallet_binding_invalid
    raise_if (not (ecdsa.verifies verifying_key (binding_digest receipt) signature))
        wallet_binding_invalid

  unfoldable pub verify_raw_bound_to_input :
      TlsSessionReceipt → Bytes → Result SessionError (Unit {0})
  verify_raw_bound_to_input receipt actual_input_bytes =
      raise_if (not (bytes_eq (sha.digest actual_input_bytes) receipt.response_body_hash))
        raw_not_bound_to_input
