-- ===== src/TlsOrigin.antt =====
-- zkvm/methods/tls-origin/guest: the guest that checks where a response came from.
pub mod Genuine
pub mod Ambiguous
use linvesther.Prelude.{
  ℕ, List, [], ◌∷◌, ◌++◌, Option, none, some, Bool, true, false, ◌||◌, not, Result, ok, err, ◌>>=◌,
  ◌>>◌, ok_or, map_err, raise_if, if◌then◌else◌,
}
use linvesther.Prelude.Bytes.{Bytes, bytes_eq, codes, to_be_bytes}
use linvesther.Commitments.Hash.{Sha256}
use linvesther.Performance.Origin.{Ecdsa}

pub record TlsSessionReceipt : Type 0 where
  pub server_name : Bytes
  pub request_method : Bytes
  pub request_path : Bytes
  pub request_query : Bytes
  pub response_status : ℕ
  pub response_body_hash : Bytes
  pub disclosed_fields : List Bytes
  pub wallet_binding_signature : Bytes
  pub wallet_address : Bytes

abbrev pub required_disclosed_categories : List Bytes
required_disclosed_categories =
    codes "wallet_selector"
    ∷ codes "symbol"
    ∷ codes "filter"
    ∷ codes "type"
    ∷ codes "time_window"
    ∷ codes "error"
    ∷ codes "relevant_count"
    ∷ []

pub data SessionError : Type 0 where
  hostname_mismatch redaction_hides_required_field wallet_binding_invalid raw_not_bound_to_input :
      SessionError

-- The updates of the loop over the fields.
unfoldable pub concat : List Bytes → Bytes
concat [] = []
concat (field ∷ fields) = field ++ concat fields

-- What the hasher is fed with, in order.
unfoldable pub binding_bytes : TlsSessionReceipt → Bytes
binding_bytes r =
    r.server_name
    ++ r.request_method
    ++ r.request_path
    ++ r.request_query
    ++ to_be_bytes 2 r.response_status
    ++ r.response_body_hash
    ++ concat r.disclosed_fields
    ++ r.wallet_address

-- `any(|field| field == category)`
unfoldable pub discloses : List Bytes → Bytes → Bool
discloses [] category = false
discloses (field ∷ fields) category = bytes_eq field category || discloses fields category

unfoldable pub check_categories : List Bytes → List Bytes → Result SessionError (Unit {0})
check_categories fields [] = ok tt
check_categories fields (category ∷ categories) =
    if not (discloses fields category)
    then err redaction_hides_required_field
    else check_categories fields categories

unfoldable pub verify_session_shape : TlsSessionReceipt → Bytes → Result SessionError (Unit {0})
verify_session_shape receipt expected_hostname =
    raise_if (not (bytes_eq receipt.server_name expected_hostname)) hostname_mismatch
    >> check_categories receipt.disclosed_fields required_disclosed_categories

pub data OriginBadge : Type 0 where
  a1 bridge_attested : OriginBadge

pub record GuestInput : Type 0 where
  pub receipt : TlsSessionReceipt
  pub verifying_key_sec1 : Bytes
  pub normalized_input_bytes : Bytes
  pub expected_hostname : Bytes
  pub origin_verified_in_guest : Bool

pub record GuestOutput : Type 0 where
  pub badge : OriginBadge
  pub normalized_input_digest : Bytes

pub data GuestError : Type 0 where
  session : SessionError → GuestError

module _ (sha : Sha256) (ecdsa : Ecdsa) where
  unfoldable pub binding_digest : TlsSessionReceipt → Bytes
  binding_digest receipt = sha.digest (binding_bytes receipt)

  unfoldable pub verify_wallet_binding : TlsSessionReceipt → Bytes → Result SessionError (Unit {0})
  verify_wallet_binding receipt verifying_key_sec1 = do
    verifying_key ← ok_or (ecdsa.from_sec1_bytes verifying_key_sec1) wallet_binding_invalid
    signature ← ok_or (ecdsa.from_slice receipt.wallet_binding_signature) wallet_binding_invalid
    raise_if (not (ecdsa.verifies verifying_key (binding_digest receipt) signature))
        wallet_binding_invalid

  unfoldable pub verify_raw_bound_to_input :
      TlsSessionReceipt → Bytes → Result SessionError (Unit {0})
  verify_raw_bound_to_input receipt normalized_input_bytes =
      raise_if (not (bytes_eq (sha.digest normalized_input_bytes) receipt.response_body_hash))
        raw_not_bound_to_input

  -- The checks on the in-guest path.
  unfoldable pub verified_output : GuestInput → Result GuestError GuestOutput
  verified_output input = do
    _ ← map_err session (verify_session_shape input.receipt input.expected_hostname)
    _ ← map_err session (verify_wallet_binding input.receipt input.verifying_key_sec1)
    _ ← map_err session (verify_raw_bound_to_input input.receipt input.normalized_input_bytes)
    ok (record { badge = a1; normalized_input_digest = sha.digest input.normalized_input_bytes })

  unfoldable pub run : GuestInput → Result GuestError GuestOutput
  unfolding verified_output
  run input =
      if not input.origin_verified_in_guest
      then ok (record {
        badge = bridge_attested;
        normalized_input_digest = sha.digest input.normalized_input_bytes;
      })
      else verified_output input

  -- `main`: `expect` stops the guest, and nothing is committed.
  unfoldable pub journal : GuestInput → Option GuestOutput
  journal input = elim (run input) [ ok output ↦ some output | err e ↦ none ]
