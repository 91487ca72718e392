-- ===== src/Examples/Origins.antt =====
-- Sessions and the local agent on small inputs.
use linvesther.Prelude.{ℕ, List, [], ◌∷◌, ◌≡◌, refl, some, true, ok, map_err, replicate}
use linvesther.Prelude.Int.{pos}
use linvesther.Prelude.Bytes.{Bytes, bytes_eq, to_be_bytes}
use linvesther.Commitments.Hash.{length_hash}
use linvesther.Performance.Origin.{Ecdsa}
use linvesther.TlsOrigin.{
  TlsSessionReceipt, GuestInput, GuestOutput, a1, required_disclosed_categories, run,
  verify_session_shape, check_categories, discloses, verify_wallet_binding,
  verify_raw_bound_to_input,
}
use linvesther.TlsOrigin.Genuine.{IsGenuine, run-IsGenuine}
use linvesther.LocalAgent.{LedgerEvent, initial}
use linvesther.LocalAgent.Resumes.{processed, processed-eq-joined}
use linvesther.Collector.Tlsn
use linvesther.Collector.Tlsn.Guest.{to_guest, error_of, sessions_agree}
use linvesther.TlsOrigin

-- A scheme in which a signature is the message itself.
abbrev echo : Ecdsa
echo = record {
  VerifyingKey = Bytes;
  Signature = Bytes;
  from_sec1_bytes = λ b. some b;
  from_slice = λ b. some b;
  verifies = λ key message signature. bytes_eq message signature;
  to_encoded_point = λ key. key;
}

abbrev session_receipt : TlsSessionReceipt
session_receipt = record {
  server_name = 1 ∷ [];
  request_method = 2 ∷ [];
  request_path = 3 ∷ [];
  request_query = [];
  response_status = 200;
  response_body_hash = length_hash.digest (7 ∷ []);
  disclosed_fields = required_disclosed_categories;
  wallet_binding_signature = replicate 32 118;
  wallet_address = replicate 20 4;
}

abbrev session_input : GuestInput
session_input = record {
  receipt = session_receipt;
  verifying_key_sec1 = 9 ∷ [];
  normalized_input_bytes = 7 ∷ [];
  expected_hostname = 1 ∷ [];
  origin_verified_in_guest = true;
}

abbrev session_output : GuestOutput
session_output = record { badge = a1; normalized_input_digest = length_hash.digest (7 ∷ []) }

session_run : run length_hash echo session_input ≡ ok session_output
unfolding run verify_session_shape check_categories discloses verify_wallet_binding
    verify_raw_bound_to_input TlsOrigin.binding_digest TlsOrigin.binding_bytes TlsOrigin.concat
    bytes_eq to_be_bytes
session_run = refl

run-IsGenuine_example :
    IsGenuine length_hash echo session_input
    × (session_output.normalized_input_digest ≡ length_hash.digest (7 ∷ []))
run-IsGenuine_example = run-IsGenuine length_hash echo session_input session_output session_run refl

abbrev event_of : ℕ → LedgerEvent
event_of n = record { id = n ∷ []; delta = pos n }

abbrev growth : List (List LedgerEvent)
growth = (event_of 1 ∷ event_of 2 ∷ []) ∷ [] ∷ (event_of 3 ∷ []) ∷ []

processed-eq-joined_example :
    processed initial [] growth ≡ (event_of 1 ∷ event_of 2 ∷ event_of 3 ∷ [])
processed-eq-joined_example = processed-eq-joined growth

abbrev collected : Tlsn.TlsSessionReceipt
collected = record {
  server_name = 1 ∷ [];
  request_method = 2 ∷ [];
  request_path = 3 ∷ [];
  request_query = [];
  response_status = 200;
  response_body_hash = replicate 32 1;
  disclosed_fields = (5 ∷ []) ∷ [];
  wallet_binding_signature = [];
  wallet_address = replicate 20 4;
}

sessions_agree_example :
    (Tlsn.binding_digest length_hash echo collected
      ≡ TlsOrigin.binding_digest length_hash echo (to_guest collected))
    × (map_err error_of (Tlsn.verify_session_shape collected (1 ∷ []))
        ≡ TlsOrigin.verify_session_shape (to_guest collected) (1 ∷ []))
    × (map_err error_of (Tlsn.verify_wallet_binding length_hash echo collected (9 ∷ []))
        ≡ TlsOrigin.verify_wallet_binding length_hash echo (to_guest collected) (9 ∷ []))
    × (map_err error_of (Tlsn.verify_raw_bound_to_input length_hash echo collected (7 ∷ []))
        ≡ TlsOrigin.verify_raw_bound_to_input length_hash echo (to_guest collected) (7 ∷ []))
sessions_agree_example = sessions_agree length_hash echo collected (1 ∷ []) (9 ∷ []) (7 ∷ [])
