-- ===== src/Collector/Tlsn/Guest.antt =====
-- Lemmas and theorems on services/collector/tlsn and zkvm/methods/tls-origin/guest together.
use linvesther.Prelude.{
  ◌≡◌, refl, sym, ◌∙◌, ap, List, [], ◌∷◌, ◌++◌, append_assoc, Option-cases, inl, inr, ◌||◌, map_err,
  Bool-cases,
}
use linvesther.Prelude.Bytes.{Bytes, bytes_eq, to_be_bytes}
use linvesther.Commitments.Hash.{Sha256}
use linvesther.Performance.Origin.{Ecdsa}
use linvesther.Collector.Tlsn
use linvesther.Collector.Tlsn.{any_field, update_fields}
use linvesther.TlsOrigin.{
  SessionError, hostname_mismatch, redaction_hides_required_field, wallet_binding_invalid,
  raw_not_bound_to_input, discloses, concat,
}
use linvesther.TlsOrigin

-- A receipt of the collector, as the guest reads it.
abbrev pub to_guest : Tlsn.TlsSessionReceipt → TlsOrigin.TlsSessionReceipt
to_guest r = record {
  server_name = r.server_name;
  request_method = r.request_method;
  request_path = r.request_path;
  request_query = r.request_query;
  response_status = r.response_status;
  response_body_hash = r.response_body_hash;
  disclosed_fields = r.disclosed_fields;
  wallet_binding_signature = r.wallet_binding_signature;
  wallet_address = r.wallet_address;
}

-- The guest's error for an error of the collector.
abbrev pub error_of : Tlsn.SessionError → TlsOrigin.SessionError
error_of (Tlsn.hostname_mismatch expected actual) = hostname_mismatch
error_of (Tlsn.redaction_hides_required_field category) = redaction_hides_required_field
error_of Tlsn.wallet_binding_invalid = wallet_binding_invalid
error_of Tlsn.raw_not_bound_to_input = raw_not_bound_to_input

any_field-eq-discloses :
    (fields : List Bytes) (category : Bytes) → any_field fields category ≡ discloses fields category
unfolding any_field discloses
any_field-eq-discloses [] category = refl
any_field-eq-discloses (field ∷ fields) category =
    ap (λ b. bytes_eq field category || b) (any_field-eq-discloses fields category)

update_fields-concat :
    (fields : List Bytes) (rest : Bytes) → update_fields fields rest ≡ concat fields ++ rest
unfolding update_fields concat
update_fields-concat [] rest = refl
update_fields-concat (field ∷ fields) rest =
    ap (λ t. field ++ t) (update_fields-concat fields rest)
    ∙ sym (append_assoc field (concat fields) rest)

check_categories_agree :
    (fields categories : List Bytes)
    → map_err error_of (Tlsn.check_categories fields categories)
      ≡ TlsOrigin.check_categories fields categories
unfolding Tlsn.check_categories TlsOrigin.check_categories
check_categories_agree fields [] = refl
check_categories_agree fields (category ∷ categories) =
    elim (Bool-cases (discloses fields category)) [
      | inl there ↦
          rw (any_field-eq-discloses fields category, there)
            (check_categories_agree fields categories)
      | inr hidden ↦ rw (any_field-eq-discloses fields category, hidden) refl
    ]

verify_session_shape_agree :
    (r : Tlsn.TlsSessionReceipt) (expected_hostname : Bytes)
    → map_err error_of (Tlsn.verify_session_shape r expected_hostname)
      ≡ TlsOrigin.verify_session_shape (to_guest r) expected_hostname
unfolding Tlsn.verify_session_shape TlsOrigin.verify_session_shape
verify_session_shape_agree r expected_hostname =
    elim (Bool-cases (bytes_eq r.server_name expected_hostname)) [
      | inl same ↦
          rw same (check_categories_agree r.disclosed_fields Tlsn.required_disclosed_categories)
      | inr other ↦ rw other refl
    ]

module _ (sha : Sha256) (ecdsa : Ecdsa) where
  binding_digest_agree :
      (r : Tlsn.TlsSessionReceipt)
      → Tlsn.binding_digest sha ecdsa r ≡ TlsOrigin.binding_digest sha ecdsa (to_guest r)
  unfolding Tlsn.binding_digest TlsOrigin.binding_digest TlsOrigin.binding_bytes
  binding_digest_agree r =
      let front =
        r.server_name
        ++ r.request_method
        ++ r.request_path
        ++ r.request_query
        ++ to_be_bytes 2 r.response_status
        ++ r.response_body_hash in
      ap (λ t. sha.digest t)
        (ap (λ t. front ++ t) (update_fields-concat r.disclosed_fields r.wallet_address)
          ∙ sym (append_assoc front (concat r.disclosed_fields) r.wallet_address))

  verify_wallet_binding_agree :
      (r : Tlsn.TlsSessionReceipt) (key : Bytes)
      → map_err error_of (Tlsn.verify_wallet_binding sha ecdsa r key)
        ≡ TlsOrigin.verify_wallet_binding sha ecdsa (to_guest r) key
  unfolding Tlsn.verify_wallet_binding TlsOrigin.verify_wallet_binding
  verify_wallet_binding_agree r key = elim (Option-cases (ecdsa.from_sec1_bytes key)) [
    | inl none_ ↦ rw none_ refl
    | inr (k, decoded) ↦ elim (Option-cases (ecdsa.from_slice r.wallet_binding_signature)) [
      | inl none_ ↦ rw (decoded, none_) refl
      | inr (s, read) ↦
          elim (Bool-cases (ecdsa.verifies k (TlsOrigin.binding_digest sha ecdsa (to_guest r)) s)) [
            | inl good ↦ rw (decoded, read, binding_digest_agree r, good) refl
            | inr bad ↦ rw (decoded, read, binding_digest_agree r, bad) refl
          ]
    ]
  ]

  verify_raw_agree :
      (r : Tlsn.TlsSessionReceipt) (input : Bytes)
      → map_err error_of (Tlsn.verify_raw_bound_to_input sha ecdsa r input)
        ≡ TlsOrigin.verify_raw_bound_to_input sha ecdsa (to_guest r) input
  unfolding Tlsn.verify_raw_bound_to_input TlsOrigin.verify_raw_bound_to_input
  verify_raw_agree r input = elim (Bool-cases (bytes_eq (sha.digest input) r.response_body_hash)) [
    | inl same ↦ rw same refl
    | inr other ↦ rw other refl
  ]

  -- The collector and the guest, which are written apart, decide alike: on one receipt each of the
  -- three checks gives the same answer, errors included (those of the collector only carry more),
  -- and both sign the same binding digest.
  pub sessions_agree :
      (r : Tlsn.TlsSessionReceipt) (expected_hostname key input : Bytes)
      → (Tlsn.binding_digest sha ecdsa r ≡ TlsOrigin.binding_digest sha ecdsa (to_guest r))
        × (map_err error_of (Tlsn.verify_session_shape r expected_hostname)
            ≡ TlsOrigin.verify_session_shape (to_guest r) expected_hostname)
        × (map_err error_of (Tlsn.verify_wallet_binding sha ecdsa r key)
            ≡ TlsOrigin.verify_wallet_binding sha ecdsa (to_guest r) key)
        × (map_err error_of (Tlsn.verify_raw_bound_to_input sha ecdsa r input)
            ≡ TlsOrigin.verify_raw_bound_to_input sha ecdsa (to_guest r) input)
  sessions_agree r expected_hostname key input = (
    binding_digest_agree r,
    verify_session_shape_agree r expected_hostname,
    verify_wallet_binding_agree r key,
    verify_raw_agree r input,
  )
