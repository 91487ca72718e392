-- ===== src/TlsOrigin/Genuine.antt =====
-- Lemmas and theorems on the guest's `run` (zkvm/methods/tls-origin/guest).
use linvesther.Prelude.{
  ◌≡◌, ◌≢◌, ◌⊎◌, inl, inr, refl, sym, ◌∙◌, ap, List, [], ◌∷◌, some, Bool, true, false, not,
  not-eq-false, ok, ok_or, ok_or-eq-ok, map_err, map_err-eq-ok, raise_if, raise_if-eq-ok, >>=-eq-ok,
  ok-injective, All, Bool-cases,
}
use linvesther.Prelude.Bytes.{Bytes, bytes_eq, bytes_eq→eq}
use linvesther.Commitments.Hash.{Sha256}
use linvesther.Performance.Origin.{Ecdsa}
use linvesther.TlsOrigin.{
  wallet_binding_invalid, session, required_disclosed_categories, discloses, check_categories,
  verify_session_shape, a1, bridge_attested, GuestInput, GuestOutput, binding_digest,
  verify_wallet_binding, verify_raw_bound_to_input, verified_output, run,
}

abbrev pub IsDisclosed : Bytes → List Bytes → Type 0
IsDisclosed category [] = ⊥
IsDisclosed category (field ∷ fields) = (field ≡ category) ⊎ IsDisclosed category fields

discloses-IsDisclosed :
    (fields : List Bytes) (category : Bytes)
    → discloses fields category ≡ true
    → IsDisclosed category fields
unfolding discloses
discloses-IsDisclosed [] category h = cc
discloses-IsDisclosed (field ∷ fields) category h = elim (Bool-cases (bytes_eq field category)) [
  | inl same ↦ inl (bytes_eq→eq field category same)
  | inr other ↦ inr (discloses-IsDisclosed fields category (rw other at h))
]

check_categories-All :
    (fields categories : List Bytes)
    → check_categories fields categories ≡ ok tt
    → All (λ category. IsDisclosed category fields) categories
unfolding check_categories
check_categories-All fields [] h = tt
check_categories-All fields (category ∷ categories) h =
    elim (Bool-cases (discloses fields category)) [
      | inl there ↦ (
        discloses-IsDisclosed fields category there,
        check_categories-All fields categories (rw there at h),
      )
      | inr hidden ↦ let f = rw hidden at h in cc
    ]

raise_if-eq-tt : {E : Type 0} (b : Bool) (e : E) → raise_if b e ≡ ok tt → b ≡ false
raise_if-eq-tt true e h = cc
raise_if-eq-tt false e h = refl

module _ (sha : Sha256) (ecdsa : Ecdsa) where
  -- What was checked of the session behind an output with the A1 badge.
  pub record IsGenuine (input : GuestInput) : Type 0 where
    pub in_guest : input.origin_verified_in_guest ≡ true
    pub hostname : input.receipt.server_name ≡ input.expected_hostname
    pub disclosed :
        All
          (λ category. IsDisclosed category input.receipt.disclosed_fields)
          required_disclosed_categories
    pub signing_key : ecdsa.VerifyingKey
    pub key_of : ecdsa.from_sec1_bytes input.verifying_key_sec1 ≡ some signing_key
    pub signature : ecdsa.Signature
    pub signature_of : ecdsa.from_slice input.receipt.wallet_binding_signature ≡ some signature
    pub signed :
        ecdsa.verifies signing_key (binding_digest sha ecdsa input.receipt) signature ≡ true
    pub body : sha.digest input.normalized_input_bytes ≡ input.receipt.response_body_hash

  verified_output-IsGenuine :
      (input : GuestInput) {output : GuestOutput}
      → input.origin_verified_in_guest ≡ true
      → verified_output sha ecdsa input ≡ ok output
      → IsGenuine input
  unfolding verified_output verify_session_shape verify_wallet_binding verify_raw_bound_to_input
  verified_output-IsGenuine input inside h =
      let receipt = input.receipt in
      let (u, shape, h1) =
        >>=-eq-ok (map_err session (verify_session_shape receipt input.expected_hostname)) _ h in
      let (v, wallet, h2) =
        >>=-eq-ok
          (map_err session (verify_wallet_binding sha ecdsa receipt input.verifying_key_sec1)) _
          h1 in
      let (w, raw, h3) =
        >>=-eq-ok
          (map_err session
            (verify_raw_bound_to_input sha ecdsa receipt input.normalized_input_bytes))
          _ h2 in
      let (host, fields) =
        raise_if-eq-ok (not (bytes_eq receipt.server_name input.expected_hostname)) _ _
          (map_err-eq-ok session (verify_session_shape receipt input.expected_hostname) shape) in
      let (key, decoded, w1) =
        >>=-eq-ok (ok_or (ecdsa.from_sec1_bytes input.verifying_key_sec1) wallet_binding_invalid) _
          (map_err-eq-ok session (verify_wallet_binding sha ecdsa receipt input.verifying_key_sec1)
            wallet) in
      let (sig, read, w2) =
        >>=-eq-ok (ok_or (ecdsa.from_slice receipt.wallet_binding_signature) wallet_binding_invalid)
          _ w1 in
      record {
        in_guest = inside;
        hostname = bytes_eq→eq receipt.server_name input.expected_hostname (not-eq-false _ host);
        disclosed =
            check_categories-All receipt.disclosed_fields required_disclosed_categories fields;
        signing_key = key;
        key_of = ok_or-eq-ok _ _ decoded;
        signature = sig;
        signature_of = ok_or-eq-ok _ _ read;
        signed = not-eq-false _ (raise_if-eq-tt _ _ w2);
        body = bytes_eq→eq (sha.digest input.normalized_input_bytes) receipt.response_body_hash (
            not-eq-false _ (
              raise_if-eq-tt _ _ (
                map_err-eq-ok session
                  (verify_raw_bound_to_input sha ecdsa receipt input.normalized_input_bytes) raw)));
      }

  verified_output-badge :
      (input : GuestInput) {output : GuestOutput}
      → verified_output sha ecdsa input ≡ ok output
      → (output.badge ≡ a1)
        × (output.normalized_input_digest ≡ sha.digest input.normalized_input_bytes)
  unfolding verified_output
  verified_output-badge input h =
      let (u, shape, h1) =
        >>=-eq-ok (map_err session (verify_session_shape input.receipt input.expected_hostname)) _
          h in
      let (v, wallet, h2) =
        >>=-eq-ok
          (map_err session (verify_wallet_binding sha ecdsa input.receipt input.verifying_key_sec1))
          _ h1 in
      let (w, raw, h3) =
        >>=-eq-ok
          (map_err session
            (verify_raw_bound_to_input sha ecdsa input.receipt input.normalized_input_bytes))
          _ h2 in
      let made = ok-injective h3 in
      (
        sym (ap (λ (o : GuestOutput). o.badge) made),
        sym (ap (λ (o : GuestOutput). o.normalized_input_digest) made),
      )

  -- The badge A1 is only given on the path that checks the session in the guest: the receipt is of
  -- the expected host and discloses every required category, its binding digest is signed under the
  -- given key, and its response body hashes to the input that the calculation used, whose digest
  -- the guest publishes.
  pub run-IsGenuine :
      (input : GuestInput) (output : GuestOutput)
      → run sha ecdsa input ≡ ok output
      → output.badge ≡ a1
      → IsGenuine input × (output.normalized_input_digest ≡ sha.digest input.normalized_input_bytes)
  unfolding run
  run-IsGenuine input output h badge = elim (Bool-cases input.origin_verified_in_guest) [
    | inr outside ↦
        let made = ok-injective (rw outside at h) in
        let f = sym (ap (λ (o : GuestOutput). o.badge) made) in absurd (apart (sym badge ∙ f))
    | inl inside ↦
        let h1 = rw inside at h in
        (verified_output-IsGenuine input inside h1, (verified_output-badge input h1).1)
  ]
    where
      apart : a1 ≢ bridge_attested
      apart e = cc
