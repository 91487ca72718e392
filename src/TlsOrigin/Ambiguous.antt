-- ===== src/TlsOrigin/Ambiguous.antt =====
-- Lemmas and theorems on `binding_digest` (zkvm/methods/tls-origin/guest/src/session.rs).
use linvesther.Prelude.{◌≡◌, sym, ◌∙◌, ap, ◌++◌, append_assoc}
use linvesther.Prelude.Bytes.{Bytes, to_be_bytes}
use linvesther.Commitments.Hash.{Sha256}
use linvesther.Performance.Origin.{Ecdsa}
use linvesther.TlsOrigin.{TlsSessionReceipt, concat, binding_bytes, binding_digest}

abbrev pub with_request : TlsSessionReceipt → (path query : Bytes) → TlsSessionReceipt
with_request r path query = record {
  server_name = r.server_name;
  request_method = r.request_method;
  request_path = path;
  request_query = query;
  response_status = r.response_status;
  response_body_hash = r.response_body_hash;
  disclosed_fields = r.disclosed_fields;
  wallet_binding_signature = r.wallet_binding_signature;
  wallet_address = r.wallet_address;
}

-- The binding digest does not separate its fields: moving bytes from the end of the path of a
-- request to the start of its query gives a receipt with the same digest.
binding_digest-ambiguous :
    (sha : Sha256) (ecdsa : Ecdsa) (r : TlsSessionReceipt) (path moved query : Bytes)
    → binding_digest sha ecdsa (with_request r (path ++ moved) query)
      ≡ binding_digest sha ecdsa (with_request r path (moved ++ query))
unfolding binding_digest binding_bytes
binding_digest-ambiguous sha ecdsa r path moved query =
    let front = r.server_name ++ r.request_method in
    ap
      (λ t. sha.digest (
        t
        ++ to_be_bytes 2 r.response_status
        ++ r.response_body_hash
        ++ concat r.disclosed_fields
        ++ r.wallet_address))
      (ap (λ t. t ++ query) (sym (append_assoc front path moved))
        ∙ append_assoc (front ++ path) moved query)
