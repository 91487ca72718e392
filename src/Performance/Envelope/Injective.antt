-- ===== src/Performance/Envelope/Injective.antt =====
-- Lemmas and theorems on `canonical_bytes` (zkvm/methods/performance/guest/src/envelope.rs).
use linvesther.Prelude.{
  ◌^◌, ◌<◌, ◌≡◌, ◌⊎◌, inl, inr, ◌∙◌, refl, sym, List, [], ◌∷◌, ◌++◌, append_assoc, append-nil,
  length, arith, All,
}
use linvesther.Prelude.Int.{ℤ}
use linvesther.Prelude.Machine.{InRange, i64_half}
use linvesther.Prelude.Bytes.{
  Bytes, codes, to_be_bytes, length-to_be_bytes, to_be_bytes-injective, dec_bytes,
}
use linvesther.Commitments.Hash.{Sha256, Collision}
use linvesther.Commitments.Framing.Injective.{block_injective}
use linvesther.Performance.Envelope.{
  SourceEnvelope, i64_bits, i64_be_bytes, write_field, canonical_bytes, digest,
}
use mathlib.Core.List.{append_cancel_left}
use native.Mathlib.Nat.{mod-eq_of_lt}

-- What the types of the fields say: a string is shorter than 2^64 bytes (a digest is 32), and a
-- time is an `i64`.
abbrev pub IsShort : Bytes → Type 0
IsShort b = length b < 2 ^ 64

pub record IsTyped (e : SourceEnvelope) : Type 0 where
  pub strings : IsShort e.mechanism × IsShort e.issuer_key_id × IsShort e.environment
  pub digests :
      IsShort e.trust_manifest_hash
      × IsShort e.account_binding_commitment
      × IsShort e.batch_commitment
      × IsShort e.raw_evidence_root
      × IsShort e.normalized_root
      × IsShort e.coverage_manifest_hash
      × IsShort e.policy_hash
      × IsShort e.source_session_binding
  pub times :
      InRange i64_half e.period_start_ms
      × InRange i64_half e.period_end_ms
      × InRange i64_half e.observed_at_ms
      × InRange i64_half e.expires_at_ms

i64_bits-injective :
    (a b : ℤ) → InRange i64_half a → InRange i64_half b → i64_bits a ≡ i64_bits b → a ≡ b
i64_bits-injective a b ha hb e = ground arith

i64_bits-lt : (a : ℤ) → InRange i64_half a → i64_bits a < 256 ^ 8
i64_bits-lt a h = ground arith

i64_be_bytes-injective :
    (a b : ℤ) → InRange i64_half a → InRange i64_half b → i64_be_bytes a ≡ i64_be_bytes b → a ≡ b
i64_be_bytes-injective a b ha hb e =
    i64_bits-injective a b ha hb
      (to_be_bytes-injective 8 (i64_bits a) (i64_bits b) (i64_bits-lt a ha) (i64_bits-lt b hb) e)

-- The domains in order, and the bytes of each field.
abbrev domains : List Bytes
domains =
    codes "mechanism"
    ∷ codes "issuerKeyId"
    ∷ codes "trustManifestHash"
    ∷ codes "accountBindingCommitment"
    ∷ codes "batchCommitment"
    ∷ codes "rawEvidenceRoot"
    ∷ codes "normalizedRoot"
    ∷ codes "coverageManifestHash"
    ∷ codes "periodStart"
    ∷ codes "periodEnd"
    ∷ codes "observedAt"
    ∷ codes "expiresAt"
    ∷ codes "policyHash"
    ∷ codes "environment"
    ∷ codes "sourceSessionBinding"
    ∷ []

abbrev values : SourceEnvelope → List Bytes
values e =
    e.mechanism
    ∷ e.issuer_key_id
    ∷ e.trust_manifest_hash
    ∷ e.account_binding_commitment
    ∷ e.batch_commitment
    ∷ e.raw_evidence_root
    ∷ e.normalized_root
    ∷ e.coverage_manifest_hash
    ∷ i64_be_bytes e.period_start_ms
    ∷ i64_be_bytes e.period_end_ms
    ∷ i64_be_bytes e.observed_at_ms
    ∷ i64_be_bytes e.expires_at_ms
    ∷ e.policy_hash
    ∷ e.environment
    ∷ e.source_session_binding
    ∷ []

write_all : Bytes → List Bytes → List Bytes → Bytes
write_all buf [] bs = buf
write_all buf (d ∷ ds) [] = buf
write_all buf (d ∷ ds) (b ∷ bs) = write_all (write_field buf d b) ds bs

canonical_bytes-eq-write_all :
    (e : SourceEnvelope) → canonical_bytes e ≡ write_all [] domains (values e)
unfolding canonical_bytes write_all
canonical_bytes-eq-write_all e = refl

encode : List Bytes → List Bytes → Bytes
encode [] bs = []
encode (d ∷ ds) [] = []
encode (d ∷ ds) (b ∷ bs) = d ++ (to_be_bytes 8 (length b) ++ (b ++ encode ds bs))

write_all-encode :
    (buf : Bytes) (ds bs : List Bytes) → All IsShort bs → write_all buf ds bs ≡ buf ++ encode ds bs
unfolding write_all encode write_field
write_all-encode buf [] bs h = sym (append-nil buf)
write_all-encode buf (d ∷ ds) [] h = sym (append-nil buf)
write_all-encode buf (d ∷ ds) (b ∷ bs) h =
    rw (mod-eq_of_lt {n = length b} {m = 2 ^ 64} h.0) (
      write_all-encode (((buf ++ d) ++ to_be_bytes 8 (length b)) ++ b) ds bs h.1
      ∙ simp append_assoc)

encode-injective :
    (ds xs bs : List Bytes)
    → length xs ≡ length ds
    → length bs ≡ length ds
    → All IsShort xs
    → All IsShort bs
    → encode ds xs ≡ encode ds bs
    → xs ≡ bs
unfolding encode
encode-injective [] [] [] p q h k e = refl
encode-injective [] [] (b ∷ bs) p q h k e = absurd (omega arith)
encode-injective [] (a ∷ xs) bs p q h k e = absurd (omega arith)
encode-injective (d ∷ ds) [] bs p q h k e = absurd (omega arith)
encode-injective (d ∷ ds) (a ∷ xs) [] p q h k e = absurd (omega arith)
encode-injective (d ∷ ds) (a ∷ xs) (b ∷ bs) p q h k e =
    let blocks = append_cancel_left d _ _ e in
    let (head, tail) = block_injective 8 a b (encode ds xs) (encode ds bs) h.0 k.0 blocks in
    cc (head, encode-injective ds xs bs (omega arith) (omega arith) h.1 k.1 tail)

values-IsShort : (e : SourceEnvelope) → IsTyped e → All IsShort (values e)
values-IsShort e h = omega (
  arith,
  length-to_be_bytes 8 (i64_bits e.period_start_ms),
  length-to_be_bytes 8 (i64_bits e.period_end_ms),
  length-to_be_bytes 8 (i64_bits e.observed_at_ms),
  length-to_be_bytes 8 (i64_bits e.expires_at_ms),
)

values-injective : (e f : SourceEnvelope) → IsTyped e → IsTyped f → values e ≡ values f → e ≡ f
values-injective e f h k l =
    let mechanism : e.mechanism ≡ f.mechanism = cc l in
    let issuer : e.issuer_key_id ≡ f.issuer_key_id = cc l in
    let manifest : e.trust_manifest_hash ≡ f.trust_manifest_hash = cc l in
    let account : e.account_binding_commitment ≡ f.account_binding_commitment = cc l in
    let batch : e.batch_commitment ≡ f.batch_commitment = cc l in
    let raw : e.raw_evidence_root ≡ f.raw_evidence_root = cc l in
    let normalized : e.normalized_root ≡ f.normalized_root = cc l in
    let coverage : e.coverage_manifest_hash ≡ f.coverage_manifest_hash = cc l in
    let starts : i64_be_bytes e.period_start_ms ≡ i64_be_bytes f.period_start_ms = cc l in
    let ends : i64_be_bytes e.period_end_ms ≡ i64_be_bytes f.period_end_ms = cc l in
    let observed : i64_be_bytes e.observed_at_ms ≡ i64_be_bytes f.observed_at_ms = cc l in
    let expires : i64_be_bytes e.expires_at_ms ≡ i64_be_bytes f.expires_at_ms = cc l in
    let policy : e.policy_hash ≡ f.policy_hash = cc l in
    let environment : e.environment ≡ f.environment = cc l in
    let session : e.source_session_binding ≡ f.source_session_binding = cc l in
    let start =
      i64_be_bytes-injective e.period_start_ms f.period_start_ms h.times.0 k.times.0 starts in
    let end = i64_be_bytes-injective e.period_end_ms f.period_end_ms h.times.1 k.times.1 ends in
    let seen =
      i64_be_bytes-injective e.observed_at_ms f.observed_at_ms h.times.2 k.times.2 observed in
    let expiry =
      i64_be_bytes-injective e.expires_at_ms f.expires_at_ms h.times.3 k.times.3 expires in
    λ j. record {
      mechanism = mechanism j;
      issuer_key_id = issuer j;
      trust_manifest_hash = manifest j;
      account_binding_commitment = account j;
      batch_commitment = batch j;
      raw_evidence_root = raw j;
      normalized_root = normalized j;
      coverage_manifest_hash = coverage j;
      period_start_ms = start j;
      period_end_ms = end j;
      observed_at_ms = seen j;
      expires_at_ms = expiry j;
      policy_hash = policy j;
      environment = environment j;
      source_session_binding = session j;
    }

-- Two envelopes whose fields are as their types say and whose canonical bytes are equal are equal
-- in every field.
pub canonical_bytes-injective :
    (e f : SourceEnvelope) → IsTyped e → IsTyped f → canonical_bytes e ≡ canonical_bytes f → e ≡ f
canonical_bytes-injective e f h k same =
    let framed : encode domains (values e) ≡ encode domains (values f) =
      sym (
        canonical_bytes-eq-write_all e
        ∙ write_all-encode [] domains (values e) (values-IsShort e h))
      ∙ same
      ∙ (canonical_bytes-eq-write_all f
          ∙ write_all-encode [] domains (values f) (values-IsShort f k)) in
    values-injective e f h k (
      encode-injective domains (values e) (values f) refl refl (values-IsShort e h)
        (values-IsShort f k) framed)

-- Two envelopes with one digest are equal, or two byte strings with one SHA-256 digest have been
-- found.
pub digest_binding :
    (sha : Sha256) (e f : SourceEnvelope)
    → IsTyped e
    → IsTyped f
    → digest sha e ≡ digest sha f
    → (e ≡ f) ⊎ Collision sha
unfolding digest
digest_binding sha e f h k same = elim (dec_bytes (canonical_bytes e) (canonical_bytes f)) [
  | yes equal ↦ inl (canonical_bytes-injective e f h k equal)
  | no differ ↦ inr (record {
    left = canonical_bytes e;
    right = canonical_bytes f;
    differ = differ;
    collide = same;
  })
]
