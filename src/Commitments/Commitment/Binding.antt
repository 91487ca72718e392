-- ===== src/Commitments/Commitment/Binding.antt =====
-- Lemmas and a theorem on `data_commitment` (crates/commitments/src/commitment.rs).
use linvesther.Prelude.{◌≡◌, ◌⊎◌, inl, inr, Result, ok, >>=-eq-ok, map_err, map_err-eq-ok, ◌∷◌, []}
use linvesther.Prelude.Bytes.{Bytes}
use linvesther.Commitments.Canonical.{canonicalize_value, jcs_failed}
use linvesther.Commitments.Hash.{Sha256, Collision}
use linvesther.Commitments.Framing.{frame_hash}
use linvesther.Commitments.Framing.Injective.{frame_hash_binding}
use linvesther.Commitments.Commitment.{
  CommitmentError, canonical, framing, data_commitment_tag, data_commitment,
}

module _ (sha : Sha256) {Value : Type 0} (jcs : Value → Result Bytes Bytes) where
  data_commitment_parts :
      (salt : Bytes) (value : Value) {c : Bytes}
      → data_commitment sha jcs salt value ≡ ok c
      → (bytes : Bytes) × (jcs value ≡ ok bytes)
        × (frame_hash sha data_commitment_tag (salt ∷ bytes ∷ []) ≡ ok c)
  unfolding data_commitment canonicalize_value
  data_commitment_parts salt value h =
      let (bytes, encoded, framed) =
        >>=-eq-ok {E = CommitmentError} (map_err canonical (canonicalize_value jcs value)) _ h in
      (
        bytes,
        map_err-eq-ok jcs_failed (jcs value)
            (map_err-eq-ok canonical (canonicalize_value jcs value) encoded),
        map_err-eq-ok framing (frame_hash sha data_commitment_tag (salt ∷ bytes ∷ [])) framed,
      )

  -- Two commitments that are equal have the same salt and values with the same canonical
  -- encoding, or two byte strings with one SHA-256 digest have been found: a commitment cannot be
  -- opened to another salt or another encoding.
  pub data_commitment_binding :
      (s t : Bytes) (v w : Value) (c : Bytes)
      → data_commitment sha jcs s v ≡ ok c
      → data_commitment sha jcs t w ≡ ok c
      → (s ≡ t) × (jcs v ≡ jcs w) ⊎ Collision sha
  data_commitment_binding s t v w c p q =
      let (a, encoded_a, framed_a) = data_commitment_parts s v p in
      let (b, encoded_b, framed_b) = data_commitment_parts t w q in
      elim (frame_hash_binding sha data_commitment_tag data_commitment_tag (s ∷ a ∷ []) (t ∷ b ∷ [])
        c framed_a framed_b) [ inl same ↦ inl (cc same.1, cc same.1) | inr found ↦ inr found ]
