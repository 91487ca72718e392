-- ===== src/Commitments/Merkle/Nodes.antt =====
-- Lemmas on the hashes of nodes and roots (crates/commitments/src/merkle.rs).
use linvesther.Prelude.{
  ℕ, ◌^◌, ◌<◌, ◌≡◌, ◌⊎◌, inl, inr, refl, [], ◌∷◌, ok, map_err-eq-ok, length, arith,
}
use linvesther.Prelude.Bytes.{Bytes, to_be_bytes, length-to_be_bytes, to_be_bytes-injective}
use linvesther.Commitments.Hash.{Sha256, Collision}
use linvesther.Commitments.Framing.{frame_hash}
use linvesther.Commitments.Framing.Injective.{frame_hash_ok, frame_hash_binding}
use linvesther.Commitments.Merkle.{framing, node_tag, tree_tag, node_hash, external_root}

-- A `[u8; 32]`.
abbrev pub IsDigest : Bytes → Type 0
IsDigest b = length b ≡ 32

module _ (sha : Sha256) where
  -- The digest of two digests.
  pub node_hash_ok :
      (l r : Bytes)
      → IsDigest l
      → IsDigest r
      → (h : Bytes) × (node_hash sha l r ≡ ok h) × IsDigest h
  unfolding node_hash
  node_hash_ok l r hl hr =
      let (b, framed) = frame_hash_ok sha node_tag (l ∷ r ∷ []) (omega arith) (omega arith) in
      (sha.digest b, rw framed refl, sha.length-digest b)

  pub external_root_ok :
      (count : ℕ) (top : Bytes) → IsDigest top → (h : Bytes) × (external_root sha count top ≡ ok h)
  unfolding external_root
  external_root_ok count top h =
      let (b, framed) =
        frame_hash_ok sha tree_tag (to_be_bytes 8 count ∷ top ∷ []) (omega arith)
          (omega (arith, length-to_be_bytes 8 count)) in
      (sha.digest b, rw framed refl)

  -- Two calls of `node_hash` with one result have the same children in the same order.
  pub node_hash_binding :
      (a b c d : Bytes) (h : Bytes)
      → node_hash sha a b ≡ ok h
      → node_hash sha c d ≡ ok h
      → (a ≡ c) × (b ≡ d) ⊎ Collision sha
  unfolding node_hash
  node_hash_binding a b c d h p q =
      elim (frame_hash_binding sha node_tag node_tag (a ∷ b ∷ []) (c ∷ d ∷ []) h
        (map_err-eq-ok framing (frame_hash sha node_tag (a ∷ b ∷ [])) p)
        (map_err-eq-ok framing (frame_hash sha node_tag (c ∷ d ∷ [])) q)) [
          | inl same ↦ inl (cc same.1, cc same.1)
          | inr found ↦ inr found
        ]

  -- The external root binds the number of leaves and the top.
  pub external_root_binding :
      (m n : ℕ) (s t : Bytes) (h : Bytes)
      → m < 2 ^ 64
      → n < 2 ^ 64
      → external_root sha m s ≡ ok h
      → external_root sha n t ≡ ok h
      → (m ≡ n) × (s ≡ t) ⊎ Collision sha
  unfolding external_root
  external_root_binding m n s t h hm hn p q =
      elim (frame_hash_binding sha tree_tag tree_tag (to_be_bytes 8 m ∷ s ∷ [])
        (to_be_bytes 8 n ∷ t ∷ []) h
        (map_err-eq-ok framing (frame_hash sha tree_tag (to_be_bytes 8 m ∷ s ∷ [])) p)
        (map_err-eq-ok framing (frame_hash sha tree_tag (to_be_bytes 8 n ∷ t ∷ [])) q)) [
          | inl same ↦ inl (to_be_bytes-injective 8 m n hm hn (cc same.1), cc same.1)
          | inr found ↦ inr found
        ]
