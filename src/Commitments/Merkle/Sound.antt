-- ===== src/Commitments/Merkle/Sound.antt =====
-- `verify_inclusion` against the root of `build` (crates/commitments/src/merkle.rs).
use linvesther.Prelude.{
  ℕ, zero, suc, ◌/◌, ◌%◌, ◌<◌, ◌^◌, ◌≡◌, ◌⊎◌, inl, inr, ◌∙◌, refl, sym, ap, List, [], ◌∷◌, some, ok,
  >>=-eq-ok, raise_if, raise_if-eq-ok, true, false, Bool, length, get_elem?, arith, All, ◌==◌, leb,
  not, Bool-cases,
}
use linvesther.Prelude.Bytes.{Bytes, bytes_eq, bytes_eq→eq}
use linvesther.Commitments.Hash.{Sha256, Collision}
use linvesther.Commitments.Merkle.{
  root_mismatch, invalid_sibling_count, MerkleTree, InclusionProof, last_level, climb, build,
  external_root, expected_height, verify_inclusion,
}
use linvesther.Commitments.Merkle.Nodes.{IsDigest, node_hash_binding, external_root_binding}
use linvesther.Commitments.Merkle.Levels.{
  IsTower, parent_hash, Pairs-sibling, length-Pairs, build_ok, expected_height_tower,
}

matched : (b : Bool) → raise_if (not b) root_mismatch ≡ ok tt → b ≡ true
matched true h = refl
matched false h = cc

module _ (sha : Sha256) where
  parent_hash_binding :
      (i : ℕ) (a s b t p : Bytes)
      → parent_hash sha i a s ≡ ok p
      → parent_hash sha i b t ≡ ok p
      → (a ≡ b) ⊎ Collision sha
  parent_hash_binding i a s b t p e f = elim (Bool-cases (i % 2 == 0)) [
    | inl even ↦ elim (node_hash_binding sha a s b t p (rw even at e) (rw even at f)) [
      | inl same ↦ inl same.0
      | inr found ↦ inr found
    ]
    | inr odd ↦ elim (node_hash_binding sha s a t b p (rw odd at e) (rw odd at f)) [
      | inl same ↦ inl same.1
      | inr found ↦ inr found
    ]
  ]

  -- Climbing from a hash to the top of a tower shows that the hash stands in the first level.
  climb_sound :
      (level : List Bytes) (levels : List (List Bytes)) (siblings : List Bytes) (i : ℕ)
      (h top : Bytes)
      → IsTower sha level levels
      → last_level (level ∷ levels) ≡ some (top ∷ [])
      → length siblings ≡ length levels
      → i < length level
      → climb sha h i siblings ≡ ok top
      → (get_elem? level i ≡ some h) ⊎ Collision sha
  unfolding climb last_level
  climb_sound level [] (s ∷ siblings) i h top t last n lt e = absurd (omega arith)
  climb_sound level (next ∷ levels) [] i h top t last n lt e = absurd (omega arith)
  climb_sound level [] [] i h top t last n lt e = inl (first level i t last lt)
    where
      first :
          (l : List Bytes) (j : ℕ)
          → length l ≡ 1
          → some l ≡ some (top ∷ [])
          → j < length l
          → get_elem? l j ≡ some h
      first l zero one same below = let found : l ≡ top ∷ [] = cc in rw found (cc)
      first l (suc j) one same below = absurd (omega arith)
  climb_sound level (next ∷ levels) (s ∷ siblings) i h top (many, pairs, t) last n lt e =
      let (p, hashed, up) = >>=-eq-ok (parent_hash sha i h s) _ e in
      let (a, sib, q, at_i, at_s, at_q, hashed') = Pairs-sibling sha level next i pairs lt in
      let shorter = length-Pairs sha level next pairs in
      elim (climb_sound next levels siblings (i / 2) p top t last (omega arith) (omega arith) up) [
        | inl at_p ↦
            let same : q ≡ p = cc in
            elim (parent_hash_binding i a sib h s p (rw same at hashed') hashed) [
              | inl found ↦ inl (at_i ∙ ap some found)
              | inr collision ↦ inr collision
            ]
        | inr collision ↦ inr collision
      ]

  -- What an accepted proof has passed.
  accepted :
      (leaf : Bytes) (proof : InclusionProof) (root : Bytes)
      → verify_inclusion sha leaf proof root ≡ ok tt
      → (height : ℕ) × (hash : Bytes) × (proof.index < proof.count)
        × (expected_height proof.count ≡ ok height)
        × (length proof.siblings ≡ height)
        × (climb sha leaf proof.index proof.siblings ≡ ok hash)
        × (external_root sha proof.count hash ≡ ok root)
  unfolding verify_inclusion
  accepted leaf proof root e = elim (Bool-cases (proof.count == 0)) [
    | inl zero_count ↦ absurd (let f = rw zero_count at e in cc)
    | inr some_count ↦ elim (Bool-cases (leb proof.count proof.index)) [
      | inl past ↦ absurd (let f = rw (some_count, past) at e in cc)
      | inr inside ↦
          let f = rw (some_count, inside) at e in
          let (height, counted, f₁) = >>=-eq-ok (expected_height proof.count) _ f in
          let (n, f₂) =
            raise_if-eq-ok (not (length proof.siblings == height))
              (invalid_sibling_count height (length proof.siblings)) _ f₁ in
          let (hash, climbed, f₃) = >>=-eq-ok (climb sha leaf proof.index proof.siblings) _ f₂ in
          let (r, hashed, f₄) = >>=-eq-ok (external_root sha proof.count hash) _ f₃ in
          (
            height,
            hash,
            ground arith,
            counted,
            ground arith,
            climbed,
            hashed ∙ ap ok (bytes_eq→eq r root (matched (bytes_eq r root) f₄)),
          )
    ]
  ]

  -- For leaves that are 32-byte digests, and numbers of leaves that are `u64`, a proof that
  -- `verify_inclusion` accepts against the root of the tree that `build` made of the leaves names
  -- the tree's own number of leaves, and the leaf that it is for stands in the list at the index
  -- that it names; or else two byte strings with one SHA-256 digest have been found.
  pub verify_inclusion_sound :
      (leaves : List Bytes) (tree : MerkleTree) (leaf : Bytes) (proof : InclusionProof)
      → 0 < length leaves
      → All IsDigest leaves
      → length leaves < 2 ^ 64
      → proof.count < 2 ^ 64
      → build sha leaves ≡ ok tree
      → verify_inclusion sha leaf proof tree.root ≡ ok tt
      → (proof.count ≡ length leaves) × (get_elem? leaves proof.index ≡ some leaf) ⊎ Collision sha
  verify_inclusion_sound leaves tree leaf proof pos digests small small' built e =
      let (levels, top, root, built', tower, last, hashed) = build_ok sha leaves pos digests in
      let stored : record { root = root; count = length leaves; levels = leaves ∷ levels } ≡ tree =
        cc in
      let same : root ≡ tree.root = ap (λ (t : MerkleTree). t.root) stored in
      let (height, hash, inside, counted, n, climbed, hashed') = accepted leaf proof tree.root e in
      elim (external_root_binding sha (length leaves) proof.count top hash tree.root small small'
        (rw same at hashed) hashed') [
          | inr found ↦ inr found
          | inl (counts, tops) ↦
              let height_of : height ≡ length levels =
                let c = expected_height_tower sha leaves levels tower in cc in
              elim (climb_sound leaves levels proof.siblings proof.index leaf top tower last
                (n ∙ height_of) (omega arith) (rw (← tops) at climbed)) [
                  | inl here ↦ inl (sym counts, here)
                  | inr found ↦ inr found
                ]
        ]
