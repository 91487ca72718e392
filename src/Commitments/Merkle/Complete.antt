-- ===== src/Commitments/Merkle/Complete.antt =====
-- `prove` followed by `verify_inclusion` (crates/commitments/src/merkle.rs).
use linvesther.Prelude.{
  ℕ, ◌/◌, ◌<◌, ◌≡◌, refl, List, [], ◌∷◌, some, ok, true, false, length, get_elem?, arith, All, ◌==◌,
  lt→leb_false,
}
use linvesther.Prelude.Bytes.{Bytes, bytes_eq_refl}
use linvesther.Commitments.Hash.{Sha256}
use linvesther.Commitments.Merkle.{
  MerkleTree, InclusionProof, last_level, siblings_of, prove, climb, build, verify_inclusion,
}
use linvesther.Commitments.Merkle.Nodes.{IsDigest}
use linvesther.Commitments.Merkle.Levels.{
  IsTower, Pairs-sibling, length-Pairs, build_ok, expected_height_tower,
}

module _ (sha : Sha256) where
  -- The siblings that `prove` collects lead from the node to the top.
  climb_complete :
      (level : List Bytes) (levels : List (List Bytes)) (i : ℕ) (top : Bytes)
      → IsTower sha level levels
      → last_level (level ∷ levels) ≡ some (top ∷ [])
      → i < length level
      → (a : Bytes) × (siblings : List Bytes) × (get_elem? level i ≡ some a)
        × (siblings_of (level ∷ levels) i ≡ ok siblings)
        × (length siblings ≡ length levels)
        × (climb sha a i siblings ≡ ok top)
  unfolding climb last_level siblings_of
  climb_complete level [] i top t last lt =
      let l : level ≡ top ∷ [] = cc in
      let first : i ≡ 0 = omega arith in (top, [], rw (l, first) refl, refl, refl, refl)
  climb_complete level (next ∷ levels) i top (many, pairs, t) last lt =
      let shorter = length-Pairs sha level next pairs in
      let (a, s, p, at_i, at_s, at_p, hashed) = Pairs-sibling sha level next i pairs lt in
      let (p', siblings, at_p', collected, n, climbed) =
        climb_complete next levels (i / 2) top t last (omega arith) in
      let same : p' ≡ p = cc in
      (a, s ∷ siblings, at_i, rw (at_s, collected) refl, omega arith, rw (hashed, ← same) climbed)

  -- For leaves that are 32-byte digests and any index below their number, `prove` on the tree that
  -- `build` made gives a proof for that index, and `verify_inclusion` accepts it for the leaf that
  -- stands there, against the tree's root.
  pub prove-verify_inclusion :
      (leaves : List Bytes) (tree : MerkleTree) (i : ℕ)
      → All IsDigest leaves
      → i < length leaves
      → build sha leaves ≡ ok tree
      → (leaf : Bytes) × (proof : InclusionProof) × (get_elem? leaves i ≡ some leaf)
        × (prove tree i ≡ ok proof)
        × (proof.index ≡ i)
        × (verify_inclusion sha leaf proof tree.root ≡ ok tt)
  unfolding prove verify_inclusion
  prove-verify_inclusion leaves tree i digests lt built =
      let (levels, top, root, built', tower, last, hashed) =
        build_ok sha leaves (omega arith) digests in
      let stored : record { root = root; count = length leaves; levels = leaves ∷ levels } ≡ tree =
        cc in
      let (leaf, siblings, here, collected, n, climbed) =
        climb_complete leaves levels i top tower last lt in
      let some_leaf : (length leaves == 0) ≡ false = ground arith in
      let inside = lt→leb_false i (length leaves) lt in
      let right : (length siblings == length levels) ≡ true = ground arith in
      rw (← stored) (
        leaf,
        record { index = i; count = length leaves; siblings = siblings },
        here,
        rw (some_leaf, inside, collected) refl,
        refl,
        rw
            (
              some_leaf,
              inside,
              expected_height_tower sha leaves levels tower,
              right,
              climbed,
              hashed,
              bytes_eq_refl root,
            )
            refl,
      )
