-- ===== src/Verifier/Root/Binding.antt =====
-- Lemmas and a theorem on `verify_account_set_root` (crates/verifier/src/root.rs).
use linvesther.Prelude.{
  ◌≡◌, ◌⊎◌, inl, inr, refl, sym, ◌∙◌, ◌<◌, ◌^◌, List, [], ◌∷◌, map, length, length-map, All, arith,
  ok, >>=-eq-ok, not, raise_if, Bool, true, false,
}
use linvesther.Prelude.Bytes.{Bytes, bytes_eq, bytes_eq→eq, dec_bytes}
use linvesther.Commitments.Hash.{Sha256, Collision}
use linvesther.Commitments.Merkle.{MerkleTree, MerkleError, root_mismatch, build}
use linvesther.Commitments.Merkle.Nodes.{IsDigest}
use linvesther.Commitments.Merkle.Binding.{build_binding}
use linvesther.Verifier.Root.{member_leaf, verify_account_set_root}

matched : (b : Bool) → raise_if (not b) root_mismatch ≡ ok tt → b ≡ true
matched true e = refl
matched false e = cc

module _ (sha : Sha256) where
  member_leaf-IsDigest : (ids : List Bytes) → All IsDigest (map (member_leaf sha) ids)
  unfolding member_leaf
  member_leaf-IsDigest [] = tt
  member_leaf-IsDigest (id ∷ ids) = (sha.length-digest id, member_leaf-IsDigest ids)

  member_leaf_binding :
      (ids others : List Bytes)
      → map (member_leaf sha) ids ≡ map (member_leaf sha) others
      → (ids ≡ others) ⊎ Collision sha
  unfolding member_leaf
  member_leaf_binding [] [] e = inl refl
  member_leaf_binding [] (o ∷ others) e = cc
  member_leaf_binding (i ∷ ids) [] e = cc
  member_leaf_binding (i ∷ ids) (o ∷ others) e = elim (dec_bytes i o) [
    | no differ ↦ inr (record { left = i; right = o; differ = differ; collide = cc })
    | yes same ↦ elim (member_leaf_binding ids others cc) [
      | inl rest ↦ inl cc
      | inr found ↦ inr found
    ]
  ]

  -- The accepted root is that of the tree over the members.
  pub accepted :
      (root : Bytes) (ids : List Bytes)
      → verify_account_set_root sha root ids ≡ ok tt
      → (tree : MerkleTree) × (build sha (map (member_leaf sha) ids) ≡ ok tree) × (tree.root ≡ root)
  unfolding verify_account_set_root
  accepted root ids h =
      let (tree, built, checked) =
        >>=-eq-ok {E = MerkleError} (build sha (map (member_leaf sha) ids)) _ h in
      (tree, built, bytes_eq→eq tree.root root (matched (bytes_eq tree.root root) checked))

  -- Two non-empty lists of account identifiers (fewer than 2^64) that `verify_account_set_root`
  -- accepts against one root are the same list: no account was added, removed or reordered; or two
  -- byte strings with one SHA-256 digest have been found.
  verify_account_set_root_binding :
      (root : Bytes) (ids others : List Bytes)
      → 0 < length ids
      → 0 < length others
      → length ids < 2 ^ 64
      → length others < 2 ^ 64
      → verify_account_set_root sha root ids ≡ ok tt
      → verify_account_set_root sha root others ≡ ok tt
      → (ids ≡ others) ⊎ Collision sha
  verify_account_set_root_binding root ids others pi po si so a b =
      let (s, bs, rs) = accepted root ids a in
      let (t, bt, rt) = accepted root others b in
      let n = length-map ids (member_leaf sha) in
      let m = length-map others (member_leaf sha) in
      elim (build_binding sha (map (member_leaf sha) ids) (map (member_leaf sha) others) s t
        (omega arith) (omega arith) (member_leaf-IsDigest ids) (member_leaf-IsDigest others)
        (omega arith) (omega arith) bs bt (rs ∙ sym rt)) [
          | inl same ↦ member_leaf_binding ids others same
          | inr found ↦ inr found
        ]
