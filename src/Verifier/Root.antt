-- ===== src/Verifier/Root.antt =====
-- crates/verifier/src/root.rs: the root over the public account identifiers.
pub mod Binding
use linvesther.Prelude.{List, map, Result, ok, err, ◌>>=◌, raise_if, not}
use linvesther.Prelude.Bytes.{Bytes, bytes_eq}
use linvesther.Commitments.Hash.{Sha256}
use linvesther.Commitments.Merkle.{MerkleError, root_mismatch, build}

module _ (sha : Sha256) where
  unfoldable pub member_leaf : Bytes → Bytes
  member_leaf account_id = sha.digest account_id

  unfoldable pub verify_account_set_root : Bytes → List Bytes → Result MerkleError (Unit {0})
  unfolding member_leaf
  verify_account_set_root claimed_root member_ids = do
    tree ← build sha (map member_leaf member_ids)
    raise_if (not (bytes_eq tree.root claimed_root)) root_mismatch
