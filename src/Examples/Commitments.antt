-- ===== src/Examples/Commitments.antt =====
-- Commitments and a tree of three leaves, under a hash function that gives 32 copies of the length.
use linvesther.Prelude.{
  ℕ, ◌≡◌, ◌⊎◌, refl, [], ◌∷◌, List, ◌++◌, some, Result, ok, arith, get_elem?, replicate, length,
}
use linvesther.Prelude.Bytes.{Bytes, bytes_eq, to_be_bytes}
use linvesther.Commitments.Hash.{Collision, length_hash}
use linvesther.Commitments.Framing.{frame_bytes, frame_hash}
use linvesther.Commitments.Commitment.{data_commitment}
use linvesther.Commitments.Commitment.Binding.{data_commitment_binding}
use linvesther.Commitments.Merkle.{
  MerkleTree, InclusionProof, node_hash, build, prove, verify_inclusion,
}
use linvesther.Commitments.Merkle.Sound.{verify_inclusion_sound}
use linvesther.Commitments.Merkle.Complete.{prove-verify_inclusion}
use linvesther.Commitments.Merkle.Binding.{build_binding}

abbrev tag : Bytes
tag = 65 ∷ []

abbrev framed : Bytes
framed = (to_be_bytes 4 1 ++ tag) ++ (to_be_bytes 8 2 ++ (7 ∷ 8 ∷ []))

frame_bytes_one : frame_bytes tag ((7 ∷ 8 ∷ []) ∷ []) ≡ ok framed
unfolding frame_bytes
frame_bytes_one = refl

-- The value is its own encoding.
abbrev encode : Bytes → Result Bytes Bytes
encode value = ok value

commit_value :
    data_commitment length_hash encode (replicate 32 5) (123 ∷ 125 ∷ []) ≡ ok (replicate 32 65)
unfolding data_commitment frame_hash to_be_bytes
commit_value = refl

data_commitment_binding_example :
    ◌≡◌ {A = Bytes} (replicate 32 5) (replicate 32 5)
      × (encode (123 ∷ 125 ∷ []) ≡ encode (123 ∷ 125 ∷ []))
    ⊎ Collision length_hash
data_commitment_binding_example =
    data_commitment_binding length_hash encode (replicate 32 5) (replicate 32 5) (123 ∷ 125 ∷ [])
      (123 ∷ 125 ∷ []) (replicate 32 65) commit_value commit_value

abbrev leaf : ℕ → Bytes
leaf n = replicate 32 n

abbrev leaves : List Bytes
leaves = leaf 1 ∷ leaf 2 ∷ leaf 3 ∷ []

abbrev node : Bytes
node = replicate 32 95

abbrev tree : MerkleTree
tree = record {
  root = replicate 32 71;
  count = 3;
  levels = leaves ∷ (node ∷ node ∷ []) ∷ (node ∷ []) ∷ [];
}

build-tree : build length_hash leaves ≡ ok tree
unfolding build frame_hash to_be_bytes
build-tree = refl

abbrev proof : InclusionProof
proof = record { index = 2; count = 3; siblings = leaf 3 ∷ node ∷ [] }

prove_third : prove tree 2 ≡ ok proof
unfolding prove
prove_third = refl

verify_third : verify_inclusion length_hash (leaf 3) proof tree.root ≡ ok tt
unfolding verify_inclusion node_hash frame_hash to_be_bytes bytes_eq
verify_third = refl

verify_inclusion_sound_example :
    (proof.count ≡ length leaves) × (get_elem? leaves 2 ≡ some (leaf 3)) ⊎ Collision length_hash
verify_inclusion_sound_example =
    verify_inclusion_sound length_hash leaves tree (leaf 3) proof (omega arith)
      (refl, (refl, (refl, tt))) (omega arith) (omega arith) build-tree verify_third

prove-verify_inclusion_example :
    (l : Bytes) × (p : InclusionProof) × (get_elem? leaves 2 ≡ some l)
    × (prove tree 2 ≡ ok p)
    × (p.index ≡ 2)
    × (verify_inclusion length_hash l p tree.root ≡ ok tt)
prove-verify_inclusion_example =
    prove-verify_inclusion length_hash leaves tree 2 (refl, (refl, (refl, tt))) (omega arith)
      build-tree

build_binding_example : (leaves ≡ leaves) ⊎ Collision length_hash
build_binding_example =
    build_binding length_hash leaves leaves tree tree (omega arith) (omega arith)
      (refl, (refl, (refl, tt))) (refl, (refl, (refl, tt))) (omega arith) (omega arith) build-tree
      build-tree refl
