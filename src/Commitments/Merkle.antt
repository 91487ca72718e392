-- ===== src/Commitments/Merkle.antt =====
-- crates/commitments/src/merkle.rs: the Merkle tree, inclusion proofs and their verification.
pub mod Nodes
pub mod Levels
pub mod Sound
pub mod Complete
pub mod Binding
use linvesther.Prelude.{
  ℕ, zero, suc, ◌+◌, ◌-◌, ◌/◌, ◌%◌, List, [], ◌∷◌, Option, none, some, Result, ok, err, ◌>>=◌, ◌>>◌,
  raise_if, ok_or, map_err, length, get_elem?, is_empty, ltb, leb, ◌==◌, not, if◌then◌else◌,
}
use linvesther.Prelude.Bytes.{Bytes, bytes_eq, codes, to_be_bytes}
use linvesther.Commitments.Canonical.{CanonicalError, canonicalize_value}
use linvesther.Commitments.Hash.{Sha256}
use linvesther.Commitments.Framing.{FramingError, frame_hash}

abbrev pub leaf_tag : Bytes
leaf_tag = codes "LZK/leaf/v1"

abbrev pub node_tag : Bytes
node_tag = codes "LZK/node/v1"

abbrev pub tree_tag : Bytes
tree_tag = codes "LZK/tree/v1"

abbrev pub empty_tag : Bytes
empty_tag = codes "LZK/empty/v1"

-- The last two are no Rust values: `panicked` is a panic (an `expect`, an `unwrap` or an index out
-- of bounds), `stuck` a loop whose fuel ran out.
pub data MerkleError : Type 0 where
  canonical : CanonicalError → MerkleError
  framing : FramingError → MerkleError
  index_out_of_range : (index count : ℕ) → MerkleError
  invalid_sibling_count : (expected actual : ℕ) → MerkleError
  root_mismatch empty_tree : MerkleError
  panicked stuck : MerkleError

pub record InclusionProof : Type 0 where
  pub index : ℕ
  pub count : ℕ
  pub siblings : List Bytes

pub record MerkleTree : Type 0 where
  pub root : Bytes
  pub count : ℕ
  pub levels : List (List Bytes)

-- `levels.last().unwrap()`
unfoldable pub last_level : List (List Bytes) → Option (List Bytes)
last_level [] = none
last_level (level ∷ []) = some level
last_level (level ∷ next ∷ levels) = last_level (next ∷ levels)

-- `i` is even: its right neighbour, or itself at the end of an odd level; else its left one.
unfoldable pub sibling_index : ℕ → ℕ → ℕ
sibling_index i len = if i % 2 == 0 then (if ltb (i + 1) len then i + 1 else i) else i - 1

-- The loop over all levels but the last.
unfoldable pub siblings_of : List (List Bytes) → ℕ → Result MerkleError (List Bytes)
unfolding sibling_index
siblings_of [] i = ok []
siblings_of (top ∷ []) i = ok []
siblings_of (level ∷ next ∷ levels) i = do
  sibling ← ok_or (get_elem? level (sibling_index i (length level))) panicked
  siblings ← siblings_of (next ∷ levels) (i / 2)
  ok (sibling ∷ siblings)

unfoldable pub prove : MerkleTree → ℕ → Result MerkleError InclusionProof
unfolding siblings_of
prove tree index =
    if tree.count == 0
    then err empty_tree
    else if leb tree.count index
    then err (index_out_of_range index tree.count)
    else (do
      siblings ← siblings_of tree.levels index
      ok (record { index = index; count = tree.count; siblings = siblings }))

-- The loop of `expected_height`, on fuel: a level of `n` nodes is reduced to half of them.
unfoldable pub height_loop : ℕ → ℕ → ℕ → Result MerkleError ℕ
height_loop zero n height = err stuck
height_loop (suc fuel) n height =
    let rest = height_loop fuel ((n + 1) / 2) (height + 1) in if ltb 1 n then rest else ok height

unfoldable pub expected_height : ℕ → Result MerkleError ℕ
unfolding height_loop
expected_height count = if leb count 1 then ok 0 else height_loop count count 0

module _ (sha : Sha256) where
  unfoldable pub node_hash : Bytes → Bytes → Result MerkleError Bytes
  node_hash left right = map_err framing (frame_hash sha node_tag (left ∷ right ∷ []))

  unfoldable pub empty_top : Result MerkleError Bytes
  empty_top = map_err framing (frame_hash sha empty_tag [])

  unfoldable pub external_root : ℕ → Bytes → Result MerkleError Bytes
  external_root count top =
      map_err framing (frame_hash sha tree_tag (to_be_bytes 8 count ∷ top ∷ []))

  -- `.expect(…)`
  abbrev pub expect : Result MerkleError Bytes → Result MerkleError Bytes
  expect (ok h) = ok h
  expect (err e) = err panicked

  -- The loop takes two nodes at a time; the last of an odd number is paired with itself.
  unfoldable pub reduce_level : List Bytes → Result MerkleError (List Bytes)
  unfolding node_hash
  reduce_level [] = ok []
  reduce_level (left ∷ []) = do node ← expect (node_hash left left); ok (node ∷ [])
  reduce_level (left ∷ right ∷ level) = do
    node ← expect (node_hash left right)
    next ← reduce_level level
    ok (node ∷ next)

  -- The `while` loop of `build`, on fuel: the levels from this one up.
  unfoldable pub levels_loop : ℕ → List Bytes → Result MerkleError (List (List Bytes))
  unfolding reduce_level
  levels_loop zero level = err stuck
  levels_loop (suc fuel) level =
      let rest = reduce_level level >>= levels_loop fuel >>= λ levels. ok (level ∷ levels) in
      if ltb 1 (length level) then rest else ok (level ∷ [])

  unfoldable pub build : List Bytes → Result MerkleError MerkleTree
  unfolding levels_loop external_root empty_top last_level
  build leaves =
      if is_empty leaves
      then (do
        top ← empty_top
        root ← external_root 0 top
        ok (record { root = root; count = 0; levels = [] }))
      else (do
        levels ← levels_loop (length leaves) leaves
        last ← ok_or (last_level levels) panicked
        top ← ok_or (get_elem? last 0) panicked
        root ← external_root (length leaves) top
        ok (record { root = root; count = length leaves; levels = levels }))

  -- The loop over the siblings of a proof.
  unfoldable pub climb : Bytes → ℕ → List Bytes → Result MerkleError Bytes
  unfolding node_hash
  climb hash index [] = ok hash
  climb hash index (sibling ∷ siblings) = do
    parent ← if index % 2 == 0 then node_hash hash sibling else node_hash sibling hash
    climb parent (index / 2) siblings

  unfoldable pub verify_inclusion : Bytes → InclusionProof → Bytes → Result MerkleError (Unit {0})
  unfolding climb external_root expected_height
  verify_inclusion leaf proof expected_root =
      if proof.count == 0
      then err empty_tree
      else if leb proof.count proof.index
      then err (index_out_of_range proof.index proof.count)
      else (do
        height ← expected_height proof.count
        raise_if (not (length proof.siblings == height))
            (invalid_sibling_count height (length proof.siblings))
        hash ← climb leaf proof.index proof.siblings
        recomputed ← external_root proof.count hash
        raise_if (not (bytes_eq recomputed expected_root)) root_mismatch)

module _ (sha : Sha256) {Value : Type 0} (jcs : Value → Result Bytes Bytes) where
  unfoldable pub leaf_hash : Bytes → Value → Result MerkleError Bytes
  unfolding canonicalize_value
  leaf_hash salt value = do
    bytes ← map_err canonical (canonicalize_value jcs value)
    map_err framing (frame_hash sha leaf_tag (salt ∷ bytes ∷ []))
