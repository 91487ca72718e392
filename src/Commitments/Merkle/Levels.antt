-- ===== src/Commitments/Merkle/Levels.antt =====
-- Lemmas on the levels that `build` computes (crates/commitments/src/merkle.rs).
use linvesther.Prelude.{
  ℕ, zero, suc, ◌+◌, ◌/◌, ◌%◌, ◌<◌, ◌≤◌, ◌≡◌, inl, inr, ◌∙◌, refl, ap, List, [], ◌∷◌, some, Result,
  ok, length, get_elem?, arith, All, ltb, lt→ltb, ltb→lt, lt→leb_false, ◌==◌, Bool-cases,
  if◌then◌else◌,
}
use linvesther.Prelude.Bytes.{Bytes}
use linvesther.Commitments.Hash.{Sha256}
use linvesther.Commitments.Merkle.{
  MerkleError, node_hash, sibling_index, reduce_level, levels_loop, last_level, height_loop,
  expected_height, build, external_root,
}
use linvesther.Commitments.Merkle.Nodes.{IsDigest, node_hash_ok, external_root_ok}

sibling_index-suc :
    (i n : ℕ) → sibling_index (suc (suc i)) (suc (suc n)) ≡ suc (suc (sibling_index i n))
unfolding sibling_index
sibling_index-suc i n = ground arith

module _ (sha : Sha256) where
  -- `next` holds the hash of each pair of `level`, the last of an odd number paired with itself.
  abbrev pub Pairs : List Bytes → List Bytes → Type 0
  Pairs [] [] = Unit
  Pairs (a ∷ []) (p ∷ []) = node_hash sha a a ≡ ok p
  Pairs (a ∷ b ∷ level) (p ∷ next) = (node_hash sha a b ≡ ok p) × Pairs level next
  Pairs _ _ = ⊥

  pub reduce_level_ok :
      (level : List Bytes)
      → All IsDigest level
      → (next : List Bytes) × (reduce_level sha level ≡ ok next)
        × Pairs level next
        × All IsDigest next
  unfolding reduce_level
  reduce_level_ok [] h = ([], refl, tt, tt)
  reduce_level_ok (a ∷ []) h =
      let (p, hashed, size) = node_hash_ok sha a a h.0 h.0 in
      (p ∷ [], rw hashed refl, hashed, (size, tt))
  reduce_level_ok (a ∷ b ∷ level) h =
      let (p, hashed, size) = node_hash_ok sha a b h.0 h.1.0 in
      let (next, reduced, pairs, sizes) = reduce_level_ok level h.1.1 in
      (p ∷ next, rw (hashed, reduced) refl, (hashed, pairs), (size, sizes))

  pub length-Pairs :
      (level next : List Bytes) → Pairs level next → length next ≡ (length level + 1) / 2
  length-Pairs [] [] h = omega arith
  length-Pairs [] (p ∷ next) h = absurd h
  length-Pairs (a ∷ []) [] h = absurd h
  length-Pairs (a ∷ []) (p ∷ []) h = omega arith
  length-Pairs (a ∷ []) (p ∷ q ∷ next) h = absurd h
  length-Pairs (a ∷ b ∷ level) [] h = absurd h
  length-Pairs (a ∷ b ∷ level) (p ∷ next) h = omega (arith, length-Pairs level next h.1)

  -- The parent that a node and its sibling have, in the order of their positions.
  abbrev pub parent_hash : ℕ → Bytes → Bytes → Result MerkleError Bytes
  parent_hash i a s = if i % 2 == 0 then node_hash sha a s else node_hash sha s a

  -- A node, its sibling in the level, and its parent in the next level.
  pub Pairs-sibling :
      (level next : List Bytes) (i : ℕ)
      → Pairs level next
      → i < length level
      → (a s p : Bytes) × (get_elem? level i ≡ some a)
        × (get_elem? level (sibling_index i (length level)) ≡ some s)
        × (get_elem? next (i / 2) ≡ some p)
        × (parent_hash i a s ≡ ok p)
  unfolding sibling_index
  Pairs-sibling [] next i h lt = absurd (omega arith)
  Pairs-sibling (a ∷ []) [] i h lt = absurd h
  Pairs-sibling (a ∷ []) (p ∷ q ∷ next) i h lt = absurd h
  Pairs-sibling (a ∷ b ∷ level) [] i h lt = absurd h
  Pairs-sibling (a ∷ []) (p ∷ []) zero h lt = (a, a, p, refl, refl, refl, h)
  Pairs-sibling (a ∷ []) (p ∷ []) (suc i) h lt = absurd (omega arith)
  Pairs-sibling (a ∷ b ∷ level) (p ∷ next) zero h lt =
      (a, b, p, refl, rw (lt→ltb 1 (suc (suc (length level))) (omega arith)) refl, refl, h.0)
  Pairs-sibling (a ∷ b ∷ level) (p ∷ next) (suc zero) h lt = (b, a, p, refl, refl, refl, h.0)
  Pairs-sibling (a ∷ b ∷ level) (p ∷ next) (suc (suc i)) h lt =
      let (x, s, q, at_i, at_s, at_q, hashed) = Pairs-sibling level next i h.1 (omega arith) in
      let half : suc (suc i) / 2 ≡ suc (i / 2) = omega arith in
      let parity : suc (suc i) % 2 ≡ i % 2 = omega arith in
      (x, s, q, at_i, rw (sibling_index-suc i (length level)) at_s, rw half at_q, rw parity hashed)

  -- The levels from one up to a single top.
  abbrev pub IsTower : List Bytes → List (List Bytes) → Type 0
  IsTower level [] = length level ≡ 1
  IsTower level (next ∷ levels) = (1 < length level) × Pairs level next × IsTower next levels

  -- The last level holds one digest.
  abbrev pub HasTop : List (List Bytes) → Type 0
  HasTop levels = (top : Bytes) × (last_level levels ≡ some (top ∷ [])) × IsDigest top

  single-HasTop : (level : List Bytes) → length level ≡ 1 → All IsDigest level → HasTop (level ∷ [])
  unfolding last_level
  single-HasTop [] e h = absurd (omega arith)
  single-HasTop (a ∷ []) e h = (a, refl, h.0)
  single-HasTop (a ∷ b ∷ level) e h = absurd (omega arith)

  pub levels_loop_ok :
      (fuel : ℕ) (level : List Bytes)
      → length level ≤ fuel
      → 0 < length level
      → All IsDigest level
      → (levels : List (List Bytes)) × (levels_loop sha fuel level ≡ ok (level ∷ levels))
        × IsTower level levels
        × HasTop (level ∷ levels)
  unfolding levels_loop last_level
  levels_loop_ok zero level le lt h = absurd (omega arith)
  levels_loop_ok (suc fuel) level le lt h = elim (Bool-cases (ltb 1 (length level))) [
    | inl more ↦
        let (next, reduced, pairs, sizes) = reduce_level_ok level h in
        let shorter = length-Pairs level next pairs in
        let many = ltb→lt 1 (length level) more in
        let (levels, looped, tower, top) =
          levels_loop_ok fuel next (omega arith) (omega arith) sizes in
        (next ∷ levels, rw (more, reduced, looped) refl, (many, pairs, tower), top)
    | inr done ↦
        let single : length level ≡ 1 = ground arith in
        ([], rw done refl, single, single-HasTop level single h)
  ]

  -- The loop of `expected_height` counts the levels above the first.
  pub height_loop_tower :
      (fuel : ℕ) (level : List Bytes) (levels : List (List Bytes)) (height : ℕ)
      → length level ≤ fuel
      → 0 < length level
      → IsTower level levels
      → height_loop fuel (length level) height ≡ ok (height + length levels)
  unfolding height_loop
  height_loop_tower zero level levels height le lt t = absurd (omega arith)
  height_loop_tower (suc fuel) level [] height le lt t = rw t (ap ok (omega arith))
  height_loop_tower (suc fuel) level (next ∷ levels) height le lt (many, pairs, t) =
      let shorter = length-Pairs level next pairs in
      rw (lt→ltb 1 (length level) many, ← shorter)
        (height_loop_tower fuel next levels (height + 1) (omega arith) (omega arith) t
          ∙ ap ok (omega arith))

  -- What `build` stores for leaves that are digests: a tower over them, and the root of its top.
  pub build_ok :
      (leaves : List Bytes)
      → 0 < length leaves
      → All IsDigest leaves
      → (levels : List (List Bytes)) × (top root : Bytes) × (build sha leaves
          ≡ ok (record { root = root; count = length leaves; levels = leaves ∷ levels }))
        × IsTower leaves levels
        × (last_level (leaves ∷ levels) ≡ some (top ∷ []))
        × (external_root sha (length leaves) top ≡ ok root)
  unfolding build
  build_ok [] lt h = absurd (omega arith)
  build_ok (leaf ∷ leaves) lt h =
      let all : List Bytes = leaf ∷ leaves in
      let (levels, looped, tower, (top, last, size)) =
        levels_loop_ok (length all) all (omega arith) (omega arith) h in
      let (root, hashed) = external_root_ok sha (length all) top size in
      (levels, top, root, rw (looped, last, hashed) refl, tower, last, hashed)

  pub expected_height_tower :
      (level : List Bytes) (levels : List (List Bytes))
      → IsTower level levels
      → expected_height (length level) ≡ ok (length levels)
  unfolding expected_height
  expected_height_tower level [] t = rw t refl
  expected_height_tower level (next ∷ levels) (many, pairs, t) =
      rw (lt→leb_false 1 (length level) many) (
        height_loop_tower (length level) level (next ∷ levels) 0 (omega arith) (omega arith)
          (many, pairs, t)
        ∙ ap ok (omega arith))
