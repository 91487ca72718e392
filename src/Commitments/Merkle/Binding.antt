-- ===== src/Commitments/Merkle/Binding.antt =====
-- The root of `build` (crates/commitments/src/merkle.rs) and the list of leaves.
use linvesther.Prelude.{
  ℕ, ◌+◌, ◌/◌, ◌<◌, ◌^◌, ◌≡◌, ◌⊎◌, inl, inr, ◌∙◌, refl, sym, ap, List, [], ◌∷◌, some, ok, length,
  arith, All,
}
use linvesther.Prelude.Bytes.{Bytes}
use linvesther.Commitments.Hash.{Sha256, Collision}
use linvesther.Commitments.Merkle.{MerkleTree, last_level, build}
use linvesther.Commitments.Merkle.Nodes.{IsDigest, node_hash_binding, external_root_binding}
use linvesther.Commitments.Merkle.Levels.{IsTower, Pairs, length-Pairs, build_ok}

module _ (sha : Sha256) where
  -- Two levels of one length with the same parents are the same.
  Pairs-binding :
      (l m next : List Bytes)
      → length l ≡ length m
      → Pairs sha l next
      → Pairs sha m next
      → (l ≡ m) ⊎ Collision sha
  Pairs-binding [] [] next n p q = inl refl
  Pairs-binding [] (c ∷ m) next n p q = absurd (omega arith)
  Pairs-binding (a ∷ l) [] next n p q = absurd (omega arith)
  Pairs-binding (a ∷ []) (c ∷ d ∷ m) next n p q = absurd (omega arith)
  Pairs-binding (a ∷ b ∷ l) (c ∷ []) next n p q = absurd (omega arith)
  Pairs-binding (a ∷ []) (c ∷ []) [] n p q = absurd p
  Pairs-binding (a ∷ []) (c ∷ []) (x ∷ y ∷ next) n p q = absurd p
  Pairs-binding (a ∷ b ∷ l) (c ∷ d ∷ m) [] n p q = absurd p
  Pairs-binding (a ∷ []) (c ∷ []) (x ∷ []) n p q = elim (node_hash_binding sha a a c c x p q) [
    | inl same ↦ inl (cc same.0)
    | inr found ↦ inr found
  ]
  Pairs-binding (a ∷ b ∷ l) (c ∷ d ∷ m) (x ∷ next) n p q =
      elim (node_hash_binding sha a b c d x p.0 q.0) [
        | inr found ↦ inr found
        | inl same ↦ elim (Pairs-binding l m next (omega arith) p.1 q.1) [
          | inl rest ↦ inl (cc (same.0, same.1))
          | inr found ↦ inr found
        ]
      ]

  IsTower-binding :
      (l m : List Bytes) (levels levels' : List (List Bytes)) (top : Bytes)
      → length l ≡ length m
      → IsTower sha l levels
      → IsTower sha m levels'
      → last_level (l ∷ levels) ≡ some (top ∷ [])
      → last_level (m ∷ levels') ≡ some (top ∷ [])
      → (l ≡ m) ⊎ Collision sha
  unfolding last_level
  IsTower-binding l m [] [] top n t t' e e' = inl cc
  IsTower-binding l m [] (next' ∷ levels') top n t t' e e' = absurd (omega arith)
  IsTower-binding l m (next ∷ levels) [] top n t t' e e' = absurd (omega arith)
  IsTower-binding l m (next ∷ levels) (next' ∷ levels') top n (_, p, t) (_, p', t') e e' =
      let half = length-Pairs sha l next p in
      let half' = length-Pairs sha m next' p' in
      elim (IsTower-binding next next' levels levels' top
        (half ∙ ap (λ (k : ℕ). (k + 1) / 2) n ∙ sym half') t t' e e') [
          | inl same ↦ Pairs-binding l m next n p (rw same p')
          | inr found ↦ inr found
        ]

  -- Two non-empty lists of 32-byte leaves, of `u64` lengths, whose trees have one root are the same
  -- list: no leaf can be added, removed, changed or moved; or else two byte strings with one
  -- SHA-256 digest have been found.
  pub build_binding :
      (l m : List Bytes) (s t : MerkleTree)
      → 0 < length l
      → 0 < length m
      → All IsDigest l
      → All IsDigest m
      → length l < 2 ^ 64
      → length m < 2 ^ 64
      → build sha l ≡ ok s
      → build sha m ≡ ok t
      → s.root ≡ t.root
      → (l ≡ m) ⊎ Collision sha
  build_binding l m s t pl pm dl dm sl sm bs bt roots =
      let (levels, top, root, built, tower, last, hashed) = build_ok sha l pl dl in
      let (levels', top', root', built', tower', last', hashed') = build_ok sha m pm dm in
      let st : record { root = root; count = length l; levels = l ∷ levels } ≡ s = cc in
      let st' : record { root = root'; count = length m; levels = m ∷ levels' } ≡ t = cc in
      let same : root ≡ root' =
        ap (λ (x : MerkleTree). x.root) st ∙ roots ∙ sym (ap (λ (x : MerkleTree). x.root) st') in
      elim (external_root_binding sha (length l) (length m) top top' root' sl sm (rw same at hashed)
        hashed') [
          | inr found ↦ inr found
          | inl (counts, tops) ↦
              IsTower-binding l m levels levels' top counts tower tower' last (rw (← tops) at last')
        ]
