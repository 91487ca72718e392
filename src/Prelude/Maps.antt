-- ===== src/Prelude/Maps.antt =====
-- Ordered maps (`BTreeMap`) as lists of entries in the order of their keys, and the orders of keys.
use linvesther.Prelude.Tests.{ltb, ◌==◌, ==_iff, if◌then◌else◌, Bool-cases}
use linvesther.Prelude.Bytes.{Bytes, bytes_eq, bytes_eq→eq, bytes_eq_refl, bytes_eq_iff}
use Prim.Native.Nat.{ℕ}
use mathlib.Core.Path.{◌≡◌, refl, ap}
use mathlib.Core.Logic.{◌↔◌, inl, inr}
use mathlib.Core.Bool.{Bool, true, false, ◌&&◌, ◌||◌}
use mathlib.Core.List.{List, [], ◌∷◌}
use mathlib.Core.Option.{Option, none, some}

-- The equality and the order of a key type.
pub record Keys {ℓ} (K : Type ℓ) : Type ℓ where
  pub eqb : K → K → Bool
  pub lt : K → K → Bool
  pub eqb_iff : (a b : K) → (eqb a b ≡ true) ↔ (a ≡ b)

-- Strings compare byte by byte.
unfoldable pub bytes_lt : Bytes → Bytes → Bool
bytes_lt [] [] = false
bytes_lt [] (b ∷ m) = true
bytes_lt (a ∷ l) [] = false
bytes_lt (a ∷ l) (b ∷ m) = ltb a b || (a == b && bytes_lt l m)

instance abbrev pub bytes_keys : Keys Bytes
bytes_keys = record { eqb = bytes_eq; lt = bytes_lt; eqb_iff = bytes_eq_iff }

instance abbrev pub number_keys : Keys ℕ
number_keys = record { eqb = λ a b. a == b; lt = ltb; eqb_iff = ==_iff }

-- Pairs compare by the first part, then by the second.
abbrev pub pair_eqb : Bytes × Bytes → Bytes × Bytes → Bool
pair_eqb (a, b) (c, d) = bytes_eq a c && bytes_eq b d

abbrev pub pair_lt : Bytes × Bytes → Bytes × Bytes → Bool
pair_lt (a, b) (c, d) = bytes_lt a c || (bytes_eq a c && bytes_lt b d)

pub pair_eqb_iff : (p q : Bytes × Bytes) → (pair_eqb p q ≡ true) ↔ (p ≡ q)
pair_eqb_iff (a, b) (c, d) = (forth, back)
  where
    forth : pair_eqb (a, b) (c, d) ≡ true → ◌≡◌ {A = Bytes × Bytes} (a, b) (c, d)
    forth h = elim (Bool-cases (bytes_eq a c)) [
      | inr no_ ↦ let e = rw no_ at h in cc
      | inl same ↦
          let e = rw same at h in
          let p = bytes_eq→eq a c same in let q = bytes_eq→eq b d e in λ i. (p i, q i)
    ]

    back : ◌≡◌ {A = Bytes × Bytes} (a, b) (c, d) → pair_eqb (a, b) (c, d) ≡ true
    back h =
        let p : a ≡ c = ap (λ (x : Bytes × Bytes). x.0) h in
        let q : b ≡ d = ap (λ (x : Bytes × Bytes). x.1) h in
        rw (p, q, bytes_eq_refl c) (bytes_eq_refl d)

instance abbrev pub pair_keys : Keys (Bytes × Bytes)
pair_keys = record { eqb = pair_eqb; lt = pair_lt; eqb_iff = pair_eqb_iff }

module _ {ℓ κ} {K : Type ℓ} ⦃keys : Keys K⦄ {V : Type κ} where
  unfoldable pub get : K → List (K × V) → Option V
  get k [] = none
  get k ((j, v) ∷ m) = if keys.eqb j k then some v else get k m

  -- A new entry stands before the first greater key.
  unfoldable pub insert : K → V → List (K × V) → List (K × V)
  insert k v [] = (k, v) ∷ []
  insert k v ((j, w) ∷ m) =
      if keys.eqb j k
      then (k, v) ∷ m
      else if keys.lt k j
      then (k, v) ∷ (j, w) ∷ m
      else (j, w) ∷ insert k v m

  unfoldable pub contains_key : K → List (K × V) → Bool
  contains_key k [] = false
  contains_key k ((j, v) ∷ m) = keys.eqb j k || contains_key k m

  pub get-insert_same : (k : K) (v : V) (m : List (K × V)) → get k (insert k v m) ≡ some v
  unfolding get insert
  get-insert_same k v [] = rw ((keys.eqb_iff k k).1 refl) refl
  get-insert_same k v ((j, w) ∷ m) = elim (Bool-cases (keys.eqb j k)) [
    | inl same ↦ rw (same, (keys.eqb_iff k k).1 refl) refl
    | inr other ↦ elim (Bool-cases (keys.lt k j)) [
      | inl less ↦ rw (other, less, (keys.eqb_iff k k).1 refl) refl
      | inr more ↦ rw (other, more, other) (get-insert_same k v m)
    ]
  ]

  pub get-insert_other :
      (k i : K) (v : V) (m : List (K × V)) → keys.eqb k i ≡ false → get i (insert k v m) ≡ get i m
  unfolding get insert
  get-insert_other k i v [] h = rw h refl
  get-insert_other k i v ((j, w) ∷ m) h = elim (Bool-cases (keys.eqb j k)) [
    | inl same ↦
        let e = (keys.eqb_iff j k).0 same in
        let other : keys.eqb j i ≡ false = rw e h in rw (same, h, other) refl
    | inr other ↦ elim (Bool-cases (keys.lt k j)) [
      | inl less ↦ rw (other, less, h) refl
      | inr more ↦
          rw (other, more)
            (ap (λ o. if keys.eqb j i then some w else o) (get-insert_other k i v m h))
    ]
  ]

  unfoldable pub keys_of : List (K × V) → List K
  keys_of [] = []
  keys_of ((k, v) ∷ m) = k ∷ keys_of m

  pub get-contains_key :
      (k : K) (m : List (K × V)) {v : V} → get k m ≡ some v → contains_key k m ≡ true
  unfolding get contains_key
  get-contains_key k [] h = cc
  get-contains_key k ((j, w) ∷ m) h = elim (Bool-cases (keys.eqb j k)) [
    | inl same ↦ rw same refl
    | inr other ↦ rw other (get-contains_key k m (rw other at h))
  ]
