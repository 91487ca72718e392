-- ===== src/Binance/Pnl/Assets.antt =====
-- The assets that `compute_pnl` lists (services/collector/binance/worker/src/pnl.rs).
use linvesther.Prelude.{
  ◌≡◌, inl, inr, ◌∙◌, refl, sym, ap, subst, List, [], ◌∷◌, ◌++◌, Bool, true, false, ◌||◌, not,
  Bool-cases, arith,
}
use linvesther.Prelude.Bytes.{Bytes, bytes_eq, bytes_eq→eq}
use linvesther.Prelude.Maps.{keys_of, contains_key, bytes_lt, bytes_keys}
use linvesther.Prelude.Sort.{sort_by, insert_sorted}
use linvesther.Domain.Decimal.{Decimals}
use linvesther.Binance.Pnl.{Lots, dedup_after, dedup, assets_of}

abbrev pub is_listed : Bytes → List Bytes → Bool
is_listed asset [] = false
is_listed asset (a ∷ assets) = bytes_eq a asset || is_listed asset assets

-- Every asset is above the one before it, so none is listed twice.
abbrev pub IsAscendingFrom : Bytes → List Bytes → Type 0
IsAscendingFrom low [] = Unit
IsAscendingFrom low (a ∷ assets) = (bytes_lt low a ≡ true) × IsAscendingFrom a assets

abbrev pub IsAscending : List Bytes → Type 0
IsAscending [] = Unit
IsAscending (a ∷ assets) = IsAscendingFrom a assets

abbrev IsSortedFrom : Bytes → List Bytes → Type 0
IsSortedFrom low [] = Unit
IsSortedFrom low (a ∷ assets) = (bytes_lt a low ≡ false) × IsSortedFrom a assets

abbrev IsSorted : List Bytes → Type 0
IsSorted [] = Unit
IsSorted (a ∷ assets) = IsSortedFrom a assets

bytes_lt_asym : (a b : Bytes) → bytes_lt a b ≡ true → bytes_lt b a ≡ false
unfolding bytes_lt
bytes_lt_asym [] [] h = cc
bytes_lt_asym [] (y ∷ b) h = refl
bytes_lt_asym (x ∷ a) [] h = cc
bytes_lt_asym (x ∷ a) (y ∷ b) h = ground (arith, bytes_lt_asym a b)

bytes_lt_total : (a b : Bytes) → bytes_eq a b ≡ false → bytes_lt b a ≡ false → bytes_lt a b ≡ true
unfolding bytes_lt bytes_eq
bytes_lt_total [] [] h g = cc
bytes_lt_total [] (y ∷ b) h g = refl
bytes_lt_total (x ∷ a) [] h g = cc
bytes_lt_total (x ∷ a) (y ∷ b) h g = ground (arith, bytes_lt_total a b)

-- The order that the assets are sorted by.
abbrev at_most : Bytes → Bytes → Bool
at_most a b = not (bytes_lt b a)

insert_sorted-IsSortedFrom :
    (low a : Bytes) (assets : List Bytes)
    → bytes_lt a low ≡ false
    → IsSortedFrom low assets
    → IsSortedFrom low (insert_sorted at_most a assets)
unfolding insert_sorted
insert_sorted-IsSortedFrom low a [] above sorted = (above, tt)
insert_sorted-IsSortedFrom low a (b ∷ assets) above (first, rest) =
    elim (Bool-cases (bytes_lt b a)) [
      | inl below ↦
          rw below (first, insert_sorted-IsSortedFrom b a assets (bytes_lt_asym b a below) rest)
      | inr here ↦ rw here (above, (here, rest))
    ]

insert_sorted-IsSorted :
    (a : Bytes) (assets : List Bytes) → IsSorted assets → IsSorted (insert_sorted at_most a assets)
unfolding insert_sorted
insert_sorted-IsSorted a [] sorted = tt
insert_sorted-IsSorted a (b ∷ assets) sorted = elim (Bool-cases (bytes_lt b a)) [
  | inl below ↦ rw below (insert_sorted-IsSortedFrom b a assets (bytes_lt_asym b a below) sorted)
  | inr here ↦ rw here (here, sorted)
]

sort_by-IsSorted : (assets : List Bytes) → IsSorted (sort_by at_most assets)
unfolding sort_by
sort_by-IsSorted [] = tt
sort_by-IsSorted (a ∷ assets) =
    insert_sorted-IsSorted a (sort_by at_most assets) (sort_by-IsSorted assets)

dedup_after-IsAscendingFrom :
    (dec : Decimals) (low : Bytes) (assets : List Bytes)
    → IsSortedFrom low assets
    → IsAscendingFrom low (dedup_after dec low assets)
unfolding dedup_after
dedup_after-IsAscendingFrom dec low [] sorted = tt
dedup_after-IsAscendingFrom dec low (a ∷ assets) (first, rest) =
    let ih = dedup_after-IsAscendingFrom dec a assets rest in
    elim (Bool-cases (bytes_eq low a)) [
      | inl same ↦ rw same (
          subst (λ b. IsAscendingFrom b (dedup_after dec a assets)) (sym (bytes_eq→eq low a same))
            ih)
      | inr other ↦ rw other (bytes_lt_total low a other first, ih)
    ]

dedup-IsAscending :
    (dec : Decimals) (assets : List Bytes) → IsSorted assets → IsAscending (dedup dec assets)
unfolding dedup
dedup-IsAscending dec [] sorted = tt
dedup-IsAscending dec (a ∷ assets) sorted = dedup_after-IsAscendingFrom dec a assets sorted

or_swap : (a b c : Bool) → a || (b || c) ≡ b || (a || c)
or_swap true true c = refl
or_swap true false c = refl
or_swap false true c = refl
or_swap false false c = refl

or_again : (a b : Bool) → a || b ≡ a || (a || b)
or_again true b = refl
or_again false b = refl

or_assoc : (a b c : Bool) → (a || b) || c ≡ a || (b || c)
or_assoc true b c = refl
or_assoc false b c = refl

module _ (s : Bytes) where
  is_listed-insert_sorted :
      (a : Bytes) (assets : List Bytes)
      → is_listed s (insert_sorted at_most a assets) ≡ bytes_eq a s || is_listed s assets
  unfolding insert_sorted
  is_listed-insert_sorted a [] = refl
  is_listed-insert_sorted a (b ∷ assets) = elim (Bool-cases (bytes_lt b a)) [
    | inl below ↦
        rw (below, is_listed-insert_sorted a assets)
          (or_swap (bytes_eq b s) (bytes_eq a s) (is_listed s assets))
    | inr here ↦ rw here refl
  ]

  is_listed-sort_by :
      (assets : List Bytes) → is_listed s (sort_by at_most assets) ≡ is_listed s assets
  unfolding sort_by
  is_listed-sort_by [] = refl
  is_listed-sort_by (a ∷ assets) =
      is_listed-insert_sorted a (sort_by at_most assets)
      ∙ ap (λ b. bytes_eq a s || b) (is_listed-sort_by assets)

  is_listed-dedup_after :
      (dec : Decimals) (low : Bytes) (assets : List Bytes)
      → bytes_eq low s || is_listed s (dedup_after dec low assets)
        ≡ bytes_eq low s || is_listed s assets
  unfolding dedup_after
  is_listed-dedup_after dec low [] = refl
  is_listed-dedup_after dec low (a ∷ assets) =
      let ih = is_listed-dedup_after dec a assets in
      elim (Bool-cases (bytes_eq low a)) [
        | inl same ↦
            let e = bytes_eq→eq low a same in
            let t : bytes_eq low s ≡ bytes_eq a s = ap (λ b. bytes_eq b s) e in
            rw (same, t) (ih ∙ or_again (bytes_eq a s) (is_listed s assets))
        | inr other ↦ rw other (ap (λ b. bytes_eq low s || b) ih)
      ]

  is_listed-dedup :
      (dec : Decimals) (assets : List Bytes) → is_listed s (dedup dec assets) ≡ is_listed s assets
  unfolding dedup
  is_listed-dedup dec [] = refl
  is_listed-dedup dec (a ∷ assets) = is_listed-dedup_after dec a assets

  is_listed-append :
      (xs ys : List Bytes) → is_listed s (xs ++ ys) ≡ is_listed s xs || is_listed s ys
  is_listed-append [] ys = refl
  is_listed-append (x ∷ xs) ys =
      ap (λ b. bytes_eq x s || b) (is_listed-append xs ys)
      ∙ sym (or_assoc (bytes_eq x s) (is_listed s xs) (is_listed s ys))

  is_listed-keys_of {ℓ} :
      {V : Type ℓ} (m : List (Bytes × V)) → is_listed s (keys_of m) ≡ contains_key s m
  unfolding keys_of contains_key
  is_listed-keys_of [] = refl
  is_listed-keys_of ((k, v) ∷ m) = ap (λ b. bytes_eq k s || b) (is_listed-keys_of m)

module _ (dec : Decimals) where
  pub assets_of-IsAscending :
      (lots : Lots dec) (current : List (Bytes × dec.Decimal))
      → IsAscending (assets_of dec lots current)
  unfolding assets_of
  assets_of-IsAscending lots current =
      dedup-IsAscending dec (sort_by at_most (keys_of lots ++ keys_of current))
        (sort_by-IsSorted (keys_of lots ++ keys_of current))

  pub is_listed-assets_of :
      (lots : Lots dec) (current : List (Bytes × dec.Decimal)) (s : Bytes)
      → is_listed s (assets_of dec lots current) ≡ contains_key s lots || contains_key s current
  unfolding assets_of
  is_listed-assets_of lots current s =
      is_listed-dedup s dec (sort_by at_most (keys_of lots ++ keys_of current))
      ∙ is_listed-sort_by s (keys_of lots ++ keys_of current)
      ∙ is_listed-append s (keys_of lots) (keys_of current)
      ∙ rw (is_listed-keys_of s lots, is_listed-keys_of s current) refl
