-- ===== src/Prelude/Sort.antt =====
-- Stable sorting (`sort_by`), by insertion, under a test that the first may stand before the second.
use linvesther.Prelude.Tests.{if◌then◌else◌, Bool-cases}
use linvesther.Prelude.Lists.{All, length}
use Prim.Native.Nat.{suc}
use mathlib.Core.Path.{◌≡◌, refl, ap, sym, ◌∙◌}
use mathlib.Core.Logic.{◌⊎◌, inl, inr}
use mathlib.Core.Bool.{Bool, true, false, not}
use mathlib.Core.List.{List, [], ◌∷◌}

module _ {ℓ} {A : Type ℓ} (le : A → A → Bool) where
  unfoldable pub insert_sorted : A → List A → List A
  insert_sorted a [] = a ∷ []
  insert_sorted a (b ∷ l) = if le a b then a ∷ b ∷ l else b ∷ insert_sorted a l

  unfoldable pub sort_by : List A → List A
  unfolding insert_sorted
  sort_by [] = []
  sort_by (a ∷ l) = insert_sorted a (sort_by l)

-- A strict order that is decided.
pub record IsStrict {ℓ} {A : Type ℓ} (lt : A → A → Bool) : Type ℓ where
  pub irreflexive : (a : A) → lt a a ≡ false
  pub transitive : (a b c : A) → lt a b ≡ true → lt b c ≡ true → lt a c ≡ true

pub asymmetric {ℓ} :
    {A : Type ℓ} (lt : A → A → Bool) (a b : A) → IsStrict lt → lt a b ≡ true → lt b a ≡ false
asymmetric lt a b order h = elim (Bool-cases (lt b a)) [
  | inr fine ↦ fine
  | inl back ↦ let f = order.transitive a b a h back in let g = order.irreflexive a in cc
]

module _ {ℓ} {A : Type ℓ} where
  -- The elements that pass a test.
  abbrev pub keep : (A → Bool) → List A → List A
  keep p [] = []
  keep p (a ∷ l) = let rest = keep p l in if p a then a ∷ rest else rest

  pub All-keep {κ} : (P : A → Type κ) (p : A → Bool) (l : List A) → All P l → All P (keep p l)
  All-keep P p [] h = h
  All-keep P p (a ∷ l) (first, rest) = elim (Bool-cases (p a)) [
    | inl in_ ↦ rw in_ (first, All-keep P p l rest)
    | inr out ↦ rw out (All-keep P p l rest)
  ]

  pub keep-All : (p : A → Bool) (l : List A) → All (λ a. p a ≡ true) l → keep p l ≡ l
  keep-All p [] h = refl
  keep-All p (a ∷ l) (first, rest) = rw first (ap (λ m. a ∷ m) (keep-All p l rest))

module _ {ℓ} {A : Type ℓ} (lt : A → A → Bool) where
  -- The test of a sort by the order.
  abbrev pub le_of : A → A → Bool
  le_of a b = not (lt b a)

  -- Each element stands before all that follow.
  abbrev pub IsStrictlySorted : List A → Type 0
  IsStrictlySorted [] = Unit
  IsStrictlySorted (a ∷ l) = All (λ b. lt a b ≡ true) l × IsStrictlySorted l

  -- No two elements are tied.
  abbrev pub AreApart : List A → Type 0
  AreApart [] = Unit
  AreApart (a ∷ l) = All (λ b. (lt a b ≡ true) ⊎ (lt b a ≡ true)) l × AreApart l

  pub All-insert_sorted {κ} :
      (P : A → Type κ) (a : A) (l : List A) → P a → All P l → All P (insert_sorted le_of a l)
  unfolding insert_sorted
  All-insert_sorted P a [] h rest = (h, tt)
  All-insert_sorted P a (b ∷ l) h (first, rest) = elim (Bool-cases (lt b a)) [
    | inr before ↦ rw before (h, (first, rest))
    | inl after ↦ rw after (first, All-insert_sorted P a l h rest)
  ]

  pub All-sort_by {κ} : (P : A → Type κ) (l : List A) → All P l → All P (sort_by le_of l)
  unfolding sort_by
  All-sort_by P [] h = h
  All-sort_by P (a ∷ l) (first, rest) =
      All-insert_sorted P a (sort_by le_of l) first (All-sort_by P l rest)

  All-trans :
      (order : IsStrict lt) (a b : A) (l : List A)
      → lt a b ≡ true
      → All (λ c. lt b c ≡ true) l
      → All (λ c. lt a c ≡ true) l
  All-trans order a b [] h rest = tt
  All-trans order a b (c ∷ l) h (first, rest) =
      (order.transitive a b c h first, All-trans order a b l h rest)

  insert_sorted-IsStrictlySorted :
      (order : IsStrict lt) (a : A) (l : List A)
      → All (λ b. (lt a b ≡ true) ⊎ (lt b a ≡ true)) l
      → IsStrictlySorted l
      → IsStrictlySorted (insert_sorted le_of a l)
  unfolding insert_sorted
  insert_sorted-IsStrictlySorted order a [] apart sorted = (tt, tt)
  insert_sorted-IsStrictlySorted order a (b ∷ l) (apart, aparts) (first, sorted) =
      elim (Bool-cases (lt b a)) [
        | inl after ↦ rw after (
          All-insert_sorted (λ c. lt b c ≡ true) a l after first,
          insert_sorted-IsStrictlySorted order a l aparts sorted,
        )
        | inr before ↦
            let less : lt a b ≡ true = elim apart [
              | inl fine ↦ fine
              | inr back ↦ absurd (let f = back in cc)
            ] in
            rw before ((less, All-trans order a b l less first), (first, sorted))
      ]

  pub sort_by-IsStrictlySorted :
      (order : IsStrict lt) (l : List A) → AreApart l → IsStrictlySorted (sort_by le_of l)
  unfolding sort_by
  sort_by-IsStrictlySorted order [] apart = tt
  sort_by-IsStrictlySorted order (a ∷ l) (apart, aparts) =
      insert_sorted-IsStrictlySorted order a (sort_by le_of l)
        (All-sort_by (λ b. (lt a b ≡ true) ⊎ (lt b a ≡ true)) l apart)
        (sort_by-IsStrictlySorted order l aparts)

  -- Below all, an element goes first.
  insert_sorted_first :
      (order : IsStrict lt) (a : A) (l : List A)
      → All (λ b. lt a b ≡ true) l
      → insert_sorted le_of a l ≡ a ∷ l
  unfolding insert_sorted
  insert_sorted_first order a [] h = refl
  insert_sorted_first order a (b ∷ l) (first, rest) = rw (asymmetric lt a b order first) refl

  keep-insert_sorted :
      (order : IsStrict lt) (p : A → Bool) (a : A) (l : List A)
      → All (λ b. (lt a b ≡ true) ⊎ (lt b a ≡ true)) l
      → IsStrictlySorted l
      → keep p (insert_sorted le_of a l)
        ≡ (if p a then insert_sorted le_of a (keep p l) else keep p l)
  unfolding insert_sorted
  keep-insert_sorted order p a [] apart sorted = elim (Bool-cases (p a)) [
    | inl in_ ↦ rw in_ refl
    | inr out ↦ rw out refl
  ]
  keep-insert_sorted order p a (b ∷ l) (apart, aparts) (first, sorted) =
      elim (Bool-cases (lt b a)) [
        | inr before ↦
            let less : lt a b ≡ true = elim apart [
              | inl fine ↦ fine
              | inr back ↦ absurd (let f = back in cc)
            ] in
            let all_ : All (λ c. lt a c ≡ true) (b ∷ l) =
              (less, All-trans order a b l less first) in
            let placed =
              insert_sorted_first order a (keep p (b ∷ l))
                (All-keep (λ c. lt a c ≡ true) p (b ∷ l) all_) in
            elim (Bool-cases (p a)) [
              | inl in_ ↦ rw (before, in_) (sym placed)
              | inr out ↦ rw (before, out) refl
            ]
        | inl after ↦
            let ih = keep-insert_sorted order p a l aparts sorted in
            elim (Bool-cases (p a)) [
              | inl in_ ↦ elim (Bool-cases (p b)) [
                | inl keeps ↦ rw (after, in_, keeps, after) (ap (λ m. b ∷ m) (rw in_ at ih))
                | inr drops ↦ rw (after, in_, drops) (rw in_ at ih)
              ]
              | inr out ↦ elim (Bool-cases (p b)) [
                | inl keeps ↦ rw (after, out, keeps) (ap (λ m. b ∷ m) (rw out at ih))
                | inr drops ↦ rw (after, out, drops) (rw out at ih)
              ]
            ]
      ]

  -- Sorting what passes a test is keeping it of what is sorted.
  pub sort_by-keep :
      (order : IsStrict lt) (p : A → Bool) (l : List A)
      → AreApart l
      → sort_by le_of (keep p l) ≡ keep p (sort_by le_of l)
  unfolding sort_by
  sort_by-keep order p [] apart = refl
  sort_by-keep order p (a ∷ l) (apart, aparts) =
      let ih = sort_by-keep order p l aparts in
      let moved =
        keep-insert_sorted order p a (sort_by le_of l)
          (All-sort_by (λ b. (lt a b ≡ true) ⊎ (lt b a ≡ true)) l apart)
          (sort_by-IsStrictlySorted order l aparts) in
      elim (Bool-cases (p a)) [
        | inl in_ ↦ rw in_ (ap (λ m. insert_sorted le_of a m) ih ∙ sym (rw in_ at moved))
        | inr out ↦ rw out (ih ∙ sym (rw out at moved))
      ]

  pub AreApart-keep : (p : A → Bool) (l : List A) → AreApart l → AreApart (keep p l)
  AreApart-keep p [] h = h
  AreApart-keep p (a ∷ l) (first, rest) = elim (Bool-cases (p a)) [
    | inl in_ ↦
        rw in_ (All-keep (λ b. (lt a b ≡ true) ⊎ (lt b a ≡ true)) p l first, AreApart-keep p l rest)
    | inr out ↦ rw out (AreApart-keep p l rest)
  ]

  length-insert_sorted : (a : A) (l : List A) → length (insert_sorted le_of a l) ≡ suc (length l)
  unfolding insert_sorted
  length-insert_sorted a [] = refl
  length-insert_sorted a (b ∷ l) = elim (Bool-cases (lt b a)) [
    | inr before ↦ rw before refl
    | inl after ↦ rw after (ap suc (length-insert_sorted a l))
  ]

  pub length-sort_by : (l : List A) → length (sort_by le_of l) ≡ length l
  unfolding sort_by
  length-sort_by [] = refl
  length-sort_by (a ∷ l) = length-insert_sorted a (sort_by le_of l) ∙ ap suc (length-sort_by l)
