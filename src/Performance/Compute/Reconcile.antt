-- ===== src/Performance/Compute/Reconcile.antt =====
-- Lemmas and a theorem on `reconcile`, and on the values that `max_drawdown_bp` accepts
-- (zkvm/methods/performance/guest/src/compute.rs).
use linvesther.Prelude.{
  ℕ, ◌+◌, ◌≡◌, inl, inr, ◌∙◌, refl, List, [], ◌∷◌, some, ok, All, not, true, false, Bool,
  Bool-cases, raise_if, ok_or, >>=-eq-ok, raise_if-eq-ok,
}
use linvesther.Prelude.Int.{
  ℤ, pos, ◌+ℤ◌, ◌-ℤ◌, ◌<ℤ◌, eqb_ℤ, leb_ℤ, eqb_ℤ→eq, eqb_ℤ_of_eq, leb_ℤ-false, ltb_ℤ, int_laws,
}
use linvesther.Prelude.Machine.{◌-i128◌, ◌*i128◌, ◌/ℤ◌, +i64_lem, -i64_lem, InRange, i64_half}
use linvesther.Performance.Compute.{
  empty_nav, non_positive_nav, reconciliation_mismatch, first, last, sum_from, reconcile, scale,
  drawdown_loop, max_drawdown_bp,
}

-- The sum of the deltas without machine integers.
abbrev pub total : List ℤ → ℤ
total [] = pos 0
total (x ∷ xs) = x +ℤ total xs

-- Every sum that is formed from the left is an `i64`.
abbrev pub SumsFit : ℤ → List ℤ → Type 0
SumsFit acc [] = Unit
SumsFit acc (x ∷ xs) = InRange i64_half (acc +ℤ x) × SumsFit (acc +ℤ x) xs

sum_from_exact : (acc : ℤ) (xs : List ℤ) → SumsFit acc xs → sum_from acc xs ≡ acc +ℤ total xs
unfolding sum_from
sum_from_exact acc [] h = omega int_laws
sum_from_exact acc (x ∷ xs) h =
    rw (+i64_lem acc x h.0) (sum_from_exact (acc +ℤ x) xs h.1 ∙ omega int_laws)

-- Where no sum leaves `i64`, `reconcile` accepts a series that starts with `a` and ends with `b`
-- exactly if the ledger's deltas add up to b - a.
pub reconcile_iff :
    (nav deltas : List ℤ) (a b : ℤ)
    → first nav ≡ some a
    → last nav ≡ some b
    → InRange i64_half (b -ℤ a)
    → SumsFit (pos 0) deltas
    → ((reconcile nav deltas ≡ ok tt) → (a +ℤ total deltas ≡ b))
      × ((a +ℤ total deltas ≡ b) → (reconcile nav deltas ≡ ok tt))
unfolding reconcile
reconcile_iff nav deltas a b ea eb fits sums =
    let sum : sum_from (pos 0) deltas ≡ total deltas =
      sum_from_exact (pos 0) deltas sums ∙ omega int_laws in
    rw (ea, eb, -i64_lem b a fits, sum)
      (
        λ e. accepted (eqb_ℤ (b -ℤ a) (total deltas)) refl e,
        λ e.
            let back : a +ℤ total deltas -ℤ a ≡ total deltas = omega int_laws in
            let same = eqb_ℤ_of_eq (b -ℤ a) (total deltas) (rw e at back) in rw same refl,
      )
  where
    accepted :
        (t : Bool)
        → eqb_ℤ (b -ℤ a) (total deltas) ≡ t
        → raise_if (not t) (reconciliation_mismatch (b -ℤ a) (total deltas)) ≡ ok tt
        → a +ℤ total deltas ≡ b
    accepted true t e =
        let back : a +ℤ (b -ℤ a) ≡ b = omega int_laws in
        rw (← eqb_ℤ→eq (b -ℤ a) (total deltas) t) back
    accepted false t e = cc

-- Whatever the series holds before it, the drawdown loop ends in an error if a value is not
-- positive.
drawdown_loop-positive :
    (i : ℕ) (peak worst : ℤ) (nav : List ℤ) {r : ℤ}
    → drawdown_loop i peak worst nav ≡ ok r
    → All (λ v. pos 0 <ℤ v) nav
unfolding drawdown_loop
drawdown_loop-positive i peak worst [] e = tt
drawdown_loop-positive i peak worst (v ∷ nav) e = elim (Bool-cases (leb_ℤ v (pos 0))) [
  | inl low ↦ absurd (let f = rw low at e in cc)
  | inr high ↦
      let positive = leb_ℤ-false v (pos 0) high in
      elim (Bool-cases (ltb_ℤ peak v)) [
        | inl up ↦ (positive, drawdown_loop-positive (i + 1) v worst nav (rw (high, up) at e))
        | inr down ↦ elim (Bool-cases (ltb_ℤ worst (((peak -i128 v) *i128 scale) /ℤ peak))) [
          | inl deep ↦ (
            positive,
            drawdown_loop-positive (i + 1) peak (((peak -i128 v) *i128 scale) /ℤ peak) nav
                (rw (high, down, deep) at e),
          )
          | inr not_deep ↦ (
            positive,
            drawdown_loop-positive (i + 1) peak worst nav (rw (high, down, not_deep) at e),
          )
        ]
      ]
]

pub max_drawdown_bp-positive :
    (nav : List ℤ) {r : ℤ} → max_drawdown_bp nav ≡ ok r → All (λ v. pos 0 <ℤ v) nav
unfolding max_drawdown_bp
max_drawdown_bp-positive nav e =
    let (start, begins, f₁) = >>=-eq-ok (ok_or (first nav) empty_nav) _ e in
    let (low, f₂) = raise_if-eq-ok (leb_ℤ start (pos 0)) (non_positive_nav 0 start) _ f₁ in
    let (worst, looped, f₃) = >>=-eq-ok (drawdown_loop 0 start (pos 0) nav) _ f₂ in
    drawdown_loop-positive 0 start (pos 0) nav looped
