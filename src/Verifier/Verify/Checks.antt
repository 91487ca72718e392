-- ===== src/Verifier/Verify/Checks.antt =====
-- Lemmas on the outcomes of the single checks (crates/verifier/src/verify.rs).
use linvesther.Prelude.{
  ◌≡◌, ◌⊎◌, inl, inr, refl, List, [], ◌∷◌, Bool, true, false, ◌&&◌, not, ◌==◌, Result, ok, err,
  raise_if, if◌then◌else◌, Bool-cases, arith,
}
use linvesther.Prelude.Int.{eqb_ℤ, eqb_ℤ→eq}
use linvesther.Prelude.Bytes.{Bytes, bytes_eq, bytes_eq→eq}
use linvesther.Checkpoint.Calendar.{Gap}
use linvesther.Verifier.Bundle.{HashMismatch}
use linvesther.Verifier.Anchor.{TrustedAnchor, anchor_eq, contains_anchor, verify_anchor}
use linvesther.Verifier.Coverage.{gaps_eq}
use linvesther.Verifier.Report.{CheckOutcome, unavailable, is_pass, VerificationReport, all_pass}
use linvesther.Verifier.Verify.{Texts, hashes_outcome, outcome_of}

pub matched : {E : Type 0} (b : Bool) (e : E) → raise_if (not b) e ≡ ok tt → b ≡ true
matched true e h = refl
matched false e h = cc

and-true : (a b : Bool) → (a && b) ≡ true → (a ≡ true) × (b ≡ true)
and-true true b h = (refl, h)
and-true false b h = cc

pub outcome_of-pass :
    {E : Type 0} (text : E → Bytes) (r : Result E (Unit {0}))
    → is_pass (outcome_of text r) ≡ true
    → r ≡ ok tt
unfolding outcome_of is_pass
outcome_of-pass text (ok u) h = refl
outcome_of-pass text (err e) h = cc

pub hashes_outcome-pass :
    (texts : Texts) (mismatches : List HashMismatch)
    → is_pass (hashes_outcome texts mismatches) ≡ true
    → mismatches ≡ []
unfolding hashes_outcome is_pass
hashes_outcome-pass texts [] h = refl
hashes_outcome-pass texts (m ∷ mismatches) h = cc

-- A check that is only run on what is there.
pub guarded-pass :
    (b : Bool) (reason : Bytes) (c : CheckOutcome)
    → is_pass (if b then unavailable reason else c) ≡ true
    → (b ≡ false) × (is_pass c ≡ true)
unfolding is_pass
guarded-pass true reason c h = cc
guarded-pass false reason c h = (refl, h)

pub gaps_eq→eq : (g h : List Gap) → gaps_eq g h ≡ true → g ≡ h
unfolding gaps_eq
gaps_eq→eq [] [] e = refl
gaps_eq→eq [] (x ∷ h) e = cc
gaps_eq→eq (x ∷ g) [] e = cc
gaps_eq→eq (x ∷ g) (y ∷ h) e =
    let (f, rest) =
      and-true (eqb_ℤ x.start_ms y.start_ms && eqb_ℤ x.end_ms y.end_ms) (gaps_eq g h) e in
    let (same, same') = and-true (eqb_ℤ x.start_ms y.start_ms) (eqb_ℤ x.end_ms y.end_ms) f in
    let s = eqb_ℤ→eq x.start_ms y.start_ms same in
    let t = eqb_ℤ→eq x.end_ms y.end_ms same' in
    let tails = gaps_eq→eq g h rest in λ i. record { start_ms = s i; end_ms = t i } ∷ tails i

-- The anchor is one of the list.
abbrev pub IsAmong : TrustedAnchor → List TrustedAnchor → Type 0
IsAmong claimed [] = ⊥
IsAmong claimed (a ∷ trusted) = (a ≡ claimed) ⊎ IsAmong claimed trusted

pub contains_anchor-IsAmong :
    (claimed : TrustedAnchor) (trusted : List TrustedAnchor)
    → contains_anchor trusted claimed ≡ true
    → IsAmong claimed trusted
unfolding contains_anchor anchor_eq
contains_anchor-IsAmong claimed [] h = cc
contains_anchor-IsAmong claimed (a ∷ trusted) h =
    elim (Bool-cases
      (bytes_eq a.tx_hash claimed.tx_hash && a.block_number == claimed.block_number)) [
        | inl same ↦
            let (hash, block) = and-true (bytes_eq a.tx_hash claimed.tx_hash) _ same in
            let s = bytes_eq→eq a.tx_hash claimed.tx_hash hash in
            let n : a.block_number ≡ claimed.block_number = ground arith in
            inl (λ i. record { tx_hash = s i; block_number = n i })
        | inr other ↦ inr (contains_anchor-IsAmong claimed trusted (let e = rw other at h in e))
      ]

pub verify_anchor-IsAmong :
    (claimed : TrustedAnchor) (trusted : List TrustedAnchor)
    → verify_anchor claimed trusted ≡ ok tt
    → IsAmong claimed trusted
unfolding verify_anchor
verify_anchor-IsAmong claimed trusted h = elim (Bool-cases (contains_anchor trusted claimed)) [
  | inl found ↦ contains_anchor-IsAmong claimed trusted found
  | inr missing ↦ let e = rw missing at h in cc
]

pub all_pass-each :
    (report : VerificationReport)
    → all_pass report ≡ true
    → (is_pass report.hashes ≡ true)
      × (is_pass report.account_set_root ≡ true)
      × (is_pass report.calculation ≡ true)
      × (is_pass report.registry ≡ true)
      × (is_pass report.coverage ≡ true)
unfolding all_pass
all_pass-each report h =
    let h₁ = is_pass report.hashes in
    let h₂ = h₁ && is_pass report.account_set_root in
    let h₃ = h₂ && is_pass report.calculation in
    let (q₃, p₅) = and-true (h₃ && is_pass report.registry) (is_pass report.coverage) h in
    let (q₂, p₄) = and-true h₃ (is_pass report.registry) q₃ in
    let (q₁, p₃) = and-true h₂ (is_pass report.calculation) q₂ in
    let (p₁, p₂) = and-true h₁ (is_pass report.account_set_root) q₁ in (p₁, p₂, p₃, p₄, p₅)
