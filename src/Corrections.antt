-- ===== src/Corrections.antt =====
-- crates/domain/corrections: which corrections are admissible, what they change, and disputes.
use linvesther.Prelude.{
  ◌≡◌, ◌↔◌, ◌⊎◌, inl, inr, ap, List, Option, none, some, Bool, ◌||◌, not, Bool-cases, replicate,
  if◌then◌else◌,
}
use linvesther.Prelude.Bytes.{Bytes, bytes_eq, bytes_eq→eq, bytes_eq_refl}

pub data Authority : Type 0 where
  issuer_retraction financial_correction method_bugfix trust_manifest_invalidation : Authority

pub record Correction : Type 0 where
  pub target_digest : Bytes
  pub replacement_digest : Bytes
  pub reason_code : Bytes
  pub evidence_digest : Bytes
  pub authority : Authority

pub record OwnerObjection : Type 0 where
  pub reason : Bytes

unfoldable pub is_admissible : Correction → Option OwnerObjection → Bool
is_admissible correction objection = not (bytes_eq correction.evidence_digest (replicate 32 0))

pub record Supersession : Type 0 where
  pub superseding : Bytes

pub data Resolution : Type 0 where
  resolved : (winner : Bytes) → Resolution
  disputed : (a b : Bytes) → Resolution

unfoldable pub reconcile_conflicting : Bytes → Bytes → Option Supersession → Resolution
reconcile_conflicting a_digest b_digest none = disputed a_digest b_digest
reconcile_conflicting a_digest b_digest (some s) =
    if bytes_eq s.superseding a_digest || bytes_eq s.superseding b_digest
    then resolved s.superseding
    else disputed a_digest b_digest

pub record Report : Type 0 where
  pub reported_digest : Bytes
  pub allegation : Bytes

pub data VersionStatus : Type 0 where
  original_status : VersionStatus
  superseded : (by : Bytes) → VersionStatus
  disputed_status : VersionStatus

pub record Version : Type 0 where
  pub digest : Bytes
  pub status : VersionStatus

unfoldable pub apply_reports : Version → List Report → Version
apply_reports version reports = version

pub record AppliedCorrection : Type 0 where
  pub original : Version
  pub replacement : Version

unfoldable pub apply_correction : Bytes → Bytes → AppliedCorrection
apply_correction original_digest replacement_digest = record {
  original = record { digest = original_digest; status = superseded replacement_digest };
  replacement = record { digest = replacement_digest; status = original_status };
}

-- A conflict is resolved for a version exactly if the evidence names that version and it is one of
-- the two; nothing else about the versions, nor their order, decides.
reconcile_conflicting_iff :
    (a b winner : Bytes) (evidence : Option Supersession)
    → (reconcile_conflicting a b evidence ≡ resolved winner)
      ↔ ((evidence ≡ some (record { superseding = winner })) × ((winner ≡ a) ⊎ (winner ≡ b)))
unfolding reconcile_conflicting
reconcile_conflicting_iff a b winner none = (λ h. cc, λ h. cc)
reconcile_conflicting_iff a b winner (some s) = elim (Bool-cases (bytes_eq s.superseding a)) [
  | inl is_a ↦ rw is_a (
    λ h.
        let same : s.superseding ≡ winner = cc in
        (
          ap (λ w. some (record { superseding = w })) same,
          inl (rw same at (bytes_eq→eq s.superseding a is_a)),
        ),
    λ h. cc h.0,
  )
  | inr not_a ↦ elim (Bool-cases (bytes_eq s.superseding b)) [
    | inl is_b ↦
        rw (not_a, is_b)
          (
            λ h.
                let same : s.superseding ≡ winner = cc in
                (
                  ap (λ w. some (record { superseding = w })) same,
                  inr (rw same at (bytes_eq→eq s.superseding b is_b)),
                ),
            λ h. cc h.0,
          )
    | inr not_b ↦
        rw (not_a, not_b)
          (
            λ h. cc,
            λ h.
                let same : s.superseding ≡ winner = cc h.0 in
                elim h.1 [
                  | inl e ↦
                      let f : s.superseding ≡ a = cc in
                      let g = bytes_eq_refl a in let k = rw f at not_a in cc
                  | inr e ↦
                      let f : s.superseding ≡ b = cc in
                      let g = bytes_eq_refl b in let k = rw f at not_b in cc
                ],
          )
  ]
]
