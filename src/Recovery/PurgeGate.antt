-- ===== src/Recovery/PurgeGate.antt =====
-- infra/recovery/src/purge_gate.rs: when raw inputs may be purged. The decimal text of a `u32` is the
-- parameter `display`.
use linvesther.Prelude.{
  ℕ, ◌≤◌, ◌≡◌, ◌↔◌, ◌++◌, refl, ltb, arith, Bool-cases, inl, inr, if◌then◌else◌,
}
use linvesther.Prelude.Bytes.{Bytes, codes}

abbrev pub simulation_days : ℕ
simulation_days = 91

pub data RecursiveReceiptStatus : Type 0 where
  validated not_available : RecursiveReceiptStatus

pub data PurgeDecision : Type 0 where
  purge : PurgeDecision
  retain_integral : (reason : Bytes) → PurgeDecision

-- The `match` on the status.
unfoldable pub decide_status : RecursiveReceiptStatus → PurgeDecision
decide_status validated = purge
decide_status not_available = retain_integral (
    codes
      "no validated recursive receipt continues the track; raw inputs must be retained integrally")

unfoldable pub evaluate_purge_gate : (ℕ → Bytes) → ℕ → RecursiveReceiptStatus → PurgeDecision
unfolding decide_status
evaluate_purge_gate display days_elapsed receipt_status =
    if ltb days_elapsed simulation_days
    then retain_integral (
        codes "only "
        ++ display days_elapsed
        ++ codes " day(s) elapsed; the gate simulates at least "
        ++ display simulation_days)
    else decide_status receipt_status

-- The gate purges exactly if at least 91 days have passed and a validated recursive receipt exists.
evaluate_purge_gate_iff :
    (display : ℕ → Bytes) (days : ℕ) (status : RecursiveReceiptStatus)
    → (evaluate_purge_gate display days status ≡ purge) ↔ ((91 ≤ days) × (status ≡ validated))
unfolding evaluate_purge_gate
evaluate_purge_gate_iff display days validated = elim (Bool-cases (ltb days 91)) [
  | inl early ↦ rw early (λ h. cc, λ h. absurd (ground arith))
  | inr late ↦ rw late (λ h. (ground arith, refl), λ h. refl)
]
evaluate_purge_gate_iff display days not_available = elim (Bool-cases (ltb days 91)) [
  | inl early ↦ rw early (λ h. cc, λ h. cc)
  | inr late ↦ rw late (λ h. cc, λ h. cc)
]
