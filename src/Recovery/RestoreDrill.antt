-- ===== src/Recovery/RestoreDrill.antt =====
-- infra/recovery/src/restore_drill.rs: the measured times of a restore against its targets.
use linvesther.Prelude.{
  ◌≡◌, ◌↔◌, inl, inr, refl, ◌++◌, List, [], ◌∷◌, Bool-cases, is_empty, Result, ok, err, arith,
  if◌then◌else◌,
}
use linvesther.Prelude.Int.{ℤ, pos, ◌-ℤ◌, ◌≤ℤ◌, ltb_ℤ, ltb_ℤ→lt, ltb_ℤ-false}
use linvesther.Prelude.Machine.{◌-i64◌, -i64_lem, InRange, i64_half}

pub record RestoreTargets : Type 0 where
  pub rpo_ms : ℤ
  pub rto_ms : ℤ

abbrev pub default_targets : RestoreTargets
default_targets = record { rpo_ms = pos 900_000; rto_ms = pos 14_400_000 }

pub record RestoreDrill : Type 0 where
  pub last_backup_at_ms : ℤ
  pub failure_at_ms : ℤ
  pub restore_completed_at_ms : ℤ

pub data RestoreFailure : Type 0 where
  rpo_exceeded rto_exceeded : (actual_ms target_ms : ℤ) → RestoreFailure

unfoldable pub verify_restore_drill :
    RestoreDrill → RestoreTargets → Result (List RestoreFailure) (Unit {0})
verify_restore_drill drill targets =
    let data_loss_window_ms = drill.failure_at_ms -i64 drill.last_backup_at_ms in
    let downtime_ms = drill.restore_completed_at_ms -i64 drill.failure_at_ms in
    let failures =
      (if ltb_ℤ targets.rpo_ms data_loss_window_ms
        then rpo_exceeded data_loss_window_ms targets.rpo_ms ∷ []
        else [])
      ++ (if ltb_ℤ targets.rto_ms downtime_ms
          then rto_exceeded downtime_ms targets.rto_ms ∷ []
          else []) in
    if is_empty failures then ok tt else err failures

-- For times whose differences are `i64`, a drill passes exactly if no more than the recovery point
-- target lies between the last backup and the failure, and no more than the recovery time target
-- between the failure and the end of the restore.
verify_restore_drill_iff :
    (drill : RestoreDrill) (targets : RestoreTargets)
    → InRange i64_half (drill.failure_at_ms -ℤ drill.last_backup_at_ms)
    → InRange i64_half (drill.restore_completed_at_ms -ℤ drill.failure_at_ms)
    → (verify_restore_drill drill targets ≡ ok tt) ↔ (
        (drill.failure_at_ms -ℤ drill.last_backup_at_ms ≤ℤ targets.rpo_ms)
        × (drill.restore_completed_at_ms -ℤ drill.failure_at_ms ≤ℤ targets.rto_ms))
unfolding verify_restore_drill
verify_restore_drill_iff drill targets loss_fits downtime_fits =
    let loss = drill.failure_at_ms -ℤ drill.last_backup_at_ms in
    let downtime = drill.restore_completed_at_ms -ℤ drill.failure_at_ms in
    rw
      (
        -i64_lem drill.failure_at_ms drill.last_backup_at_ms loss_fits,
        -i64_lem drill.restore_completed_at_ms drill.failure_at_ms downtime_fits,
      )
      (elim (Bool-cases (ltb_ℤ targets.rpo_ms loss)) [
        | inl lost ↦ rw lost (
          λ h. absurd (let e : err _ ≡ ok tt = h in cc),
          λ h. absurd (omega (arith, ltb_ℤ→lt targets.rpo_ms loss lost, h.0)),
        )
        | inr kept ↦ elim (Bool-cases (ltb_ℤ targets.rto_ms downtime)) [
          | inl slow ↦
              rw (kept, slow)
                (λ h. cc, λ h. absurd (omega (arith, ltb_ℤ→lt targets.rto_ms downtime slow, h.1)))
          | inr fast ↦
              rw (kept, fast)
                (
                  λ h. (
                    ltb_ℤ-false targets.rpo_ms loss kept,
                    ltb_ℤ-false targets.rto_ms downtime fast,
                  ),
                  λ h. refl,
                )
        ]
      ])
