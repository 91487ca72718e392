-- ===== src/Checkpoint/Calendar.antt =====
-- crates/domain/checkpoint/src/calendar.rs: the intervals missed since the last checkpoint.
pub mod Gaps
pub mod Divergence
use linvesther.Prelude.{ℕ, zero, suc, Option, none, some, List, [], ◌∷◌, and_then, if◌then◌else◌}
use linvesther.Prelude.Int.{ℤ, ltb_ℤ}
use linvesther.Prelude.Machine.{◌+i64◌}

pub record CalendarPolicy : Type 0 where
  pub interval_ms : ℤ
  pub grace_ms : ℤ

pub record Gap : Type 0 where
  pub start_ms : ℤ
  pub end_ms : ℤ

-- The body of the `loop`, on fuel: `none` means that the fuel ran out before the `break`. The
-- source's `Vec` is filled front to back, so the list is built on the way out.
unfoldable pub gaps_loop : ℕ → CalendarPolicy → ℤ → ℤ → Option (List Gap)
gaps_loop zero policy start now_ms = none
gaps_loop (suc fuel) policy start now_ms =
    let end = start +i64 policy.interval_ms in
    let deadline = end +i64 policy.grace_ms in
    let rest = gaps_loop fuel policy end now_ms in
    if ltb_ℤ now_ms deadline
    then some []
    else and_then rest (λ gaps. some (record { start_ms = start; end_ms = end } ∷ gaps))

unfoldable pub derive_gaps : ℕ → CalendarPolicy → ℤ → ℤ → Option (List Gap)
unfolding gaps_loop
derive_gaps fuel policy last_committed_end_ms now_ms =
    gaps_loop fuel policy last_committed_end_ms now_ms
