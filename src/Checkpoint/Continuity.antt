-- ===== src/Checkpoint/Continuity.antt =====
-- crates/domain/checkpoint/src/continuity.rs: the segments between gaps, and recovery after the
-- deadline of a gap.
pub mod Segments
pub mod Late
use linvesther.Prelude.{List, [], ◌∷◌, Result, ok, err, if◌then◌else◌}
use linvesther.Prelude.Int.{ℤ, ltb_ℤ, leb_ℤ, max_ℤ}
use linvesther.Prelude.Machine.{◌+i64◌}
use linvesther.Checkpoint.Calendar.{CalendarPolicy, Gap}

pub record Segment : Type 0 where
  pub start_ms : ℤ
  pub end_ms : ℤ

-- `if end > cursor { segments.push(cursor..end) }`, before what is pushed later.
unfoldable pub push_segment : ℤ → ℤ → List Segment → List Segment
push_segment cursor end later =
    if ltb_ℤ cursor end then record { start_ms = cursor; end_ms = end } ∷ later else later

-- The loop over the gaps, from a cursor, and the last segment.
unfoldable pub segments_from : ℤ → ℤ → List Gap → List Segment
unfolding push_segment
segments_from cursor track_end_ms [] = push_segment cursor track_end_ms []
segments_from cursor track_end_ms (gap ∷ gaps) =
    push_segment cursor gap.start_ms (segments_from (max_ℤ gap.end_ms cursor) track_end_ms gaps)

unfoldable pub segments_between : ℤ → ℤ → List Gap → List Segment
unfolding segments_from
segments_between track_start_ms track_end_ms gaps = segments_from track_start_ms track_end_ms gaps

pub record LateSupplement : Type 0 where
  pub gap : Gap
  pub recovered_at_ms : ℤ

pub data LateRecoveryError : Type 0 where
  not_late : (recovered_at_ms deadline_ms : ℤ) → LateRecoveryError

unfoldable pub recover_late : CalendarPolicy → Gap → ℤ → Result LateRecoveryError LateSupplement
recover_late policy gap recovered_at_ms =
    let deadline_ms = gap.end_ms +i64 policy.grace_ms in
    if leb_ℤ recovered_at_ms deadline_ms
    then err (not_late recovered_at_ms deadline_ms)
    else ok (record { gap = gap; recovered_at_ms = recovered_at_ms })
