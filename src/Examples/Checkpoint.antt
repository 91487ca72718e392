-- ===== src/Examples/Checkpoint.antt =====
-- The checkpoint domain on small calendars and tracks.
use linvesther.Prelude.{◌≡◌, refl, ◌&&◌, not, none, some, List, [], ◌∷◌, ok, arith, replicate}
use linvesther.Prelude.Int.{pos, ◌+ℤ◌}
use linvesther.Prelude.Machine.{◌+i64◌, wrap}
use linvesther.Prelude.Bytes.{bytes_eq}
use linvesther.Checkpoint.Calendar.{Gap, derive_gaps}
use linvesther.Checkpoint.Calendar.Gaps.{Fits, Prescribed, interval, policy, derive_gaps_exact}
use linvesther.Checkpoint.Calendar.Divergence.{derive_gaps-diverges}
use linvesther.Checkpoint.Chain.{Checkpoint, committed, link_next}
use linvesther.Checkpoint.Continuity.{segments_between}
use linvesther.Checkpoint.Continuity.Segments.{
  is_between, in_gaps, in_segments, segments_between_exact,
}

-- Intervals of 5 ms from 0, a grace period of 1 ms, at 12 ms: two intervals are missed.
week-Fits : Fits 5 1 (pos 0) (pos 12)
unfolding ◌+ℤ◌
week-Fits = record {
  start_fits = (omega arith, omega arith);
  start_end = omega arith;
  now_end = omega arith;
}

abbrev missed : List Gap
missed = interval 5 (pos 0) 0 ∷ interval 5 (pos 0) 1 ∷ []

derive_gaps-missed : derive_gaps 14 (policy 5 1) (pos 0) (pos 12) ≡ some missed
unfolding derive_gaps ◌+i64◌ wrap ◌+ℤ◌
derive_gaps-missed = refl

derive_gaps_exact_example :
    (gaps : List Gap) × (derive_gaps 14 (policy 5 1) (pos 0) (pos 12) ≡ some gaps)
    × Prescribed 5 1 (pos 0) (pos 12) gaps
unfolding ◌+ℤ◌
derive_gaps_exact_example =
    derive_gaps_exact 5 1 (pos 0) (pos 12) 13 (omega arith) week-Fits (omega arith)

derive_gaps-diverges_example : derive_gaps 1000 (policy 0 1) (pos 0) (pos 12) ≡ none
unfolding ◌+ℤ◌
derive_gaps-diverges_example =
    derive_gaps-diverges 1000 1 (pos 0) (pos 12) (omega arith, omega arith)
      (omega arith, omega arith) (omega arith)

first-Fits : Fits 5 1 (pos 0) (pos 6)
unfolding ◌+ℤ◌
first-Fits = record {
  start_fits = (omega arith, omega arith);
  start_end = omega arith;
  now_end = omega arith;
}

abbrev genesis : Checkpoint
genesis = record {
  sequence = 7;
  previous_digest = none;
  digest = replicate 32 1;
  interval_start_ms = pos 0;
  interval_end_ms = pos 5;
  state = committed;
}

abbrev second : Checkpoint
second = record {
  sequence = 8;
  previous_digest = some (replicate 32 1);
  digest = replicate 32 2;
  interval_start_ms = pos 5;
  interval_end_ms = pos 10;
  state = committed;
}

abbrev third : Checkpoint
third = record {
  sequence = 9;
  previous_digest = some (replicate 32 2);
  digest = replicate 32 3;
  interval_start_ms = pos 10;
  interval_end_ms = pos 15;
  state = committed;
}

link_second : link_next genesis second ≡ ok tt
unfolding link_next bytes_eq
link_second = refl

link_third : link_next second third ≡ ok tt
unfolding link_next bytes_eq
link_third = refl

segments_between_exact_example :
    in_segments (pos 11) (segments_between (pos 0) (pos 12) missed)
    ≡ (is_between (pos 0) (pos 12) (pos 11) && not (in_gaps (pos 11) missed))
unfolding ◌+ℤ◌
segments_between_exact_example =
    segments_between_exact (pos 11) (pos 0) (pos 12) (pos 0) missed
      (omega arith, omega arith, (omega arith, omega arith, tt))
