-- ===== src/Checkpoint/Calendar/Divergence.antt =====
-- `derive_gaps` (crates/domain/checkpoint/src/calendar.rs) with an interval of zero.
use linvesther.Prelude.{ℕ, zero, suc, ◌≡◌, ◌∙◌, refl, none}
use linvesther.Prelude.Int.{ℤ, pos, ◌+ℤ◌, ◌≤ℤ◌, int_laws, ltb_ℤ_of_le}
use linvesther.Prelude.Machine.{◌+i64◌, +i64_lem, InRange, i64_half}
use linvesther.Checkpoint.Calendar.{gaps_loop, derive_gaps}
use linvesther.Checkpoint.Calendar.Gaps.{policy}

still : (start : ℤ) → InRange i64_half start → start +i64 pos 0 ≡ start
still start h =
    let same : start +ℤ pos 0 ≡ start = omega int_laws in +i64_lem start (pos 0) (rw same h) ∙ same

gaps_loop-none :
    (fuel g : ℕ) (start now : ℤ)
    → InRange i64_half start
    → InRange i64_half (start +ℤ pos g)
    → start +ℤ pos g ≤ℤ now
    → gaps_loop fuel (policy 0 g) start now ≡ none
unfolding gaps_loop
gaps_loop-none zero g start now h k le = refl
gaps_loop-none (suc fuel) g start now h k le =
    let late = ltb_ℤ_of_le now (start +ℤ pos g) le in
    rw (still start h, +i64_lem start (pos g) k, late, gaps_loop-none fuel g start now h k le) refl

-- With an interval of 0 ms and a deadline that has passed, no number of rounds is enough: the
-- loop of `derive_gaps` stands still and never reaches its `break`.
pub derive_gaps-diverges :
    (fuel g : ℕ) (last now : ℤ)
    → InRange i64_half last
    → InRange i64_half (last +ℤ pos g)
    → last +ℤ pos g ≤ℤ now
    → derive_gaps fuel (policy 0 g) last now ≡ none
unfolding derive_gaps
derive_gaps-diverges fuel g last now h k le = gaps_loop-none fuel g last now h k le
