-- ===== src/Verifier/Coverage.antt =====
-- crates/verifier/src/coverage.rs: the claimed gaps against those of the calendar. On fuel, as
-- `derive_gaps` is.
use linvesther.Prelude.{
  ℕ, List, [], ◌∷◌, Option, some, Bool, true, false, ◌&&◌, not, Result, ok, err, and_then,
  if◌then◌else◌,
}
use linvesther.Prelude.Int.{ℤ, eqb_ℤ}
use linvesther.Checkpoint.Calendar.{CalendarPolicy, Gap, derive_gaps}

pub record CoverageMismatch : Type 0 where
  pub recomputed : List Gap
  pub claimed : List Gap

-- The derived `==` of `Vec<Gap>`.
unfoldable pub gaps_eq : List Gap → List Gap → Bool
gaps_eq [] [] = true
gaps_eq [] (g ∷ gs) = false
gaps_eq (g ∷ gs) [] = false
gaps_eq (g ∷ gs) (h ∷ hs) = eqb_ℤ g.start_ms h.start_ms && eqb_ℤ g.end_ms h.end_ms && gaps_eq gs hs

unfoldable pub verify_coverage :
    ℕ → CalendarPolicy → ℤ → ℤ → List Gap → Option (Result CoverageMismatch (Unit {0}))
unfolding gaps_eq
verify_coverage fuel policy last_committed_end_ms now_ms claimed_gaps =
    and_then (derive_gaps fuel policy last_committed_end_ms now_ms) (λ recomputed. some (
      if not (gaps_eq recomputed claimed_gaps)
      then err (record { recomputed = recomputed; claimed = claimed_gaps })
      else ok tt))
