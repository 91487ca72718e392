-- ===== src/Verifier/Report/Freshness.antt =====
-- The texts of `summary` (crates/verifier/src/report.rs).
use linvesther.Prelude.{◌≡◌, ◌≢◌, ◌++◌, refl, Bool, true, false, not, if◌then◌else◌}
use linvesther.Prelude.Int.{ℤ}
use linvesther.Prelude.Bytes.{Bytes, codes}
use linvesther.Verifier.Report.{
  Mode, offline, online, VerificationReport, all_pass, valid_text, summary,
}

-- The summary for each outcome of the checks and each mode.
abbrev pub Summarises : (ℤ → Bytes) → Bool → Mode → Bytes → Type 0
Summarises display false mode text = (text ≡ codes "INVALID") × (text ≢ codes "VALID")
Summarises display true online text = text ≡ codes "VALID"
Summarises display true (offline t) text =
    (text ≡ codes "VALID_AS_OF(" ++ display t ++ codes ")")
    × (text ≢ codes "VALID")
    × (text ≢ codes "INVALID")

outcome :
    (display : ℤ → Bytes) (passes : Bool) (mode : Mode)
    → Summarises display passes mode
        (if not passes then codes "INVALID" else valid_text display mode)
unfolding valid_text
outcome display false mode = (refl, λ e. cc)
outcome display true online = refl
outcome display true (offline t) = (refl, λ e. cc, λ e. cc)

-- Whatever the checks gave and in whichever mode, the summary reads INVALID if a check did not pass;
-- if all passed it is VALID online, and offline it is VALID_AS_OF( with the time, which is neither of
-- the two words: an offline verification never reads as one of the present.
summary-Summarises :
    (display : ℤ → Bytes) (report : VerificationReport)
    → Summarises display (all_pass report) report.mode (summary display report)
unfolding summary
summary-Summarises display report = outcome display (all_pass report) report.mode
