-- ===== src/Jobs/Lease/Exclusive.antt =====
-- Two calls of `try_acquire` (services/compute/jobs/src/lease.rs) for one job.
use linvesther.Prelude.{
  ◌≡◌, inl, inr, refl, sym, ap, ◌∙◌, Option, none, some, Bool-cases, Result, ok, err, ok-injective,
  if◌then◌else◌,
}
use linvesther.Prelude.Int.{ℤ, ◌+ℤ◌, ltb_ℤ}
use linvesther.Prelude.Machine.{+i64_lem, InRange, i64_half}
use linvesther.Jobs.{Job}
use linvesther.Jobs.Lease.{LeaseError, still_leased, lease, acquire_over, try_acquire}

acquired :
    (o : Option ℤ) (job : Job) (now d : ℤ) {got : Job}
    → acquire_over o job now d ≡ ok got
    → got ≡ lease job now d
unfolding acquire_over
acquired none job now d h = sym (ok-injective h)
acquired (some until) job now d h = elim (Bool-cases (ltb_ℤ now until)) [
  | inl held ↦ let e = rw held at h in cc
  | inr free ↦ let e = rw free at h in sym (ok-injective e)
]

-- What a later worker gets, at time t.
abbrev pub answer : ℤ → Job → ℤ → ℤ → Result LeaseError Job
answer until job t d = if ltb_ℤ t until then err (still_leased until t) else ok (lease job t d)

-- After a job was leased at `now` for `d` (the end an `i64`), whoever tries at time `t`, for whatever
-- duration, is refused with the lease's end exactly while t is before now + d, and from then on gets
-- the job with a new lease and nothing else changed but its state.
try_acquire-exclusive :
    (job got : Job) (now d t e : ℤ)
    → InRange i64_half (now +ℤ d)
    → try_acquire job now d ≡ ok got
    → try_acquire got t e ≡ answer (now +ℤ d) got t e
unfolding try_acquire acquire_over lease
try_acquire-exclusive job got now d t e fits h =
    let got_is = acquired job.lease_until_ms job now d h in
    let until : got.lease_until_ms ≡ some (now +ℤ d) =
      ap (λ (j : Job). j.lease_until_ms) got_is ∙ ap some (+i64_lem now d fits) in
    rw until refl
