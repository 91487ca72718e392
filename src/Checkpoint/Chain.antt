-- ===== src/Checkpoint/Chain.antt =====
-- crates/domain/checkpoint/src/chain.rs: whether a checkpoint links to the one before it. A digest
-- is a byte string; sequence numbers are `u64`, whose `+ 1` wraps.
use linvesther.Prelude.{
  ℕ, ◌+◌, ◌%◌, ◌^◌, ◌<◌, ◌≡◌, ◌≢◌, ◌↔◌, Bool, true, false, not, Option, none, some, List, [], ◌∷◌,
  arith, ◌==◌, Result, ok, err, length, get_elem?, if◌then◌else◌,
}
use linvesther.Prelude.{ap, subst, zero, suc}
use linvesther.Prelude.Int.{ℤ}
use linvesther.Prelude.Bytes.{Bytes, bytes_eq, bytes_eq_iff}

pub data CheckpointState : Type 0 where
  collecting reconciled committed anchored finalized : CheckpointState

pub record Checkpoint : Type 0 where
  pub sequence : ℕ
  pub previous_digest : Option Bytes
  pub digest : Bytes
  pub interval_start_ms : ℤ
  pub interval_end_ms : ℤ
  pub state : CheckpointState

pub data ChainError : Type 0 where
  sequence_mismatch : (expected got : ℕ) → ChainError
  previous_digest_mismatch : ChainError

-- `next.previous_digest != Some(previous.digest)` is the negation of this.
abbrev is_some_of : Bytes → Option Bytes → Bool
is_some_of d none = false
is_some_of d (some e) = bytes_eq e d

unfoldable pub link_next : Checkpoint → Checkpoint → Result ChainError (Unit {0})
link_next previous next =
    let expected_sequence = (previous.sequence + 1) % 2 ^ 64 in
    if not (next.sequence == expected_sequence)
    then err (sequence_mismatch expected_sequence next.sequence)
    else if not (is_some_of previous.digest next.previous_digest)
    then err previous_digest_mismatch
    else ok tt

is_some_of_iff : (d : Bytes) (o : Option Bytes) → (is_some_of d o ≡ true) ↔ (o ≡ some d)
is_some_of_iff d none = (λ h. cc, λ h. cc)
is_some_of_iff d (some e) = (λ h. ap some ((bytes_eq_iff e d).0 h), λ h. (bytes_eq_iff e d).1 (cc))

-- What each answer of `link_next` says.
abbrev pub Links : Checkpoint → Checkpoint → Result ChainError (Unit {0}) → Type 0
Links previous next (ok _) =
    (next.sequence ≡ (previous.sequence + 1) % 2 ^ 64)
    × (next.previous_digest ≡ some previous.digest)
Links previous next (err (sequence_mismatch expected got)) =
    (expected ≡ (previous.sequence + 1) % 2 ^ 64) × (got ≡ next.sequence) × (got ≢ expected)
Links previous next (err previous_digest_mismatch) =
    (next.sequence ≡ (previous.sequence + 1) % 2 ^ 64)
    × (next.previous_digest ≢ some previous.digest)

-- On every branch of `link_next`: it accepts only a next checkpoint whose sequence is one more
-- (modulo 2^64) and whose previous digest is the digest of the previous checkpoint; it reports a
-- sequence mismatch, with both numbers, only if the sequence is another; and it reports a digest
-- mismatch only if the sequence is right and the digest is another or missing.
link_next-Links : (previous next : Checkpoint) → Links previous next (link_next previous next)
unfolding link_next
link_next-Links previous next = ground (arith, is_some_of_iff previous.digest next.previous_digest)

-- Every checkpoint of the list links to the one before it, the first to `previous`.
abbrev pub AllLinked : Checkpoint → List Checkpoint → Type 0
AllLinked previous [] = Unit
AllLinked previous (next ∷ rest) = (link_next previous next ≡ ok tt) × AllLinked next rest

link_next-ok :
    (previous next : Checkpoint) → link_next previous next ≡ ok tt → Links previous next (ok tt)
link_next-ok previous next e = subst (Links previous next) e (link_next-Links previous next)

-- In a track in which every checkpoint was accepted by `link_next`, and whose sequence numbers do
-- not pass 2^64, the checkpoint at position `k` after the first has the first's sequence plus
-- k + 1, so no number is skipped or used twice.
AllLinked-sequence :
    (first : Checkpoint) (rest : List Checkpoint) (k : ℕ) (c : Checkpoint)
    → AllLinked first rest
    → first.sequence + length rest < 2 ^ 64
    → get_elem? rest k ≡ some c
    → c.sequence ≡ first.sequence + k + 1
AllLinked-sequence first [] k c h small e = cc
AllLinked-sequence first (d ∷ rest) zero c h small e =
    let same : d ≡ c = cc in rw (← same) (omega (arith, link_next-ok first d h.0))
AllLinked-sequence first (d ∷ rest) (suc k) c h small e = omega (
  arith,
  link_next-ok first d h.0,
  AllLinked-sequence d rest k c h.1 (omega (arith, link_next-ok first d h.0)) e,
)
