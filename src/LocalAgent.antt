-- ===== src/LocalAgent.antt =====
-- services/local-agent: the local computation, and its cursor over the stream of events.
pub mod Resumes
use linvesther.Prelude.{
  ℕ, zero, suc, ◌+◌, ◌*◌, ◌/◌, ◌%◌, ◌^◌, List, [], ◌∷◌, Bool, true, false, length, min,
}
use linvesther.Prelude.Bytes.{Bytes}
use linvesther.Prelude.Int.{ℤ, pos}
use linvesther.Prelude.Machine.{◌+i64◌}
use linvesther.Commitments.Hash.{Sha256}

pub record LedgerEvent : Type 0 where
  pub id : Bytes
  pub delta : ℤ

pub record LocalOnlyInput : Type 0 where
  pub api_key : Bytes
  pub api_secret : Bytes
  pub witness_bytes : Bytes
  pub ledger_events : List LedgerEvent

pub record OperatorSafeResult : Type 0 where
  pub event_count : ℕ
  pub balance : ℤ
  pub fingerprint : ℕ

-- `^` on the given number of bits.
unfoldable pub bit_xor : ℕ → ℕ → ℕ → ℕ
bit_xor zero a b = 0
bit_xor (suc bits) a b = (a % 2 + b % 2) % 2 + 2 * bit_xor bits (a / 2) (b / 2)

-- The fold of `wrapping_add` over the bytes of a digest.
unfoldable pub sum_bytes : ℕ → Bytes → ℕ
sum_bytes acc [] = acc
sum_bytes acc (byte ∷ bytes) = sum_bytes ((acc + byte) % 2 ^ 64) bytes

module _ (sha : Sha256) where
  unfoldable pub next_fingerprint : ℕ → Bytes → ℕ
  unfolding bit_xor
  next_fingerprint fingerprint id =
      bit_xor 64 (fingerprint * 1099511628211 % 2 ^ 64) (sum_bytes 0 (sha.digest id))

  -- The loop, with `balance` and `fingerprint`.
  unfoldable pub execute_loop : List LedgerEvent → ℤ → ℕ → ℤ × ℕ
  execute_loop [] balance fingerprint = (balance, fingerprint)
  execute_loop (event ∷ events) balance fingerprint =
      execute_loop events (balance +i64 event.delta) (next_fingerprint fingerprint event.id)

  unfoldable pub execute_locally : LocalOnlyInput → OperatorSafeResult
  execute_locally input =
      let done = execute_loop input.ledger_events (pos 0) 0 in
      record { event_count = length input.ledger_events; balance = done.0; fingerprint = done.1 }

  -- `to_vec` is `serde_json::to_vec`.
  unfoldable pub canonical_result_digest :
      (to_vec : OperatorSafeResult → Bytes) → OperatorSafeResult → Bytes
  canonical_result_digest to_vec result = sha.digest (to_vec result)

pub record LocalAgentState : Type 0 where
  pub processed_through : ℕ

abbrev pub initial : LocalAgentState
initial = record { processed_through = 0 }

-- The slice from an index on.
unfoldable pub drop {ℓ} : {A : Type ℓ} → ℕ → List A → List A
drop zero xs = xs
drop (suc n) [] = []
drop (suc n) (x ∷ xs) = drop n xs

unfoldable pub events_to_process :
    LocalAgentState → List LedgerEvent → List LedgerEvent × LocalAgentState
events_to_process state all_events = (
  drop (min state.processed_through (length all_events)) all_events,
  record { processed_through = length all_events },
)
