-- ===== src/Domain/Ledger.antt =====
-- crates/domain/ledger: events and the accumulator of balances.
pub mod Spec
pub mod Refinement
use linvesther.Prelude.{
  ℕ, List, [], ◌∷◌, ◌++◌, Option, none, some, Bool, true, false, ◌&&◌, Result, ok, err, ◌>>=◌,
  and_then, length, ◌==◌, if◌then◌else◌,
}
use linvesther.Prelude.Bytes.{Bytes, bytes_eq}
use linvesther.Prelude.Maps.{get, insert, keys_of, pair_keys, bytes_keys}
use linvesther.Domain.Decimal.{Decimals}

pub record LedgerLeg : Type 0 where
  pub asset : Bytes
  pub amount : Bytes
  pub is_credit : Bool

pub record LedgerEvent : Type 0 where
  pub source_namespace : Bytes
  pub source_id : Bytes
  pub economic_time_ms : ℕ
  pub observed_time_ms : ℕ
  pub legs : List LedgerLeg
  pub fee : Option LedgerLeg

unfoldable pub key : LedgerEvent → Bytes × Bytes
key event = (event.source_namespace, event.source_id)

pub data LedgerError : Type 0 where
  conflict : (namespace source_id : Bytes) → LedgerError
  invalid_amount : (asset amount : Bytes) → LedgerError

-- The derived `==`.
abbrev pub bool_eq : Bool → Bool → Bool
bool_eq true b = b
bool_eq false true = false
bool_eq false false = true

unfoldable pub leg_eq : LedgerLeg → LedgerLeg → Bool
leg_eq a b =
    bytes_eq a.asset b.asset && bytes_eq a.amount b.amount && bool_eq a.is_credit b.is_credit

unfoldable pub legs_eq : List LedgerLeg → List LedgerLeg → Bool
legs_eq [] [] = true
legs_eq [] (b ∷ bs) = false
legs_eq (a ∷ as_) [] = false
legs_eq (a ∷ as_) (b ∷ bs) = leg_eq a b && legs_eq as_ bs

unfoldable pub fee_eq : Option LedgerLeg → Option LedgerLeg → Bool
fee_eq none none = true
fee_eq none (some b) = false
fee_eq (some a) none = false
fee_eq (some a) (some b) = leg_eq a b

unfoldable pub event_eq : LedgerEvent → LedgerEvent → Bool
event_eq a b =
    bytes_eq a.source_namespace b.source_namespace
    && bytes_eq a.source_id b.source_id
    && a.economic_time_ms == b.economic_time_ms
    && a.observed_time_ms == b.observed_time_ms
    && legs_eq a.legs b.legs
    && fee_eq a.fee b.fee

-- `legs.iter().chain(fee.iter())`
abbrev pub chain_fee : List LedgerLeg → Option LedgerLeg → List LedgerLeg
chain_fee legs none = legs
chain_fee legs (some leg) = legs ++ (leg ∷ [])

module _ (dec : Decimals) where
  open dec use {Decimal, zero_dec, checked_add, negate, from_str}

  pub record Ledger : Type 0 where
    pub events : List ((Bytes × Bytes) × LedgerEvent)
    pub balances : List (Bytes × Decimal)

  unfoldable pub new : Ledger
  new = record { events = []; balances = [] }

  -- `Decimal::from_str` and the sign.
  unfoldable pub signed_of : LedgerLeg → Option Decimal → Result LedgerError Decimal
  signed_of leg none = err (invalid_amount leg.asset leg.amount)
  signed_of leg (some amount) = ok (if leg.is_credit then amount else negate amount)

  unfoldable pub signed_amount : LedgerLeg → Result LedgerError Decimal
  unfolding signed_of
  signed_amount leg = signed_of leg (from_str leg.amount)

  -- The loop that parses every leg before a balance is touched.
  unfoldable pub parse_deltas : List LedgerLeg → Result LedgerError (List (Bytes × Decimal))
  parse_deltas [] = ok []
  parse_deltas (leg ∷ legs) = do
    delta ← signed_amount leg
    deltas ← parse_deltas legs
    ok ((leg.asset, delta) ∷ deltas)

  -- `unwrap_or(Decimal::ZERO)`
  abbrev pub or_zero : Option Decimal → Decimal
  or_zero none = zero_dec
  or_zero (some d) = d

  -- The loop of `+=`, which panics on overflow.
  unfoldable pub apply_deltas :
      List (Bytes × Decimal) → List (Bytes × Decimal) → Option (List (Bytes × Decimal))
  apply_deltas balances [] = some balances
  apply_deltas balances ((asset, delta) ∷ deltas) =
      and_then (checked_add (or_zero (get asset balances)) delta)
        (λ total. apply_deltas (insert asset total balances) deltas)

  -- The ledger after the call and the answer; `none` is a panic.
  unfoldable pub ingest_parsed :
      Ledger
      → LedgerEvent
      → Result LedgerError (List (Bytes × Decimal))
      → Option (Ledger × Result LedgerError (Unit {0}))
  ingest_parsed ledger event (err e) = some (ledger, err e)
  ingest_parsed ledger event (ok deltas) =
      and_then (apply_deltas ledger.balances deltas) (λ balances.
        some
          (record { events = insert (key event) event ledger.events; balances = balances }, ok tt))

  -- The `if let` on the event recorded under the key, and what follows it.
  unfoldable pub ingest_over :
      Option LedgerEvent → Ledger → LedgerEvent → Option (Ledger × Result LedgerError (Unit {0}))
  unfolding ingest_parsed
  ingest_over (some existing) ledger event =
      if event_eq existing event
      then some (ledger, ok tt)
      else some (ledger, err (conflict event.source_namespace event.source_id))
  ingest_over none ledger event =
      ingest_parsed ledger event (parse_deltas (chain_fee event.legs event.fee))

  unfoldable pub ingest : Ledger → LedgerEvent → Option (Ledger × Result LedgerError (Unit {0}))
  unfolding ingest_over
  ingest ledger event = ingest_over (get (key event) ledger.events) ledger event

  unfoldable pub balance : Ledger → Bytes → Decimal
  balance ledger asset = or_zero (get asset ledger.balances)

  unfoldable pub event_at : Ledger → Bytes → Bytes → Option LedgerEvent
  event_at ledger namespace source_id = get (namespace, source_id) ledger.events

  unfoldable pub event_count : Ledger → ℕ
  event_count ledger = length ledger.events

  unfoldable pub assets : Ledger → List Bytes
  assets ledger = keys_of ledger.balances
