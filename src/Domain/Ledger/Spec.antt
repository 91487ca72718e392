-- ===== src/Domain/Ledger/Spec.antt =====
-- The abstract ledger: the log of the events that were accepted, in order.
use linvesther.Prelude.{
  List, [], ◌∷◌, ◌++◌, Option, none, some, Result, ok, err, and_then, if◌then◌else◌,
}
use linvesther.Prelude.Bytes.{Bytes, bytes_eq}
use linvesther.Prelude.Maps.{pair_eqb}
use linvesther.Domain.Decimal.{Decimals}
use linvesther.Domain.Ledger.{
  LedgerEvent, LedgerError, conflict, key, event_eq, chain_fee, parse_deltas,
}

-- The accepted event with a key.
abbrev pub recorded : Bytes × Bytes → List LedgerEvent → Option LedgerEvent
recorded k [] = none
recorded k (event ∷ log) = if pair_eqb (key event) k then some event else recorded k log

module _ (dec : Decimals) where
  open dec use {Decimal, checked_add}

  abbrev pub deltas_or_nil : Result LedgerError (List (Bytes × Decimal)) → List (Bytes × Decimal)
  deltas_or_nil (ok deltas) = deltas
  deltas_or_nil (err e) = []

  -- Every change of a balance that the log makes.
  abbrev pub log_deltas : List LedgerEvent → List (Bytes × Decimal)
  log_deltas [] = []
  log_deltas (event ∷ log) =
      deltas_or_nil (parse_deltas dec (chain_fee event.legs event.fee)) ++ log_deltas log

  -- The changes of one asset added up in order, from a start.
  abbrev pub sum_of : Bytes → Decimal → List (Bytes × Decimal) → Option Decimal
  sum_of asset start [] = some start
  sum_of asset start ((a, delta) ∷ deltas) =
      if bytes_eq a asset
      then and_then (checked_add start delta) (λ total. sum_of asset total deltas)
      else sum_of asset start deltas

  -- One step of the abstract ledger.
  abbrev pub parsed_step :
      List LedgerEvent
      → LedgerEvent
      → Result LedgerError (List (Bytes × Decimal))
      → List LedgerEvent × Result LedgerError (Unit {0})
  parsed_step log event (ok deltas) = (log ++ (event ∷ []), ok tt)
  parsed_step log event (err e) = (log, err e)

  abbrev pub step_over :
      Option LedgerEvent
      → List LedgerEvent
      → LedgerEvent
      → List LedgerEvent × Result LedgerError (Unit {0})
  step_over (some existing) log event = (
    log,
    if event_eq existing event
        then ok tt
        else err (conflict event.source_namespace event.source_id),
  )
  step_over none log event =
      parsed_step log event (parse_deltas dec (chain_fee event.legs event.fee))

  abbrev pub step :
      List LedgerEvent → LedgerEvent → List LedgerEvent × Result LedgerError (Unit {0})
  step log event = step_over (recorded (key event) log) log event
