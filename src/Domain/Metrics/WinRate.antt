-- ===== src/Domain/Metrics/WinRate.antt =====
-- crates/domain/metrics/src/winrate.rs: the share of profitable round trips, matched first in,
-- first out. The loop over the open lots runs on fuel, one more than there are lots.
pub mod Counts
pub mod Terminates
use linvesther.Prelude.{
  ℕ, zero, suc, List, [], ◌∷◌, ◌++◌, Option, none, some, Bool, true, false, Result, ok, err, ◌>>=◌,
  leb, length, ◌==◌, if◌then◌else◌,
}
use linvesther.Prelude.Sort.{sort_by}
use linvesther.Domain.Decimal.{Decimals, Stop, raised, panic, or_panic}

pub data WinRateError : Type 0 where
  no_closed_round_trips : WinRateError

-- The fuel of the loop.
pub data OutOfFuel : Type 0 where
  out_of_fuel : OutOfFuel

module _ (dec : Decimals) where
  open dec use {Decimal, zero_dec, checked_sub, checked_mul, checked_div, lt_dec, eq_dec, from_u64}

  pub record Fill : Type 0 where
    pub time_ms : ℕ
    pub qty : Decimal
    pub price : Decimal
    pub is_buy : Bool

  pub record WinRateResult : Type 0 where
    pub closed_round_trips : ℕ
    pub wins : ℕ
    pub win_rate : Decimal

  -- The variables `open_lots`, `wins` and `closed`.
  pub record Matching : Type 0 where
    pub open_lots : List (Decimal × Decimal)
    pub wins : ℕ
    pub closed : ℕ

  -- `Decimal::min`
  abbrev pub min_dec : Decimal → Decimal → Decimal
  min_dec a b = if lt_dec b a then b else a

  -- The front lot after a match: gone, or what is left of it.
  unfoldable pub reduce_lot :
      Decimal → Decimal → List (Decimal × Decimal) → List (Decimal × Decimal)
  reduce_lot remaining_lot lot_price lots =
      if eq_dec remaining_lot zero_dec then lots else (remaining_lot, lot_price) ∷ lots

  unfoldable pub count_win : Decimal → ℕ → ℕ
  count_win pnl wins = if lt_dec zero_dec pnl then suc wins else wins

  -- The body of the `while` for the front lot: what remains to be sold, and the new state.
  unfoldable pub match_lot :
      (price remaining lot_qty lot_price : Decimal)
      → List (Decimal × Decimal)
      → (wins closed : ℕ) → Result (Stop OutOfFuel) (Decimal × Matching)
  match_lot price remaining lot_qty lot_price lots wins closed = do
    let matched = min_dec remaining lot_qty
    gain ← or_panic (checked_sub price lot_price)
    pnl ← or_panic (checked_mul gain matched)
    left ← or_panic (checked_sub remaining matched)
    remaining_lot ← or_panic (checked_sub lot_qty matched)
    ok (
      left,
      record {
        open_lots = reduce_lot remaining_lot lot_price lots;
        wins = count_win pnl wins;
        closed = suc closed;
      },
    )

  -- The `while` of one sell.
  unfoldable pub match_loop :
      ℕ
      → (price remaining : Decimal) → List (Decimal × Decimal)
      → (wins closed : ℕ) → Result (Stop OutOfFuel) Matching
  match_loop zero price remaining lots wins closed = err (raised out_of_fuel)
  match_loop (suc fuel) price remaining [] wins closed =
      ok (record { open_lots = []; wins = wins; closed = closed })
  match_loop (suc fuel) price remaining ((lot_qty, lot_price) ∷ lots) wins closed =
      if lt_dec zero_dec remaining
      then (match_lot price remaining lot_qty lot_price lots wins closed >>= λ step.
          match_loop fuel price step.0 step.1.open_lots step.1.wins step.1.closed)
      else ok (record { open_lots = (lot_qty, lot_price) ∷ lots; wins = wins; closed = closed })

  -- The loop over the fills, in the order of their times.
  unfoldable pub fills_loop : List Fill → Matching → Result (Stop OutOfFuel) Matching
  fills_loop [] state = ok state
  fills_loop (fill ∷ fills) state =
      (if fill.is_buy
        then ok (record {
          open_lots = state.open_lots ++ ((fill.qty, fill.price) ∷ []);
          wins = state.wins;
          closed = state.closed;
        })
        else match_loop (suc (length state.open_lots)) fill.price fill.qty state.open_lots
            state.wins state.closed)
      >>= λ next. fills_loop fills next

  -- `sort_by_key(|f| f.time_ms)`, which is stable.
  unfoldable pub in_order : List Fill → List Fill
  in_order fills = sort_by (λ a b. leb a.time_ms b.time_ms) fills

  unfoldable pub win_rate_of :
      Matching → Result (Stop OutOfFuel) (Result WinRateError WinRateResult)
  win_rate_of state = if state.closed == 0 then ok (err no_closed_round_trips) else do
    win_rate ← or_panic (checked_div (from_u64 state.wins) (from_u64 state.closed))
    ok (ok (record { closed_round_trips = state.closed; wins = state.wins; win_rate = win_rate }))

  -- The outer failures are a panic, and the fuel.
  unfoldable pub compute_win_rate :
      List Fill → Result (Stop OutOfFuel) (Result WinRateError WinRateResult)
  compute_win_rate fills = do
    state ← fills_loop (in_order fills) (record { open_lots = []; wins = 0; closed = 0 })
    win_rate_of state
