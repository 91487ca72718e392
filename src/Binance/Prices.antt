-- ===== src/Binance/Prices.antt =====
-- services/collector/binance/prices: the price of a symbol at an instant.
pub mod Fresh
use linvesther.Prelude.{
  ℕ, ◌-◌, List, [], ◌∷◌, Option, none, some, Bool, true, false, ◌&&◌, not, Result, ok, err, ◌>>=◌,
  ok_or, raise_if, ltb, leb, if◌then◌else◌,
}
use linvesther.Prelude.Bytes.{Bytes}
use linvesther.Prelude.Sort.{keep}

pub record Candle : Type 0 where
  pub symbol : Bytes
  pub open_time_ms : ℕ
  pub close_time_ms : ℕ
  pub close_price : Bytes
  pub is_closed : Bool

pub record PricePolicy : Type 0 where
  pub max_age_ms : ℕ

abbrev pub reference : PricePolicy
reference = record { max_age_ms = 120000 }

pub record Mark : Type 0 where
  pub symbol : Bytes
  pub price : Bytes
  pub candle_close_time_ms : ℕ
  pub evaluated_at_ms : ℕ
  pub age_ms : ℕ

pub data MarkError : Type 0 where
  missing_price : (symbol : Bytes) (evaluated_at_ms : ℕ) → MarkError
  candle_not_closed : (symbol : Bytes) → MarkError
  candle_in_the_future : (symbol : Bytes) (evaluated_at_ms candle_close_time_ms : ℕ) → MarkError
  candle_too_old : (symbol : Bytes) (age_ms max_age_ms : ℕ) → MarkError

-- The test of the filter.
unfoldable pub is_eligible : ℕ → Candle → Bool
is_eligible evaluated_at_ms c = c.is_closed && leb c.close_time_ms evaluated_at_ms

-- `max_by_key`: the last of the greatest.
unfoldable pub max_from : Candle → List Candle → Candle
max_from best [] = best
max_from best (c ∷ candles) =
    max_from (if ltb c.close_time_ms best.close_time_ms then best else c) candles

unfoldable pub max_by_close : List Candle → Option Candle
max_by_close [] = none
max_by_close (c ∷ candles) = some (max_from c candles)

unfoldable pub select_candle : List Candle → ℕ → Option Candle
select_candle candles evaluated_at_ms =
    max_by_close (keep (λ c. is_eligible evaluated_at_ms c) candles)

unfoldable pub resolve_mark : Bytes → Option Candle → ℕ → PricePolicy → Result MarkError Mark
resolve_mark symbol candle evaluated_at_ms policy = do
  c ← ok_or candle (missing_price symbol evaluated_at_ms)
  _ ← raise_if (not c.is_closed) (candle_not_closed symbol)
  _ ←
      raise_if (ltb evaluated_at_ms c.close_time_ms)
        (candle_in_the_future symbol evaluated_at_ms c.close_time_ms)
  let age_ms = evaluated_at_ms - c.close_time_ms
  _ ← raise_if (ltb policy.max_age_ms age_ms) (candle_too_old symbol age_ms policy.max_age_ms)
  ok (record {
    symbol = symbol;
    price = c.close_price;
    candle_close_time_ms = c.close_time_ms;
    evaluated_at_ms = evaluated_at_ms;
    age_ms = age_ms;
  })

unfoldable pub mark_from_series : Bytes → List Candle → ℕ → PricePolicy → Result MarkError Mark
mark_from_series symbol candles evaluated_at_ms policy =
    resolve_mark symbol (select_candle candles evaluated_at_ms) evaluated_at_ms policy
