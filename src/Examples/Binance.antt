-- ===== src/Examples/Binance.antt =====
-- The mark of a symbol on a small series of candles.
use linvesther.Prelude.{ℕ, List, [], ◌∷◌, Bool, true, false}
use linvesther.Binance.Prices.{Candle, Mark}

abbrev candle_until : ℕ → ℕ → Bool → Candle
candle_until close_time_ms price is_closed = record {
  symbol = 66 ∷ [];
  open_time_ms = 0;
  close_time_ms = close_time_ms;
  close_price = price ∷ [];
  is_closed = is_closed;
}

-- The fourth is not closed and the third closes in the future.
abbrev series : List Candle
series =
    candle_until 60000 49 true
    ∷ candle_until 120000 50 true
    ∷ candle_until 240000 51 true
    ∷ candle_until 180000 52 false
    ∷ []

abbrev series_mark : Mark
series_mark = record {
  symbol = 66 ∷ [];
  price = 50 ∷ [];
  candle_close_time_ms = 120000;
  evaluated_at_ms = 200000;
  age_ms = 80000;
}
