-- ===== src/Binance/Prices/Fresh.antt =====
-- Lemmas and theorems on `mark_from_series` (services/collector/binance/prices/src/mark.rs).
use linvesther.Prelude.{ℕ, ◌+◌, ◌≡◌, ◌≤◌, ◌⊎◌, List, [], ◌∷◌, true, All}
use linvesther.Prelude.Bytes.{Bytes}
use linvesther.Prelude.Sort.{keep}
use linvesther.Binance.Prices.{Candle, PricePolicy, Mark, is_eligible}

abbrev pub IsAmong : Candle → List Candle → Type 0
IsAmong c [] = ⊥
IsAmong c (d ∷ candles) = (c ≡ d) ⊎ IsAmong c candles

-- One of the candles, which no other closes after.
pub record IsLatest (c : Candle) (candles : List Candle) : Type 0 where
  pub among : IsAmong c candles
  pub latest : All (λ d. d.close_time_ms ≤ c.close_time_ms) candles

-- The candle that a mark was read from.
pub record IsFresh (candles : List Candle) (evaluated_at_ms : ℕ) (policy : PricePolicy)
    (mark : Mark) : Type 0 where
  pub candle : Candle
  pub latest : IsLatest candle (keep (λ c. is_eligible evaluated_at_ms c) candles)
  pub closed : candle.is_closed ≡ true
  pub price_of : mark.price ≡ candle.close_price
  pub age_of : mark.age_ms + candle.close_time_ms ≡ evaluated_at_ms
  pub fresh : mark.age_ms ≤ policy.max_age_ms
