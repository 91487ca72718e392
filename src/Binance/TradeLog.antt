-- ===== src/Binance/TradeLog.antt =====
-- services/collector/binance/worker/src/trade_log.rs: trades in pages, with a cursor.
pub mod RoundTrip
pub mod Order
pub mod Cut
pub mod Pages
use linvesther.Prelude.{
  ℕ, zero, suc, ◌+◌, List, [], ◌∷◌, ◌++◌, map, Option, none, some, Bool, true, false, ◌&&◌, ◌||◌,
  not, Result, ok, err, and_then, ltb, leb, ◌==◌, length, is_empty, if◌then◌else◌,
}
use linvesther.Prelude.Bytes.{Bytes, bytes_eq, codes}
use linvesther.Prelude.Maps.{bytes_lt}
use linvesther.Prelude.Sort.{sort_by, le_of, keep}
use linvesther.Binance.Trades.{Trade}

pub record Cursor : Type 0 where
  pub time_ms : ℕ
  pub id : ℕ
  pub symbol : Bytes

-- The text before the first `:` (58), and the text after it.
unfoldable pub split_colon : Bytes → Option (Bytes × Bytes)
split_colon [] = none
split_colon (b ∷ text) =
    let rest = split_colon text in
    if b == 58 then some ([], text) else and_then rest (λ parts. some (b ∷ parts.0, parts.1))

-- `to_string` and `parse_u64` write and read a number in decimal.
module _ (to_string : ℕ → Bytes) (parse_u64 : Bytes → Option ℕ) where
  unfoldable pub encode : Cursor → Bytes
  encode cursor = to_string cursor.time_ms ++ (58 ∷ to_string cursor.id ++ (58 ∷ cursor.symbol))

  -- `splitn(3, ':')`; without three parts there is no cursor.
  unfoldable pub parse : Bytes → Option Cursor
  parse text = and_then (split_colon text) (λ first. and_then (parse_u64 first.0) (λ time_ms.
      and_then (split_colon first.1) (λ second. and_then (parse_u64 second.0) (λ id.
        if is_empty second.1
        then none
        else some (record { time_ms = time_ms; id = id; symbol = second.1 })))))

unfoldable pub cursor_of : Trade → Cursor
cursor_of t = record { time_ms = t.time_ms; id = t.id; symbol = t.symbol }

abbrev pub max_page : ℕ
max_page = 500

abbrev pub default_page : ℕ
default_page = 100

pub record TradeQuery : Type 0 where
  pub symbol : Option Bytes
  pub since_ms : Option ℕ
  pub until_ms : Option ℕ
  pub after : Option Cursor
  pub limit : ℕ

-- The test of the two times.
unfoldable pub times_reversed : Option ℕ → Option ℕ → Bool
times_reversed (some since) (some until) = ltb until since
times_reversed none until = false
times_reversed (some since) none = false

unfoldable pub check : TradeQuery → Result Bytes (Unit {0})
check query =
    if query.limit == 0 || ltb max_page query.limit
    then err (codes "limit must be between 1 and 500")
    else if times_reversed query.since_ms query.until_ms
    then err (codes "sinceMs must not be after untilMs")
    else ok tt

-- `eq_ignore_ascii_case`
unfoldable pub to_lower : ℕ → ℕ
to_lower b = if leb 65 b && leb b 90 then b + 32 else b

unfoldable pub eq_ignore_ascii_case : Bytes → Bytes → Bool
eq_ignore_ascii_case a b = bytes_eq (map to_lower a) (map to_lower b)

-- The order of (time, symbol, id).
unfoldable pub precedes :
    (time : ℕ) (symbol : Bytes) (id : ℕ) → (time' : ℕ) (symbol' : Bytes) (id' : ℕ) → Bool
precedes time symbol id time' symbol' id' =
    ltb time time'
    || (time == time' && (bytes_lt symbol symbol' || (bytes_eq symbol symbol' && ltb id id')))

unfoldable pub matches_symbol : Option Bytes → Trade → Bool
matches_symbol none t = true
matches_symbol (some symbol) t = eq_ignore_ascii_case t.symbol symbol

unfoldable pub matches_since : Option ℕ → Trade → Bool
matches_since none t = true
matches_since (some since) t = not (ltb t.time_ms since)

unfoldable pub matches_until : Option ℕ → Trade → Bool
matches_until none t = true
matches_until (some until) t = not (ltb until t.time_ms)

unfoldable pub matches_after : Option Cursor → Trade → Bool
matches_after none t = true
matches_after (some after) t = precedes after.time_ms after.symbol after.id t.time_ms t.symbol t.id

unfoldable pub matches : Trade → TradeQuery → Bool
matches t query =
    matches_symbol query.symbol t
    && matches_since query.since_ms t
    && matches_until query.until_ms t
    && matches_after query.after t

-- The comparison of the sort.
abbrev pub trade_lt : Trade → Trade → Bool
trade_lt a b = precedes a.time_ms a.symbol a.id b.time_ms b.symbol b.id

unfoldable pub truncate : ℕ → List Trade → List Trade
truncate zero trades = []
truncate (suc n) [] = []
truncate (suc n) (t ∷ trades) = t ∷ truncate n trades

unfoldable pub last : List Trade → Option Trade
last [] = none
last (t ∷ []) = some t
last (t ∷ u ∷ trades) = last (u ∷ trades)

pub record TradePage : Type 0 where
  pub trades : List Trade
  pub next : Option Cursor

unfoldable pub page : List Trade → TradeQuery → TradePage
page trades query =
    let matching = sort_by (le_of trade_lt) (keep (λ t. matches t query) trades) in
    let shown = truncate query.limit matching in
    record {
      trades = shown;
      next =
          if ltb query.limit (length matching)
          then and_then (last shown) (λ t. some (cursor_of t))
          else none;
    }
