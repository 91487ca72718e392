-- ===== src/Binance/Trades.antt =====
-- services/collector/binance/trades: the trades of each symbol, and how far its pages reach.
pub mod Kept
use linvesther.Prelude.{
  ℕ, ◌+◌, ◌%◌, ◌^◌, List, [], ◌∷◌, Option, none, some, Bool, true, false, ◌&&◌, not, Result, ok,
  err, and_then, ltb, ◌==◌, length, if◌then◌else◌,
}
use linvesther.Prelude.Bytes.{Bytes, bytes_eq}
use linvesther.Prelude.Maps.{get, insert, keys_of, bytes_keys, number_keys}
use linvesther.Domain.Ledger.{bool_eq}

pub data PageOutcome : Type 0 where
  exhausted : PageOutcome
  unproven : PageOutcome

unfoldable pub classify_page : (returned page_capacity : ℕ) → PageOutcome
classify_page returned page_capacity = if ltb returned page_capacity then exhausted else unproven

pub record PaginationTracker : Type 0 where
  pub pages_fetched : ℕ
  pub outcome : PageOutcome

unfoldable pub new_tracker : PaginationTracker
new_tracker = record { pages_fetched = 0; outcome = unproven }

-- The count is a `u32`.
unfoldable pub record_page : PaginationTracker → (returned page_capacity : ℕ) → PaginationTracker
record_page tracker returned page_capacity = record {
  pages_fetched = (tracker.pages_fetched + 1) % 2 ^ 32;
  outcome = classify_page returned page_capacity;
}

abbrev pub is_exhausted_outcome : PageOutcome → Bool
is_exhausted_outcome exhausted = true
is_exhausted_outcome unproven = false

unfoldable pub is_exhausted : PaginationTracker → Bool
is_exhausted tracker = is_exhausted_outcome tracker.outcome

pub record Trade : Type 0 where
  pub symbol : Bytes
  pub id : ℕ
  pub order_id : ℕ
  pub price : Bytes
  pub qty : Bytes
  pub commission : Bytes
  pub commission_asset : Bytes
  pub time_ms : ℕ
  pub is_buyer : Bool

unfoldable pub trade_key : Trade → Bytes × ℕ
trade_key t = (t.symbol, t.id)

-- The derived `==`.
unfoldable pub trade_eq : Trade → Trade → Bool
trade_eq a b =
    bytes_eq a.symbol b.symbol
    && a.id == b.id
    && a.order_id == b.order_id
    && bytes_eq a.price b.price
    && bytes_eq a.qty b.qty
    && bytes_eq a.commission b.commission
    && bytes_eq a.commission_asset b.commission_asset
    && a.time_ms == b.time_ms
    && bool_eq a.is_buyer b.is_buyer

pub data IngestError : Type 0 where
  conflict : (symbol : Bytes) (id : ℕ) → IngestError

pub record TradeStore : Type 0 where
  pub by_symbol : List (Bytes × List (ℕ × Trade))
  pub pagination : List (Bytes × PaginationTracker)

unfoldable pub new : TradeStore
new = record { by_symbol = []; pagination = [] }

-- `unwrap_or_default()` of an optional map.
abbrev pub or_empty : Option (List (ℕ × Trade)) → List (ℕ × Trade)
or_empty none = []
or_empty (some m) = m

-- The `if let` on the trade recorded under the id.
abbrev pub differs : Option Trade → Trade → Bool
differs none t = false
differs (some existing) t = not (trade_eq existing t)

-- The loop that compares the page with what is recorded.
unfoldable pub check_page : Bytes → List (ℕ × Trade) → List Trade → Result IngestError (Unit {0})
check_page symbol recorded [] = ok tt
check_page symbol recorded (t ∷ trades) =
    if differs (get t.id recorded) t
    then err (conflict symbol t.id)
    else check_page symbol recorded trades

-- `entry(id).or_insert(trade)`
abbrev pub or_insert_over : Option Trade → List (ℕ × Trade) → Trade → List (ℕ × Trade)
or_insert_over none recorded t = insert t.id t recorded
or_insert_over (some existing) recorded t = recorded

unfoldable pub or_insert : List (ℕ × Trade) → Trade → List (ℕ × Trade)
or_insert recorded t = or_insert_over (get t.id recorded) recorded t

unfoldable pub insert_page : List (ℕ × Trade) → List Trade → List (ℕ × Trade)
insert_page recorded [] = recorded
insert_page recorded (t ∷ trades) = insert_page (or_insert recorded t) trades

abbrev pub or_new_tracker : Option PaginationTracker → PaginationTracker
or_new_tracker none = new_tracker
or_new_tracker (some tracker) = tracker

-- What follows the comparison. The entry of the symbol is made in either case.
unfoldable pub ingest_checked :
    Result IngestError (Unit {0})
    → TradeStore
    → Bytes
    → List (ℕ × Trade)
    → List Trade
    → ℕ
    → TradeStore × Result IngestError (Unit {0})
ingest_checked (err e) store symbol recorded trades page_capacity = (
  record { by_symbol = insert symbol recorded store.by_symbol; pagination = store.pagination },
  err e,
)
ingest_checked (ok u) store symbol recorded trades page_capacity = (
  record {
    by_symbol = insert symbol (insert_page recorded trades) store.by_symbol;
    pagination =
        insert symbol
          (record_page (or_new_tracker (get symbol store.pagination)) (length trades) page_capacity)
          store.pagination;
  },
  ok tt,
)

-- The store after the call, and the answer.
unfoldable pub ingest_page :
    TradeStore → Bytes → List Trade → ℕ → TradeStore × Result IngestError (Unit {0})
unfolding ingest_checked
ingest_page store symbol trades page_capacity =
    let recorded = or_empty (get symbol store.by_symbol) in
    ingest_checked (check_page symbol recorded trades) store symbol recorded trades page_capacity

unfoldable pub values_of : List (ℕ × Trade) → List Trade
values_of [] = []
values_of ((id, t) ∷ m) = t ∷ values_of m

unfoldable pub trades_for : TradeStore → Bytes → List Trade
trades_for store symbol = values_of (or_empty (get symbol store.by_symbol))

unfoldable pub trade : TradeStore → Bytes → ℕ → Option Trade
trade store symbol id = and_then (get symbol store.by_symbol) (λ m. get id m)

unfoldable pub symbols : TradeStore → List Bytes
symbols store = keys_of store.by_symbol

unfoldable pub pagination_outcome : TradeStore → Bytes → Option PageOutcome
pagination_outcome store symbol =
    and_then (get symbol store.pagination) (λ tracker. some tracker.outcome)

-- `is_some_and(|t| t.is_exhausted())`
abbrev pub tracker_exhausted : Option PaginationTracker → Bool
tracker_exhausted none = false
tracker_exhausted (some tracker) = is_exhausted tracker

unfoldable pub is_symbol_exhausted : TradeStore → Bytes → Bool
is_symbol_exhausted store symbol = tracker_exhausted (get symbol store.pagination)

abbrev pub tracker_pages : Option PaginationTracker → ℕ
tracker_pages none = 0
tracker_pages (some tracker) = tracker.pages_fetched

unfoldable pub pages_fetched : TradeStore → Bytes → ℕ
pages_fetched store symbol = tracker_pages (get symbol store.pagination)
