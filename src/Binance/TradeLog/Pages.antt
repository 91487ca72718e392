-- ===== src/Binance/TradeLog/Pages.antt =====
-- Lemmas and theorems on `page` (services/collector/binance/worker/src/trade_log.rs).
use linvesther.Prelude.{
  ℕ, zero, suc, ◌≡◌, ◌≤◌, ◌<◌, inl, inr, refl, ◌∙◌, ap, List, [], ◌∷◌, ◌++◌, append-nil, Option,
  none, some, Bool, true, false, ltb, length, All, Bool-cases, arith,
}
use linvesther.Prelude.Sort.{
  keep, le_of, sort_by, IsStrictlySorted, AreApart, AreApart-keep, All-sort_by, sort_by-keep,
  sort_by-IsStrictlySorted, length-sort_by,
}
use linvesther.Binance.Trades.{Trade}
use linvesther.Binance.TradeLog.{
  Cursor, cursor_of, TradeQuery, precedes, trade_lt, matches, matches_symbol, matches_since,
  matches_until, matches_after, truncate, page,
}
use linvesther.Binance.TradeLog.Order.{trade_lt-IsStrict}
use linvesther.Binance.TradeLog.Cut.{
  truncate_all, IsCut-positive, keep-keep, All-keep_self, and_absorb, and_last,
}

-- The query for the page after a cursor.
abbrev pub after_cursor : TradeQuery → Cursor → TradeQuery
after_cursor query cursor = record {
  symbol = query.symbol;
  since_ms = query.since_ms;
  until_ms = query.until_ms;
  after = some cursor;
  limit = query.limit;
}

abbrev pub walk_next : (TradeQuery → List Trade) → TradeQuery → Option Cursor → List Trade
walk_next walk query none = []
walk_next walk query (some cursor) = walk (after_cursor query cursor)

-- A client that asks for a page and follows the cursors, up to a number of pages.
abbrev pub walk_pages : ℕ → List Trade → TradeQuery → List Trade
walk_pages zero trades query = []
walk_pages (suc fuel) trades query =
    (page trades query).trades ++ walk_next (walk_pages fuel trades) query (page trades query).next

-- Every matching trade, in order.
abbrev pub matching : List Trade → TradeQuery → List Trade
matching trades query = sort_by (le_of trade_lt) (keep (λ t. matches t query) trades)

-- A cursor as a trade with its key.
abbrev keyed : Cursor → Trade
keyed c = record {
  symbol = c.symbol;
  id = c.id;
  order_id = 0;
  price = [];
  qty = [];
  commission = [];
  commission_asset = [];
  time_ms = c.time_ms;
  is_buyer = false;
}

still_after :
    (o : Option Cursor) (t u : Trade)
    → matches_after o t ≡ true
    → trade_lt t u ≡ true
    → matches_after o u ≡ true
unfolding matches_after
still_after none t u h g = refl
still_after (some c) t u h g = trade_lt-IsStrict.transitive (keyed c) t u h g

-- After the last trade shown, the next query matches what comes after it.
matching-after_cursor :
    (trades : List Trade) (query : TradeQuery) (t : Trade)
    → AreApart trade_lt trades
    → matches t query ≡ true
    → matching trades (after_cursor query (cursor_of t))
      ≡ keep (λ u. trade_lt t u) (matching trades query)
unfolding matches cursor_of matches_after precedes
matching-after_cursor trades query t apart shown =
    let held =
      and_last (matches_symbol query.symbol t) (matches_since query.since_ms t)
        (matches_until query.until_ms t) (matches_after query.after t) shown in
    let split =
      keep-keep (λ u. matches u query) (λ u. trade_lt t u)
        (λ u. matches u (after_cursor query (cursor_of t))) trades
        (λ u.
          and_absorb (matches_symbol query.symbol u) (matches_since query.since_ms u)
            (matches_until query.until_ms u) (matches_after query.after u) (trade_lt t u)
            (still_after query.after t u held)) in
    ap (λ l. sort_by (le_of trade_lt) l) split
    ∙ sort_by-keep trade_lt trade_lt-IsStrict (λ u. trade_lt t u)
        (keep (λ u. matches u query) trades)
        (AreApart-keep trade_lt (λ u. matches u query) trades apart)

-- One step of the walk: the page that is shown, and the rest.
walk_from :
    (fuel : ℕ) (trades : List Trade) (query : TradeQuery)
    → AreApart trade_lt trades
    → 0 < query.limit
    → length (matching trades query) < fuel
    → walk_pages fuel trades query ≡ matching trades query
unfolding page
walk_from zero trades query apart limit h = absurd (omega arith)
walk_from (suc fuel) trades query apart limit h =
    let all_ = matching trades query in
    elim (Bool-cases (ltb query.limit (length all_))) [
      | inr fits ↦ rw (fits, truncate_all query.limit all_ (ground arith)) (append-nil all_)
      | inl more ↦
          let cut = IsCut-positive query.limit all_ sorted limit (ground arith) in
          let shown = cut.within (λ t. matches t query ≡ true) all_match in
          let next = matching-after_cursor trades query cut.shown_last apart shown ∙ cut.after_it in
          let ih =
            walk_from fuel trades (after_cursor query (cursor_of cut.shown_last)) apart limit
              (let s = cut.shorter in let l = ap length next in omega arith) in
          rw (more, cut.last_of) (ap (λ m. truncate query.limit all_ ++ m) (ih ∙ next) ∙ cut.whole)
    ]
  where
    all_match : All (λ t. matches t query ≡ true) (matching trades query)
    all_match =
        All-sort_by trade_lt (λ t. matches t query ≡ true) (keep (λ t. matches t query) trades)
          (All-keep_self (λ t. matches t query) trades)

    sorted : IsStrictlySorted trade_lt (matching trades query)
    sorted =
        sort_by-IsStrictlySorted trade_lt trade_lt-IsStrict (keep (λ t. matches t query) trades)
          (AreApart-keep trade_lt (λ t. matches t query) trades apart)

keep_shorter : (p : Trade → Bool) (l : List Trade) → length (keep p l) ≤ length l
keep_shorter p [] = omega arith
keep_shorter p (t ∷ l) =
    let ih = keep_shorter p l in
    elim (Bool-cases (p t)) [ inl in_ ↦ rw in_ (omega arith) | inr out ↦ rw out (omega arith) ]

-- Over trades of which no two have the same time, symbol and id, a client that follows the cursors
-- of a query with a positive limit gets every matching trade exactly once, in the order of time,
-- symbol and id, and the cursors end: one page more than there are trades is always enough.
pub walk_pages-eq-matching :
    (trades : List Trade) (query : TradeQuery) (pages : ℕ)
    → AreApart trade_lt trades
    → 0 < query.limit
    → length trades < pages
    → walk_pages pages trades query ≡ matching trades query
walk_pages-eq-matching trades query pages apart limit enough =
    walk_from pages trades query apart limit (
      let s = length-sort_by trade_lt (keep (λ t. matches t query) trades) in
      let k = keep_shorter (λ t. matches t query) trades in omega arith)
