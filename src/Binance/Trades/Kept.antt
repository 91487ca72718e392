-- ===== src/Binance/Trades/Kept.antt =====
-- Lemmas and theorems on the trade store (services/collector/binance/trades/src/store.rs).
use linvesther.Prelude.{
  ℕ, ◌≡◌, inl, inr, refl, ◌∙◌, ap, subst, List, [], ◌∷◌, Option, none, some, err, and_then,
  and_then-eq-some, Bool-cases, Option-cases, Result-cases, ◌==◌, ==_iff,
}
use linvesther.Prelude.Bytes.{Bytes, bytes_eq, bytes_eq→eq}
use linvesther.Prelude.Maps.{
  get, insert, bytes_keys, number_keys, get-insert_same, get-insert_other,
}
use linvesther.Binance.Trades.{
  Trade, IngestError, TradeStore, or_empty, check_page, or_insert, insert_page, ingest_page, trade,
}

-- A page of a symbol as it is fetched.
pub record Page : Type 0 where
  pub symbol : Bytes
  pub trades : List Trade
  pub page_capacity : ℕ

-- The store after a sequence of pages, accepted or refused.
abbrev pub ingest_pages : TradeStore → List Page → TradeStore
ingest_pages store [] = store
ingest_pages store (page ∷ pages) =
    ingest_pages (ingest_page store page.symbol page.trades page.page_capacity).0 pages

or_insert-keeps :
    (recorded : List (ℕ × Trade)) (t : Trade) (id : ℕ) (kept : Trade)
    → get id recorded ≡ some kept
    → get id (or_insert recorded t) ≡ some kept
unfolding or_insert
or_insert-keeps recorded t id kept h = elim (Option-cases (get t.id recorded)) [
  | inr (existing, there) ↦ rw there h
  | inl fresh ↦ elim (Bool-cases (t.id == id)) [
    | inl same ↦
        let e : t.id ≡ id = (==_iff t.id id).0 same in
        let f : get id recorded ≡ none = rw e at fresh in cc
    | inr other ↦ rw fresh (get-insert_other t.id id t recorded other ∙ h)
  ]
]

insert_page-keeps :
    (trades : List Trade) (recorded : List (ℕ × Trade)) (id : ℕ) (kept : Trade)
    → get id recorded ≡ some kept
    → get id (insert_page recorded trades) ≡ some kept
unfolding insert_page
insert_page-keeps [] recorded id kept h = h
insert_page-keeps (t ∷ trades) recorded id kept h =
    insert_page-keeps trades (or_insert recorded t) id kept (or_insert-keeps recorded t id kept h)

-- Writing a symbol's trades that keep an entry keeps it in the store.
entry-keeps :
    (by_symbol : List (Bytes × List (ℕ × Trade))) (at_symbol symbol : Bytes) (m : List (ℕ × Trade))
    (id : ℕ) (kept : Trade)
    → (get id (or_empty (get at_symbol by_symbol)) ≡ some kept → get id m ≡ some kept)
    → and_then (get symbol by_symbol) (λ n. get id n) ≡ some kept
    → and_then (get symbol (insert at_symbol m by_symbol)) (λ n. get id n) ≡ some kept
entry-keeps by_symbol at_symbol symbol m id kept keeps h =
    elim (Bool-cases (bytes_eq at_symbol symbol)) [
      | inr other ↦ rw (get-insert_other at_symbol symbol m by_symbol other) h
      | inl same ↦
          let e = bytes_eq→eq at_symbol symbol same in
          let there : get symbol (insert at_symbol m by_symbol) ≡ some m =
            subst (λ s. get s (insert at_symbol m by_symbol) ≡ some m) e
              (get-insert_same at_symbol m by_symbol) in
          let (n, got, entry) = and_then-eq-some (get symbol by_symbol) _ h in
          let before : get id (or_empty (get at_symbol by_symbol)) ≡ some kept =
            rw (e, got) entry in
          rw there (keeps before)
    ]

ingest_page-keeps :
    (store : TradeStore) (page : Page) (symbol : Bytes) (id : ℕ) (kept : Trade)
    → trade store symbol id ≡ some kept
    → trade (ingest_page store page.symbol page.trades page.page_capacity).0 symbol id ≡ some kept
unfolding trade ingest_page
ingest_page-keeps store page symbol id kept h =
    let recorded = or_empty (get page.symbol store.by_symbol) in
    elim (Result-cases (check_page page.symbol recorded page.trades)) [
      | inl (u, fine) ↦ rw fine (
          entry-keeps store.by_symbol page.symbol symbol (insert_page recorded page.trades) id kept
            (insert_page-keeps page.trades recorded id kept) h)
      | inr (e, clash) ↦
          rw clash
            (entry-keeps store.by_symbol page.symbol symbol recorded id kept (λ there. there) h)
    ]

-- A recorded trade is never lost or overwritten: it is found as it was after any sequence of pages
-- of any symbols, accepted or refused.
pub ingest_pages-keeps :
    (pages : List Page) (store : TradeStore) (symbol : Bytes) (id : ℕ) (kept : Trade)
    → trade store symbol id ≡ some kept
    → trade (ingest_pages store pages) symbol id ≡ some kept
ingest_pages-keeps [] store symbol id kept h = h
ingest_pages-keeps (page ∷ pages) store symbol id kept h =
    ingest_pages-keeps pages (ingest_page store page.symbol page.trades page.page_capacity).0 symbol
      id kept (ingest_page-keeps store page symbol id kept h)

entry-same :
    (by_symbol : List (Bytes × List (ℕ × Trade))) (at_symbol symbol : Bytes) (id : ℕ)
    → and_then
        (get symbol (insert at_symbol (or_empty (get at_symbol by_symbol)) by_symbol))
        (λ n. get id n)
      ≡ and_then (get symbol by_symbol) (λ n. get id n)
unfolding get
entry-same by_symbol at_symbol symbol id = elim (Bool-cases (bytes_eq at_symbol symbol)) [
  | inr other ↦
      ap (λ o. and_then o (λ n. get id n)) (get-insert_other at_symbol symbol _ by_symbol other)
  | inl same ↦
      let e = bytes_eq→eq at_symbol symbol same in
      subst
        (λ s.
          and_then (get s (insert at_symbol (or_empty (get at_symbol by_symbol)) by_symbol))
            (λ n. get id n)
          ≡ and_then (get s by_symbol) (λ n. get id n))
        e
        (ap (λ o. and_then o (λ n. get id n)) (get-insert_same at_symbol _ by_symbol)
          ∙ at_default (get at_symbol by_symbol))
]
  where
    at_default : (o : Option (List (ℕ × Trade))) → get id (or_empty o) ≡ and_then o (λ n. get id n)
    at_default none = refl
    at_default (some n) = refl

-- A page that is refused changes no trade of any symbol, and not how far any symbol's pages reach.
ingest_page-refused :
    (store : TradeStore) (page : Page) (e : IngestError) (symbol : Bytes) (id : ℕ)
    → (ingest_page store page.symbol page.trades page.page_capacity).1 ≡ err e
    → (trade (ingest_page store page.symbol page.trades page.page_capacity).0 symbol id
        ≡ trade store symbol id)
      × ((ingest_page store page.symbol page.trades page.page_capacity).0.pagination
          ≡ store.pagination)
unfolding trade ingest_page
ingest_page-refused store page e symbol id h =
    elim (Result-cases
      (check_page page.symbol (or_empty (get page.symbol store.by_symbol)) page.trades)) [
        | inl (u, fine) ↦ let f = rw fine at h in cc
        | inr (e, clash) ↦ rw clash (entry-same store.by_symbol page.symbol symbol id, refl)
      ]
