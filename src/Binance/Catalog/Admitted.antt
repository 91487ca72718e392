-- ===== src/Binance/Catalog/Admitted.antt =====
-- Lemmas and theorems on the universe of symbols (services/collector/binance/catalog/src/universe.rs).
use linvesther.Prelude.{
  ℕ, ◌≡◌, inl, inr, refl, ◌∙◌, List, [], ◌∷◌, some, Bool, true, false, ◌||◌, Bool-cases,
}
use linvesther.Prelude.Bytes.{Bytes, bytes_eq, bytes_eq→eq}
use linvesther.Prelude.Maps.{bytes_lt, bytes_keys, get-insert_other}
use linvesther.Binance.Catalog.{
  contains_symbol, insert_symbol, CatalogSnapshot, CatalogArchive, UniverseSource, catalog,
  known_history, stream, StreamObservation, SymbolUniverse, admit, absorb_symbols, absorb_versions,
  absorb_catalog_archive, absorb_stream, absorb_known_history, universe_contains, provenance_of,
}

contains-insert_symbol :
    (symbols : List Bytes) (s symbol : Bytes)
    → contains_symbol (insert_symbol symbols s) symbol
      ≡ (bytes_eq s symbol || contains_symbol symbols symbol)
unfolding contains_symbol insert_symbol
contains-insert_symbol [] s symbol = refl
contains-insert_symbol (t ∷ symbols) s symbol = elim (Bool-cases (bytes_eq t s)) [
  | inl same ↦
      rw (same, bytes_eq→eq t s same)
        (or_twice (bytes_eq s symbol) (contains_symbol symbols symbol))
  | inr other ↦ elim (Bool-cases (bytes_lt s t)) [
    | inl before ↦ rw (other, before) refl
    | inr after ↦
        rw (other, after, contains-insert_symbol symbols s symbol)
          (or_swap (bytes_eq t symbol) (bytes_eq s symbol) (contains_symbol symbols symbol))
  ]
]
  where
    or_twice : (a b : Bool) → (a || b) ≡ (a || (a || b))
    or_twice true b = refl
    or_twice false b = refl

    or_swap : (a b c : Bool) → (a || (b || c)) ≡ (b || (a || c))
    or_swap true true c = refl
    or_swap true false c = refl
    or_swap false true c = refl
    or_swap false false c = refl

-- A symbol that is in the universe, with where it came from first.
pub record IsAdmitted (universe : SymbolUniverse) (symbol : Bytes) (source : UniverseSource)
    (at_ms : ℕ) : Type 0 where
  pub is_in : universe_contains universe symbol ≡ true
  pub source_of : provenance_of universe symbol ≡ some (source, at_ms)

admit-IsAdmitted :
    (universe : SymbolUniverse) (s : Bytes) (by : UniverseSource) (now : ℕ) (symbol : Bytes)
    (source : UniverseSource) (at_ms : ℕ)
    → IsAdmitted universe symbol source at_ms
    → IsAdmitted (admit universe s by now) symbol source at_ms
unfolding admit universe_contains provenance_of
admit-IsAdmitted universe s by now symbol source at_ms held =
    elim (Bool-cases (contains_symbol universe.symbols s)) [
      | inl there ↦ rw there held
      | inr fresh ↦ elim (Bool-cases (bytes_eq s symbol)) [
        | inl same ↦
            let e = bytes_eq→eq s symbol same in
            let f : contains_symbol universe.symbols symbol ≡ false = rw e at fresh in
            let g = held.is_in in cc
        | inr other ↦ rw fresh (record {
          is_in = rw (contains-insert_symbol universe.symbols s symbol, other) held.is_in;
          source_of =
              get-insert_other s symbol (by, now) universe.provenance other ∙ held.source_of;
        })
      ]
    ]

-- A call that adds to the universe.
pub data Absorption : Type 0 where
  of_archive : CatalogArchive → Absorption
  of_stream : List StreamObservation → Absorption
  of_history : (symbols : List Bytes) (known_at_ms : ℕ) → Absorption

abbrev pub absorb : SymbolUniverse → Absorption → SymbolUniverse
absorb universe (of_archive archive) = absorb_catalog_archive universe archive
absorb universe (of_stream observations) = absorb_stream universe observations
absorb universe (of_history symbols known_at_ms) = absorb_known_history universe symbols known_at_ms

abbrev pub absorb_all : SymbolUniverse → List Absorption → SymbolUniverse
absorb_all universe [] = universe
absorb_all universe (a ∷ absorptions) = absorb_all (absorb universe a) absorptions

module _ (symbol : Bytes) (source : UniverseSource) (at_ms : ℕ) where
  absorb_symbols-IsAdmitted :
      (symbols : List Bytes) (universe : SymbolUniverse) (by : UniverseSource) (now : ℕ)
      → IsAdmitted universe symbol source at_ms
      → IsAdmitted (absorb_symbols universe symbols by now) symbol source at_ms
  unfolding absorb_symbols
  absorb_symbols-IsAdmitted [] universe by now held = held
  absorb_symbols-IsAdmitted (s ∷ symbols) universe by now held =
      absorb_symbols-IsAdmitted symbols (admit universe s by now) by now
        (admit-IsAdmitted universe s by now symbol source at_ms held)

  absorb_versions-IsAdmitted :
      (versions : List CatalogSnapshot) (universe : SymbolUniverse)
      → IsAdmitted universe symbol source at_ms
      → IsAdmitted (absorb_versions universe versions) symbol source at_ms
  unfolding absorb_versions
  absorb_versions-IsAdmitted [] universe held = held
  absorb_versions-IsAdmitted (v ∷ versions) universe held =
      absorb_versions-IsAdmitted versions
        (absorb_symbols universe v.symbols catalog v.captured_at_ms)
        (absorb_symbols-IsAdmitted v.symbols universe catalog v.captured_at_ms held)

  absorb_stream-IsAdmitted :
      (observations : List StreamObservation) (universe : SymbolUniverse)
      → IsAdmitted universe symbol source at_ms
      → IsAdmitted (absorb_stream universe observations) symbol source at_ms
  unfolding absorb_stream
  absorb_stream-IsAdmitted [] universe held = held
  absorb_stream-IsAdmitted (o ∷ observations) universe held =
      absorb_stream-IsAdmitted observations (admit universe o.symbol stream o.observed_at_ms)
        (admit-IsAdmitted universe o.symbol stream o.observed_at_ms symbol source at_ms held)

  absorb-IsAdmitted :
      (universe : SymbolUniverse) (a : Absorption)
      → IsAdmitted universe symbol source at_ms
      → IsAdmitted (absorb universe a) symbol source at_ms
  unfolding absorb_catalog_archive absorb_known_history
  absorb-IsAdmitted universe (of_archive archive) held =
      absorb_versions-IsAdmitted archive.versions universe held
  absorb-IsAdmitted universe (of_stream observations) held =
      absorb_stream-IsAdmitted observations universe held
  absorb-IsAdmitted universe (of_history symbols known_at_ms) held =
      absorb_symbols-IsAdmitted symbols universe known_history known_at_ms held

-- A symbol never leaves the universe, and keeps the source and the time of its first admission,
-- whatever catalogues, streams and histories are absorbed afterwards: delisting does not remove it.
absorb_all-IsAdmitted :
    (absorptions : List Absorption) (universe : SymbolUniverse) (symbol : Bytes)
    (source : UniverseSource) (at_ms : ℕ)
    → IsAdmitted universe symbol source at_ms
    → IsAdmitted (absorb_all universe absorptions) symbol source at_ms
absorb_all-IsAdmitted [] universe symbol source at_ms held = held
absorb_all-IsAdmitted (a ∷ absorptions) universe symbol source at_ms held =
    absorb_all-IsAdmitted absorptions (absorb universe a) symbol source at_ms
      (absorb-IsAdmitted symbol source at_ms universe a held)
