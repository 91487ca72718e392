-- ===== src/Binance/Catalog.antt =====
-- services/collector/binance/catalog: the archive of catalogues, and the universe of symbols.
pub mod Admitted
use linvesther.Prelude.{
  ℕ, suc, List, [], ◌∷◌, ◌++◌, Option, none, some, Bool, true, false, ◌||◌, not, Result, ok, err,
  leb, length, is_empty, if◌then◌else◌,
}
use linvesther.Prelude.Bytes.{Bytes, bytes_eq}
use linvesther.Prelude.Maps.{get, insert, bytes_lt, bytes_keys}
use linvesther.Prelude.Sort.{keep}

-- A set of strings (`BTreeSet`) is the list of its elements in order.
unfoldable pub contains_symbol : List Bytes → Bytes → Bool
contains_symbol [] symbol = false
contains_symbol (s ∷ symbols) symbol = bytes_eq s symbol || contains_symbol symbols symbol

unfoldable pub insert_symbol : List Bytes → Bytes → List Bytes
insert_symbol [] symbol = symbol ∷ []
insert_symbol (s ∷ symbols) symbol =
    let rest = insert_symbol symbols symbol in
    if bytes_eq s symbol
    then s ∷ symbols
    else if bytes_lt symbol s
    then symbol ∷ s ∷ symbols
    else s ∷ rest

pub record CatalogSnapshot : Type 0 where
  pub captured_at_ms : ℕ
  pub symbols : List Bytes

pub data CatalogError : Type 0 where
  not_chronological : (latest new : ℕ) → CatalogError

pub record CatalogArchive : Type 0 where
  pub versions : List CatalogSnapshot

unfoldable pub new_archive : CatalogArchive
new_archive = record { versions = [] }

-- `last()`
unfoldable pub last_version : List CatalogSnapshot → Option CatalogSnapshot
last_version [] = none
last_version (v ∷ []) = some v
last_version (v ∷ w ∷ versions) = last_version (w ∷ versions)

unfoldable pub latest : CatalogArchive → Option CatalogSnapshot
latest archive = last_version archive.versions

-- The archive with the snapshot after the latest version, if there is one.
unfoldable pub archive_after :
    Option CatalogSnapshot → CatalogArchive → CatalogSnapshot → Result CatalogError CatalogArchive
archive_after none archive snapshot = ok (record { versions = archive.versions ++ (snapshot ∷ []) })
archive_after (some latest_version) archive snapshot =
    if leb snapshot.captured_at_ms latest_version.captured_at_ms
    then err (not_chronological latest_version.captured_at_ms snapshot.captured_at_ms)
    else ok (record { versions = archive.versions ++ (snapshot ∷ []) })

unfoldable pub archive_snapshot :
    CatalogArchive → CatalogSnapshot → Result CatalogError CatalogArchive
archive_snapshot archive snapshot = archive_after (last_version archive.versions) archive snapshot

-- `any(|v| v.captured_at_ms <= timestamp_ms)`
unfoldable pub any_at_or_before : List CatalogSnapshot → ℕ → Bool
any_at_or_before [] timestamp_ms = false
any_at_or_before (v ∷ versions) timestamp_ms =
    leb v.captured_at_ms timestamp_ms || any_at_or_before versions timestamp_ms

unfoldable pub has_version_at_or_before : CatalogArchive → ℕ → Bool
has_version_at_or_before archive timestamp_ms = any_at_or_before archive.versions timestamp_ms

unfoldable pub extend : List Bytes → List Bytes → List Bytes
extend all_ [] = all_
extend all_ (s ∷ symbols) = extend (insert_symbol all_ s) symbols

unfoldable pub symbols_seen : List Bytes → List CatalogSnapshot → List Bytes
symbols_seen all_ [] = all_
symbols_seen all_ (v ∷ versions) = symbols_seen (extend all_ v.symbols) versions

unfoldable pub all_symbols_ever_seen : CatalogArchive → List Bytes
all_symbols_ever_seen archive = symbols_seen [] archive.versions

-- `difference`
abbrev pub delisted_since : Option CatalogSnapshot → List Bytes → List Bytes
delisted_since none seen = []
delisted_since (some v) seen = keep (λ s. not (contains_symbol v.symbols s)) seen

unfoldable pub delisted_symbols : CatalogArchive → List Bytes
delisted_symbols archive =
    delisted_since (last_version archive.versions) (all_symbols_ever_seen archive)

pub data UniverseSource : Type 0 where
  catalog stream known_history : UniverseSource

pub record StreamObservation : Type 0 where
  pub symbol : Bytes
  pub observed_at_ms : ℕ

pub record SymbolUniverse : Type 0 where
  pub symbols : List Bytes
  pub provenance : List (Bytes × (UniverseSource × ℕ))

unfoldable pub new_universe : SymbolUniverse
new_universe = record { symbols = []; provenance = [] }

-- `insert` is true where the symbol is new.
unfoldable pub admit : SymbolUniverse → Bytes → UniverseSource → ℕ → SymbolUniverse
admit universe symbol source at_ms =
    if contains_symbol universe.symbols symbol then universe else record {
      symbols = insert_symbol universe.symbols symbol;
      provenance = insert symbol (source, at_ms) universe.provenance;
    }

unfoldable pub absorb_symbols : SymbolUniverse → List Bytes → UniverseSource → ℕ → SymbolUniverse
absorb_symbols universe [] source at_ms = universe
absorb_symbols universe (s ∷ symbols) source at_ms =
    absorb_symbols (admit universe s source at_ms) symbols source at_ms

unfoldable pub absorb_versions : SymbolUniverse → List CatalogSnapshot → SymbolUniverse
absorb_versions universe [] = universe
absorb_versions universe (v ∷ versions) =
    absorb_versions (absorb_symbols universe v.symbols catalog v.captured_at_ms) versions

unfoldable pub absorb_catalog_archive : SymbolUniverse → CatalogArchive → SymbolUniverse
absorb_catalog_archive universe archive = absorb_versions universe archive.versions

unfoldable pub absorb_stream : SymbolUniverse → List StreamObservation → SymbolUniverse
absorb_stream universe [] = universe
absorb_stream universe (o ∷ observations) =
    absorb_stream (admit universe o.symbol stream o.observed_at_ms) observations

unfoldable pub absorb_known_history : SymbolUniverse → List Bytes → ℕ → SymbolUniverse
absorb_known_history universe symbols known_at_ms =
    absorb_symbols universe symbols known_history known_at_ms

unfoldable pub universe_contains : SymbolUniverse → Bytes → Bool
universe_contains universe symbol = contains_symbol universe.symbols symbol

unfoldable pub universe_len : SymbolUniverse → ℕ
universe_len universe = length universe.symbols

unfoldable pub provenance_of : SymbolUniverse → Bytes → Option (UniverseSource × ℕ)
provenance_of universe symbol = get symbol universe.provenance
