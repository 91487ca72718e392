-- ===== src/Examples/Collector.antt =====
-- Credentials, flows and trades on small inputs.
use linvesther.Prelude.{
  arith, inl, inr, ℕ, List, [], ◌∷◌, ◌++◌, ◌≡◌, ◌⊎◌, ◌↔◌, refl, none, some, true, false, ok, err,
  replicate, length, leb, ok-injective,
}
use linvesther.Prelude.Bytes.{Bytes, bytes_eq, codes}
use linvesther.Prelude.Maps.{get, insert, contains_key, bytes_lt, bytes_keys, number_keys}
use linvesther.Credentials.{Aead, production}
use linvesther.Credentials.Kms.{LocalKms, Kms, local_kms, local_wrap_dek, take, drop}
use linvesther.Credentials.Kms.Unwraps.{IsAuthentic, local_kms-IsFaithful}
use linvesther.Credentials.Vault.{
  ApiCredential, not_found, revoked, CredentialRecord, EnvelopeJson, Draws, Records, deadline_of,
  encrypt, store, retrieve, revoke, purge, mark_revoked, mark_purged, is_revoked,
}
use linvesther.Credentials.Vault.Requests.{Request, store_request, revoke_request, run_requests}
use linvesther.Credentials.Vault.Revocation.{revoke-retrieve}
use linvesther.Credentials.Vault.Purged.{IsPurged, purge-IsPurged}
use linvesther.Credentials.Vault.RoundTrip.{IsReadBack, retrieve-store}
use linvesther.Credentials.Restrictions.{ApiRestrictions, validate_read_only}
use linvesther.Credentials.Restrictions.ReadOnly.{IsReadOnly, validate_read_only_iff}
use linvesther.Binance.Flows.{NormalizedFlow, withdrawal, debit}
use linvesther.Binance.Flows.Withdrawal.{
  RawWithdrawal, normalize_withdrawal, classify_status, legs_and_fee,
}
use linvesther.Binance.Flows.Settled.{withdrawn, normalize_withdrawal-withdrawn}
use linvesther.Binance.Trades.{Trade, TradeStore, trade}
use linvesther.Prelude.Sort.{AreApart, sort_by, insert_sorted}
use linvesther.Binance.TradeLog.{
  TradeQuery, trade_lt, precedes, matches, matches_symbol, matches_since, matches_until,
  matches_after, eq_ignore_ascii_case, to_lower,
}
use linvesther.Binance.TradeLog.Pages.{walk_pages, matching, walk_pages-eq-matching}
use linvesther.Binance.Trades.Kept.{Page, ingest_pages, ingest_pages-keeps}

-- A cipher that leaves the text as it is.
abbrev clear : Aead
clear = record { encrypt = λ key nonce text. ok text; decrypt = λ key nonce text. ok text }

clear-IsAuthentic : IsAuthentic clear
clear-IsAuthentic = record {
  opens = λ key nonce plaintext ciphertext h.
      let e : plaintext ≡ ciphertext = ok-injective h in rw e refl;
}

abbrev keks : LocalKms
keks = record { keks = (5 ∷ [], replicate 32 1) ∷ [] }

abbrev kms : Kms
kms = local_kms clear keks

-- The length of the key, the key and the secret.
abbrev json : EnvelopeJson
json = record {
  to_vec = λ c. ok (length c.api_key ∷ c.api_key ++ c.api_secret);
  from_slice = λ text. elim text [
    | [] ↦ err []
    | n ∷ rest ↦ ok (record { api_key = take n rest; api_secret = drop n rest })
  ];
}

take-drop_append : (a b : Bytes) → (take (length a) (a ++ b) ≡ a) × (drop (length a) (a ++ b) ≡ b)
unfolding take drop
take-drop_append [] b = (refl, refl)
take-drop_append (x ∷ a) b = let (p, q) = take-drop_append a b in (rw p refl, q)

json-IsReadBack : IsReadBack json
json-IsReadBack = record {
  reads = λ credential text h.
      let e = ok-injective h in
      let (p, q) = take-drop_append credential.api_key credential.api_secret in rw (← e, p, q) refl;
}

abbrev secret : ApiCredential
secret = record { api_key = 8 ∷ []; api_secret = 9 ∷ [] }

abbrev draws : Draws
draws = record {
  dek = ok (replicate 32 2);
  wrapping = ok (replicate 12 3);
  nonce = ok (replicate 12 4);
}

abbrev kept : CredentialRecord
kept = record {
  credential_id = 1 ∷ [];
  tenant_id = 5 ∷ [];
  venue_id = 6 ∷ [];
  environment = production;
  created_at_ms = 1000;
  revoked_at_ms = none;
  purge_deadline_ms = none;
  purged = false;
  wrapped_dek = replicate 12 3 ++ replicate 32 2;
  nonce = replicate 12 4;
  ciphertext = 1 ∷ 8 ∷ 9 ∷ [];
}

abbrev held : Records
held = (1 ∷ [], kept) ∷ []

store_run :
    store kms clear json [] draws (1 ∷ []) (5 ∷ []) (6 ∷ []) production secret 1000 ≡ ok held
unfolding store local_kms local_wrap_dek encrypt get insert contains_key bytes_eq
store_run = refl

retrieve-store_example : retrieve kms clear json held (1 ∷ []) ≡ ok secret
retrieve-store_example =
    retrieve-store kms clear json [] held draws (1 ∷ []) (5 ∷ []) (6 ∷ []) production secret 1000
      (replicate 32 2) (replicate 12 3) (local_kms-IsFaithful clear keks clear-IsAuthentic)
      clear-IsAuthentic json-IsReadBack refl refl refl refl store_run

revoke_run : revoke held (1 ∷ []) 2000 ≡ ok ((1 ∷ [], mark_revoked kept 2000) ∷ [])
unfolding revoke is_revoked get insert bytes_eq
revoke_run = refl

-- Storing again under the same id does not help.
abbrev later : List Request
later = store_request draws (1 ∷ []) (5 ∷ []) (6 ∷ []) production secret 3000 ∷ []

revoke-retrieve_example :
    (retrieve kms clear json
        (run_requests kms clear json ((1 ∷ [], mark_revoked kept 2000) ∷ []) later)
        (1 ∷ [])
      ≡ err (revoked (1 ∷ [])))
    ⊎ (retrieve kms clear json
          (run_requests kms clear json ((1 ∷ [], mark_revoked kept 2000) ∷ []) later)
          (1 ∷ [])
        ≡ err (not_found (1 ∷ [])))
revoke-retrieve_example =
    revoke-retrieve kms clear json held ((1 ∷ [], mark_revoked kept 2000) ∷ []) (1 ∷ []) 2000 later
      revoke_run

abbrev requests : List Request
requests =
    store_request draws (1 ∷ []) (5 ∷ []) (6 ∷ []) production secret 1000
    ∷ revoke_request (1 ∷ []) 2000
    ∷ []

abbrev erased : Records
erased = (1 ∷ [], mark_purged (mark_revoked kept 2000)) ∷ []

purge_run : purge (run_requests kms clear json [] requests) (1 ∷ []) 86402000 ≡ ok erased
unfolding purge mark_purged mark_revoked deadline_of store revoke is_revoked local_kms
    local_wrap_dek encrypt get insert contains_key bytes_eq
purge_run = refl

purge-IsPurged_example :
    (before : CredentialRecord) × (left : CredentialRecord) × (get
        (1 ∷ [])
        (run_requests kms clear json [] requests)
      ≡ some before)
    × (get (1 ∷ []) erased ≡ some left)
    × IsPurged 86402000 before left
purge-IsPurged_example = purge-IsPurged kms clear json requests (1 ∷ []) 86402000 erased purge_run

abbrev reading : ApiRestrictions ℕ
reading = record {
  ip_restrict = true;
  enable_reading = true;
  enable_withdrawals = false;
  enable_internal_transfer = false;
  enable_universal_transfer = false;
  enable_spot_and_margin_trading = false;
  enable_margin = false;
  enable_futures = false;
  permits_universal_transfer = false;
  enable_fix_api_trade = false;
  enable_fix_read_only = true;
  enable_portfolio_margin_trading = false;
  enable_vanilla_options = false;
  create_time = none;
  unknown_fields = [];
}

validate_read_only_iff_example : (validate_read_only reading ≡ ok tt) ↔ IsReadOnly reading
validate_read_only_iff_example = validate_read_only_iff reading

abbrev raw : RawWithdrawal
raw = record {
  id = 1 ∷ [];
  asset = 66 ∷ [];
  amount = 53 ∷ [];
  transaction_fee = 49 ∷ [];
  status = 6;
  apply_time_ms = 100;
}

abbrev settled : NormalizedFlow
settled = record {
  source_namespace = withdrawal;
  source_id = 1 ∷ [];
  economic_time_ms = 100;
  kind = codes "Completed";
  legs = debit (66 ∷ []) (53 ∷ []) ∷ [];
  fee = some (debit (66 ∷ []) (49 ∷ []));
}

withdrawal_run : normalize_withdrawal (λ n. n ∷ []) raw ≡ ok settled
unfolding normalize_withdrawal classify_status legs_and_fee bytes_eq
withdrawal_run = refl

normalize_withdrawal-withdrawn_example :
    (leb raw.status 6 ≡ true)
    × (settled.legs ≡ (withdrawn raw).0)
    × (settled.fee ≡ (withdrawn raw).1)
normalize_withdrawal-withdrawn_example =
    normalize_withdrawal-withdrawn (λ n. n ∷ []) raw settled withdrawal_run

abbrev bought : Trade
bought = record {
  symbol = 66 ∷ [];
  id = 7;
  order_id = 8;
  price = 49 ∷ [];
  qty = 50 ∷ [];
  commission = [];
  commission_asset = [];
  time_ms = 100;
  is_buyer = true;
}

abbrev trades : TradeStore
trades = record { by_symbol = (66 ∷ [], (7, bought) ∷ []) ∷ []; pagination = [] }

-- A page that claims another content for the trade, and one of another symbol.
abbrev pages : List Page
pages =
    record {
      symbol = 66 ∷ [];
      trades =
          record {
            symbol = 66 ∷ [];
            id = 7;
            order_id = 8;
            price = 57 ∷ [];
            qty = 50 ∷ [];
            commission = [];
            commission_asset = [];
            time_ms = 100;
            is_buyer = true;
          }
          ∷ [];
      page_capacity = 10;
    }
    ∷ record { symbol = 67 ∷ []; trades = bought ∷ []; page_capacity = 1 }
    ∷ []

trade_run : trade trades (66 ∷ []) 7 ≡ some bought
unfolding trade get bytes_eq
trade_run = refl

ingest_pages-keeps_example : trade (ingest_pages trades pages) (66 ∷ []) 7 ≡ some bought
ingest_pages-keeps_example = ingest_pages-keeps pages trades (66 ∷ []) 7 bought trade_run

abbrev traded : ℕ → ℕ → Trade
traded n time = record {
  symbol = 66 ∷ [];
  id = n;
  order_id = 8;
  price = 49 ∷ [];
  qty = 50 ∷ [];
  commission = [];
  commission_asset = [];
  time_ms = time;
  is_buyer = true;
}

abbrev trade_list : List Trade
trade_list = traded 3 300 ∷ traded 1 100 ∷ traded 2 100 ∷ []

abbrev one_by_one : TradeQuery
one_by_one = record {
  symbol = some (98 ∷ []);
  since_ms = none;
  until_ms = some 400;
  after = none;
  limit = 1;
}

trade_list-AreApart : AreApart trade_lt trade_list
unfolding precedes bytes_lt bytes_eq
trade_list-AreApart = ((inr refl, (inr refl, tt)), ((inl refl, tt), (tt, tt)))

matching_run : matching trade_list one_by_one ≡ (traded 1 100 ∷ traded 2 100 ∷ traded 3 300 ∷ [])
unfolding sort_by insert_sorted matches matches_symbol matches_since matches_until matches_after
    eq_ignore_ascii_case to_lower precedes bytes_lt bytes_eq
matching_run = refl

walk_pages-eq-matching_example : walk_pages 4 trade_list one_by_one ≡ matching trade_list one_by_one
walk_pages-eq-matching_example =
    walk_pages-eq-matching trade_list one_by_one 4 trade_list-AreApart (omega arith) (omega arith)
