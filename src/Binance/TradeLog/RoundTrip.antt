-- ===== src/Binance/TradeLog/RoundTrip.antt =====
-- Lemmas and theorems on cursors (services/collector/binance/worker/src/trade_log.rs).
use linvesther.Prelude.{
  ℕ, ◌≡◌, ◌≢◌, refl, [], ◌∷◌, ◌++◌, Option, some, false, All, ◌==◌, Bool-cases, inl, inr, arith,
  is_empty,
}
use linvesther.Prelude.Bytes.{Bytes}
use linvesther.Binance.TradeLog.{Cursor, split_colon, encode, parse}

-- Decimal numbers are read as they were written, and are written without a colon.
pub record IsDecimal (to_string : ℕ → Bytes) (parse_u64 : Bytes → Option ℕ) : Type 0 where
  pub reads : (n : ℕ) → parse_u64 (to_string n) ≡ some n
  pub no_colon : (n : ℕ) → All (λ b. b ≢ 58) (to_string n)

split_colon-append :
    (front back : Bytes)
    → All (λ b. b ≢ 58) front
    → split_colon (front ++ (58 ∷ back)) ≡ some (front, back)
unfolding split_colon
split_colon-append [] back h = refl
split_colon-append (b ∷ front) back (other, rest) = elim (Bool-cases (b == 58)) [
  | inl same ↦ absurd (other (ground arith))
  | inr differs ↦ rw (differs, split_colon-append front back rest) refl
]

nonempty : (symbol : Bytes) → symbol ≢ [] → is_empty symbol ≡ false
nonempty [] h = absurd (h refl)
nonempty (b ∷ symbol) h = refl

-- A cursor with a symbol is parsed back from its text as it was, whatever bytes the symbol has,
-- colons included.
pub parse-encode :
    (to_string : ℕ → Bytes) (parse_u64 : Bytes → Option ℕ) (cursor : Cursor)
    → IsDecimal to_string parse_u64
    → cursor.symbol ≢ []
    → parse to_string parse_u64 (encode to_string parse_u64 cursor) ≡ some cursor
unfolding parse encode
parse-encode to_string parse_u64 cursor decimal filled =
    let time =
      split_colon-append (to_string cursor.time_ms) (to_string cursor.id ++ (58 ∷ cursor.symbol))
        (decimal.no_colon cursor.time_ms) in
    let id = split_colon-append (to_string cursor.id) cursor.symbol (decimal.no_colon cursor.id) in
    rw
      (
        time,
        decimal.reads cursor.time_ms,
        id,
        decimal.reads cursor.id,
        nonempty cursor.symbol filled,
      )
      refl
