-- ===== src/Binance/TradeLog/Order.antt =====
-- Lemmas and theorems on the order of trades (services/collector/binance/worker/src/trade_log.rs).
use linvesther.Prelude.{
  ℕ, ◌≡◌, inl, inr, refl, [], ◌∷◌, Bool, true, false, ◌||◌, ◌&&◌, ltb, Bool-cases, arith,
}
use linvesther.Prelude.Bytes.{Bytes, bytes_eq, bytes_eq→eq, bytes_eq_refl}
use linvesther.Prelude.Maps.{bytes_lt}
use linvesther.Prelude.Sort.{IsStrict}
use linvesther.Binance.TradeLog.{precedes, trade_lt}

bytes_lt_irrefl : (a : Bytes) → bytes_lt a a ≡ false
unfolding bytes_lt
bytes_lt_irrefl [] = refl
bytes_lt_irrefl (x ∷ a) = ground (arith, bytes_lt_irrefl a)

bytes_lt_trans : (a b c : Bytes) → bytes_lt a b ≡ true → bytes_lt b c ≡ true → bytes_lt a c ≡ true
unfolding bytes_lt
bytes_lt_trans [] [] c h g = cc
bytes_lt_trans [] (y ∷ b) [] h g = cc
bytes_lt_trans [] (y ∷ b) (z ∷ c) h g = refl
bytes_lt_trans (x ∷ a) [] c h g = cc
bytes_lt_trans (x ∷ a) (y ∷ b) [] h g = cc
bytes_lt_trans (x ∷ a) (y ∷ b) (z ∷ c) h g = ground (arith, bytes_lt_trans a b c)

-- The part of the key after the time.
abbrev tail_lt : Bytes → ℕ → Bytes → ℕ → Bool
tail_lt s i t j = bytes_lt s t || (bytes_eq s t && ltb i j)

tail_lt_trans :
    (s : Bytes) (i : ℕ) (t : Bytes) (j : ℕ) (u : Bytes) (k : ℕ)
    → tail_lt s i t j ≡ true
    → tail_lt t j u k ≡ true
    → tail_lt s i u k ≡ true
tail_lt_trans s i t j u k h g = elim (Bool-cases (bytes_lt s t)) [
  | inl less ↦ elim (Bool-cases (bytes_lt t u)) [
    | inl more ↦ rw (bytes_lt_trans s t u less more) refl
    | inr tie ↦
        let (same, rest) = both (bytes_eq t u) (ltb j k) (rw tie at g) in
        let e = bytes_eq→eq t u same in let f : bytes_lt s u ≡ true = rw (← e) less in rw f refl
  ]
  | inr tie ↦
      let (same, rest) = both (bytes_eq s t) (ltb i j) (rw tie at h) in
      let e = bytes_eq→eq s t same in
      elim (Bool-cases (bytes_lt t u)) [
        | inl more ↦ let f : bytes_lt s u ≡ true = rw e more in rw f refl
        | inr ties ↦
            let (same', rest') = both (bytes_eq t u) (ltb j k) (rw ties at g) in
            let less : ltb i k ≡ true = ground arith in
            let all_ : bytes_eq s u ≡ true = rw e same' in
            let none_ : bytes_lt s u ≡ false = rw e ties in rw (none_, all_, less) refl
      ]
]
  where
    both : (a b : Bool) → a && b ≡ true → (a ≡ true) × (b ≡ true)
    both true b p = (refl, p)
    both false b p = cc

tail_lt_irrefl : (s : Bytes) (i : ℕ) → tail_lt s i s i ≡ false
tail_lt_irrefl s i =
    let tie : ltb i i ≡ false = ground arith in rw (bytes_lt_irrefl s, bytes_eq_refl s, tie) refl

-- The order of (time, symbol, id) is strict.
pub trade_lt-IsStrict : IsStrict trade_lt
unfolding precedes
trade_lt-IsStrict = record {
  irreflexive = λ a. ground (arith, tail_lt_irrefl a.symbol a.id);
  transitive = λ a b c h g. ground (arith, tail_lt_trans a.symbol a.id b.symbol b.id c.symbol c.id);
}
