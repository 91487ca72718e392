-- ===== src/Binance/TradeLog/Cut.antt =====
-- Lemmas on a page of a sorted list (services/collector/binance/worker/src/trade_log.rs).
use linvesther.Prelude.{
  ℕ, zero, suc, ◌≡◌, ◌≤◌, ◌<◌, inl, inr, refl, ap, List, [], ◌∷◌, ◌++◌, some, Bool, true, false,
  ◌&&◌, length, All, Bool-cases, arith,
}
use linvesther.Prelude.Sort.{keep, asymmetric, IsStrictlySorted, keep-All}
use linvesther.Binance.Trades.{Trade}
use linvesther.Binance.TradeLog.{trade_lt, truncate, last}
use linvesther.Binance.TradeLog.Order.{trade_lt-IsStrict}

pub truncate_all : (n : ℕ) (l : List Trade) → length l ≤ n → truncate n l ≡ l
unfolding truncate
truncate_all zero [] h = refl
truncate_all zero (t ∷ l) h = absurd (omega arith)
truncate_all (suc n) [] h = refl
truncate_all (suc n) (t ∷ l) h = ap (λ m. t ∷ m) (truncate_all n l (omega arith))

-- A cut of a sorted list at its page size: the last trade shown, and what comes after it.
pub record IsCut (n : ℕ) (l : List Trade) : Type 1 where
  pub shown_last : Trade
  pub back : List Trade
  pub last_of : last (truncate n l) ≡ some shown_last
  pub whole : truncate n l ++ back ≡ l
  pub after_it : keep (λ u. trade_lt shown_last u) l ≡ back
  pub shorter : suc (length back) ≤ length l
  pub within : (P : Trade → Type 0) → All P l → P shown_last

IsCut-suc :
    (n : ℕ) (l : List Trade) → IsStrictlySorted trade_lt l → suc n < length l → IsCut (suc n) l
unfolding truncate last
IsCut-suc n [] sorted h = absurd (omega arith)
IsCut-suc zero (t ∷ l) (first, sorted) h = record {
  shown_last = t;
  back = l;
  last_of = refl;
  whole = refl;
  after_it = rw (trade_lt-IsStrict.irreflexive t) (keep-All (λ u. trade_lt t u) l first);
  shorter = omega arith;
  within = λ P all_. all_.0;
}
IsCut-suc (suc n) (t ∷ []) sorted h = absurd (omega arith)
IsCut-suc (suc n) (t ∷ u ∷ l) (first, sorted) h =
    let inner = IsCut-suc n (u ∷ l) sorted (omega arith) in
    let less = inner.within (λ v. trade_lt t v ≡ true) first in
    record {
      shown_last = inner.shown_last;
      back = inner.back;
      last_of = inner.last_of;
      whole = ap (λ m. t ∷ m) inner.whole;
      after_it = rw (asymmetric trade_lt t inner.shown_last trade_lt-IsStrict less) inner.after_it;
      shorter = let s = inner.shorter in omega arith;
      within = λ P all_. inner.within P all_.1;
    }

pub IsCut-positive :
    (n : ℕ) (l : List Trade) → IsStrictlySorted trade_lt l → 0 < n → n < length l → IsCut n l
IsCut-positive zero l sorted some_ h = absurd (omega arith)
IsCut-positive (suc n) l sorted some_ h = IsCut-suc n l sorted h

pub keep-keep :
    (p q r : Trade → Bool) (l : List Trade)
    → ((t : Trade) → r t ≡ p t && q t)
    → keep r l ≡ keep q (keep p l)
keep-keep p q r [] same = refl
keep-keep p q r (t ∷ l) same =
    let ih = keep-keep p q r l same in
    elim (Bool-cases (p t)) [
      | inr out ↦ let e : r t ≡ false = rw out at (same t) in rw (out, e) ih
      | inl in_ ↦
          let e : r t ≡ q t = rw in_ at (same t) in
          elim (Bool-cases (q t)) [
            | inl keeps ↦ rw (in_, e, keeps) (ap (λ m. t ∷ m) ih)
            | inr drops ↦ rw (in_, e, drops) ih
          ]
    ]

pub All-keep_self : (p : Trade → Bool) (l : List Trade) → All (λ t. p t ≡ true) (keep p l)
All-keep_self p [] = tt
All-keep_self p (t ∷ l) = elim (Bool-cases (p t)) [
  | inl in_ ↦ rw in_ (in_, All-keep_self p l)
  | inr out ↦ rw out (All-keep_self p l)
]

pub and_absorb :
    (a b c m x : Bool) → (x ≡ true → m ≡ true) → (a && b && c && x) ≡ ((a && b && c && m) && x)
and_absorb false b c m x h = refl
and_absorb true false c m x h = refl
and_absorb true true false m x h = refl
and_absorb true true true true x h = refl
and_absorb true true true false false h = refl
and_absorb true true true false true h = absurd (let f = h refl in cc)

pub and_last : (a b c m : Bool) → (a && b && c && m) ≡ true → m ≡ true
and_last true true true m h = h
and_last true true false m h = cc
and_last true false c m h = cc
and_last false b c m h = cc
