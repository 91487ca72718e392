-- ===== src/Domain/Decimal.antt =====
-- Decimals, which the crate `rust_decimal` implements: its operations as a parameter. The checked
-- forms give `none` where the result leaves the range; the operators `+`, `-`, `*` and `/` panic
-- there (and on a division by zero), which is `none` too. Comparison is by value, so two decimals
-- that compare as equal need not be written alike.
use linvesther.Prelude.{ℕ, ◌≡◌, ◌≢◌, Option, none, some, Bool, true, false, Result, ok, err, not}
use linvesther.Prelude.Bytes.{Bytes}

pub record Decimals : Type 1 where
  pub Decimal : Type 0
  pub zero_dec : Decimal
  pub one_dec : Decimal
  pub checked_add : Decimal → Decimal → Option Decimal
  pub checked_sub : Decimal → Decimal → Option Decimal
  pub checked_mul : Decimal → Decimal → Option Decimal
  pub checked_div : Decimal → Decimal → Option Decimal
  pub negate : Decimal → Decimal
  pub lt_dec : Decimal → Decimal → Bool
  pub eq_dec : Decimal → Decimal → Bool
  pub from_u64 : ℕ → Decimal
  pub from_str : Bytes → Option Decimal
  pub to_string : Decimal → Bytes
  pub sqrt : Decimal → Option Decimal
  pub checked_powd : Decimal → Decimal → Option Decimal

-- `a <= b`
abbrev pub le_dec : (dec : Decimals) → dec.Decimal → dec.Decimal → Bool
le_dec dec a b = not (dec.lt_dec b a)

-- Code that can panic and fail: an error of the source, or a panic.
pub data Stop {ℓ} (E : Type ℓ) : Type ℓ where
  raised : E → Stop E
  panic : Stop E

-- An operator in fallible code.
abbrev pub or_panic {ℓ κ} : {E : Type ℓ} {A : Type κ} → Option A → Result (Stop E) A
or_panic none = err panic
or_panic (some a) = ok a

-- The documented order of decimals: total, and equality by value follows from it.
pub record IsOrdered (dec : Decimals) : Type 0 where
  pub irreflexive : (a : dec.Decimal) → dec.lt_dec a a ≡ false
  pub transitive :
      (a b c : dec.Decimal) → dec.lt_dec a b ≡ true → dec.lt_dec b c ≡ true → dec.lt_dec a c ≡ true
  pub cotransitive :
      (a b c : dec.Decimal)
      → dec.lt_dec a b ≡ false
      → dec.lt_dec b c ≡ false
      → dec.lt_dec a c ≡ false

pub or_panic-eq-ok {ℓ κ} :
    {E : Type ℓ} {A : Type κ} (m : Option A) {a : A} → or_panic {E = E} m ≡ ok a → m ≡ some a
or_panic-eq-ok none h = cc
or_panic-eq-ok (some b) h = cc

pub or_panic-raises {ℓ κ} :
    {E : Type ℓ} {A : Type κ} (m : Option A) {e : E} → or_panic m ≢ err (raised e)
or_panic-raises none h = cc
or_panic-raises (some b) h = cc
