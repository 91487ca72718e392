-- ===== src/Performance/Compute.antt =====
-- zkvm/methods/performance/guest/src/compute.rs: reconciliation, the return index and the maximum
-- drawdown over `i64` net asset values, computed in `i128`.
pub mod Index
pub mod Drawdown
pub mod Reconcile
use linvesther.Prelude.{
  ℕ, zero, suc, ◌+◌, List, [], ◌∷◌, Option, none, some, Result, ok, err, ◌>>=◌, ◌>>◌, raise_if,
  ok_or, not, is_empty, if◌then◌else◌, Bool,
}
use linvesther.Prelude.Int.{ℤ, pos, ltb_ℤ, leb_ℤ, eqb_ℤ}
use linvesther.Prelude.Machine.{◌+i64◌, ◌-i64◌, ◌-i128◌, ◌*i128◌, ◌/ℤ◌, wrap, i64_half}
use mathlib.Core.List.{foldl, head?, get_last?}

abbrev pub scale : ℤ
scale = pos 1_000_000

pub data ComputeError : Type 0 where
  empty_nav : ComputeError
  non_positive_nav : (index : ℕ) (nav : ℤ) → ComputeError
  reconciliation_mismatch : (expected got : ℤ) → ComputeError

unfoldable pub first : List ℤ → Option ℤ
first [] = none
first (x ∷ xs) = some x

unfoldable pub last : List ℤ → Option ℤ
last [] = none
last (x ∷ []) = some x
last (x ∷ y ∷ xs) = last (y ∷ xs)

-- `iter().sum()` adds from the left, and wraps.
unfoldable pub sum_from : ℤ → List ℤ → ℤ
sum_from acc [] = acc
sum_from acc (x ∷ xs) = sum_from (acc +i64 x) xs

unfoldable pub reconcile : List ℤ → List ℤ → Result ComputeError (Unit {0})
unfolding first last sum_from
reconcile nav ledger_deltas = do
  start ← ok_or (first nav) empty_nav
  end ← ok_or (last nav) empty_nav
  let expected = end -i64 start
  let got = sum_from (pos 0) ledger_deltas
  raise_if (not (eqb_ℤ expected got)) (reconciliation_mismatch expected got)

-- The loop over `nav.windows(2).enumerate()`.
unfoldable pub index_loop : ℕ → ℤ → List ℤ → Result ComputeError ℤ
index_loop i index [] = ok index
index_loop i index (prev ∷ []) = ok index
index_loop i index (prev ∷ cur ∷ nav) =
    let ratio = (cur *i128 scale) /ℤ prev in
    let rest = index_loop (i + 1) ((index *i128 ratio) /ℤ scale) (cur ∷ nav) in
    if leb_ℤ prev (pos 0) then err (non_positive_nav i prev) else rest

unfoldable pub twr_index : List ℤ → Result ComputeError ℤ
unfolding index_loop
twr_index nav = if is_empty nav then err empty_nav else index_loop 0 scale nav

-- The loop over `nav.iter().enumerate()`: the peak so far and the largest drawdown so far.
unfoldable pub drawdown_loop : ℕ → ℤ → ℤ → List ℤ → Result ComputeError ℤ
drawdown_loop i peak max_dd_scaled [] = ok max_dd_scaled
drawdown_loop i peak max_dd_scaled (value ∷ nav) =
    let drawdown = ((peak -i128 value) *i128 scale) /ℤ peak in
    let at_peak = drawdown_loop (i + 1) value max_dd_scaled nav in
    let deeper = drawdown_loop (i + 1) peak drawdown nav in
    let same = drawdown_loop (i + 1) peak max_dd_scaled nav in
    if leb_ℤ value (pos 0)
    then err (non_positive_nav i value)
    else if ltb_ℤ peak value
    then at_peak
    else if ltb_ℤ max_dd_scaled drawdown
    then deeper
    else same

-- `as i64` keeps the low 64 bits.
unfoldable pub max_drawdown_bp : List ℤ → Result ComputeError ℤ
unfolding first
max_drawdown_bp nav = do
  start ← ok_or (first nav) empty_nav
  raise_if (leb_ℤ start (pos 0)) (non_positive_nav 0 start)
  max_dd_scaled ← drawdown_loop 0 start (pos 0) nav
  ok (wrap i64_half ((max_dd_scaled *i128 pos 10_000) /ℤ scale))
