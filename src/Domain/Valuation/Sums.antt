-- ===== src/Domain/Valuation/Sums.antt =====
-- Lemmas and theorems on `value_at_cut` (crates/domain/valuation/src/valuation.rs).
use linvesther.Prelude.{
  ℕ, ◌≡◌, ◌∙◌, sym, ap, refl, List, [], ◌∷◌, ◌++◌, Option, some, ok, and_then, >>=-eq-ok,
  ok-injective, subst, ok_or-eq-ok, map_err-eq-ok, append_assoc, append-nil, map_err, ok_or,
}
use linvesther.Prelude.Bytes.{Bytes}
use linvesther.Prelude.Maps.{get, bytes_keys}
use linvesther.Domain.Decimal.{Decimals, raised, or_panic, or_panic-eq-ok}
use linvesther.Domain.Valuation.{
  unsupported_asset, reconstruct_quantity, AssetValuation, Valuation, AssetInput, value_asset,
  value_loop, value_at_cut, with_asset,
}

module _ (dec : Decimals) where
  open dec use {Decimal, zero_dec, checked_add, checked_mul}

  -- One line of a valuation, for its input.
  pub record IsValued (prices : List (Bytes × Decimal)) (cut_ms : ℕ) (input : AssetInput dec)
      (line : AssetValuation dec) : Type 0 where
    pub asset_of : line.asset ≡ input.asset
    pub quantity_of : reconstruct_quantity dec input.snapshot input.events cut_ms ≡ ok line.quantity
    pub price_of : get input.asset prices ≡ some line.price
    pub value_of : checked_mul line.quantity line.price ≡ some line.value

  -- Every input has its line, in the same order, and there are no others.
  abbrev pub AreValued :
      List (Bytes × Decimal) → ℕ → List (AssetInput dec) → List (AssetValuation dec) → Type 0
  AreValued prices cut_ms [] [] = Unit
  AreValued prices cut_ms [] (line ∷ lines) = ⊥
  AreValued prices cut_ms (input ∷ inputs) [] = ⊥
  AreValued prices cut_ms (input ∷ inputs) (line ∷ lines) =
      IsValued prices cut_ms input line × AreValued prices cut_ms inputs lines

  abbrev pub sum_values : Decimal → List (AssetValuation dec) → Option Decimal
  sum_values nav [] = some nav
  sum_values nav (line ∷ lines) =
      and_then (checked_add nav line.value) (λ sum. sum_values sum lines)

  value_asset-IsValued :
      (prices : List (Bytes × Decimal)) (cut_ms : ℕ) (input : AssetInput dec)
      {line : AssetValuation dec}
      → value_asset dec prices cut_ms input ≡ ok line
      → IsValued prices cut_ms input line
  unfolding value_asset
  value_asset-IsValued prices cut_ms input h =
      let (quantity, rebuilt, h1) =
        >>=-eq-ok
          (map_err (with_asset input.asset)
            (reconstruct_quantity dec input.snapshot input.events cut_ms))
          _ h in
      let (price, priced, h2) =
        >>=-eq-ok (ok_or (get input.asset prices) (raised (unsupported_asset input.asset))) _ h1 in
      let (value, valued, h3) = >>=-eq-ok (or_panic (checked_mul quantity price)) _ h2 in
      let made = ok-injective h3 in
      subst (λ line. IsValued prices cut_ms input line) made
        (record {
          asset_of = refl;
          quantity_of = map_err-eq-ok (with_asset input.asset) _ rebuilt;
          price_of = ok_or-eq-ok (get input.asset prices) _ priced;
          value_of = or_panic-eq-ok (checked_mul quantity price) valued;
        })

  value_loop-AreValued :
      (prices : List (Bytes × Decimal)) (cut_ms : ℕ) (inputs : List (AssetInput dec))
      (assets : List (AssetValuation dec)) (nav : Decimal) {v : Valuation dec}
      → value_loop dec prices cut_ms inputs assets nav ≡ ok v
      → (lines : List (AssetValuation dec)) × (v.assets ≡ assets ++ lines)
        × AreValued prices cut_ms inputs lines
        × (sum_values nav lines ≡ some v.nav)
        × (v.cut_ms ≡ cut_ms)
  unfolding value_loop
  value_loop-AreValued prices cut_ms [] assets nav {v} h =
      let made = ok-injective h in
      (
        [],
        sym (ap (λ (w : Valuation dec). w.assets) made) ∙ sym (append-nil assets),
        tt,
        ap (λ (w : Valuation dec). some w.nav) made,
        sym (ap (λ (w : Valuation dec). w.cut_ms) made),
      )
  value_loop-AreValued prices cut_ms (input ∷ inputs) assets nav {v} h =
      let (line, valued, h1) = >>=-eq-ok (value_asset dec prices cut_ms input) _ h in
      let (sum, added, h2) = >>=-eq-ok (or_panic (checked_add nav line.value)) _ h1 in
      let (lines, all_, rest, summed, cut) =
        value_loop-AreValued prices cut_ms inputs (assets ++ (line ∷ [])) sum h2 in
      (
        line ∷ lines,
        all_ ∙ append_assoc assets (line ∷ []) lines,
        (value_asset-IsValued prices cut_ms input valued, rest),
        rw (or_panic-eq-ok (checked_add nav line.value) added) summed,
        cut,
      )

  -- A valuation that `value_at_cut` returns is complete: it has one line for each input, in order
  -- and no others, each with the quantity reconstructed at the cut, the price of that asset and
  -- their product, and its net asset value is the checked sum of the values of the lines.
  pub value_at_cut-AreValued :
      (inputs : List (AssetInput dec)) (prices : List (Bytes × Decimal)) (cut_ms : ℕ)
      (v : Valuation dec)
      → value_at_cut dec inputs prices cut_ms ≡ ok v
      → AreValued prices cut_ms inputs v.assets
        × (sum_values zero_dec v.assets ≡ some v.nav)
        × (v.cut_ms ≡ cut_ms)
  unfolding value_at_cut
  value_at_cut-AreValued inputs prices cut_ms v h =
      let (lines, all_, valued, summed, cut) =
        value_loop-AreValued prices cut_ms inputs [] zero_dec h in
      (rw all_ valued, rw all_ summed, cut)
