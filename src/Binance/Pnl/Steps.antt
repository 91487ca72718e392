-- ===== src/Binance/Pnl/Steps.antt =====
-- What each operation on the lots of `compute_pnl` (services/collector/binance/worker/src/pnl.rs)
-- does to the lot of its asset and to every other.
use linvesther.Prelude.{
  ◌≡◌, inl, inr, refl, sym, subst, Option, none, some, false, and_then-eq-some, some-injective,
  Bool-cases,
}
use linvesther.Prelude.Bytes.{Bytes, bytes_eq}
use linvesther.Prelude.Maps.{get, insert, bytes_keys, get-insert_same, get-insert_other}
use linvesther.Domain.Decimal.{Decimals}
use linvesther.Binance.Pnl.{
  Lot, Lots, or_new_lot, min_dec, average_of, acquire, dispose, withdraw_over,
}
use linvesther.Binance.Pnl.History.{
  Move, bought, sold, taken, lot_before, IsMatched, IsBought, IsSold, IsTaken, IsMove,
}

module _ (dec : Decimals) where
  open dec use {Decimal, zero_dec, checked_add, checked_sub, checked_mul, checked_div, lt_dec}

  -- One asset moves, and every other stays.
  pub record IsStep (lots : Lots dec) (asset : Bytes) (m : Move dec) (after : Lots dec)
      : Type 0 where
    pub own : IsMove dec (get asset lots) m (get asset after)
    pub others : (s : Bytes) → bytes_eq asset s ≡ false → get s after ≡ get s lots

  new_lot-eq-before : (o : Option (Lot dec)) → or_new_lot dec o ≡ lot_before dec o
  new_lot-eq-before none = refl
  new_lot-eq-before (some lot) = refl

  min_dec-IsMatched :
      (before : Lot dec) (quantity : Decimal)
      → IsMatched dec before quantity (min_dec dec quantity before.held)
  min_dec-IsMatched before quantity = elim (Bool-cases (lt_dec before.held quantity)) [
    | inl less ↦ record { is_either = inl (less, rw less refl) }
    | inr more ↦ record { is_either = inr (more, rw more refl) }
  ]

  average_of-IsBought :
      (before : Lot dec) (quantity price total average_cost : Decimal)
      → checked_add before.held quantity ≡ some total
      → average_of dec before quantity price total ≡ some average_cost
      → IsBought dec before quantity price
          (record { held = total; average_cost = average_cost; realized = before.realized })
  unfolding average_of
  average_of-IsBought before quantity price total average_cost added h =
      elim (Bool-cases (lt_dec zero_dec total)) [
        | inl above ↦
            let (x, before_of, h1) =
              and_then-eq-some (checked_mul before.held before.average_cost) _ (rw above at h) in
            let (y, added_of, h2) = and_then-eq-some (checked_mul quantity price) _ h1 in
            let (cost, all_of, divided) = and_then-eq-some (checked_add x y) _ h2 in
            record {
              held_is = added;
              realized_same = refl;
              cost_is = inl (
                above,
                record {
                  cost_before = x;
                  cost_before_of = before_of;
                  cost_added = y;
                  cost_added_of = added_of;
                  cost = cost;
                  cost_of_all = all_of;
                  average_is = divided;
                },
              );
            }
        | inr none_ ↦ record {
          held_is = added;
          realized_same = refl;
          cost_is = inr (none_, sym (some-injective (rw none_ at h)));
        }
      ]

  -- An insertion of a lot is a step of its asset.
  insert-IsStep :
      (lots : Lots dec) (asset : Bytes) (m : Move dec) (lot : Lot dec)
      → IsMove dec (get asset lots) m (some lot)
      → IsStep lots asset m (insert asset lot lots)
  insert-IsStep lots asset m lot moved = record {
    own = rw (get-insert_same asset lot lots) moved;
    others = λ s other. get-insert_other asset s lot lots other;
  }

  pub acquire-IsStep :
      (lots : Lots dec) (asset : Bytes) (quantity price : Decimal) {after : Lots dec}
      → acquire dec lots asset quantity price ≡ some after
      → IsStep lots asset (bought quantity price) after
  unfolding acquire
  acquire-IsStep lots asset quantity price h =
      let before = or_new_lot dec (get asset lots) in
      let (total, added, h1) = and_then-eq-some (checked_add before.held quantity) _ h in
      let (cost, averaged, h2) =
        and_then-eq-some (average_of dec before quantity price total) _ h1 in
      let lot : Lot dec = record {
        held = total;
        average_cost = cost;
        realized = before.realized;
      } in
      let is = average_of-IsBought before quantity price total cost added averaged in
      subst (IsStep lots asset (bought quantity price)) (some-injective h2) (
        insert-IsStep lots asset (bought quantity price) lot (
          lot,
          refl,
          subst (λ b. IsBought dec b quantity price lot) (new_lot-eq-before (get asset lots)) is,
        ))

  pub dispose-IsStep :
      (lots : Lots dec) (asset : Bytes) (quantity price : Decimal) {after : Lots dec}
      → dispose dec lots asset quantity price ≡ some after
      → IsStep lots asset (sold quantity price) after
  unfolding dispose
  dispose-IsStep lots asset quantity price h =
      let before = or_new_lot dec (get asset lots) in
      let matched = min_dec dec quantity before.held in
      let (gain, gained, h1) = and_then-eq-some (checked_sub price before.average_cost) _ h in
      let (profit, multiplied, h2) = and_then-eq-some (checked_mul matched gain) _ h1 in
      let (realized, added, h3) = and_then-eq-some (checked_add before.realized profit) _ h2 in
      let (held, left, h4) = and_then-eq-some (checked_sub before.held matched) _ h3 in
      let lot : Lot dec = record {
        held = held;
        average_cost = before.average_cost;
        realized = realized;
      } in
      let is : IsSold dec before quantity price lot = record {
        matched = matched;
        matched_of = min_dec-IsMatched before quantity;
        gain = gain;
        gain_of = gained;
        profit = profit;
        profit_of = multiplied;
        realized_is = added;
        held_is = left;
        cost_same = refl;
      } in
      subst (IsStep lots asset (sold quantity price)) (some-injective h4) (
        insert-IsStep lots asset (sold quantity price) lot (
          lot,
          refl,
          subst (λ b. IsSold dec b quantity price lot) (new_lot-eq-before (get asset lots)) is,
        ))

  pub withdraw_over-IsStep :
      (lots : Lots dec) (asset : Bytes) (quantity : Decimal) {after : Lots dec}
      → withdraw_over dec (get asset lots) lots asset quantity ≡ some after
      → IsStep lots asset (taken quantity) after
  unfolding withdraw_over
  withdraw_over-IsStep lots asset quantity {after} h = over (get asset lots) refl h
    where
      over :
          (found : Option (Lot dec))
          → get asset lots ≡ found
          → withdraw_over dec found lots asset quantity ≡ some after
          → IsStep lots asset (taken quantity) after
      over none at h =
          subst (IsStep lots asset (taken quantity)) (some-injective h)
            (record { own = rw at refl; others = λ s other. refl })
      over (some before) at h =
          let matched = min_dec dec quantity before.held in
          let (held, left, h1) = and_then-eq-some (checked_sub before.held matched) _ h in
          let lot : Lot dec = record {
            held = held;
            average_cost = before.average_cost;
            realized = before.realized;
          } in
          let is : IsTaken dec before quantity lot = record {
            matched = matched;
            matched_of = min_dec-IsMatched before quantity;
            held_is = left;
            cost_same = refl;
            realized_same = refl;
          } in
          subst (IsStep lots asset (taken quantity)) (some-injective h1) (
            insert-IsStep lots asset (taken quantity) lot
              (subst (λ o. IsMove dec o (taken quantity) (some lot)) (sym at) (lot, refl, is)))
