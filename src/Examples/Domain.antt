-- ===== src/Examples/Domain.antt =====
-- The domain crates on small inputs. Decimals are whole numbers here.
use linvesther.Prelude.{
  ℕ, zero, suc, ◌+◌, ◌-◌, ◌*◌, List, [], ◌∷◌, ◌++◌, ◌≡◌, ◌≢◌, ◌↔◌, refl, Option, none, some, Bool,
  true, false, ok, err, arith, leb, if◌then◌else◌, replicate,
}
use linvesther.Prelude.Bytes.{Bytes, bytes_eq}
use linvesther.Prelude.Int.{ℤ, pos, negsuc, ◌+ℤ◌, ◌-ℤ◌, ◌*ℤ◌, ltb_ℤ, eqb_ℤ}
use linvesther.Prelude.Machine.{◌/ℤ◌}
use linvesther.Domain.Decimal.{Decimals, IsOrdered, raised}
use linvesther.Domain.Ledger.{LedgerLeg, LedgerEvent, Ledger}
use linvesther.Domain.Valuation.{
  BalanceSnapshot, TimedDelta, Valuation, AssetInput, total, check_ordering, apply_events,
  reconstruct_quantity, value_asset, value_loop, value_at_cut,
}
use linvesther.Domain.Valuation.Sums.{AreValued, sum_values, value_at_cut-AreValued}
use linvesther.Domain.Returns.{
  TimelineEvent, valuation, flow, TwrResult, checked_ratio_minus_one, chain, close_subperiod,
  twr_loop, compute_twr,
}
use linvesther.Domain.Returns.Chained.{AreReturned, subperiods, chain_all, compute_twr-IsChained}
use linvesther.Domain.Metrics.Drawdown.{
  IndexPoint, DrawdownEpisode, magnitude_of, episode_of, keep_max, drawdown_loop, max_drawdown,
}
use linvesther.Domain.Metrics.Drawdown.Highest.{AreFalls}
use linvesther.Domain.Metrics.Drawdown.Deepest.{IsDeepestOf, max_drawdown-IsDeepestOf}
use linvesther.Domain.Metrics.Stats.{
  mean, sample_variance, sum_from, sum_squares, excess_over, sqrt_days_per_year, sharpe,
}
use linvesther.Domain.Metrics.Stats.Published.{IsSharpe, sharpe_iff}
use linvesther.Domain.Metrics.WinRate.{Fill, out_of_fuel, compute_win_rate}
use linvesther.Domain.Metrics.WinRate.Terminates.{CancelsItself, compute_win_rate-ends}
use linvesther.Domain.Consolidation.{TransferLeg, contains, link_internal_transfer}
use linvesther.Binance.Pnl.{
  PnlEvent, acquire_event, dispose_event, fee_event, PnlSummary, assets_of, compute_pnl,
  openings_loop, events_loop, acquire, average_of, dispose, positions_loop, dedup, dedup_after,
}
use linvesther.Binance.Pnl.Accounted.{IsAccounted, compute_pnl-IsAccounted}
use linvesther.Prelude.Sort.{sort_by, insert_sorted}
use linvesther.Domain.Consolidation.Internal.{IsInternal, link_internal_transfer_iff}
use linvesther.Prelude.Maps.{get, insert, keys_of, bytes_keys, bytes_lt}

abbrev digits_of : Bytes → Option ℤ
digits_of [] = none
digits_of (d ∷ []) = if leb 48 d then some (pos (d - 48)) else none
digits_of (d ∷ e ∷ ds) = none

-- The largest root up to a bound.
abbrev root_below : ℕ → ℕ → ℕ
root_below zero n = 0
root_below (suc k) n = let rest = root_below k n in if leb (suc k * suc k) n then suc k else rest

abbrev root_of : ℤ → Option ℤ
root_of (pos n) = some (pos (root_below 40 n))
root_of (negsuc n) = none

abbrev negated : ℤ → ℤ
negated a = pos 0 -ℤ a

abbrev divided : ℤ → ℤ → Option ℤ
divided a b = if eqb_ℤ b (pos 0) then none else some (◌/ℤ◌ a b)

abbrev whole : Decimals
whole = record {
  Decimal = ℤ;
  zero_dec = pos 0;
  one_dec = pos 1;
  checked_add = λ a b. some (a +ℤ b);
  checked_sub = λ a b. some (a -ℤ b);
  checked_mul = λ a b. some (a *ℤ b);
  checked_div = divided;
  negate = negated;
  lt_dec = ltb_ℤ;
  eq_dec = eqb_ℤ;
  from_u64 = pos;
  from_str = digits_of;
  to_string = λ a. [];
  sqrt = root_of;
  checked_powd = λ a b. some a;
}

whole_ordered : IsOrdered whole
whole_ordered = record {
  irreflexive = λ a. ground arith;
  transitive = λ a b c. ground arith;
  cotransitive = λ a b c. ground arith;
}

abbrev leg_of : ℕ → Bool → LedgerLeg
leg_of digit is_credit = record {
  asset = 66 ∷ [];
  amount = (48 + digit) ∷ [];
  is_credit = is_credit;
}

abbrev event_of : ℕ → LedgerEvent
event_of digit = record {
  source_namespace = 1 ∷ [];
  source_id = 2 ∷ [];
  economic_time_ms = 100;
  observed_time_ms = 120;
  legs = leg_of digit true ∷ [];
  fee = some (leg_of 1 false);
}

abbrev booked : Ledger whole
booked = record { events = ((1 ∷ [], 2 ∷ []), event_of 5) ∷ []; balances = (66 ∷ [], pos 4) ∷ [] }

abbrev observed : BalanceSnapshot whole
observed = record { free = pos 7; locked = pos 3; observed_at_ms = 100 }

abbrev moves : List (TimedDelta whole)
moves = record { time_ms = 50; delta = pos 4 } ∷ record { time_ms = 120; delta = pos 2 } ∷ []

abbrev holding : AssetInput whole
holding = record { asset = 66 ∷ []; snapshot = observed; events = moves }

abbrev valued : Valuation whole
valued = record {
  cut_ms = 120;
  assets = record { asset = 66 ∷ []; quantity = pos 12; price = pos 3; value = pos 36 } ∷ [];
  nav = pos 36;
}

value_run : value_at_cut whole (holding ∷ []) ((66 ∷ [], pos 3) ∷ []) 120 ≡ ok valued
unfolding value_at_cut value_loop value_asset reconstruct_quantity check_ordering total apply_events
    get bytes_eq ◌+ℤ◌ ◌*ℤ◌
value_run = refl

value_at_cut-AreValued_example :
    AreValued whole ((66 ∷ [], pos 3) ∷ []) 120 (holding ∷ []) valued.assets
    × (sum_values whole (pos 0) valued.assets ≡ some (pos 36))
    × (valued.cut_ms ≡ 120)
value_at_cut-AreValued_example =
    value_at_cut-AreValued whole (holding ∷ []) ((66 ∷ [], pos 3) ∷ []) 120 valued value_run

abbrev timeline : List (TimelineEvent whole)
timeline = valuation 1 (pos 10) ∷ valuation 2 (pos 30) ∷ flow 3 (pos 10) ∷ valuation 4 (pos 80) ∷ []

abbrev twice_up : TwrResult whole
twice_up = record { index = pos 6; sub_returns = pos 2 ∷ pos 1 ∷ [] }

twr_run : compute_twr whole timeline ≡ ok twice_up
unfolding compute_twr twr_loop close_subperiod checked_ratio_minus_one chain ◌+ℤ◌ ◌-ℤ◌ ◌*ℤ◌ ◌/ℤ◌
twr_run = refl

compute_twr-IsChained_example :
    AreReturned whole (subperiods whole none timeline) (pos 2 ∷ pos 1 ∷ [])
    × (chain_all whole (pos 1) (pos 2 ∷ pos 1 ∷ []) ≡ some (pos 6))
unfolding ◌+ℤ◌
compute_twr-IsChained_example = compute_twr-IsChained whole timeline twice_up twr_run

abbrev points : List (IndexPoint whole)
points =
    record { time_ms = 1; index = pos 10 }
    ∷ record { time_ms = 2; index = pos 0 }
    ∷ record { time_ms = 3; index = pos 20 }
    ∷ []

abbrev fallen : DrawdownEpisode whole
fallen = record {
  peak_time_ms = 1;
  peak_index = pos 10;
  trough_time_ms = 2;
  trough_index = pos 0;
  magnitude = pos 1;
}

drawdown_run : max_drawdown whole points ≡ some (some fallen)
unfolding max_drawdown drawdown_loop magnitude_of episode_of keep_max ◌-ℤ◌ ◌/ℤ◌
drawdown_run = refl

max_drawdown-IsDeepestOf_example :
    (ds : List (DrawdownEpisode whole)) × AreFalls whole [] points ds
    × IsDeepestOf whole ds (some fallen)
max_drawdown-IsDeepestOf_example =
    max_drawdown-IsDeepestOf whole whole_ordered points (some fallen) drawdown_run

whole_cancels : CancelsItself whole
unfolding ◌-ℤ◌
whole_cancels = record { is_zero = λ a d h. ground arith; not_above = λ a d h. ground arith }

abbrev fills : List (Fill whole)
fills =
    record { time_ms = 3; qty = pos 5; price = pos 9; is_buy = false }
    ∷ record { time_ms = 1; qty = pos 2; price = pos 4; is_buy = true }
    ∷ record { time_ms = 2; qty = pos 2; price = pos 12; is_buy = true }
    ∷ []

compute_win_rate-ends_example : compute_win_rate whole fills ≢ err (raised out_of_fuel)
compute_win_rate-ends_example = compute_win_rate-ends whole whole_cancels fills

abbrev returns : List ℤ
returns = replicate 15 (pos 5) ++ replicate 15 (pos 9)

sharpe_run : sharpe whole returns (pos 1) ≡ ok (pos 57)
unfolding sharpe mean sample_variance sum_from sum_squares excess_over sqrt_days_per_year ◌+ℤ◌ ◌-ℤ◌
    ◌*ℤ◌ ◌/ℤ◌
sharpe_run = refl

sharpe_iff_example :
    (sharpe whole returns (pos 1) ≡ ok (pos 57)) ↔ IsSharpe whole returns (pos 1) (pos 57)
sharpe_iff_example = sharpe_iff whole returns (pos 1) (pos 57)

abbrev out_leg : TransferLeg whole
out_leg = record { account_id = 1 ∷ []; asset = 66 ∷ []; amount = pos 9 }

abbrev in_leg : TransferLeg whole
in_leg = record { account_id = 2 ∷ []; asset = 66 ∷ []; amount = pos 8 }

link_internal_transfer_iff_example :
    (link_internal_transfer whole (7 ∷ []) out_leg in_leg (pos 1) ((1 ∷ []) ∷ (2 ∷ []) ∷ [])
      ≡ ok (record {
        link_id = 7 ∷ [];
        asset = 66 ∷ [];
        outgoing = out_leg;
        incoming = in_leg;
        fee = pos 1;
      }))
    ↔ IsInternal whole out_leg in_leg (pos 1) ((1 ∷ []) ∷ (2 ∷ []) ∷ [])
link_internal_transfer_iff_example =
    link_internal_transfer_iff whole (7 ∷ []) out_leg in_leg (pos 1) ((1 ∷ []) ∷ (2 ∷ []) ∷ [])

-- More comes in than went out: a fee of -3 is taken.
link_negative_fee :
    link_internal_transfer whole
      (7 ∷ [])
      out_leg
      (record { account_id = 2 ∷ []; asset = 66 ∷ []; amount = pos 12 })
      (negsuc 2)
      ((1 ∷ []) ∷ (2 ∷ []) ∷ [])
    ≡ ok (record {
      link_id = 7 ∷ [];
      asset = 66 ∷ [];
      outgoing = out_leg;
      incoming = record { account_id = 2 ∷ []; asset = 66 ∷ []; amount = pos 12 };
      fee = negsuc 2;
    })
unfolding link_internal_transfer contains bytes_eq ◌+ℤ◌
link_negative_fee = refl

abbrev pnl_events : List (PnlEvent whole)
pnl_events =
    acquire_event (66 ∷ []) (pos 2) (pos 20)
    ∷ dispose_event (66 ∷ []) (pos 1) (pos 30)
    ∷ fee_event (pos 1)
    ∷ []

abbrev pnl_summary : PnlSummary whole
pnl_summary = record {
  positions =
      record {
        asset = 66 ∷ [];
        quantity = pos 3;
        average_cost = some (pos 15);
        mark_price = pos 40;
        realized = pos 15;
        unrealized = some (pos 75);
      }
      ∷ [];
  realized = pos 15;
  unrealized = pos 75;
  fees = pos 1;
}

pnl_run :
    compute_pnl whole
      ((66 ∷ [], pos 2, pos 10) ∷ [])
      pnl_events
      ((66 ∷ [], pos 3) ∷ [])
      ((66 ∷ [], pos 40) ∷ [])
    ≡ some pnl_summary
unfolding compute_pnl openings_loop events_loop acquire average_of dispose positions_loop assets_of
    dedup dedup_after sort_by insert_sorted keys_of get insert bytes_eq bytes_lt ◌+ℤ◌ ◌-ℤ◌ ◌*ℤ◌ ◌/ℤ◌
pnl_run = refl

compute_pnl-IsAccounted_example :
    IsAccounted whole
      ((66 ∷ [], pos 2, pos 10) ∷ [])
      pnl_events
      ((66 ∷ [], pos 3) ∷ [])
      ((66 ∷ [], pos 40) ∷ [])
      pnl_summary
compute_pnl-IsAccounted_example =
    compute_pnl-IsAccounted whole ((66 ∷ [], pos 2, pos 10) ∷ []) pnl_events ((66 ∷ [], pos 3) ∷ [])
      ((66 ∷ [], pos 40) ∷ []) pnl_summary pnl_run
