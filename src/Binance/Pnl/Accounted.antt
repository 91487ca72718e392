-- ===== src/Binance/Pnl/Accounted.antt =====
-- The summary of `compute_pnl` (services/collector/binance/worker/src/pnl.rs) from its input.
use linvesther.Prelude.{
  ◌≡◌, ◌∙◌, sym, ap, subst, List, [], ◌++◌, none, some, ◌||◌, and_then-eq-some, some-injective,
}
use linvesther.Prelude.Bytes.{Bytes}
use linvesther.Prelude.Maps.{get, contains_key, bytes_keys}
use linvesther.Domain.Decimal.{Decimals}
use linvesther.Binance.Pnl.{
  PnlEvent, PnlSummary, Lots, openings_loop, events_loop, assets_of, positions_loop, compute_pnl,
}
use linvesther.Binance.Pnl.History.{opening_moves, event_moves, AreMoves}
use linvesther.Binance.Pnl.Loops.{lots-AreMoves}
use linvesther.Binance.Pnl.Assets.{
  is_listed, IsAscending, assets_of-IsAscending, is_listed-assets_of,
}
use linvesther.Binance.Pnl.Lines.{AreLines, sum_open, ArePositions-AreLines, sum_unrealized-eq-open}
use linvesther.Binance.Pnl.Totals.{
  ArePositions, sum_fees, sum_realized, events_loop-fees, positions_loop-IsTotalled,
}

module _ (dec : Decimals) where
  open dec use {Decimal, zero_dec}

  -- A summary of openings and events, with the lots that they leave.
  pub record IsAccounted (openings : List (Bytes × Decimal × Decimal))
      (events : List (PnlEvent dec)) (current marks : List (Bytes × Decimal))
      (summary : PnlSummary dec) : Type 0 where
    pub lots : Lots dec
    pub lots_of :
        (asset : Bytes)
        → AreMoves dec none
            (opening_moves dec asset openings ++ event_moves dec asset events)
            (get asset lots)
    pub assets : List Bytes
    pub ascending : IsAscending assets
    pub assets_are :
        (asset : Bytes)
        → is_listed asset assets ≡ contains_key asset lots || contains_key asset current
    pub lines : AreLines dec lots current marks assets summary.positions
    pub realized_is : sum_realized dec zero_dec summary.positions ≡ some summary.realized
    pub unrealized_is : sum_open dec zero_dec summary.positions ≡ some summary.unrealized
    pub fees_are : sum_fees dec zero_dec events ≡ some summary.fees

  -- If `compute_pnl` does not panic, every lot is what the history of its asset makes of it, its
  -- openings first and then its events: buying averages the cost over everything held, and selling
  -- realizes the price less that cost on what is held. The summary has one line for each asset with
  -- a lot or a current quantity, in order, but for those with nothing now and nothing realized; a
  -- line has the current quantity, the mark price, the lot's gain and cost, and the unrealized gain
  -- that follows from them. The totals are the checked sums of the lines, and the fees those of the
  -- fee events.
  pub compute_pnl-IsAccounted :
      (openings : List (Bytes × Decimal × Decimal)) (events : List (PnlEvent dec))
      (current marks : List (Bytes × Decimal)) (summary : PnlSummary dec)
      → compute_pnl dec openings events current marks ≡ some summary
      → IsAccounted openings events current marks summary
  unfolding compute_pnl
  compute_pnl-IsAccounted openings events current marks summary h =
      let (opened, o, h1) = and_then-eq-some (openings_loop dec openings []) _ h in
      let (ended, e, h2) = and_then-eq-some (events_loop dec events opened zero_dec) _ h1 in
      let assets = assets_of dec ended.0 current in
      let (result, p, h3) =
        and_then-eq-some (positions_loop dec ended.0 current marks assets [] zero_dec zero_dec) _
          h2 in
      let run = positions_loop-IsTotalled dec ended.0 current marks assets [] zero_dec zero_dec p in
      let made = some-injective h3 in
      let same : result.0 ≡ summary.positions = ap (λ (s : PnlSummary dec). s.positions) made in
      let lines : run.added ≡ summary.positions = sym run.positions_of ∙ same in
      record {
        lots = ended.0;
        lots_of = λ asset. lots-AreMoves dec openings events opened ended zero_dec asset o e;
        assets = assets;
        ascending = assets_of-IsAscending dec ended.0 current;
        assets_are = λ asset. is_listed-assets_of dec ended.0 current asset;
        lines =
            ArePositions-AreLines dec ended.0 current marks assets summary.positions
              (subst (λ l. ArePositions dec ended.0 current marks assets l) lines run.lines_of);
        realized_is =
            rw (← lines) (run.realized_sum ∙ ap (λ (s : PnlSummary dec). some s.realized) made);
        unrealized_is =
            rw (← sum_unrealized-eq-open dec zero_dec summary.positions, ← lines)
              (run.unrealized_sum ∙ ap (λ (s : PnlSummary dec). some s.unrealized) made);
        fees_are =
            events_loop-fees dec events opened zero_dec e
            ∙ ap (λ (s : PnlSummary dec). some s.fees) made;
      }
