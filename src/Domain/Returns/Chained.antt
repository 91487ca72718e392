-- ===== src/Domain/Returns/Chained.antt =====
-- Lemmas and theorems on `compute_twr` (crates/domain/returns/src/twr.rs).
use linvesther.Prelude.{
  ◌≡◌, ◌∙◌, sym, refl, subst, List, [], ◌∷◌, ◌++◌, append_assoc, append-nil, Option, none, some,
  true, ok, ok_or, and_then-eq-some, >>=-eq-ok, ok_or-eq-ok, ok-injective, and_then, Bool-cases,
  inl, inr,
}
use linvesther.Domain.Decimal.{Decimals}
use linvesther.Domain.Returns.{
  TimelineEvent, valuation, flow, numeric_range, TwrResult, checked_ratio_minus_one, chain,
  close_subperiod, nav_or_zero, twr_loop, compute_twr,
}

module _ (dec : Decimals) where
  open dec use {Decimal, zero_dec, one_dec, checked_add, checked_sub, checked_mul, checked_div}

  -- A subperiod: the value it starts from and the value that closes it.
  pub record Subperiod : Type 0 where
    pub v_start : Decimal
    pub v_end : Decimal

  -- The net asset value after an event, from the one before it.
  abbrev pub nav_after : Option Decimal → TimelineEvent dec → Option Decimal
  nav_after current (valuation time_ms nav) = some nav
  nav_after current (flow time_ms amount) = checked_add (nav_or_zero dec current) amount

  -- The subperiods that the valuations close.
  abbrev pub closed_by : Option Decimal → TimelineEvent dec → List Subperiod
  closed_by none event = []
  closed_by (some v) (valuation time_ms nav) = record { v_start = v; v_end = nav } ∷ []
  closed_by (some v) (flow time_ms amount) = []

  abbrev pub subperiods : Option Decimal → List (TimelineEvent dec) → List Subperiod
  subperiods current [] = []
  subperiods current (event ∷ events) =
      closed_by current event ++ subperiods (nav_after current event) events

  -- The return of a subperiod over a positive baseline: v_end / v_start - 1.
  pub record Returned (p : Subperiod) (r : Decimal) : Type 0 where
    pub baseline_positive : dec.lt_dec zero_dec p.v_start ≡ true
    pub ratio_of :
        and_then (checked_div p.v_end p.v_start) (λ ratio. checked_sub ratio one_dec) ≡ some r

  abbrev pub AreReturned : List Subperiod → List Decimal → Type 0
  AreReturned [] [] = Unit
  AreReturned [] (r ∷ rs) = ⊥
  AreReturned (p ∷ ps) [] = ⊥
  AreReturned (p ∷ ps) (r ∷ rs) = Returned p r × AreReturned ps rs

  -- index × (1 + r) for each r in turn.
  abbrev pub chain_all : Decimal → List Decimal → Option Decimal
  chain_all index [] = some index
  chain_all index (r ∷ rs) =
      and_then (checked_add one_dec r)
        (λ factor. and_then (checked_mul index factor) (λ next. chain_all next rs))

  checked_ratio-Returned :
      (v_start v_end : Decimal) {r : Decimal}
      → checked_ratio_minus_one dec v_end v_start ≡ ok r
      → Returned (record { v_start = v_start; v_end = v_end }) r
  unfolding checked_ratio_minus_one
  checked_ratio-Returned v_start v_end h = elim (Bool-cases (dec.lt_dec zero_dec v_start)) [
    | inr low ↦ let f = rw low at h in cc
    | inl above ↦
        let (ratio, divided, rest) =
          >>=-eq-ok (ok_or (checked_div v_end v_start) numeric_range) _ (rw above at h) in
        record {
          baseline_positive = above;
          ratio_of =
              rw (ok_or-eq-ok (checked_div v_end v_start) _ divided)
                (ok_or-eq-ok (checked_sub ratio one_dec) _ rest);
        }
  ]

  chain-eq-ok :
      (index r : Decimal) {next : Decimal}
      → chain dec index r ≡ ok next
      → and_then (checked_add one_dec r) (λ factor. checked_mul index factor) ≡ some next
  unfolding chain
  chain-eq-ok index r h =
      let (factor, added, rest) = >>=-eq-ok (ok_or (checked_add one_dec r) numeric_range) _ h in
      rw (ok_or-eq-ok (checked_add one_dec r) _ added)
        (ok_or-eq-ok (checked_mul index factor) _ rest)

  chain_all-step :
      (index r : Decimal) {next : Decimal} (rs : List Decimal)
      → and_then (checked_add one_dec r) (λ factor. checked_mul index factor) ≡ some next
      → chain_all index (r ∷ rs) ≡ chain_all next rs
  chain_all-step index r rs h =
      let (factor, added, multiplied) = and_then-eq-some (checked_add one_dec r) _ h in
      rw (added, multiplied) refl

  -- What a run of the loop adds to its state.
  pub record IsChained (current : Option Decimal) (events : List (TimelineEvent dec))
      (index : Decimal) (sub_returns : List Decimal) (result : TwrResult dec) : Type 0 where
    pub added : List Decimal
    pub sub_returns_of : result.sub_returns ≡ sub_returns ++ added
    pub returned : AreReturned (subperiods current events) added
    pub index_of : chain_all index added ≡ some result.index

  twr_loop-IsChained :
      (events : List (TimelineEvent dec)) (index : Decimal) (sub_returns : List Decimal)
      (current : Option Decimal) {result : TwrResult dec}
      → twr_loop dec events index sub_returns current ≡ ok result
      → IsChained current events index sub_returns result
  unfolding twr_loop close_subperiod
  twr_loop-IsChained [] index sub_returns current h =
      let made = ok-injective h in
      subst (λ w. IsChained current [] index sub_returns w) made
        (record {
          added = [];
          sub_returns_of = sym (append-nil sub_returns);
          returned = tt;
          index_of = refl;
        })
  twr_loop-IsChained (flow time_ms amount ∷ events) index sub_returns none h =
      let (after, moved, rest) =
        >>=-eq-ok (ok_or (checked_add zero_dec amount) numeric_range) _ h in
      let ih = twr_loop-IsChained events index sub_returns (some after) rest in
      record {
        added = ih.added;
        sub_returns_of = ih.sub_returns_of;
        returned = rw (ok_or-eq-ok (checked_add zero_dec amount) _ moved) ih.returned;
        index_of = ih.index_of;
      }
  twr_loop-IsChained (flow time_ms amount ∷ events) index sub_returns (some v) h =
      let (after, moved, rest) = >>=-eq-ok (ok_or (checked_add v amount) numeric_range) _ h in
      let ih = twr_loop-IsChained events index sub_returns (some after) rest in
      record {
        added = ih.added;
        sub_returns_of = ih.sub_returns_of;
        returned = rw (ok_or-eq-ok (checked_add v amount) _ moved) ih.returned;
        index_of = ih.index_of;
      }
  twr_loop-IsChained (valuation time_ms nav ∷ events) index sub_returns none h =
      let ih = twr_loop-IsChained events index sub_returns (some nav) h in
      record {
        added = ih.added;
        sub_returns_of = ih.sub_returns_of;
        returned = ih.returned;
        index_of = ih.index_of;
      }
  twr_loop-IsChained (valuation time_ms nav ∷ events) index sub_returns (some v) h =
      elim (Bool-cases (dec.lt_dec zero_dec v)) [
        | inr low ↦ let f = rw low at h in cc
        | inl above ↦
            let (state, closed, rest) = >>=-eq-ok _ _ (rw above at h) in
            let (r, ratio, c1) = >>=-eq-ok (checked_ratio_minus_one dec nav v) _ closed in
            let (next, chained, c2) = >>=-eq-ok (chain dec index r) _ c1 in
            let made = ok-injective c2 in
            let rest' = rw (← made) at rest in
            let ih = twr_loop-IsChained events next (sub_returns ++ (r ∷ [])) (some nav) rest' in
            record {
              added = r ∷ ih.added;
              sub_returns_of = ih.sub_returns_of ∙ append_assoc sub_returns (r ∷ []) ih.added;
              returned = (checked_ratio-Returned v nav ratio, ih.returned);
              index_of =
                  chain_all-step index r ih.added (chain-eq-ok index r chained) ∙ ih.index_of;
            }
      ]

  -- If `compute_twr` returns a result, then its returns are those of the subperiods that the
  -- valuations close, one for each and in order: a subperiod starts from the last known value, moved
  -- by the flows since, which is positive, and its return is v_end / v_start - 1. The index is the
  -- product of 1 + r over these returns from 1, so a flow never changes it, and what follows the
  -- last valuation is not counted.
  pub compute_twr-IsChained :
      (events : List (TimelineEvent dec)) (result : TwrResult dec)
      → compute_twr dec events ≡ ok result
      → AreReturned (subperiods none events) result.sub_returns
        × (chain_all one_dec result.sub_returns ≡ some result.index)
  unfolding compute_twr
  compute_twr-IsChained events result h =
      let run = twr_loop-IsChained events one_dec [] none h in
      (rw run.sub_returns_of run.returned, rw run.sub_returns_of run.index_of)
