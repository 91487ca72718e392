-- ===== src/Domain/Metrics/Drawdown/Highest.antt =====
-- The highest point so far and the falls from it (crates/domain/metrics/src/drawdown.rs).
use linvesther.Prelude.{
  ◌≡◌, ◌⊎◌, inl, inr, refl, List, [], ◌∷◌, ◌++◌, some, true, false, and_then-eq-some, All,
  Bool-cases,
}
use linvesther.Domain.Decimal.{Decimals, IsOrdered}
use linvesther.Domain.Metrics.Drawdown.{
  IndexPoint, DrawdownEpisode, raise_peak, magnitude_of, episode_of,
}

module _ (dec : Decimals) where
  open dec use {Decimal, zero_dec, one_dec, checked_sub, checked_div, lt_dec}

  -- The highest of the points so far, the first of them: higher than all before it, and no point
  -- after it is higher.
  abbrev pub IsHighest : IndexPoint dec → List (IndexPoint dec) → Type 0
  IsHighest peak [] = ⊥
  IsHighest peak (point ∷ points) =
      ((point ≡ peak) × All (λ q. lt_dec peak.index q.index ≡ false) points)
      ⊎ ((lt_dec point.index peak.index ≡ true) × IsHighest peak points)

  -- The fall at a point from a peak: 1 - point / peak.
  pub record IsFall (peak point : IndexPoint dec) (d : DrawdownEpisode dec) : Type 0 where
    pub peak_time_of : d.peak_time_ms ≡ peak.time_ms
    pub peak_of : d.peak_index ≡ peak.index
    pub trough_time_of : d.trough_time_ms ≡ point.time_ms
    pub trough_of : d.trough_index ≡ point.index
    pub ratio : Decimal
    pub ratio_of : checked_div point.index peak.index ≡ some ratio
    pub magnitude_is : checked_sub one_dec ratio ≡ some d.magnitude

  -- The falls at the points that follow those before, one for each point whose highest point so far
  -- is positive, in order.
  pub data AreFalls
      : List (IndexPoint dec) → List (IndexPoint dec) → List (DrawdownEpisode dec) → Type 0 where
    ended : (before : List (IndexPoint dec)) → AreFalls before [] []
    not_positive :
        (before points : List (IndexPoint dec)) (peak point : IndexPoint dec)
        (ds : List (DrawdownEpisode dec))
        → IsHighest peak (before ++ (point ∷ []))
        → lt_dec zero_dec peak.index ≡ false
        → AreFalls (before ++ (point ∷ [])) points ds
        → AreFalls before (point ∷ points) ds
    fallen :
        (before points : List (IndexPoint dec)) (peak point : IndexPoint dec)
        (d : DrawdownEpisode dec) (ds : List (DrawdownEpisode dec))
        → IsHighest peak (before ++ (point ∷ []))
        → lt_dec zero_dec peak.index ≡ true
        → IsFall peak point d
        → AreFalls (before ++ (point ∷ [])) points ds
        → AreFalls before (point ∷ points) (d ∷ ds)

  -- The first step meets the first point again.
  pub starts : (point : IndexPoint dec) → IsHighest (raise_peak dec point point) (point ∷ [])
  unfolding raise_peak
  starts point = elim (Bool-cases (lt_dec point.index point.index)) [
    | inl higher ↦ rw higher (inl (refl, tt))
    | inr low ↦ rw low (inl (refl, tt))
  ]

  module _ (order : IsOrdered dec) where
    -- A strictly higher point is above all that the peak is not below.
    above_all :
        (peak point : IndexPoint dec) (points : List (IndexPoint dec))
        → lt_dec peak.index point.index ≡ true
        → All (λ q. lt_dec peak.index q.index ≡ false) points
        → IsHighest point (points ++ (point ∷ []))
    above_all peak point [] higher low = inl (refl, tt)
    above_all peak point (q ∷ points) higher (low, rest) = inr (
      elim (Bool-cases (lt_dec q.index point.index)) [
        | inl below ↦ below
        | inr not_below ↦
            let f = order.cotransitive peak.index q.index point.index low not_below in cc
      ],
      above_all peak point points higher rest,
    )

    All-snoc :
        (peak point : IndexPoint dec) (points : List (IndexPoint dec))
        → lt_dec peak.index point.index ≡ false
        → All (λ q. lt_dec peak.index q.index ≡ false) points
        → All (λ q. lt_dec peak.index q.index ≡ false) (points ++ (point ∷ []))
    All-snoc peak point [] low rest = (low, tt)
    All-snoc peak point (q ∷ points) low (here, rest) = (here, All-snoc peak point points low rest)

    IsHighest-higher :
        (peak point : IndexPoint dec) (before : List (IndexPoint dec))
        → lt_dec peak.index point.index ≡ true
        → IsHighest peak before
        → IsHighest point (before ++ (point ∷ []))
    IsHighest-higher peak point [] higher top = absurd top
    IsHighest-higher peak point (q ∷ before) higher (inl (same, rest)) =
        inr (rw same higher, above_all peak point before higher rest)
    IsHighest-higher peak point (q ∷ before) higher (inr (less, rest)) = inr (
      order.transitive q.index peak.index point.index less higher,
      IsHighest-higher peak point before higher rest,
    )

    IsHighest-lower :
        (peak point : IndexPoint dec) (before : List (IndexPoint dec))
        → lt_dec peak.index point.index ≡ false
        → IsHighest peak before
        → IsHighest peak (before ++ (point ∷ []))
    IsHighest-lower peak point [] low top = absurd top
    IsHighest-lower peak point (q ∷ before) low (inl (same, rest)) =
        inl (same, All-snoc peak point before low rest)
    IsHighest-lower peak point (q ∷ before) low (inr (less, rest)) =
        inr (less, IsHighest-lower peak point before low rest)

    -- The running peak stays the highest.
    raise_peak-IsHighest :
        (peak point : IndexPoint dec) (before : List (IndexPoint dec))
        → IsHighest peak before
        → IsHighest (raise_peak dec peak point) (before ++ (point ∷ []))
    unfolding raise_peak
    raise_peak-IsHighest peak point before top = elim (Bool-cases (lt_dec peak.index point.index)) [
      | inl higher ↦ rw higher (IsHighest-higher peak point before higher top)
      | inr low ↦ rw low (IsHighest-lower peak point before low top)
    ]

    -- The peak at every next point is the highest so far.
    abbrev pub LeadsOn : IndexPoint dec → List (IndexPoint dec) → List (IndexPoint dec) → Type 0
    LeadsOn peak before [] = Unit
    LeadsOn peak before (point ∷ points) =
        IsHighest (raise_peak dec peak point) (before ++ (point ∷ []))

    pub IsHighest-LeadsOn :
        (peak : IndexPoint dec) (before points : List (IndexPoint dec))
        → IsHighest peak before
        → LeadsOn peak before points
    IsHighest-LeadsOn peak before [] top = tt
    IsHighest-LeadsOn peak before (point ∷ points) top = raise_peak-IsHighest peak point before top

    pub magnitude_of-IsFall :
        (peak point : IndexPoint dec) {magnitude : Decimal}
        → magnitude_of dec peak point ≡ some magnitude
        → IsFall peak point (episode_of dec peak point magnitude)
    unfolding magnitude_of episode_of
    magnitude_of-IsFall peak point h =
        let (ratio, divided, subtracted) =
          and_then-eq-some (checked_div point.index peak.index) _ h in
        record {
          peak_time_of = refl;
          peak_of = refl;
          trough_time_of = refl;
          trough_of = refl;
          ratio = ratio;
          ratio_of = divided;
          magnitude_is = subtracted;
        }
