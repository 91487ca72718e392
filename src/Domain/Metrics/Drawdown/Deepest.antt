-- ===== src/Domain/Metrics/Drawdown/Deepest.antt =====
-- Lemmas and theorems on `max_drawdown` (crates/domain/metrics/src/drawdown.rs).
use linvesther.Prelude.{
  ◌≡◌, ◌⊎◌, inl, inr, ap, refl, List, [], ◌∷◌, ◌++◌, Option, none, some, true, false,
  and_then-eq-some, All, Bool-cases,
}
use linvesther.Domain.Decimal.{Decimals, IsOrdered}
use linvesther.Domain.Metrics.Drawdown.{
  IndexPoint, DrawdownEpisode, raise_peak, magnitude_of, episode_of, is_new_max, keep_max,
  drawdown_loop, max_drawdown,
}
use linvesther.Domain.Metrics.Drawdown.Highest.{
  AreFalls, ended, not_positive, fallen, starts, LeadsOn, IsHighest-LeadsOn, magnitude_of-IsFall,
}

module _ (dec : Decimals) where
  open dec use {Decimal, zero_dec, lt_dec}

  abbrev pub deepest :
      Option (DrawdownEpisode dec) → List (DrawdownEpisode dec) → Option (DrawdownEpisode dec)
  deepest best [] = best
  deepest best (d ∷ ds) = deepest (keep_max dec best d) ds

  -- An episode deeper than all before it in a list, and at least as deep as all after it.
  abbrev pub IsFirstDeepest : DrawdownEpisode dec → List (DrawdownEpisode dec) → Type 0
  IsFirstDeepest e [] = ⊥
  IsFirstDeepest e (d ∷ ds) =
      ((d ≡ e) × All (λ f. lt_dec e.magnitude f.magnitude ≡ false) ds)
      ⊎ ((lt_dec d.magnitude e.magnitude ≡ true) × IsFirstDeepest e ds)

  module _ (order : IsOrdered dec) where
    drawdown_loop-AreFalls :
        (points : List (IndexPoint dec)) (peak : IndexPoint dec) (before : List (IndexPoint dec))
        (best : Option (DrawdownEpisode dec)) {result : Option (DrawdownEpisode dec)}
        → LeadsOn dec order peak before points
        → drawdown_loop dec peak best points ≡ some result
        → (ds : List (DrawdownEpisode dec)) × AreFalls dec before points ds
          × (deepest best ds ≡ result)
    unfolding drawdown_loop
    drawdown_loop-AreFalls [] peak before best leads h = ([], ended before, cc)
    drawdown_loop-AreFalls (point ∷ points) peak before best leads h =
        let top = raise_peak dec peak point in
        let seen = before ++ (point ∷ []) in
        let on = IsHighest-LeadsOn dec order top seen points leads in
        elim (Bool-cases (lt_dec zero_dec top.index)) [
          | inr low ↦
              let (ds, falls, made) =
                drawdown_loop-AreFalls points top seen best on (rw low at h) in
              (ds, not_positive before points top point ds leads low falls, made)
          | inl above ↦
              let (magnitude, fell, rest) =
                and_then-eq-some (magnitude_of dec top point) _ (rw above at h) in
              let d = episode_of dec top point magnitude in
              let (ds, falls, made) =
                drawdown_loop-AreFalls points top seen (keep_max dec best d) on rest in
              let fall = magnitude_of-IsFall dec order top point fell in
              (d ∷ ds, fallen before points top point d ds leads above fall falls, made)
        ]

    deepest-IsFirstDeepest :
        (ds : List (DrawdownEpisode dec)) (b e : DrawdownEpisode dec)
        → deepest (some b) ds ≡ some e
        → IsFirstDeepest e (b ∷ ds)
    unfolding keep_max is_new_max
    deepest-IsFirstDeepest [] b e h = inl (cc, tt)
    deepest-IsFirstDeepest (d ∷ ds) b e h = elim (Bool-cases (lt_dec b.magnitude d.magnitude)) [
      | inl deeper ↦
          let ih = deepest-IsFirstDeepest ds d e (rw deeper at h) in
          inr (
            elim ih [
              | inl (same, rest) ↦ rw (← same) deeper
              | inr (less, rest) ↦ order.transitive b.magnitude d.magnitude e.magnitude deeper less
            ],
            ih,
          )
      | inr shallower ↦ elim (deepest-IsFirstDeepest ds b e (rw shallower at h)) [
        | inl (same, rest) ↦ inl (same, (rw (← same) shallower, rest))
        | inr (less, rest) ↦ inr (
          less,
          inr (
            elim (Bool-cases (lt_dec d.magnitude e.magnitude)) [
              | inl lt_e ↦ lt_e
              | inr ge_e ↦
                  let f = order.cotransitive b.magnitude d.magnitude e.magnitude shallower ge_e in
                  cc
            ],
            rest,
          ),
        )
      ]
    ]

  abbrev pub IsDeepestOf : List (DrawdownEpisode dec) → Option (DrawdownEpisode dec) → Type 0
  IsDeepestOf ds none = ds ≡ []
  IsDeepestOf ds (some e) = IsFirstDeepest e ds

  deepest-IsDeepestOf :
      (order : IsOrdered dec) (ds : List (DrawdownEpisode dec))
      (result : Option (DrawdownEpisode dec))
      → deepest none ds ≡ result
      → IsDeepestOf ds result
  unfolding keep_max is_new_max
  deepest-IsDeepestOf order [] none h = refl
  deepest-IsDeepestOf order [] (some e) h = cc
  deepest-IsDeepestOf order (d ∷ ds) (some e) h = deepest-IsFirstDeepest order ds d e h
  deepest-IsDeepestOf order (d ∷ ds) none h = absurd (stays ds d h)
    where
      stays :
          (es : List (DrawdownEpisode dec)) (b : DrawdownEpisode dec)
          → deepest (some b) es ≡ none
          → ⊥
      stays [] b g = cc
      stays (f ∷ es) b g = elim (Bool-cases (lt_dec b.magnitude f.magnitude)) [
        | inl deeper ↦ stays es f (rw deeper at g)
        | inr shallower ↦ stays es b (rw shallower at g)
      ]

  -- Over ordered decimals, where `max_drawdown` does not panic its answer is the first of the
  -- deepest among all falls, one for each point whose highest point so far is positive, each fall
  -- being 1 - point / highest; it is none exactly if there is no such point. The highest so far is
  -- the first point that none of those so far is above.
  pub max_drawdown-IsDeepestOf :
      (order : IsOrdered dec) (points : List (IndexPoint dec))
      (result : Option (DrawdownEpisode dec))
      → max_drawdown dec points ≡ some result
      → (ds : List (DrawdownEpisode dec)) × AreFalls dec [] points ds × IsDeepestOf ds result
  unfolding max_drawdown
  max_drawdown-IsDeepestOf order [] result h = (
    [],
    ended [],
    deepest-IsDeepestOf order [] result (ap (λ o. elim o [ none ↦ none | some r ↦ r ]) h),
  )
  max_drawdown-IsDeepestOf order (point ∷ points) result h =
      let (ds, falls, made) =
        drawdown_loop-AreFalls order (point ∷ points) point [] none (starts dec point) h in
      (ds, falls, deepest-IsDeepestOf order ds result made)
