-- ===== src/Domain/Metrics/Drawdown.antt =====
-- crates/domain/metrics/src/drawdown.rs: the deepest drawdown of an index and its recovery.
pub mod Highest
pub mod Deepest
use linvesther.Prelude.{
  ℕ, List, [], ◌∷◌, Option, none, some, Bool, true, false, ◌&&◌, and_then, ltb, if◌then◌else◌, not,
}
use linvesther.Domain.Decimal.{Decimals, le_dec}

pub data RecoveryStatus : Type 0 where
  recovered : (recovered_at_ms : ℕ) → RecoveryStatus
  still_open : RecoveryStatus

module _ (dec : Decimals) where
  open dec use {Decimal, zero_dec, one_dec, checked_sub, checked_div, lt_dec}

  pub record IndexPoint : Type 0 where
    pub time_ms : ℕ
    pub index : Decimal

  pub record DrawdownEpisode : Type 0 where
    pub peak_time_ms : ℕ
    pub peak_index : Decimal
    pub trough_time_ms : ℕ
    pub trough_index : Decimal
    pub magnitude : Decimal

  -- The running peak, at a point.
  unfoldable pub raise_peak : (running_peak point : IndexPoint) → IndexPoint
  raise_peak running_peak point =
      if lt_dec running_peak.index point.index then point else running_peak

  -- `1 - point / peak`; the operators panic.
  unfoldable pub magnitude_of : (running_peak point : IndexPoint) → Option Decimal
  magnitude_of running_peak point =
      and_then (checked_div point.index running_peak.index) (λ ratio. checked_sub one_dec ratio)

  unfoldable pub episode_of : (running_peak point : IndexPoint) → Decimal → DrawdownEpisode
  episode_of running_peak point magnitude = record {
    peak_time_ms = running_peak.time_ms;
    peak_index = running_peak.index;
    trough_time_ms = point.time_ms;
    trough_index = point.index;
    magnitude = magnitude;
  }

  unfoldable pub is_new_max : Option DrawdownEpisode → Decimal → Bool
  is_new_max none magnitude = true
  is_new_max (some current) magnitude = lt_dec current.magnitude magnitude

  unfoldable pub keep_max : Option DrawdownEpisode → DrawdownEpisode → Option DrawdownEpisode
  unfolding is_new_max
  keep_max best episode = if is_new_max best episode.magnitude then some episode else best

  -- The loop; `none` is a panic.
  unfoldable pub drawdown_loop :
      IndexPoint → Option DrawdownEpisode → List IndexPoint → Option (Option DrawdownEpisode)
  unfolding raise_peak
  drawdown_loop running_peak best [] = some best
  drawdown_loop running_peak best (point ∷ points) =
      let peak = raise_peak running_peak point in
      if le_dec dec peak.index zero_dec
      then drawdown_loop peak best points
      else and_then (magnitude_of peak point)
          (λ magnitude. drawdown_loop peak (keep_max best (episode_of peak point magnitude)) points)

  unfoldable pub max_drawdown : List IndexPoint → Option (Option DrawdownEpisode)
  max_drawdown [] = some none
  max_drawdown (point ∷ points) = drawdown_loop point none (point ∷ points)

  unfoldable pub recovery_time : List IndexPoint → DrawdownEpisode → RecoveryStatus
  recovery_time [] episode = still_open
  recovery_time (point ∷ points) episode =
      if ltb episode.peak_time_ms point.time_ms && le_dec dec episode.peak_index point.index
      then recovered point.time_ms
      else recovery_time points episode
