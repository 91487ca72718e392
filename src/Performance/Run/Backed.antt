-- ===== src/Performance/Run/Backed.antt =====
-- What the figures of a journal of the performance guest say of the input (zkvm/methods/performance).
use linvesther.Prelude.{
  ℕ, ◌*◌, ◌≤◌, ◌≡◌, ◌≢◌, ◌∙◌, refl, sym, ap, List, [], ◌∷◌, map, some, arith, All, ok-injective,
  some-injective,
}
use linvesther.Prelude.Int.{ℤ, pos, negsuc, ◌+ℤ◌, ◌-ℤ◌, ◌<ℤ◌}
use linvesther.Prelude.Machine.{InRange, i64_half}
use linvesther.Commitments.Hash.{Sha256}
use linvesther.Performance.Origin.{Ecdsa}
use linvesther.Performance.Compute.{first, last, reconcile, twr_index, max_drawdown_bp}
use linvesther.Performance.Compute.Index.{IsNav, scale_ℕ, chained, final, twr_index_exact}
use linvesther.Performance.Compute.Drawdown.{IsMaximum, max_drawdown_bp_exact}
use linvesther.Performance.Compute.Reconcile.{SumsFit, total, reconcile_iff}
use linvesther.Performance.Run.{GuestInput, GuestOutput, journal}
use linvesther.Performance.Run.Sound.{IsSigned, IsChecked, journal-IsChecked}

difference-InRange : (a b : ℕ) → IsNav a → IsNav b → InRange i64_half (pos a -ℤ pos b)
unfolding ◌-ℤ◌ ◌+ℤ◌
difference-InRange a b ha hb = ground arith

-- A series of positive values as numbers.
navs_of :
    (nav : List ℤ)
    → All (λ v. pos 0 <ℤ v) nav
    → All (InRange i64_half) nav
    → (ns : List ℕ) × (nav ≡ map pos ns) × All IsNav ns
navs_of [] p t = ([], refl, tt)
navs_of (pos n ∷ nav) p t =
    let (ns, same, navs) = navs_of nav p.1 t.1 in
    let above = p.0 in
    let below = t.0 in (n ∷ ns, ap (λ l. pos n ∷ l) same, ((ground arith, ground arith), navs))
navs_of (negsuc n ∷ nav) p t = absurd (let above = p.0 in ground arith)

last-map : (x : ℕ) (ys : List ℕ) → last (map pos (x ∷ ys)) ≡ some (pos (final x ys))
unfolding last
last-map x [] = refl
last-map x (y ∷ ys) = last-map y ys

final-IsNav : (x : ℕ) (ys : List ℕ) → All IsNav (x ∷ ys) → IsNav (final x ys)
final-IsNav x [] h = h.0
final-IsNav x (y ∷ ys) h = final-IsNav y ys h.1

last_empty : {c : ℤ} → last [] ≢ some c
unfolding last
last_empty h = cc

module _ (sha : Sha256) (ecdsa : Ecdsa) where
  -- What a journal says of the series and the ledger of the input, in exact numbers.
  pub record IsBacked (input : GuestInput) (output : GuestOutput) : Type 0 where
    pub signed :
        IsSigned sha ecdsa input.envelope input.verifying_key_sec1 input.signature_compact (record {
          envelope_digest = output.envelope_digest;
          signer_fingerprint = output.signer_fingerprint;
        })
    pub starts : output.period_start_ms ≡ input.envelope.period_start_ms
    pub ends : output.period_end_ms ≡ input.envelope.period_end_ms
    pub start : ℕ
    pub later : List ℕ
    pub nav_of : input.nav ≡ map pos (start ∷ later)
    pub positive : All IsNav (start ∷ later)
    pub capital_of : output.capital ≡ pos (final start later)
    pub reconciled : pos start +ℤ total input.ledger_deltas ≡ output.capital
    pub index_of : output.twr_index_scaled ≡ pos (chained scale_ℕ (start ∷ later))
    pub index_small : chained scale_ℕ (start ∷ later) * start ≤ scale_ℕ * final start later
    pub fall : ℕ
    pub drawdown_of : output.mdd_bp ≡ pos fall
    pub deepest : IsMaximum (start ∷ later) fall

  IsChecked-IsBacked :
      (input : GuestInput) (output : GuestOutput) (start : ℕ) (later : List ℕ)
      → SumsFit (pos 0) input.ledger_deltas
      → input.nav ≡ map pos (start ∷ later)
      → All IsNav (start ∷ later)
      → IsChecked sha ecdsa input output
      → IsBacked input output
  unfolding first
  IsChecked-IsBacked input output start later fit same navs checked =
      let (indexed, small) = twr_index_exact start later navs in
      let (fall, measured, deepest) = max_drawdown_bp_exact start later navs in
      let ended = final-IsNav start later navs in
      let range = difference-InRange (final start later) start ended navs.0 in
      let capital : output.capital ≡ pos (final start later) =
        some-injective (sym checked.capital ∙ ap last same ∙ last-map start later) in
      let balanced =
        (reconcile_iff (map pos (start ∷ later)) input.ledger_deltas (pos start)
            (pos (final start later)) refl (last-map start later) range fit).0
          (ap (λ n. reconcile n input.ledger_deltas) (sym same) ∙ checked.reconciled) in
      record {
        signed = checked.signed;
        starts = checked.starts;
        ends = checked.ends;
        start = start;
        later = later;
        nav_of = same;
        positive = navs;
        capital_of = capital;
        reconciled = balanced ∙ sym capital;
        index_of = ok-injective (sym checked.index ∙ ap twr_index same ∙ indexed);
        index_small = small;
        fall = fall;
        drawdown_of = ok-injective (sym checked.drawdown ∙ ap max_drawdown_bp same ∙ measured);
        deepest = deepest;
      }

  -- If the guest commits a journal for a series of `i64` values and a ledger whose sums stay in
  -- `i64`, then the signature of the input is by its key over the digest of its envelope, and the
  -- journal carries that digest, that key's fingerprint and that envelope's period. Its figures are
  -- those of the series and the ledger of the input, in exact numbers, with every value positive:
  -- the capital is the last value, the first value and the ledger's deltas add up to it, the index
  -- is the chain over the series and does not overstate its growth, and the drawdown is the maximum
  -- over all pairs of an earlier and a later value. The signature is over the envelope alone.
  pub journal-IsBacked :
      (input : GuestInput) (output : GuestOutput)
      → All (InRange i64_half) input.nav
      → SumsFit (pos 0) input.ledger_deltas
      → journal sha ecdsa input ≡ some output
      → IsBacked input output
  journal-IsBacked input output typed fit h =
      let checked = journal-IsChecked sha ecdsa input output h in
      let (ns, same, navs) = navs_of input.nav checked.positive typed in over ns checked same navs
    where
      over :
          (ns : List ℕ)
          → IsChecked sha ecdsa input output
          → input.nav ≡ map pos ns
          → All IsNav ns
          → IsBacked input output
      over [] checked same navs = absurd (last_empty (ap last (sym same) ∙ checked.capital))
      over (start ∷ later) checked same navs =
          IsChecked-IsBacked input output start later fit same navs checked
