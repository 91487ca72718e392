-- ===== src/Checkpoint/Continuity/Segments.antt =====
-- Lemmas and theorems on `segments_between` (crates/domain/checkpoint/src/continuity.rs).
use linvesther.Prelude.{
  ◌≡◌, refl, lt→ltb, Bool-cases, inl, inr, ◌∙◌, Bool, true, false, not, ◌&&◌, ◌||◌, List, [], ◌∷◌,
  arith,
}
use linvesther.Prelude.Int.{ℤ, ◌≤ℤ◌, ◌<ℤ◌, ltb_ℤ, leb_ℤ, max_ℤ, ltb_ℤ→lt, ltb_ℤ-false}
use linvesther.Checkpoint.Calendar.{Gap}
use linvesther.Checkpoint.Continuity.{Segment, push_segment, segments_from, segments_between}

-- The instant lies in the half-open interval.
abbrev pub is_between : ℤ → ℤ → ℤ → Bool
is_between start end t = leb_ℤ start t && ltb_ℤ t end

abbrev pub in_gaps : ℤ → List Gap → Bool
in_gaps t [] = false
in_gaps t (gap ∷ gaps) = is_between gap.start_ms gap.end_ms t || in_gaps t gaps

abbrev pub in_segments : ℤ → List Segment → Bool
in_segments t [] = false
in_segments t (s ∷ segments) = is_between s.start_ms s.end_ms t || in_segments t segments

-- The gaps start in order, none before `low`, none after the end of the track.
abbrev pub AreOrdered : ℤ → ℤ → List Gap → Type 0
AreOrdered low end [] = Unit
AreOrdered low end (gap ∷ gaps) =
    (low ≤ℤ gap.start_ms) × (gap.start_ms ≤ℤ end) × AreOrdered gap.start_ms end gaps

-- Each segment is not empty and starts no earlier than the one before it ends.
abbrev pub AreDisjoint : ℤ → List Segment → Type 0
AreDisjoint low [] = Unit
AreDisjoint low (s ∷ segments) =
    (low ≤ℤ s.start_ms) × (s.start_ms <ℤ s.end_ms) × AreDisjoint s.end_ms segments

-- Before the first gap no instant is in a gap.
in_gaps-before :
    (t low end : ℤ) (gaps : List Gap) → AreOrdered low end gaps → t <ℤ low → in_gaps t gaps ≡ false
in_gaps-before t low end [] h lt = refl
in_gaps-before t low end (gap ∷ gaps) h lt =
    ground (arith, in_gaps-before t gap.start_ms end gaps h.2)

push_segment_lem :
    (t cursor end : ℤ) (later : List Segment)
    → in_segments t (push_segment cursor end later)
      ≡ (is_between cursor end t || in_segments t later)
unfolding push_segment
push_segment_lem t cursor end later = ground arith

leb_ℤ-max : (a b t : ℤ) → leb_ℤ (max_ℤ a b) t ≡ (leb_ℤ a t && leb_ℤ b t)
leb_ℤ-max a b t = ground arith

leb_ℤ-not : (a t : ℤ) → leb_ℤ a t ≡ not (ltb_ℤ t a)
leb_ℤ-not a t = ground arith

ltb_ℤ-weaken : (t a b : ℤ) → a ≤ℤ b → ltb_ℤ t a ≡ true → ltb_ℤ t b ≡ true
ltb_ℤ-weaken t a b h e = lt→ltb _ _ (omega (arith, ltb_ℤ→lt t a e))

-- The step of the loop on truth values: the instant is past the cursor, before the gap, before
-- its end, before the end of the track, and in a later gap.
step_table :
    (past before inside on later : Bool)
    → (before ≡ true → on ≡ true)
    → (before ≡ true → later ≡ false)
    → ((past && before) || (((not inside && past) && on) && not later))
      ≡ ((past && on) && not ((not before && inside) || later))
step_table false before inside on later p q = ground arith
step_table true true inside on later p q = ground (arith, p refl, q refl)
step_table true false inside on later p q = ground arith

segments_from_lem :
    (t cursor low end : ℤ) (gaps : List Gap)
    → AreOrdered low end gaps
    → in_segments t (segments_from cursor end gaps)
      ≡ (is_between cursor end t && not (in_gaps t gaps))
unfolding segments_from
segments_from_lem t cursor low end [] h = rw push_segment_lem (ground arith)
segments_from_lem t cursor low end (gap ∷ gaps) h =
    push_segment_lem t cursor gap.start_ms (segments_from (max_ℤ gap.end_ms cursor) end gaps)
    ∙ rw
        (
          segments_from_lem t (max_ℤ gap.end_ms cursor) gap.start_ms end gaps h.2,
          leb_ℤ-max gap.end_ms cursor t,
          leb_ℤ-not gap.end_ms t,
          leb_ℤ-not gap.start_ms t,
        )
        (step_table (leb_ℤ cursor t) (ltb_ℤ t gap.start_ms) (ltb_ℤ t gap.end_ms) (ltb_ℤ t end)
          (in_gaps t gaps) (ltb_ℤ-weaken t gap.start_ms end h.1)
          (λ e. in_gaps-before t gap.start_ms end gaps h.2 (ltb_ℤ→lt t gap.start_ms e)))

-- For gaps that start in order, from anywhere on, and none after the end of the track, an instant lies in
-- one of the segments exactly when it lies in the track and in no gap.
pub segments_between_exact :
    (t start end low : ℤ) (gaps : List Gap)
    → AreOrdered low end gaps
    → in_segments t (segments_between start end gaps)
      ≡ (is_between start end t && not (in_gaps t gaps))
unfolding segments_between
segments_between_exact t start end low gaps h = segments_from_lem t start low end gaps h

AreDisjoint-weaken :
    (a b : ℤ) (segments : List Segment) → a ≤ℤ b → AreDisjoint b segments → AreDisjoint a segments
AreDisjoint-weaken a b [] h d = tt
AreDisjoint-weaken a b (s ∷ segments) h d = (omega arith, d.1, d.2)

-- No gap ends before it starts.
abbrev pub AreForward : List Gap → Type 0
AreForward [] = Unit
AreForward (gap ∷ gaps) = (gap.start_ms ≤ℤ gap.end_ms) × AreForward gaps

push_segment-AreDisjoint :
    (cursor end : ℤ) (later : List Segment)
    → (cursor <ℤ end → AreDisjoint end later)
    → (end ≤ℤ cursor → AreDisjoint cursor later)
    → AreDisjoint cursor (push_segment cursor end later)
unfolding push_segment
push_segment-AreDisjoint cursor end later before after = elim (Bool-cases (ltb_ℤ cursor end)) [
  | inl e ↦ rw e (omega arith, ltb_ℤ→lt cursor end e, before (ltb_ℤ→lt cursor end e))
  | inr e ↦ rw e (after (ltb_ℤ-false cursor end e))
]

segments_from-AreDisjoint :
    (cursor end : ℤ) (gaps : List Gap)
    → AreForward gaps
    → AreDisjoint cursor (segments_from cursor end gaps)
unfolding segments_from
segments_from-AreDisjoint cursor end [] h =
    push_segment-AreDisjoint cursor end [] (λ _. tt) (λ _. tt)
segments_from-AreDisjoint cursor end (gap ∷ gaps) h =
    let next = max_ℤ gap.end_ms cursor in
    let later = segments_from next end gaps in
    let ih : AreDisjoint next later = segments_from-AreDisjoint next end gaps h.1 in
    push_segment-AreDisjoint cursor gap.start_ms later
      (λ lt. AreDisjoint-weaken gap.start_ms next later (ground arith) ih)
      (λ le. AreDisjoint-weaken cursor next later (ground arith) ih)

-- For gaps none of which ends before it starts, in whatever order they stand, the segments are
-- not empty, the first starts no earlier than the track, and each starts no earlier than the one
-- before it ends.
segments_between-AreDisjoint :
    (start end : ℤ) (gaps : List Gap)
    → AreForward gaps
    → AreDisjoint start (segments_between start end gaps)
unfolding segments_between
segments_between-AreDisjoint start end gaps h = segments_from-AreDisjoint start end gaps h
