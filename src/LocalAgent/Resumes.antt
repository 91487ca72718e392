-- ===== src/LocalAgent/Resumes.antt =====
-- Lemmas and theorems on `events_to_process` (services/local-agent/src/continuity.rs).
use linvesther.Prelude.{◌≡◌, refl, ap, List, [], ◌∷◌, ◌++◌, length, length-append, min, arith}
use linvesther.LocalAgent.{LedgerEvent, LocalAgentState, initial, drop, events_to_process}

-- The events that are processed over a sequence of restarts: before each, the stream has grown by
-- some events, and is read again from its start.
abbrev pub processed :
    LocalAgentState → List LedgerEvent → List (List LedgerEvent) → List LedgerEvent
processed state stream [] = []
processed state stream (grown ∷ rest) =
    (events_to_process state (stream ++ grown)).0
    ++ processed (events_to_process state (stream ++ grown)).1 (stream ++ grown) rest

abbrev pub joined : List (List LedgerEvent) → List LedgerEvent
joined [] = []
joined (grown ∷ rest) = grown ++ joined rest

drop-append : (xs ys : List LedgerEvent) → drop (length xs) (xs ++ ys) ≡ ys
unfolding drop
drop-append [] ys = refl
drop-append (x ∷ xs) ys = drop-append xs ys

min-length : (xs ys : List LedgerEvent) → min (length xs) (length (xs ++ ys)) ≡ length xs
min-length xs ys = let l = length-append xs ys in ground arith

processed_from :
    (stream : List LedgerEvent) (growth : List (List LedgerEvent))
    → processed (record { processed_through = length stream }) stream growth ≡ joined growth
unfolding events_to_process
processed_from stream [] = refl
processed_from stream (grown ∷ rest) =
    rw (min-length stream grown, drop-append stream grown)
      (ap (λ t. grown ++ t) (processed_from (stream ++ grown) rest))

-- An agent that starts from the beginning and is restarted any number of times, each time over a
-- stream that has grown, processes exactly the events of the whole stream, in order: none is
-- skipped and none is processed twice.
pub processed-eq-joined :
    (growth : List (List LedgerEvent)) → processed initial [] growth ≡ joined growth
processed-eq-joined growth = processed_from [] growth
