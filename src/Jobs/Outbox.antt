-- ===== src/Jobs/Outbox.antt =====
-- services/compute/jobs/src/outbox.rs: effects that are applied once. The `BTreeSet` of keys is the
-- list of its elements.
pub mod Replay
use linvesther.Prelude.{List, [], ◌∷◌, ◌++◌, Bool, true, false, ◌||◌, if◌then◌else◌}
use linvesther.Prelude.Bytes.{Bytes, bytes_eq}

pub record Effect : Type 0 where
  pub idempotency_key : Bytes
  pub payload_digest : Bytes

pub record Outbox : Type 0 where
  pub applied_keys : List Bytes
  pub applied_effects : List Effect

unfoldable pub new : Outbox
new = record { applied_keys = []; applied_effects = [] }

unfoldable pub has_key : List Bytes → Bytes → Bool
has_key [] key = false
has_key (k ∷ keys) key = bytes_eq k key || has_key keys key

-- The outbox after the call, and whether the effect was recorded.
unfoldable pub apply : Outbox → Effect → Outbox × Bool
unfolding has_key
apply outbox effect =
    if has_key outbox.applied_keys effect.idempotency_key then (outbox, false) else (
      record {
        applied_keys = effect.idempotency_key ∷ outbox.applied_keys;
        applied_effects = outbox.applied_effects ++ (effect ∷ []);
      },
      true,
    )
