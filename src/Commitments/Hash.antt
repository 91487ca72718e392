-- ===== src/Commitments/Hash.antt =====
-- SHA-256, which the crate `sha2` implements. That it has no collisions is false of any function
-- into 32 bytes, so no theorem assumes it: where two inputs should be equal, a theorem says that
-- they are, or that two byte strings with one hash are at hand.
use linvesther.Prelude.{◌≡◌, ◌≢◌}
use linvesther.Prelude.{length, replicate, length-replicate}
use linvesther.Prelude.Bytes.{Bytes}

pub record Sha256 : Type 0 where
  pub digest : Bytes → Bytes
  pub length-digest : (b : Bytes) → length (digest b) ≡ 32

-- Two different byte strings with one digest.
pub record Collision (sha : Sha256) : Type 0 where
  pub left : Bytes
  pub right : Bytes
  pub differ : left ≢ right
  pub collide : sha.digest left ≡ sha.digest right

-- A hash function that shows that the length can be as documented: 32 copies of the length.
abbrev pub length_hash : Sha256
length_hash = record {
  digest = λ b. replicate 32 (length b);
  length-digest = λ b. length-replicate 32 (length b);
}
