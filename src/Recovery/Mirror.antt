-- ===== src/Recovery/Mirror.antt =====
-- infra/recovery/src/mirror.rs: an object against its mirror copy. `hex_encode` is `hex::encode`.
use linvesther.Prelude.{◌≡◌, ◌⊎◌, inl, inr, refl, not, Bool-cases, Result, ok, err, if◌then◌else◌}
use linvesther.Prelude.Bytes.{Bytes, bytes_eq, bytes_eq→eq, bytes_eq_refl, dec_bytes}
use linvesther.Commitments.Hash.{Sha256, Collision}

pub record MirrorMismatch : Type 0 where
  pub primary_hash : Bytes
  pub mirror_hash : Bytes

module _ (sha : Sha256) (hex_encode : Bytes → Bytes) where
  unfoldable pub sha256_hex : Bytes → Bytes
  sha256_hex content = hex_encode (sha.digest content)

  unfoldable pub verify_object_mirrored : Bytes → Bytes → Result MirrorMismatch (Unit {0})
  unfolding sha256_hex
  verify_object_mirrored primary mirror =
      let primary_hash = sha256_hex primary in
      let mirror_hash = sha256_hex mirror in
      if not (bytes_eq primary_hash mirror_hash)
      then err (record { primary_hash = primary_hash; mirror_hash = mirror_hash })
      else ok tt

  -- If the mirror is accepted, it has the same content as the primary object, or two byte strings
  -- with one SHA-256 digest have been found; and an identical copy is always accepted.
  -- (Hexadecimal encodings of different digests differ.)
  verify_object_mirrored_binding :
      (primary mirror : Bytes)
      → ((a b : Bytes) → hex_encode a ≡ hex_encode b → a ≡ b)
      → verify_object_mirrored primary mirror ≡ ok tt
      → ((primary ≡ mirror) ⊎ Collision sha) × (verify_object_mirrored primary primary ≡ ok tt)
  unfolding verify_object_mirrored
  verify_object_mirrored_binding primary mirror inj h =
      let a = sha256_hex primary in
      let b = sha256_hex mirror in
      let same : verify_object_mirrored primary primary ≡ ok tt = rw (bytes_eq_refl a) refl in
      elim (Bool-cases (bytes_eq a b)) [
        | inr other ↦ let e = rw other at h in cc
        | inl equal ↦ elim (dec_bytes primary mirror) [
          | yes identical ↦ (inl identical, same)
          | no differ ↦ (
            inr (record {
              left = primary;
              right = mirror;
              differ = differ;
              collide = inj (sha.digest primary) (sha.digest mirror) (bytes_eq→eq a b equal);
            }),
            same,
          )
        ]
      ]
