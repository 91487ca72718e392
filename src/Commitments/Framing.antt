-- ===== src/Commitments/Framing.antt =====
-- crates/commitments/src/framing.rs: `H(tag, fields...)`. A tag is its UTF-8 bytes, and the hasher
-- is the bytes that it was updated with so far.
pub mod Injective
use linvesther.Prelude.{
  ℕ, ◌^◌, List, [], ◌∷◌, ◌++◌, Result, ok, err, ◌>>=◌, length, ltb, if◌then◌else◌,
}
use linvesther.Prelude.Bytes.{Bytes, to_be_bytes}
use linvesther.Commitments.Hash.{Sha256}

pub data FramingError : Type 0 where
  tag_too_long field_too_long : ℕ → FramingError

unfoldable pub encode_len_u32 : ℕ → Result FramingError Bytes
encode_len_u32 len = if ltb len (2 ^ 32) then ok (to_be_bytes 4 len) else err (tag_too_long len)

unfoldable pub encode_len_u64 : ℕ → Result FramingError Bytes
encode_len_u64 len = if ltb len (2 ^ 64) then ok (to_be_bytes 8 len) else err (field_too_long len)

-- The loop `for field in fields`.
unfoldable pub update_fields : Bytes → List Bytes → Result FramingError Bytes
unfolding encode_len_u64
update_fields hasher [] = ok hasher
update_fields hasher (field ∷ fields) = do
  len ← encode_len_u64 (length field)
  update_fields (hasher ++ (len ++ field)) fields

-- What the hasher has seen before it is finalized.
unfoldable pub frame_bytes : Bytes → List Bytes → Result FramingError Bytes
unfolding encode_len_u32 update_fields
frame_bytes tag fields = do len ← encode_len_u32 (length tag); update_fields (len ++ tag) fields

unfoldable pub frame_hash : Sha256 → Bytes → List Bytes → Result FramingError Bytes
unfolding frame_bytes
frame_hash sha tag fields = do framed ← frame_bytes tag fields; ok (sha.digest framed)
