-- ===== src/Commitments/Framing/Injective.antt =====
-- Lemmas and theorems on `frame_hash` (crates/commitments/src/framing.rs).
use linvesther.Prelude.{
  ℕ, ◌^◌, ◌<◌, ◌≡◌, ◌⊎◌, inl, inr, ◌∙◌, refl, sym, ap, List, [], ◌∷◌, ◌++◌, append_assoc,
  append-nil, ok, >>=-eq-ok, length, length-append, arith, lt→ltb,
}
use linvesther.Prelude.Bytes.{
  Bytes, to_be_bytes, length-to_be_bytes, to_be_bytes-injective, append_inj, dec_bytes,
}
use linvesther.Commitments.Hash.{Sha256, Collision}
use linvesther.Commitments.Framing.{
  encode_len_u32, encode_len_u64, update_fields, frame_bytes, frame_hash,
}

-- The length prefixes that the two encoders accept.
encode_len_u64_lem :
    (n : ℕ) (b : Bytes) → encode_len_u64 n ≡ ok b → (b ≡ to_be_bytes 8 n) × (n < 256 ^ 8)
unfolding encode_len_u64
encode_len_u64_lem n b e = ground arith

encode_len_u32_lem :
    (n : ℕ) (b : Bytes) → encode_len_u32 n ≡ ok b → (b ≡ to_be_bytes 4 n) × (n < 256 ^ 4)
unfolding encode_len_u32
encode_len_u32_lem n b e = ground arith

-- A length prefix and the bytes that it measures, before anything else.
pub block_injective :
    (width : ℕ) (x y r s : Bytes)
    → length x < 256 ^ width
    → length y < 256 ^ width
    → to_be_bytes width (length x) ++ (x ++ r) ≡ to_be_bytes width (length y) ++ (y ++ s)
    → (x ≡ y) × (r ≡ s)
block_injective width x y r s hx hy e =
    let heads =
      append_inj (to_be_bytes width (length x)) (to_be_bytes width (length y)) (x ++ r) (y ++ s) e
        (length-to_be_bytes width (length x) ∙ sym (length-to_be_bytes width (length y))) in
    let same = to_be_bytes-injective width (length x) (length y) hx hy heads.0 in
    append_inj x y r s heads.1 same

-- The bytes of the fields, without the accumulator.
abbrev fields_bytes : List Bytes → Bytes
fields_bytes [] = []
fields_bytes (x ∷ xs) = to_be_bytes 8 (length x) ++ (x ++ fields_bytes xs)

abbrev pub AreShort : List Bytes → Type 0
AreShort [] = Unit
AreShort (x ∷ xs) = (length x < 256 ^ 8) × AreShort xs

update_fields_lem :
    (acc : Bytes) (fields : List Bytes) (b : Bytes)
    → update_fields acc fields ≡ ok b
    → (b ≡ acc ++ fields_bytes fields) × AreShort fields
unfolding update_fields
update_fields_lem acc [] b e = (let s : acc ≡ b = cc in sym s ∙ sym (append-nil acc), tt)
update_fields_lem acc (x ∷ xs) b e =
    let (len, encoded, next) = >>=-eq-ok (encode_len_u64 (length x)) _ e in
    let (same, short) = encode_len_u64_lem (length x) len encoded in
    let (total, rest) = update_fields_lem (acc ++ (len ++ x)) xs b next in
    (
      rw same at (
          total
          ∙ append_assoc acc (len ++ x) (fields_bytes xs)
          ∙ ap (λ t. acc ++ t) (append_assoc len x (fields_bytes xs))),
      (short, rest),
    )

fields_bytes-injective :
    (xs ys : List Bytes) → AreShort xs → AreShort ys → fields_bytes xs ≡ fields_bytes ys → xs ≡ ys
fields_bytes-injective [] [] hx hy e = refl
fields_bytes-injective [] (y ∷ ys) hx hy e =
    let n = ap length e ∙ length-append (to_be_bytes 8 (length y)) (y ++ fields_bytes ys) in
    absurd (omega (arith, n, length-to_be_bytes 8 (length y)))
fields_bytes-injective (x ∷ xs) [] hx hy e =
    let n = sym (ap length e) ∙ length-append (to_be_bytes 8 (length x)) (x ++ fields_bytes xs) in
    absurd (omega (arith, n, length-to_be_bytes 8 (length x)))
fields_bytes-injective (x ∷ xs) (y ∷ ys) hx hy e =
    let (head, tail) = block_injective 8 x y (fields_bytes xs) (fields_bytes ys) hx.0 hy.0 e in
    cc (fields_bytes-injective xs ys hx.1 hy.1 tail)

frame_bytes_lem :
    (tag : Bytes) (fields : List Bytes) (b : Bytes)
    → frame_bytes tag fields ≡ ok b
    → (b ≡ to_be_bytes 4 (length tag) ++ (tag ++ fields_bytes fields))
      × (length tag < 256 ^ 4)
      × AreShort fields
unfolding frame_bytes
frame_bytes_lem tag fields b e =
    let (len, encoded, next) = >>=-eq-ok (encode_len_u32 (length tag)) _ e in
    let (same, short) = encode_len_u32_lem (length tag) len encoded in
    let (total, rest) = update_fields_lem (len ++ tag) fields b next in
    (rw same at (total ∙ append_assoc len tag (fields_bytes fields)), short, rest)

-- If two calls frame their input without an error and to the same bytes, then their tags are
-- equal and so are their lists of fields: no tag and fields can be split in another way.
frame_bytes-injective :
    (t u : Bytes) (xs ys : List Bytes) (b : Bytes)
    → frame_bytes t xs ≡ ok b
    → frame_bytes u ys ≡ ok b
    → (t ≡ u) × (xs ≡ ys)
frame_bytes-injective t u xs ys b p q =
    let (bp, tp, sp) = frame_bytes_lem t xs b p in
    let (bq, tq, sq) = frame_bytes_lem u ys b q in
    let (tags, fields) =
      block_injective 4 t u (fields_bytes xs) (fields_bytes ys) tp tq (sym bp ∙ bq) in
    (tags, fields_bytes-injective xs ys sp sq fields)

-- Two successful calls of `frame_hash` with one result have the same tag and the same fields, or
-- two different byte strings with one SHA-256 digest have been found.
pub frame_hash_binding :
    (sha : Sha256) (t u : Bytes) (xs ys : List Bytes) (h : Bytes)
    → frame_hash sha t xs ≡ ok h
    → frame_hash sha u ys ≡ ok h
    → (t ≡ u) × (xs ≡ ys) ⊎ Collision sha
unfolding frame_hash
frame_hash_binding sha t u xs ys h p q =
    let (a, framed_a, digest_a) = >>=-eq-ok (frame_bytes t xs) _ p in
    let (b, framed_b, digest_b) = >>=-eq-ok (frame_bytes u ys) _ q in
    elim (dec_bytes a b) [
      | yes same ↦ inl (frame_bytes-injective t u xs ys b (rw same at framed_a) framed_b)
      | no differ ↦ inr (record {
        left = a;
        right = b;
        differ = differ;
        collide = let d : sha.digest a ≡ sha.digest b = cc in d;
      })
    ]

update_fields_ok :
    (acc : Bytes) (fields : List Bytes)
    → AreShort fields
    → update_fields acc fields ≡ ok (acc ++ fields_bytes fields)
unfolding update_fields encode_len_u64
update_fields_ok acc [] h = ap ok (sym (append-nil acc))
update_fields_ok acc (x ∷ xs) h = rw (lt→ltb (length x) (2 ^ 64) h.0) (
    update_fields_ok (acc ++ (to_be_bytes 8 (length x) ++ x)) xs h.1
    ∙ ap ok (
        append_assoc acc (to_be_bytes 8 (length x) ++ x) (fields_bytes xs)
        ∙ ap (λ t. acc ++ t) (append_assoc (to_be_bytes 8 (length x)) x (fields_bytes xs))))

-- A tag below 2^32 bytes and fields below 2^64 bytes are always framed: the result is the digest
-- of some bytes.
pub frame_hash_ok :
    (sha : Sha256) (tag : Bytes) (fields : List Bytes)
    → length tag < 256 ^ 4
    → AreShort fields
    → (b : Bytes) × (frame_hash sha tag fields ≡ ok (sha.digest b))
unfolding frame_hash frame_bytes encode_len_u32
frame_hash_ok sha tag fields short h = (
  (to_be_bytes 4 (length tag) ++ tag) ++ fields_bytes fields,
  rw
      (
        lt→ltb (length tag) (2 ^ 32) short,
        update_fields_ok (to_be_bytes 4 (length tag) ++ tag) fields h,
      )
      refl,
)
