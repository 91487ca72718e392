-- ===== src/Verifier/Bundle/Binding.antt =====
-- Lemmas and a theorem on `verify_hashes` (crates/verifier/src/bundle.rs).
use linvesther.Prelude.{
  ◌≡◌, ◌⊎◌, inl, inr, refl, sym, ◌∙◌, List, [], ◌∷◌, Option, none, some, Bool-cases, All,
}
use linvesther.Prelude.Bytes.{Bytes, bytes_eq, bytes_eq→eq, dec_bytes}
use linvesther.Commitments.Hash.{Sha256, Collision}
use linvesther.Verifier.Bundle.{
  ManifestEntry, Bundle, HashMismatch, get, sha256_hex, push, check_file, mismatches_of,
  verify_hashes,
}

push-nil :
    (o : Option HashMismatch) (later : List HashMismatch)
    → push o later ≡ []
    → (o ≡ none) × (later ≡ [])
push-nil none later h = (refl, h)
push-nil (some m) later h = cc

module _ (sha : Sha256) (hex_encode : Bytes → Bytes) where
  -- The file that the entry names is there, and its hash is the entry's.
  abbrev pub IsIntact : List (Bytes × Bytes) → Bytes × ManifestEntry → Type 0
  IsIntact files (path, entry) =
      (content : Bytes) × (get files path ≡ some content)
      × (sha256_hex sha hex_encode content ≡ entry.hash)

  check_file-none :
      (path : Bytes) (entry : ManifestEntry) (found : Option Bytes)
      → check_file sha hex_encode path entry found ≡ none
      → (content : Bytes) × (found ≡ some content)
        × (sha256_hex sha hex_encode content ≡ entry.hash)
  unfolding check_file
  check_file-none path entry none h = cc
  check_file-none path entry (some content) h =
      elim (Bool-cases (bytes_eq (sha256_hex sha hex_encode content) entry.hash)) [
        | inl same ↦
            (content, refl, bytes_eq→eq (sha256_hex sha hex_encode content) entry.hash same)
        | inr other ↦ let e = rw other at h in cc
      ]

  mismatches_of-nil :
      (files : List (Bytes × Bytes)) (entries : List (Bytes × ManifestEntry))
      → mismatches_of sha hex_encode files entries ≡ []
      → All (IsIntact files) entries
  unfolding mismatches_of
  mismatches_of-nil files [] h = tt
  mismatches_of-nil files ((path, entry) ∷ entries) h =
      let (intact, rest) = push-nil (check_file sha hex_encode path entry (get files path)) _ h in
      (check_file-none path entry (get files path) intact, mismatches_of-nil files entries rest)

  pub verify_hashes-nil :
      (bundle : Bundle)
      → verify_hashes sha hex_encode bundle ≡ []
      → All (IsIntact bundle.files) bundle.manifest.files
  unfolding verify_hashes
  verify_hashes-nil bundle h = mismatches_of-nil bundle.files bundle.manifest.files h

  -- The files that the manifest names have the same content in both.
  abbrev pub AgreeOn : List (Bytes × Bytes) → List (Bytes × Bytes) → Bytes × ManifestEntry → Type 0
  AgreeOn files files' (path, entry) =
      (content : Bytes) × (get files path ≡ some content) × (get files' path ≡ some content)

  agree :
      (files files' : List (Bytes × Bytes)) (entries : List (Bytes × ManifestEntry))
      → ((a b : Bytes) → hex_encode a ≡ hex_encode b → a ≡ b)
      → All (IsIntact files) entries
      → All (IsIntact files') entries
      → All (AgreeOn files files') entries ⊎ Collision sha
  unfolding sha256_hex
  agree files files' [] inj p q = inl tt
  agree files files' ((path, entry) ∷ entries) inj ((a, here, hashed), p) ((b, here', hashed'), q) =
      elim (dec_bytes a b) [
        | no differ ↦ inr (record {
          left = a;
          right = b;
          differ = differ;
          collide = inj (sha.digest a) (sha.digest b) (hashed ∙ sym hashed');
        })
        | yes same ↦ elim (agree files files' entries inj p q) [
          | inl rest ↦ inl ((b, rw same at here, here'), rest)
          | inr found ↦ inr found
        ]
      ]

  -- Two bundles with one manifest, neither with a mismatch, have the same content in every file
  -- that the manifest names, and none of these is missing; or two byte strings with one SHA-256
  -- digest have been found. (Hexadecimal encodings of different digests differ.)
  verify_hashes_binding :
      (bundle altered : Bundle)
      → ((a b : Bytes) → hex_encode a ≡ hex_encode b → a ≡ b)
      → bundle.manifest ≡ altered.manifest
      → verify_hashes sha hex_encode bundle ≡ []
      → verify_hashes sha hex_encode altered ≡ []
      → All (AgreeOn bundle.files altered.files) bundle.manifest.files ⊎ Collision sha
  verify_hashes_binding bundle altered inj same p q =
      agree bundle.files altered.files bundle.manifest.files inj (verify_hashes-nil bundle p)
        (rw (← same) at (verify_hashes-nil altered q))
