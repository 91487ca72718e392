-- ===== src/Verifier/Bundle.antt =====
-- crates/verifier/src/bundle.rs: the files of a bundle against its manifest. A `BTreeMap` is the
-- list of its entries in the order of their keys.
pub mod Binding
use linvesther.Prelude.{ℕ, List, [], ◌∷◌, Option, none, some, Bool, true, false, not, if◌then◌else◌}
use linvesther.Prelude.Bytes.{Bytes, bytes_eq, codes}
use linvesther.Commitments.Hash.{Sha256}

pub record ManifestEntry : Type 0 where
  pub hash : Bytes
  pub size_bytes : ℕ

pub record Manifest : Type 0 where
  pub version : Bytes
  pub files : List (Bytes × ManifestEntry)

pub record Bundle : Type 0 where
  pub manifest : Manifest
  pub files : List (Bytes × Bytes)

pub record HashMismatch : Type 0 where
  pub path : Bytes
  pub expected : Bytes
  pub actual : Bytes

-- `BTreeMap::get`
unfoldable pub get : {A : Type 0} → List (Bytes × A) → Bytes → Option A
get [] key = none
get ((k, a) ∷ entries) key = if bytes_eq k key then some a else get entries key

unfoldable pub file : Bundle → Bytes → Option Bytes
unfolding get
file bundle path = get bundle.files path

-- `mismatches.push`, before what is pushed later.
abbrev pub push : Option HashMismatch → List HashMismatch → List HashMismatch
push none later = later
push (some m) later = m ∷ later

-- `hex_encode` is `hex::encode`.
module _ (sha : Sha256) (hex_encode : Bytes → Bytes) where
  unfoldable pub sha256_hex : Bytes → Bytes
  sha256_hex content = hex_encode (sha.digest content)

  -- The `match` on one entry of the manifest: what it adds to `mismatches`.
  unfoldable pub check_file : Bytes → ManifestEntry → Option Bytes → Option HashMismatch
  check_file path entry none =
      some (record { path = path; expected = entry.hash; actual = codes "<missing file>" })
  check_file path entry (some content) =
      let actual = sha256_hex content in
      if not (bytes_eq actual entry.hash)
      then some (record { path = path; expected = entry.hash; actual = actual })
      else none

  -- The loop over the manifest.
  unfoldable pub mismatches_of :
      List (Bytes × Bytes) → List (Bytes × ManifestEntry) → List HashMismatch
  unfolding check_file
  mismatches_of files [] = []
  mismatches_of files ((path, entry) ∷ entries) =
      push (check_file path entry (get files path)) (mismatches_of files entries)

  unfoldable pub verify_hashes : Bundle → List HashMismatch
  unfolding mismatches_of
  verify_hashes bundle = mismatches_of bundle.files bundle.manifest.files
