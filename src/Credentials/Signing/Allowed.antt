-- ===== src/Credentials/Signing/Allowed.antt =====
-- Lemmas and theorems on `sign_request` (services/collector/credentials/src/signing.rs).
use linvesther.Prelude.{
  not-eq-false, ◌≡◌, ◌≢◌, ◌↔◌, ◌⊎◌, inl, inr, refl, List, [], ◌∷◌, true, false, not, ok,
  raise_if-eq-ok, ok-injective, is_empty, Bool-cases,
}
use linvesther.Prelude.Bytes.{Bytes, bytes_eq, bytes_eq→eq, bytes_eq_refl}
use linvesther.Credentials.Signing.{allowed_paths, contains, sign_request}

abbrev pub IsListed : Bytes → List Bytes → Type 0
IsListed path [] = ⊥
IsListed path (allowed ∷ paths) = (allowed ≡ path) ⊎ IsListed path paths

contains-IsListed :
    (paths : List Bytes) (path : Bytes) → contains paths path ≡ true → IsListed path paths
unfolding contains
contains-IsListed [] path h = cc
contains-IsListed (allowed ∷ paths) path h = elim (Bool-cases (bytes_eq allowed path)) [
  | inl same ↦ inl (bytes_eq→eq allowed path same)
  | inr other ↦ inr (contains-IsListed paths path (rw other at h))
]

IsListed-contains :
    (paths : List Bytes) (path : Bytes) → IsListed path paths → contains paths path ≡ true
unfolding contains
IsListed-contains [] path h = absurd h
IsListed-contains (allowed ∷ paths) path (inl same) = rw (same, bytes_eq_refl path) refl
IsListed-contains (allowed ∷ paths) path (inr there) = elim (Bool-cases (bytes_eq allowed path)) [
  | inl same ↦ rw same refl
  | inr other ↦ rw other (IsListed-contains paths path there)
]

nonempty_of : (s : Bytes) → is_empty s ≡ false → s ≢ []
nonempty_of [] h e = cc
nonempty_of (b ∷ s) h e = cc

of_nonempty : (s : Bytes) → s ≢ [] → is_empty s ≡ false
of_nonempty [] h = absurd (h refl)
of_nonempty (b ∷ s) h = refl

-- A request is signed exactly if its path is on the list of allowed paths and the secret is not
-- empty, and the signature is the hexadecimal HMAC of the query under the secret.
sign_request_iff :
    (hmac : (key message : Bytes) → Bytes) (hex_encode : Bytes → Bytes)
    (secret path query signature : Bytes)
    → (sign_request hmac hex_encode secret path query ≡ ok signature)
      ↔ (IsListed path allowed_paths × (secret ≢ []) × (hex_encode (hmac secret query) ≡ signature))
unfolding sign_request
sign_request_iff hmac hex_encode secret path query signature = (forth, back)
  where
    forth :
        sign_request hmac hex_encode secret path query ≡ ok signature
        → IsListed path allowed_paths × (secret ≢ []) × (hex_encode (hmac secret query) ≡ signature)
    forth h =
        let (listed, h1) = raise_if-eq-ok (not (contains allowed_paths path)) _ _ h in
        let (filled, h2) = raise_if-eq-ok (is_empty secret) _ _ h1 in
        (
          contains-IsListed allowed_paths path (not-eq-false _ listed),
          nonempty_of secret filled,
          ok-injective h2,
        )

    back :
        IsListed path allowed_paths × (secret ≢ []) × (hex_encode (hmac secret query) ≡ signature)
        → sign_request hmac hex_encode secret path query ≡ ok signature
    back (listed, filled, same) =
        rw (IsListed-contains allowed_paths path listed, of_nonempty secret filled, same) refl
