-- ===== src/Verifier/Trust/Lookup.antt =====
-- Lemmas and theorems on the trust list (crates/verifier/src/trust.rs).
use linvesther.Prelude.{
  ℕ, zero, suc, ◌≡◌, refl, inl, inr, List, [], ◌∷◌, Option, none, some, Bool, true, false, ◌||◌,
  not, ◌==◌, Result, ok, >>=-eq-ok, ok_or, raise_if-eq-ok, map_err, length, get_elem?, Bool-cases,
  arith, All,
}
use linvesther.Prelude.Int.{ℤ, ◌≤ℤ◌, ltb_ℤ, ltb_ℤ-false}
use linvesther.Prelude.Bytes.{Bytes, bytes_eq, bytes_eq_refl}
use linvesther.Verifier.Trust.{
  TrustListError, json, unsupported_version, bad_fingerprint, empty_validity, duplicate,
  TrustedCollector, TrustList, WireCollector, WireList, contains, is_empty_window, collect,
  from_json, find_fingerprint, lookup, trusted_collector, is_some_and, assess_found, assess_origin,
}

-- No collector has a fingerprint of the list.
abbrev pub AreNew : List Bytes → List TrustedCollector → Type 0
AreNew seen collectors =
    All (λ (c : TrustedCollector). contains seen c.fingerprint ≡ false) collectors

-- A fingerprint is 32 bytes, stands once, and its window, if it has both ends, is not empty.
abbrev pub AreDistinct : List TrustedCollector → Type 0
AreDistinct [] = Unit
AreDistinct (c ∷ collectors) =
    (length c.fingerprint ≡ 32)
    × (is_empty_window c.valid_from_ms c.valid_until_ms ≡ false)
    × AreNew (c.fingerprint ∷ []) collectors
    × AreDistinct collectors

or-false : (a b : Bool) → (a || b) ≡ false → (a ≡ false) × (b ≡ false)
or-false true b h = cc
or-false false b h = (refl, h)

AreNew-split :
    (a : Bytes) (seen : List Bytes) (collectors : List TrustedCollector)
    → AreNew (a ∷ seen) collectors
    → AreNew (a ∷ []) collectors × AreNew seen collectors
unfolding contains
AreNew-split a seen [] h = (tt, tt)
AreNew-split a seen (c ∷ collectors) h =
    let (x, y) = or-false (bytes_eq a c.fingerprint) (contains seen c.fingerprint) h.0 in
    let (p, q) = AreNew-split a seen collectors h.1 in ((rw x refl, p), (y, q))

not-false : (b : Bool) → not b ≡ false → b ≡ true
not-false true h = refl
not-false false h = cc

length-32 : (b : Bytes) → not (length b == 32) ≡ false → length b ≡ 32
length-32 b h = let e = not-false (length b == 32) h in ground arith

module _ (hex_decode : Bytes → Option Bytes) where
  collect_lem :
      (seen : List Bytes) (entries : List WireCollector) (collectors : List TrustedCollector)
      → collect hex_decode seen entries ≡ ok collectors
      → AreNew seen collectors × AreDistinct collectors
  unfolding collect
  collect_lem seen [] collectors h = let e : [] ≡ collectors = cc in rw (← e) (tt, tt)
  collect_lem seen (entry ∷ entries) collectors h =
      let (f, decoded, f₁) =
        >>=-eq-ok (ok_or (hex_decode entry.wire_fingerprint) (bad_fingerprint entry.wire_name)) _
          h in
      let (sized, f₂) =
        raise_if-eq-ok (not (length f == 32)) (bad_fingerprint entry.wire_name) _ f₁ in
      let (window, f₃) =
        raise_if-eq-ok (is_empty_window entry.wire_valid_from_ms entry.wire_valid_until_ms)
          (empty_validity entry.wire_name) _ f₂ in
      let (fresh, f₄) = raise_if-eq-ok (contains seen f) (duplicate entry.wire_fingerprint) _ f₃ in
      let (rest, collected, f₅) = >>=-eq-ok (collect hex_decode (f ∷ seen) entries) _ f₄ in
      let (new, distinct) = collect_lem (f ∷ seen) entries rest collected in
      let (apart, later) = AreNew-split f seen rest new in
      let built : record {
        name = entry.wire_name;
        fingerprint = f;
        valid_from_ms = entry.wire_valid_from_ms;
        valid_until_ms = entry.wire_valid_until_ms;
        revoked = entry.wire_revoked;
      }
            ∷ rest
          ≡ collectors =
        cc in
      rw (← built) ((fresh, later), (length-32 f sized, window, apart, distinct))

  pub from_json-AreDistinct :
      (parse : Bytes → Result Bytes WireList) (text : Bytes) (trust_list : TrustList)
      → from_json hex_decode parse text ≡ ok trust_list
      → AreDistinct trust_list.collectors
  unfolding from_json
  from_json-AreDistinct parse text trust_list h =
      let (wire, parsed, f₁) = >>=-eq-ok {E = TrustListError} (map_err json (parse text)) _ h in
      let (version, f₂) =
        raise_if-eq-ok (not (wire.wire_version == 1)) (unsupported_version wire.wire_version) _
          f₁ in
      let (collectors, collected, f₃) =
        >>=-eq-ok (collect hex_decode [] wire.wire_collectors) _ f₂ in
      let built : record { collectors = collectors } ≡ trust_list = cc in
      rw (← built) (collect_lem [] wire.wire_collectors collectors collected).1

other_fingerprint :
    (a : Bytes) (collectors : List TrustedCollector) (k : ℕ) (c : TrustedCollector)
    → AreNew (a ∷ []) collectors
    → get_elem? collectors k ≡ some c
    → bytes_eq a c.fingerprint ≡ false
unfolding contains
other_fingerprint a [] k c h e = cc
other_fingerprint a (d ∷ collectors) zero c h e =
    let same : d ≡ c = cc in rw same at (or-false (bytes_eq a d.fingerprint) false h.0).0
other_fingerprint a (d ∷ collectors) (suc k) c h e = other_fingerprint a collectors k c h.1 e

find_fingerprint_lem :
    (collectors : List TrustedCollector) (k : ℕ) (c : TrustedCollector)
    → AreDistinct collectors
    → get_elem? collectors k ≡ some c
    → find_fingerprint collectors c.fingerprint ≡ some c
unfolding find_fingerprint
find_fingerprint_lem [] k c h e = cc
find_fingerprint_lem (d ∷ collectors) zero c h e =
    let same : d ≡ c = cc in rw (same, bytes_eq_refl c.fingerprint) refl
find_fingerprint_lem (d ∷ collectors) (suc k) c h e =
    rw (other_fingerprint d.fingerprint collectors k c h.2 e)
      (find_fingerprint_lem collectors k c h.3 e)

-- In a trust list that `from_json` accepted, the lookup of the fingerprint of any of its collectors
-- finds that very collector: no entry hides another, so that a revoked entry cannot be shadowed.
from_json-lookup :
    (hex_decode : Bytes → Option Bytes) (parse : Bytes → Result Bytes WireList) (text : Bytes)
    (trust_list : TrustList) (k : ℕ) (c : TrustedCollector)
    → from_json hex_decode parse text ≡ ok trust_list
    → get_elem? trust_list.collectors k ≡ some c
    → lookup trust_list c.fingerprint ≡ some c
unfolding lookup
from_json-lookup hex_decode parse text trust_list k c h e =
    find_fingerprint_lem trust_list.collectors k c
      (from_json-AreDistinct hex_decode parse text trust_list h) e

-- The end of the period lies in the collector's window, as far as this has ends.
abbrev pub Within : ℤ → TrustedCollector → Type 0
Within t c =
    ((from : ℤ) → c.valid_from_ms ≡ some from → from ≤ℤ t)
    × ((until : ℤ) → c.valid_until_ms ≡ some until → t ≤ℤ until)

is_some_and-false :
    (o : Option ℤ) (test : ℤ → Bool) (a : ℤ)
    → is_some_and o test ≡ false
    → o ≡ some a
    → test a ≡ false
is_some_and-false none test a h e = cc
is_some_and-false (some b) test a h e = let same : b ≡ a = cc in rw (← same) h

-- What a collector that was found must be.
abbrev pub Vouches : Bytes → ℤ → Bytes → Bytes → TrustedCollector → Type 0
Vouches fingerprint t name signer c =
    (c.name ≡ name) × (signer ≡ fingerprint) × (c.revoked ≡ false) × Within t c

assess_found-trusted :
    (fingerprint : Bytes) (t : ℤ) (found : Option TrustedCollector) (name signer : Bytes)
    → assess_found fingerprint t found ≡ trusted_collector name signer
    → (c : TrustedCollector) × (found ≡ some c) × Vouches fingerprint t name signer c
unfolding assess_found
assess_found-trusted fingerprint t none name signer h = cc
assess_found-trusted fingerprint t (some c) name signer h =
    let early = is_some_and c.valid_from_ms (λ from. ltb_ℤ t from) in
    let late = is_some_and c.valid_until_ms (λ until. ltb_ℤ until t) in
    elim (Bool-cases c.revoked) [
      | inl revoked ↦ let f = rw revoked at h in cc
      | inr kept ↦ elim (Bool-cases (early || late)) [
        | inl out ↦ let f = rw (kept, out) at h in cc
        | inr inside ↦
            let f = rw (kept, inside) at h in
            let (not_early, not_late) = or-false early late inside in
            (
              c,
              refl,
              (
                cc,
                cc,
                kept,
                (
                  λ from is_from.
                      ltb_ℤ-false t from
                        (is_some_and-false c.valid_from_ms _ from not_early is_from),
                  λ until is_until.
                      ltb_ℤ-false until t
                        (is_some_and-false c.valid_until_ms _ until not_late is_until),
                ),
              ),
            )
      ]
    ]

-- `assess_origin` calls a signer trusted only if the list holds a collector with its fingerprint,
-- of the name given, that is not revoked and whose window holds the end of the period.
pub assess_origin-trusted :
    (fingerprint : Bytes) (period_end_ms : ℤ) (trust_list : TrustList) (name signer : Bytes)
    → assess_origin fingerprint period_end_ms trust_list ≡ trusted_collector name signer
    → (c : TrustedCollector) × (lookup trust_list fingerprint ≡ some c)
      × Vouches fingerprint period_end_ms name signer c
unfolding assess_origin
assess_origin-trusted fingerprint t trust_list name signer h =
    assess_found-trusted fingerprint t (lookup trust_list fingerprint) name signer h
