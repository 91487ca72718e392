-- ===== src/Verifier/Trust.antt =====
-- crates/verifier/src/trust.rs: the trust list, and what the signer of a proof is worth against it.
-- `serde_json` is the parameter `parse`, `hex::decode` the parameter `hex_decode`.
pub mod Lookup
use linvesther.Prelude.{
  ℕ, List, [], ◌∷◌, ◌++◌, Option, none, some, Bool, true, false, ◌||◌, not, ◌==◌, Result, ok, err,
  ◌>>=◌, ◌>>◌, map_err, ok_or, raise_if, length, if◌then◌else◌,
}
use linvesther.Prelude.Int.{ℤ, ltb_ℤ}
use linvesther.Prelude.Bytes.{Bytes, bytes_eq, codes}

pub data TrustListError : Type 0 where
  json : Bytes → TrustListError
  unsupported_version : ℕ → TrustListError
  bad_fingerprint : (name : Bytes) → TrustListError
  empty_validity : (name : Bytes) → TrustListError
  duplicate : Bytes → TrustListError

pub record TrustedCollector : Type 0 where
  pub name : Bytes
  pub fingerprint : Bytes
  pub valid_from_ms : Option ℤ
  pub valid_until_ms : Option ℤ
  pub revoked : Bool

pub record TrustList : Type 0 where
  pub collectors : List TrustedCollector

pub record WireCollector : Type 0 where
  pub wire_name : Bytes
  pub wire_fingerprint : Bytes
  pub wire_valid_from_ms : Option ℤ
  pub wire_valid_until_ms : Option ℤ
  pub wire_revoked : Bool

pub record WireList : Type 0 where
  pub wire_version : ℕ
  pub wire_collectors : List WireCollector

unfoldable pub empty : TrustList
empty = record { collectors = [] }

-- `HashSet::contains`
unfoldable pub contains : List Bytes → Bytes → Bool
contains [] b = false
contains (a ∷ seen) b = bytes_eq a b || contains seen b

-- Both ends are given and the first is after the second.
unfoldable pub is_empty_window : Option ℤ → Option ℤ → Bool
is_empty_window none until = false
is_empty_window (some from) none = false
is_empty_window (some from) (some until) = ltb_ℤ until from

module _ (hex_decode : Bytes → Option Bytes) where
  -- The loop over the collectors, given the fingerprints seen so far.
  unfoldable pub collect :
      List Bytes → List WireCollector → Result TrustListError (List TrustedCollector)
  unfolding contains is_empty_window
  collect seen [] = ok []
  collect seen (entry ∷ entries) = do
    fingerprint ← ok_or (hex_decode entry.wire_fingerprint) (bad_fingerprint entry.wire_name)
    raise_if (not (length fingerprint == 32)) (bad_fingerprint entry.wire_name)
    raise_if (is_empty_window entry.wire_valid_from_ms entry.wire_valid_until_ms)
        (empty_validity entry.wire_name)
    raise_if (contains seen fingerprint) (duplicate entry.wire_fingerprint)
    rest ← collect (fingerprint ∷ seen) entries
    ok (
        record {
          name = entry.wire_name;
          fingerprint = fingerprint;
          valid_from_ms = entry.wire_valid_from_ms;
          valid_until_ms = entry.wire_valid_until_ms;
          revoked = entry.wire_revoked;
        }
        ∷ rest)

  unfoldable pub from_json :
      (Bytes → Result Bytes WireList) → Bytes → Result TrustListError TrustList
  unfolding collect
  from_json parse text = do
    wire ← map_err json (parse text)
    raise_if (not (wire.wire_version == 1)) (unsupported_version wire.wire_version)
    collectors ← collect [] wire.wire_collectors
    ok (record { collectors = collectors })

-- `iter().find`
unfoldable pub find_fingerprint : List TrustedCollector → Bytes → Option TrustedCollector
find_fingerprint [] fingerprint = none
find_fingerprint (c ∷ collectors) fingerprint =
    if bytes_eq c.fingerprint fingerprint then some c else find_fingerprint collectors fingerprint

unfoldable pub lookup : TrustList → Bytes → Option TrustedCollector
unfolding find_fingerprint
lookup trust_list fingerprint = find_fingerprint trust_list.collectors fingerprint

pub data OriginAssessment : Type 0 where
  trusted_collector : (name fingerprint : Bytes) → OriginAssessment
  self_attested : (fingerprint : Bytes) → OriginAssessment
  revoked_collector : (name fingerprint : Bytes) → OriginAssessment
  outside_validity : (name fingerprint : Bytes) → OriginAssessment
  origin_unavailable : Bytes → OriginAssessment

unfoldable pub is_trusted : OriginAssessment → Bool
is_trusted (trusted_collector name fingerprint) = true
is_trusted _ = false

unfoldable pub label : OriginAssessment → Bytes
label (trusted_collector name fingerprint) = codes "TRUSTED_COLLECTOR(" ++ name ++ codes ")"
label (self_attested fingerprint) = codes "SELF_ATTESTED"
label (revoked_collector name fingerprint) = codes "REVOKED_COLLECTOR(" ++ name ++ codes ")"
label (outside_validity name fingerprint) = codes "COLLECTOR_OUTSIDE_VALIDITY(" ++ name ++ codes ")"
label (origin_unavailable reason) = codes "ORIGIN_UNAVAILABLE"

-- `is_some_and`
abbrev pub is_some_and : Option ℤ → (ℤ → Bool) → Bool
is_some_and none test = false
is_some_and (some a) test = test a

-- The code after the collector was found.
unfoldable pub assess_collector : Bytes → ℤ → TrustedCollector → OriginAssessment
assess_collector fingerprint period_end_ms collector =
    let too_early = is_some_and collector.valid_from_ms (λ from. ltb_ℤ period_end_ms from) in
    let too_late = is_some_and collector.valid_until_ms (λ until. ltb_ℤ until period_end_ms) in
    if collector.revoked
    then revoked_collector collector.name fingerprint
    else if too_early || too_late
    then outside_validity collector.name fingerprint
    else trusted_collector collector.name fingerprint

-- The `let … else` on the lookup.
unfoldable pub assess_found : Bytes → ℤ → Option TrustedCollector → OriginAssessment
unfolding assess_collector
assess_found fingerprint period_end_ms none = self_attested fingerprint
assess_found fingerprint period_end_ms (some collector) =
    assess_collector fingerprint period_end_ms collector

unfoldable pub assess_origin : Bytes → ℤ → TrustList → OriginAssessment
unfolding assess_found
assess_origin fingerprint period_end_ms trust_list =
    assess_found fingerprint period_end_ms (lookup trust_list fingerprint)
