-- ===== src/Verifier/Anchor.antt =====
-- crates/verifier/src/anchor.rs: the bundle's anchor against the trusted ones. The `HashSet` is the
-- list of its elements.
use linvesther.Prelude.{
  ℕ, List, [], ◌∷◌, Bool, false, ◌&&◌, ◌||◌, not, ◌==◌, Result, ok, err, if◌then◌else◌,
}
use linvesther.Prelude.Bytes.{Bytes, bytes_eq}

pub record TrustedAnchor : Type 0 where
  pub tx_hash : Bytes
  pub block_number : ℕ

pub data AnchorError : Type 0 where
  not_trusted : (tx_hash : Bytes) (block_number : ℕ) → AnchorError

unfoldable pub anchor_eq : TrustedAnchor → TrustedAnchor → Bool
anchor_eq a b = bytes_eq a.tx_hash b.tx_hash && a.block_number == b.block_number

-- `HashSet::contains`
unfoldable pub contains_anchor : List TrustedAnchor → TrustedAnchor → Bool
unfolding anchor_eq
contains_anchor [] claimed = false
contains_anchor (a ∷ trusted) claimed = anchor_eq a claimed || contains_anchor trusted claimed

unfoldable pub verify_anchor : TrustedAnchor → List TrustedAnchor → Result AnchorError (Unit {0})
unfolding contains_anchor
verify_anchor claimed trusted =
    if not (contains_anchor trusted claimed)
    then err (not_trusted claimed.tx_hash claimed.block_number)
    else ok tt
