-- ===== src/Domain/Consolidation.antt =====
-- crates/domain/consolidation: the value of a set of accounts, and transfers inside it.
pub mod Internal
use linvesther.Prelude.{
  List, [], ◌∷◌, Option, none, some, Bool, true, false, ◌||◌, not, Result, ok, err, ◌>>=◌, ◌>>◌,
  raise_if, and_then, if◌then◌else◌,
}
use linvesther.Prelude.Bytes.{Bytes, bytes_eq}
use linvesther.Domain.Decimal.{Decimals, Stop, raised, panic, or_panic}

-- `member_ids.contains`
unfoldable pub contains : Bytes → List Bytes → Bool
contains id [] = false
contains id (member ∷ members) = bytes_eq member id || contains id members

module _ (dec : Decimals) where
  open dec use {Decimal, zero_dec, checked_add, negate, eq_dec}

  pub record MemberAccount : Type 0 where
    pub account_id : Bytes
    pub nav : Decimal
    pub has_gap : Bool

  pub data ConsolidationError : Type 0 where
    member_gap : (account_id : Bytes) → ConsolidationError
    not_a_member : (outgoing_account incoming_account : Bytes) → ConsolidationError
    same_account : (account_id : Bytes) → ConsolidationError
    asset_mismatch : (outgoing_asset incoming_asset : Bytes) → ConsolidationError
    unreconciled_amounts : (outgoing incoming_plus_fee : Decimal) → ConsolidationError

  -- The loop that refuses a gap.
  unfoldable pub check_gaps : List MemberAccount → Result (Stop ConsolidationError) (Unit {0})
  check_gaps [] = ok tt
  check_gaps (member ∷ members) =
      if member.has_gap then err (raised (member_gap member.account_id)) else check_gaps members

  -- `.map(|m| m.nav).sum()`, which panics on overflow.
  unfoldable pub sum_navs : Decimal → List MemberAccount → Option Decimal
  sum_navs acc [] = some acc
  sum_navs acc (member ∷ members) =
      and_then (checked_add acc member.nav) (λ sum. sum_navs sum members)

  unfoldable pub consolidated_nav : List MemberAccount → Result (Stop ConsolidationError) Decimal
  consolidated_nav members = check_gaps members >> or_panic (sum_navs zero_dec members)

  unfoldable pub account_added_flow : Decimal → Decimal
  account_added_flow entry_nav = entry_nav

  unfoldable pub account_removed_flow : Decimal → Decimal
  account_removed_flow exit_nav = negate exit_nav

  pub record TransferLeg : Type 0 where
    pub account_id : Bytes
    pub asset : Bytes
    pub amount : Decimal

  pub record InternalTransfer : Type 0 where
    pub link_id : Bytes
    pub asset : Bytes
    pub outgoing : TransferLeg
    pub incoming : TransferLeg
    -- Documented as zero or more, which `link_internal_transfer` does not check.
    pub fee : Decimal

  unfoldable pub consolidated_external_flow : InternalTransfer → Decimal
  consolidated_external_flow transfer = zero_dec

  unfoldable pub link_internal_transfer :
      (link_id : Bytes) (outgoing incoming : TransferLeg) (fee : Decimal) (member_ids : List Bytes)
      → Result (Stop ConsolidationError) InternalTransfer
  link_internal_transfer link_id outgoing incoming fee member_ids = do
    _ ←
        raise_if
          (not (contains outgoing.account_id member_ids)
            || not (contains incoming.account_id member_ids))
          (raised (not_a_member outgoing.account_id incoming.account_id))
    _ ←
        raise_if (bytes_eq outgoing.account_id incoming.account_id)
          (raised (same_account outgoing.account_id))
    _ ←
        raise_if (not (bytes_eq outgoing.asset incoming.asset))
          (raised (asset_mismatch outgoing.asset incoming.asset))
    expected_outgoing ← or_panic (checked_add incoming.amount fee)
    _ ←
        raise_if (not (eq_dec outgoing.amount expected_outgoing))
          (raised (unreconciled_amounts outgoing.amount expected_outgoing))
    ok (record {
      link_id = link_id;
      asset = outgoing.asset;
      outgoing = outgoing;
      incoming = incoming;
      fee = fee;
    })
