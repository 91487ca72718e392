-- ===== src/Domain/Consolidation/Internal.antt =====
-- Lemmas and theorems on `consolidated_nav` and `link_internal_transfer` (crates/domain/consolidation).
use linvesther.Prelude.{
  not-eq-false, ◌≡◌, ◌≢◌, ◌↔◌, ◌⊎◌, refl, inl, inr, List, [], ◌∷◌, some, Bool, true, false, ◌||◌,
  not, ok, ◌>>◌, raise_if-eq-ok, >>=-eq-ok, >>-eq-ok, All, Bool-cases,
}
use linvesther.Prelude.Bytes.{Bytes, bytes_eq, bytes_eq→eq, bytes_eq_iff}
use linvesther.Domain.Decimal.{Decimals, or_panic, or_panic-eq-ok}
use linvesther.Domain.Consolidation.{
  MemberAccount, check_gaps, sum_navs, consolidated_nav, TransferLeg, InternalTransfer, contains,
  link_internal_transfer,
}

abbrev pub IsMember : Bytes → List Bytes → Type 0
IsMember id [] = ⊥
IsMember id (member ∷ members) = (member ≡ id) ⊎ IsMember id members

contains_iff :
    (id : Bytes) (members : List Bytes) → (contains id members ≡ true) ↔ IsMember id members
unfolding contains
contains_iff id [] = (λ h. cc, λ h. absurd h)
contains_iff id (member ∷ members) = elim (Bool-cases (bytes_eq member id)) [
  | inl same ↦ (λ h. inl (bytes_eq→eq member id same), λ h. rw same refl)
  | inr other ↦
      let ih = contains_iff id members in
      (
        λ h. inr (ih.0 (rw other at h)),
        λ h. elim h [
          | inl same ↦ let f = (bytes_eq_iff member id).1 same in cc
          | inr there ↦ rw other (ih.1 there)
        ],
      )
]

or-eq-false : (a b : Bool) → a || b ≡ false → (a ≡ false) × (b ≡ false)
or-eq-false true b h = cc
or-eq-false false b h = (refl, h)

bytes_eq-apart : (a b : Bytes) → bytes_eq a b ≡ false → a ≢ b
bytes_eq-apart a b h e = let f = (bytes_eq_iff a b).1 e in cc

apart-bytes_eq : (a b : Bytes) → a ≢ b → bytes_eq a b ≡ false
apart-bytes_eq a b apart = elim (Bool-cases (bytes_eq a b)) [
  | inl same ↦ absurd (apart (bytes_eq→eq a b same))
  | inr other ↦ other
]

module _ (dec : Decimals) where
  open dec use {Decimal, zero_dec, checked_add, eq_dec}

  check_gaps_iff :
      (members : List (MemberAccount dec))
      → (check_gaps dec members ≡ ok tt) ↔ All (λ member. member.has_gap ≡ false) members
  unfolding check_gaps
  check_gaps_iff [] = (λ h. tt, λ h. refl)
  check_gaps_iff (member ∷ members) = elim (Bool-cases member.has_gap) [
    | inl gap ↦ (λ h. let f = rw gap at h in cc, λ (none_, rest). cc)
    | inr whole ↦
        let ih = check_gaps_iff members in
        (λ h. (whole, ih.0 (rw whole at h)), λ (none_, rest). rw whole (ih.1 rest))
  ]

  -- `consolidated_nav` returns a value exactly if no member has a gap and the value is the checked
  -- sum of the values of all members: a set with a gap has no value, not a partial one.
  consolidated_nav_iff :
      (members : List (MemberAccount dec)) (nav : Decimal)
      → (consolidated_nav dec members ≡ ok nav) ↔ (
          All (λ member. member.has_gap ≡ false) members
          × (sum_navs dec zero_dec members ≡ some nav))
  unfolding consolidated_nav
  consolidated_nav_iff members nav = (forth, back)
    where
      forth :
          (check_gaps dec members >> or_panic (sum_navs dec zero_dec members)) ≡ ok nav
          → All (λ member. member.has_gap ≡ false) members
            × (sum_navs dec zero_dec members ≡ some nav)
      forth h =
          let (clear, summed) = >>-eq-ok (check_gaps dec members) _ h in
          ((check_gaps_iff members).0 clear, or_panic-eq-ok _ summed)

      back :
          All (λ member. member.has_gap ≡ false) members
            × (sum_navs dec zero_dec members ≡ some nav)
          → (check_gaps dec members >> or_panic (sum_navs dec zero_dec members)) ≡ ok nav
      back (whole, summed) = rw ((check_gaps_iff members).1 whole, summed) refl

  -- The two legs of a transfer inside a set of accounts.
  pub record IsInternal (outgoing incoming : TransferLeg dec) (fee : Decimal)
      (member_ids : List Bytes) : Type 0 where
    pub outgoing_member : IsMember outgoing.account_id member_ids
    pub incoming_member : IsMember incoming.account_id member_ids
    pub accounts_differ : outgoing.account_id ≢ incoming.account_id
    pub same_asset : outgoing.asset ≡ incoming.asset
    pub expected : Decimal
    pub expected_of : checked_add incoming.amount fee ≡ some expected
    pub amounts_agree : eq_dec outgoing.amount expected ≡ true

  link-IsInternal :
      (link_id : Bytes) (outgoing incoming : TransferLeg dec) (fee : Decimal)
      (member_ids : List Bytes) (transfer : InternalTransfer dec)
      → link_internal_transfer dec link_id outgoing incoming fee member_ids ≡ ok transfer
      → IsInternal outgoing incoming fee member_ids
  unfolding link_internal_transfer
  link-IsInternal link_id outgoing incoming fee member_ids transfer h =
      let (members, h1) =
        raise_if-eq-ok
          (not (contains outgoing.account_id member_ids)
            || not (contains incoming.account_id member_ids))
          _ _ h in
      let (out_in, in_in) = or-eq-false _ _ members in
      let (differ, h2) = raise_if-eq-ok (bytes_eq outgoing.account_id incoming.account_id) _ _ h1 in
      let (asset, h3) = raise_if-eq-ok (not (bytes_eq outgoing.asset incoming.asset)) _ _ h2 in
      let (expected, added, h4) = >>=-eq-ok (or_panic (checked_add incoming.amount fee)) _ h3 in
      let (agree, h5) = raise_if-eq-ok (not (eq_dec outgoing.amount expected)) _ _ h4 in
      record {
        outgoing_member = (contains_iff outgoing.account_id member_ids).0 (not-eq-false _ out_in);
        incoming_member = (contains_iff incoming.account_id member_ids).0 (not-eq-false _ in_in);
        accounts_differ = bytes_eq-apart outgoing.account_id incoming.account_id differ;
        same_asset = bytes_eq→eq outgoing.asset incoming.asset (not-eq-false _ asset);
        expected = expected;
        expected_of = or_panic-eq-ok _ added;
        amounts_agree = not-eq-false _ agree;
      }

  IsInternal-link :
      (link_id : Bytes) (outgoing incoming : TransferLeg dec) (fee : Decimal)
      (member_ids : List Bytes)
      → IsInternal outgoing incoming fee member_ids
      → link_internal_transfer dec link_id outgoing incoming fee member_ids
        ≡ ok (record {
          link_id = link_id;
          asset = outgoing.asset;
          outgoing = outgoing;
          incoming = incoming;
          fee = fee;
        })
  unfolding link_internal_transfer
  IsInternal-link link_id outgoing incoming fee member_ids good =
      let out_in = (contains_iff outgoing.account_id member_ids).1 good.outgoing_member in
      let in_in = (contains_iff incoming.account_id member_ids).1 good.incoming_member in
      let differ = apart-bytes_eq outgoing.account_id incoming.account_id good.accounts_differ in
      let asset = (bytes_eq_iff outgoing.asset incoming.asset).1 good.same_asset in
      rw (out_in, in_in, differ, asset, good.expected_of, good.amounts_agree) refl

  -- A transfer is linked exactly if both accounts are members of the set and differ, both legs are
  -- in one asset, and the outgoing amount is the incoming amount plus the fee; the link then holds
  -- the two legs and the fee as they were given. The fee can have any sign: that it is not negative,
  -- as the field's documentation says, is no condition of the code.
  pub link_internal_transfer_iff :
      (link_id : Bytes) (outgoing incoming : TransferLeg dec) (fee : Decimal)
      (member_ids : List Bytes)
      → (link_internal_transfer dec link_id outgoing incoming fee member_ids
          ≡ ok (record {
            link_id = link_id;
            asset = outgoing.asset;
            outgoing = outgoing;
            incoming = incoming;
            fee = fee;
          }))
        ↔ IsInternal outgoing incoming fee member_ids
  link_internal_transfer_iff link_id outgoing incoming fee member_ids = (
    link-IsInternal link_id outgoing incoming fee member_ids _,
    IsInternal-link link_id outgoing incoming fee member_ids,
  )
