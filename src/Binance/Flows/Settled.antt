-- ===== src/Binance/Flows/Settled.antt =====
-- Lemmas and theorems on the normalized flows (services/collector/binance/flows).
use linvesther.Prelude.{
  ℕ, ◌≡◌, sym, ◌∙◌, ap, List, [], ◌∷◌, Option, none, some, Bool, true, ok, ok_or, ok_or-eq-ok,
  >>=-eq-ok, ok-injective, ◌==◌, leb, not, ◌||◌, ◌&&◌, is_empty, arith, if◌then◌else◌,
}
use linvesther.Prelude.Bytes.{Bytes, bytes_eq, codes}
use linvesther.Binance.Flows.{AssetLeg, credit, debit, NormalizedFlow}
use linvesther.Binance.Flows.Deposit.{RawDeposit, normalize_deposit}
use linvesther.Binance.Flows.Withdrawal.{RawWithdrawal, normalize_withdrawal, legs_and_fee}
use linvesther.Binance.Flows.Deposit
use linvesther.Binance.Flows.Withdrawal

-- What a deposit moves, by its status code.
abbrev pub deposited : RawDeposit → List AssetLeg
deposited raw = if raw.status == 6 || raw.status == 1 then credit raw.asset raw.amount ∷ [] else []

-- The fee of a withdrawal: none if the text is "0" or empty.
abbrev pub fee_of : RawWithdrawal → Option AssetLeg
fee_of raw =
    if not (bytes_eq raw.transaction_fee (codes "0")) && not (is_empty raw.transaction_fee)
    then some (debit raw.asset raw.transaction_fee)
    else none

-- What a withdrawal moves, by its status code, and the fee.
abbrev pub withdrawn : RawWithdrawal → List AssetLeg × Option AssetLeg
withdrawn raw =
    if raw.status == 6 then (debit raw.asset raw.amount ∷ [], fee_of raw) else ([], none)

-- The codes that are documented.
abbrev pub is_deposit_status : ℕ → Bool
is_deposit_status code = leb code 2 || (leb 6 code && leb code 8)

deposit_legs :
    (raw : RawDeposit) {kind : Bytes}
    → Deposit.classify_status raw.status ≡ some kind
    → (if bytes_eq kind (codes "Credited") then credit raw.asset raw.amount ∷ [] else [])
      ≡ deposited raw
unfolding Deposit.classify_status bytes_eq
deposit_legs raw h = ground arith

deposit_known :
    (code : ℕ) {kind : Bytes}
    → Deposit.classify_status code ≡ some kind
    → is_deposit_status code ≡ true
unfolding Deposit.classify_status
deposit_known code h = ground arith

withdrawal_legs :
    (raw : RawWithdrawal) {kind : Bytes}
    → Withdrawal.classify_status raw.status ≡ some kind
    → legs_and_fee raw kind ≡ withdrawn raw
unfolding Withdrawal.classify_status legs_and_fee bytes_eq
withdrawal_legs raw h = ground arith

withdrawal_known :
    (code : ℕ) {kind : Bytes} → Withdrawal.classify_status code ≡ some kind → leb code 6 ≡ true
unfolding Withdrawal.classify_status
withdrawal_known code h = ground arith

-- A deposit is normalized only for the status codes 0 to 2 and 6 to 8 (any other is refused); it
-- then credits its amount exactly for the codes 1 and 6, moves nothing for the others, and has no
-- fee.
normalize_deposit-deposited :
    (to_string : ℕ → Bytes) (raw : RawDeposit) (flow : NormalizedFlow)
    → normalize_deposit to_string raw ≡ ok flow
    → (is_deposit_status raw.status ≡ true) × (flow.legs ≡ deposited raw) × (flow.fee ≡ none)
unfolding normalize_deposit
normalize_deposit-deposited to_string raw flow h =
    let (kind, known, made) = >>=-eq-ok (ok_or (Deposit.classify_status raw.status) _) _ h in
    let same = ok-injective made in
    let found = ok_or-eq-ok (Deposit.classify_status raw.status) _ known in
    (
      deposit_known raw.status found,
      ap (λ (f : NormalizedFlow). f.legs) (sym same) ∙ deposit_legs raw found,
      ap (λ (f : NormalizedFlow). f.fee) (sym same),
    )

-- A withdrawal is normalized only for the status codes 0 to 6; it then debits its amount, and its
-- fee if there is one, exactly for the code 6, and moves nothing for the others: a withdrawal that
-- was requested, cancelled, rejected or failed changes no balance.
pub normalize_withdrawal-withdrawn :
    (to_string : ℕ → Bytes) (raw : RawWithdrawal) (flow : NormalizedFlow)
    → normalize_withdrawal to_string raw ≡ ok flow
    → (leb raw.status 6 ≡ true) × (flow.legs ≡ (withdrawn raw).0) × (flow.fee ≡ (withdrawn raw).1)
unfolding normalize_withdrawal
normalize_withdrawal-withdrawn to_string raw flow h =
    let (kind, known, made) = >>=-eq-ok (ok_or (Withdrawal.classify_status raw.status) _) _ h in
    let same = ok-injective made in
    let found = ok_or-eq-ok (Withdrawal.classify_status raw.status) _ known in
    let moved = withdrawal_legs raw found in
    (
      withdrawal_known raw.status found,
      ap (λ (f : NormalizedFlow). f.legs) (sym same)
          ∙ ap (λ (p : List AssetLeg × Option AssetLeg). p.0) moved,
      ap (λ (f : NormalizedFlow). f.fee) (sym same)
          ∙ ap (λ (p : List AssetLeg × Option AssetLeg). p.1) moved,
    )
