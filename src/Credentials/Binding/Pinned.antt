-- ===== src/Credentials/Binding/Pinned.antt =====
-- Lemmas and theorems on `PinnedBinding::check` (services/collector/credentials/src/binding.rs).
use linvesther.Prelude.{
  not-eq-false, ◌≡◌, ◌↔◌, refl, ap, Option, none, some, true, not, ok, raise_if-eq-ok,
}
use linvesther.Prelude.Bytes.{Bytes, bytes_eq, bytes_eq→eq, bytes_eq_refl}
use linvesther.Credentials.{Environment, production, test, environment_eq}
use linvesther.Credentials.Binding.{AccountContext, pin, sub_account_eq, check}

environment_eq→eq : (a b : Environment) → environment_eq a b ≡ true → a ≡ b
unfolding environment_eq
environment_eq→eq production production h = refl
environment_eq→eq production test h = cc
environment_eq→eq test production h = cc
environment_eq→eq test test h = refl

environment_eq_refl : (a : Environment) → environment_eq a a ≡ true
unfolding environment_eq
environment_eq_refl production = refl
environment_eq_refl test = refl

sub_account_eq→eq : (a b : Option Bytes) → sub_account_eq a b ≡ true → a ≡ b
unfolding sub_account_eq
sub_account_eq→eq none none h = refl
sub_account_eq→eq none (some b) h = cc
sub_account_eq→eq (some a) none h = cc
sub_account_eq→eq (some a) (some b) h = ap (λ x. some x) (bytes_eq→eq a b h)

sub_account_eq_refl : (a : Option Bytes) → sub_account_eq a a ≡ true
unfolding sub_account_eq
sub_account_eq_refl none = refl
sub_account_eq_refl (some a) = bytes_eq_refl a

-- A binding that was pinned to an account accepts an observed account exactly if it is that one:
-- the same user id, the same environment and the same sub-account.
check-pin_iff :
    (context observed : AccountContext)
    → (check (pin context) observed ≡ ok tt) ↔ (observed ≡ context)
unfolding check pin
check-pin_iff context observed = (forth, back)
  where
    forth : check (pin context) observed ≡ ok tt → observed ≡ context
    forth h =
        let (u, h1) = raise_if-eq-ok (not (bytes_eq observed.uid context.uid)) _ _ h in
        let (e, h2) =
          raise_if-eq-ok (not (environment_eq observed.environment context.environment)) _ _ h1 in
        let (s, h3) =
          raise_if-eq-ok (not (sub_account_eq observed.sub_account_id context.sub_account_id)) _ _
            h2 in
        let p = bytes_eq→eq observed.uid context.uid (not-eq-false _ u) in
        let q = environment_eq→eq observed.environment context.environment (not-eq-false _ e) in
        let r =
          sub_account_eq→eq observed.sub_account_id context.sub_account_id (not-eq-false _ s) in
        λ i. record { uid = p i; sub_account_id = r i; environment = q i }

    back : observed ≡ context → check (pin context) observed ≡ ok tt
    back same =
        rw
          (
            same,
            bytes_eq_refl context.uid,
            environment_eq_refl context.environment,
            sub_account_eq_refl context.sub_account_id,
          )
          refl
