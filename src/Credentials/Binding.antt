-- ===== src/Credentials/Binding.antt =====
-- services/collector/credentials/src/binding.rs: a credential is bound to the account it was pinned to.
pub mod Pinned
use linvesther.Prelude.{
  Option, none, some, Bool, true, false, not, Result, ok, err, ◌>>=◌, raise_if,
}
use linvesther.Prelude.Bytes.{Bytes, bytes_eq}
use linvesther.Credentials.{Environment, environment_eq}

pub record AccountContext : Type 0 where
  pub uid : Bytes
  pub sub_account_id : Option Bytes
  pub environment : Environment

pub data BindingError : Type 0 where
  uid_mismatch : (expected actual : Bytes) → BindingError
  sub_account_mismatch : (expected actual : Option Bytes) → BindingError
  environment_mismatch : (expected actual : Environment) → BindingError

pub record PinnedBinding : Type 0 where
  pub expected : AccountContext

unfoldable pub pin : AccountContext → PinnedBinding
pin context = record { expected = context }

unfoldable pub sub_account_eq : Option Bytes → Option Bytes → Bool
sub_account_eq none none = true
sub_account_eq none (some b) = false
sub_account_eq (some a) none = false
sub_account_eq (some a) (some b) = bytes_eq a b

unfoldable pub check : PinnedBinding → AccountContext → Result BindingError (Unit {0})
check binding observed = do
  _ ←
      raise_if (not (bytes_eq observed.uid binding.expected.uid))
        (uid_mismatch binding.expected.uid observed.uid)
  _ ←
      raise_if (not (environment_eq observed.environment binding.expected.environment))
        (environment_mismatch binding.expected.environment observed.environment)
  _ ←
      raise_if (not (sub_account_eq observed.sub_account_id binding.expected.sub_account_id))
        (sub_account_mismatch binding.expected.sub_account_id observed.sub_account_id)
  ok tt
