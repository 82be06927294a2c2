-- ===== src/Exception.antt =====
-- The exceptions of src/Exception.h that the modelled code throws, and the results that carry them.
use zekvok.Prelude.{Bool, true, false}

pub data Exception : Type 0 where
  incorrect_implementation : Exception
  invalid_switch_variable : Exception
  not_implemented : Exception
  file_not_found : Exception
  archive_read : Exception
  rsa_block_decryption : Exception
  private_key_decryption : Exception
  std_string : Exception

-- The exceptions that are not derived from NonFatalException.
abbrev pub is_fatal : Exception → Bool
is_fatal incorrect_implementation = true
is_fatal invalid_switch_variable = true
is_fatal not_implemented = true
is_fatal _ = false

pub data Result {ℓ} (A : Type ℓ) : Type ℓ where
  ok : A → Result A
  throw : Exception → Result A

infixl 5 ◌>>=◌ ◌>>◌
abbrev pub ◌>>=◌ {ℓ κ} : {A : Type ℓ} {B : Type κ} → Result A → (A → Result B) → Result B
ok a >>= f = f a
throw e >>= f = throw e

abbrev pub ◌>>◌ {ℓ} : {B : Type ℓ} → Result (Unit {0}) → Result B → Result B
m >> k = m >>= λ _. k

-- zekvok_assert
abbrev pub zekvok_assert : Bool → Result (Unit {0})
zekvok_assert true = ok tt
zekvok_assert false = throw incorrect_implementation
