-- ===== src/KeyPair.antt =====
-- src/serialization/RsaKeyPair.cpp: a private key kept encrypted under a password. Crypto++ derives the
-- key of the cipher and runs it; what it does is the record Cipher.
mod Access
mod Tests
use zekvok.Prelude.{
  ℕ, ◌≡◌, ◌≢◌, Bool, true, false, Option, none, some, List, [], ◌∷◌, length, ◌%◌, ◌^◌,
}
use zekvok.Exception.{
  Exception, Result, ok, throw, incorrect_implementation, private_key_decryption,
}

abbrev pub Bytes : Type 0
Bytes = List ℕ

-- cryptoprocess_buffer both ways, by password, initialization vector and the size of the plain text. The
-- cipher is authenticated: another password does not decrypt.
pub record Cipher : Type 0 where
  pub encryption : Bytes → Bytes → ℕ → Bytes → Bytes
  pub decryption : Bytes → Bytes → ℕ → Bytes → Option Bytes
  pub decrypts :
      (password iv plain : Bytes)
      → decryption password iv (length plain) (encryption password iv (length plain) plain)
        ≡ some plain
  pub authenticates :
      (password other iv plain : Bytes)
      → other ≢ password
      → decryption other iv (length plain) (encryption password iv (length plain) plain) ≡ none

pub record RsaKeyPair : Type 0 where
  pub priv_size : ℕ
  pub encrypted_private_key : Bytes
  pub public_key : Bytes
  pub initialization_vector : Bytes
  pub private_key : Bytes
  pub symmetric_key : Bytes

-- What is left of a pair that was serialized and read back.
unfoldable pub stored : RsaKeyPair → RsaKeyPair
stored p = record p { private_key = []; symmetric_key = [] }

module _ (cipher : Cipher) where
  unfoldable pub encrypt : RsaKeyPair → Result RsaKeyPair
  encrypt p = elim p.symmetric_key [
    | [] ↦ throw incorrect_implementation
    | x ∷ xs ↦ ok (record p {
      encrypted_private_key =
          cipher.encryption (x ∷ xs) p.initialization_vector p.priv_size p.private_key;
    })
  ]

  -- The constructor; `iv` is the random block.
  unfoldable pub new_pair : Bytes → Bytes → Bytes → Bytes → Result RsaKeyPair
  unfolding encrypt
  new_pair private_key public_key symmetric_key iv = encrypt (record {
    priv_size = length private_key % 2 ^ 32;
    encrypted_private_key = [];
    public_key = public_key;
    initialization_vector = iv;
    private_key = private_key;
    symmetric_key = symmetric_key;
  })

  -- What decrypt() makes of the cipher's answer: any failure is one exception, and changes nothing.
  abbrev pub decrypted : Option Bytes → RsaKeyPair → Result Bytes × RsaKeyPair
  decrypted none p = (throw private_key_decryption, p)
  decrypted (some plain) p = (ok plain, record p { private_key = plain })

  -- decrypt(), with the private key that its callers return.
  unfoldable pub decrypt : RsaKeyPair → Result Bytes × RsaKeyPair
  decrypt p = elim p.symmetric_key [
    | [] ↦ (throw incorrect_implementation, p)
    | x ∷ xs ↦
        decrypted
          (cipher.decryption (x ∷ xs) p.initialization_vector p.priv_size p.encrypted_private_key) p
  ]

  -- get_private_key()
  unfoldable pub get_private_key : RsaKeyPair → Result Bytes × RsaKeyPair
  unfolding decrypt
  get_private_key p = elim p.private_key [
    | y ∷ ys ↦ (ok (y ∷ ys), p)
    | [] ↦ elim p.symmetric_key [ [] ↦ (throw private_key_decryption, p) | x ∷ xs ↦ decrypt p ]
  ]

  -- get_private_key(symmetric_key): a password that the pair has already is used, and not the argument.
  unfoldable pub get_private_key_with : Bytes → RsaKeyPair → Result Bytes × RsaKeyPair
  unfolding decrypt
  get_private_key_with symmetric_key p = elim p.private_key [
    | y ∷ ys ↦ (ok (y ∷ ys), p)
    | [] ↦ elim p.symmetric_key [
      | x ∷ xs ↦ decrypt p
      | [] ↦ elim symmetric_key [
        | [] ↦ (throw private_key_decryption, p)
        | k ∷ ks ↦ decrypt (record p { symmetric_key = k ∷ ks })
      ]
    ]
  ]
