-- ===== src/KeyPair/Access.antt =====
-- Who gets the private key of a stored pair.
use zekvok.Prelude.{ℕ, ◌∷◌, length}
use zekvok.KeyPair.{Bytes, Cipher, RsaKeyPair}

module _ (cipher : Cipher) (x : ℕ) (password : Bytes) (y : ℕ) (key public_key iv : Bytes) where
  -- The pair that the constructor makes.
  abbrev pub made : RsaKeyPair
  made = record {
    priv_size = length (y ∷ key);
    encrypted_private_key = cipher.encryption (x ∷ password) iv (length (y ∷ key)) (y ∷ key);
    public_key = public_key;
    initialization_vector = iv;
    private_key = y ∷ key;
    symmetric_key = x ∷ password;
  }
