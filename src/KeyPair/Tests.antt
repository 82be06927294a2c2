-- ===== src/KeyPair/Tests.antt =====
-- A cipher that meets the laws, and a stored key pair.
use zekvok.Prelude.{
  ℕ, ◌-◌, ◌≡◌, ◌≢◌, ◌++◌, ap, ◌∙◌, Option, none, some, length, take, drop, arith, if◌then◌else◌,
  length-append, take-append, drop-append, Bool-cases, inl, inr, Bool,
}
use zekvok.Archive.Reader.{bytes_equal}
use zekvok.Archive.Complete.{bytes_equal_refl, bytes_equal_sound}
use zekvok.KeyPair.{Bytes, Cipher}

-- The password in front of the plain text.
abbrev opened : Bytes → Bytes → ℕ → Bytes → Option Bytes
opened password iv n text =
    if bytes_equal password (take (length text - n) text)
    then some (drop (length text - n) text)
    else none

opened-prefix :
    (password iv plain : Bytes) (other : Bytes)
    → opened other iv (length plain) (password ++ plain)
      ≡ (if bytes_equal other password then some plain else none)
opened-prefix password iv plain other =
    ap
      (λ k.
        if bytes_equal other (take k (password ++ plain))
        then some (drop k (password ++ plain))
        else none)
      (let e : length (password ++ plain) - length plain ≡ length password =
          omega (arith, length-append password plain) in
        e)
    ∙ ap
        (λ l.
          if bytes_equal other l then some (drop (length password) (password ++ plain)) else none)
        (take-append password plain)
    ∙ ap (λ l. if bytes_equal other password then some l else none) (drop-append password plain)

opened-same :
    (password iv plain : Bytes) → opened password iv (length plain) (password ++ plain) ≡ some plain
opened-same password iv plain =
    opened-prefix password iv plain password
    ∙ ap (λ (b : Bool). if b then some plain else none) (bytes_equal_refl password)

opened-other :
    (password other iv plain : Bytes)
    → other ≢ password
    → opened other iv (length plain) (password ++ plain) ≡ none
opened-other password other iv plain differ =
    opened-prefix password iv plain other ∙ elim (Bool-cases (bytes_equal other password)) [
      | inl same ↦ absurd (differ (bytes_equal_sound other password same))
      | inr unlike ↦ ap (λ (b : Bool). if b then some plain else none) unlike
    ]

abbrev prefix_cipher : Cipher
prefix_cipher = record {
  encryption = λ password iv n plain. password ++ plain;
  decryption = opened;
  decrypts = opened-same;
  authenticates = opened-other;
}
