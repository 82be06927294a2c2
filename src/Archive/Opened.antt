-- ===== src/Archive/Opened.antt =====
-- What one part of an archive gives back when it is decrypted and parsed.
use zekvok.Prelude.{
  ℕ, ◌≡◌, refl, true, false, Option, none, some, List, [], ◌∷◌, map, length, take, take-append,
  drop-append, if◌then◌else◌,
}
use zekvok.Exception.{ok}
use zekvok.Archive.Codecs.{Codecs}
use zekvok.Archive.Keys.{get_key, get_iv, to_buffer, IsValid, keys_round_trip, length-to_buffer}
use zekvok.Archive.Writer.{serialized}
use zekvok.Archive.Reader.{ArchiveReader, decrypt_with, through_decryption, parse_objects}
use zekvok.Archive.Layout.{KeyMaterial, keys_of, HasSizes, is_some, header, seal0, seal1}

module _ {Object : Type 0} (c : Codecs Object) where
  open c use {
    compress, decompress, sha256, write_object, write_manifest, rsa_encrypt, rsa_decrypt,
    decompress-compress, read-write_object, read-write_manifest, length-sha256,
    rsa_decrypt-rsa_encrypt, decrypt-encrypt, length-rsa_encrypt,
  }

  pub parse_serialized :
      (objects : List Object)
      → parse_objects c (map (λ o. length (write_object o)) objects) (serialized c objects)
        ≡ ok objects
  unfolding parse_objects serialized
  parse_serialized [] = refl
  parse_serialized (o ∷ os) =
      rw
        (
          take-append (write_object o) (serialized c os),
          drop-append (write_object o) (serialized c os),
          read-write_object o,
          parse_serialized os,
        )
        refl

  -- The reader has a key pair if the writer had, and the block of the keys is in front.
  abbrev pub Fits : Option KeyMaterial → ArchiveReader → Type 0
  Fits none r = r.keypair ≡ false
  Fits (some k) r =
      (r.keypair ≡ true)
      × IsValid (keys_of k)
      × (take 512 r.file ≡ rsa_encrypt (to_buffer (keys_of k).keys (keys_of k).ivs))

  pub length-header :
      (m : Option KeyMaterial) → HasSizes m → length (header c m) ≡ (if is_some m then 512 else 0)
  unfolding header
  length-header none v = refl
  length-header (some k) v = length-rsa_encrypt _ (length-to_buffer (keys_of k) v)

  pub header-Fits :
      (m : Option KeyMaterial) (r : ArchiveReader)
      → r.keypair ≡ is_some m
      → HasSizes m
      → take (if is_some m then 512 else 0) r.file ≡ header c m
      → Fits m r
  unfolding header
  header-Fits none r e v h = e
  header-Fits (some k) r e v h = (e, v, h)

  -- What was sealed for a part is opened with the keys at the front of the file.
  pub opened0 :
      (m : Option KeyMaterial) (r : ArchiveReader) (xs : List ℕ)
      → Fits m r
      → through_decryption c r 0 (seal0 c m xs) ≡ ok xs
  unfolding through_decryption seal0
  opened0 none r xs f = rw f refl
  opened0 (some k) r xs (kp, v, f) =
      rw
        (
          kp,
          f,
          rsa_decrypt-rsa_encrypt _ (length-to_buffer (keys_of k) v),
          keys_round_trip (keys_of k) v,
        )
        (unfold decrypt_with get_key get_iv in rw (decrypt-encrypt k.key0 k.iv0 xs) refl)

  pub opened1 :
      (m : Option KeyMaterial) (r : ArchiveReader) (xs : List ℕ)
      → Fits m r
      → through_decryption c r 1 (seal1 c m xs) ≡ ok xs
  unfolding through_decryption seal1
  opened1 none r xs f = rw f refl
  opened1 (some k) r xs (kp, v, f) =
      rw
        (
          kp,
          f,
          rsa_decrypt-rsa_encrypt _ (length-to_buffer (keys_of k) v),
          keys_round_trip (keys_of k) v,
        )
        (unfold decrypt_with get_key get_iv in rw (decrypt-encrypt k.key1 k.iv1 xs) refl)
