-- ===== src/Archive/Codecs.antt =====
-- What src/ArchiveIO.cpp uses of code that is not in the repository: liblzma, Crypto++ and the
-- generated serializers; and the manifest of src/serialization/fso.txt that they carry.
use zekvok.Prelude.{ℕ, ◌≡◌, List, Option, some, length}

-- ArchiveMetadata and VersionManifest.
pub record ArchiveMetadata : Type 0 where
  pub entries_size_in_archive : ℕ
  pub entry_sizes : List ℕ
  pub stream_ids : List ℕ
  pub stream_sizes : List ℕ

pub record VersionManifest : Type 0 where
  pub creation_time : ℕ
  pub version_number : ℕ
  pub version_dependencies : List ℕ
  pub entry_count : ℕ
  pub first_stream_id : ℕ
  pub next_stream_id : ℕ
  pub first_differential_chain_id : ℕ
  pub next_differential_chain_id : ℕ
  pub archive_metadata : ArchiveMetadata

-- `Object` is the type of the file system objects. The laws are those of a codec and its inverse:
-- the .xz coder, Twofish in CBC mode with padding, RSA-OAEP of the 96 bytes of the keys
-- under an RSA key of 4096 bits, SHA-256, and the serializer of a class and its deserializer.
pub record Codecs (Object : Type 0) : Type 0 where
  pub compress : ℕ → List ℕ → List ℕ
  pub decompress : List ℕ → Option (List ℕ)
  pub encrypt : List ℕ → List ℕ → List ℕ → List ℕ
  pub decrypt : List ℕ → List ℕ → List ℕ → Option (List ℕ)
  pub rsa_encrypt : List ℕ → List ℕ
  pub rsa_decrypt : List ℕ → Option (List ℕ)
  pub sha256 : List ℕ → List ℕ
  pub write_object : Object → List ℕ
  pub read_object : List ℕ → Option Object
  pub write_manifest : VersionManifest → List ℕ
  pub read_manifest : List ℕ → Option VersionManifest
  pub decompress-compress : (level : ℕ) (xs : List ℕ) → decompress (compress level xs) ≡ some xs
  pub decrypt-encrypt : (key iv xs : List ℕ) → decrypt key iv (encrypt key iv xs) ≡ some xs
  pub rsa_decrypt-rsa_encrypt :
      (xs : List ℕ) → length xs ≡ 96 → rsa_decrypt (rsa_encrypt xs) ≡ some xs
  pub length-rsa_encrypt : (xs : List ℕ) → length xs ≡ 96 → length (rsa_encrypt xs) ≡ 512
  pub length-sha256 : (xs : List ℕ) → length (sha256 xs) ≡ 32
  pub read-write_object : (o : Object) → read_object (write_object o) ≡ some o
  pub read-write_manifest : (m : VersionManifest) → read_manifest (write_manifest m) ≡ some m
