-- ===== src/Archive/Reader.antt =====
-- ArchiveReader of src/ArchiveIO.h and src/ArchiveIO.cpp, and BackupSystem::verify of
-- src/BackupSystem.cpp. A file is the list of its bytes.
use zekvok.Prelude.{
  ℕ, ◌+◌, ◌-◌, ◌%◌, ◌^◌, Bool, true, false, not, Option, none, some, List, [], ◌∷◌, length, take,
  drop, if◌then◌else◌, ◌==◌, ltb,
}
use zekvok.Exception.{Result, ok, throw, ◌>>=◌, archive_read, incorrect_implementation}
use zekvok.Exception.{rsa_block_decryption}
use zekvok.Utility.LeInt.{deserialize_fixed_le_int}
use zekvok.Archive.Codecs.{Codecs, VersionManifest}
use zekvok.Archive.Keys.{
  ArchiveKeys, found, throws, past_the_end, get_key, get_iv, from_buffer, key_count,
}
use zekvok.Backup.Versions.{ℤ, version_exists}
use zekvok.Archive.Part.{Access, read_everything}

-- `manifest_offset` is `none` where the source has -1.
pub record ArchiveReader : Type 0 where
  pub file : List ℕ
  pub keypair : Bool
  pub manifest_offset : Option ℕ
  pub manifest_size : ℕ
  pub base_objects_offset : ℕ
  pub version_manifest : Option VersionManifest
  pub stream_ids : List ℕ
  pub stream_sizes : List ℕ

unfoldable pub new_reader : List ℕ → Bool → ArchiveReader
new_reader file keypair = record {
  file = file;
  keypair = keypair;
  manifest_offset = none;
  manifest_size = 0;
  base_objects_offset = 0;
  version_manifest = none;
  stream_ids = [];
  stream_sizes = [];
}

-- A pair of lists of one length; the source asserts that they have it.
unfoldable pub zip_sizes : List ℕ → List ℕ → Result (List (ℕ × ℕ))
zip_sizes [] [] = ok []
zip_sizes (i ∷ is) (s ∷ ss) = do rest ← zip_sizes is ss; ok ((i, s) ∷ rest)
zip_sizes _ _ = throw incorrect_implementation

-- std::equal on digests
unfoldable pub bytes_equal : List ℕ → List ℕ → Bool
bytes_equal [] [] = true
bytes_equal (x ∷ xs) (y ∷ ys) = if x == y then bytes_equal xs ys else false
bytes_equal _ _ = false

-- The lengths of the sizes and of the digest at the end of an archive.
abbrev pub uint64_length : ℕ
uint64_length = 8

abbrev pub sha256_digest_length : ℕ
sha256_digest_length = 32

abbrev pub trailer : ℕ
trailer = 40

-- The bytes of a file from `start` to `end`.
abbrev pub region : List ℕ → ℕ → ℕ → List ℕ
region file start end = take (end - start) (drop start file)

abbrev pub or_throw : {A : Type 0} → Option A → Result A
or_throw none = throw archive_read
or_throw (some a) = ok a

-- A seek before the start of the file fails, and what follows then reads nothing.
unfoldable pub find_manifest : ArchiveReader → Result ArchiveReader
find_manifest r = elim r.manifest_offset [
  | some offset ↦ ok r
  | none ↦
      let n = length r.file in
      let temp = take uint64_length (drop (n - trailer) r.file) in
      let size = deserialize_fixed_le_int uint64_length temp in
      if ltb n trailer
      then throw archive_read
      else if ltb (n - trailer) size
      then throw archive_read
      else ok (record r { manifest_size = size; manifest_offset = some (n - trailer - size) })
]

abbrev pub offset_or_zero : Option ℕ → ℕ
offset_or_zero none = 0
offset_or_zero (some n) = n

module _ {Object : Type 0} (c : Codecs Object) where
  open c use {
    decompress, decrypt, rsa_decrypt, sha256, read_object, read_manifest as parse_manifest,
  }

  -- `base_objects_offset` is an unsigned difference of 64 bits.
  unfoldable pub read_manifest : ArchiveReader → Result (VersionManifest × ArchiveReader)
  read_manifest r = do
    r' ← find_manifest r
    let offset = offset_or_zero r'.manifest_offset
    bytes ← or_throw (decompress (take r'.manifest_size (drop offset r'.file)))
    manifest ← or_throw (parse_manifest bytes)
    let metadata = manifest.archive_metadata
    ok (
      manifest,
      record r' {
        version_manifest = some manifest;
        base_objects_offset = (offset + 2 ^ 64 - metadata.entries_size_in_archive) % 2 ^ 64;
        stream_ids = metadata.stream_ids;
        stream_sizes = metadata.stream_sizes;
      },
    )

  -- The reader after its manifest was read, if it was not before.
  unfoldable pub with_manifest : ArchiveReader → Result (VersionManifest × ArchiveReader)
  with_manifest r = elim r.version_manifest [
    | some manifest ↦ ok (manifest, r)
    | none ↦ read_manifest r
  ]

  -- The crypto source over a region; `index` is the kind of the data.
  unfoldable pub decrypt_with : ArchiveKeys → ℕ → List ℕ → Result (List ℕ)
  decrypt_with k index xs = elim (get_key k index) [
    | found key ↦ elim (get_iv k index) [
      | found iv ↦ or_throw (decrypt key iv xs)
      | throws ↦ throw incorrect_implementation
      | past_the_end ↦ throw incorrect_implementation
    ]
    | throws ↦ throw incorrect_implementation
    | past_the_end ↦ throw incorrect_implementation
  ]

  -- get_key_iv: the keys are read from the block at the front of the file.
  unfoldable pub through_decryption : ArchiveReader → ℕ → List ℕ → Result (List ℕ)
  through_decryption r index xs =
      if r.keypair
      then elim (rsa_decrypt (take 512 r.file)) [
        | none ↦ throw rsa_block_decryption
        | some buffer ↦ decrypt_with (from_buffer key_count buffer) index xs
      ]
      else ok xs

  -- The loop over entry_sizes: each object has a BoundedSource of its own.
  unfoldable pub parse_objects : List ℕ → List ℕ → Result (List Object)
  parse_objects [] source = ok []
  parse_objects (s ∷ ss) source = do
    object ← or_throw (read_object (take s source))
    rest ← parse_objects ss (drop s source)
    ok (object ∷ rest)

  unfoldable pub read_base_objects : ArchiveReader → Result (List Object)
  read_base_objects r = do
    (manifest, r') ← with_manifest r
    let end = offset_or_zero r'.manifest_offset
    bytes ← through_decryption r' 1 (region r'.file r'.base_objects_offset end)
    source ← or_throw (decompress bytes)
    parse_objects manifest.archive_metadata.entry_sizes source

  abbrev pub file_data_start : ArchiveReader → ℕ
  file_data_start r = if r.keypair then 512 else 0

  -- read_everything: the parts of the decompressed file data, for a client that uses them so.
  unfoldable pub read_files : ArchiveReader → List Access → Result (List (Option (List ℕ)))
  read_files r uses = do
    (manifest, r') ← with_manifest r
    bytes ← through_decryption r' 0 (region r'.file (file_data_start r') r'.base_objects_offset)
    source ← or_throw (decompress bytes)
    parts ← zip_sizes r'.stream_ids r'.stream_sizes
    ok (read_everything parts source uses)

  -- The last bytes of a file are the digest of the others.
  unfoldable pub has_digest : List ℕ → Bool
  unfolding bytes_equal
  has_digest file =
      let size = length file in
      if ltb size sha256_digest_length
      then false
      else bytes_equal (sha256 (take (size - sha256_digest_length) file))
          (drop (size - sha256_digest_length) file)

  -- BackupSystem::verify, over the versions of the backup and what the version's file holds, if it can be
  -- read.
  unfoldable pub verify : List ℕ → ℤ → Option (List ℕ) → Bool
  unfolding has_digest
  verify versions version file =
      if not (version_exists versions version)
      then false
      else elim file [ none ↦ false | some bytes ↦ has_digest bytes ]
