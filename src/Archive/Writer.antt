-- ===== src/Archive/Writer.antt =====
-- ArchiveWriter of src/ArchiveIO.h and src/ArchiveIO.cpp. The sinks below the writer are the list of
-- the bytes that reached the hashed stream, and a codec is applied to all of what it is given.
use zekvok.Prelude.{
  ℕ, ◌+◌, Bool, true, false, Option, none, some, List, [], ◌∷◌, ◌++◌, map, length, if◌then◌else◌,
  ◌==◌,
}
use zekvok.Exception.{
  Exception, Result, ok, throw, ◌>>=◌, ◌>>◌, incorrect_implementation, zekvok_assert,
}
use zekvok.Utility.LeInt.{serialize_fixed_le_int}
use zekvok.Archive.Codecs.{Codecs, VersionManifest}
use zekvok.Archive.Keys.{ArchiveKeys, found, throws, past_the_end, get_key, get_iv, to_buffer}

pub data State : Type 0 where
  initial files_written fsos_written manifest_written final : State

pub record ArchiveWriter : Type 0 where
  pub state : State
  pub stream_ids : List ℕ
  pub stream_sizes : List ℕ
  pub any_file : Bool
  pub initial_fso_offset : ℕ
  pub entries_size_in_archive : ℕ
  pub base_object_entry_sizes : List ℕ
  pub keys : Option ArchiveKeys
  pub archive_key_index : ℕ
  pub out : List ℕ

-- A file of the queue: what open_for_exclusive_read throws for it, if it does, and else its size as the
-- file system reports it and what is read of it.
pub record FileQueueElement : Type 0 where
  pub failure : Option Exception
  pub stream_id : ℕ
  pub size : ℕ
  pub content : List ℕ

unfoldable pub is_initial : State → Bool
is_initial initial = true
is_initial _ = false

unfoldable pub is_files_written : State → Bool
is_files_written files_written = true
is_files_written _ = false

unfoldable pub is_fsos_written : State → Bool
is_fsos_written fsos_written = true
is_fsos_written _ = false

unfoldable pub is_manifest_written : State → Bool
is_manifest_written manifest_written = true
is_manifest_written _ = false

-- ArchiveWriter(): the other fields are set by process() and by the calls below.
unfoldable pub new_writer : ArchiveWriter
new_writer = record {
  state = initial;
  stream_ids = [];
  stream_sizes = [];
  any_file = false;
  initial_fso_offset = 0;
  entries_size_in_archive = 0;
  base_object_entry_sizes = [];
  keys = none;
  archive_key_index = 0;
  out = [];
}

-- The calls of open_for_exclusive_read in the loop: the first that throws ends it.
unfoldable pub opened_all : List FileQueueElement → Result (Unit {0})
opened_all [] = ok tt
opened_all (f ∷ fs) = elim f.failure [ some e ↦ throw e | none ↦ opened_all fs ]

module _ {Object : Type 0} (c : Codecs Object) where
  open c use {compress, encrypt, rsa_encrypt, sha256, write_object, write_manifest}

  -- The crypto sink, if there are keys: it takes the key of the next index. (Reading past the end
  -- of the keys has no defined result; the two calls use the indices 0 and 1.)
  unfoldable pub through_crypto : List ℕ → ArchiveWriter → Result (List ℕ × ArchiveWriter)
  through_crypto xs w = elim w.keys [
    | none ↦ ok (xs, w)
    | some k ↦ elim (get_key k w.archive_key_index) [
      | found key ↦ elim (get_iv k w.archive_key_index) [
        | found iv ↦
            ok (encrypt key iv xs, record w { archive_key_index = w.archive_key_index + 1 })
        | throws ↦ throw incorrect_implementation
        | past_the_end ↦ throw incorrect_implementation
      ]
      | throws ↦ throw incorrect_implementation
      | past_the_end ↦ throw incorrect_implementation
    ]
  ]

  -- The bytes that the loop over the queue copies to the compressor: an empty file is not copied.
  unfoldable pub copied : List FileQueueElement → List ℕ
  copied [] = []
  copied (f ∷ fs) = (if f.size == 0 then [] else f.content) ++ copied fs

  -- The digests that set_hash stores in the files, in the order of the queue.
  unfoldable pub digests : List FileQueueElement → List (List ℕ)
  digests [] = []
  digests (f ∷ fs) = sha256 (if f.size == 0 then [] else f.content) ∷ digests fs

  -- The state is set before anything can fail.
  unfoldable pub add_files :
      List FileQueueElement → ArchiveWriter → Result (List (List ℕ) × ArchiveWriter)
  add_files files w = do
    zekvok_assert (is_initial w.state)
    (bytes, w') ← through_crypto (compress 1 (copied files)) (record w { state = files_written })
    opened_all files
    ok (
      digests files,
      record w' {
        stream_ids = w'.stream_ids ++ map (λ f. f.stream_id) files;
        stream_sizes = w'.stream_sizes ++ map (λ f. f.size) files;
        any_file = elim files [ [] ↦ w'.any_file | f ∷ fs ↦ true ];
        initial_fso_offset = length bytes;
        out = w'.out ++ bytes;
      },
    )

  unfoldable pub serialized : List Object → List ℕ
  serialized [] = []
  serialized (o ∷ os) = write_object o ++ serialized os

  unfoldable pub add_base_objects : List Object → ArchiveWriter → Result ArchiveWriter
  add_base_objects objects w = do
    zekvok_assert (is_files_written w.state)
    (bytes, w') ←
        through_crypto (compress 8 (serialized objects)) (record w { state = fsos_written })
    ok (record w' {
      entries_size_in_archive = length bytes;
      base_object_entry_sizes =
          w'.base_object_entry_sizes ++ map (λ o. length (write_object o)) objects;
      out = w'.out ++ bytes;
    })

  -- The manifest takes the lists over, and its compressed length follows it.
  unfoldable pub filled_in : VersionManifest → ArchiveWriter → VersionManifest
  filled_in manifest w = record manifest {
    archive_metadata = record {
      entries_size_in_archive = w.entries_size_in_archive;
      entry_sizes = w.base_object_entry_sizes;
      stream_ids = w.stream_ids;
      stream_sizes = w.stream_sizes;
    };
  }

  unfoldable pub add_version_manifest : VersionManifest → ArchiveWriter → Result ArchiveWriter
  add_version_manifest manifest w = do
    zekvok_assert (is_fsos_written w.state)
    let bytes = compress 8 (write_manifest (filled_in manifest w))
    ok (record w {
      state = manifest_written;
      stream_ids = [];
      stream_sizes = [];
      base_object_entry_sizes = [];
      out = w.out ++ (bytes ++ serialize_fixed_le_int 8 (length bytes));
    })

  -- create_and_save: the encrypted block of the keys goes first.
  unfoldable pub create_and_save : Option ArchiveKeys → ArchiveWriter → ArchiveWriter
  create_and_save keys w = elim keys [
    | none ↦ record w { keys = none; archive_key_index = 0 }
    | some k ↦ record w {
      keys = some k;
      archive_key_index = 0;
      out = w.out ++ rsa_encrypt (to_buffer k.keys k.ivs);
    }
  ]

  -- process(): the result is the file, whose last bytes are the digest of those before them.
  unfoldable pub process :
      Option ArchiveKeys → (ArchiveWriter → Result ArchiveWriter) → ArchiveWriter → Result (List ℕ)
  process keys callback w = do
    w' ← callback (create_and_save keys (record w { initial_fso_offset = 0 }))
    zekvok_assert (is_manifest_written w'.state)
    ok (w'.out ++ sha256 w'.out)

  -- BackupSystem::archive_process_callback, over what its three parts hand to the writer. The
  -- objects are serialized with the digests that add_files stored in them.
  unfoldable pub archive_process_callback :
      List FileQueueElement
      → (List (List ℕ) → List Object)
      → VersionManifest
      → ArchiveWriter
      → Result ArchiveWriter
  archive_process_callback files objects manifest w = do
    (hashes, w1) ← add_files files w
    w2 ← add_base_objects (objects hashes) w1
    add_version_manifest manifest w2
