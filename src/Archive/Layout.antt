-- ===== src/Archive/Layout.antt =====
-- The bytes of the file that ArchiveWriter::process of src/ArchiveIO.cpp makes, and the parts they
-- consist of.
use mathlib.Core.Option
use zekvok.Prelude.{
  ℕ, ◌≡◌, refl, Bool, true, false, Option, none, some, List, [], ◌∷◌, ◌++◌, map, length, ◌⊎◌, inl,
  inr,
}
use zekvok.Exception.{Exception, Result, ok, throw, ◌>>=◌}
use zekvok.Utility.LeInt.{serialize_fixed_le_int}
use zekvok.Archive.Codecs.{Codecs, VersionManifest}
use zekvok.Archive.Keys.{ArchiveKeys, get_key, get_iv, to_buffer, IsValid}
use zekvok.Archive.Writer.{
  FileQueueElement, new_writer, through_crypto, copied, digests, opened_all, add_files, serialized,
  add_base_objects, filled_in, add_version_manifest, create_and_save, process,
  archive_process_callback, is_initial, is_files_written, is_fsos_written, is_manifest_written,
}

-- The key and the vector of the file data, and those of the objects.
pub record KeyMaterial : Type 0 where
  pub key0 : List ℕ
  pub iv0 : List ℕ
  pub key1 : List ℕ
  pub iv1 : List ℕ

abbrev pub keys_of : KeyMaterial → ArchiveKeys
keys_of k = record { keys = k.key0 ∷ k.key1 ∷ []; ivs = k.iv0 ∷ k.iv1 ∷ [] }

abbrev pub HasSizes : Option KeyMaterial → Type 0
HasSizes none = Unit {0}
HasSizes (some k) = IsValid (keys_of k)

abbrev pub is_some : Option KeyMaterial → Bool
is_some none = false
is_some (some k) = true

module _ {Object : Type 0} (c : Codecs Object) (m : Option KeyMaterial) where
  open c use {compress, encrypt, rsa_encrypt, sha256, write_object, write_manifest}

  -- The parts of an archive.
  unfoldable pub header : List ℕ
  header = elim m [ none ↦ [] | some k ↦ rsa_encrypt (to_buffer (keys_of k).keys (keys_of k).ivs) ]

  unfoldable pub seal0 : List ℕ → List ℕ
  seal0 xs = elim m [ none ↦ xs | some k ↦ encrypt k.key0 k.iv0 xs ]

  unfoldable pub seal1 : List ℕ → List ℕ
  seal1 xs = elim m [ none ↦ xs | some k ↦ encrypt k.key1 k.iv1 xs ]

  unfoldable pub file_data : List FileQueueElement → List ℕ
  file_data files = seal0 (compress 1 (copied c files))

  unfoldable pub object_data : List Object → List ℕ
  object_data objects = seal1 (compress 8 (serialized c objects))

  unfoldable pub manifest_of :
      List FileQueueElement → List Object → VersionManifest → VersionManifest
  manifest_of files objects manifest = record manifest {
    archive_metadata = record {
      entries_size_in_archive = length (object_data objects);
      entry_sizes = map (λ o. length (write_object o)) objects;
      stream_ids = map (λ f. f.stream_id) files;
      stream_sizes = map (λ f. f.size) files;
    };
  }

  unfoldable pub body : List ℕ → List ℕ → VersionManifest → List ℕ
  body files objects manifest =
      let bytes = compress 8 (write_manifest manifest) in
      ((header ++ files) ++ objects) ++ (bytes ++ serialize_fixed_le_int 8 (length bytes))

  -- The archive that process() makes.
  unfoldable pub archive : List FileQueueElement → List Object → VersionManifest → List ℕ
  archive files objects manifest =
      let b = body (file_data files) (object_data objects) (manifest_of files objects manifest) in
      b ++ sha256 b

pub opened-cases : (r : Result (Unit {0})) → (r ≡ ok tt) ⊎ ((e : Exception) × (r ≡ throw e))
opened-cases (ok tt) = inl refl
opened-cases (throw e) = inr (e, refl)

module _ {Object : Type 0} (c : Codecs Object) where
  -- The writer's states follow one another, and the file is the parts in their order; or a file cannot be
  -- opened.
  pub written :
      (m : Option KeyMaterial) (files : List FileQueueElement)
      (objects : List (List ℕ) → List Object) (manifest : VersionManifest)
      → process c
          (Option.map keys_of m)
          (archive_process_callback c files objects manifest)
          new_writer
        ≡ (opened_all files >>= λ u. ok (archive c m files (objects (digests c files)) manifest))
  unfolding process archive_process_callback add_files add_base_objects add_version_manifest
      create_and_save through_crypto new_writer is_initial is_files_written is_fsos_written
      is_manifest_written filled_in archive body manifest_of file_data object_data seal0 seal1
      header get_key get_iv
  written none files objects manifest = elim (opened-cases (opened_all files)) [
    | inl e ↦ rw (e, process, add_files, archive_process_callback) refl
    | inr (x, e) ↦ rw (e, process, add_files, archive_process_callback) refl
  ]
  written (some k) files objects manifest = elim (opened-cases (opened_all files)) [
    | inl e ↦ rw (e, process, add_files, archive_process_callback) refl
    | inr (x, e) ↦ rw (e, process, add_files, archive_process_callback) refl
  ]
