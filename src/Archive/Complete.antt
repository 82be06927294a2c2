-- ===== src/Archive/Complete.antt =====
-- process() of src/ArchiveIO.cpp, followed by the calls of an ArchiveReader on the file it made and
-- by BackupSystem::verify of src/BackupSystem.cpp.
use mathlib.Core.Option
use zekvok.Prelude.{
  ℕ, ◌-◌, ◌^◌, ◌<◌, ◌≡◌, refl, ap, ap₂, ◌∙◌, sym, true, false, Option, some, List, [], ◌∷◌, ◌++◌,
  map, arith, length, take, drop, take-append, drop-append, length-append, ◌==◌, ltb, Bool-cases,
  inl, inr, take-append-drop, ==_iff,
}
use zekvok.Exception.{Result, ok, ◌>>=◌}
use zekvok.Archive.Codecs.{Codecs, VersionManifest}
use zekvok.Backup.Versions.{ℤ, version_exists}
use zekvok.Archive.Writer.{
  FileQueueElement, new_writer, opened_all, digests, process, archive_process_callback,
}
use zekvok.Archive.Reader.{
  new_reader, bytes_equal, read_manifest, read_base_objects, has_digest, verify,
}
use zekvok.Archive.Layout.{
  KeyMaterial, keys_of, HasSizes, is_some, header, file_data, object_data, manifest_of, archive,
  opened-cases, written,
}
use zekvok.Archive.RoundTrip.{file, file-body, manifest_read, objects_read}

abbrev pub streams_of : List FileQueueElement → List (ℕ × List ℕ)
streams_of [] = []
streams_of (f ∷ fs) = (f.stream_id, f.content) ∷ streams_of fs

-- The files have the sizes that the file system reported.
abbrev pub Whole : List FileQueueElement → Type 0
Whole [] = Unit {0}
Whole (f ∷ fs) = (length f.content ≡ f.size) × Whole fs

pub bytes_equal_refl : (xs : List ℕ) → bytes_equal xs xs ≡ true
unfolding bytes_equal
bytes_equal_refl [] = refl
bytes_equal_refl (x ∷ xs) = let rest = bytes_equal_refl xs in ground (arith, rest)

pub bytes_equal_sound : (xs ys : List ℕ) → bytes_equal xs ys ≡ true → xs ≡ ys
unfolding bytes_equal
bytes_equal_sound [] [] e = refl
bytes_equal_sound [] (y ∷ ys) e = absurd (cc)
bytes_equal_sound (x ∷ xs) [] e = absurd (cc)
bytes_equal_sound (x ∷ xs) (y ∷ ys) e = elim (Bool-cases (x == y)) [
  | inl same ↦ ap₂ ◌∷◌ ((==_iff x y).0 same) (bytes_equal_sound xs ys (ground (arith, same, e)))
  | inr other ↦ absurd (ground (arith, other, e))
]

module _ {Object : Type 0} (c : Codecs Object) where
  open c use {sha256, compress, write_manifest, write_object, length-sha256}

  digest_found :
      (bytes : List ℕ) → has_digest c bytes ≡ true → (b : List ℕ) × (bytes ≡ b ++ sha256 b)
  unfolding has_digest
  digest_found bytes e = elim (Bool-cases (ltb (length bytes) 32)) [
    | inl short ↦ absurd (ground (arith, short, e))
    | inr long ↦
        let digest = bytes_equal_sound (sha256 start) end (ground (arith, long, e)) in
        (start, sym (take-append-drop (length bytes - 32) bytes) ∙ ap (◌++◌ start) (sym digest))
  ]
    where
      start : List ℕ
      start = take (length bytes - 32) bytes

      end : List ℕ
      end = drop (length bytes - 32) bytes

  -- A file that verify accepts is what stands before its digest, followed by the digest.
  verify-digest :
      (versions : List ℕ) (version : ℤ) (bytes : List ℕ)
      → verify c versions version (some bytes) ≡ true
      → (b : List ℕ) × (bytes ≡ b ++ sha256 b)
  unfolding verify
  verify-digest versions version bytes e = elim (Bool-cases (version_exists versions version)) [
    | inl there ↦ digest_found bytes (ground (arith, there, e))
    | inr missing ↦ absurd (ground (arith, missing, e))
  ]

  accepted : (b : List ℕ) → has_digest c (b ++ sha256 b) ≡ true
  unfolding has_digest
  accepted b =
      rw (long_enough, start, take-append b (sha256 b), drop-append b (sha256 b))
        (bytes_equal_refl (sha256 b))
    where
      start : length (b ++ sha256 b) - 32 ≡ length b
      start = omega (arith, length-append b (sha256 b), length-sha256 b)

      long_enough : ltb (length (b ++ sha256 b)) 32 ≡ false
      long_enough = ground (arith, length-append b (sha256 b), length-sha256 b)

  verified :
      (versions : List ℕ) (version : ℤ) (b : List ℕ)
      → verify c versions version (some (b ++ sha256 b)) ≡ version_exists versions version
  unfolding verify
  verified versions version b = elim (Bool-cases (version_exists versions version)) [
    | inl there ↦ rw there (accepted b)
    | inr missing ↦ rw missing refl
  ]

  module _ (m : Option KeyMaterial) (files : List FileQueueElement)
      (objects : List (List ℕ) → List Object) (manifest : VersionManifest) where
    -- The objects that process() serializes: with the digests of the files.
    abbrev pub hashed : List Object
    hashed = objects (digests c files)

    abbrev pub stored_manifest : VersionManifest
    stored_manifest = manifest_of c m files hashed manifest

    abbrev pub made : Result (List ℕ)
    made =
        process c (Option.map keys_of m) (archive_process_callback c files objects manifest)
          new_writer

    -- The files can be opened, and the archive is one that the format can describe.
    pub record Fits64 : Type 0 where
      pub opens : opened_all files ≡ ok tt
      pub small : length (compress 8 (write_manifest stored_manifest)) < 256 ^ 8
      pub offsets : length ((header c m ++ file_data c m files) ++ object_data c m hashed) < 2 ^ 64
      pub sized : HasSizes m

    -- process() makes a file exactly when all the files of its queue can be opened, whatever the objects and
    -- the manifest, and throws what the first that cannot be opened throws; and verify accepts the file
    -- that it makes for a version exactly when version_exists does.
    pub process-verify :
        (versions : List ℕ) (version : ℤ)
        → (made >>= λ bytes. ok (verify c versions version (some bytes)))
          ≡ (opened_all files >>= λ u. ok (version_exists versions version))
    unfolding archive
    process-verify versions version =
        ap (λ r. r >>= λ bytes. ok (verify c versions version (some bytes)))
          (written c m files objects manifest)
        ∙ elim (opened-cases (opened_all files)) [
          | inl e ↦ rw e (ap ok (verified versions version _))
          | inr (x, e) ↦ rw e refl
        ]

    entries :
        stored_manifest.archive_metadata.entries_size_in_archive ≡ length (object_data c m hashed)
    unfolding manifest_of
    entries = refl

    entry_sizes :
        stored_manifest.archive_metadata.entry_sizes ≡ map (λ o. length (write_object o)) hashed
    unfolding manifest_of
    entry_sizes = refl

    module _ (fits : Fits64) where
      as_file :
          made
          ≡ ok (
              file c m
                (file_data c m files)
                (object_data c m hashed)
                stored_manifest
                fits.small
                fits.offsets
                entries
                fits.sized)
      unfolding archive
      as_file =
          written c m files objects manifest
          ∙ ap (λ (r : Result (Unit {0})). r >>= λ u. ok (archive c m files hashed manifest))
              fits.opens
          ∙ ap ok (
              sym (
                file-body c m (file_data c m files) (object_data c m hashed) stored_manifest
                  fits.small fits.offsets entries fits.sized))

      -- An archive of files that can be opened that the format can describe: its manifest is found from the end of the file and
      -- read back, with what the writer filled in.
      pub process-read_manifest :
          (made >>= λ bytes. read_manifest c (new_reader bytes (is_some m)) >>= λ r. ok r.0)
          ≡ ok stored_manifest
      process-read_manifest = rw as_file (
          rw
            (manifest_read c m (file_data c m files) (object_data c m hashed) stored_manifest
              fits.small fits.offsets entries fits.sized)
            refl)

      -- An archive of files that can be opened that the format can describe, with or without keys: the objects that were
      -- serialized are read back, in their order.
      pub process-read_base_objects :
          (made >>= λ bytes. read_base_objects c (new_reader bytes (is_some m))) ≡ ok hashed
      unfolding object_data
      process-read_base_objects = rw as_file (
          objects_read c m (file_data c m files) (object_data c m hashed) stored_manifest fits.small
            fits.offsets entries fits.sized hashed refl entry_sizes)
