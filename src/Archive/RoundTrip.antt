-- ===== src/Archive/RoundTrip.antt =====
-- What ArchiveWriter of src/ArchiveIO.cpp writes, its ArchiveReader reads back.
use zekvok.Prelude.{
  ℕ, ◌+◌, ◌-◌, ◌%◌, ◌^◌, ◌<◌, ◌≡◌, refl, ap, ap₂, ◌∙◌, sym, Option, some, List, ◌++◌, append_assoc,
  map, arith, length, take, drop, take-append, drop-append, length-append, if◌then◌else◌,
}
use zekvok.Exception.{Result, ok}
use zekvok.Archive.Codecs.{Codecs, VersionManifest}
use zekvok.Archive.Part.{AreKept, Access, read_everything-views, views, joined, sizes}
use zekvok.Archive.Writer.{serialized}
use zekvok.Archive.Reader.{
  ArchiveReader, new_reader, zip_sizes, read_manifest, with_manifest, through_decryption,
  read_base_objects, read_files, region,
}
use zekvok.Archive.Layout.{KeyMaterial, HasSizes, is_some, header, seal0, seal1, body}
use zekvok.Archive.Trailer.{len_bytes, whole, manifest_at, find_manifest-whole}
use zekvok.Archive.Opened.{parse_serialized, Fits, length-header, header-Fits, opened0, opened1}

module _ {Object : Type 0} (c : Codecs Object) where
  open c use {
    compress, decompress, sha256, write_object, write_manifest, rsa_encrypt, rsa_decrypt,
    decompress-compress, read-write_object, read-write_manifest, length-sha256,
    rsa_decrypt-rsa_encrypt, decrypt-encrypt, length-rsa_encrypt,
  }

  module _ (m : Option KeyMaterial) (F O : List ℕ) (man : VersionManifest)
      (small : length (compress 8 (write_manifest man)) < 256 ^ 8)
      (offsets : length ((header c m ++ F) ++ O) < 2 ^ 64)
      (entries : man.archive_metadata.entries_size_in_archive ≡ length O) (sized : HasSizes m) where
    abbrev pub before : List ℕ
    before = (header c m ++ F) ++ O

    abbrev pub packed : List ℕ
    packed = compress 8 (write_manifest man)

    abbrev pub file : List ℕ
    file = whole before packed (sha256 (body c m F O man)) (is_some m) small (length-sha256 _)

    pub file-body : file ≡ body c m F O man ++ sha256 (body c m F O man)
    unfolding whole body len_bytes
    file-body = refl

    -- The reader after the manifest was read.
    abbrev pub found : ArchiveReader
    found = record (new_reader file (is_some m)) {
      manifest_offset = some (length before);
      manifest_size = length packed;
      base_objects_offset = length (header c m ++ F);
      version_manifest = some man;
      stream_ids = man.archive_metadata.stream_ids;
      stream_sizes = man.archive_metadata.stream_sizes;
    }

    pub manifest_read : read_manifest c (new_reader file (is_some m)) ≡ ok (man, found)
    unfolding read_manifest
    manifest_read =
        rw
          (find_manifest-whole before packed (sha256 (body c m F O man)) (is_some m) small
            (length-sha256 _))
          (unfold new_reader in
            rw
              (
                manifest_at before packed (sha256 (body c m F O man)) (is_some m) small
                    (length-sha256 _),
                decompress-compress 8 (write_manifest man),
                read-write_manifest man,
              )
              (ap {B = Result (VersionManifest × ArchiveReader)}
                (λ k. ok (man, record found { base_objects_offset = k })) base_offset))
      where
        base_offset :
            (length before + 2 ^ 64 - man.archive_metadata.entries_size_in_archive) % 2 ^ 64
            ≡ length (header c m ++ F)
        base_offset = omega (arith, offsets, entries, length-append (header c m ++ F) O)

    tail : List ℕ
    tail =
        (packed
          ++ len_bytes before packed (sha256 (body c m F O man)) (is_some m) small
              (length-sha256 _))
        ++ sha256 (body c m F O man)

    file-parts : file ≡ header c m ++ (F ++ (O ++ tail))
    unfolding tail whole
    file-parts =
        append_assoc before _ (sha256 (body c m F O man))
        ∙ append_assoc (header c m ++ F) O tail
        ∙ append_assoc (header c m) F (O ++ tail)

    object_region : region file (length (header c m ++ F)) (length before) ≡ O
    object_region =
        ap₂ (λ k xs. take k (drop (length (header c m ++ F)) xs))
          (let e : length before - length (header c m ++ F) ≡ length O =
              omega (arith, length-append (header c m ++ F) O) in
            e)
          (file-parts ∙ sym (append_assoc (header c m) F (O ++ tail)))
        ∙ ap (take (length O)) (drop-append (header c m ++ F) (O ++ tail))
        ∙ take-append O tail

    file_region : region file (length (header c m)) (length (header c m ++ F)) ≡ F
    file_region =
        ap₂ (λ k xs. take k (drop (length (header c m)) xs))
          (let e : length (header c m ++ F) - length (header c m) ≡ length F =
              omega (arith, length-append (header c m) F) in
            e)
          file-parts
        ∙ ap (take (length F)) (drop-append (header c m) (F ++ (O ++ tail)))
        ∙ take-append F (O ++ tail)

    found-Fits : Fits c m found
    unfolding new_reader
    found-Fits = header-Fits c m found refl sized (
        ap₂ take (sym (length-header c m sized)) file-parts
        ∙ take-append (header c m) (F ++ (O ++ tail)))

    with_read : with_manifest c (new_reader file (is_some m)) ≡ ok (man, found)
    unfolding with_manifest new_reader
    with_read = manifest_read

    pub objects_read :
        (objects : List Object)
        → O ≡ seal1 c m (compress 8 (serialized c objects))
        → man.archive_metadata.entry_sizes ≡ map (λ o. length (write_object o)) objects
        → read_base_objects c (new_reader file (is_some m)) ≡ ok objects
    unfolding read_base_objects new_reader
    objects_read objects sealed entry_sizes = rw with_read (
        rw (opened, decompress-compress 8 (serialized c objects), entry_sizes)
          (parse_serialized c objects))
      where
        opened :
            through_decryption c found 1 (region file (length (header c m ++ F)) (length before))
            ≡ ok (compress 8 (serialized c objects))
        opened =
            ap (through_decryption c found 1) (object_region ∙ sealed)
            ∙ opened1 c m found (compress 8 (serialized c objects)) found-Fits

    pub files_read :
        (streams : List (ℕ × List ℕ)) (uses : List Access)
        → F ≡ seal0 c m (compress 1 (joined streams))
        → zip_sizes man.archive_metadata.stream_ids man.archive_metadata.stream_sizes
          ≡ ok (sizes streams)
        → AreKept streams uses
        → read_files c (new_reader file (is_some m)) uses ≡ ok (views streams uses)
    unfolding read_files new_reader
    files_read streams uses sealed zipped kept = rw with_read (
        rw (opened, decompress-compress 1 (joined streams), zipped)
          (ap ok (read_everything-views streams uses kept)))
      where
        opened :
            through_decryption c found 0
              (region file (if is_some m then 512 else 0) (length (header c m ++ F)))
            ≡ ok (compress 1 (joined streams))
        opened =
            ap (through_decryption c found 0) (
              ap (λ k. region file k (length (header c m ++ F))) (sym (length-header c m sized))
              ∙ file_region
              ∙ sealed)
            ∙ opened0 c m found (compress 1 (joined streams)) found-Fits
