-- ===== src/Archive/Tests.antt =====
-- The archive of two files and two objects under a stand-in for the codecs, for src/ArchiveIO.cpp.
use zekvok.Prelude.{
  ℕ, ◌≡◌, ◌↔◌, refl, ap, ap₂, ◌∙◌, sym, true, Option, none, some, List, [], ◌∷◌, ◌++◌, arith,
  length, take, drop, replicate, take-append, drop-append, length-append, length-replicate,
}
use zekvok.Exception.{ok, ◌>>=◌}
use zekvok.Archive.Codecs.{Codecs, VersionManifest}
use zekvok.Archive.Keys.{
  IsValid, keys_round_trip, get_key_past_the_end, get_key, past_the_end, from_buffer, to_buffer,
  key_count,
}
use zekvok.Backup.Versions.{pos, version_exists, lower_bound, below}
use zekvok.Archive.Part.{
  Reading, reads, new_part, read, access, check_skip, read_parts, read_everything,
}
use zekvok.Archive.Writer.{FileQueueElement, opened_all, digests, copied, serialized}
use zekvok.Archive.Reader.{
  new_reader, bytes_equal, read_manifest, read_base_objects, has_digest, verify,
}
use zekvok.Archive.Layout.{
  KeyMaterial, keys_of, header, file_data, object_data, manifest_of, seal0, seal1,
}
use zekvok.Archive.Complete.{
  Fits64, made, stored_manifest, process-verify, process-read_manifest, process-read_base_objects,
}

-- A list behind its length.
abbrev put : List ℕ → List ℕ → List ℕ
put xs rest = length xs ∷ (xs ++ rest)

abbrev got : List ℕ → List ℕ × List ℕ
got [] = ([], [])
got (n ∷ xs) = (take n xs, drop n xs)

got-put : (xs rest : List ℕ) → got (put xs rest) ≡ (xs, rest)
got-put xs rest =
    ap₂ {C = List ℕ × List ℕ} (λ a b. (a, b)) (take-append xs rest) (drop-append xs rest)

abbrev write : VersionManifest → List ℕ
write m =
    let md = m.archive_metadata in
    m.creation_time
    ∷ m.version_number
    ∷ m.entry_count
    ∷ m.first_stream_id
    ∷ m.next_stream_id
    ∷ m.first_differential_chain_id
    ∷ m.next_differential_chain_id
    ∷ md.entries_size_in_archive
    ∷ put m.version_dependencies (put md.entry_sizes (put md.stream_ids (put md.stream_sizes [])))

abbrev parse : List ℕ → Option VersionManifest
parse (a ∷ b ∷ c ∷ d ∷ e ∷ f ∷ g ∷ h ∷ lists) =
    let (deps, lists1) = got lists in
    let (entries, lists2) = got lists1 in
    let (ids, lists3) = got lists2 in
    some (record {
      creation_time = a;
      version_number = b;
      version_dependencies = deps;
      entry_count = c;
      first_stream_id = d;
      next_stream_id = e;
      first_differential_chain_id = f;
      next_differential_chain_id = g;
      archive_metadata = record {
        entries_size_in_archive = h;
        entry_sizes = entries;
        stream_ids = ids;
        stream_sizes = (got lists3).0;
      };
    })
parse _ = none

parse-write : (m : VersionManifest) → parse (write m) ≡ some m
parse-write m =
    let md = m.archive_metadata in
    rw
      (
        take-append m.version_dependencies
            (put md.entry_sizes (put md.stream_ids (put md.stream_sizes []))),
        drop-append m.version_dependencies
            (put md.entry_sizes (put md.stream_ids (put md.stream_sizes []))),
        take-append md.entry_sizes (put md.stream_ids (put md.stream_sizes [])),
        drop-append md.entry_sizes (put md.stream_ids (put md.stream_sizes [])),
        take-append md.stream_ids (put md.stream_sizes []),
        drop-append md.stream_ids (put md.stream_sizes []),
        take-append md.stream_sizes [],
      )
      refl

-- Objects are numbers.
abbrev plain : Codecs ℕ
plain = record {
  compress = λ level xs. level ∷ xs;
  decompress = λ xs. elim xs [ [] ↦ none | level ∷ ys ↦ some ys ];
  encrypt = λ key iv xs. xs;
  decrypt = λ key iv xs. some xs;
  rsa_encrypt = λ xs. xs ++ replicate 416 0;
  rsa_decrypt = λ xs. some (take 96 xs);
  sha256 = λ xs. replicate 32 (length xs);
  write_object = λ o. o ∷ [];
  read_object = λ xs. elim xs [ [] ↦ none | o ∷ ys ↦ some o ];
  write_manifest = write;
  read_manifest = parse;
  decompress-compress = λ level xs. refl;
  decrypt-encrypt = λ key iv xs. refl;
  rsa_decrypt-rsa_encrypt =
      λ xs e. ap some (ap (λ k. take k (xs ++ replicate 416 0)) (sym e) ∙ take-append xs _);
  length-rsa_encrypt =
      λ xs e. omega (arith, length-append xs (replicate 416 0), length-replicate {A = ℕ} 416 0);
  length-sha256 = λ xs. length-replicate 32 (length xs);
  read-write_object = λ o. refl;
  read-write_manifest = parse-write;
}

abbrev material : KeyMaterial
material = record {
  key0 = replicate 32 1;
  iv0 = replicate 16 2;
  key1 = replicate 32 3;
  iv1 = replicate 16 4;
}

material-IsValid : IsValid (keys_of material)
material-IsValid = record {
  key_number = refl;
  iv_number = refl;
  key_sizes = (refl, (refl, tt));
  iv_sizes = (refl, (refl, tt));
}

abbrev two_files : List FileQueueElement
two_files =
    record { failure = none; stream_id = 7; size = 2; content = 20 ∷ 21 ∷ [] }
    ∷ record { failure = none; stream_id = 8; size = 0; content = [] }
    ∷ []

abbrev two_objects : List (List ℕ) → List ℕ
two_objects hashes = 100 ∷ length hashes ∷ []

abbrev some_manifest : VersionManifest
some_manifest = record {
  creation_time = 1;
  version_number = 0;
  version_dependencies = [];
  entry_count = 2;
  first_stream_id = 9;
  next_stream_id = 9;
  first_differential_chain_id = 0;
  next_differential_chain_id = 0;
  archive_metadata = record {
    entries_size_in_archive = 0;
    entry_sizes = [];
    stream_ids = [];
    stream_sizes = [];
  };
}

fits : Fits64 plain (some material) two_files two_objects some_manifest
unfolding opened_all header file_data object_data manifest_of seal0 seal1 digests copied serialized
    to_buffer
fits = record { opens = refl; small = omega arith; offsets = omega arith; sized = material-IsValid }

keys_round_trip_example :
    from_buffer key_count (to_buffer (keys_of material).keys (keys_of material).ivs)
    ≡ keys_of material
keys_round_trip_example = keys_round_trip (keys_of material) material-IsValid

get_key_past_the_end_example : (get_key (keys_of material) 2 ≡ past_the_end) ↔ (2 ≡ key_count)
get_key_past_the_end_example = get_key_past_the_end (keys_of material) 2 material-IsValid

-- A source that is left after one byte, with nothing lost.
abbrev one_byte : Reading
one_byte = record { wanted = 1; ahead = 0; lost = 0 }

-- A source that is read to its end.
abbrev whole : Reading
whole = record { wanted = 5; ahead = 0; lost = 9 }

-- A source that was stopped with a segment of one byte that it could not push: the next part is read from
-- its second byte.
abbrev losing : Reading
losing = record { wanted = 1; ahead = 0; lost = 1 }

misaligned :
    read_everything
      ((1, 3) ∷ (2, 2) ∷ [])
      (10 ∷ 11 ∷ 12 ∷ 20 ∷ 21 ∷ [])
      (reads losing ∷ reads whole ∷ [])
    ≡ some (10 ∷ []) ∷ some (21 ∷ []) ∷ []
unfolding read_everything read_parts access read check_skip new_part
misaligned = refl

accepts : verify plain (0 ∷ []) (pos 0) (some (replicate 32 0)) ≡ true
unfolding verify has_digest bytes_equal version_exists lower_bound below
accepts = refl

process-verify_example :
    (made plain (some material) two_files two_objects some_manifest >>= λ bytes.
    ok (verify plain (3 ∷ []) (pos 0) (some bytes)))
    ≡ ok true
unfolding opened_all version_exists lower_bound below
process-verify_example =
    process-verify plain (some material) two_files two_objects some_manifest (3 ∷ []) (pos 0)

process-read_manifest_example :
    (made plain (some material) two_files two_objects some_manifest >>= λ bytes.
    read_manifest plain (new_reader bytes true) >>= λ r. ok r.0)
    ≡ ok (stored_manifest plain (some material) two_files two_objects some_manifest)
process-read_manifest_example =
    process-read_manifest plain (some material) two_files two_objects some_manifest fits

process-read_base_objects_example :
    (made plain (some material) two_files two_objects some_manifest >>= λ bytes.
    read_base_objects plain (new_reader bytes true))
    ≡ ok (two_objects (digests plain two_files))
process-read_base_objects_example =
    process-read_base_objects plain (some material) two_files two_objects some_manifest fits
