-- ===== src/Backup/ChoiceTests.antt =====
-- Runs of the choice of modes, of the path mapper and of the dependencies of a version.
use zekvok.Prelude.{
  ℕ, ◌≡◌, ◌≢◌, ◌↔◌, ◌⊎◌, ◌<◌, ◌++◌, refl, false, Option, none, some, List, [], ◌∷◌, length, ◌+◌,
  ltb, if◌then◌else◌,
}
use zekvok.Line.System.{ignore_files}
use zekvok.Backup.Files.{Object, regular_file, full}
use zekvok.Backup.Streams.{Stream, full_stream, unmodified_stream}
use zekvok.Backup.Modes.{
  Ignored, is_name_ignored, is_extension_ignored, get_backup_mode_for_object,
  get_backup_mode_for_object-fault,
}
use zekvok.Backup.Paths.{map_path, Matches, AtMost, map_path-longest}
use zekvok.Backup.Dependencies.{
  version_dependencies, mem, any_needs, Ascending, version_dependencies-Ascending,
}

abbrev lower : ℕ → ℕ
lower c = if ltb c 91 then c + 32 else c

abbrev no_extension : List ℕ → List ℕ
no_extension name = []

abbrev one_path : Ignored
one_path = record {
  names = (b'a' ∷ [], ignore_files) ∷ [];
  extensions = [];
  paths = (b'C' ∷ []) ∷ [];
}

get_backup_mode_for_object-fault_example :
    (get_backup_mode_for_object lower no_extension one_path false (b'b' ∷ []) none ≡ none) ↔ (
      (is_name_ignored lower no_extension one_path false (b'b' ∷ []) ≡ false)
      × (is_extension_ignored lower no_extension one_path false (b'b' ∷ []) ≡ false)
      × (◌≡◌ {A = Option (List ℕ)} none none)
      × (one_path.paths ≢ []))
get_backup_mode_for_object-fault_example =
    get_backup_mode_for_object-fault lower no_extension one_path false (b'b' ∷ []) none

-- A pattern is a prefix of one or two characters.
abbrev starts : ℕ → List ℕ → Option (List ℕ × List ℕ)
starts n [] = none
starts n (x ∷ []) = some (x ∷ [], [])
starts n (x ∷ y ∷ rest) = if ltb n 2 then some (x ∷ [], y ∷ rest) else some (x ∷ y ∷ [], rest)

abbrev two_entries : List (ℕ × List ℕ)
two_entries = (1, b'X' ∷ []) ∷ (2, b'Y' ∷ []) ∷ []

maps_by_the_longer : map_path starts (b'C' ∷ b':' ∷ b'd' ∷ []) two_entries ≡ b'Y' ∷ b'd' ∷ []
unfolding map_path
maps_by_the_longer = refl

map_path-longest_example :
    ((map_path starts (b'C' ∷ b':' ∷ b'd' ∷ []) two_entries ≡ b'C' ∷ b':' ∷ b'd' ∷ [])
      × AtMost starts 0 (b'C' ∷ b':' ∷ b'd' ∷ []) two_entries)
    ⊎ ((m : Matches starts (b'C' ∷ b':' ∷ b'd' ∷ []) two_entries) × (0 < length m.first)
        × (map_path starts (b'C' ∷ b':' ∷ b'd' ∷ []) two_entries ≡ m.replacement ++ m.second)
        × AtMost starts (length m.first) (b'C' ∷ b':' ∷ b'd' ∷ []) two_entries)
map_path-longest_example = map_path-longest starts (b'C' ∷ b':' ∷ b'd' ∷ []) two_entries

abbrev file_of : Option ℕ → Option ℕ → Object
file_of version stream = record {
  name = 0;
  object_type = regular_file;
  backup_mode = full;
  file_system_guid = record { valid = false; guid = 0 };
  size = 1;
  modification_time = 0;
  archive_flag = false;
  hash = none;
  on_disk = none;
  latest_version = version;
  stream_id = 0;
  backup_stream = stream;
}

abbrev two_streams : List Stream
two_streams =
    record { unique_id = 0; contents = full_stream 1 1; file_system_objects = [] }
    ∷ record { unique_id = 1; contents = unmodified_stream (some 1) 1; file_system_objects = [] }
    ∷ []

abbrev four_files : List Object
four_files =
    file_of (some 4) none
    ∷ file_of (some 7) (some 0)
    ∷ file_of (some 7) (some 1)
    ∷ file_of none none
    ∷ []

-- One higher than the versions 1 and 4.
needs_two : version_dependencies two_streams four_files [] ≡ 2 ∷ 5 ∷ []
unfolding version_dependencies
needs_two = refl

version_dependencies-Ascending_example :
    ((w : ℕ)
      → mem w (version_dependencies two_streams four_files []) ≡ any_needs two_streams four_files w)
    × Ascending (version_dependencies two_streams four_files [])
version_dependencies-Ascending_example = version_dependencies-Ascending two_streams four_files
