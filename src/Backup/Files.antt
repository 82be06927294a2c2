-- ===== src/Backup/Files.antt =====
-- The file system objects that src/BackupSystem.cpp decides on, and the changes it looks for; with
-- the enumerations of src/SimpleTypes.h.
use zekvok.Prelude.{
  ℕ, ◌*◌, Bool, true, false, not, Option, none, some, List, [], ◌∷◌, ltb, ◌==◌, if◌then◌else◌,
}
use zekvok.Archive.Reader.{bytes_equal}

pub data ChangeCriterium : Type 0 where
  archive_flag size date hash hash_auto : ChangeCriterium

pub data BackupMode : Type 0 where
  no_backup directory_mode force_full full unmodified rsync : BackupMode

pub data FileSystemObjectType : Type 0 where
  directory regular_file directory_symlink junction file_symlink file_reparse_point file_hardlink :
      FileSystemObjectType

-- Guid; `guid` is its data.
pub record Guid : Type 0 where
  pub valid : Bool
  pub guid : ℕ

-- `hash` is `none` while it is invalid, `on_disk` the digest of the file's contents, if it can be
-- opened, and a version or a stream is `none` where the source has -1 or a null pointer.
pub record Object : Type 0 where
  pub name : ℕ
  pub object_type : FileSystemObjectType
  pub backup_mode : BackupMode
  pub file_system_guid : Guid
  pub size : ℕ
  pub modification_time : ℕ
  pub archive_flag : Bool
  pub hash : Option (List ℕ)
  pub on_disk : Option (List ℕ)
  pub latest_version : Option ℕ
  pub stream_id : ℕ
  pub backup_stream : Option ℕ

abbrev pub is_directoryish : FileSystemObjectType → Bool
is_directoryish directory = true
is_directoryish directory_symlink = true
is_directoryish junction = true
is_directoryish _ = false

abbrev pub is_hardlink : FileSystemObjectType → Bool
is_hardlink file_hardlink = true
is_hardlink _ = false

abbrev pub is_no_backup : BackupMode → Bool
is_no_backup no_backup = true
is_no_backup _ = false

-- FilishFso::compute_hash
unfoldable pub compute_hash : Object → Bool × Object
compute_hash o = elim o.hash [
  | some digest ↦ (true, o)
  | none ↦ elim o.on_disk [
    | none ↦ (false, o)
    | some digest ↦ (true, record o { hash = some digest })
  ]
]

abbrev pub is_digest : Option (List ℕ) → List ℕ → Bool
is_digest none old = false
is_digest (some digest) old = bytes_equal digest old

-- compare_hashes: whether the files pass for the same.
unfoldable pub compare_hashes : Object → Object → Bool × Object
compare_hashes new_file old_file = elim old_file.hash [
  | none ↦ (true, new_file)
  | some old ↦
      let (computed, new) = compute_hash new_file in
      if not computed then (true, new) else (is_digest new.hash old, new)
]

-- get_change_criterium, for a system that is set to `criterium`.
unfoldable pub get_change_criterium : ChangeCriterium → Object → ChangeCriterium
get_change_criterium hash_auto o = if ltb o.size (1024 * 1024) then hash else date
get_change_criterium criterium o = criterium

-- The switch of file_has_changed.
unfoldable pub differs : ChangeCriterium → Object → Object → Bool × Object
differs archive_flag new_file old_file = (new_file.archive_flag, new_file)
differs size new_file old_file = (not (new_file.size == old_file.size), new_file)
differs date new_file old_file =
    (not (new_file.modification_time == old_file.modification_time), new_file)
differs hash new_file old_file =
    let (same, new) = compare_hashes new_file old_file in (not same, new)
differs hash_auto new_file old_file = (true, new_file)

-- The loop over the old objects; `finds` are the results of their find.
unfoldable pub find_old : List (Option Object) → Option Object
find_old [] = none
find_old (none ∷ finds) = find_old finds
find_old (some o ∷ finds) =
    let rest = find_old finds in if is_directoryish o.object_type then rest else some o

-- What an unchanged file takes over from the old one.
unfoldable pub take_over : Object → Object → Object
take_over new_file old_file = record new_file {
  hash = elim old_file.hash [ none ↦ new_file.hash | some digest ↦ some digest ];
  latest_version = old_file.latest_version;
  stream_id = old_file.stream_id;
}

-- file_has_changed: the verdict, the version that the source stores in `dst`, and the new file.
unfoldable pub file_has_changed :
    ChangeCriterium → List (Option Object) → Object → Bool × Option ℕ × Object
file_has_changed criterium finds new_file = elim (find_old finds) [
  | none ↦ (true, none, (compute_hash new_file).1)
  | some old_file ↦
      let (changed, new) = differs (get_change_criterium criterium new_file) new_file old_file in
      if changed
      then (true, none, new)
      else (false, old_file.latest_version, take_over new old_file)
]
