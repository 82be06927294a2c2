-- ===== src/Objects/Restore.antt =====
-- restore() of the classes of src/serialization/FileSystemObject.cpp, VersionForRestore::restore and the
-- first loop of BackupSystem::restore_backup: what a restore makes at once and what it leaves for later.
pub mod Deferred
use zekvok.Prelude.{
  ℕ, ◌≡◌, Bool, true, false, Option, none, some, List, [], ◌∷◌, ◌++◌, reverse, if◌then◌else◌,
}
use zekvok.Exception.{Result, ok, throw, ◌>>=◌, incorrect_implementation}
use zekvok.Objects.Tree.{
  Name, Entry, Childless, regular_file_fso, directory_symlink_fso, junction_fso, file_symlink_fso,
  file_reparse_point_fso, file_hardlink_fso, Fso, directory_fso, childless_fso, entry,
  path_override_base,
}
use zekvok.Objects.Found.{named}

-- The calls of the file system.
pub data DiskCall : Type 0 where
  remove_all create_directory : List Name → DiskCall
  create_directory_symlink create_junction create_symlink : List Name → Name → DiskCall
  create_file_reparse_point create_hardlink : List Name → Name → DiskCall

unfoldable pub get_stream_required : Fso → Bool
get_stream_required (directory_fso e cs) = false
get_stream_required (childless_fso k e) = elim k [
  | regular_file_fso ↦ true
  | file_hardlink_fso ↦ true
  | _ ↦ false
]

-- A call with the target of the link, which the code reads without a test.
abbrev pub with_target : (Name → DiskCall) → Option Name → Result DiskCall
with_target call none = throw incorrect_implementation
with_target call (some target) = ok (call target)

unfoldable pub restore_internal : List Name → Fso → Result DiskCall
restore_internal path (directory_fso e cs) = ok (create_directory path)
restore_internal path (childless_fso k e) = elim k [
  | directory_symlink_fso ↦ with_target (create_directory_symlink path) e.link_target
  | junction_fso ↦ with_target (create_junction path) e.link_target
  | file_symlink_fso ↦ with_target (create_symlink path) e.link_target
  | file_reparse_point_fso ↦ with_target (create_file_reparse_point path) e.link_target
  | _ ↦ throw incorrect_implementation
]

-- FileSystemObject::restore; `none` for false, of an object that needs a stream.
unfoldable pub restore_plain : List Name → Fso → Result (Option DiskCall)
unfolding get_stream_required restore_internal
restore_plain path o =
    if get_stream_required o then ok none else do call ← restore_internal path o; ok (some call)

-- FileHardlinkFso::restore
unfoldable pub restore_hardlink : List Name → Entry → Result (Option DiskCall)
restore_hardlink path e = elim e.link_target [
  | none ↦ ok none
  | some target ↦ ok (some (create_hardlink path target))
]

-- restore() of an object's class.
unfoldable pub restore : List Name → Fso → Result (Option DiskCall)
unfolding restore_plain restore_hardlink
restore path (directory_fso e cs) = restore_plain path (directory_fso e cs)
restore path (childless_fso file_hardlink_fso e) = restore_hardlink path e
restore path (childless_fso k e) = restore_plain path (childless_fso k e)

-- VersionForRestore::restore: the calls that were made and the objects that are left, with one more.
abbrev pub deferred : Option DiskCall → Fso → List DiskCall × List Fso → List DiskCall × List Fso
deferred (some call) o (calls, later) = (call ∷ calls, later)
deferred none o (calls, later) = elim (entry o).latest_version [
  | some v ↦ (calls, o ∷ later)
  | none ↦ (calls, later)
]

-- The loop over the objects of a tree, with their names from the root on.
unfoldable pub restore_each :
    Option (List Name) → List (List Name × Fso) → Result (List DiskCall × List Fso)
restore_each base [] = ok ([], [])
restore_each base ((names, o) ∷ objects) =
    let rest = restore_each base objects in
    do
      call ← restore (path_override_base base (reverse names)) o
      done ← rest
      ok (deferred call o done)

-- One turn of restore_backup's loop: what the path of the root names is deleted first.
unfoldable pub restore_tree : Option (List Name) → Fso → Result (List DiskCall × List Fso)
restore_tree base o = do
  (calls, later) ← restore_each base (named o)
  ok (remove_all (path_override_base base ((entry o).name ∷ [])) ∷ calls, later)
