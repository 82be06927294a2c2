-- ===== src/Backup/Restore.antt =====
-- restore_thread of src/BackupSystem.cpp for one version: the parts of the version's archive, in
-- their order, against the files to restore from it.
use zekvok.Prelude.{
  ℕ, ◌≤◌, ◌<◌, ◌≡◌, Bool, true, false, not, Option, none, some, List, [], ◌∷◌, ◌++◌, ltb, ◌==◌,
  if◌then◌else◌, ◌⊎◌,
}
use zekvok.Backup.Files.{FileSystemObjectType, regular_file, file_hardlink}
use zekvok.Exception.{Result, ok, throw, ◌>>=◌, ◌>>◌, incorrect_implementation, zekvok_assert}

-- What the restoring code reads of a FileSystemObject.
pub record Fso : Type 0 where
  pub object_type : FileSystemObjectType
  pub unmapped_path : ℕ
  pub mapped_path : ℕ
  pub latest_version : ℕ
  pub stream_id : ℕ

-- What happens to a path: data is written to it, or it is made a hard link to a target.
pub data Action : Type 0 where
  restored : ℕ → List ℕ → Action
  linked : (path target : ℕ) → Action

-- An ArchivePart: the id of its stream, and the stream.
abbrev pub Part : Type 0
Part = ℕ × List ℕ

-- restore(stream), of the classes that have it, to a path that can be written; to the others, it is an
-- error.
unfoldable pub restore_stream : Fso → List ℕ → Result Action
restore_stream f content = elim f.object_type [
  | regular_file ↦ ok (restored f.unmapped_path content)
  | file_hardlink ↦ ok (restored f.unmapped_path content)
  | _ ↦ throw incorrect_implementation
]

-- set_link_target and restore() of an object of the same stream: a hard link is made, a regular file
-- wants a stream and does nothing. No object of another class comes here; the code's cast of one to a
-- hard link has no defined result.
unfoldable pub relink : Fso → Fso → Result (List Action)
relink fso f = elim f.object_type [
  | file_hardlink ↦ ok (linked f.unmapped_path fso.mapped_path ∷ [])
  | regular_file ↦ ok []
  | _ ↦ throw incorrect_implementation
]

-- The inner for loop: links for the files of the same stream, and the files behind them.
unfoldable pub link_files : Fso → List Fso → Result (List Action × List Fso)
unfolding relink
link_files fso [] = ok ([], [])
link_files fso (f ∷ files) =
    let rest = link_files fso files in
    if f.stream_id == fso.stream_id
    then (do made ← relink fso f; links ← rest; ok (made ++ links.0, links.1))
    else ok ([], f ∷ files)

-- The condition of the break at the end of the loop over the parts.
unfoldable pub is_finished : Fso → List Fso → Bool
is_finished fso [] = true
is_finished fso (f ∷ files) = ltb fso.latest_version f.latest_version

-- The end of the loop's body: the loop ends, or goes on with `later`.
abbrev pub go_on :
    Fso → List Action → List Fso → Result (List Action × List Fso) → Result (List Action × List Fso)
go_on fso done left later =
    if is_finished fso left then ok (done, left) else do rest ← later; ok (done ++ rest.0, rest.1)

-- The loop over the parts, and the files that are left behind it. The code reads *begin2 without a
-- test, which is undefined when no file is left.
unfoldable pub restore_parts : List Part → List Fso → Result (List Action × List Fso)
unfolding restore_stream link_files
restore_parts [] files = ok ([], files)
restore_parts (part ∷ parts) [] = throw incorrect_implementation
restore_parts ((id, content) ∷ parts) (fso ∷ files) =
    let skipped = restore_parts parts (fso ∷ files) in
    if not (fso.stream_id == id) then skipped else (do
      first ← restore_stream fso content
      links ← link_files fso files
      go_on fso (first ∷ links.0) links.1 (restore_parts parts links.1))

-- One turn of the outer loop.
unfoldable pub restore_version : List Part → List Fso → Result (List Action)
restore_version parts files = do
  (actions, left) ← restore_parts parts files
  zekvok_assert (elim left [ [] ↦ true | f ∷ fs ↦ false ])
  ok actions

abbrev pub content_of : ℕ → List Part → Option (List ℕ)
content_of id [] = none
content_of id ((i, content) ∷ parts) =
    let rest = content_of id parts in if id == i then some content else rest

-- The ids of the parts ascend.
abbrev pub Above : ℕ → List Part → Type 0
Above low [] = Unit {0}
Above low ((i, content) ∷ parts) = (low < i) × Above i parts

abbrev pub Ascending : List Part → Type 0
Ascending [] = Unit {0}
Ascending ((i, content) ∷ parts) = Above i parts

abbrev pub IsFile : Fso → Type 0
IsFile f = (f.object_type ≡ regular_file) ⊎ (f.object_type ≡ file_hardlink)

-- The files are regular files and hard links of one version, in the order of their streams, and the
-- archive has each stream.
abbrev pub Restorable : List Part → ℕ → ℕ → List Fso → Type 0
Restorable parts version low [] = Unit {0}
Restorable parts version low (f ∷ files) =
    (low ≤ f.stream_id)
    × (f.latest_version ≡ version)
    × ((content : List ℕ) × (content_of f.stream_id parts ≡ some content))
    × IsFile f
    × Restorable parts version f.stream_id files

-- What should become of the files: the first of a stream, the leader, gets the stream's bytes, and each
-- hard link of the same stream behind it is linked to the leader's mapped path.
abbrev pub all_bytes : Option (List ℕ) → List ℕ
all_bytes none = []
all_bytes (some content) = content

abbrev pub follows : Option Fso → Fso → Bool
follows none f = false
follows (some leader) f = f.stream_id == leader.stream_id

abbrev pub link_to : Option Fso → Fso → List Action
link_to none f = []
link_to (some leader) f = elim f.object_type [
  | file_hardlink ↦ linked f.unmapped_path leader.mapped_path ∷ []
  | _ ↦ []
]

unfoldable pub planned : List Part → Option Fso → List Fso → List Action
planned parts leader [] = []
planned parts leader (f ∷ files) =
    let behind = planned parts leader files in
    let next = planned parts (some f) files in
    if follows leader f
    then link_to leader f ++ behind
    else restored f.unmapped_path (all_bytes (content_of f.stream_id parts)) ∷ next
