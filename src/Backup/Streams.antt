-- ===== src/Backup/Streams.antt =====
-- The streams of a new version: check_and_maybe_add and generate_streams of src/BackupSystem.cpp.
use zekvok.Prelude.{
  ℕ, ◌+◌, Bool, true, false, not, ◌&&◌, Option, none, some, List, [], ◌∷◌, ◌++◌, length, get_elem?,
  set, ◌==◌, if◌then◌else◌,
}
use zekvok.Exception.{Result, ok, throw, ◌>>=◌, not_implemented, invalid_switch_variable}
use zekvok.Backup.Files.{
  ChangeCriterium, BackupMode, no_backup, directory_mode, force_full, full, unmodified, rsync, Guid,
  Object, is_directoryish, is_hardlink, is_no_backup, file_has_changed,
}

-- FullStream and UnmodifiedStream.
pub data Contents : Type 0 where
  full_stream : (physical_size virtual_size : ℕ) → Contents
  unmodified_stream : (containing_version : Option ℕ) (virtual_size : ℕ) → Contents

pub record Stream : Type 0 where
  pub unique_id : ℕ
  pub contents : Contents
  pub file_system_objects : List Object

unfoldable pub has_data : Contents → Bool
has_data (full_stream p v) = true
has_data (unmodified_stream c v) = false

-- The streams that were made; a pointer to a stream is its place in the list. A known guid has one.
pub record Run : Type 0 where
  pub streams : List Stream
  pub known_guids : List (ℕ × ℕ)
  pub next_stream_id : ℕ

unfoldable pub lookup : ℕ → List (ℕ × ℕ) → Option ℕ
lookup key [] = none
lookup key ((k, v) ∷ rest) = let later = lookup key rest in if key == k then some v else later

abbrev pub is_known : Guid → List (ℕ × ℕ) → Bool
is_known g known = g.valid && (elim (lookup g.guid known) [ none ↦ false | some i ↦ true ])

-- should_be_added; `version` is the number of the new version.
unfoldable pub should_be_added : ℕ → Run → Object → Bool × Object
should_be_added version run fso =
    let fso0 = record fso { latest_version = none } in
    let fso1 = record fso { latest_version = some version } in
    if is_directoryish fso.object_type
    then (false, fso0)
    else if is_no_backup fso.backup_mode
    then (false, fso0)
    else if is_hardlink fso.object_type
    then (false, fso0)
    else (not (is_known fso.file_system_guid run.known_guids), fso1)

abbrev pub with_stream : (i : ℕ) → Stream → Object → Object
with_stream i stream fso = record fso {
  stream_id = stream.unique_id;
  backup_stream = some i;
  latest_version = elim stream.file_system_objects [
    | [] ↦ fso.latest_version
    | f ∷ fs ↦ f.latest_version
  ];
}

-- fix_up_stream_reference
unfoldable pub fix_up_stream_reference : Run → Object → Object × Run
fix_up_stream_reference run fso =
    if is_hardlink fso.object_type
    then (fso, run)
    else if is_directoryish fso.object_type
    then (fso, run)
    else if fso.file_system_guid.valid
    then (fso, run)
    else elim (lookup fso.file_system_guid.guid run.known_guids) [
      | none ↦ (fso, run)
      | some i ↦ elim (get_elem? run.streams i) [
        | none ↦ (fso, run)
        | some stream ↦
            let fso' = with_stream i stream fso in
            let stream' = record stream {
              file_system_objects = stream.file_system_objects ++ fso' ∷ [];
            } in
            (fso', record run { streams = set run.streams i stream' })
      ]
    ]

abbrev pub new_stream : Object → Contents → Stream
new_stream fso contents = record {
  unique_id = fso.stream_id;
  contents = contents;
  file_system_objects = fso ∷ [];
}

-- A new stream, the known guid of its file, and the pointer to it.
abbrev pub add_stream : Object → Contents → Run → ℕ × Run
add_stream fso contents run =
    let i = length run.streams in
    let guid = fso.file_system_guid in
    (
      i,
      record run {
        streams = run.streams ++ new_stream fso contents ∷ [];
        known_guids = if guid.valid then (guid.guid, i) ∷ run.known_guids else run.known_guids;
      },
    )

abbrev pub Outcome : Type 0
Outcome = Option ℕ × Object × Run

-- The switch over the mode; `existing_version` is what file_has_changed left there.
unfoldable pub make_stream : Option ℕ → Object → Run → Result Outcome
make_stream existing_version fso run =
    let unmodified_one = add_stream fso (unmodified_stream existing_version fso.size) run in
    let full_one = add_stream fso (full_stream fso.size fso.size) run in
    elim fso.backup_mode [
      | unmodified ↦ ok (some unmodified_one.0, fso, unmodified_one.1)
      | force_full ↦ ok (some full_one.0, fso, full_one.1)
      | full ↦ ok (some full_one.0, fso, full_one.1)
      | rsync ↦ throw not_implemented
      | no_backup ↦ throw invalid_switch_variable
      | directory_mode ↦ throw invalid_switch_variable
    ]

abbrev pub is_full : BackupMode → Bool
is_full full = true
is_full _ = false

unfoldable pub check_and_maybe_add :
    ChangeCriterium → ℕ → List (Option Object) → Object → Run → Result Outcome
check_and_maybe_add criterium version finds fso run =
    let (add, fso1) = should_be_added version run fso in
    let (fixed, run') = fix_up_stream_reference run fso1 in
    let (changed, existing_version, fso2) = file_has_changed criterium finds fso1 in
    if not add
    then ok (none, fixed, run')
    else if is_full fso1.backup_mode
    then make_stream existing_version
        (if changed then fso2 else record fso2 { backup_mode = unmodified }) run
    else make_stream none fso1 run

-- set_unique_ids of a file, and set_unique_id of its stream.
abbrev pub numbered_run : ℕ → Stream → Run → Run
numbered_run i s run = record run {
  streams = set run.streams i (record s { unique_id = run.next_stream_id });
  next_stream_id = run.next_stream_id + 1;
}

abbrev pub numbered_object : Run → Object → Object
numbered_object run fso = record fso { stream_id = run.next_stream_id }

-- What generate_streams does with a child's stream; `later` is the rest of the loop. A stream with
-- data gets the next id, and so does the child.
unfoldable pub queue_stream :
    Outcome → (Run → Result (List (ℕ × Object) × Run)) → Result (List (ℕ × Object) × Run)
queue_stream (none, fso, run) later = later run
queue_stream (some i, fso, run) later = elim (get_elem? run.streams i) [
  | none ↦ later run
  | some s ↦ if not (has_data s.contents) then later run else do
    (rest, run') ← later (numbered_run i s run)
    ok ((i, numbered_object run fso) ∷ rest, run')
]

-- The inner loop of generate_streams. The result are the streams for the archive, each with its
-- file.
unfoldable pub generate_streams :
    {Child : Type 0}
    → (Child → Run → Result Outcome)
    → List Child
    → Run
    → Result (List (ℕ × Object) × Run)
generate_streams generator [] run = ok ([], run)
generate_streams generator (child ∷ children) run = do
  outcome ← generator child run
  queue_stream outcome (generate_streams generator children)
