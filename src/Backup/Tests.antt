-- ===== src/Backup/Tests.antt =====
-- Runs of the decisions of src/BackupSystem.cpp.
use mathlib.Core.List.{Perm}
use zekvok.Prelude.{
  ℕ, ◌+◌, ◌≡◌, ◌↔◌, refl, Bool, true, false, List, [], ◌∷◌, map, Option, none, some, arith, inl,
  inr,
}
use zekvok.Exception.{Result, ok}
use zekvok.Backup.Restore.{Fso, restored, linked, Part, restore_version, planned}
use zekvok.Backup.Restored.{restore_version-planned}
use zekvok.Backup.Sort.{sort, Sorted}
use zekvok.Backup.Reorder.{
  QueuedFile, UniqueIds, HaveStreams, AreNumbered, file_before, reorder_file_streams, contents_of,
  reorder_file_streams-Sorted,
}
use zekvok.Backup.Groups.{
  restore_groups, restore_before, flatten, AreUniform, restore_groups-flatten,
}
use zekvok.Backup.Files.{
  hash, size, Object, regular_file, file_hardlink, full, find_old, file_has_changed, compute_hash,
}
use zekvok.Backup.Streams.{
  Run, full_stream, generate_streams, check_and_maybe_add, lookup, queue_stream, has_data,
  make_stream, should_be_added,
}
use zekvok.Backup.StreamIds.{id_of, range, generate_streams-range}
use zekvok.Backup.Changes.{file_has_changed-hash, check_and_maybe_add_known}
use zekvok.Backup.Versions.{
  ℤ, pos, version_exists, AnyFrom, version_exists-AnyFrom, full_verify, Passes, full_verify-Passes,
}

abbrev first_file : Fso
first_file = record {
  object_type = regular_file;
  unmapped_path = 0;
  mapped_path = 10;
  latest_version = 2;
  stream_id = 5;
}

abbrev its_link : Fso
its_link = record {
  object_type = file_hardlink;
  unmapped_path = 1;
  mapped_path = 11;
  latest_version = 2;
  stream_id = 5;
}

abbrev later_file : Fso
later_file = record {
  object_type = regular_file;
  unmapped_path = 2;
  mapped_path = 12;
  latest_version = 2;
  stream_id = 9;
}

-- The middle part is of no file.
abbrev three_parts : List Part
three_parts = (5, 50 ∷ []) ∷ (7, 70 ∷ []) ∷ (9, 90 ∷ []) ∷ []

restore_version-planned_example :
    restore_version three_parts (first_file ∷ its_link ∷ later_file ∷ [])
    ≡ ok (restored 0 (50 ∷ []) ∷ linked 1 10 ∷ restored 2 (90 ∷ []) ∷ [])
unfolding planned
restore_version-planned_example =
    restore_version-planned three_parts 2 first_file (its_link ∷ later_file ∷ [])
      (omega arith, (omega arith, tt))
      (
        omega arith,
        refl,
        (50 ∷ [], refl),
        inl refl,
        (
          omega arith,
          refl,
          (50 ∷ [], refl),
          inr refl,
          (omega arith, refl, (90 ∷ [], refl), inl refl, tt),
        ),
      )

restore_groups-flatten_example :
    (flatten (restore_groups (later_file ∷ first_file ∷ []))
      ≡ sort restore_before (later_file ∷ first_file ∷ []))
    × Perm (flatten (restore_groups (later_file ∷ first_file ∷ []))) (later_file ∷ first_file ∷ [])
    × AreUniform (restore_groups (later_file ∷ first_file ∷ []))
restore_groups-flatten_example = restore_groups-flatten (later_file ∷ first_file ∷ [])

abbrev old_file : Object
old_file = record {
  name = 1;
  object_type = regular_file;
  backup_mode = full;
  file_system_guid = record { valid = true; guid = 4 };
  size = 10;
  modification_time = 100;
  archive_flag = false;
  hash = some (1 ∷ 2 ∷ []);
  on_disk = some (1 ∷ 2 ∷ []);
  latest_version = some 0;
  stream_id = 3;
  backup_stream = none;
}

abbrev new_file : Object
new_file = record old_file { hash = none; latest_version = none }

abbrev unhashed_file : Object
unhashed_file = record old_file { hash = none }

found_it : find_old (some old_file ∷ []) ≡ some old_file
unfolding find_old
found_it = refl

found_unhashed : find_old (none ∷ some unhashed_file ∷ []) ≡ some unhashed_file
unfolding find_old
found_unhashed = refl

abbrev its_digest : List ℕ
its_digest = 1 ∷ 2 ∷ []

file_has_changed-hash_example :
    ((file_has_changed hash (some old_file ∷ []) new_file).0 ≡ false) ↔ (its_digest ≡ its_digest)
file_has_changed-hash_example =
    file_has_changed-hash (some old_file ∷ []) new_file old_file its_digest its_digest found_it refl
      refl refl

abbrev empty_run : Run
empty_run = record { streams = []; known_guids = []; next_stream_id = 7 }

abbrev knows_four : Run
knows_four = record { streams = []; known_guids = (4, 0) ∷ []; next_stream_id = 7 }

four_is_known : lookup 4 ((4, 0) ∷ []) ≡ some 0
unfolding lookup
four_is_known = refl

check_and_maybe_add_known_example :
    check_and_maybe_add size 1 [] new_file knows_four
    ≡ ok (none, record new_file { latest_version = some 1 }, knows_four)
check_and_maybe_add_known_example =
    check_and_maybe_add_known size 1 [] new_file knows_four 0 refl refl refl refl four_is_known

abbrev added_file : Object
added_file = record new_file { latest_version = some 1; stream_id = 7; hash = some (1 ∷ 2 ∷ []) }

abbrev after_run : Run
after_run = record {
  streams =
      record {
        unique_id = 7;
        contents = full_stream 10 10;
        file_system_objects =
            record new_file { latest_version = some 1; hash = some (1 ∷ 2 ∷ []) } ∷ [];
      }
      ∷ [];
  known_guids = (4, 0) ∷ [];
  next_stream_id = 8;
}

abbrev one_child : List (List (Option Object) × Object)
one_child = ([], new_file) ∷ []

it_is_added :
    generate_streams {Child = List (Option Object) × Object}
      (λ child. check_and_maybe_add size 1 child.0 child.1)
      one_child
      empty_run
    ≡ ok ((0, added_file) ∷ [], after_run)
unfolding generate_streams queue_stream check_and_maybe_add should_be_added make_stream lookup
    has_data file_has_changed find_old compute_hash
it_is_added = refl

generate_streams-range_example :
    (map id_of ((0, added_file) ∷ []) ≡ range 7 1) × (after_run.next_stream_id ≡ 7 + 1)
generate_streams-range_example =
    generate_streams-range size 1 one_child empty_run ((0, added_file) ∷ []) after_run it_is_added

version_exists-AnyFrom_example :
    (version_exists (0 ∷ 2 ∷ []) (pos 1) ≡ true) ↔ AnyFrom (pos 1) (0 ∷ 2 ∷ [])
version_exists-AnyFrom_example = version_exists-AnyFrom (0 ∷ 2 ∷ []) (pos 1)

full_verify-Passes_example :
    (full_verify (λ v. ok true) (λ v. ok (pos 0 ∷ [])) (pos 1) ≡ ok true) ↔ (
      (◌≡◌ {A = Result Bool} (ok true) (ok true))
      × ((deps : List ℤ) × (ok (pos 0 ∷ []) ≡ ok deps) × Passes (λ v. ok true) deps))
full_verify-Passes_example = full_verify-Passes (λ v. ok true) (λ v. ok (pos 0 ∷ [])) (pos 1)

abbrev two_queued : List QueuedFile
two_queued =
    record { name = 98 ∷ []; size = 20; stream_id = 4; backup_stream = some 0 }
    ∷ record { name = 97 ∷ []; size = 10; stream_id = 3; backup_stream = some 1 }
    ∷ []

abbrev same_character : ℕ → ℕ
same_character c = c

abbrev never_text : List ℕ → Bool
never_text ext = false

zero_differs : (n : ℕ) → some 0 ≡ some n → some 1 ≡ some n → ⊥
zero_differs n a b = cc

two_queued-HaveStreams : HaveStreams same_character never_text two_queued
two_queued-HaveStreams = ((0, refl), (zero_differs, tt), ((1, refl), tt, tt))

first_ids : UniqueIds
first_ids k = 9

reorder_file_streams-Sorted_example :
    (queue : List QueuedFile) × (after : UniqueIds) × (reorder_file_streams same_character
        never_text two_queued first_ids
      ≡ ok (queue, after))
    × Sorted 0 (map (λ f. f.stream_id) queue)
    × Perm (map (λ f. f.stream_id) queue) (map (λ f. f.stream_id) two_queued)
    × (map (contents_of same_character never_text) queue
        ≡ map
            (contents_of same_character never_text)
            (sort (file_before same_character never_text) two_queued))
    × AreNumbered same_character never_text queue after
reorder_file_streams-Sorted_example =
    reorder_file_streams-Sorted same_character never_text two_queued first_ids
      two_queued-HaveStreams
