-- ===== src/Line/Tests.antt =====
-- Runs of the commands of src/LineProcessor.cpp.
use zekvok.Prelude.{ℕ, ◌+◌, ◌≡◌, refl, true, false, List, [], ◌∷◌, none, some, ltb, if◌then◌else◌}
use zekvok.Exception.{ok, throw, archive_read}
use zekvok.Backup.Files.{hash_auto}
use zekvok.Backup.Versions.{
  pos, negsuc, get_version_count, version_exists, lower_bound, below, is_negative, plus, back_or,
}
use zekvok.Line.Words.{word_open, word_select, word_version, word_restore}
use zekvok.Line.System.{System, LineProcessor, existing_version}
use zekvok.Line.Process.{
  Calls, find_entry, process_open, process_select_version, process_restore, latest, minus_one,
}
use zekvok.Utility.Strcmpci.{equal, equal_below}
use zekvok.Line.Dispatch.{
  process, process_line, run_command, run_alone, process_select, process_select_one,
}
use zekvok.Line.Selected.{IsSelected, process-IsSelected}

abbrev two_versions : System
two_versions = record {
  versions = 0 ∷ 2 ∷ [];
  sources = [];
  ignored_extensions = [];
  ignored_paths = [];
  ignored_names = [];
  use_snapshots = true;
  change_criterium = hash_auto;
  keypair = none;
}

-- Every path is that of the backup with two versions, every word is a number, and restoring fails.
abbrev some_calls : Calls
some_calls = record {
  tolower = λ c. if ltb c 65 then c else if ltb 90 c then c else c + 32;
  open_system = λ path. ok two_versions;
  read_int = λ word. some (negsuc 0);
  load_keypair = λ path. throw archive_read;
  get_private_key = λ keypair key. ok tt;
  perform_backup = λ s. ok tt;
  restore_backup = λ s v. throw archive_read;
  verify = λ s v. ok true;
  full_verify = λ s v. ok false;
}

abbrev fresh : LineProcessor
fresh = record { backup_system = none; selected_version = negsuc 0; argument_set = [] }

abbrev three_lines : List (List (List ℕ))
three_lines =
    (word_open ∷ (67 ∷ []) ∷ [])
    ∷ (word_select ∷ word_version ∷ (45 ∷ 49 ∷ []) ∷ [])
    ∷ (word_restore ∷ [])
    ∷ []

abbrev opened : LineProcessor
opened = record { backup_system = some two_versions; selected_version = pos 2; argument_set = [] }

lines_run : process some_calls three_lines fresh ≡ ok (opened, [])
unfolding process process_line find_entry equal equal_below run_command process_open process_select
    process_select_one process_select_version existing_version get_version_count version_exists
    lower_bound below is_negative plus back_or latest minus_one run_alone process_restore
lines_run = refl

process-IsSelected_example : IsSelected opened
process-IsSelected_example = process-IsSelected some_calls three_lines fresh opened [] tt lines_run
