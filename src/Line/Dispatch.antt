-- ===== src/Line/Dispatch.antt =====
-- process_line of src/LineProcessor.cpp, the arrays of commands that it and its handlers look words
-- up in, and the loop of process over the lines of the input.
use zekvok.Prelude.{ℕ, Bool, true, false, not, none, some, List, [], ◌∷◌, ◌++◌, if◌then◌else◌}
use zekvok.Exception.{is_fatal, ok, throw, ◌>>=◌, std_string}
use zekvok.Utility.Strcmpci.{equal}
use zekvok.Line.Words.{
  word_add, word_backup, word_change_criterium, word_dependencies, word_exclude, word_extension,
  word_generate, word_if, word_keypair, word_name, word_open, word_path, word_paths, word_quit,
  word_restore, word_select, word_set, word_show, word_use_snapshots, word_verify, word_version,
  word_version_count, word_version_summary, word_versions,
}
use zekvok.Line.System.{String, LineProcessor, shown, Outcome, existing_version}
use zekvok.Line.Process.{
  Calls, contains, is_user, find_entry, dispatch, process_open, process_add,
  process_exclude_extension, process_exclude_path, process_exclude_name, process_backup,
  process_restore, process_select_version, process_select_keypair, process_set_use_snapshots,
  process_set_change_criterium, process_verify, process_generate_keypair,
}

pub data Command : Type 0 where
  c_open c_add c_exclude c_backup c_restore c_select c_show c_if c_set c_verify c_generate : Command

pub data Excluded : Type 0 where
  x_extension x_path x_name : Excluded

pub data Selected : Type 0 where
  s_version s_keypair : Selected

pub data Shown : Type 0 where
  w_dependencies w_versions w_version_count w_paths w_version_summary : Shown

pub data Setting : Type 0 where
  t_use_snapshots t_change_criterium : Setting

abbrev pub commands : List (String × Command × Bool)
commands =
    (word_open, c_open, true)
    ∷ (word_add, c_add, true)
    ∷ (word_exclude, c_exclude, true)
    ∷ (word_backup, c_backup, false)
    ∷ (word_restore, c_restore, false)
    ∷ (word_select, c_select, true)
    ∷ (word_show, c_show, true)
    ∷ (word_if, c_if, true)
    ∷ (word_set, c_set, true)
    ∷ (word_verify, c_verify, false)
    ∷ (word_generate, c_generate, true)
    ∷ []

abbrev pub exclude_array : List (String × Excluded × Bool)
exclude_array =
    (word_extension, x_extension, true) ∷ (word_path, x_path, true) ∷ (word_name, x_name, true) ∷ []

abbrev pub select_array : List (String × Selected × Bool)
select_array = (word_version, s_version, true) ∷ (word_keypair, s_keypair, true) ∷ []

abbrev pub show_array : List (String × Shown × Bool)
show_array =
    (word_dependencies, w_dependencies, false)
    ∷ (word_versions, w_versions, false)
    ∷ (word_version_count, w_version_count, false)
    ∷ (word_paths, w_paths, false)
    ∷ (word_version_summary, w_version_summary, false)
    ∷ []

abbrev pub set_array : List (String × Setting × Bool)
set_array =
    (word_use_snapshots, t_use_snapshots, true)
    ∷ (word_change_criterium, t_change_criterium, true)
    ∷ []

-- A command that only prints: the word stands for what it prints.
abbrev prints : String → LineProcessor → Outcome
prints word p = elim p.backup_system [ none ↦ throw std_string | some s ↦ ok (p, shown word ∷ []) ]

abbrev prints_version : String → LineProcessor → Outcome
prints_version word p = existing_version (λ s. ok (p, shown word ∷ [])) p

unfoldable pub process_show_one : (ℕ → ℕ) → Shown → LineProcessor → Outcome
process_show_one tolower w_dependencies p =
    if not (is_user tolower p) then ok (p, []) else prints_version word_dependencies p
process_show_one tolower w_versions p =
    if not (is_user tolower p) then ok (p, []) else prints word_versions p
process_show_one tolower w_version_count p =
    if not (is_user tolower p) then ok (p, []) else prints word_version_count p
process_show_one tolower w_paths p =
    if not (is_user tolower p) then ok (p, []) else prints word_paths p
process_show_one tolower w_version_summary p = prints_version word_version_summary p

module _ (calls : Calls) where
  open calls use {tolower}

  unfoldable pub process_exclude_one : Excluded → String → List String → LineProcessor → Outcome
  process_exclude_one x_extension arg rest p = process_exclude_extension calls arg p
  process_exclude_one x_path arg rest p = process_exclude_path calls arg p
  process_exclude_one x_name arg rest p = process_exclude_name calls arg rest p

  unfoldable pub process_select_one : Selected → String → List String → LineProcessor → Outcome
  process_select_one s_version arg rest p = process_select_version calls arg p
  process_select_one s_keypair arg rest p = process_select_keypair calls arg rest p

  unfoldable pub process_set_one : Setting → String → LineProcessor → Outcome
  process_set_one t_use_snapshots arg p = process_set_use_snapshots calls arg p
  process_set_one t_change_criterium arg p = process_set_change_criterium calls arg p

  -- Every handler behind the first word of a command gets the words behind its own.
  unfoldable pub process_exclude : String → List String → LineProcessor → Outcome
  process_exclude word [] p = ok (p, [])
  process_exclude word (arg ∷ rest) p =
      dispatch (find_entry calls word exclude_array) (λ e. process_exclude_one e.0 arg rest p) p

  unfoldable pub process_select : String → List String → LineProcessor → Outcome
  process_select word [] p = ok (p, [])
  process_select word (arg ∷ rest) p =
      dispatch (find_entry calls word select_array) (λ e. process_select_one e.0 arg rest p) p

  unfoldable pub process_show : String → List String → LineProcessor → Outcome
  process_show word rest p =
      dispatch (find_entry calls word show_array) (λ e. process_show_one tolower e.0 p) p

  unfoldable pub process_set : String → List String → LineProcessor → Outcome
  process_set word [] p = ok (p, [])
  process_set word (arg ∷ rest) p =
      dispatch (find_entry calls word set_array) (λ e. process_set_one e.0 arg p) p

  unfoldable pub process_generate : String → List String → LineProcessor → Outcome
  process_generate word [] p = ok (p, [])
  process_generate word (arg ∷ rest) p =
      if equal tolower word word_keypair
      then process_generate_keypair calls arg rest p
      else ok (p, [])

  -- The handlers of process_line; `later` is process_line on the words behind the argument.
  unfoldable pub run_command :
      Command → String → List String → (LineProcessor → Outcome) → LineProcessor → Outcome
  run_command c_open arg rest later p = process_open calls arg p
  run_command c_add arg rest later p = process_add calls arg p
  run_command c_exclude arg rest later p = process_exclude arg rest p
  run_command c_backup arg rest later p = process_backup calls p
  run_command c_restore arg rest later p = process_restore calls p
  run_command c_select arg rest later p = process_select arg rest p
  run_command c_show arg rest later p = process_show arg rest p
  run_command c_if arg rest later p =
      if not (contains tolower arg p.argument_set) then ok (p, []) else later p
  run_command c_set arg rest later p = process_set arg rest p
  run_command c_verify arg rest later p = process_verify calls (arg ∷ rest) p
  run_command c_generate arg rest later p = process_generate arg rest p

  -- A command without words behind it: those that need one are passed over.
  unfoldable pub run_alone : Command → LineProcessor → Outcome
  run_alone c_backup p = process_backup calls p
  run_alone c_restore p = process_restore calls p
  run_alone c_verify p = process_verify calls [] p
  run_alone _ p = ok (p, [])

  unfoldable pub process_line : List String → LineProcessor → Outcome
  process_line [] p = ok (p, [])
  process_line (word ∷ []) p =
      dispatch (find_entry calls word commands) (λ e. if e.1 then ok (p, []) else run_alone e.0 p) p
  process_line (word ∷ arg ∷ rest) p =
      dispatch (find_entry calls word commands)
        (λ e. run_command e.0 arg rest (process_line rest) p) p

  -- The catch of process(): a fatal exception ends the program.
  abbrev pub or_unchanged : LineProcessor → Outcome → Outcome
  or_unchanged p (ok r) = ok r
  or_unchanged p (throw e) = if is_fatal e then throw e else ok (p, [])

  -- process(): an exception leaves the processor as it was, and `quit` ends the loop.
  unfoldable pub process : List (List String) → LineProcessor → Outcome
  process [] p = ok (p, [])
  process ([] ∷ lines) p = process lines p
  process ((word ∷ args) ∷ lines) p = if equal tolower word word_quit then ok (p, []) else do
    (next, effects) ← or_unchanged p (process_line (word ∷ args) p)
    (final, later) ← process lines next
    ok (final, effects ++ later)
