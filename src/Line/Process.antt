-- ===== src/Line/Process.antt =====
-- The commands of src/LineProcessor.cpp. A line is the list of its words. What the commands call in
-- BackupSystem and in the libraries, the files included, is the record `Calls`.
use zekvok.Prelude.{
  ℕ, zero, suc, Bool, true, false, not, Option, none, some, List, [], ◌∷◌, if◌then◌else◌,
}
use zekvok.Exception.{Result, ok, throw, ◌>>=◌, std_string}
use zekvok.Utility.Strcmpci.{equal}
use zekvok.Utility.Text.{ensure_last_character_is_not_backslash}
use zekvok.Backup.Files.{archive_flag, size, date, hash, hash_auto}
use zekvok.Backup.Versions.{ℤ, pos, negsuc, plus, is_negative, version_exists}
use zekvok.Line.Words.{
  word_all, word_archive_flag, word_date, word_dirs, word_false, word_files, word_full, word_hash,
  word_hash_auto, word_size, word_true,
}
use zekvok.Line.System.{
  String, ignore_files, ignore_directories, ignore_all, System, LineProcessor, backed_up,
  restored_version, verified, generated_keypair, Outcome, add_source, add_ignored_extension,
  add_ignored_path, add_ignored_name, set_use_snapshots, set_change_criterium, set_keypair,
  change_system, count_of, existing_version,
}

-- tolower of the C library, the BackupSystem that a path opens or what its constructor throws, reading an int, the deserializer of
-- a key pair and its get_private_key, and the calls of BackupSystem that do I/O.
pub record Calls : Type 0 where
  pub tolower : ℕ → ℕ
  pub open_system : String → Result System
  pub read_int : String → Option ℤ
  pub load_keypair : String → Result ℕ
  pub get_private_key : ℕ → String → Result (Unit {0})
  pub perform_backup : System → Result (Unit {0})
  pub restore_backup : System → ℤ → Result (Unit {0})
  pub verify : System → ℤ → Result Bool
  pub full_verify : System → ℤ → Result Bool

-- The call that iterate_pair_array makes: of the entry's handler, or none.
abbrev pub dispatch : {C : Type 0} → Option C → (C → Outcome) → LineProcessor → Outcome
dispatch none handler p = ok (p, [])
dispatch (some c) handler p = handler c

-- get_version_count() - 1
unfoldable pub minus_one : ℕ → ℤ
minus_one zero = negsuc 0
minus_one (suc n) = pos n

unfoldable pub latest : System → ℤ
latest s = minus_one (count_of s)

-- argument_set.find; the set is ordered by strcmpci.
unfoldable pub contains : (ℕ → ℕ) → String → List String → Bool
contains tolower word [] = false
contains tolower word (w ∷ ws) =
    let rest = contains tolower word ws in if equal tolower word w then true else rest

-- The mode is User unless the processor was started with --pipe.
abbrev pub word_pipe : String
word_pipe = 45 ∷ 45 ∷ 112 ∷ 105 ∷ 112 ∷ 101 ∷ []

abbrev pub is_user : (ℕ → ℕ) → LineProcessor → Bool
is_user tolower p = not (contains tolower word_pipe p.argument_set)

module _ (calls : Calls) where
  open calls use {tolower}

  -- iterate_pair_array: the entry of the first word that the argument is, if there is one. The last
  -- component says whether the entry needs an argument.
  unfoldable pub find_entry : {C : Type 0} → String → List (String × C × Bool) → Option (C × Bool)
  find_entry word [] = none
  find_entry word ((w, c, needs) ∷ array) =
      let rest = find_entry word array in if equal tolower word w then some (c, needs) else rest

  -- The value of a word in an array without handlers.
  unfoldable pub find_word : {C : Type 0} → String → List (String × C) → Option C
  find_word word [] = none
  find_word word ((w, c) ∷ array) =
      let rest = find_word word array in if equal tolower word w then some c else rest

  unfoldable pub process_open : String → LineProcessor → Outcome
  process_open path p = do
    s ← calls.open_system path
    ok (record p { backup_system = some s; selected_version = latest s }, [])

  unfoldable pub process_add : String → LineProcessor → Outcome
  process_add word = change_system (add_source (ensure_last_character_is_not_backslash word))

  unfoldable pub process_exclude_extension : String → LineProcessor → Outcome
  process_exclude_extension word = change_system (add_ignored_extension word)

  unfoldable pub process_exclude_path : String → LineProcessor → Outcome
  process_exclude_path word =
      change_system (add_ignored_path (ensure_last_character_is_not_backslash word))

  unfoldable pub process_exclude_name : String → List String → LineProcessor → Outcome
  process_exclude_name word [] p = ok (p, [])
  process_exclude_name word (name ∷ rest) p =
      let types =
        (word_all, ignore_all)
        ∷ (word_dirs, ignore_directories)
        ∷ (word_files, ignore_files)
        ∷ [] in
      dispatch (find_word word types) (λ type. change_system (add_ignored_name name type) p) p

  unfoldable pub process_backup : LineProcessor → Outcome
  process_backup p = elim p.backup_system [
    | none ↦ throw std_string
    | some s ↦ do
      done ← calls.perform_backup s
      ok (record p { backup_system = none }, backed_up s ∷ [])
  ]

  unfoldable pub process_restore : LineProcessor → Outcome
  process_restore p = elim p.backup_system [
    | none ↦ throw std_string
    | some s ↦ do
      done ← calls.restore_backup s p.selected_version
      ok (record p { backup_system = none }, restored_version s p.selected_version ∷ [])
  ]

  abbrev pub chosen : ℤ → System → ℤ
  chosen v s = if is_negative v then plus v (count_of s) else v

  abbrev pub select : ℤ → LineProcessor → System → Outcome
  select v p s =
      if not (version_exists s.versions (chosen v s))
      then throw std_string
      else ok (record p { selected_version = chosen v s }, [])

  unfoldable pub process_select_version : String → LineProcessor → Outcome
  process_select_version word p =
      dispatch (calls.read_int word) (λ v. existing_version (select v p) p) p

  abbrev pub try_key : ℕ → List String → Result (Unit {0})
  try_key keypair [] = ok tt
  try_key keypair (key ∷ rest) = calls.get_private_key keypair key

  unfoldable pub process_select_keypair : String → List String → LineProcessor → Outcome
  process_select_keypair word rest p = elim p.backup_system [
    | none ↦ throw std_string
    | some s ↦ do
      keypair ← calls.load_keypair word
      checked ← try_key keypair rest
      change_system (set_keypair keypair) p
  ]

  unfoldable pub process_set_use_snapshots : String → LineProcessor → Outcome
  process_set_use_snapshots word p = elim p.backup_system [
    | none ↦ throw std_string
    | some s ↦
        if equal tolower word word_true
        then change_system (set_use_snapshots true) p
        else if equal tolower word word_false
        then change_system (set_use_snapshots false) p
        else ok (p, [])
  ]

  unfoldable pub process_set_change_criterium : String → LineProcessor → Outcome
  process_set_change_criterium word p =
      let criteria =
        (word_hash_auto, hash_auto)
        ∷ (word_hash, hash)
        ∷ (word_date, date)
        ∷ (word_size, size)
        ∷ (word_archive_flag, archive_flag)
        ∷ [] in
      dispatch (find_word word criteria)
        (λ criterium. change_system (set_change_criterium criterium) p) p

  unfoldable pub process_verify : List String → LineProcessor → Outcome
  process_verify args p =
      existing_version
        (λ s. elim args [
          | [] ↦ do
            passed ← calls.verify s p.selected_version
            ok (p, verified p.selected_version passed ∷ [])
          | word ∷ rest ↦ if not (equal tolower word word_full) then ok (p, []) else do
            passed ← calls.full_verify s p.selected_version
            ok (p, verified p.selected_version passed ∷ [])
        ])
        p

  unfoldable pub process_generate_keypair : String → List String → LineProcessor → Outcome
  process_generate_keypair recipient (file ∷ key ∷ rest) p =
      ok (p, generated_keypair recipient file key ∷ [])
  process_generate_keypair recipient _ p = ok (p, [])
