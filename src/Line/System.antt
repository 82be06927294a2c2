-- ===== src/Line/System.antt =====
-- What src/LineProcessor.cpp sees and sets of a BackupSystem (src/BackupSystem.h), and its own state.
use zekvok.Prelude.{ℕ, Bool, Option, none, some, List, [], ◌∷◌, ◌++◌, ◌==◌, if◌then◌else◌}
use zekvok.Exception.{Result, ok, throw, std_string}
use zekvok.Backup.Files.{ChangeCriterium}
use zekvok.Backup.Versions.{ℤ, get_version_count}

abbrev pub String : Type 0
String = List ℕ

pub data NameIgnoreType : Type 0 where
  ignore_files ignore_directories ignore_all : NameIgnoreType

pub record System : Type 0 where
  pub versions : List ℕ
  pub sources : List String
  pub ignored_extensions : List String
  pub ignored_paths : List String
  pub ignored_names : List (String × NameIgnoreType)
  pub use_snapshots : Bool
  pub change_criterium : ChangeCriterium
  pub keypair : Option ℕ

pub record LineProcessor : Type 0 where
  pub backup_system : Option System
  pub selected_version : ℤ
  pub argument_set : List String

-- What a command does outside the processor.
pub data Effect : Type 0 where
  backed_up : System → Effect
  restored_version : System → ℤ → Effect
  verified : ℤ → Bool → Effect
  shown : String → Effect
  generated_keypair : (recipient file symmetric_key : String) → Effect

abbrev pub Outcome : Type 0
Outcome = Result (LineProcessor × List Effect)

unfoldable pub add_source : String → System → System
add_source src s = record s { sources = s.sources ++ src ∷ [] }

unfoldable pub add_ignored_extension : String → System → System
add_ignored_extension ext s = record s { ignored_extensions = ext ∷ s.ignored_extensions }

unfoldable pub add_ignored_path : String → System → System
add_ignored_path path s = record s { ignored_paths = path ∷ s.ignored_paths }

-- The last entry of a name is the one that counts.
unfoldable pub add_ignored_name : String → NameIgnoreType → System → System
add_ignored_name name type s = record s { ignored_names = (name, type) ∷ s.ignored_names }

unfoldable pub set_use_snapshots : Bool → System → System
set_use_snapshots b s = record s { use_snapshots = b }

unfoldable pub set_change_criterium : ChangeCriterium → System → System
set_change_criterium cc s = record s { change_criterium = cc }

unfoldable pub set_keypair : ℕ → System → System
set_keypair keypair s = record s { keypair = some keypair }

-- ensure_backup_initialized, and then a change of the system.
unfoldable pub change_system : (System → System) → LineProcessor → Outcome
change_system f p = elim p.backup_system [
  | none ↦ throw std_string
  | some s ↦ ok (record p { backup_system = some (f s) }, [])
]

abbrev pub count_of : System → ℕ
count_of s = get_version_count none s.versions

-- ensure_existing_version, and then `f` on the system.
unfoldable pub existing_version : (System → Outcome) → LineProcessor → Outcome
existing_version f p = elim p.backup_system [
  | none ↦ throw std_string
  | some s ↦ if count_of s == 0 then throw std_string else f s
]
