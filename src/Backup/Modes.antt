-- ===== src/Backup/Modes.antt =====
-- get_backup_mode_for_object of src/BackupSystem.cpp: what the names, extensions and paths that the user
-- excluded say of an object. The C library's tolower and boost's path::extension are parameters.
use zekvok.Prelude.{
  ℕ, ◌≡◌, ◌≢◌, ◌↔◌, refl, Bool, true, false, not, ◌&&◌, ◌||◌, Option, none, some, List, [], ◌∷◌,
  if◌then◌else◌, Bool-cases, inl, inr,
}
use zekvok.Line.System.{NameIgnoreType, ignore_files, ignore_directories, ignore_all}
use zekvok.Backup.Files.{BackupMode, no_backup, directory_mode, full}
use zekvok.Utility.Strcmpci.{equal}

-- What the user excluded.
pub record Ignored : Type 0 where
  pub names : List (List ℕ × NameIgnoreType)
  pub extensions : List (List ℕ)
  pub paths : List (List ℕ)

-- The tests of the bits NameIgnoreType::File and NameIgnoreType::Directory.
unfoldable pub covers : NameIgnoreType → Bool → Bool
covers ignore_files is_directory = not is_directory
covers ignore_directories is_directory = is_directory
covers ignore_all is_directory = true

module _ (tolower : ℕ → ℕ) (extension : List ℕ → List ℕ) where
  -- Searches in a set and a map that are ordered by strcmpci.
  unfoldable pub listed : List ℕ → List (List ℕ) → Bool
  listed s [] = false
  listed s (x ∷ xs) = equal tolower x s || listed s xs

  unfoldable pub find_name : List ℕ → List (List ℕ × NameIgnoreType) → Option NameIgnoreType
  find_name s [] = none
  find_name s ((x, t) ∷ xs) =
      let rest = find_name s xs in if equal tolower x s then some t else rest

  unfoldable pub is_name_ignored : Ignored → Bool → List ℕ → Bool
  unfolding find_name covers
  is_name_ignored ignored is_directory name = elim (find_name name ignored.names) [
    | none ↦ false
    | some t ↦ covers t is_directory
  ]

  unfoldable pub is_extension_ignored : Ignored → Bool → List ℕ → Bool
  unfolding listed
  is_extension_ignored ignored is_directory name =
      listed (extension name) ignored.extensions && not is_directory

  -- The search of the base path, which is a pointer: a search among some paths follows it.
  unfoldable pub find_base : Option (List ℕ) → List (List ℕ) → Option Bool
  unfolding listed
  find_base base [] = some false
  find_base none (x ∷ xs) = none
  find_base (some b) (x ∷ xs) = some (listed b (x ∷ xs))

  abbrev pub mode_by_base : Bool → Option Bool → Option BackupMode
  mode_by_base is_directory none = none
  mode_by_base is_directory (some true) = some no_backup
  mode_by_base true (some false) = some directory_mode
  mode_by_base false (some false) = some full

  -- `none` is the fault of following a null pointer.
  unfoldable pub get_backup_mode_for_object :
      Ignored → Bool → List ℕ → Option (List ℕ) → Option BackupMode
  unfolding is_name_ignored is_extension_ignored find_base
  get_backup_mode_for_object ignored is_directory name base =
      if is_name_ignored ignored is_directory name
      then some no_backup
      else if is_extension_ignored ignored is_directory name
      then some no_backup
      else mode_by_base is_directory (find_base base ignored.paths)

  mode_by_base-ne-none : (is_directory b : Bool) → mode_by_base is_directory (some b) ≢ none
  mode_by_base-ne-none is_directory true = λ h. cc
  mode_by_base-ne-none true false = λ h. cc
  mode_by_base-ne-none false false = λ h. cc

  find_base_fault :
      (is_directory : Bool) (base : Option (List ℕ)) (paths : List (List ℕ))
      → (mode_by_base is_directory (find_base base paths) ≡ none) ↔ ((base ≡ none) × (paths ≢ []))
  unfolding find_base
  find_base_fault is_directory none [] =
      (λ h. absurd (mode_by_base-ne-none is_directory false h), λ h. absurd (h.1 refl))
  find_base_fault is_directory (some b) [] =
      (λ h. absurd (mode_by_base-ne-none is_directory false h), λ h. absurd (h.1 refl))
  find_base_fault is_directory none (x ∷ xs) = (λ h. (refl, λ e. cc), λ h. refl)
  find_base_fault is_directory (some b) (x ∷ xs) = (
    λ h. absurd (mode_by_base-ne-none is_directory (listed b (x ∷ xs)) h),
    λ h. absurd (let e = h.0 in cc),
  )

  -- When get_backup_mode_for_object follows a null pointer: exactly for the objects that have no base path
  -- of their own, which all but the roots are, when the user excluded some path and neither the name nor
  -- the extension of the object is excluded.
  pub get_backup_mode_for_object-fault :
      (ignored : Ignored) (is_directory : Bool) (name : List ℕ) (base : Option (List ℕ))
      → (get_backup_mode_for_object ignored is_directory name base ≡ none) ↔ (
          (is_name_ignored ignored is_directory name ≡ false)
          × (is_extension_ignored ignored is_directory name ≡ false)
          × (base ≡ none)
          × (ignored.paths ≢ []))
  unfolding get_backup_mode_for_object
  get_backup_mode_for_object-fault ignored is_directory name base =
      elim (Bool-cases (is_name_ignored ignored is_directory name)) [
        | inl e ↦ rw e (λ h. absurd (cc), λ h. absurd (let k = h.0 in cc))
        | inr e ↦ elim (Bool-cases (is_extension_ignored ignored is_directory name)) [
          | inl k ↦ rw (e, k) (λ h. absurd (cc), λ h. absurd (let f = h.1 in cc))
          | inr k ↦
              let f = find_base_fault is_directory base ignored.paths in
              rw (e, k) (λ h. (refl, refl, (f.0 h).0, (f.0 h).1), λ h. f.1 (h.2, h.3))
        ]
      ]
