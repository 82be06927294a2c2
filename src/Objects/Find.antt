-- ===== src/Objects/Find.antt =====
-- find() of src/serialization/FileSystemObject.cpp, by a path that is the list of its components. The C
-- library's tolower is the parameter `tolower`, and `encrypt_string` is that of src/Utility.h, the
-- SHA-256 of the characters.
use zekvok.Prelude.{
  ℕ, Bool, true, false, not, ◌||◌, Option, none, some, List, [], ◌∷◌, if◌then◌else◌,
}
use zekvok.Objects.Tree.{
  Name, Entry, Fso, Children, directory_fso, childless_fso, no_children, child, entry,
}
use zekvok.Archive.Reader.{bytes_equal}
use zekvok.Utility.Strcmpci.{equal}
use zekvok.Utility.Text.{to_lower}

abbrev pub or_else {ℓ} : {A : Type ℓ} → Option A → Option A → Option A
or_else none b = b
or_else (some a) b = some a

module _ (tolower : ℕ → ℕ) (encrypt_string : Name → Name) where
  unfoldable pub encrypt_string_ci : Name → Name
  unfolding to_lower
  encrypt_string_ci s = encrypt_string (to_lower tolower s)

  -- Whether a component of the path names an object; the root directory keeps its name in clear.
  unfoldable pub names_directory : Bool → Name → Entry → Bool
  unfolding encrypt_string_ci
  names_directory is_root n e =
      if not e.is_encrypted || is_root
      then equal tolower n e.name
      else bytes_equal (encrypt_string_ci n) e.name

  unfoldable pub names_childless : Name → Entry → Bool
  unfolding encrypt_string_ci
  names_childless n e =
      if not e.is_encrypted
      then equal tolower n e.name
      else bytes_equal (encrypt_string_ci n) e.name

  unfoldable mutual
    pub find : Bool → List Name → Fso → Option Fso
    find is_root [] o = none
    find is_root (n ∷ []) (directory_fso e cs) =
        if names_directory is_root n e then some (directory_fso e cs) else none
    find is_root (n ∷ m ∷ rest) (directory_fso e cs) =
        let candidate = find_in (m ∷ rest) cs in
        if names_directory is_root n e then candidate else none
    find is_root (n ∷ []) (childless_fso k e) =
        if names_childless n e then some (childless_fso k e) else none
    find is_root (n ∷ m ∷ rest) (childless_fso k e) = none

    -- The loop over the children.
    pub find_in : List Name → Children → Option Fso
    find_in path no_children = none
    find_in path (child o cs) = or_else (find false path o) (find_in path cs)

  -- find(path): behind the components of the base, the first is the name of the root.
  unfoldable pub find_path : List Name → List Name → Fso → Option Fso
  find_path [] [] o = none
  find_path [] (n ∷ path) o =
      if equal tolower (entry o).name n then find true (n ∷ path) o else none
  find_path (b ∷ base) [] o = none
  find_path (b ∷ base) (n ∷ path) o = if equal tolower b n then find_path base path o else none
