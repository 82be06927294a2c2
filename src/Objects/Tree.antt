-- ===== src/Objects/Tree.antt =====
-- FileSystemObject and its classes, of src/serialization/fso.txt, with the operations of
-- src/serialization/FileSystemObject.cpp that walk the tree. A string is the list of its characters, the
-- parent of an object is its place in the tree, and of the fields those stand here that are used.
use zekvok.Prelude.{
  ℕ, ◌≡◌, refl, ap, ◌∙◌, Bool, true, false, Option, none, some, List, [], ◌∷◌, ◌++◌, reverse,
  reverse-append, sym, ap₂,
}
use zekvok.Backup.Files.{
  FileSystemObjectType, directory, regular_file, directory_symlink, junction, file_symlink,
  file_reparse_point, file_hardlink,
}

abbrev pub Name : Type 0
Name = List ℕ

pub record Entry : Type 0 where
  pub name : Name
  pub link_target : Option Name
  pub peers : List Name
  pub exceptions : List Name
  pub stream_id : ℕ
  -- `none` for a negative number, of an object that no version stores.
  pub latest_version : Option ℕ
  pub is_encrypted : Bool

-- The classes whose objects have no children.
pub data Childless : Type 0 where
  regular_file_fso directory_symlink_fso junction_fso : Childless
  file_symlink_fso file_reparse_point_fso file_hardlink_fso : Childless

mutual
  pub data Fso : Type 0 where
    directory_fso : Entry → Children → Fso
    childless_fso : Childless → Entry → Fso

  pub data Children : Type 0 where
    no_children : Children
    child : Fso → Children → Children

unfoldable pub entry : Fso → Entry
entry (directory_fso e cs) = e
entry (childless_fso k e) = e

-- The type of a childless object, by its class.
unfoldable pub childless_type : Childless → FileSystemObjectType
childless_type regular_file_fso = regular_file
childless_type directory_symlink_fso = directory_symlink
childless_type junction_fso = junction
childless_type file_symlink_fso = file_symlink
childless_type file_reparse_point_fso = file_reparse_point
childless_type file_hardlink_fso = file_hardlink

unfoldable pub get_type : Fso → FileSystemObjectType
unfolding childless_type
get_type (directory_fso e cs) = directory
get_type (childless_fso k e) = childless_type k

unfoldable pub is_linkish : Fso → Bool
unfolding get_type
is_linkish o = elim (get_type o) [
  | directory_symlink ↦ true
  | junction ↦ true
  | file_symlink ↦ true
  | file_hardlink ↦ true
  | _ ↦ false
]

unfoldable pub is_pseudoregular_file : Fso → Bool
unfolding get_type
is_pseudoregular_file o = elim (get_type o) [
  | regular_file ↦ true
  | file_hardlink ↦ true
  | _ ↦ false
]

-- What the iterator yields, in order.
unfoldable mutual
  pub iterate : Fso → List Fso
  iterate (directory_fso e cs) = directory_fso e cs ∷ iterate_children cs
  iterate (childless_fso k e) = childless_fso k e ∷ []

  pub iterate_children : Children → List Fso
  iterate_children no_children = []
  iterate_children (child o cs) = iterate o ++ iterate_children cs

unfoldable mutual
  pub reverse_iterate : Fso → List Fso
  reverse_iterate (directory_fso e cs) = reverse_iterate_children cs ++ directory_fso e cs ∷ []
  reverse_iterate (childless_fso k e) = childless_fso k e ∷ []

  pub reverse_iterate_children : Children → List Fso
  reverse_iterate_children no_children = []
  reverse_iterate_children (child o cs) = reverse_iterate_children cs ++ reverse_iterate o

mutual
  unfolding iterate reverse_iterate

  reverse_tree : (o : Fso) → reverse_iterate o ≡ reverse (iterate o)
  reverse_tree (directory_fso e cs) =
      ap (λ l. l ++ directory_fso e cs ∷ []) (reverse_list cs)
      ∙ sym (reverse-append (directory_fso e cs ∷ []) (iterate_children cs))
  reverse_tree (childless_fso k e) = refl

  reverse_list : (cs : Children) → reverse_iterate_children cs ≡ reverse (iterate_children cs)
  reverse_list no_children = refl
  reverse_list (child o cs) =
      ap₂ ◌++◌ (reverse_list cs) (reverse_tree o)
      ∙ sym (reverse-append (iterate o) (iterate_children cs))

-- The reverse iterator yields the objects of the iterator in the opposite order: each directory comes
-- after everything in it.
pub reverse_iterate-reverse : (o : Fso) → reverse_iterate o ≡ reverse (iterate o)
reverse_iterate-reverse o = reverse_tree o

-- The names from an object up to the root of its tree, and the path that they make below a base;
-- a path is the list of its components, and a missing base adds none.
unfoldable pub path_override_base : Option (List Name) → List Name → List Name
path_override_base none names = reverse names
path_override_base (some base) names = base ++ reverse names
