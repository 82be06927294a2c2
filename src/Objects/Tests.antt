-- ===== src/Objects/Tests.antt =====
-- The file system objects at a small tree: C holds the file a and the directory D, which holds b.
use zekvok.Prelude.{
  ℕ, ◌+◌, ◌≡◌, refl, true, false, none, some, List, [], ◌∷◌, reverse, ◌≢◌, if◌then◌else◌, ltb,
}
use zekvok.Exception.{ok}
use zekvok.Objects.Restore.{restore_tree, remove_all, create_directory, create_symlink}
use zekvok.Objects.Restore.Deferred.{restore_tree-calls_of}
use zekvok.Objects.Tree.{
  Name, Entry, Fso, Children, directory_fso, childless_fso, entry, path_override_base,
  regular_file_fso, file_hardlink_fso, file_symlink_fso, no_children, child, iterate,
  path_override_base, reverse_iterate, reverse_iterate-reverse,
}
use zekvok.Objects.Find.{names_directory, names_childless, find, find_path, encrypt_string_ci}
use zekvok.Objects.Found.{
  IsPlain, Distinct, named, first_named, find-first_named, find_path-path_override_base,
}
use zekvok.Utility.Text.{to_lower}
use zekvok.Objects.Encrypt.{
  TellsChildren, encrypt, map_option, find-encrypt, find-encrypt_childless,
}
use zekvok.Objects.Ids.{set_unique_ids}
use zekvok.Utility.Strcmpci.{equal, equal_below}

-- tolower on the capital letters of ASCII, and a digest that has no collision.
abbrev lower : ℕ → ℕ
lower c = if ltb c 91 then c + 32 else c

abbrev marked : Name → Name
marked s = 0 ∷ s

abbrev plain_entry : Name → Entry
plain_entry name = record {
  name = name;
  link_target = none;
  peers = [];
  latest_version = some 2;
  exceptions = [];
  stream_id = 0;
  is_encrypted = false;
}

abbrev a_file : Fso
a_file = childless_fso regular_file_fso (plain_entry (b'a' ∷ []))

abbrev b_link : Fso
b_link = childless_fso file_symlink_fso (plain_entry (b'b' ∷ []))

abbrev d_contents : Children
d_contents = child b_link no_children

abbrev c_contents : Children
c_contents = child a_file (child (directory_fso (plain_entry (b'D' ∷ [])) d_contents) no_children)

abbrev c_tree : Fso
c_tree = directory_fso (plain_entry (b'C' ∷ [])) c_contents

abbrev b_path : List Name
b_path = (b'c' ∷ []) ∷ (b'd' ∷ []) ∷ (b'B' ∷ []) ∷ []

finds_b : find lower marked true b_path c_tree ≡ some b_link
unfolding find equal names_directory equal_below names_childless
finds_b = refl

c_tree-IsPlain : IsPlain c_tree
unfolding IsPlain
c_tree-IsPlain = (refl, (refl, ((refl, (refl, tt)), tt)))

find-first_named_example :
    find lower marked true b_path c_tree ≡ first_named lower b_path (named c_tree)
find-first_named_example = find-first_named lower marked true b_path c_tree c_tree-IsPlain

c_tree-Distinct : Distinct lower (named c_tree)
unfolding named equal equal_below
c_tree-Distinct = ((refl, (refl, (refl, tt))), ((refl, (refl, tt)), ((refl, tt), (tt, tt))))

find_path-path_override_base_example :
    find_path lower marked
      ((b'X' ∷ []) ∷ [])
      (path_override_base
        (some ((b'X' ∷ []) ∷ []))
        (reverse ((b'C' ∷ []) ∷ (b'D' ∷ []) ∷ (b'b' ∷ []) ∷ [])))
      c_tree
    ≡ some b_link
unfolding named
find_path-path_override_base_example =
    find_path-path_override_base lower marked ((b'X' ∷ []) ∷ []) c_tree 3
      ((b'C' ∷ []) ∷ (b'D' ∷ []) ∷ (b'b' ∷ []) ∷ []) b_link c_tree-IsPlain c_tree-Distinct refl

marked_apart : (a b : Name) → marked a ≡ marked b → a ≡ b
marked_apart a b h = cc

contents_told : (k : Name) → TellsChildren lower marked k c_contents
unfolding TellsChildren encrypt_string_ci to_lower
contents_told k = (marked_apart _ _, ((marked_apart _ _, (marked_apart _ _, tt)), tt))

find-encrypt_example :
    find lower marked true b_path (encrypt lower marked true c_tree)
    ≡ map_option (encrypt lower marked false) (find lower marked true b_path c_tree)
find-encrypt_example =
    find-encrypt lower marked (plain_entry (b'C' ∷ [])) c_contents (b'c' ∷ []) (b'd' ∷ [])
      ((b'B' ∷ []) ∷ []) (λ k i. contents_told k) c_tree-IsPlain

other_digest : encrypt_string_ci lower marked (b'a' ∷ []) ≢ b'a' ∷ []
unfolding encrypt_string_ci
other_digest h = cc

find-encrypt_childless_example :
    find lower marked true ((b'a' ∷ []) ∷ []) (encrypt lower marked true a_file) ≡ none
find-encrypt_childless_example =
    find-encrypt_childless lower marked regular_file_fso (plain_entry (b'a' ∷ [])) (b'a' ∷ []) refl
      other_digest

numbers_c_tree : (set_unique_ids 5 c_tree).1 ≡ 9
unfolding set_unique_ids
numbers_c_tree = refl

reverse_iterate-reverse_example : reverse_iterate c_tree ≡ reverse (iterate c_tree)
reverse_iterate-reverse_example = reverse_iterate-reverse c_tree

-- A file, a symbolic link and a hard link that is left for the archive.
abbrev linked_tree : Fso
linked_tree = directory_fso (plain_entry (b'C' ∷ [])) (
    child a_file (
      child
        (childless_fso file_symlink_fso
          (record (plain_entry (b'b' ∷ [])) { link_target = some (b'a' ∷ []) }))
        (child (childless_fso file_hardlink_fso (plain_entry (b'd' ∷ []))) no_children)))

restore_tree-calls_of_example :
    restore_tree none linked_tree
    ≡ ok (
      remove_all ((b'C' ∷ []) ∷ [])
          ∷ create_directory ((b'C' ∷ []) ∷ [])
          ∷ create_symlink ((b'C' ∷ []) ∷ (b'b' ∷ []) ∷ []) (b'a' ∷ [])
          ∷ [],
      a_file ∷ childless_fso file_hardlink_fso (plain_entry (b'd' ∷ [])) ∷ [],
    )
unfolding named entry path_override_base
restore_tree-calls_of_example =
    restore_tree-calls_of none linked_tree (tt, (tt, ((b'a' ∷ [], refl), (tt, tt))))
