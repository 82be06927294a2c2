-- ===== src/Objects/Restore/Deferred.antt =====
-- What restore_tree makes and leaves, against a description of it by filters.
use zekvok.Prelude.{ℕ, ◌≡◌, refl, ap, Option, none, some, List, [], ◌∷◌, reverse}
use zekvok.Exception.{Result, ok}
use zekvok.Objects.Tree.{
  Name, Entry, Childless, regular_file_fso, directory_symlink_fso, junction_fso, file_symlink_fso,
  file_reparse_point_fso, file_hardlink_fso, Fso, directory_fso, childless_fso, entry,
  path_override_base,
}
use zekvok.Objects.Found.{named}
use zekvok.Objects.Restore.{
  DiskCall, remove_all, create_directory, create_directory_symlink, create_junction, create_symlink,
  create_file_reparse_point, create_hardlink, get_stream_required, restore_internal, restore_plain,
  restore_hardlink, restore, restore_each, restore_tree, deferred,
}

-- The call that stands for an object whose data is not in a stream.
abbrev pub link_call : Childless → List Name → Name → Option DiskCall
link_call regular_file_fso path target = none
link_call directory_symlink_fso path target = some (create_directory_symlink path target)
link_call junction_fso path target = some (create_junction path target)
link_call file_symlink_fso path target = some (create_symlink path target)
link_call file_reparse_point_fso path target = some (create_file_reparse_point path target)
link_call file_hardlink_fso path target = some (create_hardlink path target)

abbrev pub call_of : List Name → Fso → Option DiskCall
call_of path (directory_fso e cs) = some (create_directory path)
call_of path (childless_fso k e) = elim e.link_target [
  | some target ↦ link_call k path target
  | none ↦ none
]

-- The calls of the objects that have one, in order.
abbrev pub calls_of : Option (List Name) → List (List Name × Fso) → List DiskCall
calls_of base [] = []
calls_of base ((names, o) ∷ objects) = elim (call_of (path_override_base base (reverse names)) o) [
  | some call ↦ call ∷ calls_of base objects
  | none ↦ calls_of base objects
]

-- The objects without a call that some version stores.
abbrev pub left_of : Option (List Name) → List (List Name × Fso) → List Fso
left_of base [] = []
left_of base ((names, o) ∷ objects) = elim (call_of (path_override_base base (reverse names)) o) [
  | some call ↦ left_of base objects
  | none ↦ elim (entry o).latest_version [
    | some v ↦ o ∷ left_of base objects
    | none ↦ left_of base objects
  ]
]

-- Every link has its target.
abbrev pub HasTarget : Fso → Type 0
HasTarget (directory_fso e cs) = Unit {0}
HasTarget (childless_fso regular_file_fso e) = Unit {0}
HasTarget (childless_fso file_hardlink_fso e) = Unit {0}
HasTarget (childless_fso k e) = (target : Name) × (e.link_target ≡ some target)

abbrev pub HaveTargets : List (List Name × Fso) → Type 0
HaveTargets [] = Unit {0}
HaveTargets ((names, o) ∷ objects) = HasTarget o × HaveTargets objects

regular_call :
    (path : List Name) (e : Entry) → call_of path (childless_fso regular_file_fso e) ≡ none
regular_call path e =
    elim e.link_target
      as (λ (t : Option Name).
        ◌≡◌ {A = Option DiskCall}
          (elim t [ some target ↦ link_call regular_file_fso path target | none ↦ none ]) none) [
            | some target ↦ refl
            | none ↦ refl
          ]

restore-call_of : (path : List Name) (o : Fso) → HasTarget o → restore path o ≡ ok (call_of path o)
unfolding restore restore_plain restore_hardlink get_stream_required restore_internal
restore-call_of path (directory_fso e cs) h = refl
restore-call_of path (childless_fso regular_file_fso e) h = rw (regular_call path e) refl
restore-call_of path (childless_fso file_hardlink_fso e) h =
    elim e.link_target
      as (λ (t : Option Name).
        ◌≡◌ {A = Result (Option DiskCall)}
          (elim t [ none ↦ ok none | some target ↦ ok (some (create_hardlink path target)) ])
          (ok (elim t [ some target ↦ link_call file_hardlink_fso path target | none ↦ none ]))) [
            | some target ↦ refl
            | none ↦ refl
          ]
restore-call_of path (childless_fso directory_symlink_fso e) (target, h) = rw h refl
restore-call_of path (childless_fso junction_fso e) (target, h) = rw h refl
restore-call_of path (childless_fso file_symlink_fso e) (target, h) = rw h refl
restore-call_of path (childless_fso file_reparse_point_fso e) (target, h) = rw h refl

deferred_lem :
    (call : Option DiskCall) (o : Fso) (calls : List DiskCall) (later : List Fso)
    → deferred call o (calls, later) ≡ (
      elim call [ some c ↦ c ∷ calls | none ↦ calls ],
      elim call [
        | some c ↦ later
        | none ↦ elim (entry o).latest_version [ some v ↦ o ∷ later | none ↦ later ]
      ],
    )
deferred_lem (some c) o calls later = refl
deferred_lem none o calls later =
    elim (entry o).latest_version
      as (λ (t : Option ℕ).
        ◌≡◌ {A = List DiskCall × List Fso}
          (elim t [ some v ↦ (calls, o ∷ later) | none ↦ (calls, later) ])
          (calls, elim t [ some v ↦ o ∷ later | none ↦ later ])) [ some v ↦ refl | none ↦ refl ]

restore_each_lem :
    (base : Option (List Name)) (objects : List (List Name × Fso))
    → HaveTargets objects
    → restore_each base objects ≡ ok (calls_of base objects, left_of base objects)
unfolding restore_each
restore_each_lem base [] h = refl
restore_each_lem base ((names, o) ∷ objects) (target, h) =
    rw
      (
        restore-call_of (path_override_base base (reverse names)) o target,
        restore_each_lem base objects h,
      )
      (ap ok (
        deferred_lem (call_of (path_override_base base (reverse names)) o) o (calls_of base objects)
          (left_of base objects)))

-- When every link of a tree has its target, a restore deletes what the path of the root names, then
-- makes the directories and the links in the order of the iterator, and leaves for the archives exactly
-- the other objects that some version stores: the regular files and the hard links without a target.
pub restore_tree-calls_of :
    (base : Option (List Name)) (o : Fso)
    → HaveTargets (named o)
    → restore_tree base o
      ≡ ok (
        remove_all (path_override_base base ((entry o).name ∷ [])) ∷ calls_of base (named o),
        left_of base (named o),
      )
unfolding restore_tree
restore_tree-calls_of base o h = rw (restore_each_lem base (named o) h) refl
