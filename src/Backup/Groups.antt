-- ===== src/Backup/Groups.antt =====
-- restore_backup of src/BackupSystem.cpp: the files that are left to restore are sorted and grouped
-- by the version that holds them.
use mathlib.Core.List.{Perm}
use zekvok.Prelude.{
  ℕ, ◌≡◌, refl, ap, ◌∙◌, sym, Bool, false, not, ◌&&◌, ◌||◌, none, some, List, [], ◌∷◌, ◌++◌,
  append_assoc, arith, ltb, ◌==◌, if◌then◌else◌, Bool-cases, inl, inr, ==_iff,
}
use zekvok.Utility.Search.{remove_duplicates, pushed}
use zekvok.Backup.Sort.{sort, sort-Perm}
use zekvok.Backup.Restore.{Fso}

-- The comparison that std::sort is given.
unfoldable pub restore_before : Fso → Fso → Bool
restore_before a b =
    ltb a.latest_version b.latest_version
    || (a.latest_version == b.latest_version && ltb a.stream_id b.stream_id)

-- A group: the version, and the files that it holds.
abbrev pub Group : Type 0
Group = ℕ × List Fso

-- The loop over restore_later; the last group is that of `version`, with the files `held` so far.
unfoldable pub collect : ℕ → List Fso → List Fso → List Group
collect version held [] = (version, held) ∷ []
collect version held (fso ∷ fsos) =
    let next = collect fso.latest_version (fso ∷ []) fsos in
    let same = collect version (held ++ fso ∷ []) fsos in
    if not (version == fso.latest_version) then (version, held) ∷ next else same

unfoldable pub fsos_per_version : List Fso → List Group
fsos_per_version [] = []
fsos_per_version (fso ∷ fsos) = collect fso.latest_version (fso ∷ []) fsos

unfoldable pub same_version : Group → Group → Bool
same_version a b = a.0 == b.0

unfoldable pub restore_groups : List Fso → List Group
restore_groups restore_later =
    remove_duplicates same_version (fsos_per_version (sort restore_before restore_later))

abbrev pub flatten : List Group → List Fso
flatten [] = []
flatten (g ∷ gs) = g.1 ++ flatten gs

abbrev pub AllOf : ℕ → List Fso → Type 0
AllOf version [] = Unit {0}
AllOf version (f ∷ fs) = (f.latest_version ≡ version) × AllOf version fs

abbrev pub AreUniform : List Group → Type 0
AreUniform [] = Unit {0}
AreUniform (g ∷ gs) = AllOf g.0 g.1 × AreUniform gs

flatten-collect : (v : ℕ) (held fsos : List Fso) → flatten (collect v held fsos) ≡ held ++ fsos
unfolding collect
flatten-collect v held [] = refl
flatten-collect v held (f ∷ fsos) = elim (Bool-cases (v == f.latest_version)) [
  | inl same ↦ rw same (flatten-collect v (held ++ f ∷ []) fsos ∙ append_assoc held (f ∷ []) fsos)
  | inr other ↦ rw other (ap (◌++◌ held) (flatten-collect f.latest_version (f ∷ []) fsos))
]

AllOf-snoc :
    (v : ℕ) (held : List Fso) (f : Fso)
    → AllOf v held
    → f.latest_version ≡ v
    → AllOf v (held ++ f ∷ [])
AllOf-snoc v [] f h e = (e, tt)
AllOf-snoc v (g ∷ held) f h e = (h.0, AllOf-snoc v held f h.1 e)

collect-AreUniform :
    (v : ℕ) (held fsos : List Fso) → AllOf v held → AreUniform (collect v held fsos)
unfolding collect
collect-AreUniform v held [] h = (h, tt)
collect-AreUniform v held (f ∷ fsos) h = elim (Bool-cases (v == f.latest_version)) [
  | inl same ↦ rw same (
      collect-AreUniform v (held ++ f ∷ []) fsos
        (AllOf-snoc v held f h (sym ((==_iff v f.latest_version).0 same))))
  | inr other ↦ rw other (h, collect-AreUniform f.latest_version (f ∷ []) fsos (refl, tt))
]

-- A group of another version than the one before it starts a list without duplicates.
pushed-collect :
    (q : Group) (v : ℕ) (held fsos : List Fso)
    → (v == q.0) ≡ false
    → pushed same_version (some q) (collect v held fsos) ≡ collect v held fsos
unfolding collect pushed same_version
pushed-collect q v held [] h = rw h refl
pushed-collect q v held (f ∷ fsos) h = elim (Bool-cases (v == f.latest_version)) [
  | inl same ↦ rw same (pushed-collect q v (held ++ f ∷ []) fsos h)
  | inr other ↦
      let e : (f.latest_version == v) ≡ false = ground (arith, other) in
      rw (other, h) (ap (◌∷◌ (v, held)) (pushed-collect (v, held) f.latest_version (f ∷ []) fsos e))
]

pushed_first :
    (v : ℕ) (held fsos : List Fso)
    → pushed same_version none (collect v held fsos) ≡ collect v held fsos
unfolding collect pushed
pushed_first v held [] = refl
pushed_first v held (f ∷ fsos) = elim (Bool-cases (v == f.latest_version)) [
  | inl same ↦ rw same (pushed_first v (held ++ f ∷ []) fsos)
  | inr other ↦
      let e : (f.latest_version == v) ≡ false = ground (arith, other) in
      rw other (ap (◌∷◌ (v, held)) (pushed-collect (v, held) f.latest_version (f ∷ []) fsos e))
]

no_duplicates :
    (fsos : List Fso)
    → remove_duplicates same_version (fsos_per_version fsos) ≡ fsos_per_version fsos
unfolding remove_duplicates fsos_per_version pushed
no_duplicates [] = refl
no_duplicates (f ∷ fsos) = pushed_first f.latest_version (f ∷ []) fsos

flatten-fsos_per_version : (fsos : List Fso) → flatten (fsos_per_version fsos) ≡ fsos
unfolding fsos_per_version
flatten-fsos_per_version [] = refl
flatten-fsos_per_version (f ∷ fsos) = flatten-collect f.latest_version (f ∷ []) fsos

fsos_per_version-AreUniform : (fsos : List Fso) → AreUniform (fsos_per_version fsos)
unfolding fsos_per_version
fsos_per_version-AreUniform [] = tt
fsos_per_version-AreUniform (f ∷ fsos) =
    collect-AreUniform f.latest_version (f ∷ []) fsos (refl, tt)

-- The groups hold the files that were left to restore, each as often as it was left, in the order of
-- the sort; every file of a group is held by the group's version.
pub restore_groups-flatten :
    (restore_later : List Fso)
    → (flatten (restore_groups restore_later) ≡ sort restore_before restore_later)
      × Perm (flatten (restore_groups restore_later)) restore_later
      × AreUniform (restore_groups restore_later)
unfolding restore_groups
restore_groups-flatten l =
    let sorted = sort restore_before l in
    rw (no_duplicates sorted, flatten-fsos_per_version sorted)
      (refl, sort-Perm restore_before l, fsos_per_version-AreUniform sorted)
