-- ===== src/Backup/Changes.antt =====
-- What file_has_changed and check_and_maybe_add of src/BackupSystem.cpp decide.
use zekvok.Prelude.{
  ℕ, ◌≡◌, refl, ap, ◌∙◌, sym, Bool, true, false, not, Option, none, some, List, if◌then◌else◌,
  Bool-cases, inl, inr, ◌↔◌,
}
use zekvok.Exception.{ok}
use zekvok.Archive.Reader.{bytes_equal}
use zekvok.Archive.Complete.{bytes_equal_refl, bytes_equal_sound}
use zekvok.Backup.Files.{
  ChangeCriterium, hash, Object, is_directoryish, is_hardlink, is_no_backup, compute_hash,
  compare_hashes, get_change_criterium, differs, find_old, file_has_changed,
}
use zekvok.Backup.Streams.{
  Run, lookup, is_known, should_be_added, fix_up_stream_reference, check_and_maybe_add,
}

-- Under the criterium of hashes, a file that can be opened and that has an old version with a known
-- hash is left out as unchanged exactly when the digest of its contents is the old hash.
pub file_has_changed-hash :
    (finds : List (Option Object)) (new_file old_file : Object) (digest old : List ℕ)
    → find_old finds ≡ some old_file
    → old_file.hash ≡ some old
    → new_file.hash ≡ none
    → new_file.on_disk ≡ some digest
    → ((file_has_changed hash finds new_file).0 ≡ false) ↔ (digest ≡ old)
unfolding file_has_changed differs get_change_criterium compare_hashes compute_hash
file_has_changed-hash finds new_file old_file digest old a b c d =
    elim (Bool-cases (bytes_equal digest old)) [
      | inl same ↦ (
        λ _. bytes_equal_sound digest old same,
        λ _. rw (a, b, c, d, same, file_has_changed, differs, compare_hashes, compute_hash) refl,
      )
      | inr other ↦ (
        λ h.
            let t : (file_has_changed hash finds new_file).0 ≡ true =
              rw (a, b, c, d, other, file_has_changed, differs, compare_hashes, compute_hash)
                refl in
            let z : true ≡ false = sym t ∙ h in absurd (cc),
        λ e.
            let z = ap (bytes_equal digest) (sym e) ∙ bytes_equal_refl digest in
            let y = sym other ∙ z in absurd (cc),
      )
    ]

known_not_added :
    (version : ℕ) (fso : Object) (run : Run) (i : ℕ)
    → is_directoryish fso.object_type ≡ false
    → is_no_backup fso.backup_mode ≡ false
    → is_hardlink fso.object_type ≡ false
    → fso.file_system_guid.valid ≡ true
    → lookup fso.file_system_guid.guid run.known_guids ≡ some i
    → should_be_added version run fso ≡ (false, record fso { latest_version = some version })
unfolding should_be_added
known_not_added version fso run i a b c d e =
    let known : is_known fso.file_system_guid run.known_guids ≡ true = rw (d, e) refl in
    rw (a, b, c) (ap (λ k. (not k, record fso { latest_version = some version })) known)

last_of_three :
    {A : Type 0} (b c d : Bool) (x y : A)
    → b ≡ false
    → c ≡ false
    → d ≡ true
    → (if b then x else if c then x else if d then x else y) ≡ x
last_of_three b c d x y h k l = rw (h, k, l) refl

valid_not_fixed :
    (fso : Object) (run : Run)
    → is_directoryish fso.object_type ≡ false
    → is_hardlink fso.object_type ≡ false
    → fso.file_system_guid.valid ≡ true
    → fix_up_stream_reference run fso ≡ (fso, run)
unfolding fix_up_stream_reference
valid_not_fixed fso run a c d = last_of_three _ _ _ _ _ c a d

-- A regular file whose guid is valid and known gets no stream: check_and_maybe_add sets its version
-- to the new one and changes nothing else, neither its stream's id nor the stream it refers to.
pub check_and_maybe_add_known :
    (criterium : ChangeCriterium) (version : ℕ) (finds : List (Option Object)) (fso : Object)
    (run : Run) (i : ℕ)
    → is_directoryish fso.object_type ≡ false
    → is_no_backup fso.backup_mode ≡ false
    → is_hardlink fso.object_type ≡ false
    → fso.file_system_guid.valid ≡ true
    → lookup fso.file_system_guid.guid run.known_guids ≡ some i
    → check_and_maybe_add criterium version finds fso run
      ≡ ok (none, record fso { latest_version = some version }, run)
unfolding check_and_maybe_add
check_and_maybe_add_known criterium version finds fso run i a b c d e =
    rw (known_not_added version fso run i a b c d e)
      (rw (valid_not_fixed (record fso { latest_version = some version }) run a c d) refl)
