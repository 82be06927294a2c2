-- ===== src/Backup/StreamIds.antt =====
-- The numbering of the streams by generate_streams of src/BackupSystem.cpp.
use zekvok.Prelude.{
  ℕ, zero, suc, ◌+◌, ◌≡◌, refl, ap₂, ◌∙◌, Bool, true, false, not, Option, none, some, List, [], ◌∷◌,
  map, length, get_elem?, if◌then◌else◌, arith, Bool-cases, inl, inr, Option-cases, subst,
}
use zekvok.Exception.{Result, ok, throw, ◌>>=◌}
use zekvok.Backup.Files.{
  BackupMode, is_hardlink, is_directoryish, Object, file_has_changed, ChangeCriterium, unmodified,
  force_full, full, rsync, no_backup, directory_mode,
}
use zekvok.Backup.Streams.{
  Run, Outcome, has_data, queue_stream, numbered_run, numbered_object, generate_streams,
  check_and_maybe_add, make_stream, is_full, fix_up_stream_reference, lookup, should_be_added,
}

abbrev pub id_of : ℕ × Object → ℕ
id_of queued = (queued.1).stream_id

-- The numbers from `low`, as many as `n`.
abbrev pub range : ℕ → ℕ → List ℕ
range low zero = []
range low (suc n) = low ∷ range (low + 1) n

abbrev Numbered : ℕ → Result (List (ℕ × Object) × Run) → Type 0
Numbered low (throw e) = Unit {0}
Numbered low (ok (queued, run)) =
    (map id_of queued ≡ range low (length queued)) × (run.next_stream_id ≡ low + length queued)

abbrev pub TakesNoIds : Run → Result Outcome → Type 0
TakesNoIds run (throw e) = Unit {0}
TakesNoIds run (ok outcome) = (outcome.2).next_stream_id ≡ run.next_stream_id

one_more :
    (low i : ℕ) (fso : Object) (r : Result (List (ℕ × Object) × Run))
    → fso.stream_id ≡ low
    → Numbered (low + 1) r
    → Numbered low (r >>= λ q. ok ((i, fso) ∷ q.0, q.1))
one_more low i fso (throw e) h n = tt
one_more low i fso (ok (queued, run)) h n = (ap₂ ◌∷◌ h (n.0), omega (arith, n.1))

queued_next :
    (low : ℕ) (outcome : Outcome) (later : Run → Result (List (ℕ × Object) × Run))
    → (outcome.2).next_stream_id ≡ low
    → ((run : Run) → Numbered run.next_stream_id (later run))
    → Numbered low (queue_stream outcome later)
unfolding queue_stream
queued_next low (none, fso, run) later h n = subst (λ k. Numbered k (later run)) h (n run)
queued_next low (some i, fso, run) later h n = elim (Option-cases (get_elem? run.streams i)) [
  | inl out ↦ rw (out, queue_stream) (subst (λ k. Numbered k (later run)) h (n run))
  | inr (s, at) ↦ elim (Bool-cases (has_data s.contents)) [
    | inr empty ↦ rw (at, empty, queue_stream) (subst (λ k. Numbered k (later run)) h (n run))
    | inl data_there ↦
        rw (at, data_there, queue_stream)
          (one_more low i (numbered_object run fso) (later (numbered_run i s run)) h (
            subst (λ k. Numbered (k + 1) (later (numbered_run i s run))) h
              (n (numbered_run i s run))))
  ]
]

generated :
    (low : ℕ) (run : Run) (r : Result Outcome) (later : Run → Result (List (ℕ × Object) × Run))
    → TakesNoIds run r
    → run.next_stream_id ≡ low
    → ((run : Run) → Numbered run.next_stream_id (later run))
    → Numbered low (r >>= λ outcome. queue_stream outcome later)
generated low run (throw e) later h k n = tt
generated low run (ok outcome) later h k n = queued_next low outcome later (h ∙ k) n

module _ {Child : Type 0} (generator : Child → Run → Result Outcome)
    (keeps : (child : Child) (run : Run) → TakesNoIds run (generator child run)) where
  numbered :
      (children : List Child) (run : Run)
      → Numbered run.next_stream_id (generate_streams generator children run)
  unfolding generate_streams
  numbered [] run = (refl, omega arith)
  numbered (child ∷ children) run =
      generated run.next_stream_id run (generator child run) (generate_streams generator children)
        (keeps child run) refl (numbered children)

by_mode :
    (m : BackupMode) (version : Option ℕ) (fso : Object) (run : Run)
    → TakesNoIds run (make_stream version (record fso { backup_mode = m }) run)
unfolding make_stream
by_mode no_backup version fso run = tt
by_mode directory_mode version fso run = tt
by_mode force_full version fso run = refl
by_mode full version fso run = refl
by_mode unmodified version fso run = refl
by_mode rsync version fso run = tt

fix_up-TakesNoIds :
    (run : Run) (fso : Object)
    → ((fix_up_stream_reference run fso).1).next_stream_id ≡ run.next_stream_id
unfolding fix_up_stream_reference
fix_up-TakesNoIds run fso = elim (Bool-cases (is_hardlink fso.object_type)) [
  | inl yes_link ↦ rw (yes_link, fix_up_stream_reference) refl
  | inr no_link ↦ elim (Bool-cases (is_directoryish fso.object_type)) [
    | inl dir ↦ rw (no_link, dir, fix_up_stream_reference) refl
    | inr no_dir ↦ elim (Bool-cases fso.file_system_guid.valid) [
      | inl valid ↦ rw (no_link, no_dir, valid, fix_up_stream_reference) refl
      | inr invalid ↦ elim (Option-cases (lookup fso.file_system_guid.guid run.known_guids)) [
        | inl unknown ↦ rw (no_link, no_dir, invalid, unknown, fix_up_stream_reference) refl
        | inr (i, known) ↦ elim (Option-cases (get_elem? run.streams i)) [
          | inl out ↦ rw (no_link, no_dir, invalid, known, out, fix_up_stream_reference) refl
          | inr (s, at) ↦ rw (no_link, no_dir, invalid, known, at, fix_up_stream_reference) refl
        ]
      ]
    ]
  ]
]

either :
    (b : Bool) (run : Run) (x y : Result Outcome)
    → TakesNoIds run x
    → TakesNoIds run y
    → TakesNoIds run (if b then x else y)
either true run x y h k = h
either false run x y h k = k

check_and_maybe_add-TakesNoIds :
    (criterium : ChangeCriterium) (version : ℕ) (finds : List (Option Object)) (fso : Object)
    (run : Run)
    → TakesNoIds run (check_and_maybe_add criterium version finds fso run)
unfolding check_and_maybe_add
check_and_maybe_add-TakesNoIds criterium version finds fso run =
    let fso1 = (should_be_added version run fso).1 in
    let r = file_has_changed criterium finds fso1 in
    let fso2 = if r.0 then r.2 else record r.2 { backup_mode = unmodified } in
    either (not (should_be_added version run fso).0) run _ _ (fix_up-TakesNoIds run fso1) (
      either (is_full fso1.backup_mode) run _ _ (by_mode fso2.backup_mode r.1 fso2 run)
        (by_mode fso1.backup_mode none fso1 run))

-- The streams that generate_streams queues when a new version is made over old ones are numbered
-- without a gap from the next id that the run had, and the next id it leaves is the one behind them.
pub generate_streams-range :
    (criterium : ChangeCriterium) (version : ℕ) (children : List (List (Option Object) × Object))
    (run : Run) (queued : List (ℕ × Object)) (run' : Run)
    → generate_streams (λ child. check_and_maybe_add criterium version child.0 child.1) children run
      ≡ ok (queued, run')
    → (map id_of queued ≡ range run.next_stream_id (length queued))
      × (run'.next_stream_id ≡ run.next_stream_id + length queued)
generate_streams-range criterium version children run queued run' e =
    subst (Numbered run.next_stream_id) e (
      numbered (λ child. check_and_maybe_add criterium version child.0 child.1)
        (λ child run. check_and_maybe_add-TakesNoIds criterium version child.0 child.1 run) children
        run)
