-- ===== src/Backup/Reorder.antt =====
-- reorder_file_streams of src/BackupSystem.cpp: the files go to the archive in the order of their
-- extensions and sizes, under the ids that they had together, from the lowest on.
use mathlib.Core.List.{Perm}
use zekvok.Prelude.{
  ℕ, ◌≡◌, refl, ap, sym, subst, Bool, true, false, List, [], ◌∷◌, map, length, ltb, if◌then◌else◌,
  arith, Bool-cases, inl, inr, ◌+◌, ◌∙◌, ◌==◌, Option, none, some, ◌≢◌,
}
use zekvok.Exception.{Result, ok, throw, ◌>>=◌, ◌>>◌, incorrect_implementation, zekvok_assert}
use zekvok.Utility.Strcmpci.{less_than}
use zekvok.Utility.Text.{get_extension}
use zekvok.Backup.Sort.{insert, sort, sort-Perm, Sorted, sort-Sorted}

-- A FileQueueElement with what the sort looks at, and get_backup_stream of its file: the BackupStream
-- objects are numbered, and `none` is a null pointer.
pub record QueuedFile : Type 0 where
  pub name : List ℕ
  pub size : ℕ
  pub stream_id : ℕ
  pub backup_stream : Option ℕ

-- The unique ids of the BackupStream objects.
abbrev pub UniqueIds : Type 0
UniqueIds = ℕ → ℕ

abbrev pub set_unique_id : Option ℕ → ℕ → UniqueIds → UniqueIds
set_unique_id none id streams = streams
set_unique_id (some s) id streams = λ k. if k == s then id else streams k

abbrev pub is_set : Option ℕ → Bool
is_set none = false
is_set (some s) = true

-- `is_text` is is_text_extension.
module _ (tolower : ℕ → ℕ) (is_text : List ℕ → Bool) where
  unfoldable pub extension_sort : List ℕ → List ℕ → Bool
  extension_sort a b =
      if is_text a
      then (if is_text b then less_than tolower a b else true)
      else (if is_text b then false else less_than tolower a b)

  -- The comparison that std::sort is given.
  unfoldable pub file_before : QueuedFile → QueuedFile → Bool
  file_before a b =
      let x = get_extension tolower a.name in
      let y = get_extension tolower b.name in
      if extension_sort x y then true else if extension_sort y x then false else ltb a.size b.size

  -- The loop that hands the sorted ids out, to the files and to their streams.
  unfoldable pub number_files :
      List QueuedFile → List ℕ → UniqueIds → Result (List QueuedFile × UniqueIds)
  number_files [] [] streams = ok ([], streams)
  number_files (f ∷ files) (id ∷ ids) streams = do
    zekvok_assert (is_set f.backup_stream)
    rest ← number_files files ids (set_unique_id f.backup_stream id streams)
    ok (record f { stream_id = id } ∷ rest.0, rest.1)
  number_files _ _ streams = throw incorrect_implementation

  unfoldable pub reorder_file_streams :
      List QueuedFile → UniqueIds → Result (List QueuedFile × UniqueIds)
  reorder_file_streams queue streams =
      number_files (sort file_before queue) (sort ltb (map (λ f. f.stream_id) queue)) streams

  abbrev pub contents_of : QueuedFile → List ℕ × ℕ × Option ℕ
  contents_of f = (f.name, f.size, f.backup_stream)

  -- Two files do not share a stream.
  abbrev pub Differ : QueuedFile → QueuedFile → Type 0
  Differ f g = (s : ℕ) → f.backup_stream ≡ some s → g.backup_stream ≡ some s → ⊥

  abbrev pub AllDiffer : QueuedFile → List QueuedFile → Type 0
  AllDiffer f [] = Unit {0}
  AllDiffer f (g ∷ files) = Differ f g × AllDiffer f files

  -- Each file has a stream, which is its own.
  abbrev pub HaveStreams : List QueuedFile → Type 0
  HaveStreams [] = Unit {0}
  HaveStreams (f ∷ files) =
      ((s : ℕ) × (f.backup_stream ≡ some s)) × AllDiffer f files × HaveStreams files

  -- The stream of each file has the id of the file.
  abbrev pub AreNumbered : List QueuedFile → UniqueIds → Type 0
  AreNumbered [] streams = Unit {0}
  AreNumbered (f ∷ files) streams =
      ((s : ℕ) × (f.backup_stream ≡ some s) × (streams s ≡ f.stream_id)) × AreNumbered files streams

  insert-AllDiffer :
      (f g : QueuedFile) (files : List QueuedFile)
      → Differ f g
      → AllDiffer f files
      → AllDiffer f (insert file_before g files)
  unfolding insert
  insert-AllDiffer f g [] d h = (d, tt)
  insert-AllDiffer f g (x ∷ files) d h = elim (Bool-cases (file_before x g)) [
    | inl before ↦ rw before (h.0, insert-AllDiffer f g files d h.1)
    | inr after ↦ rw after (d, h)
  ]

  insert-HaveStreams :
      (f : QueuedFile) (files : List QueuedFile)
      → HaveStreams (f ∷ files)
      → HaveStreams (insert file_before f files)
  unfolding insert
  insert-HaveStreams f [] h = h
  insert-HaveStreams f (x ∷ files) h = elim (Bool-cases (file_before x f)) [
    | inl before ↦ rw before (
      h.2.0,
      insert-AllDiffer x f files (λ s a b. h.1.0 s b a) h.2.1,
      insert-HaveStreams f files (h.0, h.1.1, h.2.2),
    )
    | inr after ↦ rw after h
  ]

  sorted-AllDiffer :
      (f : QueuedFile) (files : List QueuedFile)
      → AllDiffer f files
      → AllDiffer f (sort file_before files)
  unfolding sort
  sorted-AllDiffer f [] h = h
  sorted-AllDiffer f (x ∷ files) h =
      insert-AllDiffer f x (sort file_before files) h.0 (sorted-AllDiffer f files h.1)

  sorted-HaveStreams :
      (files : List QueuedFile) → HaveStreams files → HaveStreams (sort file_before files)
  unfolding sort
  sorted-HaveStreams [] h = h
  sorted-HaveStreams (f ∷ files) h =
      insert-HaveStreams f (sort file_before files)
        (h.0, sorted-AllDiffer f files h.1, sorted-HaveStreams files h.2)

  set_same :
      (b : Option ℕ) (s id : ℕ) (streams : UniqueIds)
      → b ≡ some s
      → set_unique_id b id streams s ≡ id
  set_same b s id streams e = rw e (let z : (s == s) ≡ true = ground arith in rw z refl)

  set_other :
      (b : Option ℕ) (s k id : ℕ) (streams : UniqueIds)
      → b ≡ some s
      → k ≢ s
      → set_unique_id b id streams k ≡ streams k
  set_other b s k id streams e d = rw e (let z : (k == s) ≡ false = ground (arith, d) in rw z refl)

  -- The ids are handed out in order, each to a file and its stream, and to no other stream.
  number_files_lem :
      (files : List QueuedFile) (ids : List ℕ) (streams : UniqueIds)
      → length files ≡ length ids
      → HaveStreams files
      → (queue : List QueuedFile) × (after : UniqueIds) × (number_files files ids streams
          ≡ ok (queue, after))
        × (map (λ f. f.stream_id) queue ≡ ids)
        × (map contents_of queue ≡ map contents_of files)
        × AreNumbered queue after
        × ((f : QueuedFile) (s : ℕ)
            → f.backup_stream ≡ some s
            → AllDiffer f files
            → after s ≡ streams s)
  unfolding number_files
  number_files_lem [] [] streams e h = ([], streams, refl, refl, refl, tt, λ f s a d. refl)
  number_files_lem [] (id ∷ ids) streams e h = absurd (omega arith)
  number_files_lem (f ∷ files) [] streams e h = absurd (omega arith)
  number_files_lem (f ∷ files) (id ∷ ids) streams e ((s, own), apart, h) =
      let (queue, after, run, numbers, names, right, keeps) =
        number_files_lem files ids (set_unique_id f.backup_stream id streams) (omega arith) h in
      (
        record f { stream_id = id } ∷ queue,
        after,
        ap
              (λ (b : Bool).
                zekvok_assert b
                >> (number_files files ids (set_unique_id f.backup_stream id streams) >>= λ rest.
                    ok (record f { stream_id = id } ∷ rest.0, rest.1)))
              (ap is_set own)
            ∙ ap
                (λ (r : Result (List QueuedFile × UniqueIds)).
                  r >>= λ rest. ok (record f { stream_id = id } ∷ rest.0, rest.1))
                run,
        ap (◌∷◌ id) numbers,
        ap (◌∷◌ (contents_of f)) names,
        ((s, own, keeps f s own apart ∙ set_same f.backup_stream s id streams own), right),
        λ g k at d.
            keeps g k at d.1
            ∙ set_other f.backup_stream s k id streams own (λ e. d.0 s (at ∙ ap some e) own),
      )

  length-insert :
      {A : Type 0} (less : A → A → Bool) (a : A) (xs : List A)
      → length (insert less a xs) ≡ length xs + 1
  unfolding insert
  length-insert less a [] = omega arith
  length-insert less a (b ∷ xs) = elim (Bool-cases (less b a)) [
    | inl before ↦ rw before (omega (arith, length-insert less a xs))
    | inr after ↦ rw after (omega arith)
  ]

  length-sort : {A : Type 0} (less : A → A → Bool) (xs : List A) → length (sort less xs) ≡ length xs
  unfolding sort
  length-sort less [] = refl
  length-sort less (a ∷ xs) =
      omega (arith, length-insert less a (sort less xs), length-sort less xs)

  length-map : (files : List QueuedFile) → length (map (λ f. f.stream_id) files) ≡ length files
  length-map [] = refl
  length-map (f ∷ files) = omega (arith, length-map files)

  -- When each file of the queue has a stream of its own, reorder_file_streams succeeds: the ids of its
  -- queue ascend and are those of the files before it, its files are those before it, in the order of the
  -- sort, and the stream of each has the id of its file.
  pub reorder_file_streams-Sorted :
      (files : List QueuedFile) (streams : UniqueIds)
      → HaveStreams files
      → (queue : List QueuedFile) × (after : UniqueIds) × (reorder_file_streams files streams
          ≡ ok (queue, after))
        × Sorted 0 (map (λ f. f.stream_id) queue)
        × Perm (map (λ f. f.stream_id) queue) (map (λ f. f.stream_id) files)
        × (map contents_of queue ≡ map contents_of (sort file_before files))
        × AreNumbered queue after
  unfolding reorder_file_streams
  reorder_file_streams-Sorted files streams h =
      let ids = map (λ f. f.stream_id) files in
      let same : length (sort file_before files) ≡ length (sort ltb ids) =
        omega (arith, length-sort file_before files, length-sort ltb ids, length-map files) in
      let (queue, after, run, numbers, names, right, keeps) =
        number_files_lem (sort file_before files) (sort ltb ids) streams same
          (sorted-HaveStreams files h) in
      (
        queue,
        after,
        run,
        subst (Sorted 0) (sym numbers) (sort-Sorted ids),
        subst (λ xs. Perm xs ids) (sym numbers) (sort-Perm ltb ids),
        names,
        right,
      )
