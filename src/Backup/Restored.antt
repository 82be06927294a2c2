-- ===== src/Backup/Restored.antt =====
-- The loop of restore_thread of src/BackupSystem.cpp restores what it is given.
use zekvok.Prelude.{
  ℕ, suc, ◌<◌, ◌≡◌, refl, ap, ap₂, ◌∙◌, sym, subst, Bool, true, false, Option, none, some, List, [],
  ◌∷◌, ◌++◌, arith, ◌==◌, Bool-cases, inl, inr, ==_iff, append-nil, append_assoc, if◌then◌else◌,
}
use zekvok.Exception.{Result, ok, ◌>>=◌}
use zekvok.Backup.Restore.{
  Fso, Action, restored, Part, restore_stream, relink, link_files, is_finished, go_on,
  restore_parts, restore_version, content_of, Above, Ascending, IsFile, Restorable, all_bytes,
  follows, link_to, planned,
}

content_of-Above :
    (k low : ℕ) (parts : List Part) (content : List ℕ)
    → Above low parts
    → content_of k parts ≡ some content
    → low < k
content_of-Above k low [] content above h = absurd (cc)
content_of-Above k low ((i, c) ∷ parts) content above h = elim (Bool-cases (k == i)) [
  | inl same ↦ omega (arith, above.0, (==_iff k i).0 same)
  | inr other ↦
      omega (arith, above.0, content_of-Above k i parts content above.1 (ground (arith, h, other)))
]

other_part :
    (k id : ℕ) (c : List ℕ) (parts : List Part)
    → id < k
    → content_of k ((id, c) ∷ parts) ≡ content_of k parts
other_part k id c parts h = let e : (k == id) ≡ false = ground (arith, h) in rw e refl

drop_part :
    (id : ℕ) (c : List ℕ) (parts : List Part) (version low : ℕ) (files : List Fso)
    → id < low
    → Restorable ((id, c) ∷ parts) version low files
    → Restorable parts version low files
drop_part id c parts version low [] h r = tt
drop_part id c parts version low (f ∷ files) h (a, v, (content, e), k, r) = (
  a,
  v,
  (content, sym (other_part f.stream_id id c parts (omega (arith, h, a))) ∙ e),
  k,
  drop_part id c parts version f.stream_id files (omega (arith, h, a)) r,
)

-- A part before all of the files' does not matter.
planned-drop :
    (id : ℕ) (c : List ℕ) (parts : List Part) (leader : Option Fso) (version low : ℕ)
    (files : List Fso)
    → id < low
    → Restorable parts version low files
    → planned ((id, c) ∷ parts) leader files ≡ planned parts leader files
unfolding planned
planned-drop id c parts leader version low [] h r = refl
planned-drop id c parts leader version low (f ∷ files) h (a, v, e, k, r) =
    let behind = planned-drop id c parts leader version f.stream_id files (omega (arith, h, a)) r in
    let next = planned-drop id c parts (some f) version f.stream_id files (omega (arith, h, a)) r in
    elim (Bool-cases (follows leader f)) [
      | inl same ↦ rw same (ap (λ l. link_to leader f ++ l) behind)
      | inr other ↦ rw other (
          ap₂ (λ b l. restored f.unmapped_path (all_bytes b) ∷ l)
            (other_part f.stream_id id c parts (omega (arith, h, a))) next)
    ]

relink-IsFile : (fso f : Fso) → IsFile f → relink fso f ≡ ok (link_to (some fso) f)
unfolding relink
relink-IsFile fso f (inl regular) = rw (regular, relink) refl
relink-IsFile fso f (inr link) = rw (link, relink) refl

restore_stream-IsFile :
    (f : Fso) (content : List ℕ)
    → IsFile f
    → restore_stream f content ≡ ok (restored f.unmapped_path content)
unfolding restore_stream
restore_stream-IsFile f content (inl regular) = rw (regular, restore_stream) refl
restore_stream-IsFile f content (inr link) = rw (link, restore_stream) refl

abbrev Links : Fso → List Part → ℕ → List Fso → Type 0
Links fso parts version files =
    (links : List Action) × (left : List Fso) × (link_files fso files ≡ ok (links, left))
    × (planned parts (some fso) files ≡ links ++ planned parts none left)
    × Restorable parts version (suc fso.stream_id) left

-- The links of a stream's files, and the files of later streams behind them.
link_files-Links :
    (fso : Fso) (parts : List Part) (version : ℕ) (files : List Fso)
    → Restorable parts version fso.stream_id files
    → Links fso parts version files
unfolding link_files planned
link_files-Links fso parts version [] r = ([], [], refl, refl, tt)
link_files-Links fso parts version (f ∷ files) (a, v, e, k, r) =
    elim (Bool-cases (f.stream_id == fso.stream_id)) [
      | inl same ↦
          let s = (==_iff f.stream_id fso.stream_id).0 same in
          let (links, left, run, plan, n) =
            link_files-Links fso parts version files
              (subst (λ k. Restorable parts version k files) s r) in
          (
            link_to (some fso) f ++ links,
            left,
            rw (same, relink-IsFile fso f k, run) refl,
            rw same (
                ap (λ l. link_to (some fso) f ++ l) plan
                ∙ sym (append_assoc (link_to (some fso) f) links (planned parts none left))),
            n,
          )
      | inr other ↦
          ([], f ∷ files, rw other refl, rw other refl, (ground (arith, a, other), v, e, k, r))
    ]

not_finished :
    (version : ℕ) (f g : Fso) (gs : List Fso)
    → f.latest_version ≡ version
    → g.latest_version ≡ version
    → is_finished f (g ∷ gs) ≡ false
unfolding is_finished
not_finished version f g gs a b = ground (arith, a, b)

Above-Ascending : (id : ℕ) (parts : List Part) → Above id parts → Ascending parts
Above-Ascending id [] h = tt
Above-Ascending id ((i, c) ∷ parts) h = h.1

own :
    (id : ℕ) (c : List ℕ) (parts : List Part) (f : Fso)
    → f.stream_id ≡ id
    → content_of f.stream_id ((id, c) ∷ parts) ≡ some c
own id c parts f same = let e : (f.stream_id == id) ≡ true = ground (arith, same) in rw e refl

-- The end of the turn whose part is that of the first file.
go_on-planned :
    (parts : List Part) (version low : ℕ) (f : Fso) (done : List Action) (left : List Fso)
    → f.latest_version ≡ version
    → Restorable parts version low left
    → ((g : Fso) (gs : List Fso)
        → Restorable parts version low (g ∷ gs)
        → restore_parts parts (g ∷ gs) ≡ ok (planned parts none (g ∷ gs), []))
    → go_on f done left (restore_parts parts left) ≡ ok (done ++ planned parts none left, [])
unfolding planned is_finished
go_on-planned parts version low f done [] v n later = ap (λ l. ok (l, [])) (sym (append-nil done))
go_on-planned parts version low f done (g ∷ gs) v n later =
    ap
      (λ (b : Bool).
        if b
        then ok (done, g ∷ gs)
        else (restore_parts parts (g ∷ gs) >>= λ rest. ok (done ++ rest.0, rest.1)))
      (not_finished version f g gs v n.1)
    ∙ ap (λ (r : Result (List Action × List Fso)). r >>= λ rest. ok (done ++ rest.0, rest.1))
        (later g gs n)

module _ (id : ℕ) (c : List ℕ) (parts : List Part) (f : Fso) (files : List Fso) where
  skipped_turn :
      (f.stream_id == id) ≡ false
      → restore_parts ((id, c) ∷ parts) (f ∷ files) ≡ restore_parts parts (f ∷ files)
  unfolding restore_parts
  skipped_turn other = rw other refl

  own_turn :
      (links : List Action) (left : List Fso)
      → (f.stream_id == id) ≡ true
      → IsFile f
      → link_files f files ≡ ok (links, left)
      → restore_parts ((id, c) ∷ parts) (f ∷ files)
        ≡ go_on f (restored f.unmapped_path c ∷ links) left (restore_parts parts left)
  unfolding restore_parts
  own_turn links left same k run = rw (same, restore_stream-IsFile f c k, run) refl

all_restored :
    (parts : List Part) (version low : ℕ) (f : Fso) (files : List Fso)
    → Ascending parts
    → Restorable parts version low (f ∷ files)
    → restore_parts parts (f ∷ files) ≡ ok (planned parts none (f ∷ files), [])
unfolding planned
all_restored [] version low f files asc (a, v, (content, e), k, r) = absurd (cc)
all_restored ((id, c) ∷ parts) version low f files asc (a, v, (content, e), k, r) =
    elim (Bool-cases (f.stream_id == id)) [
      | inr other ↦
          let e' : content_of f.stream_id parts ≡ some content = ground (arith, e, other) in
          let after = content_of-Above f.stream_id id parts content asc e' in
          let rest = drop_part id c parts version f.stream_id files after r in
          let all : Restorable parts version f.stream_id (f ∷ files) =
            (omega arith, v, (content, e'), k, rest) in
          skipped_turn id c parts f files other
          ∙ all_restored parts version f.stream_id f files (Above-Ascending id parts asc) all
          ∙ ap (λ l. ok (l, []))
              (sym (planned-drop id c parts none version f.stream_id (f ∷ files) after all))
      | inl same ↦
          let s = (==_iff f.stream_id id).0 same in
          let (links, left, run, plan, n) = link_files-Links f ((id, c) ∷ parts) version files r in
          let n' =
            drop_part id c parts version (suc id) left (omega arith)
              (subst (λ k. Restorable ((id, c) ∷ parts) version (suc k) left) s n) in
          own_turn id c parts f files links left same k run
          ∙ go_on-planned parts version (suc id) f (restored f.unmapped_path c ∷ links) left v n'
              (λ g gs h. all_restored parts version (suc id) g gs (Above-Ascending id parts asc) h)
          ∙ ap₂ (λ b l. ok (restored f.unmapped_path (all_bytes b) ∷ l, []))
              (sym (own id c parts f s))
              (ap (λ l. links ++ l)
                  (sym (planned-drop id c parts none version (suc id) left (omega arith) n'))
                ∙ sym plan)
    ]

-- The regular files and hard links of one version, in the order of their streams, against the parts of
-- its archive, whose ids ascend and among which each file has its stream: the turn succeeds, and writes
-- the bytes of each stream to the unmapped path of the first file of the stream, then makes each hard
-- link of the same stream behind it a link to that file's mapped path, in the order of the files, and
-- nothing else; to a regular file of the same stream behind the first nothing is done.
pub restore_version-planned :
    (parts : List Part) (version : ℕ) (f : Fso) (files : List Fso)
    → Ascending parts
    → Restorable parts version 0 (f ∷ files)
    → restore_version parts (f ∷ files) ≡ ok (planned parts none (f ∷ files))
unfolding restore_version
restore_version-planned parts version f files asc r =
    rw (all_restored parts version 0 f files asc r) refl
