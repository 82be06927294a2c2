-- ===== src/Backup/Dependencies.antt =====
-- The dependencies of a version: get_dependencies of src/BackupSystem.cpp and of the streams, and the set
-- that archive_process_files makes of them.
use zekvok.Prelude.{
  ℕ, suc, ◌<◌, ◌≡◌, refl, ap, ◌∙◌, Bool, true, false, ◌||◌, Option, none, some, List, [], ◌∷◌,
  arith, ltb, ◌==◌, if◌then◌else◌, Bool-cases, inl, inr, get_elem?, ltb→lt,
}
use zekvok.Backup.Files.{Object}
use zekvok.Backup.Streams.{Contents, full_stream, unmodified_stream, Stream}

-- A version number as the source has it, one higher: 0 is invalid_version_number.
abbrev pub version_number : Option ℕ → ℕ
version_number none = 0
version_number (some v) = suc v

-- std::set<version_number_t>::insert, on the elements in order.
unfoldable pub insert : ℕ → List ℕ → List ℕ
insert v [] = v ∷ []
insert v (w ∷ set) =
    let later = insert v set in
    if ltb v w then v ∷ w ∷ set else if ltb w v then w ∷ later else w ∷ set

-- UnmodifiedStream::get_dependencies and FullStream::get_dependencies.
unfoldable pub stream_dependencies : Contents → List ℕ → List ℕ
unfolding insert
stream_dependencies (full_stream p v) set = set
stream_dependencies (unmodified_stream version v) set = insert (version_number version) set

-- BackupSystem::get_dependencies, by the latest version and the stream of the object. A pointer to a
-- stream is its place in `streams`.
abbrev pub by_stream : Option Stream → List ℕ → List ℕ
by_stream none set = set
by_stream (some s) set = stream_dependencies s.contents set

abbrev pub by_version : List Stream → Option ℕ → Option ℕ → List ℕ → List ℕ
by_version streams none pointer set = set
by_version streams (some v) none set = insert (version_number (some v)) set
by_version streams (some v) (some i) set = by_stream (get_elem? streams i) set

unfoldable pub get_dependencies : List Stream → Object → List ℕ → List ℕ
unfolding stream_dependencies
get_dependencies streams fso set = by_version streams fso.latest_version fso.backup_stream set

-- The loop of archive_process_files over the objects, in the order of the iterators.
unfoldable pub version_dependencies : List Stream → List Object → List ℕ → List ℕ
unfolding get_dependencies
version_dependencies streams [] set = set
version_dependencies streams (fso ∷ objects) set =
    version_dependencies streams objects (get_dependencies streams fso set)

-- An independent account: the version whose archive holds the data of an object, if it is not the
-- archive that is being written.
abbrev contents_need : Contents → ℕ → Bool
contents_need (full_stream p v) w = false
contents_need (unmodified_stream version v) w = version_number version == w

abbrev stream_needs : Option Stream → ℕ → Bool
stream_needs none w = false
stream_needs (some s) w = contents_need s.contents w

abbrev needs_version : List Stream → Option ℕ → Option ℕ → ℕ → Bool
needs_version streams none pointer w = false
needs_version streams (some v) none w = suc v == w
needs_version streams (some v) (some i) w = stream_needs (get_elem? streams i) w

abbrev pub needs : List Stream → Object → ℕ → Bool
needs streams fso w = needs_version streams fso.latest_version fso.backup_stream w

abbrev pub any_needs : List Stream → List Object → ℕ → Bool
any_needs streams [] w = false
any_needs streams (fso ∷ objects) w = needs streams fso w || any_needs streams objects w

abbrev pub mem : ℕ → List ℕ → Bool
mem w [] = false
mem w (v ∷ set) = v == w || mem w set

-- Ascending, so no version twice.
abbrev pub Above : ℕ → List ℕ → Type 0
Above v [] = Unit
Above v (w ∷ set) = v < w

abbrev pub Ascending : List ℕ → Type 0
Ascending [] = Unit
Ascending (v ∷ set) = Above v set × Ascending set

mem-insert : (v w : ℕ) (set : List ℕ) → mem w (insert v set) ≡ (v == w || mem w set)
unfolding insert
mem-insert v w [] = refl
mem-insert v w (x ∷ set) = let ih = mem-insert v w set in ground (arith, ih)

Above-insert : (u v : ℕ) (set : List ℕ) → u < v → Above u set → Above u (insert v set)
unfolding insert
Above-insert u v [] l h = l
Above-insert u v (x ∷ set) l h = ground arith

insert-Ascending : (v : ℕ) (set : List ℕ) → Ascending set → Ascending (insert v set)
unfolding insert
insert-Ascending v [] h = (tt, tt)
insert-Ascending v (x ∷ set) h = elim (Bool-cases (ltb v x)) [
  | inl less ↦ rw less (ltb→lt _ _ less, h)
  | inr not_less ↦ elim (Bool-cases (ltb x v)) [
    | inl more ↦
        rw (not_less, more) (Above-insert x v set (ltb→lt _ _ more) h.0, insert-Ascending v set h.1)
    | inr same ↦ rw (not_less, same) (h.0, h.1)
  ]
]

or_swap : (a b c : Bool) → (a || (b || c)) ≡ ((b || a) || c)
or_swap true true c = refl
or_swap true false c = refl
or_swap false true c = refl
or_swap false false c = refl

mem-stream_dependencies :
    (contents : Contents) (w : ℕ) (set : List ℕ)
    → mem w (stream_dependencies contents set) ≡ (contents_need contents w || mem w set)
unfolding stream_dependencies
mem-stream_dependencies (full_stream p v) w set = refl
mem-stream_dependencies (unmodified_stream version v) w set =
    mem-insert (version_number version) w set

stream_dependencies-Ascending :
    (contents : Contents) (set : List ℕ)
    → Ascending set
    → Ascending (stream_dependencies contents set)
unfolding stream_dependencies
stream_dependencies-Ascending (full_stream p v) set h = h
stream_dependencies-Ascending (unmodified_stream version v) set h =
    insert-Ascending (version_number version) set h

mem-by_stream :
    (s : Option Stream) (w : ℕ) (set : List ℕ)
    → mem w (by_stream s set) ≡ (stream_needs s w || mem w set)
mem-by_stream none w set = refl
mem-by_stream (some s) w set = mem-stream_dependencies s.contents w set

by_stream-Ascending :
    (s : Option Stream) (set : List ℕ) → Ascending set → Ascending (by_stream s set)
by_stream-Ascending none set h = h
by_stream-Ascending (some s) set h = stream_dependencies-Ascending s.contents set h

mem-by_version :
    (streams : List Stream) (latest pointer : Option ℕ) (w : ℕ) (set : List ℕ)
    → mem w (by_version streams latest pointer set)
      ≡ (needs_version streams latest pointer w || mem w set)
mem-by_version streams none pointer w set = refl
mem-by_version streams (some v) none w set = mem-insert (suc v) w set
mem-by_version streams (some v) (some i) w set = mem-by_stream (get_elem? streams i) w set

by_version-Ascending :
    (streams : List Stream) (latest pointer : Option ℕ) (set : List ℕ)
    → Ascending set
    → Ascending (by_version streams latest pointer set)
by_version-Ascending streams none pointer set h = h
by_version-Ascending streams (some v) none set h = insert-Ascending (suc v) set h
by_version-Ascending streams (some v) (some i) set h =
    by_stream-Ascending (get_elem? streams i) set h

mem-version_dependencies :
    (streams : List Stream) (objects : List Object) (w : ℕ) (set : List ℕ)
    → mem w (version_dependencies streams objects set) ≡ (any_needs streams objects w || mem w set)
unfolding version_dependencies get_dependencies
mem-version_dependencies streams [] w set = refl
mem-version_dependencies streams (fso ∷ objects) w set =
    mem-version_dependencies streams objects w (get_dependencies streams fso set)
    ∙ ap (λ b. any_needs streams objects w || b)
        (mem-by_version streams fso.latest_version fso.backup_stream w set)
    ∙ or_swap (any_needs streams objects w) (needs streams fso w) (mem w set)

Ascending-version_dependencies :
    (streams : List Stream) (objects : List Object) (set : List ℕ)
    → Ascending set
    → Ascending (version_dependencies streams objects set)
unfolding version_dependencies get_dependencies
Ascending-version_dependencies streams [] set h = h
Ascending-version_dependencies streams (fso ∷ objects) set h =
    Ascending-version_dependencies streams objects (get_dependencies streams fso set)
      (by_version-Ascending streams fso.latest_version fso.backup_stream set h)

or_false : (b : Bool) → (b || false) ≡ b
or_false true = refl
or_false false = refl

-- The dependencies of a version are exactly the versions that its objects need: those that hold the data
-- of an object that has a version but no stream in this archive, and the containing versions of the
-- objects whose stream is unmodified; each once, in ascending order.
pub version_dependencies-Ascending :
    (streams : List Stream) (objects : List Object)
    → ((w : ℕ) → mem w (version_dependencies streams objects []) ≡ any_needs streams objects w)
      × Ascending (version_dependencies streams objects [])
version_dependencies-Ascending streams objects = (
  λ w. mem-version_dependencies streams objects w [] ∙ or_false (any_needs streams objects w),
  Ascending-version_dependencies streams objects [] tt,
)
