-- ===== src/Archive/Part.antt =====
-- ArchiveReader::ArchivePart of src/ArchiveIO.h and ArchiveReader::read_everything of
-- src/ArchiveIO.cpp. A source is the list of the bytes that it has still to deliver: a BoundedSource
-- of length n over it delivers the first n, and leaves the others (Streams.Bounded.work_delivers),
-- unless it is stopped before.
use zekvok.Prelude.{
  ℕ, ◌+◌, ◌-◌, min, ◌≡◌, refl, ap, ap₂, ◌∙◌, sym, Bool, true, false, Option, none, some, List, [],
  ◌∷◌, ◌++◌, append_assoc, arith, if◌then◌else◌, length, take, drop, take-append_le, drop-append_le,
  drop-append, length-append, length-take, length-drop, take-take, take_all, ◌≤◌, ◌⊎◌, inl, inr,
}

-- `created` is the number of bytes that the created source has passed on, if there is one.
pub record ArchivePart : Type 0 where
  pub stream_id : ℕ
  pub skip_bytes : ℕ
  pub stream_length : ℕ
  pub was_skipped : Bool
  pub created : Option ℕ

unfoldable pub new_part : ℕ → ℕ → ℕ → ArchivePart
new_part stream_id stream_length skip_bytes = record {
  stream_id = stream_id;
  skip_bytes = skip_bytes;
  stream_length = stream_length;
  was_skipped = false;
  created = none;
}

unfoldable pub skip : ArchivePart → ArchivePart
skip part = record part { was_skipped = true }

-- How a client reads a part: it takes at most `wanted` bytes of the created source. The source's thread
-- works ahead of it: by the time it is stopped it has passed on `ahead` bytes more, and it may have
-- taken a segment of `lost` bytes that it could not push, which it neither counts nor puts back.
pub record Reading : Type 0 where
  pub wanted : ℕ
  pub ahead : ℕ
  pub lost : ℕ

-- read(): the skipped bytes are discarded first. The result is what the client got of the created source,
-- and what is left of the common source when the created one is destroyed.
unfoldable pub read : Reading → ArchivePart → List ℕ → List ℕ × ArchivePart × List ℕ
read r part source =
    let passed = min (r.wanted + r.ahead) part.stream_length in
    let gone = min r.lost (part.stream_length - passed) in
    let rest = drop part.skip_bytes source in
    (
      take (min r.wanted part.stream_length) rest,
      record part { skip_bytes = 0; created = some (length (take passed rest)) },
      drop (passed + gone) rest,
    )

-- check_skip(): the new value of the count of bytes to skip.
unfoldable pub check_skip : ArchivePart → ℕ → ℕ
check_skip part skipped =
    if part.was_skipped then skipped + part.stream_length else elim part.created [
      | none ↦ skipped + part.stream_length
      | some written ↦ part.stream_length - written
    ]

-- What the coroutine's client does with a part that it is handed.
pub data Access : Type 0 where
  untouched skipped : Access
  reads : Reading → Access

unfoldable pub access : Access → ArchivePart → List ℕ → Option (List ℕ) × ArchivePart × List ℕ
unfolding skip read
access untouched part source = (none, part, source)
access skipped part source = (none, skip part, source)
access (reads r) part source =
    let (got, part', rest) = read r part source in (some got, part', rest)

-- The loop over stream_ids and stream_sizes. It ends early when the client leaves the coroutine.
unfoldable pub read_parts : List (ℕ × ℕ) → ℕ → List ℕ → List Access → List (Option (List ℕ))
unfolding new_part access check_skip
read_parts [] accumulated_skip source uses = []
read_parts (p ∷ ps) accumulated_skip source [] = []
read_parts ((id, size) ∷ ps) accumulated_skip source (a ∷ uses) =
    let part = new_part id size accumulated_skip in
    let (got, part', rest) = access a part source in
    got ∷ read_parts ps (check_skip part' accumulated_skip) rest uses

unfoldable pub read_everything : List (ℕ × ℕ) → List ℕ → List Access → List (Option (List ℕ))
unfolding read_parts
read_everything parts source uses = read_parts parts 0 source uses

-- The streams of an archive, and what a client should see of them.
abbrev pub sizes : List (ℕ × List ℕ) → List (ℕ × ℕ)
sizes [] = []
sizes ((id, xs) ∷ ss) = (id, length xs) ∷ sizes ss

abbrev pub joined : List (ℕ × List ℕ) → List ℕ
joined [] = []
joined ((id, xs) ∷ ss) = xs ++ joined ss

abbrev pub seen : Access → List ℕ → Option (List ℕ)
seen (reads r) xs = some (take r.wanted xs)
seen _ xs = none

abbrev pub views : List (ℕ × List ℕ) → List Access → List (Option (List ℕ))
views [] uses = []
views (s ∷ ss) [] = []
views ((id, xs) ∷ ss) (a ∷ uses) = seen a xs ∷ views ss uses

-- The created source passed on all of its stream, or it lost nothing when it was stopped.
abbrev pub IsKept : Access → List ℕ → Type 0
IsKept (reads r) xs = (length xs ≤ r.wanted + r.ahead) ⊎ (r.lost ≡ 0)
IsKept _ xs = Unit {0}

abbrev pub AreKept : List (ℕ × List ℕ) → List Access → Type 0
AreKept [] uses = Unit {0}
AreKept (s ∷ ss) [] = Unit {0}
AreKept ((id, xs) ∷ ss) (a ∷ uses) = IsKept a xs × AreKept ss uses

module _ (id : ℕ) (xs : List ℕ) (ss : List (ℕ × List ℕ)) (uses : List Access) (pending : List ℕ)
    (later : (rest : List ℕ)
      → read_parts (sizes ss) (length rest) (rest ++ joined ss) uses ≡ views ss uses) where
  passed_over :
      read_parts (sizes ss) (length pending + length xs) (pending ++ (xs ++ joined ss)) uses
      ≡ views ss uses
  passed_over =
      ap₂ (λ k src. read_parts (sizes ss) k src uses) (sym (length-append pending xs))
        (sym (append_assoc pending xs (joined ss)))
      ∙ later (pending ++ xs)

  module _ (r : Reading) (kept : IsKept (reads r) xs) where
    source_at : drop (length pending) (pending ++ (xs ++ joined ss)) ≡ xs ++ joined ss
    source_at = drop-append pending (xs ++ joined ss)

    got_bytes :
        take (min r.wanted (length xs)) (drop (length pending) (pending ++ (xs ++ joined ss)))
        ≡ take r.wanted xs
    got_bytes =
        ap (take (min r.wanted (length xs))) source_at
        ∙ take-append_le (min r.wanted (length xs)) xs (joined ss) (omega arith)
        ∙ sym (take-take r.wanted (length xs) xs)
        ∙ ap (take r.wanted) (take_all (length xs) xs (omega arith))

    passed : ℕ
    passed = min (r.wanted + r.ahead) (length xs)

    nothing_gone : passed + min r.lost (length xs - passed) ≡ passed
    unfolding passed
    nothing_gone = elim kept [
      | inl all ↦ omega (arith, all)
      | inr none_lost ↦ omega (arith, none_lost)
    ]

    passed_bytes :
        length (take passed (drop (length pending) (pending ++ (xs ++ joined ss)))) ≡ passed
    unfolding passed
    passed_bytes =
        ap (λ l. length (take passed l)) source_at
        ∙ (let e : length (take passed (xs ++ joined ss)) ≡ passed =
              omega (arith, length-take passed (xs ++ joined ss), length-append xs (joined ss)) in
            e)

    read_on :
        read_parts
          (sizes ss)
          (length xs - length (take passed (drop (length pending) (pending ++ (xs ++ joined ss)))))
          (drop
            (passed + min r.lost (length xs - passed))
            (drop (length pending) (pending ++ (xs ++ joined ss))))
          uses
        ≡ views ss uses
    unfolding passed
    read_on =
        ap₂ (λ n src. read_parts (sizes ss) n src uses)
          (let e : length xs
                  - length (take passed (drop (length pending) (pending ++ (xs ++ joined ss))))
                ≡ length (drop passed xs) =
              omega (arith, passed_bytes, length-drop passed xs) in
            e)
          (ap₂ drop nothing_gone source_at ∙ drop-append_le passed xs (joined ss) (omega arith))
        ∙ later (drop passed xs)

read_parts-views :
    (ss : List (ℕ × List ℕ)) (uses : List Access) (pending : List ℕ)
    → AreKept ss uses
    → read_parts (sizes ss) (length pending) (pending ++ joined ss) uses ≡ views ss uses
unfolding read_parts skip read passed
read_parts-views [] uses pending k = refl
read_parts-views (s ∷ ss) [] pending k = refl
read_parts-views ((id, xs) ∷ ss) (untouched ∷ uses) pending k =
    ap (◌∷◌ none) (passed_over id xs ss uses pending (λ rest. read_parts-views ss uses rest k.1))
read_parts-views ((id, xs) ∷ ss) (skipped ∷ uses) pending k =
    ap (◌∷◌ none) (passed_over id xs ss uses pending (λ rest. read_parts-views ss uses rest k.1))
read_parts-views ((id, xs) ∷ ss) (reads r ∷ uses) pending k =
    ap₂ ◌∷◌
      (ap some (got_bytes id xs ss uses pending (λ rest. read_parts-views ss uses rest k.1) r k.0))
      (read_on id xs ss uses pending (λ rest. read_parts-views ss uses rest k.1) r k.0)

pub read_everything-views :
    (ss : List (ℕ × List ℕ)) (uses : List Access)
    → AreKept ss uses
    → read_everything (sizes ss) (joined ss) uses ≡ views ss uses
unfolding read_everything
read_everything-views ss uses k = read_parts-views ss uses [] k
