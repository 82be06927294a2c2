-- ===== src/Streams/Segment.antt =====
-- class Segment of src/StreamProcessor.h: a window onto a pooled buffer.
use zekvok.Prelude.{
  ℕ, ◌+◌, ◌-◌, ◌≤◌, min, ◌≡◌, refl, ap, ◌∙◌, sym, Bool, true, false, Option, none, some, List, [],
  ◌++◌, arith, ltb, if◌then◌else◌, length, take, drop, Bool-cases, inl, inr, ◌⊎◌, dec_le,
  length-append, length-take, length-drop, take_all, take-append_le, take-take, drop-take,
  drop-drop,
}

pub data SegmentType : Type 0 where
  undefined eof payload flush full_flush : SegmentType

-- `buffer` is what `default_subsegment` spans, and `[offset, offset + size)` is the override.
pub record Segment : Type 0 where
  pub kind : SegmentType
  pub allocated : Bool
  pub buffer : List ℕ
  pub offset : ℕ
  pub size : ℕ

-- Segment(SegmentType)
unfoldable pub signal : SegmentType → Segment
signal k = record { kind = k; allocated = false; buffer = []; offset = 0; size = 0 }

-- Segment(StreamPipeline &): the whole of a buffer of the pipeline.
unfoldable pub allocate_segment : List ℕ → Segment
allocate_segment fresh = record {
  kind = payload;
  allocated = true;
  buffer = fresh;
  offset = 0;
  size = length fresh;
}

-- The bytes that get_data() points to.
abbrev pub get_data : Segment → List ℕ
get_data s = take s.size (drop s.offset s.buffer)

unfoldable pub skip_bytes : ℕ → Segment → Segment
skip_bytes n s =
    let addend = min s.size n in record s { offset = s.offset + addend; size = s.size - addend }

unfoldable pub trim_to_size : ℕ → Segment → Segment
trim_to_size n s = record s { size = if ltb n s.size then n else s.size }

unfoldable pub is_flush : SegmentType → Bool
is_flush flush = true
is_flush full_flush = true
is_flush _ = false

-- A copy of the first bytes in the buffer `fresh`; `none` is the exception on a flush signal.
unfoldable pub clone_and_trim : ℕ → List ℕ → Segment → Option Segment
unfolding is_flush
clone_and_trim max_size fresh s =
    let n = min max_size s.size in
    let copied = take n (drop s.offset s.buffer) in
    if is_flush s.kind
    then none
    else if s.allocated
    then some (record {
      kind = s.kind;
      allocated = true;
      buffer = copied ++ drop n fresh;
      offset = 0;
      size = n;
    })
    else some (record { kind = s.kind; allocated = false; buffer = []; offset = 0; size = 0 })

-- A copy of the whole buffer, with the same window on it.
unfoldable pub clone : List ℕ → Segment → Option Segment
unfolding is_flush
clone fresh s =
    let n = length fresh in
    if is_flush s.kind
    then none
    else if s.allocated
    then some (record {
      kind = s.kind;
      allocated = true;
      buffer = take n s.buffer ++ drop (length s.buffer) fresh;
      offset = s.offset;
      size = s.size;
    })
    else some (record { kind = s.kind; allocated = false; buffer = []; offset = 0; size = 0 })

-- The window lies in the buffer; a segment without a buffer, or without data, is empty.
pub record IsValid (s : Segment) : Type 0 where
  pub inside : s.offset + s.size ≤ length s.buffer
  pub backed : s.allocated ≡ false → s.size ≡ 0
  pub filled : (s.kind ≡ payload) ⊎ (s.size ≡ 0)

pub length-get_data : (s : Segment) → IsValid s → length (get_data s) ≡ s.size
length-get_data s v =
    omega
      (arith, length-take s.size (drop s.offset s.buffer), length-drop s.offset s.buffer, v.inside)

-- skip_bytes leaves the bytes after the first n.
pub get_data-skip_bytes :
    (n : ℕ) (s : Segment) → IsValid s → get_data (skip_bytes n s) ≡ drop n (get_data s)
unfolding skip_bytes
get_data-skip_bytes n s v = window ∙ sym (drop-take n s.size _ ∙ ap (take _) (drop-drop n _ _))
  where
    window :
        take (s.size - min s.size n) (drop (s.offset + min s.size n) s.buffer)
        ≡ take (s.size - n) (drop (s.offset + n) s.buffer)
    window = elim (dec_le n s.size) [
      | yes h ↦
          ap (λ k. take (s.size - k) (drop (s.offset + k) s.buffer))
            (let e : min s.size n ≡ n = omega arith in e)
      | no h ↦
          ap (λ k. take k (drop (s.offset + min s.size n) s.buffer))
            (let e : s.size - min s.size n ≡ 0 = omega arith in e)
          ∙ ap (λ k. take k (drop (s.offset + n) s.buffer))
              (let e : 0 ≡ s.size - n = omega arith in e)
    ]

-- trim_to_size leaves the first n bytes.
pub get_data-trim_to_size :
    (n : ℕ) (s : Segment) → get_data (trim_to_size n s) ≡ take n (get_data s)
unfolding trim_to_size
get_data-trim_to_size n s =
    ap (λ k. take k (drop s.offset s.buffer)) (ground arith) ∙ sym (take-take n s.size _)

-- A trimmed clone holds the first n bytes.
pub get_data-clone_and_trim :
    (n : ℕ) (fresh : List ℕ) (s : Segment)
    → IsValid s
    → is_flush s.kind ≡ false
    → (t : Segment) × (clone_and_trim n fresh s ≡ some t)
      × (t.kind ≡ s.kind)
      × (get_data t ≡ take n (get_data s))
      × (t.size ≡ min n s.size)
      × IsValid t
unfolding clone_and_trim
get_data-clone_and_trim n fresh s v f = elim (Bool-cases s.allocated) [
  | inl a ↦ rw (f, a) (_, refl, refl, copied, refl, valid_copy)
  | inr a ↦ rw (f, a) (_, refl, refl, nothing (v.backed a), omega (arith, v.backed a), valid_empty)
]
  where
    m : ℕ
    m = min n s.size

    window : List ℕ
    window = drop s.offset s.buffer

    copied_length : length (take m window) ≡ m
    copied_length = omega (arith, length-take m window, length-drop s.offset s.buffer, v.inside)

    copied : take m (take m window ++ drop m fresh) ≡ take n (take s.size window)
    copied =
        take-append_le m (take m window) (drop m fresh) (omega (arith, copied_length))
        ∙ take_all m (take m window) (omega (arith, copied_length))
        ∙ sym (take-take n s.size window)

    valid_copy : IsValid (record {
      kind = s.kind;
      allocated = true;
      buffer = take m window ++ drop m fresh;
      offset = 0;
      size = m;
    })
    valid_copy = record {
      inside = omega (arith, copied_length, length-append (take m window) (drop m fresh));
      backed = λ a. absurd (cc);
      filled = elim v.filled [ inl e ↦ inl e | inr e ↦ inr (omega arith) ];
    }

    valid_empty :
        IsValid (record { kind = s.kind; allocated = false; buffer = []; offset = 0; size = 0 })
    valid_empty = record { inside = omega arith; backed = λ a. refl; filled = inr refl }

    nothing : s.size ≡ 0 → [] ≡ take n (take s.size window)
    nothing e = sym (
        take_all n (take s.size window) (omega (arith, length-take s.size window))
        ∙ ap (λ k. take k window) e)

pub skip_bytes-IsValid : (n : ℕ) (s : Segment) → IsValid s → IsValid (skip_bytes n s)
unfolding skip_bytes
skip_bytes-IsValid n s v = record {
  inside = omega (arith, v.inside);
  backed = λ a. omega (arith, v.backed a);
  filled = elim v.filled [ inl e ↦ inl e | inr e ↦ inr (omega arith) ];
}

pub kind-skip_bytes : (n : ℕ) (s : Segment) → (skip_bytes n s).kind ≡ s.kind
unfolding skip_bytes
kind-skip_bytes n s = refl
