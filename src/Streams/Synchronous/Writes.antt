-- ===== src/Streams/Synchronous/Writes.antt =====
-- What a caller writes to a SynchronousSink arrives in the pipeline.
use zekvok.Prelude.{
  ℕ, zero, suc, ◌+◌, ◌-◌, ◌≤◌, ◌<◌, min, ◌≡◌, ◌⊎◌, refl, sym, ap, ap₂, subst, ◌∙◌, false, Option,
  none, some, List, [], ◌∷◌, ◌++◌, length, take, drop, ◌==◌, arith, inl, inr, append_assoc,
  Bool-cases, append-nil, length-append, length-take, length-drop, take-take, drop-take,
  take-append, take-append-drop, drop-append_le, take-append_ge,
}
use zekvok.Streams.Segment.{
  Segment, undefined, payload, get_data, allocate_segment, trim_to_size, IsValid,
  get_data-trim_to_size,
}
use zekvok.Streams.Processor.{Processor, write, stream}
use zekvok.Streams.Bounded.Writes.{stream-cons, write_data, Wrote}
use zekvok.Streams.Workers.Sinks.{NoEnd, NoEnd-append, stream-NoEnd}
use zekvok.Streams.Synchronous.{
  SynchronousSink, ensure_valid_segment, try_write, overwrite, write_loop, write_bytes, close,
}

-- The bytes of the input overwrite the window of the segment from `offset` on.
module _ (s : Segment) (offset : ℕ) (input : List ℕ) (v : IsValid s)
    (fits : offset + length input ≤ s.size) where
  length-overwrite : length (overwrite offset input s).buffer ≡ length s.buffer
  unfolding overwrite
  length-overwrite = omega (
    arith,
    v.inside,
    length-append (take (s.offset + offset) s.buffer)
        (input ++ drop (s.offset + offset + length input) s.buffer),
    length-append input (drop (s.offset + offset + length input) s.buffer),
    length-take (s.offset + offset) s.buffer,
    length-drop (s.offset + offset + length input) s.buffer,
  )

  window-overwrite :
      drop s.offset (overwrite offset input s).buffer
      ≡ take offset (drop s.offset s.buffer)
        ++ (input ++ drop (s.offset + offset + length input) s.buffer)
  unfolding overwrite
  window-overwrite =
      drop-append_le s.offset (take (s.offset + offset) s.buffer) _
        (omega (arith, v.inside, length-take (s.offset + offset) s.buffer))
      ∙ ap (λ l. l ++ (input ++ drop (s.offset + offset + length input) s.buffer))
          (drop-take s.offset (s.offset + offset) s.buffer
            ∙ ap (λ k. take k (drop s.offset s.buffer))
                (let e : s.offset + offset - s.offset ≡ offset = omega arith in e))

  take-overwrite :
      take (offset + length input) (get_data (overwrite offset input s))
      ≡ take offset (get_data s) ++ input
  unfolding overwrite
  take-overwrite =
      take-take (offset + length input) s.size _
      ∙ ap (λ k. take k (drop s.offset (overwrite offset input s).buffer))
          (let e : min (offset + length input) s.size ≡ offset + length input = omega arith in e)
      ∙ ap (take (offset + length input)) window-overwrite
      ∙ take-append_ge (offset + length input) first _ (omega (arith, size))
      ∙ ap (λ k. first ++ take k (input ++ rest))
          (let e : offset + length input - length first ≡ length input = omega (arith, size) in e)
      ∙ ap₂ ◌++◌
          (ap (λ k. take k (drop s.offset s.buffer))
              (let e : offset ≡ min offset s.size = omega arith in e)
            ∙ sym (take-take offset s.size _))
          (take-append input rest)
    where
      first : List ℕ
      first = take offset (drop s.offset s.buffer)

      rest : List ℕ
      rest = drop (s.offset + offset + length input) s.buffer

      size : length first ≡ offset
      size = omega (
        arith,
        v.inside,
        length-take offset (drop s.offset s.buffer),
        length-drop s.offset s.buffer,
      )

  overwrite-IsValid : IsValid (overwrite offset input s)
  unfolding overwrite
  overwrite-IsValid = record {
    inside = omega (arith, length-overwrite, v.inside);
    backed = v.backed;
    filled = v.filled;
  }

-- A sink that can be written to, and the bytes that it holds back.
pub record IsFilling (s : Segment) (offset : ℕ) : Type 0 where
  pub valid : IsValid s
  pub payload_kind : s.kind ≡ payload
  pub room : offset < s.size

abbrev pub IsWritable : Option Segment → ℕ → Type 0
IsWritable none offset = Unit
IsWritable (some s) offset = IsFilling s offset

abbrev pub held_back : Option Segment → ℕ → List ℕ
held_back none offset = []
held_back (some s) offset = take offset (get_data s)

-- What a sink has done: it pushed `out`, whose bytes and those held back are those that it held back
-- before, and the input.
pub record Took (input : List ℕ) (s t : SynchronousSink) : Type 0 where
  pub out : List Segment
  pub pushed : t.processor.sink ≡ s.processor.sink ++ out
  pub no_end : NoEnd out
  pub all :
      stream out ++ held_back t.current_segment t.offset
      ≡ held_back s.current_segment s.offset ++ input
  pub writable : IsWritable t.current_segment t.offset

-- What try_write leaves of a segment whose first `offset` bytes are filled.
record Tried (filled : List ℕ) (p : Processor) (t : SynchronousSink) : Type 0 where
  out : List Segment
  pushed : t.processor.sink ≡ p.sink ++ out
  no_end : NoEnd out
  all : stream out ++ held_back t.current_segment t.offset ≡ filled
  writable : IsWritable t.current_segment t.offset

trim_to_size-IsValid : (n : ℕ) (s : Segment) → IsValid s → IsValid (trim_to_size n s)
unfolding trim_to_size
trim_to_size-IsValid n s v = record {
  inside = ground (arith, v.inside);
  backed = λ a. let e = v.backed a in ground (arith, e);
  filled = elim v.filled [ inl k ↦ inl k | inr z ↦ inr (ground (arith, z)) ];
}

trim_to_size-kind : (n : ℕ) (s : Segment) → (trim_to_size n s).kind ≡ s.kind
unfolding trim_to_size
trim_to_size-kind n s = refl

module _ (segment : Segment) (offset : ℕ) (p : Processor) (v : IsValid segment)
    (k : segment.kind ≡ payload) where
  abbrev sent : SynchronousSink
  sent = record {
    processor = write (trim_to_size offset segment) p;
    current_segment = none;
    offset = offset;
  }

  abbrev kept : SynchronousSink
  kept = record { processor = p; current_segment = some segment; offset = offset }

  sent-Tried : Tried (take offset (get_data segment)) p sent
  unfolding NoEnd stream
  sent-Tried = record {
    out = trim_to_size offset segment ∷ [];
    pushed = w.sink;
    no_end = (is_data, tt);
    all =
        append-nil _
        ∙ stream-cons (trim_to_size offset segment) [] is_data
        ∙ append-nil _
        ∙ get_data-trim_to_size offset segment;
    writable = tt;
  }
    where
      is_data :
          ((trim_to_size offset segment).kind ≡ undefined)
          ⊎ ((trim_to_size offset segment).kind ≡ payload)
      is_data = inr (trim_to_size-kind offset segment ∙ k)

      w : Wrote (trim_to_size offset segment) p
      w = write_data (trim_to_size offset segment) p (trim_to_size-IsValid offset segment v) is_data

  kept-Tried : offset < segment.size → Tried (take offset (get_data segment)) p kept
  unfolding NoEnd stream
  kept-Tried room = record {
    out = [];
    pushed = sym (append-nil p.sink);
    no_end = tt;
    all = refl;
    writable = record { valid = v; payload_kind = k; room = room };
  }

  try_write-Tried :
      offset ≤ segment.size
      → Tried (take offset (get_data segment)) p (try_write false segment offset p)
  unfolding try_write
  try_write-Tried h = elim (Bool-cases (offset == segment.size)) [
    | inl full ↦ rw full sent-Tried
    | inr room ↦ rw room (kept-Tried (ground (arith, room)))
  ]

-- The segment that a turn fills.
module _ (fresh : List ℕ) (some_room : 0 < length fresh) where
  record Current (s : SynchronousSink) (segment : Segment) (offset : ℕ) : Type 0 where
    filling : IsFilling segment offset
    held : take offset (get_data segment) ≡ held_back s.current_segment s.offset

  ensure_valid_segment-Current :
      (p : Processor) (current : Option Segment) (offset : ℕ)
      → IsWritable current offset
      → let s : SynchronousSink = record {
        processor = p;
        current_segment = current;
        offset = offset;
      } in
        Current s (ensure_valid_segment fresh s).0 (ensure_valid_segment fresh s).1
  unfolding ensure_valid_segment allocate_segment
  ensure_valid_segment-Current p (some t) offset w = record { filling = w; held = refl }
  ensure_valid_segment-Current p none offset w = record {
    filling = record {
      valid = record { inside = omega arith; backed = λ a. absurd (cc); filled = inl refl };
      payload_kind = refl;
      room = some_room;
    };
    held = refl;
  }

  filled_segment :
      (s : SynchronousSink) (segment : Segment) (offset n : ℕ) (input : List ℕ)
      → Current s segment offset
      → n ≤ length input
      → offset + n ≤ segment.size
      → Tried
          (held_back s.current_segment s.offset ++ take n input)
          s.processor
          (try_write false (overwrite offset (take n input) segment) (offset + n) s.processor)
  unfolding overwrite
  filled_segment s segment offset n input c few fits =
      subst
        (λ l.
          Tried l s.processor
            (try_write false (overwrite offset (take n input) segment) (offset + n) s.processor))
        (ap (λ k. take (offset + k) (get_data (overwrite offset (take n input) segment))) (sym size)
          ∙ take-overwrite segment offset (take n input) c.filling.valid fits'
          ∙ ap (λ l. l ++ take n input) c.held)
        (try_write-Tried (overwrite offset (take n input) segment) (offset + n) s.processor
          (overwrite-IsValid segment offset (take n input) c.filling.valid fits')
          c.filling.payload_kind fits)
    where
      size : length (take n input) ≡ n
      size = omega (arith, length-take n input)

      fits' : offset + length (take n input) ≤ segment.size
      fits' = omega (arith, size)

  Took-cons :
      (n : ℕ) (input : List ℕ) (s t u : SynchronousSink)
      → Tried (held_back s.current_segment s.offset ++ take n input) s.processor t
      → Took (drop n input) t u
      → Took input s u
  Took-cons n input s t u a b = record {
    out = a.out ++ b.out;
    pushed = b.pushed ∙ ap (λ l. l ++ b.out) a.pushed ∙ append_assoc s.processor.sink a.out b.out;
    no_end = NoEnd-append a.out b.out a.no_end b.no_end;
    all =
        ap (λ l. l ++ held_back u.current_segment u.offset) (stream-NoEnd a.out b.out a.no_end)
        ∙ append_assoc (stream a.out) (stream b.out) _
        ∙ ap (λ l. stream a.out ++ l) b.all
        ∙ sym (append_assoc (stream a.out) _ (drop n input))
        ∙ ap (λ l. l ++ drop n input) a.all
        ∙ append_assoc _ (take n input) (drop n input)
        ∙ ap (λ l. held_back s.current_segment s.offset ++ l) (take-append-drop n input);
    writable = b.writable;
  }

  write_loop-Took :
      (fuel : ℕ) (input : List ℕ) (s : SynchronousSink)
      → IsWritable s.current_segment s.offset
      → length input ≤ fuel
      → (t : SynchronousSink) × (write_loop fuel fresh input s ≡ some t) × Took input s t
  unfolding write_loop NoEnd stream
  write_loop-Took fuel [] s w enough = (
    s,
    refl,
    record {
      out = [];
      pushed = sym (append-nil s.processor.sink);
      no_end = tt;
      all = sym (append-nil _);
      writable = w;
    },
  )
  write_loop-Took zero (x ∷ input) s w enough = absurd (omega arith)
  write_loop-Took (suc fuel) (x ∷ input) s w enough =
      let c = ensure_valid_segment-Current s.processor s.current_segment s.offset w in
      let current = ensure_valid_segment fresh s in
      let n = min (suc (length input)) (current.0.size - current.1) in
      let room = c.filling.room in
      let a = filled_segment s current.0 current.1 n (x ∷ input) c (omega arith) (omega arith) in
      let (u, e, b) =
        write_loop-Took fuel (drop n (x ∷ input))
          (try_write false (overwrite current.1 (take n (x ∷ input)) current.0) (current.1 + n)
            s.processor)
          a.writable (omega (arith, length-drop n (x ∷ input))) in
      (u, e, Took-cons n (x ∷ input) s _ u a b)

-- What a sink has pushed, on top of what was there.
pub record Pushed (bytes : List ℕ) (before after : Processor) : Type 0 where
  pub out : List Segment
  pub pushed : after.sink ≡ before.sink ++ out
  pub no_end : NoEnd out
  pub all : stream out ≡ bytes

close-Pushed :
    (p : Processor) (current : Option Segment) (offset : ℕ)
    → IsWritable current offset
    → Pushed
        (held_back current offset)
        p
        (close (record { processor = p; current_segment = current; offset = offset }))
unfolding close try_write NoEnd stream
close-Pushed p none offset w = record {
  out = [];
  pushed = sym (append-nil p.sink);
  no_end = tt;
  all = refl;
}
close-Pushed p (some s) offset w =
    let t = sent-Tried s offset p w.valid w.payload_kind in
    record {
      out = t.out;
      pushed = t.pushed;
      no_end = t.no_end;
      all = sym (append-nil (stream t.out)) ∙ t.all;
    }

-- What a caller writes, it pushes: a write ends, and when the sink is closed after it, the bytes that the
-- sink held back and all the bytes of the input, in order and once, are on the queue, in segments of data;
-- where the pipeline's buffers are not empty.
pub write_bytes-close :
    (fresh input : List ℕ) (s : SynchronousSink)
    → 0 < length fresh
    → IsWritable s.current_segment s.offset
    → (t : SynchronousSink) × (write_bytes fresh input s ≡ some t)
      × Pushed (held_back s.current_segment s.offset ++ input) s.processor (close t)
unfolding write_bytes
write_bytes-close fresh input s some_room w =
    let (t, e, took) = write_loop-Took fresh some_room (length input) input s w (omega arith) in
    let last = close-Pushed t.processor t.current_segment t.offset took.writable in
    (
      t,
      e,
      record {
        out = took.out ++ last.out;
        pushed =
            last.pushed
            ∙ ap (λ l. l ++ last.out) took.pushed
            ∙ append_assoc s.processor.sink took.out last.out;
        no_end = NoEnd-append took.out last.out took.no_end last.no_end;
        all =
            stream-NoEnd took.out last.out took.no_end
            ∙ ap (λ l. stream took.out ++ l) last.all
            ∙ took.all;
      },
    )
