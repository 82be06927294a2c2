-- ===== src/Streams/Synchronous.antt =====
-- SynchronousSourceImpl and SynchronousSinkImpl of src/StreamProcessor.cpp: a pipeline read, or written to,
-- by a caller that is no processor.
mod Reads
mod Writes
mod Tests
use zekvok.Prelude.{
  ℕ, zero, suc, ◌+◌, ◌-◌, min, Bool, true, false, ◌||◌, Option, none, some, List, [], ◌∷◌, ◌++◌,
  length, take, drop, if◌then◌else◌, ◌==◌,
}
use zekvok.Streams.Segment.{Segment, get_data, allocate_segment, skip_bytes, trim_to_size}
use zekvok.Streams.Processor.{Processor, is_eof, read, write, none_done}

-- `current_segment` is `none` where the source has a segment of no type.
pub record SynchronousSource : Type 0 where
  pub processor : Processor
  pub current_segment : Option Segment
  pub at_eof : Bool

-- What a read returns: -1, or bytes.
pub data ReadResult : Type 0 where
  end_of_file : ReadResult
  bytes : List ℕ → ReadResult

-- What is left of a segment of which n bytes were copied.
unfoldable pub rest_of : ℕ → Segment → Option Segment
unfolding skip_bytes
rest_of n s = if (skip_bytes n s).size == 0 then none else some (skip_bytes n s)

-- The result of the turn that gets the Eof. The Eof stays the current segment.
unfoldable pub at_end : Segment → Processor → List ℕ → ReadResult × SynchronousSource
at_end s p [] = (end_of_file, record { processor = p; current_segment = some s; at_eof = false })
at_end s p (x ∷ out) =
    (bytes (x ∷ out), record { processor = p; current_segment = some s; at_eof = true })

-- The loop of read on fuel, with what was copied so far; `none` is a wait for a segment that never comes,
-- or fuel that ran out.
unfoldable pub read_loop :
    ℕ → ℕ → List ℕ → Option Segment → Processor → Option (ReadResult × SynchronousSource)
unfolding rest_of at_end
read_loop fuel zero out current p =
    some (bytes out, record { processor = p; current_segment = current; at_eof = false })
read_loop zero (suc n) out current p = none
read_loop (suc fuel) (suc n) out (some s) p =
    let k = min (suc n) s.size in
    read_loop fuel (suc n - k) (out ++ take k (get_data s)) (rest_of k s) p
read_loop (suc fuel) (suc n) out none p = elim (read none_done p) [
  | none ↦ none
  | some (s, p') ↦ elim (is_eof s.kind) [
    | true ↦ some (at_end s p' out)
    | false ↦
        let k = min (suc n) s.size in
        read_loop fuel (suc n - k) (out ++ take k (get_data s)) (rest_of k s) p'
  ]
]

-- read(), of n bytes. Each turn but the last uses a segment up.
unfoldable pub read_bytes : ℕ → SynchronousSource → Option (ReadResult × SynchronousSource)
unfolding read_loop
read_bytes n s =
    if s.at_eof
    then some (end_of_file, s)
    else read_loop (suc (suc (length s.processor.source))) n [] s.current_segment s.processor

-- `offset` is where the next byte goes in the buffer of the current segment.
pub record SynchronousSink : Type 0 where
  pub processor : Processor
  pub current_segment : Option Segment
  pub offset : ℕ

-- ensure_valid_segment(); `fresh` is the buffer that the pipeline has for it.
unfoldable pub ensure_valid_segment : List ℕ → SynchronousSink → Segment × ℕ
unfolding allocate_segment
ensure_valid_segment fresh s = elim s.current_segment [
  | some segment ↦ (segment, s.offset)
  | none ↦ (allocate_segment fresh, 0)
]

-- try_write(force), on the segment that is there.
unfoldable pub try_write : Bool → Segment → ℕ → Processor → SynchronousSink
unfolding trim_to_size
try_write force segment offset p =
    if force || offset == segment.size
    then record {
      processor = write (trim_to_size offset segment) p;
      current_segment = none;
      offset = offset;
    }
    else record { processor = p; current_segment = some segment; offset = offset }

-- The bytes of a segment with some of them overwritten.
unfoldable pub overwrite : ℕ → List ℕ → Segment → Segment
overwrite offset input s = record s {
  buffer =
      take (s.offset + offset) s.buffer
      ++ (input ++ drop (s.offset + offset + length input) s.buffer);
}

-- The loop of write on fuel, over what is left of the input.
unfoldable pub write_loop : ℕ → List ℕ → List ℕ → SynchronousSink → Option SynchronousSink
unfolding ensure_valid_segment try_write overwrite
write_loop fuel fresh [] s = some s
write_loop zero fresh (x ∷ input) s = none
write_loop (suc fuel) fresh (x ∷ input) s =
    let current = ensure_valid_segment fresh s in
    let n = min (suc (length input)) (current.0.size - current.1) in
    write_loop fuel fresh (drop n (x ∷ input)) (
      try_write false (overwrite current.1 (take n (x ∷ input)) current.0) (current.1 + n)
        s.processor)

-- write(). Each turn takes a byte of the input.
unfoldable pub write_bytes : List ℕ → List ℕ → SynchronousSink → Option SynchronousSink
unfolding write_loop
write_bytes fresh input s = write_loop (length input) fresh input s

-- The destructor writes what there is.
unfoldable pub close : SynchronousSink → Processor
unfolding try_write
close s = elim s.current_segment [
  | none ↦ s.processor
  | some segment ↦ (try_write true segment s.offset s.processor).processor
]
