-- ===== src/Streams/Workers.antt =====
-- The processors at the ends of a pipeline and the transparent ones between them: StdStreamSource and
-- StdStreamSink of src/StreamProcessor.cpp, MemorySource and MemorySink of src/MemoryStream.cpp, NullSink
-- of src/NullStream.cpp, ByteCounterSink of src/BoundedStreamFilter.cpp and the filter of
-- src/HashFilter.h. No processor is asked to stop while it works.
pub mod Sources
pub mod Sinks
mod Tests
use zekvok.Prelude.{
  ℕ, zero, suc, ◌+◌, ◌≡◌, Bool, true, false, Option, none, some, List, [], ◌∷◌, ◌++◌, length, take,
  drop, if◌then◌else◌, ltb, min,
}
use zekvok.Streams.Segment.{Segment, eof, get_data, allocate_segment, signal, trim_to_size}
use zekvok.Streams.Processor.{Processor, is_eof, read, write, none_done}

-- A segment with the buffer `fresh`, whose first bytes are overwritten, trimmed to them.
unfoldable pub filled : List ℕ → List ℕ → Segment
unfolding allocate_segment trim_to_size
filled fresh bytes =
    trim_to_size (length bytes) (allocate_segment (bytes ++ drop (length bytes) fresh))

unfoldable pub report_bytes_read : ℕ → Processor → Processor
report_bytes_read n p = record p { bytes_read = p.bytes_read + n }

-- The loop of StdStreamSource::work on fuel: what is left of the stream's bytes is `rest`, and
-- istream::read gives as many of them as the buffer holds.
unfoldable pub std_source_loop : ℕ → List ℕ → List ℕ → Processor → Option Processor
unfolding filled report_bytes_read signal
std_source_loop zero fresh rest p = none
std_source_loop (suc fuel) fresh rest p =
    let bytes = take (length fresh) rest in
    elim bytes [
      | [] ↦ some (write (signal eof) p)
      | x ∷ xs ↦ std_source_loop fuel fresh (drop (length fresh) rest) (
          write (filled fresh (take (length fresh) rest))
            (report_bytes_read (length (take (length fresh) rest)) p))
    ]

-- StdStreamSource::work; without a stream there is only the end.
unfoldable pub std_source_work : List ℕ → Option (List ℕ) → Processor → Option Processor
unfolding std_source_loop signal
std_source_work fresh none p = some (write (signal eof) p)
std_source_work fresh (some bytes) p = std_source_loop (suc (length bytes)) fresh bytes p

-- The loop of MemorySource::work: `buffer` is what is left to send.
unfoldable pub memory_source_loop : ℕ → List ℕ → List ℕ → Processor → Option Processor
unfolding filled signal
memory_source_loop zero fresh buffer p = none
memory_source_loop (suc fuel) fresh [] p = some (write (signal eof) p)
memory_source_loop (suc fuel) fresh (x ∷ buffer) p =
    let n = min (length fresh) (length (x ∷ buffer)) in
    memory_source_loop fuel fresh (drop n (x ∷ buffer))
      (write (filled fresh (take n (x ∷ buffer))) p)

unfoldable pub memory_source_work : List ℕ → List ℕ → Processor → Option Processor
unfolding memory_source_loop
memory_source_work fresh buffer p = memory_source_loop (suc (length buffer)) fresh buffer p

-- What a reader does with a segment: it writes it, counts its bytes as written, or leaves it.
pub data Passing : Type 0 where
  forwards counts drops : Passing

unfoldable pub pass_on : Passing → Segment → Processor → Processor
pass_on forwards s p = write s p
pass_on counts s p = record p { bytes_written = p.bytes_written + s.size }
pass_on drops s p = p

-- The loop that all the readers share: read until the Eof, let `take_in` have the bytes of each segment,
-- and pass the segment on. It gives the Eof, the processor and what was kept.
module _ {A : Type 0} (take_in : List ℕ → A → A) where
  unfoldable pub each_segment : Passing → ℕ → Processor → A → Option (Segment × Processor × A)
  each_segment how zero p a = none
  each_segment how (suc fuel) p a = elim (read none_done p) [
    | none ↦ none
    | some (s, p') ↦ elim (is_eof s.kind) [
      | true ↦ some (s, p', a)
      | false ↦ each_segment how fuel (pass_on how s p') (take_in (get_data s) a)
    ]
  ]

-- The work of the readers. Each turn takes a segment, so the fuel is enough.
abbrev pub turns : Processor → ℕ
turns p = suc (length p.source)

abbrev pub append : List ℕ → List ℕ → List ℕ
append bytes kept = kept ++ bytes

abbrev pub ended : {A : Type 0} → Option (Segment × Processor × A) → Option (Processor × A)
ended none = none
ended (some (s, p, a)) = some (p, a)

abbrev pub end_forwarded : {A : Type 0} → Option (Segment × Processor × A) → Option (Processor × A)
end_forwarded none = none
end_forwarded (some (s, p, a)) = some (write s p, a)

-- StdStreamSink::work, on what the file holds; the bytes that it writes count as written.
unfoldable pub std_sink_work : Processor → List ℕ → Option (Processor × List ℕ)
std_sink_work p file = ended (each_segment append counts (turns p) p file)

-- MemorySink::work, on its buffer.
unfoldable pub memory_sink_work : Processor → List ℕ → Option (Processor × List ℕ)
memory_sink_work p buffer = ended (each_segment append drops (turns p) p buffer)

-- NullSink::work.
unfoldable pub null_sink_work : Processor → Option (Processor × Unit {0})
null_sink_work p = ended (each_segment (λ bytes a. a) drops (turns p) p tt)

-- ByteCounterSink::work, on the count.
unfoldable pub byte_counter_work : Processor → ℕ → Option (Processor × ℕ)
byte_counter_work p count =
    end_forwarded (each_segment (λ bytes n. n + length bytes) forwards (turns p) p count)

-- HashFilter_work. The hash is what it was given so far, and `final` is its digest of all that.
abbrev pub digested :
    (List ℕ → List ℕ) → Option (Segment × Processor × List ℕ) → Option (Processor × List ℕ)
digested final none = none
digested final (some (s, p, a)) = some (write s p, final a)

unfoldable pub hash_filter_work :
    (List ℕ → List ℕ) → Processor → List ℕ → Option (Processor × List ℕ)
hash_filter_work final p hashed = digested final (each_segment append forwards (turns p) p hashed)

-- Source::copy_to: the source passes no Eof to the sink, whose queue holds what was pushed when the
-- source has joined.
abbrev pub connected : Processor → Option Processor → Option Processor
connected sink none = none
connected sink (some source) = some (record sink { source = source.sink })

unfoldable pub copy_to : List ℕ → Option (List ℕ) → Processor → Processor → Option Processor
unfolding std_source_work
copy_to fresh stream source sink =
    connected sink (std_source_work fresh stream (record source { pass_eof = false }))

-- Sink::flush, when the source is gone: an Eof goes behind what was pushed.
unfoldable pub flush_sink : Processor → Processor
unfolding signal
flush_sink p = record p { source = p.source ++ signal eof ∷ [] }

-- A stream copied to a file: copy_to, and the end of the source and of the sink.
abbrev pub to_the_end : List ℕ → Option Processor → Option (Processor × List ℕ)
to_the_end file none = none
to_the_end file (some p) = std_sink_work (flush_sink p) file

unfoldable pub copied :
    List ℕ → List ℕ → Processor → Processor → List ℕ → Option (Processor × List ℕ)
unfolding copy_to
copied fresh bytes source sink file = to_the_end file (copy_to fresh (some bytes) source sink)
