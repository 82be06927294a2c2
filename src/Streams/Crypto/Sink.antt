-- ===== src/Streams/Crypto/Sink.antt =====
-- CryptoSink::work and flush_impl of src/CryptoFilter.cpp, which encrypt a stream.
use zekvok.Prelude.{ℕ, ◌+◌, Bool, true, false, Option, none, some, List, [], ◌∷◌}
use zekvok.Exception.{Result, ok, throw}
use zekvok.Streams.Segment.{Segment, eof, flush, full_flush, get_data}
use zekvok.Streams.Processor.{Processor, call_back, forward, payload_size}
use zekvok.Streams.Crypto.{Filter, flush_filter}

-- The processor when read has taken a segment, the first before `rest`.
unfoldable pub received : Segment → List Segment → Processor → Processor
received segment rest p = record p {
  source = rest;
  bytes_read = p.bytes_read + payload_size segment.kind segment.size;
}

module _ {S : Type 0} (filter : Filter S) (fresh : List ℕ) where
  -- A sink has its filter, and the field `flushed`.
  abbrev pub SinkState : Type 0
  SinkState = S × Bool

  abbrev pub was_flushed : Bool → Option (S × Processor) → Option (Result (SinkState × Processor))
  was_flushed flushed none = none
  was_flushed flushed (some (s, p)) = some (ok ((s, flushed), p))

  unfoldable pub end_message : Result S → Processor → Option (Result (SinkState × Processor))
  end_message (throw e) p = some (throw e)
  end_message (ok s) p = was_flushed true (flush_filter filter fresh s p)

  -- flush_impl: the message ends once.
  unfoldable pub flush_impl : SinkState → Processor → Option (Result (SinkState × Processor))
  unfolding end_message
  flush_impl (s, true) p = was_flushed true (flush_filter filter fresh s p)
  flush_impl (s, false) p = end_message (filter.message_end s) p

  abbrev pub and_then :
      {A : Type 0}
      → Option (Result (SinkState × Processor))
      → (SinkState → Processor → Option (Result A))
      → Option (Result A)
  and_then none next = none
  and_then (some (throw e)) next = some (throw e)
  and_then (some (ok (state, p))) next = next state p

  -- The loop of work with the loop of read in it, over the segments of the source: flush signals end the
  -- message and are answered, the Eof ends it and the work, and data is put into the filter.
  unfoldable pub sink_loop : List Segment → SinkState → Processor → Option (Result Processor)
  unfolding flush_impl
  sink_loop [] state p = none
  sink_loop (segment ∷ rest) state p = elim segment.kind [
    | eof ↦ and_then (flush_impl state (received segment rest p)) (λ state' q. some (ok q))
    | flush ↦ and_then (flush_impl state p) (λ state' q. sink_loop rest state' (call_back q))
    | full_flush ↦
        and_then (flush_impl state p) (λ state' q. sink_loop rest state' (forward segment q))
    | k ↦
        and_then
          (was_flushed state.1 (
            flush_filter filter fresh (filter.put (get_data segment) state.0)
              (received segment rest p)))
          (λ state' q. sink_loop rest state' q)
  ]

  unfoldable pub crypto_sink_work : S → Processor → Option (Result Processor)
  unfolding sink_loop
  crypto_sink_work s p = sink_loop p.source (s, false) p
