-- ===== src/Streams/Synchronous/Tests.antt =====
-- Runs of the synchronous source and sink of src/StreamProcessor.cpp.
use zekvok.Prelude.{◌≡◌, ◌++◌, refl, true, false, none, some, [], ◌∷◌, arith, inl, inr}
use zekvok.Streams.Segment.{Segment, payload, eof, IsValid}
use zekvok.Streams.Processor.{Processor, Closed}
use zekvok.Streams.Synchronous.{SynchronousSource, SynchronousSink, read_bytes, write_bytes, close}
use zekvok.Streams.Synchronous.Reads.{IsReadable, Gives, remaining, read_bytes-Gives}
use zekvok.Streams.Synchronous.Writes.{Pushed, write_bytes-close}

abbrev two_bytes : Segment
two_bytes = record { kind = payload; allocated = true; buffer = 1 ∷ 2 ∷ []; offset = 0; size = 2 }

abbrev end : Segment
end = record { kind = eof; allocated = false; buffer = []; offset = 0; size = 0 }

abbrev two_then_end : Processor
two_then_end = record {
  source = two_bytes ∷ two_bytes ∷ end ∷ [];
  sink = [];
  bytes_read = 0;
  bytes_written = 0;
  pass_eof = true;
  pass_flush = false;
  callbacks = 0;
}

abbrev new_source : SynchronousSource
new_source = record { processor = two_then_end; current_segment = none; at_eof = false }

two_bytes-IsValid : IsValid two_bytes
two_bytes-IsValid = record { inside = omega arith; backed = λ a. absurd (cc); filled = inl refl }

end-IsValid : IsValid end
end-IsValid = record { inside = omega arith; backed = λ a. refl; filled = inr refl }

new_source-IsReadable : IsReadable new_source
unfolding Closed
new_source-IsReadable = record {
  open_end = refl;
  current = tt;
  closed = (two_bytes-IsValid, (two_bytes-IsValid, (end-IsValid, refl)));
  flushes = refl;
}

read_bytes-Gives_example : Gives 3 [] (remaining new_source) (read_bytes 3 new_source)
read_bytes-Gives_example = read_bytes-Gives 3 new_source new_source-IsReadable

abbrev new_sink : SynchronousSink
new_sink = record {
  processor = record two_then_end { source = [] };
  current_segment = none;
  offset = 0;
}

write_bytes-close_example :
    (t : SynchronousSink) × (write_bytes (0 ∷ 0 ∷ []) (7 ∷ 8 ∷ 9 ∷ []) new_sink ≡ some t)
    × Pushed ([] ++ 7 ∷ 8 ∷ 9 ∷ []) new_sink.processor (close t)
write_bytes-close_example =
    write_bytes-close (0 ∷ 0 ∷ []) (7 ∷ 8 ∷ 9 ∷ []) new_sink (omega arith) tt
