-- ===== src/Streams/Tests.antt =====
-- Runs of the segments, the queue and the workers of src/StreamProcessor.cpp.
use zekvok.Prelude.{ℕ, ◌≡◌, refl, true, false, [], ◌∷◌, some, arith, inl, inr}
use zekvok.Streams.Segment.{Segment, payload, eof, is_flush, IsValid}
use zekvok.Streams.Queue.{Queue}
use zekvok.Streams.Processor.{Processor, Closed}
use zekvok.Streams.Bounded.{work, Delivered}
use zekvok.Streams.Bounded.Delivers.{work_delivers}

-- Four bytes, of which the first was skipped.
abbrev three_bytes : Segment
three_bytes = record {
  kind = payload;
  allocated = true;
  buffer = 1 ∷ 2 ∷ 3 ∷ 4 ∷ [];
  offset = 1;
  size = 3;
}

three_bytes-IsValid : IsValid three_bytes
three_bytes-IsValid = record { inside = omega arith; backed = λ a. absurd (cc); filled = inl refl }

abbrev end : Segment
end = record { kind = eof; allocated = false; buffer = []; offset = 0; size = 0 }

end-IsValid : IsValid end
end-IsValid = record { inside = omega arith; backed = λ a. refl; filled = inr refl }

not_a_flush : is_flush three_bytes.kind ≡ false
unfolding is_flush
not_a_flush = refl

abbrev put_back_one : Queue ℕ
put_back_one = record {
  putback = 5 ∷ [];
  queue = record { slots = 6 ∷ 0 ∷ []; head = 0; tail = 1; size = 1; capacity = 2 };
}

-- A source of the three bytes, and its end.
abbrev three_then_end : Processor
three_then_end = record {
  source = three_bytes ∷ end ∷ [];
  sink = [];
  bytes_read = 0;
  bytes_written = 0;
  pass_eof = false;
  pass_flush = false;
  callbacks = 0;
}

three_then_end-Closed : Closed three_then_end.source
unfolding Closed
three_then_end-Closed = (three_bytes-IsValid, (end-IsValid, refl))

work_delivers_example :
    (p' : Processor) × (work 2 (0 ∷ 0 ∷ 0 ∷ 0 ∷ []) three_then_end ≡ some p')
    × Delivered 2 three_then_end p'
work_delivers_example =
    work_delivers 2 (0 ∷ 0 ∷ 0 ∷ 0 ∷ []) three_then_end refl three_then_end-Closed
