-- ===== src/Streams/Workers/Tests.antt =====
-- Runs of the workers at the ends of a pipeline.
use zekvok.Prelude.{ℕ, ◌≡◌, ◌++◌, refl, true, false, some, List, [], ◌∷◌, arith, inl, inr}
use zekvok.Streams.Segment.{Segment, payload, eof, IsValid}
use zekvok.Streams.Processor.{Processor, Closed, stream}
use zekvok.Streams.Workers.{hash_filter_work, copied}
use zekvok.Streams.Workers.Sinks.{Forwarded, hash_filter_work_lem, copied_lem}

abbrev two_bytes : Segment
two_bytes = record { kind = payload; allocated = true; buffer = 1 ∷ 2 ∷ []; offset = 0; size = 2 }

abbrev end : Segment
end = record { kind = eof; allocated = false; buffer = []; offset = 0; size = 0 }

abbrev idle : Processor
idle = record {
  source = [];
  sink = [];
  bytes_read = 0;
  bytes_written = 0;
  pass_eof = true;
  pass_flush = false;
  callbacks = 0;
}

abbrev busy : Processor
busy = record idle { source = two_bytes ∷ two_bytes ∷ end ∷ [] }

two_bytes-IsValid : IsValid two_bytes
two_bytes-IsValid = record { inside = omega arith; backed = λ a. absurd (cc); filled = inl refl }

end-IsValid : IsValid end
end-IsValid = record { inside = omega arith; backed = λ a. refl; filled = inr refl }

busy-Closed : Closed busy.source
unfolding Closed
busy-Closed = (two_bytes-IsValid, (two_bytes-IsValid, (end-IsValid, refl)))

-- A digest that keeps the first byte.
abbrev first_byte : List ℕ → List ℕ
first_byte [] = []
first_byte (x ∷ xs) = x ∷ []

hash_filter_work_example :
    (p' : Processor) × (hash_filter_work first_byte busy []
      ≡ some (p', first_byte ([] ++ stream busy.source)))
    × Forwarded busy p'
hash_filter_work_example = hash_filter_work_lem first_byte busy [] refl busy-Closed

copied_example :
    (p' : Processor) × (copied (0 ∷ 0 ∷ []) (1 ∷ 2 ∷ 3 ∷ []) idle idle (9 ∷ [])
      ≡ some (p', (9 ∷ []) ++ 1 ∷ 2 ∷ 3 ∷ []))
copied_example = copied_lem (0 ∷ 0 ∷ []) (1 ∷ 2 ∷ 3 ∷ []) (9 ∷ []) idle idle (omega arith) refl refl
