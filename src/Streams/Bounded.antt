-- ===== src/Streams/Bounded.antt =====
-- BoundedSource of src/BoundedStreamFilter.cpp: of its source it passes on the first
-- `simulated_length` bytes, and leaves the others to the next reader.
pub mod Writes
pub mod Delivers
use zekvok.Prelude.{
  ℕ, zero, suc, ◌+◌, ◌-◌, ◌≤◌, ◌<◌, min, ◌≡◌, refl, ap, ap₂, ◌∙◌, sym, subst, true, false, Option,
  none, some, List, [], ◌∷◌, ◌++◌, append_assoc, append-nil, arith, leb, ◌==◌, ==_iff,
  if◌then◌else◌, length, take, drop, take-append_le, take-append_ge, drop-append_ge, take_all,
  drop_all, drop-append_le, length-append, ◌⊎◌, inl, inr, Bool-cases,
}
use zekvok.Streams.Segment.{
  Segment, SegmentType, undefined, eof, payload, get_data, is_flush, signal, skip_bytes,
  clone_and_trim, IsValid, get_data-skip_bytes, get_data-clone_and_trim, length-get_data,
  kind-skip_bytes,
}
use zekvok.Streams.Processor.{
  Processor, is_eof, payload_size, read, write, stream, Closed, none_done, Ended, Got,
  read_from-Closed,
}

-- The queue's own put_back, which leaves the count of the bytes read alone.
unfoldable pub return_to_queue : Segment → Processor → Processor
return_to_queue s p = record p { source = s ∷ p.source }

unfoldable pub finish : Processor → Processor
finish p = write (signal eof) p

-- The turn of the loop that reads past the end: a trimmed copy goes on, the rest goes back.
unfoldable pub split_segment : ℕ → List ℕ → Segment → Processor → Option Processor
unfolding return_to_queue
split_segment n fresh s p = elim (clone_and_trim n fresh s) [
  | some copy ↦ some (write copy (return_to_queue (skip_bytes n s) p))
  | none ↦ none
]

-- The loop on fuel. `fresh` is the buffer that the pipeline has for the copy; `none` is a wait for
-- a segment that never comes, the exception of clone_and_trim, or fuel that ran out.
unfoldable pub loop : ℕ → ℕ → ℕ → List ℕ → Processor → Option Processor
loop zero simulated_length bytes_read fresh p = none
loop (suc fuel) simulated_length bytes_read fresh p = elim (leb simulated_length bytes_read) [
  | true ↦ some (finish p)
  | false ↦ elim (read none_done p) [
    | none ↦ none
    | some (s, p') ↦ elim (is_eof s.kind) [
      | true ↦ some (finish (write s p'))
      | false ↦
          let n = min (simulated_length - bytes_read) s.size in
          elim (n == s.size) [
            | true ↦ loop fuel simulated_length (bytes_read + n) fresh (write s p')
            | false ↦ elim (split_segment n fresh s p') [
              | some p'' ↦ some (finish p'')
              | none ↦ none
            ]
          ]
    ]
  ]
]

-- work(): each turn but the last takes a segment, so this fuel is enough.
unfoldable pub work : ℕ → List ℕ → Processor → Option Processor
work simulated_length fresh p = loop (suc (suc (length p.source))) simulated_length 0 fresh p

-- What the processor has done: it pushed `out`, whose bytes are the first n of the source, and the
-- next reader of the source finds the others.
pub record Delivered (n : ℕ) (p p' : Processor) : Type 0 where
  pub out : List Segment
  pub pushed : p'.sink ≡ p.sink ++ out
  pub bytes : stream out ≡ take n (stream p.source)
  pub left : stream p'.source ≡ drop n (stream p.source)
  pub counted : p'.bytes_written ≡ p.bytes_written + min n (length (stream p.source))

abbrev pub Done : ℕ → Processor → Option Processor → Type 0
Done n p r = (p' : Processor) × (r ≡ some p') × Delivered n p p'
