-- ===== src/Streams/Bounded/Writes.antt =====
-- What a write of BoundedSource of src/BoundedStreamFilter.cpp adds to its sink.
use zekvok.Prelude.{
  ℕ, ◌+◌, ◌≡◌, refl, ap, ◌∙◌, sym, List, [], ◌∷◌, ◌++◌, append_assoc, append-nil, arith,
  if◌then◌else◌, length, take, drop, take_all, drop_all, ◌⊎◌, inl, inr, Bool-cases,
}
use zekvok.Streams.Segment.{Segment, undefined, eof, payload, get_data, signal, IsValid}
use zekvok.Streams.Processor.{Processor, is_eof, payload_size, write, stream, Ended}
use zekvok.Streams.Bounded.{finish, Delivered}

-- One data segment at the head of what was pushed.
pub stream-cons :
    (s : Segment) (rest : List Segment)
    → (s.kind ≡ undefined) ⊎ (s.kind ≡ payload)
    → stream (s ∷ rest) ≡ get_data s ++ stream rest
unfolding stream
stream-cons s rest (inl e) = rw (e, stream) refl
stream-cons s rest (inr e) = rw (e, stream) refl

-- What write leaves of a processor.
pub record Wrote (s : Segment) (p : Processor) : Type 0 where
  pub sink : (write s p).sink ≡ p.sink ++ s ∷ []
  pub source : (write s p).source ≡ p.source
  pub counted : (write s p).bytes_written ≡ p.bytes_written + s.size
  pub flushes : (write s p).pass_flush ≡ p.pass_flush

pub write_data :
    (s : Segment) (p : Processor)
    → IsValid s
    → (s.kind ≡ undefined) ⊎ (s.kind ≡ payload)
    → Wrote s p
unfolding write is_eof payload_size
write_data s p v (inr e) =
    rw (e, is_eof, payload_size)
      (record { sink = refl; source = refl; counted = refl; flushes = refl })
write_data s p v (inl e) =
    rw (e, is_eof, payload_size)
      (record { sink = refl; source = refl; counted = omega (arith, empty); flushes = refl })
  where
    empty : s.size ≡ 0
    empty = elim v.filled [ inl f ↦ absurd (cc) | inr z ↦ z ]

-- An Eof is written only where the processor passes it on.
abbrev pub ends : Processor → Segment → List Segment
ends p s = if p.pass_eof then s ∷ [] else []

pub record WroteEnd (s : Segment) (p : Processor) : Type 0 where
  pub sink : (write s p).sink ≡ p.sink ++ ends p s
  pub source : (write s p).source ≡ p.source
  pub counted : (write s p).bytes_written ≡ p.bytes_written
  pub eofs : (write s p).pass_eof ≡ p.pass_eof

pub write_end : (s : Segment) (p : Processor) → s.kind ≡ eof → WroteEnd s p
unfolding write is_eof payload_size
write_end s p e = elim (Bool-cases p.pass_eof) [
  | inl t ↦ record {
    sink = ground (arith, append-nil p.sink);
    source = ground arith;
    counted = ground arith;
    eofs = ground arith;
  }
  | inr t ↦ record {
    sink = ground (arith, append-nil p.sink);
    source = ground arith;
    counted = ground arith;
    eofs = ground arith;
  }
]

pub stream-ends : (p : Processor) (s : Segment) → s.kind ≡ eof → stream (ends p s) ≡ []
unfolding stream
stream-ends p s e = elim (Bool-cases p.pass_eof) [
  | inl t ↦ rw (t, e, stream) refl
  | inr t ↦ rw t refl
]

stream-ends_twice :
    (p q : Processor) (s t : Segment)
    → s.kind ≡ eof
    → q.pass_eof ≡ p.pass_eof
    → stream (ends p s ++ ends q t) ≡ []
unfolding stream
stream-ends_twice p q s t e f = elim (Bool-cases p.pass_eof) [
  | inl y ↦ rw (y, e, stream) refl
  | inr n ↦ rw (f, n) refl
]

pub signal_kind : (signal eof).kind ≡ eof
unfolding signal
signal_kind = refl

-- The end of the stream adds no bytes.
pub finish-Delivered : (p : Processor) → Delivered 0 p (finish p)
unfolding finish
finish-Delivered p = record {
  out = ends p (signal eof);
  pushed = w.sink;
  bytes = stream-ends p (signal eof) signal_kind;
  left = ap stream w.source;
  counted = omega (arith, w.counted);
}
  where
    w : WroteEnd (signal eof) p
    w = write_end (signal eof) p signal_kind

-- At the end of the source both its Eof and one more are written.
pub Ended-Delivered :
    (n : ℕ) (p p' : Processor) (s : Segment)
    → Ended p.source s p p'
    → Delivered n p (finish (write s p'))
unfolding finish stream
Ended-Delivered n p p' s h = record {
  out = ends p' s ++ ends (write s p') (signal eof);
  pushed =
      w2.sink
      ∙ ap (λ xs. xs ++ ends (write s p') (signal eof)) (w.sink ∙ ap (λ xs. xs ++ ends p' s) h.sink)
      ∙ append_assoc p.sink (ends p' s) _;
  bytes =
      stream-ends_twice p' (write s p') s (signal eof) h.kind w.eofs
      ∙ sym (ap (take n) h.over ∙ take_all n [] (omega arith));
  left =
      ap stream (w2.source ∙ w.source ∙ h.rest)
      ∙ sym (ap (drop n) h.over ∙ drop_all n [] (omega arith));
  counted = omega (arith, w2.counted, w.counted, h.written, ap length h.over);
}
  where
    w : WroteEnd s p'
    w = write_end s p' h.kind

    w2 : WroteEnd (signal eof) (write s p')
    w2 = write_end (signal eof) (write s p') signal_kind
