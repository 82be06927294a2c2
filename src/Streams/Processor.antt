-- ===== src/Streams/Processor.antt =====
-- StreamProcessor::read and write of src/StreamProcessor.cpp. A processor's run is a function of the
-- segments that its source will ever deliver; waiting for one that never comes is `none`.
use zekvok.Prelude.{
  ℕ, ◌+◌, ◌-◌, ◌<◌, ◌≡◌, refl, ◌∙◌, sym, subst, Bool, true, false, Option, none, some, List, [],
  ◌∷◌, ◌++◌, arith, if◌then◌else◌, length, not, ◌&&◌, ◌⊎◌, inl, inr,
}
use zekvok.Streams.Segment.{
  Segment, SegmentType, undefined, eof, payload, flush, full_flush, get_data, IsValid,
}

pub record Processor : Type 0 where
  pub source : List Segment
  pub sink : List Segment
  pub bytes_read : ℕ
  pub bytes_written : ℕ
  pub pass_eof : Bool
  pub pass_flush : Bool
  pub callbacks : ℕ

unfoldable pub is_eof : SegmentType → Bool
is_eof eof = true
is_eof _ = false

unfoldable pub payload_size : SegmentType → ℕ → ℕ
payload_size payload n = n
payload_size _ n = 0

unfoldable pub call_back : Processor → Processor
call_back p = record p { callbacks = p.callbacks + 1 }

unfoldable pub forward : Segment → Processor → Processor
unfolding call_back
forward s p = if p.pass_flush then record p { sink = p.sink ++ s ∷ [] } else call_back p

-- The loop of read(): `flush_impl` is the processor's own, and flush signals never leave the loop.
unfoldable pub read_from :
    (Processor → Processor) → List Segment → Processor → Option (Segment × Processor)
read_from flush_impl [] p = none
read_from flush_impl (s ∷ rest) p = elim s.kind [
  | flush ↦ read_from flush_impl rest (call_back (flush_impl p))
  | full_flush ↦ read_from flush_impl rest (forward s (flush_impl p))
  | k ↦ some (s, record p { source = rest; bytes_read = p.bytes_read + payload_size k s.size })
]

unfoldable pub read : (Processor → Processor) → Processor → Option (Segment × Processor)
unfolding read_from
read flush_impl p = read_from flush_impl p.source p

-- write(): the sink is the list of all that was pushed.
unfoldable pub write : Segment → Processor → Processor
unfolding is_eof payload_size
write s p = if is_eof s.kind && not p.pass_eof then p else record p {
  sink = p.sink ++ s ∷ [];
  bytes_written = p.bytes_written + payload_size s.kind s.size;
}

-- put_back(): the segment is the next to be read again, and is no longer counted.
unfoldable pub put_back : Segment → Processor → Processor
unfolding payload_size
put_back s p = record p {
  source = s ∷ p.source;
  bytes_read = p.bytes_read - payload_size s.kind s.size;
}

-- The bytes that a reader of the segments sees before the end of the stream.
unfoldable pub stream : List Segment → List ℕ
stream [] = []
stream (s ∷ rest) = elim s.kind [
  | eof ↦ []
  | flush ↦ stream rest
  | full_flush ↦ stream rest
  | k ↦ get_data s ++ stream rest
]

-- Well-formed segments, the last of them the only Eof.
unfoldable pub Closed : List Segment → Type 0
Closed [] = ⊥
Closed (s ∷ rest) = elim s.kind [ eof ↦ IsValid s × (rest ≡ []) | k ↦ IsValid s × Closed rest ]

-- What a read of a closed source gives: its end, or the first of its data.
pub record Ended (src : List Segment) (s : Segment) (p p' : Processor) : Type 0 where
  pub kind : s.kind ≡ eof
  pub over : stream src ≡ []
  pub rest : p'.source ≡ []
  pub sink : p'.sink ≡ p.sink
  pub written : p'.bytes_written ≡ p.bytes_written
  pub eofs : p'.pass_eof ≡ p.pass_eof
  pub flushes : p'.pass_flush ≡ p.pass_flush

pub record Got (src : List Segment) (s : Segment) (p p' : Processor) : Type 0 where
  pub kind : (s.kind ≡ undefined) ⊎ (s.kind ≡ payload)
  pub valid : IsValid s
  pub data_first : stream src ≡ get_data s ++ stream p'.source
  pub closed : Closed p'.source
  pub shorter : length p'.source < length src
  pub sink : p'.sink ≡ p.sink
  pub written : p'.bytes_written ≡ p.bytes_written
  pub eofs : p'.pass_eof ≡ p.pass_eof
  pub flushes : p'.pass_flush ≡ p.pass_flush

abbrev pub none_done : Processor → Processor
none_done p = p

-- The result of a read, whatever the order of the signals before it.
abbrev pub Reads : List Segment → Processor → Option (Segment × Processor) → Type 0
Reads src p r =
    (s : Segment) × (p' : Processor) × (r ≡ some (s, p')) × (Ended src s p p' ⊎ Got src s p p')

abbrev of_kind : SegmentType → Segment → Segment
of_kind k s = record s { kind = k }

-- Flush signals before the data change nothing of what is read.
after_flush :
    (src rest : List Segment) (p q : Processor) (r : Option (Segment × Processor))
    → stream src ≡ stream rest
    → length rest < length src
    → q.sink ≡ p.sink
    → q.bytes_written ≡ p.bytes_written
    → q.pass_eof ≡ p.pass_eof
    → q.pass_flush ≡ p.pass_flush
    → Reads rest q r
    → Reads src p r
after_flush src rest p q r a l b c d e (s, p', h, inl x) = (
  s,
  p',
  h,
  inl (record {
    kind = x.kind;
    over = a ∙ x.over;
    rest = x.rest;
    sink = x.sink ∙ b;
    written = x.written ∙ c;
    eofs = x.eofs ∙ d;
    flushes = x.flushes ∙ e;
  }),
)
after_flush src rest p q r a l b c d e (s, p', h, inr x) = (
  s,
  p',
  h,
  inr (record {
    kind = x.kind;
    valid = x.valid;
    data_first = a ∙ x.data_first;
    closed = x.closed;
    shorter = omega (arith, x.shorter);
    sink = x.sink ∙ b;
    written = x.written ∙ c;
    eofs = x.eofs ∙ d;
    flushes = x.flushes ∙ e;
  }),
)

forward-dropped : (s : Segment) (p : Processor) → p.pass_flush ≡ false → forward s p ≡ call_back p
unfolding forward
forward-dropped s p f = ground arith

-- A processor that forwards no flush signal, and does nothing of its own on one, reads either.
pub read_from-Closed :
    (src : List Segment) (p : Processor)
    → p.pass_flush ≡ false
    → Closed src
    → Reads src p (read_from none_done src p)
unfolding read_from stream Closed call_back
read_from-Closed [] p f c = absurd c
read_from-Closed (s ∷ rest) p f c = by_kind s.kind c (λ q e d. read_from-Closed rest q e d)
  where
    by_kind :
        (k : SegmentType)
        → Closed (of_kind k s ∷ rest)
        → ((q : Processor)
            → q.pass_flush ≡ false
            → Closed rest
            → Reads rest q (read_from none_done rest q))
        → Reads (of_kind k s ∷ rest) p (read_from none_done (of_kind k s ∷ rest) p)
    by_kind eof d ih = (
      of_kind eof s,
      _,
      refl,
      inl (record {
        kind = refl;
        over = refl;
        rest = d.1;
        sink = refl;
        written = refl;
        eofs = refl;
        flushes = refl;
      }),
    )
    by_kind undefined d ih = (
      of_kind undefined s,
      _,
      refl,
      inr (record {
        kind = inl refl;
        valid = d.0;
        data_first = refl;
        closed = d.1;
        shorter = omega arith;
        sink = refl;
        written = refl;
        eofs = refl;
        flushes = refl;
      }),
    )
    by_kind payload d ih = (
      of_kind payload s,
      _,
      refl,
      inr (record {
        kind = inr refl;
        valid = d.0;
        data_first = refl;
        closed = d.1;
        shorter = omega arith;
        sink = refl;
        written = refl;
        eofs = refl;
        flushes = refl;
      }),
    )
    by_kind flush d ih =
        after_flush (of_kind flush s ∷ rest) rest p _ _ refl (omega arith) refl refl refl refl
          (ih (call_back p) f d.1)
    by_kind full_flush d ih =
        subst (λ q. Reads (of_kind full_flush s ∷ rest) p (read_from none_done rest q))
          (sym (forward-dropped (of_kind full_flush s) p f))
          (after_flush (of_kind full_flush s ∷ rest) rest p (call_back p) _ refl (omega arith) refl
            refl refl refl (ih (call_back p) f d.1))
