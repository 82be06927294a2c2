-- ===== src/Streams/Workers/Sinks.antt =====
-- What the readers of Workers take in, and the copy that a source and a sink make together.
use zekvok.Prelude.{
  ℕ, zero, suc, ◌+◌, ◌≡◌, ◌<◌, refl, ap, ap₂, sym, subst, ◌∙◌, true, false, Option, some, List, [],
  ◌∷◌, ◌++◌, length, append_assoc, append-nil, arith, length-append, inl, inr, ◌⊎◌,
}
use zekvok.Streams.Segment.{Segment, undefined, eof, payload, get_data, signal, IsValid}
use zekvok.Streams.Processor.{
  Processor, is_eof, read, read_from-Closed, none_done, write, stream, Closed, Ended, Got,
}
use zekvok.Streams.Bounded.Writes.{stream-cons, stream-ends, write_data, write_end, ends}
use zekvok.Streams.Workers.{
  Passing, forwards, counts, drops, pass_on, each_segment, append, turns, std_sink_work,
  byte_counter_work, hash_filter_work, flush_sink, copied, to_the_end, connected,
}
use zekvok.Streams.Workers.Sources.{
  std_source_work-Sends, stream-append, Closed-append, write-pass_eof,
}

-- What a reader has passed on.
abbrev passed : Passing → List ℕ → List ℕ
passed forwards bytes = bytes
passed _ bytes = []

-- Segments without an Eof.
unfoldable pub NoEnd : List Segment → Type 0
NoEnd [] = Unit
NoEnd (s ∷ rest) = ((s.kind ≡ undefined) ⊎ (s.kind ≡ payload)) × NoEnd rest

record Passed (how : Passing) (s : Segment) (p : Processor) : Type 0 where
  out : List Segment
  sink : (pass_on how s p).sink ≡ p.sink ++ out
  source : (pass_on how s p).source ≡ p.source
  flushes : (pass_on how s p).pass_flush ≡ p.pass_flush
  eofs : (pass_on how s p).pass_eof ≡ p.pass_eof
  bytes : stream out ≡ passed how (get_data s)
  no_end : NoEnd out

pass_on-Passed :
    (how : Passing) (s : Segment) (p : Processor)
    → IsValid s
    → (s.kind ≡ undefined) ⊎ (s.kind ≡ payload)
    → Passed how s p
unfolding pass_on NoEnd stream
pass_on-Passed forwards s p v k =
    let w = write_data s p v k in
    record {
      out = s ∷ [];
      sink = w.sink;
      source = w.source;
      flushes = w.flushes;
      eofs = write-pass_eof s p;
      bytes = stream-cons s [] k ∙ append-nil (get_data s);
      no_end = (k, tt);
    }
pass_on-Passed counts s p v k = record {
  out = [];
  sink = sym (append-nil p.sink);
  source = refl;
  flushes = refl;
  eofs = refl;
  bytes = refl;
  no_end = tt;
}
pass_on-Passed drops s p v k = record {
  out = [];
  sink = sym (append-nil p.sink);
  source = refl;
  flushes = refl;
  eofs = refl;
  bytes = refl;
  no_end = tt;
}

-- What the loop has done when the Eof came.
record Drained (how : Passing) (p p' : Processor) : Type 0 where
  out : List Segment
  sink : p'.sink ≡ p.sink ++ out
  bytes : stream out ≡ passed how (stream p.source)
  no_end : NoEnd out
  source : p'.source ≡ []
  eofs : p'.pass_eof ≡ p.pass_eof

pub is_eof-data : (s : Segment) → (s.kind ≡ undefined) ⊎ (s.kind ≡ payload) → is_eof s.kind ≡ false
unfolding is_eof
is_eof-data s (inl e) = rw e refl
is_eof-data s (inr e) = rw e refl

pub is_eof-eof : (s : Segment) → s.kind ≡ eof → is_eof s.kind ≡ true
unfolding is_eof
is_eof-eof s e = rw e refl

pub stream-NoEnd :
    (out rest : List Segment) → NoEnd out → stream (out ++ rest) ≡ stream out ++ stream rest
unfolding NoEnd stream
stream-NoEnd [] rest d = refl
stream-NoEnd (s ∷ out) rest d =
    stream-cons s (out ++ rest) d.0
    ∙ ap (λ l. get_data s ++ l) (stream-NoEnd out rest d.1)
    ∙ sym (append_assoc (get_data s) (stream out) (stream rest))
    ∙ ap (λ l. l ++ stream rest) (sym (stream-cons s out d.0))

pub NoEnd-append : (xs ys : List Segment) → NoEnd xs → NoEnd ys → NoEnd (xs ++ ys)
unfolding NoEnd
NoEnd-append [] ys h k = k
NoEnd-append (s ∷ xs) ys h k = (h.0, NoEnd-append xs ys h.1 k)

passed-append :
    (how : Passing) (xs ys : List ℕ) → passed how xs ++ passed how ys ≡ passed how (xs ++ ys)
passed-append forwards xs ys = refl
passed-append counts xs ys = refl
passed-append drops xs ys = refl

Drained-nil :
    (how : Passing) (s : Segment) (p p' : Processor) → Ended p.source s p p' → Drained how p p'
unfolding NoEnd stream
Drained-nil how s p p' x = record {
  out = [];
  sink = x.sink ∙ sym (append-nil p.sink);
  bytes = sym (ap (passed how) x.over ∙ passed-nil how);
  no_end = tt;
  source = x.rest;
  eofs = x.eofs;
}
  where
    passed-nil : (h : Passing) → passed h [] ≡ []
    passed-nil forwards = refl
    passed-nil counts = refl
    passed-nil drops = refl

Drained-cons :
    (how : Passing) (s : Segment) (p q p' : Processor)
    → Got p.source s p q
    → Drained how (pass_on how s q) p'
    → Drained how p p'
Drained-cons how s p q p' g d = record {
  out = w.out ++ d.out;
  sink =
      d.sink
      ∙ ap (λ l. l ++ d.out) (w.sink ∙ ap (λ l. l ++ w.out) g.sink)
      ∙ append_assoc p.sink w.out d.out;
  bytes =
      stream-NoEnd w.out d.out w.no_end
      ∙ ap₂ ◌++◌ w.bytes (d.bytes ∙ ap (λ l. passed how (stream l)) w.source)
      ∙ passed-append how (get_data s) (stream q.source)
      ∙ ap (passed how) (sym g.data_first);
  no_end = NoEnd-append w.out d.out w.no_end d.no_end;
  source = d.source;
  eofs = d.eofs ∙ w.eofs ∙ g.eofs;
}
  where
    w : Passed how s q
    w = pass_on-Passed how s q g.valid g.kind

module _ {A : Type 0} (take_in : List ℕ → A → A) (take_in-nil : (a : A) → take_in [] a ≡ a)
    (take_in-append : (xs ys : List ℕ) (a : A)
      → take_in (xs ++ ys) a ≡ take_in ys (take_in xs a)) where
  abbrev Drains : Passing → Processor → A → Option (Segment × Processor × A) → Type 0
  Drains how p a r =
      (s : Segment) × (p' : Processor) × (r ≡ some (s, p', take_in (stream p.source) a))
      × (s.kind ≡ eof)
      × Drained how p p'

  module _ (how : Passing) (fuel : ℕ) (p q : Processor) (s : Segment) (a : A) where
    last_turn :
        read none_done p ≡ some (s, q)
        → is_eof s.kind ≡ true
        → each_segment take_in how (suc fuel) p a ≡ some (s, q, a)
    unfolding each_segment
    last_turn e k = rw (e, each_segment, k) refl

    data_turn :
        read none_done p ≡ some (s, q)
        → is_eof s.kind ≡ false
        → each_segment take_in how (suc fuel) p a
          ≡ each_segment take_in how fuel (pass_on how s q) (take_in (get_data s) a)
    unfolding each_segment
    data_turn e k = rw (e, each_segment, k) refl

  each_segment-Drains :
      (how : Passing) (fuel : ℕ) (p : Processor) (a : A)
      → p.pass_flush ≡ false
      → Closed p.source
      → length p.source < fuel
      → Drains how p a (each_segment take_in how fuel p a)
  unfolding read
  each_segment-Drains how zero p a f c enough = absurd (omega arith)
  each_segment-Drains how (suc fuel) p a f c enough =
      let (s, q, e, x) = read_from-Closed p.source p f c in
      elim x [
        | inl over ↦ (
          s,
          q,
          last_turn how fuel p q s a e (is_eof-eof s over.kind)
              ∙ (ap (λ b. some (s, q, b)) (sym (ap (λ l. take_in l a) over.over ∙ take_in-nil a))),
          over.kind,
          Drained-nil how s p q over,
        )
        | inr g ↦
            let w = pass_on-Passed how s q g.valid g.kind in
            let (t, p', r, k, d) =
              each_segment-Drains how fuel (pass_on how s q) (take_in (get_data s) a)
                (w.flushes ∙ g.flushes ∙ f) (subst Closed (sym w.source) g.closed)
                (omega (arith, g.shorter, ap length w.source)) in
            (
              t,
              p',
              data_turn how fuel p q s a e (is_eof-data s g.kind)
                  ∙ (r
                      ∙ ap (λ b. some (t, p', b))
                          (sym (take_in-append (get_data s) (stream (pass_on how s q).source) a)
                            ∙ ap (λ l. take_in l a)
                                (ap (λ l. get_data s ++ stream l) w.source ∙ sym g.data_first))),
              k,
              Drained-cons how s p q p' g d,
            )
      ]

append-nil_lem : (a : List ℕ) → append [] a ≡ a
append-nil_lem a = append-nil a

append-append : (xs ys a : List ℕ) → append (xs ++ ys) a ≡ append ys (append xs a)
append-append xs ys a = sym (append_assoc a xs ys)

-- A processor that has read all of its source, and passed on the same bytes.
pub record Forwarded (p p' : Processor) : Type 0 where
  pub out : List Segment
  pub sink : p'.sink ≡ p.sink ++ out
  pub bytes : stream out ≡ stream p.source
  pub source : p'.source ≡ []

Drained-Forwarded :
    (s : Segment) (p p' : Processor)
    → s.kind ≡ eof
    → Drained forwards p p'
    → Forwarded p (write s p')
Drained-Forwarded s p p' k d =
    let w = write_end s p' k in
    record {
      out = d.out ++ ends p' s;
      sink = w.sink ∙ ap (λ l. l ++ ends p' s) d.sink ∙ append_assoc p.sink d.out (ends p' s);
      bytes =
          stream-NoEnd d.out (ends p' s) d.no_end
          ∙ ap₂ ◌++◌ d.bytes (stream-ends p' s k)
          ∙ append-nil (stream p.source);
      source = w.source ∙ d.source;
    }

-- A hash filter ends, passes on every byte that it reads, and leaves the digest of all of them, behind what
-- was hashed before; where its source is well-formed and ends, and the processor forwards no flush.
pub hash_filter_work_lem :
    (final : List ℕ → List ℕ) (p : Processor) (hashed : List ℕ)
    → p.pass_flush ≡ false
    → Closed p.source
    → (p' : Processor) × (hash_filter_work final p hashed
        ≡ some (p', final (hashed ++ stream p.source)))
      × Forwarded p p'
unfolding hash_filter_work
hash_filter_work_lem final p hashed f c =
    let (s, p', e, k, d) =
      each_segment-Drains append append-nil_lem append-append forwards (turns p) p hashed f c
        (omega arith) in
    (write s p', rw e refl, Drained-Forwarded s p p' k d)

-- ByteCounterSink ends, passes on every byte that it reads, and counts them.
byte_counter_work_lem :
    (p : Processor) (count : ℕ)
    → p.pass_flush ≡ false
    → Closed p.source
    → (p' : Processor) × (byte_counter_work p count ≡ some (p', count + length (stream p.source)))
      × Forwarded p p'
unfolding byte_counter_work
byte_counter_work_lem p count f c =
    let (s, p', e, k, d) =
      each_segment-Drains (λ bytes n. n + length bytes) (λ a. omega arith)
        (λ xs ys a. omega (arith, length-append xs ys)) forwards (turns p) p count f c
        (omega arith) in
    (write s p', rw e refl, Drained-Forwarded s p p' k d)

-- StdStreamSink ends, with every byte of its source behind what the file held.
std_sink_work_lem :
    (p : Processor) (file : List ℕ)
    → p.pass_flush ≡ false
    → Closed p.source
    → (p' : Processor) × (std_sink_work p file ≡ some (p', file ++ stream p.source))
unfolding std_sink_work
std_sink_work_lem p file f c =
    let (s, p', e, k, d) =
      each_segment-Drains append append-nil_lem append-append counts (turns p) p file f c
        (omega arith) in
    (p', rw e refl)

-- Copying a stream to a file: copy_to and the end of the two processors put every byte of the stream, once
-- and in order, behind what the file held, and both loops end; for a source with a new queue and a sink
-- that forwards no flush, where the pipeline's buffers are not empty.
pub copied_lem :
    (fresh bytes file : List ℕ) (source sink : Processor)
    → 0 < length fresh
    → source.sink ≡ []
    → sink.pass_flush ≡ false
    → (p' : Processor) × (copied fresh bytes source sink file ≡ some (p', file ++ bytes))
unfolding copied flush_sink signal stream
copied_lem fresh bytes file source sink some_room new f =
    let (p, e, sent) =
      std_source_work-Sends fresh bytes (record source { pass_eof = false }) some_room in
    let all : p.sink ≡ sent.out = sent.pushed ∙ ap₂ ◌++◌ new (append-nil sent.out) in
    let closed =
      subst (λ l. Closed (l ++ signal eof ∷ [])) (sym all) (Closed-append sent.out sent.all) in
    let (p', r) = std_sink_work_lem (flush_sink (record sink { source = p.sink })) file f closed in
    let end : stream (signal eof ∷ []) ≡ [] = refl in
    let arrived =
      ap (λ l. stream (l ++ signal eof ∷ [])) all
      ∙ stream-append sent.out (signal eof ∷ []) sent.all
      ∙ ap₂ ◌++◌ sent.sent end
      ∙ append-nil bytes in
    (
      p',
      ap (λ o. to_the_end file (connected sink o)) e ∙ r ∙ ap (λ l. some (p', file ++ l)) arrived,
    )
