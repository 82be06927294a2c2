-- ===== src/Streams/Crypto/Encrypts.antt =====
-- What CryptoSink::work pushes, and the bytes that CryptoSource::work makes of it again.
use zekvok.Prelude.{
  ℕ, ◌≡◌, ◌<◌, refl, ap, ap₂, sym, subst, ◌∙◌, true, false, Option, some, List, [], ◌∷◌, ◌++◌,
  length, append_assoc, append-nil, inr,
}
use zekvok.Exception.{Result, ok}
use zekvok.Streams.Segment.{Segment, eof, payload, get_data, signal}
use zekvok.Streams.Processor.{Processor, stream, Closed}
use zekvok.Streams.Bounded.Writes.{stream-cons}
use zekvok.Streams.Workers.Sources.{AllData, Sent, stream-append, Closed-append}
use zekvok.Streams.Crypto.{Filter, flush_filter, crypto_source_work}
use zekvok.Streams.Crypto.Decrypts.{
  AllData-append, Pushed, flush_filter-Flushes, crypto_source_work-Decrypted, Decrypted,
}
use zekvok.Streams.Crypto.Sink.{sink_loop, crypto_sink_work, received, flush_impl, end_message}

-- A sink that has pushed data, and no end.
pub record Encoded (bytes : List ℕ) (p q : Processor) : Type 0 where
  pub out : List Segment
  pub sink : q.sink ≡ p.sink ++ out
  pub sent : stream out ≡ bytes
  pub all : AllData out

Encoded-after :
    (first rest : List ℕ) (p r q p' : Processor)
    → r.sink ≡ p.sink
    → Pushed first r q
    → Encoded rest q p'
    → Encoded (first ++ rest) p p'
Encoded-after first rest p r q p' same h d = record {
  out = h.out ++ d.out;
  sink =
      d.sink
      ∙ ap (λ l. l ++ d.out) (h.sink ∙ ap (λ l. l ++ h.out) same)
      ∙ append_assoc p.sink h.out d.out;
  sent = stream-append h.out d.out h.all ∙ ap₂ ◌++◌ h.sent d.sent;
  all = AllData-append h.out d.out h.all d.all;
}

module _ {S : Type 0} (filter : Filter S) (fresh : List ℕ) where
  abbrev Encrypted : List ℕ → Processor → Option (Result Processor) → Type 0
  Encrypted bytes p r = (p' : Processor) × (r ≡ some (ok p')) × Encoded bytes p p'

  module _ (segment : Segment) (rest : List Segment) (s s' t : S) (p q : Processor) where
    end_turn :
        segment.kind ≡ eof
        → filter.message_end s ≡ ok s'
        → flush_filter filter fresh s' (received segment rest p) ≡ some (t, q)
        → sink_loop filter fresh (segment ∷ rest) (s, false) p ≡ some (ok q)
    unfolding sink_loop flush_impl end_message
    end_turn k m f = rw (k, sink_loop, flush_impl, m, end_message, f) refl

    data_turn :
        segment.kind ≡ payload
        → flush_filter filter fresh (filter.put (get_data segment) s) (received segment rest p)
          ≡ some (t, q)
        → sink_loop filter fresh (segment ∷ rest) (s, false) p
          ≡ sink_loop filter fresh rest (t, false) q
    unfolding sink_loop
    data_turn k f = rw (k, sink_loop, f) refl

  sink_loop-Encrypted :
      (content : List Segment) (e : Segment) (s : S) (p : Processor)
      → 0 < length fresh
      → AllData content
      → e.kind ≡ eof
      → filter.accepts s (stream content) ≡ true
      → Encrypted
          (filter.available s ++ filter.future s (stream content))
          p
          (sink_loop filter fresh (content ++ e ∷ []) (s, false) p)
  unfolding AllData stream received
  sink_loop-Encrypted [] e s p some_room d k a =
      let (s', m, b) = filter.end_accepted s a in
      let (t, q, r, h) = flush_filter-Flushes filter fresh s' (received e [] p) some_room in
      let w = h.pushed in
      (
        q,
        end_turn e [] s s' t p q k m r,
        record { out = w.out; sink = w.sink; sent = w.sent ∙ b; all = w.all },
      )
  sink_loop-Encrypted (segment ∷ content) e s p some_room d k a =
      let bytes = get_data segment in
      let first = stream-cons segment content (inr d.1) in
      let (t, q, r, h) =
        flush_filter-Flushes filter fresh (filter.put bytes s)
          (received segment (content ++ e ∷ []) p) some_room in
      let (p', f, x) = sink_loop-Encrypted content e t q some_room d.2 k (
        h.same_accepts (stream content)
        ∙ filter.put_accepts bytes s (stream content)
        ∙ ap (filter.accepts s) (sym first)
        ∙ a) in
      (
        p',
        data_turn segment (content ++ e ∷ []) s s t p q d.1 r ∙ f,
        subst (λ l. Encoded l p p')
            (ap (λ l. filter.available (filter.put bytes s) ++ l)
                (ap₂ ◌++◌ h.empty (h.same_future (stream content)))
              ∙ filter.put_future bytes s (stream content)
              ∙ ap (λ l. filter.available s ++ filter.future s l) (sym first))
            (Encoded-after _ _ p (received segment (content ++ e ∷ []) p) q p' refl h.pushed x),
      )

  -- CryptoSink::work ends, with what the filter makes of the data before the Eof on its sink, every byte
  -- once and in order.
  pub crypto_sink_work-Encrypted :
      (content : List Segment) (e : Segment) (s : S) (p : Processor)
      → 0 < length fresh
      → p.source ≡ content ++ e ∷ []
      → AllData content
      → e.kind ≡ eof
      → filter.accepts s (stream content) ≡ true
      → Encrypted
          (filter.available s ++ filter.future s (stream content))
          p
          (crypto_sink_work filter fresh s p)
  unfolding crypto_sink_work
  crypto_sink_work-Encrypted content e s p some_room at d k a =
      subst
        (λ l.
          Encrypted (filter.available s ++ filter.future s (stream content)) p
            (sink_loop filter fresh l (s, false) p))
        (sym at) (sink_loop-Encrypted content e s p some_room d k a)

-- What CryptoSink::work pushes, with an Eof behind it, CryptoSource::work turns into the bytes that the sink
-- was given, every one once and in order, and both end: where the sink's filter accepts those bytes, the
-- source's filter undoes what it makes of them, the pipeline's buffers are not empty, the sink's queue
-- is new and its source is data before an Eof, and the source forwards no flush.
pub crypto_round_trip :
    {S T : Type 0} (encryption : Filter S) (decryption : Filter T) (s : S) (t : T) (fresh : List ℕ)
    (content : List Segment) (e : Segment) (sink source : Processor)
    → 0 < length fresh
    → sink.source ≡ content ++ e ∷ []
    → AllData content
    → e.kind ≡ eof
    → sink.sink ≡ []
    → source.pass_flush ≡ false
    → encryption.accepts s (stream content) ≡ true
    → ((cipher : List ℕ)
        → cipher ≡ encryption.available s ++ encryption.future s (stream content)
        → (decryption.accepts t cipher ≡ true)
          × (decryption.available t ++ decryption.future t cipher ≡ stream content))
    → (p q : Processor) × (crypto_sink_work encryption fresh s sink ≡ some (ok p))
      × (crypto_source_work decryption fresh t
            (record source { source = p.sink ++ signal eof ∷ [] })
          ≡ some (ok q))
      × Sent (stream content) (record source { source = p.sink ++ signal eof ∷ [] }) q
unfolding stream signal
crypto_round_trip encryption decryption s t fresh content e sink source some_room at d k new f a
      undoes =
    let (p, r, x) =
      crypto_sink_work-Encrypted encryption fresh content e s sink some_room at d k a in
    let all : p.sink ≡ x.out = x.sink ∙ ap (λ l. l ++ x.out) new in
    let closed = subst (λ l. Closed (l ++ signal eof ∷ [])) (sym all) (Closed-append x.out x.all) in
    let end : stream (signal eof ∷ []) ≡ [] = refl in
    let arrived =
      ap (λ l. stream (l ++ signal eof ∷ [])) all
      ∙ stream-append x.out (signal eof ∷ []) x.all
      ∙ ap₂ ◌++◌ x.sent end
      ∙ append-nil _ in
    let (accepted, same) = undoes (stream (p.sink ++ signal eof ∷ [])) arrived in
    let reading : Processor = record source { source = p.sink ++ signal eof ∷ [] } in
    let (q, y, sent) =
      subst
        (λ b.
          Decrypted decryption fresh b
            (decryption.available t ++ decryption.future t (stream reading.source)) reading
            (crypto_source_work decryption fresh t reading))
        accepted (crypto_source_work-Decrypted decryption fresh t reading some_room f closed) in
    (p, q, r, y, subst (λ l. Sent l reading q) same sent)
