-- ===== src/Streams/Crypto/Decrypts.antt =====
-- What CryptoSource::work pushes: everything that the filter makes of its input, or an exception.
use zekvok.Prelude.{
  ℕ, zero, suc, ◌≡◌, ◌<◌, refl, ap, ap₂, sym, subst, ◌∙◌, Bool, true, false, Option, some, List, [],
  ◌∷◌, ◌++◌, length, take, drop, append_assoc, append-nil, arith, inl, inr, ◌⊎◌, if◌then◌else◌,
  length-drop, take-append-drop,
}
use zekvok.Exception.{Result, ok, throw}
use zekvok.Streams.Segment.{Segment, eof, get_data, signal}
use zekvok.Streams.Processor.{
  Processor, is_eof, read, read_from-Closed, none_done, write, stream, Closed,
}
use zekvok.Streams.Bounded.Writes.{stream-cons, write_data, ends}
use zekvok.Streams.Workers.{filled}
use zekvok.Streams.Workers.Sources.{
  AllData, Sent, Sent-nil, stream-append, write-pass_eof, filled-IsValid, kind-filled,
  get_data-filled,
}
use zekvok.Streams.Workers.Sinks.{is_eof-data, is_eof-eof}
use zekvok.Streams.Crypto.{
  Filter, flush_loop, flush_filter, finished, last_flush, source_loop, crypto_source_work,
}

pub AllData-append : (xs ys : List Segment) → AllData xs → AllData ys → AllData (xs ++ ys)
unfolding AllData
AllData-append [] ys h k = k
AllData-append (s ∷ xs) ys h k = (h.0, h.1, AllData-append xs ys h.2 k)

take_empty : (n : ℕ) (xs : List ℕ) → 0 < n → take n xs ≡ [] → xs ≡ []
take_empty zero xs h e = absurd (omega arith)
take_empty (suc n) [] h e = refl
take_empty (suc n) (x ∷ xs) h e = absurd (cc)

some_left :
    (n : ℕ) (xs ys : List ℕ) (y : ℕ) → 0 < n → take n xs ≡ y ∷ ys → length (drop n xs) < length xs
some_left zero xs ys y h e = absurd (omega arith)
some_left (suc n) [] ys y h e = absurd (cc)
some_left (suc n) (x ∷ xs) ys y h e = omega (arith, length-drop n xs)

list_cases : (l : List ℕ) → (l ≡ []) ⊎ ((x : ℕ) × (xs : List ℕ) × (l ≡ x ∷ xs))
list_cases [] = inl refl
list_cases (x ∷ xs) = inr (x, xs, refl)

-- A processor that has pushed data and done nothing else that matters.
pub record Pushed (bytes : List ℕ) (p q : Processor) : Type 0 where
  pub out : List Segment
  pub sink : q.sink ≡ p.sink ++ out
  pub sent : stream out ≡ bytes
  pub all : AllData out
  pub source : q.source ≡ p.source
  pub flushes : q.pass_flush ≡ p.pass_flush
  pub eofs : q.pass_eof ≡ p.pass_eof

Pushed-nil : (p : Processor) → Pushed [] p p
unfolding AllData stream
Pushed-nil p = record {
  out = [];
  sink = sym (append-nil p.sink);
  sent = refl;
  all = tt;
  source = refl;
  flushes = refl;
  eofs = refl;
}

Pushed-cons :
    (fresh bytes rest : List ℕ) (p q : Processor)
    → Pushed rest (write (filled fresh bytes) p) q
    → Pushed (bytes ++ rest) p q
unfolding AllData
Pushed-cons fresh bytes rest p q h =
    let s = filled fresh bytes in
    let w = write_data s p (filled-IsValid fresh bytes) (inr (kind-filled fresh bytes)) in
    record {
      out = filled fresh bytes ∷ h.out;
      sink =
          h.sink
          ∙ ap (λ l. l ++ h.out) w.sink
          ∙ append_assoc p.sink (filled fresh bytes ∷ []) h.out;
      sent =
          stream-cons (filled fresh bytes) h.out (inr (kind-filled fresh bytes))
          ∙ ap₂ ◌++◌ (get_data-filled fresh bytes) h.sent;
      all = (filled-IsValid fresh bytes, kind-filled fresh bytes, h.all);
      source = h.source ∙ w.source;
      flushes = h.flushes ∙ w.flushes;
      eofs = h.eofs ∙ write-pass_eof (filled fresh bytes) p;
    }

-- The end, or more data and the end, behind data.
pub Sent-after :
    (first rest : List ℕ) (p q p' : Processor)
    → Pushed first p q
    → Sent rest q p'
    → Sent (first ++ rest) p p'
Sent-after first rest p q p' h d = record {
  out = h.out ++ d.out;
  pushed =
      d.pushed
      ∙ ap₂ (λ l x. l ++ (d.out ++ x)) h.sink (ap (λ b. if b then signal eof ∷ [] else []) h.eofs)
      ∙ append_assoc p.sink h.out (d.out ++ ends p (signal eof))
      ∙ ap (λ l. p.sink ++ l) (sym (append_assoc h.out d.out (ends p (signal eof))));
  sent = stream-append h.out d.out h.all ∙ ap₂ ◌++◌ h.sent d.sent;
  all = AllData-append h.out d.out h.all d.all;
}

module _ {S : Type 0} (filter : Filter S) (fresh : List ℕ) where
  module _ (fuel : ℕ) (s : S) (p : Processor) where
    nothing_turn :
        (filter.get (length fresh) s).0 ≡ []
        → flush_loop filter fresh (suc fuel) s p ≡ some ((filter.get (length fresh) s).1, p)
    unfolding flush_loop
    nothing_turn e = rw (e, flush_loop) refl

    output_turn :
        (x : ℕ) (xs : List ℕ)
        → (filter.get (length fresh) s).0 ≡ x ∷ xs
        → flush_loop filter fresh (suc fuel) s p
          ≡ flush_loop filter fresh fuel
              (filter.get (length fresh) s).1
              (write (filled fresh (x ∷ xs)) p)
    unfolding flush_loop
    output_turn x xs e = rw (e, flush_loop) refl

  -- What a flush leaves: no output, and the same future.
  pub record Flushed (s : S) (p : Processor) (s' : S) (q : Processor) : Type 0 where
    pub pushed : Pushed (filter.available s) p q
    pub empty : filter.available s' ≡ []
    pub same_future : (xs : List ℕ) → filter.future s' xs ≡ filter.future s xs
    pub same_accepts : (xs : List ℕ) → filter.accepts s' xs ≡ filter.accepts s xs

  abbrev pub Flushes : S → Processor → Option (S × Processor) → Type 0
  Flushes s p r = (s' : S) × (q : Processor) × (r ≡ some (s', q)) × Flushed s p s' q

  Flushed-cons :
      (s : S) (p : Processor) (s' : S) (q : Processor)
      → let t = (filter.get (length fresh) s).1 in
        Flushed t (write (filled fresh (filter.get (length fresh) s).0) p) s' q → Flushed s p s' q
  Flushed-cons s p s' q h = record {
    pushed =
        subst (λ l. Pushed l p q)
          (ap₂ ◌++◌ (filter.get_takes (length fresh) s) (filter.get_leaves (length fresh) s)
            ∙ take-append-drop (length fresh) (filter.available s))
          (Pushed-cons fresh (filter.get (length fresh) s).0 _ p q h.pushed);
    empty = h.empty;
    same_future = λ xs. h.same_future xs ∙ filter.get_future (length fresh) s xs;
    same_accepts = λ xs. h.same_accepts xs ∙ filter.get_accepts (length fresh) s xs;
  }

  flush_loop-Flushes :
      (fuel : ℕ) (s : S) (p : Processor)
      → 0 < length fresh
      → length (filter.available s) < fuel
      → Flushes s p (flush_loop filter fresh fuel s p)
  flush_loop-Flushes zero s p some_room enough = absurd (omega arith)
  flush_loop-Flushes (suc fuel) s p some_room enough =
      elim (list_cases (filter.get (length fresh) s).0) [
        | inl e ↦
            let over =
              take_empty (length fresh) (filter.available s) some_room
                (sym (filter.get_takes (length fresh) s) ∙ e) in
            (
              (filter.get (length fresh) s).1,
              p,
              nothing_turn fuel s p e,
              record {
                pushed = subst (λ l. Pushed l p p) (sym over) (Pushed-nil p);
                empty =
                    filter.get_leaves (length fresh) s
                    ∙ ap (drop (length fresh)) over
                    ∙ drop_nil (length fresh);
                same_future = filter.get_future (length fresh) s;
                same_accepts = filter.get_accepts (length fresh) s;
              },
            )
        | inr (x, xs, e) ↦
            let fewer =
              some_left (length fresh) (filter.available s) xs x some_room
                (sym (filter.get_takes (length fresh) s) ∙ e) in
            let left = ap length (filter.get_leaves (length fresh) s) in
            let (s', q, r, h) =
              flush_loop-Flushes fuel (filter.get (length fresh) s).1
                (write (filled fresh (filter.get (length fresh) s).0) p) some_room
                (omega (arith, fewer, left, enough)) in
            (
              s',
              q,
              output_turn fuel s p x xs e
                  ∙ ap
                      (λ l.
                        flush_loop filter fresh fuel (filter.get (length fresh) s).1
                          (write (filled fresh l) p))
                      (sym e)
                  ∙ r,
              Flushed-cons s p s' q h,
            )
      ]
    where
      drop_nil : (n : ℕ) → drop {A = ℕ} n [] ≡ []
      drop_nil zero = refl
      drop_nil (suc n) = refl

  pub flush_filter-Flushes :
      (s : S) (p : Processor) → 0 < length fresh → Flushes s p (flush_filter filter fresh s p)
  unfolding flush_filter
  flush_filter-Flushes s p some_room =
      flush_loop-Flushes (suc (length (filter.available s))) s p some_room (omega arith)

  -- What the rest of the work gives: the bytes and the end, or the exception, as the filter decides.
  abbrev pub Decrypted : Bool → List ℕ → Processor → Option (Result Processor) → Type 0
  Decrypted true bytes p r = (p' : Processor) × (r ≡ some (ok p')) × Sent bytes p p'
  Decrypted false bytes p r = r ≡ some (throw filter.rejected)

  Decrypted-cons :
      (b : Bool) (first rest : List ℕ) (p q : Processor) (r : Option (Result Processor))
      → Pushed first p q
      → Decrypted b rest q r
      → Decrypted b (first ++ rest) p r
  Decrypted-cons false first rest p q r h d = d
  Decrypted-cons true first rest p q r h (p', e, d) = (p', e, Sent-after first rest p q p' h d)

  Decrypted-read :
      (b : Bool) (bytes : List ℕ) (p q : Processor) (r : Option (Result Processor))
      → q.sink ≡ p.sink
      → q.pass_eof ≡ p.pass_eof
      → Decrypted b bytes q r
      → Decrypted b bytes p r
  Decrypted-read false bytes p q r h k d = d
  Decrypted-read true bytes p q r h k (p', e, d) = (
    p',
    e,
    record {
      out = d.out;
      pushed = d.pushed ∙ ap₂ (λ l b. l ++ (d.out ++ (if b then signal eof ∷ [] else []))) h k;
      sent = d.sent;
      all = d.all;
    },
  )

  -- The turn of the Eof.
  last_flush-Decrypted :
      (b : Bool) (s : S) (q : Processor)
      → 0 < length fresh
      → filter.accepts s [] ≡ b
      → Decrypted b
          (filter.available s ++ filter.future s [])
          q
          (last_flush filter fresh (filter.message_end s) q)
  unfolding last_flush
  last_flush-Decrypted false s q some_room e = rw (filter.end_rejected s e) refl
  last_flush-Decrypted true s q some_room e =
      let (s', m, a) = filter.end_accepted s e in
      let (t, q', r, h) = flush_filter-Flushes s' q some_room in
      (
        write (signal eof) q',
        ap (λ x. last_flush filter fresh x q) m ∙ ap (finished filter fresh) r,
        subst (λ l. Sent l q (write (signal eof) q')) (append-nil (filter.available s') ∙ a)
            (Sent-after (filter.available s') [] q q' _ h.pushed (Sent-nil q')),
      )

  module _ (fuel : ℕ) (s : S) (p q : Processor) (segment : Segment) where
    end_turn :
        read none_done p ≡ some (segment, q)
        → is_eof segment.kind ≡ true
        → source_loop filter fresh (suc fuel) s p ≡ last_flush filter fresh (filter.message_end s) q
    unfolding source_loop
    end_turn e k = rw (e, source_loop, k) refl

    data_turn :
        (s' : S) (q' : Processor)
        → read none_done p ≡ some (segment, q)
        → is_eof segment.kind ≡ false
        → flush_filter filter fresh (filter.put (get_data segment) s) q ≡ some (s', q')
        → source_loop filter fresh (suc fuel) s p ≡ source_loop filter fresh fuel s' q'
    unfolding source_loop
    data_turn s' q' e k f = rw (e, source_loop, k, f) refl

  source_loop-Decrypted :
      (fuel : ℕ) (b : Bool) (s : S) (p : Processor)
      → 0 < length fresh
      → p.pass_flush ≡ false
      → Closed p.source
      → length p.source < fuel
      → filter.accepts s (stream p.source) ≡ b
      → Decrypted b
          (filter.available s ++ filter.future s (stream p.source))
          p
          (source_loop filter fresh fuel s p)
  unfolding read
  source_loop-Decrypted zero b s p some_room f c enough a = absurd (omega arith)
  source_loop-Decrypted (suc fuel) b s p some_room f c enough a =
      let (segment, q, e, x) = read_from-Closed p.source p f c in
      elim x [
        | inl over ↦
            subst (Decrypted b _ p)
              (sym (end_turn fuel s p q segment e (is_eof-eof segment over.kind)))
              (subst
                (λ l.
                  Decrypted b (filter.available s ++ filter.future s l) p
                    (last_flush filter fresh (filter.message_end s) q))
                (sym over.over)
                (Decrypted-read b _ p q _ over.sink over.eofs (
                  last_flush-Decrypted b s q some_room
                    (ap (filter.accepts s) (sym over.over) ∙ a))))
        | inr g ↦
            let bytes = get_data segment in
            let (s', q', r, h) = flush_filter-Flushes (filter.put bytes s) q some_room in
            let w = h.pushed in
            let ih =
              source_loop-Decrypted fuel b s' q' some_room (w.flushes ∙ g.flushes ∙ f)
                (subst Closed (sym w.source) g.closed)
                (omega (arith, g.shorter, ap length w.source))
                (h.same_accepts (stream q'.source)
                  ∙ ap (λ (l : List Segment). filter.accepts (filter.put bytes s) (stream l))
                      w.source
                  ∙ filter.put_accepts bytes s (stream q.source)
                  ∙ ap (filter.accepts s) (sym g.data_first)
                  ∙ a) in
            subst (Decrypted b _ p)
              (sym (data_turn fuel s p q segment s' q' e (is_eof-data segment g.kind) r))
              (subst (λ l. Decrypted b l p (source_loop filter fresh fuel s' q'))
                (ap (λ l. filter.available (filter.put bytes s) ++ l)
                    (ap₂ ◌++◌ h.empty (
                      h.same_future (stream q'.source)
                      ∙ ap (λ (l : List Segment). filter.future (filter.put bytes s) (stream l))
                          w.source))
                  ∙ filter.put_future bytes s (stream q.source)
                  ∙ ap (λ l. filter.available s ++ filter.future s l) (sym g.data_first))
                (Decrypted-read b _ p q _ g.sink g.eofs (Decrypted-cons b _ _ q q' _ w ih)))
      ]

  -- CryptoSource::work ends. When the filter accepts the whole input, it has pushed what the filter makes of
  -- it, every byte once and in order, and then an Eof where it passes that on; when not, it throws the
  -- filter's exception. The pipeline's buffers are not empty, the source is well-formed and ends, and
  -- the processor forwards no flush.
  pub crypto_source_work-Decrypted :
      (s : S) (p : Processor)
      → 0 < length fresh
      → p.pass_flush ≡ false
      → Closed p.source
      → Decrypted
          (filter.accepts s (stream p.source))
          (filter.available s ++ filter.future s (stream p.source))
          p
          (crypto_source_work filter fresh s p)
  unfolding crypto_source_work
  crypto_source_work-Decrypted s p some_room f c =
      source_loop-Decrypted (suc (length p.source)) (filter.accepts s (stream p.source)) s p
        some_room f c (omega arith) refl
