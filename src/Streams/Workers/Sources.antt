-- ===== src/Streams/Workers/Sources.antt =====
-- What StdStreamSource and MemorySource push: the bytes that they hold, in segments of at most a buffer.
use zekvok.Prelude.{
  ℕ, zero, suc, ◌≡◌, ◌<◌, refl, ap, sym, ◌∙◌, Option, some, List, [], ◌∷◌, ◌++◌, length, take, drop,
  min, append_assoc, arith, length-append, length-drop, take-append, take-append-drop, ap₂, subst,
  inl, inr, if◌then◌else◌,
}
use zekvok.Streams.Segment.{Segment, eof, payload, get_data, signal, IsValid}
use zekvok.Streams.Processor.{Processor, write, stream, Closed}
use zekvok.Streams.Bounded.Writes.{stream-cons, write_data, Wrote, ends, write_end, signal_kind}
use zekvok.Streams.Workers.{
  filled, report_bytes_read, std_source_loop, std_source_work, memory_source_loop,
  memory_source_work,
}

-- Segments of data, all well-formed.
unfoldable pub AllData : List Segment → Type 0
AllData [] = Unit
AllData (s ∷ rest) = IsValid s × (s.kind ≡ payload) × AllData rest

pub Closed-append : (out : List Segment) → AllData out → Closed (out ++ signal eof ∷ [])
unfolding Closed AllData signal
Closed-append [] d = (record { inside = omega arith; backed = λ h. refl; filled = inr refl }, refl)
Closed-append (s ∷ out) d = rw (d.1, Closed) (d.0, Closed-append out d.2)

pub stream-append :
    (out rest : List Segment) → AllData out → stream (out ++ rest) ≡ stream out ++ stream rest
unfolding AllData stream
stream-append [] rest d = refl
stream-append (s ∷ out) rest d =
    stream-cons s (out ++ rest) (inr d.1)
    ∙ ap (λ l. get_data s ++ l) (stream-append out rest d.2)
    ∙ sym (append_assoc (get_data s) (stream out) (stream rest))
    ∙ ap (λ l. l ++ stream rest) (sym (stream-cons s out (inr d.1)))

-- What a source has done: it pushed `out`, whose bytes are `bytes`, and then its end.
pub record Sent (bytes : List ℕ) (p p' : Processor) : Type 0 where
  pub out : List Segment
  pub pushed : p'.sink ≡ p.sink ++ (out ++ ends p (signal eof))
  pub sent : stream out ≡ bytes
  pub all : AllData out

module _ (fresh bytes : List ℕ) where
  size-filled : (filled fresh bytes).size ≡ length bytes
  unfolding filled
  size-filled = ground (arith, length-append bytes (drop (length bytes) fresh))

  pub get_data-filled : get_data (filled fresh bytes) ≡ bytes
  unfolding filled
  get_data-filled =
      ap (λ k. take k (bytes ++ drop (length bytes) fresh)) size-filled
      ∙ take-append bytes (drop (length bytes) fresh)

  pub filled-IsValid : IsValid (filled fresh bytes)
  unfolding filled
  filled-IsValid = record {
    inside = omega (arith, size-filled, length-append bytes (drop (length bytes) fresh));
    backed = λ h. absurd (cc);
    filled = inl refl;
  }

  pub kind-filled : (filled fresh bytes).kind ≡ payload
  unfolding filled
  kind-filled = refl

pub write-pass_eof : (s : Segment) (p : Processor) → (write s p).pass_eof ≡ p.pass_eof
unfolding write
write-pass_eof s p = ground arith

-- Pushing the end.
pub Sent-nil : (p : Processor) → Sent [] p (write (signal eof) p)
unfolding stream AllData
Sent-nil p = record {
  out = [];
  pushed = (write_end (signal eof) p signal_kind).sink;
  sent = refl;
  all = tt;
}

-- Pushing a segment of data first.
Sent-cons :
    (fresh bytes rest : List ℕ) (p p' : Processor)
    → Sent rest (write (filled fresh bytes) p) p'
    → Sent (bytes ++ rest) p p'
unfolding AllData
Sent-cons fresh bytes rest p p' h = record {
  out = s ∷ h.out;
  pushed =
      h.pushed
      ∙ ap₂ (λ l e. l ++ (h.out ++ e)) w.sink
          (ap (λ b. if b then signal eof ∷ [] else []) (write-pass_eof s p))
      ∙ append_assoc p.sink (s ∷ []) (h.out ++ ends p (signal eof));
  sent =
      stream-cons s h.out (inr (kind-filled fresh bytes))
      ∙ ap₂ ◌++◌ (get_data-filled fresh bytes) h.sent;
  all = (filled-IsValid fresh bytes, kind-filled fresh bytes, h.all);
}
  where
    s : Segment
    s = filled fresh bytes

    w : Wrote s p
    w = write_data s p (filled-IsValid fresh bytes) (inr (kind-filled fresh bytes))

abbrev pub Sends : List ℕ → Processor → Option Processor → Type 0
Sends bytes p r = (p' : Processor) × (r ≡ some p') × Sent bytes p p'

Sends-cons :
    (n : ℕ) (fresh bytes : List ℕ) (p : Processor) (r : Option Processor)
    → Sends (drop n bytes) (write (filled fresh (take n bytes)) p) r
    → Sends bytes p r
Sends-cons n fresh bytes p r (p', e, h) = (
  p',
  e,
  subst (λ l. Sent l p p') (take-append-drop n bytes)
      (Sent-cons fresh (take n bytes) (drop n bytes) p p' h),
)

Sends-report_bytes_read :
    (n : ℕ) (bytes : List ℕ) (p : Processor) (r : Option Processor)
    → Sends bytes (report_bytes_read n p) r
    → Sends bytes p r
unfolding report_bytes_read
Sends-report_bytes_read n bytes p r (p', e, h) =
    (p', e, record { out = h.out; pushed = h.pushed; sent = h.sent; all = h.all })

std_source_loop-Sends :
    (fuel : ℕ) (fresh rest : List ℕ) (p : Processor)
    → 0 < length fresh
    → length rest < fuel
    → Sends rest p (std_source_loop fuel fresh rest p)
unfolding std_source_loop
std_source_loop-Sends zero fresh rest p some_room enough = absurd (omega arith)
std_source_loop-Sends (suc fuel) [] rest p some_room enough = absurd (omega arith)
std_source_loop-Sends (suc fuel) (f ∷ fresh) [] p some_room enough =
    (write (signal eof) p, refl, Sent-nil p)
std_source_loop-Sends (suc fuel) (f ∷ fresh) (x ∷ rest) p some_room enough =
    Sends-report_bytes_read (length (take (length (f ∷ fresh)) (x ∷ rest))) (x ∷ rest) p _ (
      Sends-cons (length (f ∷ fresh)) (f ∷ fresh) (x ∷ rest) _ _ (
        std_source_loop-Sends fuel (f ∷ fresh) (drop (length fresh) rest) _ some_room
          (omega (arith, length-drop (length fresh) rest))))

-- StdStreamSource::work ends, having pushed the bytes of its stream, in order and once, in well-formed
-- segments of data, and then an Eof where it passes that on; where the pipeline's buffers are not empty.
pub std_source_work-Sends :
    (fresh bytes : List ℕ) (p : Processor)
    → 0 < length fresh
    → Sends bytes p (std_source_work fresh (some bytes) p)
unfolding std_source_work
std_source_work-Sends fresh bytes p some_room =
    std_source_loop-Sends (suc (length bytes)) fresh bytes p some_room (omega arith)

memory_source_loop-Sends :
    (fuel : ℕ) (fresh rest : List ℕ) (p : Processor)
    → 0 < length fresh
    → length rest < fuel
    → Sends rest p (memory_source_loop fuel fresh rest p)
unfolding memory_source_loop
memory_source_loop-Sends zero fresh rest p some_room enough = absurd (omega arith)
memory_source_loop-Sends (suc fuel) fresh [] p some_room enough =
    (write (signal eof) p, refl, Sent-nil p)
memory_source_loop-Sends (suc fuel) fresh (x ∷ rest) p some_room enough =
    let n = min (length fresh) (length (x ∷ rest)) in
    Sends-cons n fresh (x ∷ rest) p _ (
      memory_source_loop-Sends fuel fresh (drop n (x ∷ rest)) _ some_room
        (omega (arith, length-drop n (x ∷ rest))))

-- MemorySource::work ends, having pushed the bytes of its buffer, in order and once.
memory_source_work-Sends :
    (fresh buffer : List ℕ) (p : Processor)
    → 0 < length fresh
    → Sends buffer p (memory_source_work fresh buffer p)
unfolding memory_source_work
memory_source_work-Sends fresh buffer p some_room =
    memory_source_loop-Sends (suc (length buffer)) fresh buffer p some_room (omega arith)
