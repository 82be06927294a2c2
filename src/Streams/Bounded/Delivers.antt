-- ===== src/Streams/Bounded/Delivers.antt =====
-- The loop of BoundedSource::work of src/BoundedStreamFilter.cpp delivers what it should.
use zekvok.Prelude.{
  ℕ, zero, suc, ◌+◌, ◌-◌, ◌≤◌, ◌<◌, min, ◌≡◌, refl, ap, ap₂, ◌∙◌, sym, subst, true, false, some,
  List, [], ◌∷◌, ◌++◌, append_assoc, append-nil, arith, leb, ◌==◌, ==_iff, length, take, drop,
  take-append_le, take-append_ge, drop-append_ge, drop-append_le, length-append, ◌⊎◌, inl, inr,
  Bool-cases,
}
use zekvok.Streams.Segment.{
  Segment, SegmentType, undefined, eof, payload, get_data, is_flush, signal, skip_bytes, IsValid,
  get_data-skip_bytes, get_data-clone_and_trim, length-get_data, kind-skip_bytes,
}
use zekvok.Streams.Processor.{
  Processor, is_eof, read, write, stream, Closed, none_done, Ended, Got, read_from-Closed,
}
use zekvok.Streams.Bounded.{return_to_queue, finish, split_segment, loop, work, Delivered, Done}
use zekvok.Streams.Bounded.Writes.{
  stream-cons, Wrote, write_data, ends, WroteEnd, write_end, stream-ends, signal_kind,
  finish-Delivered, Ended-Delivered,
}

-- A whole segment goes on, and the rest of the run delivers the rest.
whole_Delivered :
    (n : ℕ) (p p' p'' : Processor) (s : Segment)
    → Got p.source s p p'
    → s.size ≤ n
    → Delivered (n - s.size) (write s p') p''
    → Delivered n p p''
whole_Delivered n p p' p'' s g fits d = record {
  out = s ∷ d.out;
  pushed =
      d.pushed
      ∙ ap (λ xs. xs ++ d.out) (w.sink ∙ ap (λ xs. xs ++ s ∷ []) g.sink)
      ∙ append_assoc p.sink (s ∷ []) d.out;
  bytes =
      stream-cons s d.out g.kind
      ∙ ap (◌++◌ (get_data s))
          (d.bytes ∙ ap₂ (λ k xs. take k xs) (ap (λ k. n - k) (sym size)) (ap stream w.source))
      ∙ sym (ap (take n) g.data_first ∙ take-append_ge n (get_data s) _ (omega (arith, size)));
  left =
      d.left
      ∙ ap₂ (λ k xs. drop k xs) (ap (λ k. n - k) (sym size)) (ap stream w.source)
      ∙ sym (ap (drop n) g.data_first ∙ drop-append_ge n (get_data s) _ (omega (arith, size)));
  counted = omega (
    arith,
    d.counted,
    w.counted,
    g.written,
    size,
    ap length g.data_first,
    length-append (get_data s) (stream p'.source),
    ap (λ q. length (stream q)) w.source,
  );
}
  where
    w : Wrote s p'
    w = write_data s p' g.valid g.kind

    size : length (get_data s) ≡ s.size
    size = length-get_data s g.valid

-- The last segment is split: its first n bytes go on, and the others are put back.
split_with :
    (n : ℕ) (p p' : Processor) (s copy : Segment)
    → Got p.source s p p'
    → n < s.size
    → copy.kind ≡ s.kind
    → get_data copy ≡ take n (get_data s)
    → copy.size ≡ min n s.size
    → IsValid copy
    → Delivered n p (finish (write copy (return_to_queue (skip_bytes n s) p')))
unfolding return_to_queue finish
split_with n p p' s copy g cut same_kind copied copy_size valid = record {
  out = copy ∷ ends (write copy back) (signal eof);
  pushed =
      e.sink
      ∙ ap (λ xs. xs ++ ends (write copy back) (signal eof))
          (w.sink ∙ ap (λ xs. xs ++ copy ∷ []) g.sink)
      ∙ append_assoc p.sink (copy ∷ []) _;
  bytes =
      stream-cons copy _ (data_kind same_kind)
      ∙ ap₂ ◌++◌ copied (stream-ends (write copy back) (signal eof) signal_kind)
      ∙ append-nil _
      ∙ sym (ap (take n) g.data_first ∙ take-append_le n (get_data s) _ (omega (arith, size)));
  left =
      ap stream (e.source ∙ w.source)
      ∙ stream-cons (skip_bytes n s) p'.source (data_kind (kind-skip_bytes n s))
      ∙ ap (λ xs. xs ++ stream p'.source) (get_data-skip_bytes n s g.valid)
      ∙ sym (ap (drop n) g.data_first ∙ drop-append_le n (get_data s) _ (omega (arith, size)));
  counted = omega (
    arith,
    e.counted,
    w.counted,
    g.written,
    size,
    ap length g.data_first,
    length-append (get_data s) (stream p'.source),
  );
}
  where
    back : Processor
    back = return_to_queue (skip_bytes n s) p'

    size : length (get_data s) ≡ s.size
    size = length-get_data s g.valid

    data_kind : {k : SegmentType} → k ≡ s.kind → (k ≡ undefined) ⊎ (k ≡ payload)
    data_kind h = elim g.kind [ inl k ↦ inl (h ∙ k) | inr k ↦ inr (h ∙ k) ]

    w : Wrote copy back
    w = write_data copy back valid (data_kind same_kind)

    e : WroteEnd (signal eof) (write copy back)
    e = write_end (signal eof) (write copy back) signal_kind

not_flush : {k : SegmentType} → (k ≡ undefined) ⊎ (k ≡ payload) → is_flush k ≡ false
unfolding is_flush
not_flush (inl e) = rw e
not_flush (inr e) = rw e

split_Delivered :
    (n : ℕ) (p p' : Processor) (s : Segment) (fresh : List ℕ)
    → Got p.source s p p'
    → n < s.size
    → (q : Processor) × (split_segment n fresh s p' ≡ some q) × Delivered n p (finish q)
unfolding split_segment
split_Delivered n p p' s fresh g cut =
    let (copy, made, same_kind, copied, copy_size, valid) =
      get_data-clone_and_trim n fresh s g.valid (not_flush g.kind) in
    (
      write copy (return_to_queue (skip_bytes n s) p'),
      rw (made, split_segment) refl,
      split_with n p p' s copy g cut same_kind copied copy_size valid,
    )

not_eof : {k : SegmentType} → (k ≡ undefined) ⊎ (k ≡ payload) → is_eof k ≡ false
unfolding is_eof
not_eof (inl e) = rw e
not_eof (inr e) = rw e

is_eof_of : {k : SegmentType} → k ≡ eof → is_eof k ≡ true
unfolding is_eof
is_eof_of e = rw e

-- One turn, over what the read gives and what the later turns do.
turn :
    (fuel len br : ℕ) (fresh : List ℕ) (p p' : Processor) (s : Segment)
    → leb len br ≡ false
    → read none_done p ≡ some (s, p')
    → Ended p.source s p p' ⊎ Got p.source s p p'
    → ((b : ℕ)
        → Got p.source s p p'
        → Done (len - b) (write s p') (loop fuel len b fresh (write s p')))
    → Done (len - br) p (loop (suc fuel) len br fresh p)
unfolding loop
turn fuel len br fresh p p' s more got (inl h) ih =
    (finish (write s p'), rw (more, got, is_eof_of h.kind, loop) refl, Ended-Delivered _ p p' s h)
turn fuel len br fresh p p' s more got (inr g) ih =
    elim (Bool-cases (min (len - br) s.size == s.size)) [
      | inl whole ↦
          let n = min (len - br) s.size in
          let (p'', ran, d) = ih (br + n) g in
          (
            p'',
            rw (more, got, not_eof g.kind, whole, loop) ran,
            whole_Delivered (len - br) p p' p'' s g (ground (arith, (==_iff _ _).0 whole)) (
                subst (λ k. Delivered k (write s p') p'') (ground (arith, (==_iff _ _).0 whole)) d),
          )
      | inr part ↦
          let cut : len - br < s.size = ground arith in
          let all_of : min (len - br) s.size ≡ len - br = omega arith in
          let (q, made, d) = split_Delivered (len - br) p p' s fresh g cut in
          (finish q, rw (more, got, not_eof g.kind, part, all_of, made, loop) refl, d)
    ]

loop-Done :
    (fuel len br : ℕ) (fresh : List ℕ) (p : Processor)
    → length p.source < fuel
    → p.pass_flush ≡ false
    → Closed p.source
    → Done (len - br) p (loop fuel len br fresh p)
unfolding loop read
loop-Done zero len br fresh p f nf c = absurd (omega arith)
loop-Done (suc fuel) len br fresh p f nf c = elim (Bool-cases (leb len br)) [
  | inl over ↦ (
    finish p,
    rw (over, loop) refl,
    subst (λ k. Delivered k p (finish p)) (ground arith) (finish-Delivered p),
  )
  | inr more ↦
      let (s, p', got, cases) = read_from-Closed p.source p nf c in
      turn fuel len br fresh p p' s more got cases λ b g.
        loop-Done fuel len b fresh (write s p')
          (let w = write_data s p' g.valid g.kind in omega (arith, ap length w.source, g.shorter))
          ((write_data s p' g.valid g.kind).flushes ∙ g.flushes ∙ nf)
          (subst Closed (sym (write_data s p' g.valid g.kind).source) g.closed)
]

-- BoundedSource::work ends, and delivers exactly the first simulated_length bytes.
pub work_delivers :
    (simulated_length : ℕ) (fresh : List ℕ) (p : Processor)
    → p.pass_flush ≡ false
    → Closed p.source
    → (p' : Processor) × (work simulated_length fresh p ≡ some p') × Delivered simulated_length p p'
unfolding work
work_delivers n fresh p nf c =
    subst (λ k. Done k p (work n fresh p)) (let e : n - 0 ≡ n = omega arith in e)
      (loop-Done (suc (suc (length p.source))) n 0 fresh p (omega arith) nf c)
