-- ===== src/Streams/Synchronous/Reads.antt =====
-- A read of SynchronousSource gives the next bytes of the stream.
use zekvok.Prelude.{
  ℕ, zero, suc, ◌+◌, ◌-◌, ◌≤◌, ◌<◌, min, ◌≡◌, ◌⊎◌, refl, sym, ap, ap₂, subst, ◌∙◌, true, false,
  Option, none, some, List, [], ◌∷◌, ◌++◌, length, take, drop, arith, inl, inr, append_assoc,
  append-nil, length-append, take_all, take-append_le, take-append_ge, drop-append_le,
  drop-append_ge, dec_le,
}
use zekvok.Streams.Segment.{
  Segment, get_data, skip_bytes, IsValid, length-get_data, get_data-skip_bytes,
}
use zekvok.Streams.Processor.{
  Processor, is_eof, read, none_done, read_from, stream, Closed, read_from-Closed,
}
use zekvok.Streams.Workers.Sinks.{is_eof-data, is_eof-eof}
use zekvok.Streams.Synchronous.{
  SynchronousSource, ReadResult, end_of_file, bytes, rest_of, at_end, read_loop, read_bytes,
}

-- The bytes of the current segment, which is well-formed.
abbrev pub current_bytes : Option Segment → List ℕ
current_bytes none = []
current_bytes (some s) = get_data s

abbrev pub IsCurrent : Option Segment → Type 0
IsCurrent none = Unit
IsCurrent (some s) = IsValid s

-- A source that can be read, and what is still to be read from it.
pub record IsReadable (s : SynchronousSource) : Type 0 where
  pub open_end : s.at_eof ≡ false
  pub current : IsCurrent s.current_segment
  pub closed : Closed s.processor.source
  pub flushes : s.processor.pass_flush ≡ false

abbrev pub remaining : SynchronousSource → List ℕ
remaining s = current_bytes s.current_segment ++ stream s.processor.source

-- After the read: nothing is left and the source is at its end, or the source can be read on.
abbrev pub Leaves : List ℕ → SynchronousSource → Type 0
Leaves left s = ((s.at_eof ≡ true) × (left ≡ [])) ⊎ (IsReadable s × (remaining s ≡ left))

abbrev pub Gives : ℕ → List ℕ → List ℕ → Option (ReadResult × SynchronousSource) → Type 0
Gives n out rest r =
    ((s : SynchronousSource) × (r ≡ some (end_of_file, s)) × (out ≡ []) × (rest ≡ []) × (0 < n))
    ⊎ ((s : SynchronousSource) × (r ≡ some (bytes (out ++ take n rest), s))
        × ((0 < length out + length rest) ⊎ (n ≡ 0))
        × Leaves (drop n rest) s)

skip_bytes-IsValid : (n : ℕ) (s : Segment) → IsValid s → IsValid (skip_bytes n s)
unfolding skip_bytes
skip_bytes-IsValid n s v = record {
  inside = omega (arith, v.inside);
  backed = λ a. let e = v.backed a in omega arith;
  filled = elim v.filled [ inl k ↦ inl k | inr z ↦ inr (omega arith) ];
}

-- A segment that is used up, and one that is not.
rest_of-none : (k : ℕ) (s : Segment) → s.size ≤ k → rest_of k s ≡ none
unfolding rest_of skip_bytes
rest_of-none k s h = ground arith

rest_of-some : (k : ℕ) (s : Segment) → k < s.size → rest_of k s ≡ some (skip_bytes k s)
unfolding rest_of skip_bytes
rest_of-some k s h = ground arith

append_nil_parts : (xs ys : List ℕ) → xs ++ ys ≡ [] → (xs ≡ []) × (ys ≡ [])
append_nil_parts [] ys h = (refl, h)
append_nil_parts (x ∷ xs) ys h = absurd (cc)

-- A segment that is copied whole, before what the rest of the loop does.
whole :
    (s : Segment) (n : ℕ) (out rest : List ℕ) (r : Option (ReadResult × SynchronousSource))
    → IsValid s
    → s.size ≤ suc n
    → Gives (suc n - s.size) (out ++ get_data s) rest r
    → Gives (suc n) out (get_data s ++ rest) r
whole s n out rest r v h (inl (t, e, no_out, no_rest, more)) =
    let parts = append_nil_parts out (get_data s) no_out in
    inl (t, e, parts.0, ap₂ ◌++◌ parts.1 no_rest, omega arith)
whole s n out rest r v h (inr (t, e, some_bytes, left)) = inr (
  t,
  e ∙ ap (λ l. some (bytes l, t)) copied,
  inl (elim some_bytes [
    | inl some_more ↦
        omega (arith, some_more, length-append out (get_data s), length-append (get_data s) rest)
    | inr no_more ↦ omega (arith, no_more, length-get_data s v, length-append (get_data s) rest)
  ]),
  subst (λ l. Leaves l t) later left,
)
  where
    size : length (get_data s) ≡ s.size
    size = length-get_data s v

    copied :
        (out ++ get_data s) ++ take (suc n - s.size) rest ≡ out ++ take (suc n) (get_data s ++ rest)
    copied =
        append_assoc out (get_data s) _
        ∙ ap (λ l. out ++ l)
            (ap (λ k. get_data s ++ take (suc n - k) rest) (sym size)
              ∙ sym (take-append_ge (suc n) (get_data s) rest (omega (arith, size))))

    later : drop (suc n - s.size) rest ≡ drop (suc n) (get_data s ++ rest)
    later =
        ap (λ k. drop (suc n - k) rest) (sym size)
        ∙ sym (drop-append_ge (suc n) (get_data s) rest (omega (arith, size)))

module _ (p : Processor) (closed : Closed p.source) (flushes : p.pass_flush ≡ false) where
  -- Nothing more to copy.
  finished :
      (fuel : ℕ) (out : List ℕ) (current : Option Segment)
      → IsCurrent current
      → Gives 0 out (current_bytes current ++ stream p.source) (read_loop fuel 0 out current p)
  unfolding read_loop
  finished fuel out current v = inr (
    record { processor = p; current_segment = current; at_eof = false },
    ap (λ l. some (bytes l, _)) (sym (append-nil out)),
    inr refl,
    inr (record { open_end = refl; current = v; closed = closed; flushes = flushes }, refl),
  )

  -- A segment of which the last bytes to copy are a part.
  part :
      (fuel n : ℕ) (s : Segment) (out : List ℕ)
      → IsValid s
      → suc n < s.size
      → Gives
          (suc n)
          out
          (get_data s ++ stream p.source)
          (read_loop fuel 0 (out ++ take (suc n) (get_data s)) (some (skip_bytes (suc n) s)) p)
  part fuel n s out v h =
      elim (finished fuel (out ++ take (suc n) (get_data s)) (some (skip_bytes (suc n) s))
        (skip_bytes-IsValid (suc n) s v)) [
          | inl (t, e, a, b, more) ↦ absurd (omega arith)
          | inr (t, e, b, left) ↦ inr (
            t,
            e
                ∙ ap (λ l. some (bytes l, t))
                    (append-nil _
                      ∙ ap (λ l. out ++ l)
                          (sym (
                            take-append_le (suc n) (get_data s) (stream p.source)
                              (omega (arith, size))))),
            inl (omega (arith, size, length-append (get_data s) (stream p.source))),
            subst (λ l. Leaves l t)
                (ap (λ l. l ++ stream p.source) (get_data-skip_bytes (suc n) s v)
                  ∙ sym
                      (drop-append_le (suc n) (get_data s) (stream p.source) (omega (arith, size))))
                left,
          )
        ]
    where
      size : length (get_data s) ≡ s.size
      size = length-get_data s v

  -- The turn that copies from a segment, by what the loop does after a segment that it used up.
  turn :
      (fuel n : ℕ) (s : Segment) (out : List ℕ)
      → IsValid s
      → ((m : ℕ) (o : List ℕ) → Gives m o (stream p.source) (read_loop fuel m o none p))
      → Gives (suc n) out (get_data s ++ stream p.source) (
          read_loop fuel
            (suc n - min (suc n) s.size)
            (out ++ take (min (suc n) s.size) (get_data s))
            (rest_of (min (suc n) s.size) s)
            p)
  turn fuel n s out v loop = elim (dec_le s.size (suc n)) [
    | yes h ↦
        subst (Gives (suc n) out (get_data s ++ stream p.source))
          (sym (
            ap step (let e : min (suc n) s.size ≡ s.size = omega arith in e)
            ∙ ap₂ (λ l c. read_loop fuel (suc n - s.size) (out ++ l) c p)
                (take_all s.size (get_data s) (omega (arith, length-get_data s v)))
                (rest_of-none s.size s (omega arith))))
          (whole s n out (stream p.source) _ v h (loop (suc n - s.size) (out ++ get_data s)))
    | no h ↦
        subst (Gives (suc n) out (get_data s ++ stream p.source))
          (sym (
            ap step (let e : min (suc n) s.size ≡ suc n = omega arith in e)
            ∙ ap₂ (λ m c. read_loop fuel m (out ++ take (suc n) (get_data s)) c p)
                (let e : suc n - suc n ≡ 0 = omega arith in e)
                (rest_of-some (suc n) s (omega arith))))
          (part fuel n s out v (omega arith))
  ]
    where
      step : ℕ → Option (ReadResult × SynchronousSource)
      step k = read_loop fuel (suc n - k) (out ++ take k (get_data s)) (rest_of k s) p

-- The two turns that read a segment.
module _ (fuel n : ℕ) (out : List ℕ) (p p' : Processor) (s : Segment) where
  last_turn :
      read none_done p ≡ some (s, p')
      → is_eof s.kind ≡ true
      → read_loop (suc fuel) (suc n) out none p ≡ some (at_end s p' out)
  unfolding read_loop
  last_turn e k = rw (e, read_loop, k) refl

  data_turn :
      read none_done p ≡ some (s, p')
      → is_eof s.kind ≡ false
      → read_loop (suc fuel) (suc n) out none p
        ≡ read_loop fuel
            (suc n - min (suc n) s.size)
            (out ++ take (min (suc n) s.size) (get_data s))
            (rest_of (min (suc n) s.size) s)
            p'
  unfolding read_loop
  data_turn e k = rw (e, read_loop, k) refl

-- At the end of the stream.
Gives-at_end :
    (n : ℕ) (s : Segment) (p : Processor) (out : List ℕ)
    → Gives (suc n) out [] (some (at_end s p out))
unfolding at_end
Gives-at_end n s p [] = inl (_, refl, refl, refl, omega arith)
Gives-at_end n s p (x ∷ out) = inr (
  (at_end s p (x ∷ out)).1,
  ap (λ l. some (bytes l, (at_end s p (x ∷ out)).1)) (sym (append-nil (x ∷ out))),
  inl (omega arith),
  inl (refl, refl),
)

Gives-eq :
    (n : ℕ) (out rest rest' : List ℕ) (r r' : Option (ReadResult × SynchronousSource))
    → rest' ≡ rest
    → r' ≡ r
    → Gives n out rest r
    → Gives n out rest' r'
Gives-eq n out rest rest' r r' d e g =
    subst (Gives n out rest') (sym e) (subst (λ l. Gives n out l r) (sym d) g)

loop_none :
    (fuel n : ℕ) (out : List ℕ) (p : Processor)
    → Closed p.source
    → p.pass_flush ≡ false
    → length p.source < fuel
    → Gives n out (stream p.source) (read_loop fuel n out none p)
unfolding read
loop_none fuel zero out p c f enough = finished p c f fuel out none tt
loop_none zero (suc n) out p c f enough = absurd (omega arith)
loop_none (suc fuel) (suc n) out p c f enough =
    let (s, q, e, x) = read_from-Closed p.source p f c in
    elim x [
      | inl over ↦
          Gives-eq (suc n) out _ _ _ _ over.over
            (last_turn fuel n out p q s e (is_eof-eof s over.kind)) (Gives-at_end n s q out)
      | inr g ↦
          let flushes = g.flushes ∙ f in
          Gives-eq (suc n) out _ _ _ _ g.data_first
            (data_turn fuel n out p q s e (is_eof-data s g.kind))
            (turn q g.closed flushes fuel n s out g.valid
              (λ m o. loop_none fuel m o q g.closed flushes (omega (arith, g.shorter))))
    ]

-- A read of n bytes from a source that can be read gives the first n bytes of what remains, all of it
-- where that is less, and leaves the rest for the next read, or a source at its end when all was read and
-- the end was seen. It gives the end of file, and no bytes, only where nothing remains and n is not 0.
pub read_bytes-Gives :
    (n : ℕ) (s : SynchronousSource) → IsReadable s → Gives n [] (remaining s) (read_bytes n s)
unfolding read_bytes
read_bytes-Gives n s r = rw r.open_end (from_current n s.current_segment r.current)
  where
    later :
        (m : ℕ) (o : List ℕ)
        → Gives m o
            (stream s.processor.source)
            (read_loop (suc (length s.processor.source)) m o none s.processor)
    later m o =
        loop_none (suc (length s.processor.source)) m o s.processor r.closed r.flushes (omega arith)

    from_current :
        (n : ℕ) (current : Option Segment)
        → IsCurrent current
        → Gives n []
            (current_bytes current ++ stream s.processor.source)
            (read_loop (suc (suc (length s.processor.source))) n [] current s.processor)
    from_current zero current v =
        finished s.processor r.closed r.flushes (suc (suc (length s.processor.source))) [] current v
    from_current (suc n) none v =
        loop_none (suc (suc (length s.processor.source))) (suc n) [] s.processor r.closed r.flushes
          (omega arith)
    from_current (suc n) (some t) v =
        turn s.processor r.closed r.flushes (suc (length s.processor.source)) n t [] v later

read_empty : (p : Processor) → p.source ≡ [] → read none_done p ≡ none
unfolding read read_from
read_empty p e = rw (e, read_from) refl

waits : (fuel n : ℕ) (p : Processor) → p.source ≡ [] → read_loop fuel (suc n) [] none p ≡ none
unfolding read_loop
waits zero n p e = refl
waits (suc fuel) n p e = rw (read_empty p e, read_loop) refl

-- After a read that gave the end of the file the Eof is still the current segment, and the next read waits
-- for a segment behind it, which never comes.
read_after_end :
    (n : ℕ) (s : Segment) (p : Processor)
    → s.size ≡ 0
    → p.source ≡ []
    → read_bytes (suc n) (at_end s p []).1 ≡ none
unfolding read_bytes read_loop at_end
read_after_end n s p empty none_left =
    ap (λ k. read_loop fuel (suc n - k) (take k (get_data s)) (rest_of k s) p)
      (let e : min (suc n) s.size ≡ 0 = omega arith in e)
    ∙ ap₂ (λ m c. read_loop fuel m [] c p) (let e : suc n - 0 ≡ suc n = omega arith in e)
        (rest_of-none 0 s (omega arith))
    ∙ waits fuel n p none_left
  where
    fuel : ℕ
    fuel = suc (length p.source)
