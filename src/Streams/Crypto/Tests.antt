-- ===== src/Streams/Crypto/Tests.antt =====
-- Filters that change each byte and reject an input with a zero.
use zekvok.Prelude.{
  ℕ, zero, suc, ◌+◌, ◌-◌, ◌≡◌, subst, refl, ap, sym, ◌∙◌, Bool, true, false, ◌&&◌, some, List, [],
  ◌∷◌, ◌++◌, take, drop, map, map-append, append_assoc, append-nil, arith, inl,
}
use zekvok.Exception.{Result, ok, throw, std_string}
use zekvok.Streams.Segment.{Segment, payload, eof, signal}
use zekvok.Streams.Processor.{Processor, stream}
use zekvok.Streams.Workers.Sources.{AllData, Sent}
use zekvok.Streams.Crypto.{Filter, crypto_source_work}
use zekvok.Streams.Crypto.Sink.{crypto_sink_work}
use zekvok.Streams.Crypto.Encrypts.{crypto_round_trip}

abbrev State : Type 0
State = List ℕ × Bool

abbrev no_zero : List ℕ → Bool
no_zero [] = true
no_zero (zero ∷ xs) = false
no_zero (suc x ∷ xs) = no_zero xs

no_zero-append :
    (b : Bool) (xs ys : List ℕ) → ((b && no_zero xs) && no_zero ys) ≡ (b && no_zero (xs ++ ys))
no_zero-append false xs ys = refl
no_zero-append true [] ys = refl
no_zero-append true (zero ∷ xs) ys = refl
no_zero-append true (suc x ∷ xs) ys = no_zero-append true xs ys

abbrev ending : State → Result State
ending (a, true) = ok (a, true)
ending (a, false) = throw std_string

ending-ok :
    (s : State) → (s.1 && true) ≡ true → (s' : State) × (ending s ≡ ok s') × (s'.0 ≡ s.0 ++ [])
ending-ok (a, true) h = ((a, true), refl, sym (append-nil a))
ending-ok (a, false) h = absurd (cc)

ending-throw : (s : State) → (s.1 && true) ≡ false → ending s ≡ throw std_string
ending-throw (a, true) h = absurd (cc)
ending-throw (a, false) h = refl

abbrev mapper : (ℕ → ℕ) → Filter State
mapper g = record {
  put = λ bytes s. (s.0 ++ map g bytes, s.1 && no_zero bytes);
  get = λ n s. (take n s.0, (drop n s.0, s.1));
  message_end = ending;
  rejected = std_string;
  available = λ s. s.0;
  future = λ s xs. map g xs;
  accepts = λ s xs. s.1 && no_zero xs;
  get_takes = λ n s. refl;
  get_leaves = λ n s. refl;
  get_future = λ n s xs. refl;
  get_accepts = λ n s xs. refl;
  put_future = λ bytes s xs.
      append_assoc s.0 (map g bytes) (map g xs) ∙ ap (λ l. s.0 ++ l) (sym (map-append _ bytes xs));
  put_accepts = λ bytes s xs. no_zero-append s.1 bytes xs;
  end_accepted = ending-ok;
  end_rejected = ending-throw;
}

abbrev three_bytes : Segment
three_bytes = record {
  kind = payload;
  allocated = true;
  buffer = 1 ∷ 2 ∷ 3 ∷ [];
  offset = 0;
  size = 3;
}

abbrev last : Segment
last = record { kind = eof; allocated = false; buffer = []; offset = 0; size = 0 }

abbrev reading : Processor
reading = record {
  source = three_bytes ∷ last ∷ [];
  sink = [];
  bytes_read = 0;
  bytes_written = 0;
  pass_eof = true;
  pass_flush = false;
  callbacks = 0;
}

three_bytes-AllData : AllData (three_bytes ∷ [])
unfolding AllData
three_bytes-AllData =
    (record { inside = omega arith; backed = λ a. absurd (cc); filled = inl refl }, refl, tt)

undoes :
    (cipher : List ℕ)
    → cipher ≡ 2 ∷ 3 ∷ 4 ∷ []
    → (no_zero cipher ≡ true) × (map (λ x. x - 1) cipher ≡ 1 ∷ 2 ∷ 3 ∷ [])
undoes cipher e =
    subst (λ l. (no_zero l ≡ true) × (map (λ x. x - 1) l ≡ 1 ∷ 2 ∷ 3 ∷ [])) (sym e) (refl, refl)

crypto_round_trip_example :
    (p q : Processor) × (crypto_sink_work (mapper (λ x. x + 1)) (0 ∷ 0 ∷ []) ([], true) reading
      ≡ some (ok p))
    × (crypto_source_work
          (mapper (λ x. x - 1))
          (0 ∷ 0 ∷ [])
          ([], true)
          (record reading { source = p.sink ++ signal eof ∷ [] })
        ≡ some (ok q))
    × Sent (1 ∷ 2 ∷ 3 ∷ []) (record reading { source = p.sink ++ signal eof ∷ [] }) q
unfolding stream
crypto_round_trip_example =
    crypto_round_trip (mapper (λ x. x + 1)) (mapper (λ x. x - 1)) ([], true) ([], true) (0 ∷ 0 ∷ [])
      (three_bytes ∷ []) last reading reading (omega arith) refl three_bytes-AllData refl refl refl
      refl undoes
