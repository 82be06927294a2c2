-- ===== src/Streams/Crypto.antt =====
-- CryptoSource::work of src/CryptoFilter.cpp, which decrypts a stream; Sink has CryptoSink. The filter is Crypto++'s
-- StreamTransformationFilter, a parameter. No processor is asked to stop while it works.
pub mod Decrypts
pub mod Sink
mod Encrypts
mod Tests
use zekvok.Prelude.{
  ℕ, zero, suc, ◌≡◌, Bool, true, false, Option, none, some, List, [], ◌∷◌, ◌++◌, length, take, drop,
}
use zekvok.Exception.{Exception, Result, ok, throw}
use zekvok.Streams.Segment.{Segment, eof, get_data, signal}
use zekvok.Streams.Processor.{Processor, is_eof, read, write, none_done}
use zekvok.Streams.Workers.{filled}

-- A filter with a state: Put gives it input, MessageEnd ends the input or throws, and Get takes output from
-- the front. `available` is the output that Get can take now, `future` what will come when a given
-- input follows and ends, `accepts` whether it may end there.
pub record Filter (S : Type 0) : Type 0 where
  pub put : List ℕ → S → S
  pub get : ℕ → S → List ℕ × S
  pub message_end : S → Result S
  pub rejected : Exception
  pub available : S → List ℕ
  pub future : S → List ℕ → List ℕ
  pub accepts : S → List ℕ → Bool
  pub get_takes : (n : ℕ) (s : S) → (get n s).0 ≡ take n (available s)
  pub get_leaves : (n : ℕ) (s : S) → available (get n s).1 ≡ drop n (available s)
  pub get_future : (n : ℕ) (s : S) (xs : List ℕ) → future (get n s).1 xs ≡ future s xs
  pub get_accepts : (n : ℕ) (s : S) (xs : List ℕ) → accepts (get n s).1 xs ≡ accepts s xs
  pub put_future :
      (bytes : List ℕ) (s : S) (xs : List ℕ)
      → available (put bytes s) ++ future (put bytes s) xs ≡ available s ++ future s (bytes ++ xs)
  pub put_accepts :
      (bytes : List ℕ) (s : S) (xs : List ℕ) → accepts (put bytes s) xs ≡ accepts s (bytes ++ xs)
  pub end_accepted :
      (s : S)
      → accepts s [] ≡ true
      → (s' : S) × (message_end s ≡ ok s') × (available s' ≡ available s ++ future s [])
  pub end_rejected : (s : S) → accepts s [] ≡ false → message_end s ≡ throw rejected

module _ {S : Type 0} (filter : Filter S) (fresh : List ℕ) where
  -- flush_filter on fuel: a segment for each buffer of output.
  unfoldable pub flush_loop : ℕ → S → Processor → Option (S × Processor)
  flush_loop zero s p = none
  flush_loop (suc fuel) s p = elim (filter.get (length fresh) s).0 [
    | [] ↦ some ((filter.get (length fresh) s).1, p)
    | x ∷ xs ↦ flush_loop fuel (filter.get (length fresh) s).1 (write (filled fresh (x ∷ xs)) p)
  ]

  -- Each turn but the last takes a byte of output or more.
  unfoldable pub flush_filter : S → Processor → Option (S × Processor)
  flush_filter s p = flush_loop (suc (length (filter.available s))) s p

  -- The turn of the Eof: what the filter still has, and the end.
  abbrev pub finished : Option (S × Processor) → Option (Result Processor)
  finished none = none
  finished (some (s, p)) = some (ok (write (signal eof) p))

  unfoldable pub last_flush : Result S → Processor → Option (Result Processor)
  last_flush (throw e) p = some (throw e)
  last_flush (ok s) p = finished (flush_filter s p)

  -- The loop of CryptoSource::work on fuel.
  unfoldable pub source_loop : ℕ → S → Processor → Option (Result Processor)
  source_loop zero s p = none
  source_loop (suc fuel) s p = elim (read none_done p) [
    | none ↦ none
    | some (segment, q) ↦ elim (is_eof segment.kind) [
      | true ↦ last_flush (filter.message_end s) q
      | false ↦ elim (flush_filter (filter.put (get_data segment) s) q) [
        | none ↦ none
        | some (s', q') ↦ source_loop fuel s' q'
      ]
    ]
  ]

  -- Each turn takes a segment.
  unfoldable pub crypto_source_work : S → Processor → Option (Result Processor)
  crypto_source_work s p = source_loop (suc (length p.source)) s p
