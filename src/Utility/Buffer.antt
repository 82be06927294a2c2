-- ===== src/Utility/Buffer.antt =====
-- simple_buffer_serialization and simple_buffer_deserialization of src/Utility.h, and the loop of
-- BackupSystem::get_old_objects (src/BackupSystem.cpp) that reads buffers until one is not there.
use native.Mathlib.Nat.{mod-eq_of_lt}
use zekvok.Prelude.{
  ℕ, zero, suc, ◌%◌, ◌^◌, ◌≤◌, ◌<◌, ◌≡◌, refl, ap, ◌∙◌, sym, true, Option, none, some, List, [],
  ◌∷◌, ◌++◌, arith, ◌==◌, if◌then◌else◌, length, take, drop, length-append, take-append,
  drop-append, append_assoc,
}
use zekvok.Utility.LeInt.{
  serialize_fixed_le_int, deserialize_fixed_le_int, deserialize-serialize,
  length-serialize_fixed_le_int,
}

unfoldable pub simple_buffer_serialization : List ℕ → List ℕ
simple_buffer_serialization buffer = serialize_fixed_le_int 8 (length buffer) ++ buffer

-- `size_t` has `word` bytes. The buffer and what is left of the stream; `none` is `false`.
unfoldable pub simple_buffer_deserialization : ℕ → List ℕ → Option (List ℕ × List ℕ)
simple_buffer_deserialization word stream =
    let temp = take 8 stream in
    let size64 = deserialize_fixed_le_int 8 temp in
    let size = size64 % 256 ^ word in
    let buffer = take size (drop 8 stream) in
    if length temp == 8
    then if size == size64
      then if length buffer == size then some (buffer, drop size (drop 8 stream)) else none
      else none
    else none

-- while (simple_buffer_deserialization(mem, stream)) ..., on fuel: a buffer takes 8 bytes or more.
unfoldable pub read_buffers_from : ℕ → ℕ → List ℕ → List (List ℕ)
read_buffers_from zero word stream = []
read_buffers_from (suc fuel) word stream = elim (simple_buffer_deserialization word stream) [
  | none ↦ []
  | some (mem, rest) ↦ mem ∷ read_buffers_from fuel word rest
]

unfoldable pub read_buffers : ℕ → List ℕ → List (List ℕ)
unfolding read_buffers_from
read_buffers word stream = read_buffers_from (suc (length stream)) word stream

abbrev pub written : List (List ℕ) → List ℕ
written [] = []
written (b ∷ bs) = simple_buffer_serialization b ++ written bs

-- Each buffer is shorter than an integer of `n` bytes can say.
abbrev pub AllShort : ℕ → List (List ℕ) → Type 0
AllShort n [] = Unit {0}
AllShort n (b ∷ bs) = (length b < 256 ^ n) × AllShort n bs

-- A buffer that was written is read back, and the stream goes on behind it.
simple_buffer_round_trip :
    (word : ℕ) (b rest : List ℕ)
    → length b < 256 ^ 8
    → length b < 256 ^ word
    → simple_buffer_deserialization word (simple_buffer_serialization b ++ rest) ≡ some (b, rest)
unfolding simple_buffer_deserialization simple_buffer_serialization
simple_buffer_round_trip word b rest small fits =
    rw (prefix, after, value, whole) (rw (payload, behind, eight) (rw (same n) refl))
  where
    n : ℕ
    n = length b

    header : List ℕ
    header = serialize_fixed_le_int 8 n

    eight : length header ≡ 8
    eight = length-serialize_fixed_le_int 8 n

    prefix : take 8 ((header ++ b) ++ rest) ≡ header
    prefix =
        ap (take 8) (append_assoc header b rest)
        ∙ ap (λ k. take k (header ++ (b ++ rest))) (sym eight)
        ∙ take-append header (b ++ rest)

    after : drop 8 ((header ++ b) ++ rest) ≡ b ++ rest
    after =
        ap (drop 8) (append_assoc header b rest)
        ∙ ap (λ k. drop k (header ++ (b ++ rest))) (sym eight)
        ∙ drop-append header (b ++ rest)

    value : deserialize_fixed_le_int 8 header ≡ n
    value = deserialize-serialize 8 n small

    whole : n % 256 ^ word ≡ n
    whole = mod-eq_of_lt fits

    payload : take n (b ++ rest) ≡ b
    payload = take-append b rest

    behind : drop n (b ++ rest) ≡ rest
    behind = drop-append b rest

    same : (k : ℕ) → (k == k) ≡ true
    same k = ground arith

nothing_there : (word : ℕ) → simple_buffer_deserialization word [] ≡ none
unfolding simple_buffer_deserialization
nothing_there word = refl

read_written :
    (word fuel : ℕ) (bs : List (List ℕ))
    → length bs < fuel
    → AllShort 8 bs
    → AllShort word bs
    → read_buffers_from fuel word (written bs) ≡ bs
unfolding read_buffers_from
read_written word zero bs h a b = absurd (omega arith)
read_written word (suc fuel) [] h a b = rw (nothing_there word, read_buffers_from) refl
read_written word (suc fuel) (x ∷ bs) h a b =
    rw (simple_buffer_round_trip word x (written bs) a.0 b.0, read_buffers_from)
      (ap (◌∷◌ x) (read_written word fuel bs (omega arith) a.1 b.1))

length-written : (bs : List (List ℕ)) → length bs ≤ length (written bs)
unfolding simple_buffer_serialization
length-written [] = omega arith
length-written (b ∷ bs) = omega (
  arith,
  length-append (serialize_fixed_le_int 8 (length b) ++ b) (written bs),
  length-append (serialize_fixed_le_int 8 (length b)) b,
  length-serialize_fixed_le_int 8 (length b),
  length-written bs,
)

-- The buffers that were written one after another are read back, and the loop stops behind them.
pub read_buffers-written :
    (word : ℕ) (bs : List (List ℕ))
    → AllShort 8 bs
    → AllShort word bs
    → read_buffers word (written bs) ≡ bs
unfolding read_buffers
read_buffers-written word bs =
    read_written word (suc (length (written bs))) bs (omega (arith, length-written bs))
