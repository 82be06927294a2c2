-- ===== src/Archive/Keys.antt =====
-- ArchiveKeys of src/ArchiveIO.h and src/ArchiveIO.cpp: a key and an initialisation vector for the
-- file data and for the objects, and the block that carries them.
use zekvok.Prelude.{
  ℕ, zero, suc, ◌+◌, ◌≡◌, refl, ap, ◌∙◌, sym, none, some, List, [], ◌∷◌, ◌++◌, arith, ltb,
  if◌then◌else◌, length, take, drop, get_elem?, take-append, drop-append, length-append, ◌*◌, ◌↔◌,
  dec_lt, get_elem?_in, get_elem?_out,
}

pub record ArchiveKeys : Type 0 where
  pub keys : List (List ℕ)
  pub ivs : List (List ℕ)

-- Twofish::MAX_KEYLENGTH and Twofish::BLOCKSIZE
abbrev pub key_size : ℕ
key_size = 32

abbrev pub iv_size : ℕ
iv_size = 16

abbrev pub key_count : ℕ
key_count = 2

-- The result of get_key and get_iv: the check throws, or the array is read, past its end too.
pub data Fetch : Type 0 where
  found : List ℕ → Fetch
  throws : Fetch
  past_the_end : Fetch

unfoldable pub fetch : List (List ℕ) → ℕ → Fetch
fetch array i =
    if ltb (length array) i
    then throws
    else elim (get_elem? array i) [ some k ↦ found k | none ↦ past_the_end ]

unfoldable pub get_key : ArchiveKeys → ℕ → Fetch
unfolding fetch
get_key k i = fetch k.keys i

unfoldable pub get_iv : ArchiveKeys → ℕ → Fetch
unfolding fetch
get_iv k i = fetch k.ivs i

-- The buffer that create_and_save encrypts: key, vector, key, vector.
unfoldable pub to_buffer : List (List ℕ) → List (List ℕ) → List ℕ
to_buffer (k ∷ ks) (v ∷ vs) = k ++ (v ++ to_buffer ks vs)
to_buffer _ _ = []

-- The loop of the constructor that reads the decrypted buffer, over the keys still to fill.
unfoldable pub from_buffer : ℕ → List ℕ → ArchiveKeys
from_buffer zero buffer = record { keys = []; ivs = [] }
from_buffer (suc n) buffer =
    let after_key = drop key_size buffer in
    let rest = from_buffer n (drop iv_size after_key) in
    record { keys = take key_size buffer ∷ rest.keys; ivs = take iv_size after_key ∷ rest.ivs }

-- The guard on the size in init(), for the two keys and vectors.
unfoldable pub init_size : ℕ → ℕ → ℕ
init_size key iv = key_count * key + key_count * iv

abbrev pub AllSized : ℕ → List (List ℕ) → Type 0
AllSized n [] = Unit {0}
AllSized n (k ∷ ks) = (length k ≡ n) × AllSized n ks

pub record IsValid (k : ArchiveKeys) : Type 0 where
  pub key_number : length k.keys ≡ key_count
  pub iv_number : length k.ivs ≡ key_count
  pub key_sizes : AllSized key_size k.keys
  pub iv_sizes : AllSized iv_size k.ivs

take_prefix : (n : ℕ) (xs ys : List ℕ) → length xs ≡ n → take n (xs ++ ys) ≡ xs
take_prefix n xs ys e = ap (λ k. take k (xs ++ ys)) (sym e) ∙ take-append xs ys

drop_prefix : (n : ℕ) (xs ys : List ℕ) → length xs ≡ n → drop n (xs ++ ys) ≡ ys
drop_prefix n xs ys e = ap (λ k. drop k (xs ++ ys)) (sym e) ∙ drop-append xs ys

module _ (k v rest : List ℕ) (a : length k ≡ key_size) (b : length v ≡ iv_size) where
  behind_key : drop key_size (k ++ (v ++ rest)) ≡ v ++ rest
  behind_key = drop_prefix key_size k (v ++ rest) a

  its_iv : take iv_size (drop key_size (k ++ (v ++ rest))) ≡ v
  its_iv = ap (take iv_size) behind_key ∙ take_prefix iv_size v rest b

  behind_iv : drop iv_size (drop key_size (k ++ (v ++ rest))) ≡ rest
  behind_iv = ap (drop iv_size) behind_key ∙ drop_prefix iv_size v rest b

from_buffer-to_buffer :
    (ks vs : List (List ℕ)) (n : ℕ)
    → length ks ≡ n
    → length vs ≡ n
    → AllSized key_size ks
    → AllSized iv_size vs
    → from_buffer n (to_buffer ks vs) ≡ record { keys = ks; ivs = vs }
unfolding from_buffer to_buffer
from_buffer-to_buffer [] [] zero a b c d = refl
from_buffer-to_buffer [] (v ∷ vs) zero a b c d = absurd (omega arith)
from_buffer-to_buffer (k ∷ ks) vs zero a b c d = absurd (omega arith)
from_buffer-to_buffer [] vs (suc n) a b c d = absurd (omega arith)
from_buffer-to_buffer (k ∷ ks) [] (suc n) a b c d = absurd (omega arith)
from_buffer-to_buffer (k ∷ ks) (v ∷ vs) (suc n) a b c d =
    let tail = to_buffer ks vs in
    let rest =
      ap (from_buffer n) (behind_iv k v tail c.0 d.0)
      ∙ from_buffer-to_buffer ks vs n (omega arith) (omega arith) c.1 d.1 in
    λ i. record {
      keys = take_prefix key_size k (v ++ tail) c.0 i ∷ (rest i).keys;
      ivs = its_iv k v tail c.0 d.0 i ∷ (rest i).ivs;
    }

length-to_buffer_lists :
    (ks vs : List (List ℕ)) (n : ℕ)
    → length ks ≡ n
    → length vs ≡ n
    → AllSized key_size ks
    → AllSized iv_size vs
    → length (to_buffer ks vs) ≡ n * 48
unfolding to_buffer
length-to_buffer_lists [] [] zero a b c d = refl
length-to_buffer_lists [] (v ∷ vs) zero a b c d = absurd (omega arith)
length-to_buffer_lists (k ∷ ks) vs zero a b c d = absurd (omega arith)
length-to_buffer_lists (k ∷ ks) [] (suc n) a b c d = absurd (omega arith)
length-to_buffer_lists [] vs (suc n) a b c d = absurd (omega arith)
length-to_buffer_lists (k ∷ ks) (v ∷ vs) (suc n) a b c d = omega (
  arith,
  length-append k (v ++ to_buffer ks vs),
  length-append v (to_buffer ks vs),
  length-to_buffer_lists ks vs n (omega arith) (omega arith) c.1 d.1,
  c.0,
  d.0,
)

pub length-to_buffer : (k : ArchiveKeys) → IsValid k → length (to_buffer k.keys k.ivs) ≡ 96
length-to_buffer k v =
    length-to_buffer_lists k.keys k.ivs key_count v.key_number v.iv_number v.key_sizes v.iv_sizes

-- The keys are read back from the buffer that create_and_save lays out.
pub keys_round_trip :
    (k : ArchiveKeys) → IsValid k → from_buffer key_count (to_buffer k.keys k.ivs) ≡ k
keys_round_trip k v =
    from_buffer-to_buffer k.keys k.ivs key_count v.key_number v.iv_number v.key_sizes v.iv_sizes

-- The guard of get_key lets exactly one index past the end of the array through: the number of
-- the keys itself.
pub get_key_past_the_end :
    (k : ArchiveKeys) (i : ℕ) → IsValid k → ((get_key k i ≡ past_the_end) ↔ (i ≡ key_count))
unfolding get_key
get_key_past_the_end k i v = elim (dec_lt i 2) [
  | yes below ↦
      let (x, at) = get_elem?_in k.keys i (omega (arith, v.key_number)) in
      (λ h. absurd (ground (arith, at, v.key_number)), λ h. absurd (omega arith))
  | no above ↦
      let out = get_elem?_out k.keys i (omega (arith, v.key_number)) in
      (λ h. ground (arith, out, v.key_number), λ h. ground (arith, out, v.key_number))
]
