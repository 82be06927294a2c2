-- ===== src/Utility/Search.antt =====
-- find_first_true, existence_binary_search and remove_duplicates of src/Utility.h. A range of
-- iterators is a pair of positions, and `f` and `equality` are applied to what stands at one.
use zekvok.Prelude.{
  ℕ, zero, suc, ◌+◌, ◌-◌, ◌/◌, ◌≤◌, ◌<◌, ◌≡◌, Bool, true, false, not, Option, none, some, List, [],
  ◌∷◌, arith, ltb, leb, ◌==◌, if◌then◌else◌, Bool-cases, inl, inr, dec_lt, ◌&&◌,
}

-- The while loop; `fuel` bounds its turns.
unfoldable pub halve : ℕ → (ℕ → Bool) → ℕ → ℕ → ℕ
halve zero f begin end = end
halve (suc fuel) f begin end =
    let pivot = begin + (end - begin) / 2 in
    let right = halve fuel f pivot end in
    let left = halve fuel f begin pivot in
    if ltb 1 (end - begin) then (if not (f pivot) then right else left) else end

unfoldable pub find_first_true : ℕ → ℕ → (ℕ → Bool) → ℕ
find_first_true begin end f =
    if leb end begin then end else if f begin then begin else halve (end - begin) f begin end

unfoldable pub existence_binary_search : ℕ → ℕ → (ℕ → Bool) → (ℕ → Bool) → Bool
existence_binary_search begin end partitioner equality =
    let found = find_first_true begin end partitioner in not (found == end) && equality found

-- The elements of the range are in the order that the search needs.
abbrev pub Partitioned : (ℕ → Bool) → ℕ → ℕ → Type 0
Partitioned f begin end = (i j : ℕ) → begin ≤ i → i ≤ j → j < end → f i ≡ true → f j ≡ true

-- `r` is the first position where `f` holds, or the end.
pub record IsFirst (f : ℕ → Bool) (begin end r : ℕ) : Type 0 where
  pub after : begin ≤ r
  pub inside : r ≤ end
  pub before : (i : ℕ) → begin ≤ i → i < r → f i ≡ false
  pub holds : r < end → f r ≡ true

module _ (f : ℕ → Bool) (low high : ℕ) (partitioned : Partitioned f low high) where
  halve-IsFirst :
      (fuel begin end : ℕ)
      → end ≤ begin + fuel
      → low ≤ begin
      → begin < end
      → end ≤ high
      → f begin ≡ false
      → (end < high → f end ≡ true)
      → IsFirst f low high (halve fuel f begin end)
  unfolding halve
  halve-IsFirst zero begin end enough a b c d e = absurd (omega arith)
  halve-IsFirst (suc fuel) begin end enough a b c d e = elim (dec_lt 1 (end - begin)) [
    | yes wide ↦ elim (Bool-cases (f (begin + (end - begin) / 2))) [
      | inl here ↦
          let t : ltb 1 (end - begin) ≡ true = ground (arith, wide) in
          rw (t, here)
            (halve-IsFirst fuel begin (begin + (end - begin) / 2) (omega (arith, enough, wide)) a
              (omega (arith, wide)) (omega (arith, c)) d (λ _. here))
      | inr away ↦
          let t : ltb 1 (end - begin) ≡ true = ground (arith, wide) in
          rw (t, away)
            (halve-IsFirst fuel (begin + (end - begin) / 2) end (omega (arith, enough, wide))
              (omega (arith, a)) (omega (arith, wide)) c away e)
    ]
    | no narrow ↦
        let t : ltb 1 (end - begin) ≡ false = ground (arith, narrow) in
        rw t (record {
          after = omega (arith, a, b);
          inside = c;
          before = λ i k l. elim (Bool-cases (f i)) [
            | inl early ↦
                let at_begin =
                  partitioned i begin k (omega (arith, l, narrow, b)) (omega (arith, b, c)) early in
                absurd (ground (arith, at_begin, d))
            | inr other ↦ other
          ];
          holds = e;
        })
  ]

  -- On a range where `f` is false up to some position and true from there on, find_first_true finds
  -- the first position where it is true, or the end of the range.
  pub find_first_true-IsFirst : low ≤ high → IsFirst f low high (find_first_true low high f)
  unfolding find_first_true
  find_first_true-IsFirst h = elim (dec_lt low high) [
    | yes some_element ↦
        let t : leb high low ≡ false = ground (arith, some_element) in
        elim (Bool-cases (f low)) [
          | inl here ↦
              rw (t, here)
                (record {
                  after = omega arith;
                  inside = omega (arith, h);
                  before = λ i k l. absurd (omega (arith, k, l));
                  holds = λ _. here;
                })
          | inr away ↦
              rw (t, away)
                (halve-IsFirst (high - low) low high (omega (arith, h)) (omega arith) some_element
                  (omega arith) away (λ l. absurd (omega (arith, l))))
        ]
    | no empty ↦
        let t : leb high low ≡ true = ground (arith, empty) in
        rw t (record {
          after = h;
          inside = omega arith;
          before = λ i k l. absurd (omega (arith, k, l, empty));
          holds = λ l. absurd (omega (arith, l));
        })
  ]

module _ {ℓ} {A : Type ℓ} (equality : A → A → Bool) where
  -- The loop of remove_duplicates; `last` is temp.back(), and the result what is pushed from here.
  unfoldable pub pushed : Option A → List A → List A
  pushed last [] = []
  pushed none (p ∷ v) = p ∷ pushed (some p) v
  pushed (some q) (p ∷ v) =
      let kept = pushed (some p) v in
      let dropped = pushed (some q) v in if not (equality p q) then p ∷ kept else dropped

  unfoldable pub remove_duplicates : List A → List A
  remove_duplicates v = pushed none v

  -- No element stands behind one that `equality` says it equals.
  abbrev pub NoRepeats : Option A → List A → Type 0
  NoRepeats last [] = Unit {0}
  NoRepeats none (p ∷ v) = NoRepeats (some p) v
  NoRepeats (some q) (p ∷ v) = (equality p q ≡ false) × NoRepeats (some p) v

  pushed-NoRepeats : (last : Option A) (v : List A) → NoRepeats last (pushed last v)
  unfolding pushed
  pushed-NoRepeats none [] = tt
  pushed-NoRepeats (some q) [] = tt
  pushed-NoRepeats none (p ∷ v) = pushed-NoRepeats (some p) v
  pushed-NoRepeats (some q) (p ∷ v) = elim (Bool-cases (equality p q)) [
    | inl same ↦ rw same (pushed-NoRepeats (some q) v)
    | inr other ↦ rw other (other, pushed-NoRepeats (some p) v)
  ]

  remove_duplicates-NoRepeats : (v : List A) → NoRepeats none (remove_duplicates v)
  unfolding remove_duplicates
  remove_duplicates-NoRepeats v = pushed-NoRepeats none v
