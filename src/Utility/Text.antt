-- ===== src/Utility/Text.antt =====
-- The functions on strings of src/Utility.h. A string is the list of its characters.
use mathlib.Core.List.{reverse-cons, reverse-reverse}
use zekvok.Prelude.{
  ℕ, zero, suc, ◌≤◌, ◌<◌, ◌≡◌, ◌≢◌, refl, ap, ap₂, ◌∙◌, sym, Bool, true, false, Option, none, some,
  List, [], ◌∷◌, ◌++◌, map, reverse, length, drop, replicate, get_or, arith, ltb, ◌==◌,
  if◌then◌else◌, Bool-cases, inl, inr, ◌↔◌, ==_iff, reverse-append, subst, dec_lt, length-append,
}

abbrev pub backslash : ℕ
backslash = 92

abbrev pub dot : ℕ
dot = 46

-- The while loop of ensure_last_character_is_not_backslash, over the characters from the last.
unfoldable pub pop_backslashes : List ℕ → List ℕ
pop_backslashes [] = []
pop_backslashes (ch ∷ s) =
    let popped = pop_backslashes s in if ch == backslash then popped else ch ∷ s

unfoldable pub ensure_last_character_is_not_backslash : List ℕ → List ℕ
ensure_last_character_is_not_backslash s = reverse (pop_backslashes (reverse s))

-- The loop of starts_with, from the last of the `l` characters to the first.
unfoldable pub starts_below : ℕ → List ℕ → List ℕ → Bool
starts_below zero a b = true
starts_below (suc l) a b =
    let rest = starts_below l a b in if get_or a l 0 == get_or b l 0 then rest else false

unfoldable pub starts_with : List ℕ → List ℕ → Bool
starts_with a b = let l = length b in if ltb (length a) l then false else starts_below l a b

-- s.substr(s.rfind('.') + 1), over the characters from the last: `none` where there is no dot.
unfoldable pub after_last_dot : List ℕ → Option (List ℕ)
after_last_dot [] = none
after_last_dot (ch ∷ s) =
    let later = after_last_dot s in
    if ch == dot then some [] else elim later [ some ext ↦ some (ext ++ ch ∷ []) | none ↦ none ]

module _ (tolower : ℕ → ℕ) where
  unfoldable pub to_lower : List ℕ → List ℕ
  to_lower s = map tolower s

  unfoldable pub get_extension : List ℕ → List ℕ
  get_extension s = elim (after_last_dot (reverse s)) [ none ↦ [] | some ext ↦ to_lower ext ]

-- get_map_keys
unfoldable pub get_map_keys {ℓ κ} : {K : Type ℓ} {V : Type κ} → List (K × V) → List K
get_map_keys [] = []
get_map_keys ((key, value) ∷ m) = key ∷ get_map_keys m

abbrev pub NoBackslash : List ℕ → Type 0
NoBackslash [] = Unit {0}
NoBackslash (ch ∷ s) = ch ≢ backslash

popped :
    (s : List ℕ)
    → (n : ℕ) × (s ≡ replicate n backslash ++ pop_backslashes s) × NoBackslash (pop_backslashes s)
unfolding pop_backslashes
popped [] = (0, refl, tt)
popped (ch ∷ s) = elim (Bool-cases (ch == backslash)) [
  | inl same ↦
      let (n, e, clean) = popped s in rw same (suc n, ap₂ ◌∷◌ ((==_iff _ _).0 same) e, clean)
  | inr other ↦ rw other (0, refl, λ e. ground (arith, e, other))
]

reverse-replicate : (n : ℕ) (x : ℕ) → reverse (replicate n x) ≡ replicate n x
reverse-replicate zero x = refl
reverse-replicate (suc n) x =
    reverse-cons x (replicate n x) ∙ ap (λ xs. xs ++ x ∷ []) (reverse-replicate n x) ∙ snoc n
  where
    snoc : (n : ℕ) → replicate n x ++ x ∷ [] ≡ x ∷ replicate n x
    snoc zero = refl
    snoc (suc n) = ap (◌∷◌ x) (snoc n)

-- ensure_last_character_is_not_backslash takes only backslashes off the end of a string, and what it
-- leaves does not end with one.
ensure_last_character_lem :
    (s : List ℕ)
    → let t = ensure_last_character_is_not_backslash s in
      (n : ℕ) × (s ≡ t ++ replicate n backslash) × NoBackslash (reverse t)
unfolding ensure_last_character_is_not_backslash
ensure_last_character_lem s =
    let (n, e, clean) = popped (reverse s) in
    (
      n,
      sym (reverse-reverse s)
          ∙ ap reverse e
          ∙ reverse-append (replicate n backslash) (pop_backslashes (reverse s))
          ∙ ap (◌++◌ (reverse (pop_backslashes (reverse s)))) (reverse-replicate n backslash),
      subst NoBackslash (sym (reverse-reverse (pop_backslashes (reverse s)))) clean,
    )

starts_below-agree :
    (n : ℕ) (a b : List ℕ)
    → (starts_below n a b ≡ true) ↔ ((i : ℕ) → i < n → get_or a i 0 ≡ get_or b i 0)
unfolding starts_below
starts_below-agree zero a b = (λ h i below. absurd (omega arith), λ h. refl)
starts_below-agree (suc n) a b =
    let rest = starts_below-agree n a b in
    (
      λ h i below. elim (dec_lt i n) [
        | yes lower ↦ rest.0 (ground (arith, h)) i lower
        | no last ↦
            let e : i ≡ n = omega (arith, below) in
            subst (λ k. get_or a k 0 ≡ get_or b k 0) (sym e) (ground (arith, h))
      ],
      λ h.
          let e = h n (omega arith) in
          let r = rest.1 (λ i k. h i (omega (arith, k))) in ground (arith, e, r),
    )

prefix_of :
    (a b : List ℕ)
    → length b ≤ length a
    → ((i : ℕ) → i < length b → get_or a i 0 ≡ get_or b i 0)
    → a ≡ b ++ drop (length b) a
prefix_of a [] l h = refl
prefix_of [] (y ∷ b) l h = absurd (omega arith)
prefix_of (x ∷ a) (y ∷ b) l h =
    ap₂ ◌∷◌ (h 0 (omega arith)) (prefix_of a b (omega arith) (λ i k. h (suc i) (omega (arith, k))))

in_front : (b rest : List ℕ) (i : ℕ) → i < length b → get_or (b ++ rest) i 0 ≡ get_or b i 0
in_front [] rest i k = absurd (omega arith)
in_front (y ∷ b) rest zero k = refl
in_front (y ∷ b) rest (suc i) k = in_front b rest i (omega (arith, k))

-- starts_with holds of the strings that are the prefix followed by something.
starts_with_lem :
    (a b : List ℕ)
    → ((starts_with a b ≡ true) → a ≡ b ++ drop (length b) a)
      × ((rest : List ℕ) → starts_with (b ++ rest) b ≡ true)
unfolding starts_with
starts_with_lem a b = (
  λ h. elim (Bool-cases (ltb (length a) (length b))) [
    | inl short ↦ absurd (ground (arith, short, h))
    | inr long ↦
        prefix_of a b (ground (arith, long))
          ((starts_below-agree (length b) a b).0 (ground (arith, long, h)))
  ],
  λ rest.
      let fits = length-append b rest in
      let r = (starts_below-agree (length b) (b ++ rest) b).1 (in_front b rest) in
      ground (arith, fits, r),
)
