-- ===== src/Utility/Strcmpci.antt =====
-- strcmpci of src/Utility.h: strings compared without regard to case. A string is the list of its
-- characters, and the C library's tolower is the parameter `tolower`.
use zekvok.Prelude.{
  ℕ, zero, suc, ◌<◌, ◌≡◌, refl, ap, ap₂, ◌∙◌, sym, Bool, true, false, not, Option, none, some, List,
  [], ◌∷◌, map, length, arith, ltb, ◌==◌, if◌then◌else◌, Bool-cases, inl, inr, ◌↔◌, get_or, ==_iff,
  dec_lt, drop, subst,
}

-- Lexicographic order of lists of numbers.
abbrev pub lex : List ℕ → List ℕ → Bool
lex [] [] = false
lex [] (y ∷ ys) = true
lex (x ∷ xs) [] = false
lex (x ∷ xs) (y ∷ ys) =
    let rest = lex xs ys in if ltb x y then true else if ltb y x then false else rest

lex_irreflexive : (xs : List ℕ) → lex xs xs ≡ false
lex_irreflexive [] = refl
lex_irreflexive (x ∷ xs) = let h = lex_irreflexive xs in ground (arith, h)

lex_asymmetric : (xs ys : List ℕ) → lex xs ys ≡ true → lex ys xs ≡ false
lex_asymmetric [] [] h = refl
lex_asymmetric [] (y ∷ ys) h = refl
lex_asymmetric (x ∷ xs) [] h = absurd (cc)
lex_asymmetric (x ∷ xs) (y ∷ ys) h = let rest = lex_asymmetric xs ys in ground (arith, h, rest)

lex_transitive : (xs ys zs : List ℕ) → lex xs ys ≡ true → lex ys zs ≡ true → lex xs zs ≡ true
lex_transitive [] [] [] h k = absurd (cc)
lex_transitive [] (y ∷ ys) [] h k = absurd (cc)
lex_transitive [] ys (z ∷ zs) h k = refl
lex_transitive (x ∷ xs) [] zs h k = absurd (cc)
lex_transitive (x ∷ xs) (y ∷ ys) [] h k = absurd (cc)
lex_transitive (x ∷ xs) (y ∷ ys) (z ∷ zs) h k =
    let rest = lex_transitive xs ys zs in ground (arith, h, k, rest)

lex_total : (xs ys : List ℕ) → lex xs ys ≡ false → lex ys xs ≡ false → xs ≡ ys
lex_total [] [] h k = refl
lex_total [] (y ∷ ys) h k = absurd (cc)
lex_total (x ∷ xs) [] h k = absurd (cc)
lex_total (x ∷ xs) (y ∷ ys) h k =
    let rest = lex_total xs ys in
    ap₂ ◌∷◌ (let e : x ≡ y = ground (arith, h, k) in e)
      (rest (ground (arith, h, k)) (ground (arith, h, k)))

-- What is returned behind the loop when it decided nothing: the comparison of the lengths.
abbrev pub verdict : Option Bool → ℕ → ℕ → Bool
verdict (some r) an bn = r
verdict none an bn = ltb an bn

verdict-suc : (o : Option Bool) (m n : ℕ) → verdict o (suc m) (suc n) ≡ verdict o m n
verdict-suc (some r) m n = refl
verdict-suc none m n = ground arith

module _ (tolower : ℕ → ℕ) where
  -- The loop over the common length: the verdict at the first difference, if there is one.
  unfoldable pub scan : Bool → List ℕ → List ℕ → Option Bool
  scan below (x ∷ a) (y ∷ b) =
      let rest = scan below a b in
      if ltb (tolower x) (tolower y)
      then some below
      else if ltb (tolower y) (tolower x)
      then some (not below)
      else rest
  scan below _ _ = none

  unfoldable pub less_than : List ℕ → List ℕ → Bool
  less_than a b = verdict (scan true a b) (length a) (length b)

  unfoldable pub greater_than : List ℕ → List ℕ → Bool
  greater_than a b = verdict (scan false a b) (length b) (length a)

  unfoldable pub geq : List ℕ → List ℕ → Bool
  geq a b = not (less_than a b)

  -- The loop of equal, from the last character to the first.
  unfoldable pub equal_below : ℕ → List ℕ → List ℕ → Bool
  equal_below zero a b = true
  equal_below (suc i) a b =
      let rest = equal_below i a b in
      if tolower (get_or a i 0) == tolower (get_or b i 0) then rest else false

  unfoldable pub equal : List ℕ → List ℕ → Bool
  equal a b = if length a == length b then equal_below (length a) a b else false

  length-map : (xs : List ℕ) → length (map tolower xs) ≡ length xs
  length-map [] = refl
  length-map (x ∷ xs) = omega (arith, length-map xs)

  less_than-lex : (a b : List ℕ) → less_than a b ≡ lex (map tolower a) (map tolower b)
  unfolding less_than scan
  less_than-lex [] [] = refl
  less_than-lex [] (y ∷ b) = ground arith
  less_than-lex (x ∷ a) [] = ground arith
  less_than-lex (x ∷ a) (y ∷ b) = elim (Bool-cases (ltb (tolower x) (tolower y))) [
    | inl below ↦ rw (below, less_than, scan) refl
    | inr not_below ↦ elim (Bool-cases (ltb (tolower y) (tolower x))) [
      | inl above ↦ rw (not_below, above, less_than, scan) refl
      | inr same ↦
          rw (not_below, same, less_than, scan)
            (verdict-suc (scan true a b) (length a) (length b) ∙ less_than-lex a b)
    ]
  ]

  equal_below-agree :
      (n : ℕ) (a b : List ℕ)
      → (equal_below n a b ≡ true)
        ↔ ((i : ℕ) → i < n → tolower (get_or a i 0) ≡ tolower (get_or b i 0))
  unfolding equal_below
  equal_below-agree zero a b = (λ h i below. absurd (omega arith), λ h. refl)
  equal_below-agree (suc n) a b =
      let rest = equal_below-agree n a b in
      (
        λ h i below. elim (dec_lt i n) [
          | yes lower ↦ rest.0 (ground (arith, h)) i lower
          | no last ↦
              let e : i ≡ n = omega (arith, below) in
              subst (λ k. tolower (get_or a k 0) ≡ tolower (get_or b k 0)) (sym e)
                (ground (arith, h))
        ],
        λ h.
            let e = h n (omega arith) in
            let r = rest.1 (λ i k. h i (omega (arith, k))) in ground (arith, e, r),
      )

  map-agree :
      (a b : List ℕ)
      → length a ≡ length b
      → ((i : ℕ) → i < length a → tolower (get_or a i 0) ≡ tolower (get_or b i 0))
      → map tolower a ≡ map tolower b
  map-agree [] [] e h = refl
  map-agree [] (y ∷ b) e h = absurd (omega arith)
  map-agree (x ∷ a) [] e h = absurd (omega arith)
  map-agree (x ∷ a) (y ∷ b) e h =
      ap₂ ◌∷◌ (h 0 (omega arith))
        (map-agree a b (omega arith) (λ i k. h (suc i) (omega (arith, k))))

  agree-map :
      (a b : List ℕ) (i : ℕ)
      → map tolower a ≡ map tolower b
      → i < length a
      → tolower (get_or a i 0) ≡ tolower (get_or b i 0)
  agree-map [] b i e k = absurd (omega arith)
  agree-map (x ∷ a) [] i e k =
      absurd (let l : suc (length (map tolower a)) ≡ 0 = ap length e in omega arith)
  agree-map (x ∷ a) (y ∷ b) zero e k = ap (λ xs. get_or xs 0 0) e
  agree-map (x ∷ a) (y ∷ b) (suc i) e k = agree-map a b i (ap (drop 1) e) (omega (arith, k))

  -- equal holds of two strings when they are the same after every character went through tolower.
  pub equal-map : (a b : List ℕ) → (equal a b ≡ true) ↔ (map tolower a ≡ map tolower b)
  unfolding equal
  equal-map a b = (
    λ h. elim (Bool-cases (length a == length b)) [
      | inl same ↦
          map-agree a b ((==_iff _ _).0 same)
            ((equal_below-agree (length a) a b).0 (ground (arith, h, same)))
      | inr other ↦ absurd (ground (arith, h, other))
    ],
    λ h.
        let same : length a ≡ length b = sym (length-map a) ∙ ap length h ∙ length-map b in
        let r = (equal_below-agree (length a) a b).1 (λ i k. agree-map a b i h k) in
        ground (arith, same, r),
  )

  -- less_than is transitive.
  less_than_transitive :
      (a b d : List ℕ) → less_than a b ≡ true → less_than b d ≡ true → less_than a d ≡ true
  less_than_transitive a b d h k =
      less_than-lex a d
      ∙ lex_transitive _ (map tolower b) _ (sym (less_than-lex a b) ∙ h)
          (sym (less_than-lex b d) ∙ k)

  -- Two strings that less_than does not order either way are those that equal accepts.
  less_than-equal :
      (a b : List ℕ) → ((less_than a b ≡ false) × (less_than b a ≡ false)) ↔ (equal a b ≡ true)
  less_than-equal a b = (
    λ (h, k).
        (equal-map a b).1
          (lex_total _ _ (sym (less_than-lex a b) ∙ h) (sym (less_than-lex b a) ∙ k)),
    λ h.
        let e = (equal-map a b).0 h in
        (
          less_than-lex a b ∙ ap (λ xs. lex xs (map tolower b)) e ∙ lex_irreflexive (map tolower b),
          less_than-lex b a ∙ ap (lex (map tolower b)) e ∙ lex_irreflexive (map tolower b),
        ),
  )
