-- ===== src/Backup/Paths.antt =====
-- map_path of src/BackupSystem.cpp: a path on a volume rewritten to its snapshot, or back. A pattern of
-- the mapper is boost's, and `search` finds its two groups in a path, if it matches.
use zekvok.Prelude.{
  ℕ, suc, ◌≤◌, ◌<◌, ◌≡◌, ◌⊎◌, refl, sym, ap, subst, ◌∙◌, false, Option, none, some, List, [], ◌∷◌,
  ◌++◌, arith, if◌then◌else◌, Bool-cases, inl, inr, length, leb, ◌==◌, leb→le, get_elem?,
}

module _ {Pattern : Type 0} (search : Pattern → List ℕ → Option (List ℕ × List ℕ)) where
  -- One turn of the loop: a longer first group replaces what was found.
  unfoldable pub better : List ℕ → Option (List ℕ × List ℕ) → ℕ × List ℕ → ℕ × List ℕ
  better replacement none best = best
  better replacement (some (g1, g2)) best =
      if leb (length g1) best.0 then best else (length g1, replacement ++ g2)

  unfoldable pub map_from : List ℕ → List (Pattern × List ℕ) → ℕ × List ℕ → ℕ × List ℕ
  unfolding better
  map_from path [] best = best
  map_from path ((re, replacement) ∷ mapper) best =
      map_from path mapper (better replacement (search re path) best)

  unfoldable pub map_path : List ℕ → List (Pattern × List ℕ) → List ℕ
  unfolding map_from
  map_path path mapper =
      let best = map_from path mapper (0, []) in if best.0 == 0 then path else best.1

  -- An entry of the mapper that matches the path, with its groups.
  pub record Matches (path : List ℕ) (mapper : List (Pattern × List ℕ)) : Type 0 where
    pub index : ℕ
    pub re : Pattern
    pub replacement : List ℕ
    pub first : List ℕ
    pub second : List ℕ
    pub listed : get_elem? mapper index ≡ some (re, replacement)
    pub found : search re path ≡ some (first, second)

  -- The first groups of all the matches are at most so long.
  abbrev pub AtMost : ℕ → List ℕ → List (Pattern × List ℕ) → Type 0
  AtMost n path [] = Unit
  AtMost n path ((re, replacement) ∷ mapper) =
      ((g1 g2 : List ℕ) → search re path ≡ some (g1, g2) → length g1 ≤ n) × AtMost n path mapper

  AtMost-mono :
      (m n : ℕ) (path : List ℕ) (mapper : List (Pattern × List ℕ))
      → m ≤ n
      → AtMost m path mapper
      → AtMost n path mapper
  AtMost-mono m n path [] le h = tt
  AtMost-mono m n path (e ∷ mapper) le h =
      (λ g1 g2 k. let b = h.0 g1 g2 k in omega arith, AtMost-mono m n path mapper le h.1)

  -- What the loop leaves: what it had, or the longest match.
  record Best (path : List ℕ) (mapper : List (Pattern × List ℕ)) (b c : ℕ × List ℕ) : Type 0 where
    grown : b.0 ≤ c.0
    longest : AtMost c.0 path mapper
    origin :
        (c ≡ b)
        ⊎ ((m : Matches path mapper) × (c.0 ≡ length m.first)
            × (c.1 ≡ m.replacement ++ m.second)
            × (b.0 < c.0))

  abbrev later_match :
      (path : List ℕ) (e : Pattern × List ℕ) (mapper : List (Pattern × List ℕ))
      → Matches path mapper
      → Matches path (e ∷ mapper)
  later_match path e mapper m = record {
    index = suc m.index;
    re = m.re;
    replacement = m.replacement;
    first = m.first;
    second = m.second;
    listed = m.listed;
    found = m.found;
  }

  module _ (path : List ℕ) (re : Pattern) (replacement : List ℕ)
      (mapper : List (Pattern × List ℕ)) where
    -- An entry that does not match, or no better than what there was.
    kept :
        (b c : ℕ × List ℕ)
        → ((g1 g2 : List ℕ) → search re path ≡ some (g1, g2) → length g1 ≤ b.0)
        → Best path mapper b c
        → Best path ((re, replacement) ∷ mapper) b c
    kept b c no_longer h = record {
      grown = h.grown;
      longest = (λ g1 g2 k. let x = no_longer g1 g2 k in let y = h.grown in omega arith, h.longest);
      origin = elim h.origin [
        | inl e ↦ inl e
        | inr (m, n, r, l) ↦ inr (later_match path (re, replacement) mapper m, n, r, l)
      ];
    }

    -- An entry that matches more.
    replaced :
        (b c : ℕ × List ℕ) (g1 g2 : List ℕ)
        → search re path ≡ some (g1, g2)
        → b.0 < length g1
        → Best path mapper (length g1, replacement ++ g2) c
        → Best path ((re, replacement) ∷ mapper) b c
    replaced b c g1 g2 found more h = record {
      grown = let x = h.grown in omega arith;
      longest = (
        λ f1 f2 k.
            let e : f1 ≡ g1 = let z = sym found ∙ k in cc in
            let l = ap length e in let x = h.grown in omega arith,
        h.longest,
      );
      origin = elim h.origin [
        | inl e ↦ inr (
          record {
            index = 0;
            re = re;
            replacement = replacement;
            first = g1;
            second = g2;
            listed = refl;
            found = found;
          },
          ap (λ x. x.0) e,
          ap (λ x. x.1) e,
          let x = h.grown in omega arith,
        )
        | inr (m, n, r, l) ↦
            inr (later_match path (re, replacement) mapper m, n, r, omega (arith, l, more))
      ];
    }

    turn-Best :
        (b c : ℕ × List ℕ) (o : Option (List ℕ × List ℕ))
        → search re path ≡ o
        → Best path mapper (better replacement o b) c
        → Best path ((re, replacement) ∷ mapper) b c
    unfolding better
    turn-Best b c none e h = kept b c (λ g1 g2 k. absurd (let z = sym e ∙ k in cc)) h
    turn-Best b c (some (g1, g2)) e h = elim (Bool-cases (leb (length g1) b.0)) [
      | inl short ↦
          kept b c
            (λ f1 f2 k.
              let z : f1 ≡ g1 = let y = sym e ∙ k in cc in
              let l = ap length z in let w = leb→le _ _ short in omega arith)
            (subst (λ x. Best path mapper x c) (rw short refl) h)
      | inr long ↦
          replaced b c g1 g2 e (ground (arith, long))
            (subst (λ x. Best path mapper x c) (rw long refl) h)
    ]

  map_from-Best :
      (path : List ℕ) (mapper : List (Pattern × List ℕ)) (b : ℕ × List ℕ)
      → Best path mapper b (map_from path mapper b)
  unfolding map_from
  map_from-Best path [] b = record { grown = omega arith; longest = tt; origin = inl refl }
  map_from-Best path ((re, replacement) ∷ mapper) b =
      turn-Best path re replacement mapper b _ (search re path) refl
        (map_from-Best path mapper (better replacement (search re path) b))

  abbrev Rewritten : List ℕ → List (Pattern × List ℕ) → List ℕ → Type 0
  Rewritten path mapper r =
      ((r ≡ path) × AtMost 0 path mapper)
      ⊎ ((m : Matches path mapper) × (0 < length m.first)
          × (r ≡ m.replacement ++ m.second)
          × AtMost (length m.first) path mapper)

  Best-Rewritten :
      (path : List ℕ) (mapper : List (Pattern × List ℕ)) (c : ℕ × List ℕ)
      → Best path mapper (0, []) c
      → Rewritten path mapper (if c.0 == 0 then path else c.1)
  Best-Rewritten path mapper c h = elim h.origin [
    | inl e ↦
        let none_found : c.0 ≡ 0 = ap (λ x. x.0) e in
        inl (ground (arith, none_found), subst (λ n. AtMost n path mapper) none_found h.longest)
    | inr (m, n, r, l) ↦
        let some_found : (c.0 == 0) ≡ false = ground (arith, l) in
        inr (m, omega (arith, l, n), rw some_found r, subst (λ k. AtMost k path mapper) n h.longest)
  ]

  -- map_path rewrites a path by the match with the longest first group, to the replacement of its entry
  -- followed by its second group; and leaves a path as it is where no entry matches with a first group
  -- that is not empty.
  pub map_path-longest :
      (path : List ℕ) (mapper : List (Pattern × List ℕ))
      → ((map_path path mapper ≡ path) × AtMost 0 path mapper)
        ⊎ ((m : Matches path mapper) × (0 < length m.first)
            × (map_path path mapper ≡ m.replacement ++ m.second)
            × AtMost (length m.first) path mapper)
  unfolding map_path
  map_path-longest path mapper =
      Best-Rewritten path mapper (map_from path mapper (0, [])) (map_from-Best path mapper (0, []))
