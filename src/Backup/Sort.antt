-- ===== src/Backup/Sort.antt =====
-- std::sort, as src/BackupSystem.cpp and src/serialization/FileSystemObject.cpp call it.
use mathlib.Core.List.{Perm}
use mathlib.Core.List.Perm
use zekvok.Prelude.{ℕ, ◌≤◌, Bool, List, [], ◌∷◌, if◌then◌else◌, Bool-cases, inl, inr, ltb, arith}

module _ {A : Type 0} (less : A → A → Bool) where
  unfoldable pub insert : A → List A → List A
  insert a [] = a ∷ []
  insert a (b ∷ bs) = let rest = insert a bs in if less b a then b ∷ rest else a ∷ b ∷ bs

  unfoldable pub sort : List A → List A
  sort [] = []
  sort (a ∷ xs) = insert a (sort xs)

  insert-Perm : (a : A) (bs : List A) → Perm (insert a bs) (a ∷ bs)
  unfolding insert
  insert-Perm a [] = Perm.refl (a ∷ [])
  insert-Perm a (b ∷ bs) = elim (Bool-cases (less b a)) [
    | inl before ↦ rw before (Perm.trans (Perm.cons b (insert-Perm a bs)) (Perm.swap a b bs))
    | inr after ↦ rw after (Perm.refl (a ∷ b ∷ bs))
  ]

  pub sort-Perm : (xs : List A) → Perm (sort xs) xs
  unfolding sort
  sort-Perm [] = Perm.nil
  sort-Perm (a ∷ xs) = Perm.trans (insert-Perm a (sort xs)) (Perm.cons a (sort-Perm xs))

abbrev pub Sorted : ℕ → List ℕ → Type 0
Sorted low [] = Unit {0}
Sorted low (x ∷ xs) = (low ≤ x) × Sorted x xs

insert-Sorted : (low x : ℕ) (xs : List ℕ) → low ≤ x → Sorted low xs → Sorted low (insert ltb x xs)
unfolding insert
insert-Sorted low x [] h s = (h, tt)
insert-Sorted low x (y ∷ ys) h s = elim (Bool-cases (ltb y x)) [
  | inl before ↦ rw before (s.0, insert-Sorted y x ys (ground (arith, before)) s.1)
  | inr after ↦ rw after (h, (ground (arith, after), s.1))
]

pub sort-Sorted : (xs : List ℕ) → Sorted 0 (sort ltb xs)
unfolding sort
sort-Sorted [] = tt
sort-Sorted (x ∷ xs) =
    insert-Sorted 0 x (sort ltb xs) (let e : 0 ≤ x = omega arith in e) (sort-Sorted xs)
