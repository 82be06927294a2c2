-- ===== src/Objects/Ids.antt =====
-- set_unique_ids() of src/serialization/FileSystemObject.cpp, which numbers the objects of a tree.
use zekvok.Prelude.{
  ℕ, suc, ◌+◌, ◌≡◌, refl, sym, ap, ap₂, ◌∙◌, List, [], ◌∷◌, ◌++◌, map, map-append, length,
  length-append, arith,
}
use zekvok.Objects.Tree.{
  Entry, Fso, Children, directory_fso, childless_fso, no_children, child, entry, iterate,
  iterate_children,
}

-- BackupSystem::get_stream_id: the number to give, and the next one.
abbrev pub numbered_entry : ℕ → Entry → Entry
numbered_entry id e = record e { stream_id = id }

-- The object with its numbers, and the next number to give.
unfoldable mutual
  pub set_unique_ids : ℕ → Fso → Fso × ℕ
  set_unique_ids next (directory_fso e cs) =
      let r = set_children_ids (next + 1) cs in (directory_fso (numbered_entry next e) r.0, r.1)
  set_unique_ids next (childless_fso k e) = (childless_fso k (numbered_entry next e), next + 1)

  pub set_children_ids : ℕ → Children → Children × ℕ
  set_children_ids next no_children = (no_children, next)
  set_children_ids next (child o cs) =
      let r = set_unique_ids next o in
      let rest = set_children_ids r.1 cs in (child r.0 rest.0, rest.1)

abbrev pub ids : List Fso → List ℕ
ids l = map (λ o. (entry o).stream_id) l

-- The numbers from `next` on.
abbrev pub numbers {ℓ} : {A : Type ℓ} → ℕ → List A → List ℕ
numbers next [] = []
numbers next (x ∷ xs) = next ∷ numbers (next + 1) xs

numbers-append {ℓ} :
    {A : Type ℓ} (next : ℕ) (xs ys : List A)
    → numbers next (xs ++ ys) ≡ numbers next xs ++ numbers (next + length xs) ys
numbers-append next [] ys = rw (let e : next + 0 ≡ next = omega arith in e) refl
numbers-append next (x ∷ xs) ys =
    ap (λ l. next ∷ l) (numbers-append (next + 1) xs ys)
    ∙ rw (let e : next + 1 + length xs ≡ next + suc (length xs) = omega arith in e) refl

mutual
  unfolding set_unique_ids iterate entry

  numbered_tree :
      (o : Fso) (next : ℕ)
      → (ids (iterate (set_unique_ids next o).0) ≡ numbers next (iterate o))
        × ((set_unique_ids next o).1 ≡ next + length (iterate o))
  numbered_tree (directory_fso e cs) next =
      let ih = numbered_list cs (next + 1) in (ap (λ l. next ∷ l) ih.0, omega (arith, ih.1))
  numbered_tree (childless_fso k e) next = (refl, omega arith)

  numbered_list :
      (cs : Children) (next : ℕ)
      → (ids (iterate_children (set_children_ids next cs).0) ≡ numbers next (iterate_children cs))
        × ((set_children_ids next cs).1 ≡ next + length (iterate_children cs))
  numbered_list no_children next = (refl, omega arith)
  numbered_list (child o cs) next =
      let first = numbered_tree o next in
      let rest = numbered_list cs (set_unique_ids next o).1 in
      (
        map-append _ (iterate (set_unique_ids next o).0) _
            ∙ ap₂ ◌++◌ first.0 (rest.0 ∙ ap (λ n. numbers n (iterate_children cs)) first.1)
            ∙ sym (numbers-append next (iterate o) (iterate_children cs)),
        omega (arith, first.1, rest.1, length-append (iterate o) (iterate_children cs)),
      )

-- set_unique_ids gives the objects of a tree, in the order of the iterator, the numbers from the next
-- stream id on, one after the other, and leaves as the next stream id the one behind the last.
set_unique_ids-numbers :
    (o : Fso) (next : ℕ)
    → (ids (iterate (set_unique_ids next o).0) ≡ numbers next (iterate o))
      × ((set_unique_ids next o).1 ≡ next + length (iterate o))
set_unique_ids-numbers o next = numbered_tree o next
