-- ===== src/Objects/Found.antt =====
-- What find() finds: the first object, in the order of the iterator, whose names from the root down are
-- those of the path.
use zekvok.Prelude.{
  ℕ, zero, suc, ◌≡◌, refl, sym, ap, ap₂, ◌∙◌, Bool, true, false, Option, none, some, List, [], ◌∷◌,
  ◌++◌, reverse, arith, if◌then◌else◌, Bool-cases, inl, inr, get_elem?,
}
use mathlib.Core.List.{reverse-reverse}
use zekvok.Objects.Tree.{
  Name, Entry, Fso, Children, directory_fso, childless_fso, no_children, child, entry,
  path_override_base,
}
use zekvok.Objects.Find.{or_else, names_directory, names_childless, find, find_in, find_path}
use zekvok.Utility.Strcmpci.{equal, equal-map}

-- No object of the tree is encrypted.
unfoldable mutual
  pub IsPlain : Fso → Type 0
  IsPlain (directory_fso e cs) = (e.is_encrypted ≡ false) × ArePlain cs
  IsPlain (childless_fso k e) = e.is_encrypted ≡ false

  pub ArePlain : Children → Type 0
  ArePlain no_children = Unit
  ArePlain (child o cs) = IsPlain o × ArePlain cs

-- Each object of a tree, in the order of the iterator, with the names from the root down to it.
abbrev pub below : Name → List (List Name × Fso) → List (List Name × Fso)
below n [] = []
below n ((names, o) ∷ l) = (n ∷ names, o) ∷ below n l

unfoldable mutual
  pub named : Fso → List (List Name × Fso)
  named (directory_fso e cs) = (e.name ∷ [], directory_fso e cs) ∷ below e.name (named_children cs)
  named (childless_fso k e) = (e.name ∷ [], childless_fso k e) ∷ []

  pub named_children : Children → List (List Name × Fso)
  named_children no_children = []
  named_children (child o cs) = named o ++ named_children cs

module _ (tolower : ℕ → ℕ) where
  -- Two paths agree when their components do, without regard to case.
  abbrev pub agree : List Name → List Name → Bool
  agree [] [] = true
  agree (n ∷ path) (m ∷ names) = if equal tolower n m then agree path names else false
  agree _ _ = false

  abbrev pub first_named : List Name → List (List Name × Fso) → Option Fso
  first_named path [] = none
  first_named path ((names, o) ∷ l) = if agree path names then some o else first_named path l

  first_named-append :
      (path : List Name) (xs ys : List (List Name × Fso))
      → first_named path (xs ++ ys) ≡ or_else (first_named path xs) (first_named path ys)
  first_named-append path [] ys = refl
  first_named-append path ((names, o) ∷ xs) ys = elim (Bool-cases (agree path names)) [
    | inl same ↦ rw same
    | inr other ↦ rw other (first_named-append path xs ys)
  ]

  first_named-below :
      (n m : Name) (path : List Name) (l : List (List Name × Fso))
      → first_named (m ∷ path) (below n l)
        ≡ (if equal tolower m n then first_named path l else none)
  first_named-below n m path [] = ground arith
  first_named-below n m path ((names, o) ∷ l) =
      let ih = first_named-below n m path l in ground (arith, ih)

  first_named-nil : (n : Name) (l : List (List Name × Fso)) → first_named [] (below n l) ≡ none
  first_named-nil n [] = refl
  first_named-nil n ((names, o) ∷ l) = first_named-nil n l

  first_named-below_other :
      (n m : Name) (path : List Name) (l : List (List Name × Fso))
      → equal tolower n m ≡ false
      → first_named (n ∷ path) (below m l) ≡ none
  first_named-below_other n m path l h = first_named-below m n path l ∙ (rw h)

  if_none : (b : Bool) → ◌≡◌ {A = Option Fso} (if b then none else none) none
  if_none true = refl
  if_none false = refl

  first_named-one :
      (n m : Name) (o : Fso) (l : List (List Name × Fso))
      → first_named (n ∷ []) ((m ∷ [], o) ∷ below m l)
        ≡ (if equal tolower n m then some o else none)
  first_named-one n m o l = ground (arith, first_named-below_other n m [] l)

  first_named-more :
      (n k m : Name) (rest : List Name) (o : Fso) (l : List (List Name × Fso))
      → first_named (n ∷ k ∷ rest) ((m ∷ [], o) ∷ below m l)
        ≡ (if equal tolower n m then first_named (k ∷ rest) l else none)
  first_named-more n k m rest o l = ground (arith, first_named-below m n (k ∷ rest) l)

  module _ (encrypt_string : Name → Name) where
    plain_directory :
        (is_root : Bool) (n : Name) (e : Entry)
        → e.is_encrypted ≡ false
        → names_directory tolower encrypt_string is_root n e ≡ equal tolower n e.name
    unfolding names_directory
    plain_directory is_root n e h = rw h

    plain_childless :
        (n : Name) (e : Entry)
        → e.is_encrypted ≡ false
        → names_childless tolower encrypt_string n e ≡ equal tolower n e.name
    unfolding names_childless
    plain_childless n e h = rw h

    mutual
      unfolding find IsPlain named

      find_tree :
          (o : Fso) (is_root : Bool) (path : List Name)
          → IsPlain o
          → find tolower encrypt_string is_root path o ≡ first_named path (named o)
      find_tree (directory_fso e cs) is_root [] h = sym (first_named-nil e.name (named_children cs))
      find_tree (directory_fso e cs) is_root (n ∷ []) h =
          rw (plain_directory is_root n e h.0)
            (sym (first_named-one n e.name (directory_fso e cs) (named_children cs)))
      find_tree (directory_fso e cs) is_root (n ∷ m ∷ rest) h =
          rw (plain_directory is_root n e h.0) (
            ap (λ r. if equal tolower n e.name then r else none) (find_list cs m rest h.1)
            ∙ sym (first_named-more n m e.name rest (directory_fso e cs) (named_children cs)))
      find_tree (childless_fso k e) is_root [] h = refl
      find_tree (childless_fso k e) is_root (n ∷ []) h =
          rw (plain_childless n e h) (sym (first_named-one n e.name (childless_fso k e) []))
      find_tree (childless_fso k e) is_root (n ∷ m ∷ rest) h = sym (
          first_named-more n m e.name rest (childless_fso k e) []
          ∙ if_none (equal tolower n e.name))

      find_list :
          (cs : Children) (n : Name) (path : List Name)
          → ArePlain cs
          → find_in tolower encrypt_string (n ∷ path) cs
            ≡ first_named (n ∷ path) (named_children cs)
      find_list no_children n path h = refl
      find_list (child o cs) n path h =
          ap₂ or_else (find_tree o false (n ∷ path) h.0) (find_list cs n path h.1)
          ∙ sym (first_named-append (n ∷ path) (named o) (named_children cs))

    -- find() finds exactly the first object, in the order of the iterator, whose names from the root of
    -- the search down agree with the path, and nothing where no object's names do; in a tree without
    -- encrypted objects, whether the search starts at the root of the tree or at a child.
    pub find-first_named :
        (is_root : Bool) (path : List Name) (o : Fso)
        → IsPlain o
        → find tolower encrypt_string is_root path o ≡ first_named path (named o)
    find-first_named is_root path o h = find_tree o is_root path h

  -- No object's names agree with those of an object before it.
  abbrev pub NoneAgree : List Name → List (List Name × Fso) → Type 0
  NoneAgree names [] = Unit
  NoneAgree names ((path, o) ∷ l) = (agree path names ≡ false) × NoneAgree names l

  abbrev pub Distinct : List (List Name × Fso) → Type 0
  Distinct [] = Unit
  Distinct ((names, o) ∷ l) = NoneAgree names l × Distinct l

  NoneAgree-get_elem? :
      (names path : List Name) (o : Fso) (l : List (List Name × Fso)) (i : ℕ)
      → NoneAgree names l
      → get_elem? l i ≡ some (path, o)
      → agree path names ≡ false
  NoneAgree-get_elem? names path o [] i d h = absurd (cc)
  NoneAgree-get_elem? names path o ((q, x) ∷ l) zero d h =
      let e : q ≡ path = cc in ap (λ p. agree p names) (sym e) ∙ d.0
  NoneAgree-get_elem? names path o ((q, x) ∷ l) (suc i) d h =
      NoneAgree-get_elem? names path o l i d.1 h

  agree_self : (path : List Name) → agree path path ≡ true
  agree_self [] = refl
  agree_self (n ∷ path) = rw ((equal-map tolower n n).1 refl) (agree_self path)

  first_named-get_elem? :
      (l : List (List Name × Fso)) (i : ℕ) (names : List Name) (o : Fso)
      → Distinct l
      → get_elem? l i ≡ some (names, o)
      → first_named names l ≡ some o
  first_named-get_elem? [] i names o d h = absurd (cc)
  first_named-get_elem? ((path, x) ∷ l) zero names o d h =
      let e : path ≡ names = cc in let k : x ≡ o = cc in rw (e, k, agree_self names) refl
  first_named-get_elem? ((path, x) ∷ l) (suc i) names o d h =
      rw (NoneAgree-get_elem? path names o l i d.0 h) (first_named-get_elem? l i names o d.1 h)

  named-below :
      (n : Name) (l : List (List Name × Fso)) (i : ℕ) (names : List Name) (x : Fso)
      → get_elem? (below n l) i ≡ some (names, x)
      → (rest : List Name) × (names ≡ n ∷ rest)
  named-below n [] i names x h = absurd (cc)
  named-below n ((path, o) ∷ l) zero names x h = (path, cc)
  named-below n ((path, o) ∷ l) (suc i) names x h = named-below n l i names x h

  named-entry :
      (o : Fso) (i : ℕ) (names : List Name) (x : Fso)
      → get_elem? (named o) i ≡ some (names, x)
      → (rest : List Name) × (names ≡ (entry o).name ∷ rest)
  unfolding named entry
  named-entry (directory_fso e cs) zero names x h = ([], cc)
  named-entry (directory_fso e cs) (suc i) names x h =
      named-below e.name (named_children cs) i names x h
  named-entry (childless_fso k e) zero names x h = ([], cc)
  named-entry (childless_fso k e) (suc i) names x h = absurd (cc)

  module _ (encrypt_string : Name → Name) where
    find_path-append :
        (base names : List Name) (o : Fso)
        → find_path tolower encrypt_string base (base ++ names) o
          ≡ find_path tolower encrypt_string [] names o
    unfolding find_path
    find_path-append [] names o = refl
    find_path-append (b ∷ base) names o =
        rw ((equal-map tolower b b).1 refl) (find_path-append base names o)

    find_path-entry :
        (o : Fso) (rest : List Name)
        → find_path tolower encrypt_string [] ((entry o).name ∷ rest) o
          ≡ find tolower encrypt_string true ((entry o).name ∷ rest) o
    unfolding find_path
    find_path-entry o rest = rw ((equal-map tolower (entry o).name (entry o).name).1 refl) refl

    -- find() finds every object by the path that get_mapped_path() gives for it: for an object of a tree
    -- without encrypted objects, no two of whose objects have the same path but for case, the path made
    -- of the names from the object up to the root, below the root's base, is found as that object.
    pub find_path-path_override_base :
        (base : List Name) (o : Fso) (i : ℕ) (names : List Name) (x : Fso)
        → IsPlain o
        → Distinct (named o)
        → get_elem? (named o) i ≡ some (names, x)
        → find_path tolower encrypt_string base (path_override_base (some base) (reverse names)) o
          ≡ some x
    unfolding path_override_base
    find_path-path_override_base base o i names x plain d h =
        let (rest, e) = named-entry o i names x h in
        rw reverse-reverse (
          find_path-append base names o
          ∙ (let t = λ (l : List Name). find_path tolower encrypt_string [] l o in
              let f = λ (l : List Name). find tolower encrypt_string true l o in
              ap t e ∙ find_path-entry o rest ∙ ap f (sym e))
          ∙ find-first_named encrypt_string true names o plain
          ∙ first_named-get_elem? (named o) i names x d h)
