-- ===== src/Objects/Encrypt.antt =====
-- encrypt() of src/serialization/FileSystemObject.cpp, and find() in an encrypted tree.
use zekvok.Prelude.{
  ℕ, ◌≡◌, refl, sym, ap, ap₂, ◌∙◌, Bool, true, false, Option, none, some, List, [], ◌∷◌, map, arith,
  if◌then◌else◌, Bool-cases, inl, inr, ◌≢◌, ◌⊎◌,
}
use zekvok.Objects.Tree.{
  Name, Entry, Fso, Children, Childless, file_hardlink_fso, directory_fso, childless_fso,
  no_children, child,
}
use zekvok.Objects.Find.{
  or_else, encrypt_string_ci, names_directory, names_childless, find, find_in,
}
use zekvok.Objects.Found.{IsPlain, ArePlain}
use zekvok.Archive.Reader.{bytes_equal}
use zekvok.Archive.Complete.{bytes_equal_refl, bytes_equal_sound}
use zekvok.Utility.Strcmpci.{equal, equal-map}
use zekvok.Utility.Text.{to_lower}

abbrev pub map_option : (Fso → Fso) → Option Fso → Option Fso
map_option f none = none
map_option f (some o) = some (f o)

module _ (tolower : ℕ → ℕ) (encrypt_string : Name → Name) where
  abbrev encrypt_target : Option Name → Option Name
  encrypt_target none = none
  encrypt_target (some target) = some (encrypt_string_ci tolower encrypt_string target)

  -- What encrypt() does to the object itself, but for its flag and what its class does.
  unfoldable pub encrypt_entry : Bool → Entry → Entry
  encrypt_entry is_root e = record e {
    name = if is_root then e.name else encrypt_string_ci tolower encrypt_string e.name;
    link_target = encrypt_target e.link_target;
    exceptions = [];
    is_encrypted = true;
  }

  -- encrypt_internal() of the childless classes: a hard link encrypts the names of its peers.
  unfoldable pub encrypt_peers : Childless → Entry → Entry
  encrypt_peers file_hardlink_fso e = record e {
    peers = map (encrypt_string_ci tolower encrypt_string) e.peers;
  }
  encrypt_peers k e = e

  unfoldable mutual
    unfolding encrypt_entry encrypt_peers

    pub encrypt : Bool → Fso → Fso
    encrypt is_root (directory_fso e cs) =
        let children = encrypt_children cs in
        if e.is_encrypted
        then directory_fso e cs
        else directory_fso (encrypt_entry is_root e) children
    encrypt is_root (childless_fso k e) =
        if e.is_encrypted
        then childless_fso k e
        else childless_fso k (encrypt_peers k (encrypt_entry is_root e))

    -- encrypt_internal() of a directory.
    pub encrypt_children : Children → Children
    encrypt_children no_children = no_children
    encrypt_children (child o cs) = child (encrypt false o) (encrypt_children cs)

  encrypt_directory :
      (is_root : Bool) (e : Entry) (cs : Children)
      → e.is_encrypted ≡ false
      → encrypt is_root (directory_fso e cs)
        ≡ directory_fso (encrypt_entry is_root e) (encrypt_children cs)
  unfolding encrypt
  encrypt_directory is_root e cs h = rw h refl

  encrypt_childless :
      (is_root : Bool) (k : Childless) (e : Entry)
      → e.is_encrypted ≡ false
      → encrypt is_root (childless_fso k e)
        ≡ childless_fso k (encrypt_peers k (encrypt_entry is_root e))
  unfolding encrypt
  encrypt_childless is_root k e h = rw h refl

  map_option-or_else :
      (f : Fso → Fso) (a b : Option Fso)
      → or_else (map_option f a) (map_option f b) ≡ map_option f (or_else a b)
  map_option-or_else f none b = refl
  map_option-or_else f (some a) b = refl

  if-map_option :
      (f : Fso → Fso) (b b' : Bool) (a a' : Option Fso)
      → b' ≡ b
      → a' ≡ map_option f a
      → (if b' then a' else none) ≡ map_option f (if b then a else none)
  if-map_option f true true a a' e h = h
  if-map_option f false false a a' e h = refl
  if-map_option f true false a a' e h = absurd (cc)
  if-map_option f false true a a' e h = absurd (cc)

  -- The digests tell a name of a path from the name of an object: they are equal only when the names are,
  -- in lower case.
  abbrev pub Tells : Name → Entry → Type 0
  Tells n e =
      encrypt_string_ci tolower encrypt_string n ≡ encrypt_string_ci tolower encrypt_string e.name
      → map tolower n ≡ map tolower e.name

  -- They tell a name from those of all the objects of a tree.
  unfoldable mutual
    pub TellsTree : Name → Fso → Type 0
    TellsTree n (directory_fso e cs) = Tells n e × TellsChildren n cs
    TellsTree n (childless_fso k e) = Tells n e

    pub TellsChildren : Name → Children → Type 0
    TellsChildren n no_children = Unit {0}
    TellsChildren n (child o cs) = TellsTree n o × TellsChildren n cs

  abbrev pub Within : Name → List Name → Type 0
  Within n [] = ⊥
  Within n (m ∷ path) = (n ≡ m) ⊎ Within n path

  bytes_equal-encrypt_string_ci :
      (n m : Name)
      → (encrypt_string_ci tolower encrypt_string n ≡ encrypt_string_ci tolower encrypt_string m
          → map tolower n ≡ map tolower m)
      → bytes_equal
          (encrypt_string_ci tolower encrypt_string n)
          (encrypt_string_ci tolower encrypt_string m)
        ≡ equal tolower n m
  unfolding encrypt_string_ci to_lower
  bytes_equal-encrypt_string_ci n m tells = elim (Bool-cases (equal tolower n m)) [
    | inl same ↦
        ap (λ l. bytes_equal (encrypt_string (map tolower n)) (encrypt_string l))
          (sym ((equal-map tolower n m).0 same))
        ∙ bytes_equal_refl (encrypt_string (map tolower n))
        ∙ sym same
    | inr other ↦
        elim (Bool-cases
          (bytes_equal (encrypt_string (map tolower n)) (encrypt_string (map tolower m)))) [
            | inl h ↦
                let e = tells (bytes_equal_sound _ _ h) in
                let k = (equal-map tolower n m).1 e in absurd (ground (arith, k, other))
            | inr h ↦ h ∙ sym other
          ]
  ]

  names_directory-encrypt_entry :
      (n : Name) (e : Entry)
      → Tells n e
      → e.is_encrypted ≡ false
      → names_directory tolower encrypt_string false n (encrypt_entry false e)
        ≡ names_directory tolower encrypt_string false n e
  unfolding names_directory encrypt_entry
  names_directory-encrypt_entry n e tells h = rw h (bytes_equal-encrypt_string_ci n e.name tells)

  names_childless-encrypt_entry :
      (n : Name) (k : Childless) (e : Entry)
      → Tells n e
      → e.is_encrypted ≡ false
      → names_childless tolower encrypt_string n (encrypt_peers k (encrypt_entry false e))
        ≡ names_childless tolower encrypt_string n e
  unfolding names_childless encrypt_entry encrypt_peers
  names_childless-encrypt_entry n file_hardlink_fso e tells h =
      rw h (bytes_equal-encrypt_string_ci n e.name tells)
  names_childless-encrypt_entry n k e tells h = rw h (bytes_equal-encrypt_string_ci n e.name tells)

  mutual
    unfolding find encrypt IsPlain TellsTree TellsChildren

    find_tree :
        (o : Fso) (path : List Name)
        → ((n : Name) → Within n path → TellsTree n o)
        → IsPlain o
        → find tolower encrypt_string false path (encrypt false o)
          ≡ map_option (encrypt false) (find tolower encrypt_string false path o)
    find_tree (directory_fso e cs) [] d h = refl
    find_tree (directory_fso e cs) (n ∷ []) d h =
        ap (find tolower encrypt_string false (n ∷ [])) (encrypt_directory false e cs h.0)
        ∙ if-map_option (encrypt false) _ _ (some (directory_fso e cs)) _
            (names_directory-encrypt_entry n e (d n (inl refl)).0 h.0)
            (ap some (sym (encrypt_directory false e cs h.0)))
    find_tree (directory_fso e cs) (n ∷ m ∷ rest) d h =
        ap (find tolower encrypt_string false (n ∷ m ∷ rest)) (encrypt_directory false e cs h.0)
        ∙ if-map_option (encrypt false) _ _ (find_in tolower encrypt_string (m ∷ rest) cs) _
            (names_directory-encrypt_entry n e (d n (inl refl)).0 h.0)
            (find_list cs m rest (λ k i. (d k (inr i)).1) h.1)
    find_tree (childless_fso k e) [] d h = refl
    find_tree (childless_fso k e) (n ∷ []) d h =
        ap (find tolower encrypt_string false (n ∷ [])) (encrypt_childless false k e h)
        ∙ if-map_option (encrypt false) _ _ (some (childless_fso k e)) _
            (names_childless-encrypt_entry n k e (d n (inl refl)) h)
            (ap some (sym (encrypt_childless false k e h)))
    find_tree (childless_fso k e) (n ∷ m ∷ rest) d h =
        ap (find tolower encrypt_string false (n ∷ m ∷ rest)) (encrypt_childless false k e h)

    find_list :
        (cs : Children) (n : Name) (path : List Name)
        → ((k : Name) → Within k (n ∷ path) → TellsChildren k cs)
        → ArePlain cs
        → find_in tolower encrypt_string (n ∷ path) (encrypt_children cs)
          ≡ map_option (encrypt false) (find_in tolower encrypt_string (n ∷ path) cs)
    find_list no_children n path d h = refl
    find_list (child o cs) n path d h =
        ap₂ or_else (find_tree o (n ∷ path) (λ k i. (d k i).0) h.0)
          (find_list cs n path (λ k i. (d k i).1) h.1)
        ∙ map_option-or_else (encrypt false) _ _

  names_root-encrypt_entry :
      (n : Name) (e : Entry)
      → e.is_encrypted ≡ false
      → names_directory tolower encrypt_string true n (encrypt_entry true e)
        ≡ names_directory tolower encrypt_string true n e
  unfolding names_directory encrypt_entry
  names_root-encrypt_entry n e h = rw h refl

  -- An encrypted tree is searched by the names in clear: encrypt() hides the names of what is below the
  -- root directory, and find() still finds, for a path that goes below the root, the encrypted form of
  -- the object that it found before, and nothing where it found nothing; where the digests that hide the
  -- names tell the components of the path from the names of the objects below the root.
  pub find-encrypt :
      (e : Entry) (cs : Children) (n m : Name) (rest : List Name)
      → ((k : Name) → Within k (m ∷ rest) → TellsChildren k cs)
      → IsPlain (directory_fso e cs)
      → find tolower encrypt_string true (n ∷ m ∷ rest) (encrypt true (directory_fso e cs))
        ≡ map_option
            (encrypt false)
            (find tolower encrypt_string true (n ∷ m ∷ rest) (directory_fso e cs))
  unfolding find IsPlain
  find-encrypt e cs n m rest d h =
      ap (find tolower encrypt_string true (n ∷ m ∷ rest)) (encrypt_directory true e cs h.0)
      ∙ if-map_option (encrypt false) _ _ (find_in tolower encrypt_string (m ∷ rest) cs) _
          (names_root-encrypt_entry n e h.0) (find_list cs m rest d h.1)

  names_childless-digest :
      (n : Name) (k : Childless) (e : Entry)
      → names_childless tolower encrypt_string n (encrypt_peers k (encrypt_entry true e))
        ≡ bytes_equal (encrypt_string_ci tolower encrypt_string n) e.name
  unfolding names_childless encrypt_entry encrypt_peers
  names_childless-digest n file_hardlink_fso e = refl
  names_childless-digest n k e = refl

  -- Once encrypted, an object that is no directory and the root of its tree is not found by any path
  -- whose last component has another digest than the object's name in clear, its own name included:
  -- encrypt() leaves a root's name in clear, and find() compares it with the digest of the component.
  pub find-encrypt_childless :
      (k : Childless) (e : Entry) (n : Name)
      → e.is_encrypted ≡ false
      → encrypt_string_ci tolower encrypt_string n ≢ e.name
      → find tolower encrypt_string true (n ∷ []) (encrypt true (childless_fso k e)) ≡ none
  unfolding find
  find-encrypt_childless k e n h d =
      ap (find tolower encrypt_string true (n ∷ [])) (encrypt_childless true k e h)
      ∙ (rw (names_childless-digest n k e)
          (elim (Bool-cases (bytes_equal (encrypt_string_ci tolower encrypt_string n) e.name)) [
            | inl same ↦ absurd (d (bytes_equal_sound _ _ same))
            | inr other ↦ rw other refl
          ]))
