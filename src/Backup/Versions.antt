-- ===== src/Backup/Versions.antt =====
-- The versions of a backup: set_versions, get_version_count, version_exists, restore_backup's choice
-- of a version and full_verify of src/BackupSystem.cpp. A version number is an `int`.
use zekvok.Prelude.{
  ℕ, suc, ◌+◌, ◌-◌, ◌≡◌, refl, ap, sym, subst, Bool, true, false, not, Option, none, some, List, [],
  ◌∷◌, ltb, if◌then◌else◌, Bool-cases, inl, inr, ◌↔◌, ◌⊎◌,
}
use zekvok.Exception.{Result, ok, throw, ◌>>=◌, Exception, is_fatal, std_string}

pub data ℤ : Type 0 where
  pos : ℕ → ℤ
  negsuc : ℕ → ℤ

-- z + n, for a count n.
unfoldable pub plus : ℤ → ℕ → ℤ
plus (pos m) n = pos (m + n)
plus (negsuc m) n = if ltb m n then pos (n - suc m) else negsuc (m - n)

-- The comparison of a version, which is not negative, with a number.
unfoldable pub below : ℕ → ℤ → Bool
below x (pos v) = ltb x v
below x (negsuc v) = false

unfoldable pub is_negative : ℤ → Bool
is_negative (pos n) = false
is_negative (negsuc n) = true

-- versions.back() + 1, or 0 without a version; the count is kept once it is known.
unfoldable pub back_or : ℕ → List ℕ → ℕ
back_or d [] = d
back_or d (v ∷ vs) = back_or v vs

unfoldable pub get_version_count : Option ℕ → List ℕ → ℕ
get_version_count (some n) versions = n
get_version_count none [] = 0
get_version_count none (v ∷ vs) = back_or v vs + 1

-- std::lower_bound on the versions, which are sorted: the versions from the first that is not below.
unfoldable pub lower_bound : List ℕ → ℤ → List ℕ
lower_bound [] v = []
lower_bound (x ∷ xs) v = let rest = lower_bound xs v in if below x v then rest else x ∷ xs

unfoldable pub version_exists : List ℕ → ℤ → Bool
version_exists versions v = elim (lower_bound versions v) [ [] ↦ false | x ∷ xs ↦ true ]

-- The start of restore_backup: `none` where it returns without restoring.
unfoldable pub version_to_restore : List ℕ → ℤ → Result (Option ℤ)
version_to_restore [] v = ok none
version_to_restore (x ∷ xs) v =
    let number = if is_negative v then plus v (back_or x xs + 1) else v in
    if not (version_exists (x ∷ xs) number) then throw std_string else ok (some number)

-- full_verify: `verify` is the check of one version, `dependencies` what its manifest lists; an
-- exception that is not fatal is the verdict false.
unfoldable pub all_verified : (ℤ → Result Bool) → List ℤ → Result Bool
all_verified verify [] = ok true
all_verified verify (d ∷ deps) = do
  passed ← verify d
  if not passed then ok false else all_verified verify deps

abbrev pub holds : Result Bool → Bool
holds (ok b) = b
holds (throw e) = false

-- The catch of full_verify: a fatal exception goes on.
abbrev or_failed : Result Bool → Result Bool
or_failed (ok b) = ok b
or_failed (throw e) = if is_fatal e then throw e else ok false

unfoldable pub full_verify : (ℤ → Result Bool) → (ℤ → Result (List ℤ)) → ℤ → Result Bool
full_verify verify dependencies version =
    let verdict = do
      passed ← verify version
      if not passed then ok false else (dependencies version >>= all_verified verify)
    in or_failed verdict

-- Some version is not below the number.
abbrev pub AnyFrom : ℤ → List ℕ → Type 0
AnyFrom v [] = ⊥
AnyFrom v (x ∷ xs) = (below x v ≡ false) ⊎ AnyFrom v xs

-- version_exists does not look for the number: it holds exactly when some version is not below it.
pub version_exists-AnyFrom :
    (versions : List ℕ) (v : ℤ) → (version_exists versions v ≡ true) ↔ AnyFrom v versions
unfolding version_exists lower_bound
version_exists-AnyFrom [] v = (λ h. absurd (cc), λ h. absurd h)
version_exists-AnyFrom (x ∷ xs) v = elim (Bool-cases (below x v)) [
  | inl under ↦
      let rest = version_exists-AnyFrom xs v in
      rw (under, version_exists)
        (λ h. inr (rest.0 h), λ h. elim h [ inl a ↦ absurd (cc) | inr a ↦ rest.1 a ])
  | inr from ↦ rw (from, version_exists) (λ h. inl refl, λ h. refl)
]

abbrev pub Passes : (ℤ → Result Bool) → List ℤ → Type 0
Passes verify [] = Unit {0}
Passes verify (d ∷ deps) = (verify d ≡ ok true) × Passes verify deps

no : (◌≡◌ {A = Result Bool} (ok false) (ok true)) → ⊥
no e = let z : false ≡ true = ap holds e in cc

passed : (r : Result Bool) → holds r ≡ true → r ≡ ok true
passed (ok b) e = ap ok e
passed (throw x) e = absurd (cc)

abbrev listed : Result (List ℤ) → List ℤ
listed (ok xs) = xs
listed (throw e) = []

ok_injective : {xs ys : List ℤ} → (◌≡◌ {A = Result (List ℤ)} (ok xs) (ok ys)) → xs ≡ ys
ok_injective e = ap listed e

all_verified-Passes :
    (verify : ℤ → Result Bool) (deps : List ℤ)
    → (all_verified verify deps ≡ ok true) ↔ Passes verify deps
unfolding all_verified
all_verified-Passes verify [] = (λ h. tt, λ h. refl)
all_verified-Passes verify (d ∷ deps) =
    step (verify d) (all_verified verify deps) (Passes verify deps)
      (all_verified-Passes verify deps)
  where
    step :
        (r later : Result Bool) (P : Type 0)
        → (later ≡ ok true) ↔ P
        → ((r >>= λ passed. if not passed then ok false else later) ≡ ok true) ↔ ((r ≡ ok true) × P)
    step (throw x) later P h = (λ e. absurd (cc), λ e. absurd (let z = e.0 in cc))
    step (ok true) later P h = (λ e. (refl, h.0 e), λ e. h.1 e.1)
    step (ok false) later P h = (λ e. absurd (no e), λ e. absurd (no e.0))

verdict_of :
    (verify : ℤ → Result Bool) (r : Result Bool) (q : Result (List ℤ))
    → (holds (r >>= λ passed. if not passed then ok false else (q >>= all_verified verify)) ≡ true)
      ↔ ((r ≡ ok true) × ((deps : List ℤ) × (q ≡ ok deps) × Passes verify deps))
verdict_of verify (throw x) q = (λ e. absurd (cc), λ e. absurd (let z = e.0 in cc))
verdict_of verify (ok false) q = (λ e. absurd (cc), λ e. absurd (no e.0))
verdict_of verify (ok true) (throw x) = (λ e. absurd (cc), λ e. absurd (let z = e.1.1 in cc))
verdict_of verify (ok true) (ok deps) = (
  λ e. (
    refl,
    (deps, refl, (all_verified-Passes verify deps).0 (passed (all_verified verify deps) e)),
  ),
  λ (a, (ds, b, h)).
      ap holds
        ((all_verified-Passes verify deps).1 (subst (Passes verify) (sym (ok_injective b)) h)),
)

caught_true : (r : Result Bool) → (or_failed r ≡ ok true) ↔ (holds r ≡ true)
caught_true (ok b) = (λ e. ap holds e, λ e. ap ok e)
caught_true (throw x) = (λ e. absurd (caught x (is_fatal x) e), λ e. absurd (cc))
  where
    caught : (x : Exception) (b : Bool) → (if b then throw x else ok false) ≡ ok true → ⊥
    caught x true e = let z = e in cc
    caught x false e = no e

-- full_verify passes exactly when the version passes and its manifest lists dependencies that all
-- pass.
pub full_verify-Passes :
    (verify : ℤ → Result Bool) (dependencies : ℤ → Result (List ℤ)) (version : ℤ)
    → (full_verify verify dependencies version ≡ ok true) ↔ (
        (verify version ≡ ok true)
        × ((deps : List ℤ) × (dependencies version ≡ ok deps) × Passes verify deps))
unfolding full_verify
full_verify-Passes verify dependencies version =
    let verdict = verify version >>= λ passed.
    if not passed then ok false else (dependencies version >>= all_verified verify) in
    let inner = verdict_of verify (verify version) (dependencies version) in
    (λ e. inner.0 ((caught_true verdict).0 e), λ h. (caught_true verdict).1 (inner.1 h))
