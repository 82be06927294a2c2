-- ===== src/Threads/CircularQueue/Fifo.antt =====
-- CircularQueue of src/System/Threads.h is a FIFO of at most `capacity` values.
use native.Mathlib.Nat.{mod-eq_of_lt, mod-eq-sub-mod}
use zekvok.Prelude.{
  ℕ, zero, suc, ◌+◌, ◌-◌, ◌%◌, ◌≤◌, ◌<◌, ◌≡◌, ◌≢◌, refl, ap, ap₂, ◌∙◌, sym, true, false, none, some,
  List, [], ◌∷◌, ◌++◌, arith, ltb, ◌==◌, length, get_or, set, length-set, get_or-set_self,
  get_or-set_ne, dec_lt, Bool-cases, ltb→lt, tests, ==_iff, ◌⊎◌, inl, inr,
}
use zekvok.Threads.CircularQueue.{CircularQueue, push_attempt, pop_attempt, IsValid, span, contents}

wrap_cases :
    (cap h k : ℕ)
    → h < cap
    → k ≤ cap
    → ((h + k < cap) × ((h + k) % cap ≡ h + k)) ⊎ ((cap ≤ h + k) × ((h + k) % cap ≡ h + k - cap))
wrap_cases cap h k a b = elim (dec_lt (h + k) cap) [
  | yes p ↦ inl (p, mod-eq_of_lt p)
  | no p ↦ inr (
    omega arith,
    mod-eq-sub-mod {n = h + k} {m = cap} (omega arith)
        ∙ mod-eq_of_lt {n = h + k - cap} {m = cap} (omega arith),
  )
]

-- The next position, and the same slot counted from there.
next_in : (cap h : ℕ) → h < cap → (h + 1) % cap < cap
next_in cap h a = omega (arith, wrap_cases cap h 1 a (omega arith))

from_next : (cap h m : ℕ) → h < cap → m < cap → ((h + 1) % cap + m) % cap ≡ (h + suc m) % cap
from_next cap h m a b = omega (
  arith,
  wrap_cases cap h 1 a (omega arith),
  wrap_cases cap ((h + 1) % cap) m (next_in cap h a) (omega arith),
  wrap_cases cap h (suc m) a b,
)

not_here : (cap h m i : ℕ) → h < cap → suc m < cap → i ≡ (h + suc m) % cap → i ≢ h
not_here cap h m i a b e = omega (arith, wrap_cases cap h (suc m) a (omega arith))

module _ {ℓ} {A : Type ℓ} (d v : A) (cap : ℕ) where
  -- A write at distance m, at or past the end of a span of n, leaves the span alone.
  span-set_outside :
      (xs : List A) (n m h i : ℕ)
      → h < cap
      → n ≤ m
      → m < cap
      → i ≡ (h + m) % cap
      → span d cap (set xs i v) h n ≡ span d cap xs h n
  span-set_outside xs zero m h i a b c e = refl
  span-set_outside xs (suc n) zero h i a b c e = absurd (omega arith)
  span-set_outside xs (suc n) (suc m) h i a b c e =
      ap₂ ◌∷◌ (get_or-set_ne xs i h v d (not_here cap h m i a c e)) (
        span-set_outside xs n m ((h + 1) % cap) i (next_in cap h a) (omega arith) (omega arith)
          (e ∙ sym (from_next cap h m a (omega arith))))

  -- A write just past the span makes it longer by that value.
  span-set_end :
      (xs : List A) (n h i : ℕ)
      → length xs ≡ cap
      → h < cap
      → n < cap
      → i ≡ (h + n) % cap
      → span d cap (set xs i v) h (suc n) ≡ span d cap xs h n ++ v ∷ []
  span-set_end xs zero h i l a b e =
      ap (λ x. x ∷ [])
        (ap (λ k. get_or (set xs i v) k d)
            (let e' : h ≡ i = omega (arith, wrap_cases cap h 0 a (omega arith)) in e')
          ∙ get_or-set_self xs i v d (omega (arith, wrap_cases cap h 0 a (omega arith))))
  span-set_end xs (suc n) h i l a b e =
      ap₂ ◌∷◌ (get_or-set_ne xs i h v d (not_here cap h n i a b e)) (
        span-set_end xs n ((h + 1) % cap) i l (next_in cap h a) (omega arith)
          (e ∙ sym (from_next cap h n a (omega arith))))

module _ {ℓ} {A : Type ℓ} (d : A) where
  -- try_push's attempt adds at the back, exactly when there is room, and keeps the invariant.
  pub push_attempt_refines :
      (q : CircularQueue A) (x : A)
      → IsValid q
      → ((q.size ≡ q.capacity) × (push_attempt q x ≡ none))
        ⊎ ((room : q.size < q.capacity) × (r : CircularQueue A) × (push_attempt q x ≡ some r)
            × IsValid r
            × (contents d r ≡ contents d q ++ x ∷ []))
  unfolding push_attempt
  push_attempt_refines q x v = elim (Bool-cases (ltb q.size q.capacity)) [
    | inl room ↦ rw room (inr (ltb→lt _ _ room, _, refl, kept room, added room))
    | inr none_left ↦ rw none_left (inl (ground (arith, v.size_in), refl))
  ]
    where
      in_place : q.tail % q.capacity ≡ (q.head + q.size) % q.capacity
      in_place =
          ap (λ k. k % q.capacity) v.tail_at
          ∙ mod-eq_of_lt (omega (arith, wrap_cases q.capacity q.head q.size v.head_in v.size_in))

      kept :
          ltb q.size q.capacity ≡ true
          → IsValid (record q {
            slots = set q.slots (q.tail % q.capacity) x;
            tail = (q.tail + 1) % q.capacity;
            size = q.size + 1;
          })
      kept room = record {
        storage = length-set q.slots _ x ∙ v.storage;
        head_in = v.head_in;
        size_in = omega tests;
        tail_at = omega (
          arith,
          ltb→lt _ _ room,
          v.tail_at,
          wrap_cases q.capacity q.head q.size v.head_in v.size_in,
          wrap_cases q.capacity q.head (q.size + 1) v.head_in (omega (arith, ltb→lt _ _ room)),
          wrap_cases q.capacity q.tail 1
              (omega (arith, v.tail_at, wrap_cases q.capacity q.head q.size v.head_in v.size_in))
              (omega (arith, v.head_in)),
        );
      }

      added :
          ltb q.size q.capacity ≡ true
          → span d q.capacity (set q.slots (q.tail % q.capacity) x) q.head (q.size + 1)
            ≡ contents d q ++ x ∷ []
      added room =
          ap (span d q.capacity (set q.slots (q.tail % q.capacity) x) q.head)
            (let e : q.size + 1 ≡ suc q.size = omega arith in e)
          ∙ span-set_end d x q.capacity q.slots q.size q.head _ v.storage v.head_in
              (ltb→lt _ _ room) in_place

  -- try_pop's attempt takes the oldest value, exactly when there is one.
  pub pop_attempt_refines :
      (q : CircularQueue A)
      → IsValid q
      → ((contents d q ≡ []) × (pop_attempt d q ≡ none))
        ⊎ ((x : A) × (r : CircularQueue A) × (pop_attempt d q ≡ some (x, r))
            × IsValid r
            × (contents d q ≡ x ∷ contents d r))
  unfolding pop_attempt
  pop_attempt_refines q v = elim (Bool-cases (q.size == 0)) [
    | inl empty ↦
        rw empty (inl (ap (span d q.capacity q.slots q.head) ((==_iff _ _).0 empty), refl))
    | inr more ↦ rw more (inr (get_or q.slots q.head d, _, refl, kept more, taken more))
  ]
    where
      kept :
          (q.size == 0) ≡ false
          → IsValid (record q {
            slots = set q.slots q.head d;
            head = (q.head + 1) % q.capacity;
            size = q.size - 1;
          })
      kept more = record {
        storage = length-set q.slots _ d ∙ v.storage;
        head_in = next_in q.capacity q.head v.head_in;
        size_in = omega (arith, v.size_in);
        tail_at =
            v.tail_at
            ∙ ap (λ k. (q.head + k) % q.capacity)
                (let e : q.size ≡ suc (q.size - 1) = ground arith in e)
            ∙ sym (from_next q.capacity q.head (q.size - 1) v.head_in (ground (arith, v.size_in)));
      }

      taken :
          (q.size == 0) ≡ false
          → contents d q
            ≡ get_or q.slots q.head d
              ∷ span d q.capacity (set q.slots q.head d) ((q.head + 1) % q.capacity) (q.size - 1)
      taken more =
          ap (span d q.capacity q.slots q.head)
            (let e : q.size ≡ suc (q.size - 1) = ground arith in e)
          ∙ ap (◌∷◌ (get_or q.slots q.head d)) (
              sym (
                span-set_outside d d q.capacity q.slots (q.size - 1) (q.capacity - 1)
                  ((q.head + 1) % q.capacity) q.head (next_in q.capacity q.head v.head_in)
                  (omega (arith, v.size_in)) (omega (arith, v.head_in)) back))
        where
          back : q.head ≡ ((q.head + 1) % q.capacity + (q.capacity - 1)) % q.capacity
          back = omega (
            arith,
            v.head_in,
            from_next q.capacity q.head (q.capacity - 1) v.head_in (omega (arith, v.head_in)),
            wrap_cases q.capacity q.head (suc (q.capacity - 1)) v.head_in
                (omega (arith, v.head_in)),
          )
