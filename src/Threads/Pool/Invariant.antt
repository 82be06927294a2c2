-- ===== src/Threads/Pool/Invariant.antt =====
-- No thread has two owners, and no more threads are made than were needed or lost at one time.
use zekvok.Prelude.{
  ℕ, suc, ◌+◌, ◌≤◌, max, ◌≡◌, refl, ◌==◌, none, some, List, [], ◌∷◌, ◌++◌, length, arith,
  if◌then◌else◌,
}
use zekvok.Threads.Pool.{
  ThreadPool, ThreadWrapper, allocate_thread, release_thread, assign, lost, reset, count, holds,
  owned, used, in_use, Reach, started, declared, allocated, was_reset, destroyed, moved_left,
  moved_right, moved_to_itself,
}

-- What holds of a pool, the wrappers and the lost threads when at most n threads were needed.
record IsOwned (n : ℕ) (pool : ThreadPool) (ws : List ThreadWrapper) (leaked : List ℕ)
    : Type 0 where
  balance :
      (t : ℕ)
      → count t pool.inactive_threads + owned t ws + count t leaked ≡ count t pool.all_threads
  fresh : (t : ℕ) → length pool.all_threads ≤ t → count t pool.all_threads ≡ 0
  once : (t : ℕ) → count t pool.all_threads ≤ 1
  total : length pool.inactive_threads + in_use ws + length leaked ≡ length pool.all_threads
  peak : length pool.all_threads ≡ n

owned-append : (t : ℕ) (xs ys : List ThreadWrapper) → owned t (xs ++ ys) ≡ owned t xs + owned t ys
unfolding owned
owned-append t [] ys = omega arith
owned-append t (w ∷ xs) ys = let ih = owned-append t xs ys in omega (arith, ih)

in_use-append : (xs ys : List ThreadWrapper) → in_use (xs ++ ys) ≡ in_use xs + in_use ys
unfolding in_use
in_use-append [] ys = omega arith
in_use-append (w ∷ xs) ys = let ih = in_use-append xs ys in omega (arith, ih)

-- A wrapper in the middle.
owned_middle :
    (t : ℕ) (w : ThreadWrapper) (front back : List ThreadWrapper)
    → owned t (front ++ w ∷ back) ≡ holds t w + owned t (front ++ back)
unfolding owned
owned_middle t w front back =
    omega (arith, owned-append t front (w ∷ back), owned-append t front back)

in_use_middle :
    (w : ThreadWrapper) (front back : List ThreadWrapper)
    → in_use (front ++ w ∷ back) ≡ used w + in_use (front ++ back)
unfolding in_use
in_use_middle w front back = omega (arith, in_use-append front (w ∷ back), in_use-append front back)

-- Two of them.
owned_two :
    (t : ℕ) (a b : ThreadWrapper) (front middle back : List ThreadWrapper)
    → owned t (front ++ a ∷ (middle ++ b ∷ back))
      ≡ holds t a + holds t b + owned t (front ++ (middle ++ back))
owned_two t a b front middle back = omega (
  arith,
  owned_middle t a front (middle ++ b ∷ back),
  owned_middle t b middle back,
  owned-append t front (middle ++ b ∷ back),
  owned-append t front (middle ++ back),
)

in_use_two :
    (a b : ThreadWrapper) (front middle back : List ThreadWrapper)
    → in_use (front ++ a ∷ (middle ++ b ∷ back))
      ≡ used a + used b + in_use (front ++ (middle ++ back))
in_use_two a b front middle back = omega (
  arith,
  in_use_middle a front (middle ++ b ∷ back),
  in_use_middle b middle back,
  in_use-append front (middle ++ b ∷ back),
  in_use-append front (middle ++ back),
)

count-lost :
    (t : ℕ) (w : ThreadWrapper) (leaked : List ℕ)
    → count t (lost w leaked) ≡ holds t w + count t leaked
unfolding count lost holds
count-lost t none leaked = omega arith
count-lost t (some x) leaked = refl

length-lost :
    (w : ThreadWrapper) (leaked : List ℕ) → length (lost w leaked) ≡ used w + length leaked
unfolding lost used
length-lost none leaked = omega arith
length-lost (some x) leaked = omega arith

count_fresh : (t n c : ℕ) → suc n ≤ t → c ≡ 0 → (if t == n then 1 else 0) + c ≡ 0
count_fresh t n c = ground arith

count_once : (t n c : ℕ) → (n ≤ t → c ≡ 0) → c ≤ 1 → (if t == n then 1 else 0) + c ≤ 1
count_once t n c = ground arith

-- The wrappers and the lost threads have the same threads as before, and the pool is the same.
same-IsOwned :
    (n : ℕ) (pool : ThreadPool) (ws vs : List ThreadWrapper) (leaked after : List ℕ)
    → ((t : ℕ) → owned t vs + count t after ≡ owned t ws + count t leaked)
    → in_use vs + length after ≡ in_use ws + length leaked
    → IsOwned n pool ws leaked
    → IsOwned n pool vs after
same-IsOwned n pool ws vs leaked after owners number h = record {
  balance = λ t. let b = h.balance t in let o = owners t in omega (arith, b, o);
  fresh = h.fresh;
  once = h.once;
  total = let b = h.total in omega (arith, b, number);
  peak = h.peak;
}

allocate-IsOwned :
    (n : ℕ) (all inactive : List ℕ) (front : List ThreadWrapper) (w : ThreadWrapper)
    (back : List ThreadWrapper) (leaked : List ℕ)
    → IsOwned n
        (record { all_threads = all; inactive_threads = inactive })
        (front ++ w ∷ back)
        leaked
    → let pool : ThreadPool = record { all_threads = all; inactive_threads = inactive } in
      IsOwned
        (max n (in_use (front ++ (allocate_thread pool).0 ∷ back) + length (lost w leaked)))
        (allocate_thread pool).1
        (front ++ (allocate_thread pool).0 ∷ back)
        (lost w leaked)
unfolding allocate_thread count holds used
allocate-IsOwned n all (x ∷ rest) front w back leaked h =
    let now = in_use_middle (some x) front back in
    let before = in_use_middle w front back in
    let gone = length-lost w leaked in
    record {
      balance = λ t.
          let b = h.balance t in
          omega (
            arith,
            b,
            owned_middle t (some x) front back,
            owned_middle t w front back,
            count-lost t w leaked,
          );
      fresh = h.fresh;
      once = h.once;
      total = let b = h.total in omega (arith, b, now, before, gone);
      peak = let b = h.total in let c = h.peak in omega (arith, b, c, now, before, gone);
    }
allocate-IsOwned n all [] front w back leaked h =
    let now = in_use_middle (some (length all)) front back in
    let before = in_use_middle w front back in
    let gone = length-lost w leaked in
    record {
      balance = λ t.
          let b = h.balance t in
          omega (
            arith,
            b,
            owned_middle t (some (length all)) front back,
            owned_middle t w front back,
            count-lost t w leaked,
          );
      fresh = λ t above.
          count_fresh t (length all) (count t all) above (h.fresh t (omega (arith, above)));
      once = λ t. count_once t (length all) (count t all) (h.fresh t) (h.once t);
      total = let b = h.total in omega (arith, b, now, before, gone);
      peak = let b = h.total in let c = h.peak in omega (arith, b, c, now, before, gone);
    }

-- A wrapper gives its thread back, and the other wrappers are `vs`.
reset-IsOwned :
    (n : ℕ) (pool : ThreadPool) (ws vs : List ThreadWrapper) (w : ThreadWrapper) (leaked : List ℕ)
    → ((t : ℕ) → owned t ws ≡ holds t w + owned t vs)
    → in_use ws ≡ used w + in_use vs
    → IsOwned n pool ws leaked
    → IsOwned n (reset w pool).1 vs leaked
unfolding reset release_thread count holds used
reset-IsOwned n pool ws vs none leaked owners number h = record {
  balance = λ t. let b = h.balance t in let o = owners t in omega (arith, b, o);
  fresh = h.fresh;
  once = h.once;
  total = let b = h.total in omega (arith, b, number);
  peak = h.peak;
}
reset-IsOwned n pool ws vs (some x) leaked owners number h = record {
  balance = λ t. let b = h.balance t in let o = owners t in omega (arith, b, o);
  fresh = h.fresh;
  once = h.once;
  total = let b = h.total in omega (arith, b, number);
  peak = h.peak;
}

reset_empty : (w : ThreadWrapper) (pool : ThreadPool) → (reset w pool).0 ≡ none
unfolding reset
reset_empty none pool = refl
reset_empty (some x) pool = refl

holds-none : (t : ℕ) (w : ThreadWrapper) → w ≡ none → holds t w ≡ 0
unfolding holds
holds-none t w e = rw e refl

used-none : (w : ThreadWrapper) → w ≡ none → used w ≡ 0
unfolding used
used-none w e = rw e refl

Reach-IsOwned :
    {n : ℕ} {pool : ThreadPool} {ws : List ThreadWrapper} {leaked : List ℕ}
    → Reach n pool ws leaked
    → IsOwned n pool ws leaked
unfolding assign count owned in_use holds used
Reach-IsOwned started = record {
  balance = λ t. refl;
  fresh = λ t above. refl;
  once = λ t. omega arith;
  total = refl;
  peak = refl;
}
Reach-IsOwned (declared {n} {pool} {ws} {leaked} r) =
    same-IsOwned n pool ws (none ∷ ws) leaked leaked (λ t. omega arith) (omega arith)
      (Reach-IsOwned r)
Reach-IsOwned (allocated {n} {pool} {leaked} front w back r) =
    allocate-IsOwned n pool.all_threads pool.inactive_threads front w back leaked (Reach-IsOwned r)
Reach-IsOwned (was_reset {n} {pool} {leaked} front w back r) =
    reset-IsOwned n pool (front ++ w ∷ back) (front ++ (reset w pool).0 ∷ back) w leaked
      (λ t. omega (
        arith,
        owned_middle t w front back,
        owned_middle t (reset w pool).0 front back,
        holds-none t (reset w pool).0 (reset_empty w pool),
      ))
      (omega (
        arith,
        in_use_middle w front back,
        in_use_middle (reset w pool).0 front back,
        used-none (reset w pool).0 (reset_empty w pool),
      ))
      (Reach-IsOwned r)
Reach-IsOwned (destroyed {n} {pool} {leaked} front w back r) =
    reset-IsOwned n pool (front ++ w ∷ back) (front ++ back) w leaked
      (λ t. owned_middle t w front back) (in_use_middle w front back) (Reach-IsOwned r)
Reach-IsOwned (moved_left {n} {pool} {leaked} front a middle b back r) =
    same-IsOwned n pool (front ++ a ∷ (middle ++ b ∷ back)) (front ++ b ∷ (middle ++ none ∷ back))
      leaked (lost a leaked)
      (λ t. omega (
        arith,
        owned_two t a b front middle back,
        owned_two t b none front middle back,
        count-lost t a leaked,
      ))
      (omega (
        arith,
        in_use_two a b front middle back,
        in_use_two b none front middle back,
        length-lost a leaked,
      ))
      (Reach-IsOwned r)
Reach-IsOwned (moved_right {n} {pool} {leaked} front a middle b back r) =
    same-IsOwned n pool (front ++ a ∷ (middle ++ b ∷ back)) (front ++ none ∷ (middle ++ a ∷ back))
      leaked (lost b leaked)
      (λ t. omega (
        arith,
        owned_two t a b front middle back,
        owned_two t none a front middle back,
        count-lost t b leaked,
      ))
      (omega (
        arith,
        in_use_two a b front middle back,
        in_use_two none a front middle back,
        length-lost b leaked,
      ))
      (Reach-IsOwned r)
Reach-IsOwned (moved_to_itself {n} {pool} {leaked} front w back r) =
    same-IsOwned n pool (front ++ w ∷ back) (front ++ none ∷ back) leaked (lost w leaked)
      (λ t.
        omega (
          arith,
          owned_middle t w front back,
          owned_middle t none front back,
          count-lost t w leaked,
        ))
      (omega
        (arith, in_use_middle w front back, in_use_middle none front back, length-lost w leaked))
      (Reach-IsOwned r)

-- Wrappers are declared, given a thread of the pool, moved onto any other or onto themselves, reset and
-- destroyed, in any order. A thread that a wrapper has is then in no other wrapper and not inactive. What
-- a wrapper had when another was moved onto it is lost: no wrapper has it and it is not inactive. The pool
-- has made exactly as many threads as wrappers had or had lost at one time at the most.
pub Reach-one_owner :
    {n : ℕ} {pool : ThreadPool} {ws : List ThreadWrapper} {leaked : List ℕ}
    → Reach n pool ws leaked
    → ((t : ℕ) → count t pool.inactive_threads + owned t ws + count t leaked ≤ 1)
      × (length pool.all_threads ≡ n)
Reach-one_owner r =
    let h = Reach-IsOwned r in
    (λ t. (let b = h.balance t in let c = h.once t in omega (arith, b, c)), h.peak)
