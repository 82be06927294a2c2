-- ===== src/Threads/Pool.antt =====
-- ThreadPool and ThreadWrapper of src/System/Threads.h and src/System/Threads.cpp: which wrapper has which
-- thread. The mutex makes allocate_thread and release_thread one step each.
mod Invariant
mod Tests
use zekvok.Prelude.{
  ℕ, ◌+◌, max, ◌==◌, Option, none, some, List, [], ◌∷◌, ◌++◌, length, if◌then◌else◌,
}

-- A thread is the number of the threads that were made before it. The back of the vector of inactive
-- threads is the head of the list.
pub record ThreadPool : Type 0 where
  pub all_threads : List ℕ
  pub inactive_threads : List ℕ

abbrev pub thread_pool : ThreadPool
thread_pool = record { all_threads = []; inactive_threads = [] }

-- A wrapper is its pointer.
abbrev pub ThreadWrapper : Type 0
ThreadWrapper = Option ℕ

unfoldable pub allocate_thread : ThreadPool → ThreadWrapper × ThreadPool
allocate_thread pool = elim pool.inactive_threads [
  | t ∷ rest ↦ (some t, record pool { inactive_threads = rest })
  | [] ↦
      let t = length pool.all_threads in
      (some t, record pool { all_threads = t ∷ pool.all_threads })
]

unfoldable pub release_thread : ℕ → ThreadPool → ThreadPool
release_thread t pool = record pool { inactive_threads = t ∷ pool.inactive_threads }

-- The move assignment and the move constructor: what the target had is not released.
unfoldable pub assign : ThreadWrapper → ThreadWrapper → ThreadWrapper × ThreadWrapper
assign this tw = (tw, none)

-- The threads that no wrapper has and that were not released, when a wrapper is overwritten.
unfoldable pub lost : ThreadWrapper → List ℕ → List ℕ
lost none leaked = leaked
lost (some t) leaked = t ∷ leaked

-- The destructor calls it too.
unfoldable pub reset : ThreadWrapper → ThreadPool → ThreadWrapper × ThreadPool
unfolding release_thread
reset none pool = (none, pool)
reset (some t) pool = (none, release_thread t pool)

-- How often a thread is in a list, and how many wrappers have it.
unfoldable pub count : ℕ → List ℕ → ℕ
count t [] = 0
count t (x ∷ xs) = (if t == x then 1 else 0) + count t xs

unfoldable pub holds : ℕ → ThreadWrapper → ℕ
holds t none = 0
holds t (some x) = if t == x then 1 else 0

unfoldable pub owned : ℕ → List ThreadWrapper → ℕ
unfolding holds
owned t [] = 0
owned t (w ∷ ws) = holds t w + owned t ws

-- How many wrappers have a thread.
unfoldable pub used : ThreadWrapper → ℕ
used none = 0
used (some x) = 1

unfoldable pub in_use : List ThreadWrapper → ℕ
unfolding used
in_use [] = 0
in_use (w ∷ ws) = used w + in_use ws

-- What a program can do with wrappers: the largest number of threads that wrappers had or that were lost
-- at one time, the pool, the wrappers and the lost threads.
pub data Reach : ℕ → ThreadPool → List ThreadWrapper → List ℕ → Type 0 where
  started : Reach 0 thread_pool [] []
  declared :
      {n : ℕ} {pool : ThreadPool} {ws : List ThreadWrapper} {leaked : List ℕ}
      → Reach n pool ws leaked
      → Reach n pool (none ∷ ws) leaked
  allocated :
      {n : ℕ} {pool : ThreadPool} {leaked : List ℕ} (front : List ThreadWrapper) (w : ThreadWrapper)
      (back : List ThreadWrapper)
      → Reach n pool (front ++ w ∷ back) leaked
      → Reach
          (max n (
            in_use (front ++ (assign w (allocate_thread pool).0).0 ∷ back)
            + length (lost w leaked)))
          (allocate_thread pool).1
          (front ++ (assign w (allocate_thread pool).0).0 ∷ back)
          (lost w leaked)
  was_reset :
      {n : ℕ} {pool : ThreadPool} {leaked : List ℕ} (front : List ThreadWrapper) (w : ThreadWrapper)
      (back : List ThreadWrapper)
      → Reach n pool (front ++ w ∷ back) leaked
      → Reach n (reset w pool).1 (front ++ (reset w pool).0 ∷ back) leaked
  destroyed :
      {n : ℕ} {pool : ThreadPool} {leaked : List ℕ} (front : List ThreadWrapper) (w : ThreadWrapper)
      (back : List ThreadWrapper)
      → Reach n pool (front ++ w ∷ back) leaked
      → Reach n (reset w pool).1 (front ++ back) leaked
  moved_left :
      {n : ℕ} {pool : ThreadPool} {leaked : List ℕ} (front : List ThreadWrapper) (a : ThreadWrapper)
      (middle : List ThreadWrapper) (b : ThreadWrapper) (back : List ThreadWrapper)
      → Reach n pool (front ++ a ∷ (middle ++ b ∷ back)) leaked
      → Reach n pool (front ++ (assign a b).0 ∷ (middle ++ (assign a b).1 ∷ back)) (lost a leaked)
  moved_right :
      {n : ℕ} {pool : ThreadPool} {leaked : List ℕ} (front : List ThreadWrapper) (a : ThreadWrapper)
      (middle : List ThreadWrapper) (b : ThreadWrapper) (back : List ThreadWrapper)
      → Reach n pool (front ++ a ∷ (middle ++ b ∷ back)) leaked
      → Reach n pool (front ++ (assign b a).1 ∷ (middle ++ (assign b a).0 ∷ back)) (lost b leaked)
  moved_to_itself :
      {n : ℕ} {pool : ThreadPool} {leaked : List ℕ} (front : List ThreadWrapper) (w : ThreadWrapper)
      (back : List ThreadWrapper)
      → Reach n pool (front ++ w ∷ back) leaked
      → Reach n pool (front ++ (assign w w).1 ∷ back) (lost w leaked)
