-- ===== src/Threads/Pool/Tests.antt =====
-- A wrapper is given a thread, and then the empty one beside it is moved onto it.
use zekvok.Prelude.{ℕ, ◌+◌, ◌≤◌, ◌≡◌, none, some, [], ◌∷◌, length}
use zekvok.Threads.Pool.{
  count, owned, Reach, started, declared, allocated, was_reset, moved_left, allocate_thread, reset,
  release_thread, assign, lost, in_use, used,
}
use zekvok.Threads.Pool.Invariant.{Reach-one_owner}

lost_thread :
    Reach 2
      (record { all_threads = 1 ∷ 0 ∷ []; inactive_threads = [] })
      (some 1 ∷ none ∷ [])
      (0 ∷ [])
unfolding allocate_thread reset release_thread assign in_use lost used
lost_thread = allocated [] none (none ∷ []) (
    moved_left [] (some 0) [] none [] (
      allocated [] none (none ∷ []) (
        was_reset [] (some 0) (none ∷ [])
          (allocated [] none (none ∷ []) (declared (declared started))))))

Reach-one_owner_example :
    ((t : ℕ) → count t [] + owned t (some 1 ∷ none ∷ []) + count t (0 ∷ []) ≤ 1)
    × (length {A = ℕ} (1 ∷ 0 ∷ []) ≡ 2)
Reach-one_owner_example = Reach-one_owner lost_thread
