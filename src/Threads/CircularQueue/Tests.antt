-- ===== src/Threads/CircularQueue/Tests.antt =====
-- Runs of the circular queue of src/System/Threads.h.
use zekvok.Prelude.{ℕ, ◌<◌, ◌≡◌, refl, [], ◌∷◌, ◌++◌, none, some, arith, ◌⊎◌}
use zekvok.Threads.CircularQueue.{CircularQueue, IsValid, push_attempt, pop_attempt, contents}
use zekvok.Threads.CircularQueue.Fifo.{push_attempt_refines, pop_attempt_refines}

-- Three of four slots are used, round the end of the array.
abbrev round_the_end : CircularQueue ℕ
round_the_end = record { slots = 30 ∷ 0 ∷ 10 ∷ 20 ∷ []; head = 2; tail = 1; size = 3; capacity = 4 }

round_the_end-IsValid : IsValid round_the_end
round_the_end-IsValid = record {
  storage = refl;
  head_in = omega arith;
  size_in = omega arith;
  tail_at = refl;
}

push_attempt_refines_example :
    ((round_the_end.size ≡ 4) × (push_attempt round_the_end 40 ≡ none))
    ⊎ ((room : 3 < 4) × (r : CircularQueue ℕ) × (push_attempt round_the_end 40 ≡ some r)
        × IsValid r
        × (contents 0 r ≡ contents 0 round_the_end ++ 40 ∷ []))
push_attempt_refines_example = push_attempt_refines 0 round_the_end 40 round_the_end-IsValid

pop_attempt_refines_example :
    ((contents 0 round_the_end ≡ []) × (pop_attempt 0 round_the_end ≡ none))
    ⊎ ((x : ℕ) × (r : CircularQueue ℕ) × (pop_attempt 0 round_the_end ≡ some (x, r))
        × IsValid r
        × (contents 0 round_the_end ≡ x ∷ contents 0 r))
pop_attempt_refines_example = pop_attempt_refines 0 round_the_end round_the_end-IsValid
