-- ===== src/Threads/CircularQueue.antt =====
-- CircularQueue of src/System/Threads.h: a bounded FIFO in an array, behind a mutex.
pub mod Fifo
mod Tests
use zekvok.Prelude.{
  ℕ, zero, suc, ◌+◌, ◌-◌, ◌%◌, ◌≤◌, ◌<◌, ◌≡◌, ◌≢◌, refl, ap, ap₂, ◌∙◌, sym, Bool, true, false,
  Option, none, some, List, [], ◌∷◌, ◌++◌, arith, ltb, ◌==◌, if◌then◌else◌, length, get_or, set,
  length-set, get_or-set_self, get_or-set_ne, replicate, length-replicate, dec_lt, Bool-cases,
  ltb→lt, tests, ==_iff, ◌⊎◌, inl, inr,
}

pub record CircularQueue {ℓ} (A : Type ℓ) : Type ℓ where
  pub slots : List A
  pub head : ℕ
  pub tail : ℕ
  pub size : ℕ
  pub capacity : ℕ

module _ {ℓ} {A : Type ℓ} where
  -- The new array holds default values.
  pub new_queue : A → ℕ → CircularQueue A
  new_queue d max_size = record {
    slots = replicate max_size d;
    head = 0;
    tail = 0;
    size = 0;
    capacity = max_size;
  }

  -- One turn of the loop of try_push, under the mutex.
  pub push_attempt : CircularQueue A → A → Option (CircularQueue A)
  push_attempt q x =
      let n = q.capacity in
      if ltb q.size n
      then some (record q {
        slots = set q.slots (q.tail % n) x;
        tail = (q.tail + 1) % n;
        size = q.size + 1;
      })
      else none

  -- One turn of the loop of try_pop; `moved` is what a move leaves in the slot.
  pub pop_attempt : A → CircularQueue A → Option (A × CircularQueue A)
  pop_attempt moved q =
      if q.size == 0
      then none
      else some (
        get_or q.slots q.head moved,
        record q {
          slots = set q.slots q.head moved;
          head = (q.head + 1) % q.capacity;
          size = q.size - 1;
        },
      )

  -- Two attempts; `others` is what the other threads do to the queue during the wait between them.
  pub try_push : (CircularQueue A → CircularQueue A) → CircularQueue A → A → Bool × CircularQueue A
  unfolding push_attempt
  try_push others q x = elim (push_attempt q x) [
    | some q' ↦ (true, q')
    | none ↦ elim (push_attempt (others q) x) [ some q' ↦ (true, q') | none ↦ (false, others q) ]
  ]

  pub try_pop :
      A → (CircularQueue A → CircularQueue A) → CircularQueue A → Option A × CircularQueue A
  unfolding pop_attempt
  try_pop moved others q = elim (pop_attempt moved q) [
    | some (x, q') ↦ (some x, q')
    | none ↦ elim (pop_attempt moved (others q)) [
      | some (x, q') ↦ (some x, q')
      | none ↦ (none, others q)
    ]
  ]

  pub record IsValid (q : CircularQueue A) : Type 0 where
    pub storage : length q.slots ≡ q.capacity
    pub head_in : q.head < q.capacity
    pub size_in : q.size ≤ q.capacity
    pub tail_at : q.tail ≡ (q.head + q.size) % q.capacity

  module _ (d : A) (cap : ℕ) where
    -- The `n` values from index `h` on, round the end of the array.
    abbrev pub span : List A → ℕ → ℕ → List A
    span xs h zero = []
    span xs h (suc n) = get_or xs h d ∷ span xs ((h + 1) % cap) n

  -- The values in the order of their insertion.
  abbrev pub contents : A → CircularQueue A → List A
  contents d q = span d q.capacity q.slots q.head q.size
