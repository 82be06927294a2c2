-- ===== src/Streams/Queue.antt =====
-- zstreams::Queue of src/StreamProcessor.h: a CircularQueue, and what its reader put back.
use zekvok.Prelude.{◌≡◌, refl, ap, ◌∙◌, Option, none, some, List, [], ◌∷◌, ◌++◌, ◌⊎◌, inl, inr}
use zekvok.Threads.CircularQueue.{CircularQueue, push_attempt, pop_attempt, IsValid, contents}
use zekvok.Threads.CircularQueue.Fifo.{pop_attempt_refines}

-- zstreams::Queue: what was put back, newest first, goes before what the source pushed.
pub record Queue {ℓ} (A : Type ℓ) : Type ℓ where
  pub putback : List A
  pub queue : CircularQueue A

module _ {ℓ} {A : Type ℓ} where
  pub put_back : A → Queue A → Queue A
  put_back s q = record q { putback = s ∷ q.putback }

  -- One attempt of Queue::try_pop.
  pub pop : A → Queue A → Option (A × Queue A)
  pop moved q = elim q.putback [
    | x ∷ rest ↦ some (x, record q { putback = rest })
    | [] ↦ elim (pop_attempt moved q.queue) [
      | some (x, r) ↦ some (x, record q { queue = r })
      | none ↦ none
    ]
  ]

  -- One attempt of Queue::try_push.
  pub push : A → Queue A → Option (Queue A)
  push x q = elim (push_attempt q.queue x) [ some r ↦ some (record q { queue = r }) | none ↦ none ]

  -- What the reader has still to see, in order.
  abbrev pub pending : A → Queue A → List A
  pending d q = q.putback ++ contents d q.queue

  pop_queue :
      (d : A) (q : Queue A) (pb : List A)
      → q.putback ≡ pb
      → IsValid q.queue
      → ((pending d q ≡ []) × (pop d q ≡ none))
        ⊎ ((x : A) × (r : Queue A) × (pop d q ≡ some (x, r))
            × IsValid r.queue
            × (pending d q ≡ x ∷ pending d r))
  unfolding pop
  pop_queue d q [] e v = elim (pop_attempt_refines d q.queue v) [
    | inl (nothing, waits) ↦
        inl (ap (λ xs. xs ++ contents d q.queue) e ∙ nothing, rw (e, waits, pop) refl)
    | inr (x, r, popped, w, order) ↦ inr (
      x,
      record { putback = []; queue = r },
      rw (e, popped, pop)
          (ap {B = Option (A × Queue A)} (λ pb. some (x, record { putback = pb; queue = r })) e),
      w,
      ap (λ xs. xs ++ contents d q.queue) e ∙ order,
    )
  ]
  pop_queue d q (x ∷ rest) e v =
      inr
        (x, record q { putback = rest }, rw (e, pop) refl, v, ap (λ xs. xs ++ contents d q.queue) e)

  -- Queue::try_pop yields what was put back last, and what was pushed first otherwise: it takes
  -- the head of `pending`, and fails only when nothing is pending.
  pop-pending :
      (d : A) (q : Queue A)
      → IsValid q.queue
      → ((pending d q ≡ []) × (pop d q ≡ none))
        ⊎ ((x : A) × (r : Queue A) × (pop d q ≡ some (x, r))
            × IsValid r.queue
            × (pending d q ≡ x ∷ pending d r))
  pop-pending d q v = pop_queue d q q.putback refl v
