-- ===== src/Threads/Handshake/Liveness.antt =====
-- run(), join() and stop() of PooledThread return: no state of Handshake is a deadlock, and every step
-- of either thread uses up some of the work that is left.
use zekvok.Prelude.{
  ℕ, zero, suc, ◌+◌, ◌≤◌, ◌<◌, ◌≡◌, refl, Bool, true, false, Option, none, some, arith, ◌⊎◌, inl,
  inr, ◌≢◌, Option-cases, Bool-cases, ◌∙◌,
}
use zekvok.Threads.Handshake.{
  Shared, Caller, free, busy, gone, store_job, set_ready, signal_ready, check_running, wait_running,
  set_no_request, signal_no_request, check_joined, wait_joined, set_terminate, signal_terminate,
  await_exit, Worker, report_waiting, signal_waiting, check_request, wait_request, take_job,
  report_running, signal_running, check_no_request, wait_no_request, run_job, report_stopped,
  signal_stopped, finished, caller_step, worker_step, by_caller, by_worker, Reach, next,
}
use zekvok.Threads.Handshake.Invariant.{Inv, Reach-Inv, is_some}

-- The steps that are left to a thread before it blocks for good; a signal costs two, the turn of a wait
-- that it allows, and a job twenty, the round of the pooled thread that executes it.
caller_work : Caller → ℕ
caller_work (store_job j) = 31
caller_work set_ready = 10
caller_work signal_ready = 9
caller_work check_running = 6
caller_work wait_running = 5
caller_work set_no_request = 4
caller_work signal_no_request = 3
caller_work check_joined = 2
caller_work wait_joined = 1
caller_work set_terminate = 5
caller_work signal_terminate = 4
caller_work await_exit = 1
caller_work _ = 0

worker_work : Worker → ℕ
worker_work report_running = 17
worker_work signal_running = 16
worker_work check_no_request = 13
worker_work wait_no_request = 12
worker_work run_job = 11
worker_work report_waiting = 10
worker_work signal_waiting = 9
worker_work check_request = 6
worker_work wait_request = 5
worker_work take_job = 5
worker_work report_stopped = 4
worker_work signal_stopped = 3
worker_work finished = 0

cost : ℕ → Bool → ℕ
cost n true = n
cost n false = 0

-- A bound on the steps that are left.
work : Caller → Worker → Shared → ℕ
unfolding caller_work worker_work cost
work c w m =
    caller_work c
    + worker_work w
    + cost 2 m.request_signalled
    + cost 2 m.report_signalled
    + cost 20 (is_some m.job)

caller_step-lt-work :
    (c c' : Caller) (w : Worker) (m m' : Shared)
    → caller_step c w m ≡ some (c', m')
    → work c' w m' < work c w m
unfolding caller_step work
caller_step-lt-work (store_job j) c' w m m' e = ground arith
caller_step-lt-work c c' w m m' e = ground arith

job_to_take : (c : Caller) (m : Shared) → Inv c take_job m → is_some m.job ≡ true
job_to_take signal_ready m v = v.offer
job_to_take check_running m v = v.offer
job_to_take wait_running m v = v.offer
job_to_take c m v = absurd (ground arith)

worker_step-lt-work :
    (c : Caller) (w w' : Worker) (m m' : Shared)
    → Inv c w m
    → worker_step w m ≡ some (w', m')
    → work c w' m' < work c w m
unfolding worker_step work
worker_step-lt-work c take_job w' m m' v e = ground (arith, job_to_take c m v)
worker_step-lt-work c w w' m m' v e = ground arith

-- The caller is in none of the calls.
abbrev pub at_rest : Caller → Bool
at_rest free = true
at_rest busy = true
at_rest gone = true
at_rest _ = false

no_deadlock_lem :
    (c : Caller) (w : Worker) (m : Shared)
    → Inv c w m
    → at_rest c ≡ false
    → caller_step c w m ≡ none
    → worker_step w m ≢ none
unfolding caller_step worker_step
no_deadlock_lem (store_job j) report_waiting m v a e e' = ground arith
no_deadlock_lem (store_job j) w m v a e e' = ground arith
no_deadlock_lem c report_waiting m v a e e' = ground arith
no_deadlock_lem c w m v a e e' = ground arith

-- Where the caller is when the call that it is in returns.
abbrev pub returns_to : Caller → Caller
returns_to free = free
returns_to gone = gone
returns_to check_joined = free
returns_to wait_joined = free
returns_to set_terminate = gone
returns_to signal_terminate = gone
returns_to await_exit = gone
returns_to _ = busy

caller_step-returns_to :
    (c c' : Caller) (w : Worker) (m m' : Shared)
    → caller_step c w m ≡ some (c', m')
    → returns_to c' ≡ returns_to c
unfolding caller_step
caller_step-returns_to (store_job j) c' w m m' e = ground arith
caller_step-returns_to c c' w m m' e = ground arith

at_rest-returns_to : (c : Caller) → at_rest c ≡ true → c ≡ returns_to c
at_rest-returns_to free h = refl
at_rest-returns_to c h = ground arith

abbrev worker_turn : Caller → Option (Worker × Shared) → Option (Caller × Worker × Shared)
worker_turn c none = none
worker_turn c (some (w', m')) = some (c, w', m')

abbrev caller_turn : Worker → Option (Caller × Shared) → Option (Caller × Worker × Shared)
caller_turn w none = none
caller_turn w (some (c', m')) = some (c', w, m')

abbrev or_else {ℓ} : {A : Type ℓ} → Option A → Option A → Option A
or_else none b = b
or_else (some a) b = some a

-- One step of the thread whose turn it is, or of the other where that one is blocked.
advance : Bool → Caller → Worker → Shared → Option (Caller × Worker × Shared)
advance true c w m = or_else (caller_turn w (caller_step c w m)) (worker_turn c (worker_step w m))
advance false c w m = or_else (worker_turn c (worker_step w m)) (caller_turn w (caller_step c w m))

-- Up to `n` steps, whose turns a scheduler chooses; it ends early where both threads are blocked.
unfoldable pub settle : (ℕ → Bool) → ℕ → Caller → Worker → Shared → Caller × Worker × Shared
unfolding advance
settle turn zero c w m = (c, w, m)
settle turn (suc n) c w m = elim (advance (turn n) c w m) [
  | none ↦ (c, w, m)
  | some (c', w', m') ↦ settle turn n c' w' m'
]

-- What one step of `advance` gives.
record Advanced (c : Caller) (w : Worker) (m : Shared) (c' : Caller) (w' : Worker) (m' : Shared)
    : Type 0 where
  reach : Reach c' w' m'
  less : work c' w' m' < work c w m
  same_call : returns_to c' ≡ returns_to c

module _ {c : Caller} {w : Worker} {m : Shared} (r : Reach c w m) where
  by_caller-Advanced :
      (c' : Caller) (m' : Shared) → caller_step c w m ≡ some (c', m') → Advanced c w m c' w m'
  by_caller-Advanced c' m' e = record {
    reach = next r (by_caller c c' w m m' e);
    less = caller_step-lt-work c c' w m m' e;
    same_call = caller_step-returns_to c c' w m m' e;
  }

  by_worker-Advanced :
      (w' : Worker) (m' : Shared) → worker_step w m ≡ some (w', m') → Advanced c w m c w' m'
  by_worker-Advanced w' m' e = record {
    reach = next r (by_worker c w w' m m' e);
    less = worker_step-lt-work c w w' m m' (Reach-Inv r) e;
    same_call = refl;
  }

  advance-cases :
      (b : Bool)
      → ((advance b c w m ≡ none) × (caller_step c w m ≡ none) × (worker_step w m ≡ none))
        ⊎ ((c' : Caller) × (w' : Worker) × (m' : Shared) × (advance b c w m ≡ some (c', w', m'))
            × Advanced c w m c' w' m')
  unfolding advance
  advance-cases true = elim (Option-cases (caller_step c w m)) [
    | inr ((c', m'), e) ↦ inr (c', w, m', rw e, by_caller-Advanced c' m' e)
    | inl e ↦ elim (Option-cases (worker_step w m)) [
      | inr ((w', m'), k) ↦ inr (c, w', m', rw (e, k), by_worker-Advanced w' m' k)
      | inl k ↦ inl (rw (e, k), e, k)
    ]
  ]
  advance-cases false = elim (Option-cases (worker_step w m)) [
    | inr ((w', m'), e) ↦ inr (c, w', m', rw e, by_worker-Advanced w' m' e)
    | inl e ↦ elim (Option-cases (caller_step c w m)) [
      | inr ((c', m'), k) ↦ inr (c', w, m', rw (e, k), by_caller-Advanced c' m' k)
      | inl k ↦ inl (rw (e, k), k, e)
    ]
  ]

  blocked_lem : caller_step c w m ≡ none → worker_step w m ≡ none → c ≡ returns_to c
  blocked_lem e k = elim (Bool-cases (at_rest c)) [
    | inl h ↦ at_rest-returns_to c h
    | inr h ↦ absurd (no_deadlock_lem c w m (Reach-Inv r) h e k)
  ]

settle_lem :
    {c : Caller} {w : Worker} {m : Shared} (turn : ℕ → Bool) (n : ℕ)
    → Reach c w m
    → work c w m ≤ n
    → (settle turn n c w m).0 ≡ returns_to c
unfolding settle
settle_lem {c} {w} {m} turn zero r h = elim (advance-cases r true) [
  | inl (_, e, k) ↦ blocked_lem r e k
  | inr (c', w', m', _, a) ↦ absurd (omega (arith, a.less))
]
settle_lem {c} {w} {m} turn (suc n) r h = elim (advance-cases r (turn n)) [
  | inl (g, e, k) ↦ rw (g, settle) (blocked_lem r e k)
  | inr (c', w', m', g, a) ↦
      rw (g, settle) (settle_lem turn n a.reach (omega (arith, a.less)) ∙ a.same_call)
]

pub settle-Reach :
    {c : Caller} {w : Worker} {m : Shared} (turn : ℕ → Bool) (n : ℕ)
    → Reach c w m
    → let t = settle turn n c w m in Reach t.0 t.1 t.2
unfolding settle
settle-Reach {c} {w} {m} turn zero r = r
settle-Reach {c} {w} {m} turn (suc n) r = elim (advance-cases r (turn n)) [
  | inl (g, e, k) ↦ rw (g, settle) r
  | inr (c', w', m', g, a) ↦ rw (g, settle) (settle-Reach turn n a.reach)
]

caller_work-le : (c : Caller) → caller_work c ≤ 31
unfolding caller_work
caller_work-le (store_job j) = omega arith
caller_work-le c = omega arith

worker_work-le : (w : Worker) → worker_work w ≤ 17
unfolding worker_work
worker_work-le report_running = omega arith
worker_work-le w = omega arith

work-le : (c : Caller) (w : Worker) (m : Shared) → work c w m ≤ 72
unfolding work
work-le c w m = ground (arith, caller_work-le c, worker_work-le w)

-- run(), join() and stop() return to a caller that joins each job before it runs another one or stops the
-- thread, as the stream processors do: from every state that the two threads reach so, under every
-- scheduler that runs a thread as long as one of the two can move, the caller stands at the return of
-- the call that it is in after 72 steps, and after any larger number of them. (A stop() right after a
-- run() is not among these calls, and can wait for ever.)
pub settle-returns_to :
    {c : Caller} {w : Worker} {m : Shared} (turn : ℕ → Bool) (n : ℕ)
    → Reach c w m
    → 72 ≤ n
    → (settle turn n c w m).0 ≡ returns_to c
settle-returns_to {c} {w} {m} turn n r h = settle_lem turn n r (omega (arith, work-le c w m))
