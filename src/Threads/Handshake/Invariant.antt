-- ===== src/Threads/Handshake/Invariant.antt =====
-- What holds in every state that the two threads of Handshake reach.
use zekvok.Prelude.{
  ℕ, ◌≡◌, Bool, true, false, Option, none, some, List, [], ◌∷◌, ◌++◌, arith, append-nil,
}
use zekvok.Threads.Handshake.{
  RequestedState, no_request, job_ready, terminate, ReportedState, waiting_for_job, running_job,
  stopped, Shared, Caller, free, busy, gone, store_job, set_ready, signal_ready, check_running,
  wait_running, set_no_request, signal_no_request, check_joined, wait_joined, set_terminate,
  signal_terminate, await_exit, Worker, report_waiting, check_request, wait_request, take_job,
  report_running, signal_running, check_no_request, wait_no_request, run_job, report_stopped,
  signal_stopped, finished, pooled_thread, caller_step, worker_step, Step, call_run, call_join,
  call_stop, by_caller, by_worker, Reach, created, next,
}

-- The stages of the two programs.
pub data CallerStage : Type 0 where
  resting offered withdrawing launched terminating over : CallerStage

pub data WorkerStage : Type 0 where
  idle taking taken started ended exited : WorkerStage

abbrev pub caller_stage : Caller → CallerStage
caller_stage free = resting
caller_stage (store_job j) = resting
caller_stage set_ready = resting
caller_stage set_terminate = resting
caller_stage signal_ready = offered
caller_stage check_running = offered
caller_stage wait_running = offered
caller_stage set_no_request = withdrawing
caller_stage signal_no_request = launched
caller_stage busy = launched
caller_stage check_joined = launched
caller_stage wait_joined = launched
caller_stage signal_terminate = terminating
caller_stage await_exit = terminating
caller_stage gone = over

abbrev pub worker_stage : Worker → WorkerStage
worker_stage take_job = taking
worker_stage report_running = taken
worker_stage signal_running = started
worker_stage check_no_request = started
worker_stage wait_no_request = started
worker_stage run_job = started
worker_stage report_stopped = ended
worker_stage signal_stopped = ended
worker_stage finished = exited
worker_stage _ = idle

-- Which stages meet.
abbrev pub meets : CallerStage → WorkerStage → Bool
meets resting idle = true
meets offered idle = true
meets offered taking = true
meets offered taken = true
meets offered started = true
meets withdrawing started = true
meets launched started = true
meets launched idle = true
meets terminating idle = true
meets terminating ended = true
meets terminating exited = true
meets over exited = true
meets _ _ = false

-- The job runs only after the request is withdrawn.
abbrev pub may_run : CallerStage → Worker → Bool
may_run launched run_job = true
may_run _ run_job = false
may_run _ _ = true

abbrev pub request_at : CallerStage → RequestedState
request_at resting = no_request
request_at offered = job_ready
request_at withdrawing = job_ready
request_at launched = no_request
request_at terminating = terminate
request_at over = terminate

abbrev pub report_at : CallerStage → Worker → ReportedState
report_at launched report_waiting = running_job
report_at _ signal_running = running_job
report_at _ check_no_request = running_job
report_at _ wait_no_request = running_job
report_at _ run_job = running_job
report_at _ signal_stopped = stopped
report_at _ finished = stopped
report_at _ _ = waiting_for_job

-- Where the job is: with the caller's offer, or in the pooled thread's hands.
abbrev pub is_offered : Caller → WorkerStage → Bool
is_offered set_ready _ = true
is_offered signal_ready idle = true
is_offered check_running idle = true
is_offered wait_running idle = true
is_offered signal_ready taking = true
is_offered check_running taking = true
is_offered wait_running taking = true
is_offered _ _ = false

abbrev pub is_held : WorkerStage → Bool
is_held taken = true
is_held started = true
is_held _ = false

-- Where a thread waits for what has already happened.
abbrev pub worker_missed : Caller → Worker → Bool
worker_missed check_running wait_request = true
worker_missed wait_running wait_request = true
worker_missed await_exit wait_request = true
worker_missed busy wait_no_request = true
worker_missed check_joined wait_no_request = true
worker_missed wait_joined wait_no_request = true
worker_missed _ _ = false

abbrev pub caller_missed : Caller → Worker → Bool
caller_missed wait_running check_no_request = true
caller_missed wait_running wait_no_request = true
caller_missed wait_joined check_request = true
caller_missed wait_joined wait_request = true
caller_missed _ _ = false

abbrev pub is_some {ℓ} : {A : Type ℓ} → Option A → Bool
is_some none = false
is_some (some a) = true

-- The jobs that are submitted and not executed.
abbrev pub pending : Option ℕ → Option ℕ → List ℕ
pending none none = []
pending none (some k) = k ∷ []
pending (some j) none = j ∷ []
pending (some j) (some k) = j ∷ k ∷ []

pub record Inv (c : Caller) (w : Worker) (m : Shared) : Type 0 where
  pub meet : meets (caller_stage c) (worker_stage w) ≡ true
  pub runs : may_run (caller_stage c) w ≡ true
  pub request : m.requested ≡ request_at (caller_stage c)
  pub report : m.reported ≡ report_at (caller_stage c) w
  pub offer : is_some m.job ≡ is_offered c (worker_stage w)
  pub hold : is_some m.held ≡ is_held (worker_stage w)
  pub for_worker : worker_missed c w ≡ true → m.request_signalled ≡ true
  pub for_caller : caller_missed c w ≡ true → m.report_signalled ≡ true
  pub kept : m.submitted ≡ m.executed ++ pending m.held m.job

pooled_thread-Inv : Inv free report_waiting pooled_thread
pooled_thread-Inv = ground arith

call_run-Inv : (j : ℕ) (w : Worker) (m : Shared) → Inv free w m → Inv (store_job j) w m
call_run-Inv j report_waiting m v = ground arith
call_run-Inv j w m v = ground arith

call_stop-Inv : (w : Worker) (m : Shared) → Inv free w m → Inv set_terminate w m
call_stop-Inv report_waiting m v = ground arith
call_stop-Inv w m v = ground arith

call_join-Inv : (w : Worker) (m : Shared) → Inv busy w m → Inv check_joined w m
call_join-Inv report_waiting m v = ground arith
call_join-Inv w m v = ground arith

caller_step-Inv :
    (c c' : Caller) (w : Worker) (m m' : Shared)
    → caller_step c w m ≡ some (c', m')
    → Inv c w m
    → Inv c' w m'
unfolding caller_step
caller_step-Inv (store_job j) c' report_waiting m m' e v = ground (arith, append-nil m.executed)
caller_step-Inv (store_job j) c' w m m' e v = ground (arith, append-nil m.executed)
caller_step-Inv c c' report_waiting m m' e v = ground arith
caller_step-Inv c c' w m m' e v = ground arith

worker_step-Inv :
    (c : Caller) (w w' : Worker) (m m' : Shared)
    → worker_step w m ≡ some (w', m')
    → Inv c w m
    → Inv c w' m'
unfolding worker_step
worker_step-Inv (store_job j) report_waiting w' m m' e v = ground arith
worker_step-Inv free w w' m m' e v = ground arith
worker_step-Inv c run_job w' m m' e v =
    ground (arith, append-nil (m.executed ++ pending m.held m.job))
worker_step-Inv c report_waiting w' m m' e v = ground arith
worker_step-Inv c w w' m m' e v = ground arith

Step-Inv :
    {c c' : Caller} {w w' : Worker} {m m' : Shared} → Step c w m c' w' m' → Inv c w m → Inv c' w' m'
Step-Inv (call_run j w m) v = call_run-Inv j w m v
Step-Inv (call_join w m) v = call_join-Inv w m v
Step-Inv (call_stop w m) v = call_stop-Inv w m v
Step-Inv (by_caller c c' w m m' e) v = caller_step-Inv c c' w m m' e v
Step-Inv (by_worker c w w' m m' e) v = worker_step-Inv c w w' m m' e v

pub Reach-Inv : {c : Caller} {w : Worker} {m : Shared} → Reach c w m → Inv c w m
Reach-Inv created = pooled_thread-Inv
Reach-Inv (next r st) = Step-Inv st (Reach-Inv r)
