-- ===== src/Threads/Handshake.antt =====
-- PooledThread of src/System/Threads.h and src/System/Threads.cpp: the thread that calls run(), join()
-- and stop(), and the pooled thread itself, as two programs that share four variables and two events.
-- One step is one load or store of an atomic, one call of Event::signal, or one return of Event::wait,
-- and the two threads' steps interleave in any order.
mod Invariant
mod Liveness
mod Tests
use zekvok.Prelude.{
  ℕ, ◌+◌, ◌*◌, ◌≡◌, Bool, true, false, Option, none, some, List, [], ◌∷◌, ◌++◌, if◌then◌else◌,
}

pub data RequestedState : Type 0 where
  no_request job_ready terminate : RequestedState

pub data ReportedState : Type 0 where
  waiting_for_job running_job stopping stopped : ReportedState

-- What the two threads share, the pooled thread's local variable `job` as `held`, and two records of
-- what happened: the jobs passed to run(), and the jobs that were executed.
pub record Shared : Type 0 where
  pub requested : RequestedState
  pub reported : ReportedState
  pub request_signalled : Bool
  pub report_signalled : Bool
  pub job : Option ℕ
  pub held : Option ℕ
  pub submitted : List ℕ
  pub executed : List ℕ

-- Where the caller stands. Between calls it is `free`, or `busy` with a job that is not joined yet.
pub data Caller : Type 0 where
  free busy gone : Caller
  store_job : ℕ → Caller
  set_ready signal_ready check_running wait_running set_no_request signal_no_request : Caller
  check_joined wait_joined : Caller
  set_terminate signal_terminate await_exit : Caller

-- Where the pooled thread stands in thread_func and thread_func2.
pub data Worker : Type 0 where
  report_waiting signal_waiting check_request wait_request : Worker
  take_job report_running signal_running check_no_request wait_no_request run_job : Worker
  report_stopped signal_stopped finished : Worker

-- The constructor: the caller is `free`, and the pooled thread starts at `report_waiting`.
abbrev pub pooled_thread : Shared
pooled_thread = record {
  requested = no_request;
  reported = waiting_for_job;
  request_signalled = false;
  report_signalled = false;
  job = none;
  held = none;
  submitted = [];
  executed = [];
}

-- Event::signal and Event::wait, on the event that tells of a request and the one that tells of a report.
-- A wait returns only when the event is signalled, and takes the signal.
abbrev pub signal_request : Shared → Shared
signal_request m = record m { request_signalled = true }

abbrev pub signal_report : Shared → Shared
signal_report m = record m { report_signalled = true }

abbrev pub wait_for_signal {ℓ} : {A : Type ℓ} → Bool → A → Option A
wait_for_signal true a = some a
wait_for_signal false a = none

-- The tests of the loops.
abbrev pub is_running : ReportedState → Bool
is_running running_job = true
is_running _ = false

abbrev pub is_joined : ReportedState → Bool
is_joined waiting_for_job = true
is_joined stopped = true
is_joined _ = false

abbrev pub is_finished : Worker → Bool
is_finished finished = true
is_finished _ = false

-- Where wait_for_request goes on.
abbrev pub on_request : RequestedState → Worker
on_request no_request = wait_request
on_request job_ready = take_job
on_request terminate = report_stopped

-- Where wait_for_none goes on.
abbrev pub on_no_request : RequestedState → Worker
on_no_request no_request = run_job
on_no_request _ = wait_no_request

-- run(), join() and stop(): `none` while the caller is blocked, or is in none of them.
unfoldable pub caller_step : Caller → Worker → Shared → Option (Caller × Shared)
caller_step (store_job j) w m =
    some (set_ready, record m { job = some j; submitted = m.submitted ++ j ∷ [] })
caller_step set_ready w m = some (signal_ready, record m { requested = job_ready })
caller_step signal_ready w m = some (check_running, signal_request m)
caller_step check_running w m =
    some (if is_running m.reported then set_no_request else wait_running, m)
caller_step wait_running w m =
    wait_for_signal m.report_signalled (check_running, record m { report_signalled = false })
caller_step set_no_request w m = some (signal_no_request, record m { requested = no_request })
caller_step signal_no_request w m = some (busy, signal_request m)
caller_step check_joined w m = some (if is_joined m.reported then free else wait_joined, m)
caller_step wait_joined w m =
    wait_for_signal m.report_signalled (check_joined, record m { report_signalled = false })
caller_step set_terminate w m = some (signal_terminate, record m { requested = terminate })
caller_step signal_terminate w m = some (await_exit, signal_request m)
caller_step await_exit w m = if is_finished w then some (gone, m) else none
caller_step free w m = none
caller_step busy w m = none
caller_step gone w m = none

-- thread_func and thread_func2. Calling a job that is not there would be a fault: it has no step.
unfoldable pub worker_step : Worker → Shared → Option (Worker × Shared)
worker_step report_waiting m = some (signal_waiting, record m { reported = waiting_for_job })
worker_step signal_waiting m = some (check_request, signal_report m)
worker_step check_request m = some (on_request m.requested, m)
worker_step wait_request m =
    wait_for_signal m.request_signalled (check_request, record m { request_signalled = false })
worker_step take_job m = some (report_running, record m { held = m.job; job = none })
worker_step report_running m = some (signal_running, record m { reported = running_job })
worker_step signal_running m = some (check_no_request, signal_report m)
worker_step check_no_request m = some (on_no_request m.requested, m)
worker_step wait_no_request m =
    wait_for_signal m.request_signalled (check_no_request, record m { request_signalled = false })
worker_step run_job m = elim m.held [
  | none ↦ none
  | some j ↦ some (report_waiting, record m { held = none; executed = m.executed ++ j ∷ [] })
]
worker_step report_stopped m = some (signal_stopped, record m { reported = stopped })
worker_step signal_stopped m = some (finished, signal_report m)
worker_step finished m = none

-- A step of either thread, and the calls that the caller may make: it joins what it runs before it
-- runs another or stops the thread.
pub data Step : Caller → Worker → Shared → Caller → Worker → Shared → Type 0 where
  call_run : (j : ℕ) (w : Worker) (m : Shared) → Step free w m (store_job j) w m
  call_join : (w : Worker) (m : Shared) → Step busy w m check_joined w m
  call_stop : (w : Worker) (m : Shared) → Step free w m set_terminate w m
  by_caller :
      (c c' : Caller) (w : Worker) (m m' : Shared)
      → caller_step c w m ≡ some (c', m')
      → Step c w m c' w m'
  by_worker :
      (c : Caller) (w w' : Worker) (m m' : Shared)
      → worker_step w m ≡ some (w', m')
      → Step c w m c w' m'

pub data Reach : Caller → Worker → Shared → Type 0 where
  created : Reach free report_waiting pooled_thread
  next :
      {c c' : Caller} {w w' : Worker} {m m' : Shared}
      → Reach c w m
      → Step c w m c' w' m'
      → Reach c' w' m'
