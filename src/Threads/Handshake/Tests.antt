-- ===== src/Threads/Handshake/Tests.antt =====
-- The handshake at concrete schedules: one job run and joined, whoever is first, and a stop() that
-- comes before the job's request is withdrawn.
use zekvok.Prelude.{ℕ, ◌≡◌, refl, Bool, true, [], ◌∷◌, arith}
use zekvok.Threads.Handshake.{
  Shared, Caller, busy, store_job, check_joined, Worker, report_waiting, pooled_thread, caller_step,
  worker_step, call_run, Reach, created, next,
}
use zekvok.Threads.Handshake.Liveness.{settle, settle-returns_to}

abbrev caller_first : ℕ → Bool
caller_first n = true

abbrev called : Reach (store_job 7) report_waiting pooled_thread
called = next created (call_run 7 report_waiting pooled_thread)

abbrev after_run : Caller × Worker × Shared
after_run = settle caller_first 72 (store_job 7) report_waiting pooled_thread

abbrev after_join : Caller × Worker × Shared
after_join = settle caller_first 72 check_joined after_run.1 after_run.2

run_returns : after_run.0 ≡ busy
unfolding settle caller_step worker_step
run_returns = refl

executes_it : after_join.2.executed ≡ 7 ∷ []
unfolding settle caller_step worker_step
executes_it = refl

settle-returns_to_example :
    (settle caller_first 80 (store_job 7) report_waiting pooled_thread).0 ≡ busy
settle-returns_to_example = settle-returns_to caller_first 80 called (omega arith)
