-- ===== src/Worker/Invariant.antt =====
-- What holds of a supervisor after any history of calls.
use q_browser.Base.{ℕ, Bool, true, List, [], ◌∷◌, ◌≡◌, ◌≢◌, arith}
use q_browser.Base.Int.{ℤ, pos, ◌≤ℤ◌}
use q_browser.Worker.{
  WorkerSupervisionPolicy, WorkerAttemptKey, WorkerExitReason, clean, crashed, startup_failure,
  WorkerSupervisor, stopped, running, retired, next_id, create, begin_activation, begin_attempt,
  is_current, authenticated_handshake, heartbeat, unexpected_failure, check_health, exit_with,
  worker_exited, Request, begin_activation_at, begin_attempt_at, handshake_at, heartbeat_at,
  check_at, exited_at, step, run,
}

pub record IsValid (s : WorkerSupervisor) : Type 0 where
  pub window_pos : pos 1 ≤ℤ s.policy.health_window_ms
  pub timeout_pos : pos 1 ≤ℤ s.policy.heartbeat_timeout_ms
  pub running_attempt : s.state ≡ running → s.has_attempt ≡ true
  pub loop_rolled_back : s.crash_loop ≡ true → s.rollback_called ≡ true
  pub rolled_back_retired : s.rollback_called ≡ true → s.state ≡ retired
  pub start_le_handshake :
      s.has_authenticated_handshake ≡ true → s.attempt_start_ms ≤ℤ s.handshake_ms
  pub handshake_le_heartbeat :
      s.has_authenticated_handshake ≡ true → s.handshake_ms ≤ℤ s.last_heartbeat_ms
  pub failed_activation :
      s.has_last_failed_attempt ≡ true → s.last_failed_attempt.activation ≡ s.activation
  pub failed_stopped :
      s.has_last_failed_attempt ≡ true
      → s.state ≡ stopped
      → s.last_failed_attempt.attempt ≡ s.attempt
  pub failed_running :
      s.has_last_failed_attempt ≡ true
      → s.state ≡ running
      → s.last_failed_attempt.attempt ≢ s.attempt

pub next_id-ne : (n : ℕ) → n ≢ next_id n
unfolding next_id
next_id-ne n = ground arith

create-IsValid : (p : WorkerSupervisionPolicy) (r b : Bool) → IsValid (create p r b)
unfolding create
create-IsValid p r b = record {
  window_pos = ground arith;
  timeout_pos = ground arith;
  running_attempt = λ e. cc;
  loop_rolled_back = λ e. cc;
  rolled_back_retired = λ e. cc;
  start_le_handshake = λ e. cc;
  handshake_le_heartbeat = λ e. cc;
  failed_activation = λ e. cc;
  failed_stopped = λ e. cc;
  failed_running = λ e. cc;
}

begin_activation-IsValid :
    (s : WorkerSupervisor) (t : ℤ) → IsValid s → IsValid (begin_activation s t).0
unfolding begin_activation
begin_activation-IsValid s t v = ground arith

begin_attempt-IsValid :
    (s : WorkerSupervisor) (a : ℕ) (t : ℤ) → IsValid s → IsValid (begin_attempt s a t).0
unfolding begin_attempt
begin_attempt-IsValid s a t v = ground (arith, next_id-ne s.attempt)

handshake-IsValid :
    (s : WorkerSupervisor) (k : WorkerAttemptKey) (t : ℤ)
    → IsValid s
    → IsValid (authenticated_handshake s k t).0
unfolding authenticated_handshake
handshake-IsValid s k t v = ground arith

heartbeat-IsValid :
    (s : WorkerSupervisor) (k : WorkerAttemptKey) (t : ℤ) → IsValid s → IsValid (heartbeat s k t)
unfolding heartbeat
heartbeat-IsValid s k t v = ground arith

failure-IsValid :
    (s : WorkerSupervisor) (k : WorkerAttemptKey) (t : ℤ)
    → IsValid s
    → s.state ≡ running
    → is_current s k ≡ true
    → IsValid (unexpected_failure s k t).sup
unfolding unexpected_failure is_current
failure-IsValid s k t v e h = ground arith

check_health-IsValid :
    (s : WorkerSupervisor) (k : WorkerAttemptKey) (t : ℤ)
    → IsValid s
    → IsValid (check_health s k t).sup
unfolding check_health
check_health-IsValid s k t v = ground (arith, failure-IsValid s k t v)

exit_with-IsValid :
    (r : WorkerExitReason) (s : WorkerSupervisor) (k : WorkerAttemptKey) (t : ℤ)
    → IsValid s
    → s.state ≡ running
    → is_current s k ≡ true
    → IsValid (exit_with r s k t).sup
unfolding exit_with is_current
exit_with-IsValid clean s k t v e h = ground arith
exit_with-IsValid startup_failure s k t v e h = ground arith
exit_with-IsValid crashed s k t v e h = failure-IsValid s k t v e h

worker_exited-IsValid :
    (s : WorkerSupervisor) (k : WorkerAttemptKey) (r : WorkerExitReason) (t : ℤ)
    → IsValid s
    → IsValid (worker_exited s k r t).sup
unfolding worker_exited
worker_exited-IsValid s k r t v = ground (arith, exit_with-IsValid r s k t v)

pub step-IsValid : (s : WorkerSupervisor) (r : Request) → IsValid s → IsValid (step s r).0
unfolding step
step-IsValid s (begin_activation_at t) v = begin_activation-IsValid s t v
step-IsValid s (begin_attempt_at a t) v = begin_attempt-IsValid s a t v
step-IsValid s (handshake_at k t) v = handshake-IsValid s k t v
step-IsValid s (heartbeat_at k t) v = heartbeat-IsValid s k t v
step-IsValid s (check_at k t) v = check_health-IsValid s k t v
step-IsValid s (exited_at k r t) v = worker_exited-IsValid s k r t v

pub run-IsValid : (s : WorkerSupervisor) (rs : List Request) → IsValid s → IsValid (run s rs).0
unfolding run
run-IsValid s [] v = v
run-IsValid s (r ∷ rs) v = run-IsValid (step s r).0 rs (step-IsValid s r v)

-- After any history of a new supervisor, whatever policy it was given: both periods are positive,
-- a running supervisor has an attempt, a crash loop has rolled back, a rolled-back activation is
-- retired, an authenticated handshake lies between the start of the attempt and the last
-- heartbeat, and the remembered failure is of this activation, and of another attempt than the
-- running one.
pub run-create-IsValid :
    (p : WorkerSupervisionPolicy) (restart_set rollback_set : Bool) (rs : List Request)
    → IsValid (run (create p restart_set rollback_set) rs).0
run-create-IsValid p r b rs = run-IsValid (create p r b) rs (create-IsValid p r b)
