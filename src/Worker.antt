-- ===== src/Worker.antt =====
-- The supervision of worker processes: runtime/worker/WorkerSupervisor.h and .cpp.
--
-- A callback is called as the last action of an operation, so the model hands its calls back as a
-- list. Times are unbounded integers, and identifiers wrap at 2 ^ 64 as `quint64` does.
pub mod Invariant
pub mod Recovery
pub mod Activation
mod Tests
use q_browser.Base.{
  ℕ, ◌+◌, ◌-◌, ◌^◌, Bool, true, false, not, ◌&&◌, ◌||◌, Option, none, some, List, [], ◌∷◌, ◌++◌,
  ◌==◌, if◌then◌else◌,
}
use q_browser.Base.Int.{ℤ, pos, ◌+ℤ◌, ◌-ℤ◌, ltb_ℤ, leb_ℤ}

pub record WorkerSupervisionPolicy : Type 0 where
  pub health_window_ms : ℤ
  pub heartbeat_timeout_ms : ℤ

-- `WorkerSupervisionPolicy{}`
abbrev pub default_policy : WorkerSupervisionPolicy
default_policy = record { health_window_ms = pos 30000; heartbeat_timeout_ms = pos 5000 }

pub record WorkerAttemptKey : Type 0 where
  pub activation : ℕ
  pub attempt : ℕ

pub data WorkerExitReason : Type 0 where
  clean crashed startup_failure : WorkerExitReason

pub data WorkerSupervisorState : Type 0 where
  stopped running retired : WorkerSupervisorState

pub data WorkerSupervisionAction : Type 0 where
  no_action restart startup_rollback crash_loop_rollback : WorkerSupervisionAction
  ignored_stale_attempt ignored_duplicate_failure : WorkerSupervisionAction

pub record WorkerSupervisor : Type 0 where
  pub policy : WorkerSupervisionPolicy
  pub has_restart : Bool
  pub has_rollback : Bool
  pub activation : ℕ
  pub attempt : ℕ
  pub last_failed_attempt : WorkerAttemptKey
  pub state : WorkerSupervisorState
  pub attempt_start_ms : ℤ
  pub handshake_ms : ℤ
  pub last_heartbeat_ms : ℤ
  pub restart_used : Bool
  pub rollback_called : Bool
  pub has_attempt : Bool
  pub has_last_failed_attempt : Bool
  pub crash_loop : Bool
  pub has_authenticated_handshake : Bool

-- A call of a callback with its argument.
pub data Callback : Type 0 where
  restart_call rollback_call : ℕ → Callback

abbrev pub is_stopped : WorkerSupervisorState → Bool
is_stopped stopped = true
is_stopped _ = false

abbrev pub is_running : WorkerSupervisorState → Bool
is_running running = true
is_running _ = false

unfoldable pub next_id : ℕ → ℕ
next_id current = if current == 2 ^ 64 - 1 then 1 else current + 1

unfoldable pub create : WorkerSupervisionPolicy → Bool → Bool → WorkerSupervisor
create policy has_restart has_rollback = record {
  policy =
      if leb_ℤ policy.health_window_ms (pos 0) || leb_ℤ policy.heartbeat_timeout_ms (pos 0)
      then default_policy
      else policy;
  has_restart = has_restart;
  has_rollback = has_rollback;
  activation = 0;
  attempt = 0;
  last_failed_attempt = record { activation = 0; attempt = 0 };
  state = retired;
  attempt_start_ms = pos 0;
  handshake_ms = pos 0;
  last_heartbeat_ms = pos 0;
  restart_used = false;
  rollback_called = false;
  has_attempt = false;
  has_last_failed_attempt = false;
  crash_loop = false;
  has_authenticated_handshake = false;
}

unfoldable pub begin_activation : WorkerSupervisor → ℤ → WorkerSupervisor × ℕ
begin_activation s now_ms =
    let activation = next_id s.activation in
    (
      record s {
        activation = activation;
        state = stopped;
        last_heartbeat_ms = now_ms;
        restart_used = false;
        rollback_called = false;
        has_attempt = false;
        has_last_failed_attempt = false;
        crash_loop = false;
        has_authenticated_handshake = false;
      },
      activation,
    )

unfoldable pub begin_attempt : WorkerSupervisor → ℕ → ℤ → WorkerSupervisor × Option ℕ
begin_attempt s activation now_ms =
    if not (activation == s.activation) || not (is_stopped s.state) || s.crash_loop
    then (s, none)
    else let attempt = next_id s.attempt in
      (
        record s {
          attempt = attempt;
          has_attempt = true;
          state = running;
          attempt_start_ms = now_ms;
          last_heartbeat_ms = now_ms;
          has_authenticated_handshake = false;
        },
        some attempt,
      )

unfoldable pub is_current : WorkerSupervisor → WorkerAttemptKey → Bool
is_current s key = s.has_attempt && key.activation == s.activation && key.attempt == s.attempt

unfoldable pub is_duplicate_failure : WorkerSupervisor → WorkerAttemptKey → Bool
is_duplicate_failure s key =
    s.has_last_failed_attempt
    && key.activation == s.last_failed_attempt.activation
    && key.attempt == s.last_failed_attempt.attempt

unfoldable pub authenticated_handshake :
    WorkerSupervisor → WorkerAttemptKey → ℤ → WorkerSupervisor × Bool
authenticated_handshake s key now_ms =
    if not (is_running s.state)
      || not (is_current s key)
      || ltb_ℤ now_ms s.attempt_start_ms
      || s.has_authenticated_handshake
    then (s, false)
    else (
      record s {
        handshake_ms = now_ms;
        last_heartbeat_ms = now_ms;
        has_authenticated_handshake = true;
      },
      true,
    )

unfoldable pub heartbeat : WorkerSupervisor → WorkerAttemptKey → ℤ → WorkerSupervisor
heartbeat s key now_ms =
    if is_running s.state
      && is_current s key
      && s.has_authenticated_handshake
      && leb_ℤ s.last_heartbeat_ms now_ms
    then record s { last_heartbeat_ms = now_ms }
    else s

unfoldable pub is_healthy : WorkerSupervisor → WorkerAttemptKey → ℤ → Bool
is_healthy s key now_ms =
    is_running s.state
    && is_current s key
    && s.has_authenticated_handshake
    && leb_ℤ s.handshake_ms now_ms
    && leb_ℤ s.policy.health_window_ms (now_ms -ℤ s.handshake_ms)
    && leb_ℤ now_ms (s.last_heartbeat_ms +ℤ s.policy.heartbeat_timeout_ms)

-- `if (restart_) restart_(activation_)`
abbrev pub call_restart : WorkerSupervisor → List Callback
call_restart s = if s.has_restart then restart_call s.activation ∷ [] else []

-- `if (!rollbackCalled_) { rollbackCalled_ = true; if (rollback_) rollback_(activation_); }`
abbrev pub call_rollback : WorkerSupervisor → List Callback
call_rollback s =
    if not s.rollback_called && s.has_rollback then rollback_call s.activation ∷ [] else []

-- The supervisor after a failure report, the action returned and the callbacks called.
pub record Outcome : Type 0 where
  pub sup : WorkerSupervisor
  pub action : WorkerSupervisionAction
  pub calls : List Callback

unfoldable pub unexpected_failure : WorkerSupervisor → WorkerAttemptKey → ℤ → Outcome
unexpected_failure s key now_ms =
    let failed = record s {
      last_failed_attempt = key;
      has_last_failed_attempt = true;
      state = stopped;
    } in
    let health_window_start =
      if s.has_authenticated_handshake then s.handshake_ms else s.attempt_start_ms in
    if not s.restart_used
    then record {
      sup = record failed { restart_used = true };
      action = restart;
      calls = call_restart s;
    }
    else if leb_ℤ now_ms (health_window_start +ℤ s.policy.health_window_ms)
    then record {
      sup = record failed { crash_loop = true; state = retired; rollback_called = true };
      action = crash_loop_rollback;
      calls = call_rollback s;
    }
    else record {
      sup = record failed { restart_used = true };
      action = restart;
      calls = call_restart s;
    }

abbrev pub quiet : WorkerSupervisor → WorkerSupervisionAction → Outcome
quiet s a = record { sup = s; action = a; calls = [] }

unfoldable pub check_health : WorkerSupervisor → WorkerAttemptKey → ℤ → Outcome
check_health s key now_ms =
    if is_duplicate_failure s key
    then quiet s ignored_duplicate_failure
    else if not (is_current s key)
    then quiet s ignored_stale_attempt
    else if not (is_running s.state)
        || leb_ℤ now_ms (s.last_heartbeat_ms +ℤ s.policy.heartbeat_timeout_ms)
    then quiet s no_action
    else unexpected_failure s key now_ms

-- `workerExited` behind its guards, by the reason.
unfoldable pub exit_with : WorkerExitReason → WorkerSupervisor → WorkerAttemptKey → ℤ → Outcome
exit_with clean s key now_ms = quiet (record s { state = retired }) no_action
exit_with startup_failure s key now_ms = record {
  sup = record s {
    last_failed_attempt = key;
    has_last_failed_attempt = true;
    state = retired;
    rollback_called = true;
  };
  action = startup_rollback;
  calls = call_rollback s;
}
exit_with crashed s key now_ms = unexpected_failure s key now_ms

unfoldable pub worker_exited : WorkerSupervisor → WorkerAttemptKey → WorkerExitReason → ℤ → Outcome
unfolding exit_with
worker_exited s key reason now_ms =
    if is_duplicate_failure s key
    then quiet s ignored_duplicate_failure
    else if not (is_current s key)
    then quiet s ignored_stale_attempt
    else if not (is_running s.state)
    then quiet s no_action
    else exit_with reason s key now_ms

unfoldable pub active_attempt : WorkerSupervisor → Option ℕ
active_attempt s = if s.has_attempt && is_running s.state then some s.attempt else none

-- One call of the supervisor by its owner.
pub data Request : Type 0 where
  begin_activation_at : ℤ → Request
  begin_attempt_at : ℕ → ℤ → Request
  handshake_at heartbeat_at check_at : WorkerAttemptKey → ℤ → Request
  exited_at : WorkerAttemptKey → WorkerExitReason → ℤ → Request

unfoldable pub step : WorkerSupervisor → Request → WorkerSupervisor × List Callback
step s (begin_activation_at t) = ((begin_activation s t).0, [])
step s (begin_attempt_at a t) = ((begin_attempt s a t).0, [])
step s (handshake_at k t) = ((authenticated_handshake s k t).0, [])
step s (heartbeat_at k t) = (heartbeat s k t, [])
step s (check_at k t) = let o = check_health s k t in (o.sup, o.calls)
step s (exited_at k r t) = let o = worker_exited s k r t in (o.sup, o.calls)

-- A history of calls, with the callbacks that it makes in order.
unfoldable pub run : WorkerSupervisor → List Request → WorkerSupervisor × List Callback
run s [] = (s, [])
run s (r ∷ rs) = let (s', calls) = step s r in let (s'', later) = run s' rs in (s'', calls ++ later)
