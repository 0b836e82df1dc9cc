-- ===== src/Worker/Activation.antt =====
-- Workers of an activation that is over: the keys of runtime/worker/WorkerSupervisor.cpp.
use q_browser.Base.{ℕ, true, false, List, [], ◌∷◌, ◌≡◌, ◌≢◌, none, arith}
use q_browser.Base.Int.{ℤ}
use q_browser.Worker.{
  WorkerAttemptKey, WorkerExitReason, clean, crashed, startup_failure, WorkerSupervisor,
  ignored_stale_attempt, quiet, next_id, begin_activation, begin_attempt, is_current,
  is_duplicate_failure, authenticated_handshake, heartbeat, is_healthy, unexpected_failure,
  check_health, exit_with, worker_exited, Request, begin_activation_at, begin_attempt_at,
  handshake_at, heartbeat_at, check_at, exited_at, step, run,
}
use q_browser.Worker.Recovery.{IsOneActivation, Keyed, Keyed-head, one_tail}

-- A supervisor in activation `a`, whose remembered failure is of that activation.
abbrev InActivation : ℕ → WorkerSupervisor → Type 0
InActivation a s =
    (s.activation ≡ a) × (s.has_last_failed_attempt ≡ true → s.last_failed_attempt.activation ≡ a)

step-InActivation :
    (a : ℕ) (s : WorkerSupervisor) (r : Request)
    → Keyed r
    → InActivation a s
    → InActivation a (step s r).0
unfolding step begin_attempt authenticated_handshake heartbeat check_health exit_with worker_exited
    unexpected_failure is_current
step-InActivation a s (begin_activation_at t) one v = absurd one
step-InActivation a s (begin_attempt_at b t) one v = ground arith
step-InActivation a s (handshake_at k t) one v = ground arith
step-InActivation a s (heartbeat_at k t) one v = ground arith
step-InActivation a s (check_at k t) one v = ground arith
step-InActivation a s (exited_at k clean t) one v = ground arith
step-InActivation a s (exited_at k startup_failure t) one v = ground arith
step-InActivation a s (exited_at k crashed t) one v = ground arith

run-InActivation :
    (a : ℕ) (s : WorkerSupervisor) (rs : List Request)
    → IsOneActivation rs
    → InActivation a s
    → InActivation a (run s rs).0
unfolding run
run-InActivation a s [] one v = v
run-InActivation a s (r ∷ rs) one v =
    run-InActivation a (step s r).0 rs (one_tail r rs one)
      (step-InActivation a s r (Keyed-head r rs one) v)

begin_activation-InActivation :
    (s : WorkerSupervisor) (t : ℤ)
    → InActivation (next_id s.activation) (step s (begin_activation_at t)).0
unfolding step begin_activation
begin_activation-InActivation s t = ground arith

another_activation :
    (a : ℕ) (s : WorkerSupervisor) (k : WorkerAttemptKey)
    → InActivation a s
    → k.activation ≢ a
    → (is_current s k ≡ false) × (is_duplicate_failure s k ≡ false)
unfolding is_current is_duplicate_failure
another_activation a s k v ne = ground arith

-- Once a supervisor has begun an activation, and whatever calls follow that begin no other, a worker
-- of another activation has no effect: under its activation no attempt begins, it is not healthy,
-- its handshake is refused, its heartbeat changes nothing, and its health check and its exit,
-- whatever the reason, are ignored as stale and call nothing, even where its attempt has the number
-- of the current one or of the one that failed.
pub another_activation_ignored :
    (s : WorkerSupervisor) (rs : List Request) (k : WorkerAttemptKey) (r : WorkerExitReason)
    (begun t : ℤ)
    → IsOneActivation rs
    → k.activation ≢ next_id s.activation
    → let after = (run s (begin_activation_at begun ∷ rs)).0 in
      (begin_attempt after k.activation t ≡ (after, none))
      × (is_healthy after k t ≡ false)
      × (authenticated_handshake after k t ≡ (after, false))
      × (heartbeat after k t ≡ after)
      × (check_health after k t ≡ quiet after ignored_stale_attempt)
      × (worker_exited after k r t ≡ quiet after ignored_stale_attempt)
unfolding run begin_attempt is_healthy authenticated_handshake heartbeat check_health worker_exited
another_activation_ignored s rs k r begun t one ne =
    let first = (step s (begin_activation_at begun)).0 in
    let v =
      run-InActivation (next_id s.activation) first rs one
        (begin_activation-InActivation s begun) in
    ground (arith, v, another_activation (next_id s.activation) (run first rs).0 k v ne)
