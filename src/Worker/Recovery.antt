-- ===== src/Worker/Recovery.antt =====
-- What the callbacks do over a history: restarts, then at most one rollback.
use q_browser.Base.{
  ℕ, Bool, true, false, List, [], ◌∷◌, ◌++◌, ◌≡◌, refl, ◌⊎◌, inl, inr, arith, if◌then◌else◌,
}
use q_browser.Base.Int.{ℤ, ◌+ℤ◌, ◌≤ℤ◌, leb_ℤ, +ℤ_parts, -ℤ_parts}
use q_browser.Worker.{
  WorkerAttemptKey, WorkerExitReason, clean, crashed, startup_failure, WorkerSupervisor, stopped,
  running, retired, Callback, restart_call, rollback_call, WorkerSupervisionAction,
  ignored_stale_attempt, no_action, Outcome, quiet, next_id, begin_attempt, is_current,
  is_duplicate_failure, authenticated_handshake, heartbeat, is_healthy, unexpected_failure,
  check_health, exit_with, worker_exited, Request, begin_activation_at, begin_attempt_at,
  handshake_at, heartbeat_at, check_at, exited_at, step, run,
}
use q_browser.Worker.Invariant.{IsValid, next_id-ne}

-- No request of the history begins another activation.
abbrev pub IsOneActivation : List Request → Type 0
IsOneActivation [] = Unit
IsOneActivation (begin_activation_at t ∷ rs) = ⊥
IsOneActivation (_ ∷ rs) = IsOneActivation rs

abbrev pub Keyed : Request → Type 0
Keyed (begin_activation_at t) = ⊥
Keyed _ = Unit

-- Restarts of activation `a`, and perhaps one rollback of it at the very end.
abbrev pub EndsWithRollback : ℕ → List Callback → Type 0
EndsWithRollback a [] = Unit
EndsWithRollback a (restart_call b ∷ cs) = (b ≡ a) × EndsWithRollback a cs
EndsWithRollback a (rollback_call b ∷ cs) = (b ≡ a) × (cs ≡ [])

step_retired :
    (s : WorkerSupervisor) (r : Request)
    → Keyed r
    → s.state ≡ retired
    → ((step s r).0.state ≡ retired) × ((step s r).1 ≡ [])
unfolding step begin_attempt authenticated_handshake heartbeat check_health worker_exited
step_retired s (begin_activation_at t) one e = absurd one
step_retired s (begin_attempt_at a t) one e = ground arith
step_retired s (handshake_at k t) one e = ground arith
step_retired s (heartbeat_at k t) one e = ground arith
step_retired s (check_at k t) one e = ground arith
step_retired s (exited_at k r t) one e = ground arith

pub Keyed-head : (r : Request) (rs : List Request) → IsOneActivation (r ∷ rs) → Keyed r
Keyed-head (begin_activation_at t) rs h = h
Keyed-head _ rs h = tt

pub one_tail : (r : Request) (rs : List Request) → IsOneActivation (r ∷ rs) → IsOneActivation rs
one_tail (begin_activation_at t) rs h = absurd h
one_tail _ rs h = h

-- A retired supervisor stays retired and calls nothing until the next activation begins.
pub run_retired :
    (s : WorkerSupervisor) (rs : List Request)
    → s.state ≡ retired
    → IsOneActivation rs
    → ((run s rs).0.state ≡ retired) × ((run s rs).1 ≡ [])
unfolding run
run_retired s [] e one = (e, refl)
run_retired s (r ∷ rs) e one =
    let (e', none_now) = step_retired s r (Keyed-head r rs one) e in
    let (e'', none_later) = run_retired (step s r).0 rs e' (one_tail r rs one) in
    (e'', ground arith)

-- What one request calls: nothing, a restart, or a rollback that retires the supervisor.
abbrev StepCalls : WorkerSupervisor → WorkerSupervisor × List Callback → Type 0
StepCalls s o =
    (o.0.activation ≡ s.activation)
    × ((o.1 ≡ [])
        ⊎ (o.1 ≡ restart_call s.activation ∷ [])
        ⊎ ((o.1 ≡ rollback_call s.activation ∷ []) × (o.0.state ≡ retired)))

step_calls : (s : WorkerSupervisor) (r : Request) → Keyed r → StepCalls s (step s r)
unfolding step begin_attempt authenticated_handshake heartbeat check_health exit_with worker_exited
    unexpected_failure
step_calls s (begin_activation_at t) one = absurd one
step_calls s (begin_attempt_at a t) one = ground arith
step_calls s (handshake_at k t) one = ground arith
step_calls s (heartbeat_at k t) one = ground arith
step_calls s (check_at k t) one = ground arith
step_calls s (exited_at k clean t) one = ground arith
step_calls s (exited_at k startup_failure t) one = ground arith
step_calls s (exited_at k crashed t) one = ground arith

ends_append :
    (a : ℕ) (now later : List Callback)
    → ((now ≡ []) ⊎ (now ≡ restart_call a ∷ []) ⊎ ((now ≡ rollback_call a ∷ []) × (later ≡ [])))
    → EndsWithRollback a later
    → EndsWithRollback a (now ++ later)
ends_append a now later (inl e) h = rw e h
ends_append a now later (inr (inl e)) h = rw e (refl, h)
ends_append a now later (inr (inr (e, done))) h = rw (e, done) (refl, refl)

-- Within one activation the callbacks are restarts of that activation, followed by at most one
-- rollback of it, which is the last call: after a rollback there is no other, and no restart.
pub run-EndsWithRollback :
    (s : WorkerSupervisor) (rs : List Request)
    → IsOneActivation rs
    → EndsWithRollback s.activation (run s rs).1
unfolding run
run-EndsWithRollback s [] one = tt
run-EndsWithRollback s (r ∷ rs) one =
    let (same, calls) = step_calls s r (Keyed-head r rs one) in
    let rest = one_tail r rs one in
    let later = run-EndsWithRollback (step s r).0 rs rest in
    ends_append s.activation (step s r).1 _ (after rest calls) (rw same at later)
  where
    after :
        IsOneActivation rs
        → ((step s r).1 ≡ [])
          ⊎ ((step s r).1 ≡ restart_call s.activation ∷ [])
          ⊎ (((step s r).1 ≡ rollback_call s.activation ∷ []) × ((step s r).0.state ≡ retired))
        → ((step s r).1 ≡ [])
          ⊎ ((step s r).1 ≡ restart_call s.activation ∷ [])
          ⊎ (((step s r).1 ≡ rollback_call s.activation ∷ []) × ((run (step s r).0 rs).1 ≡ []))
    after rest (inl e) = inl e
    after rest (inr (inl e)) = inr (inl e)
    after rest (inr (inr (e, f))) = inr (inr (e, (run_retired (step s r).0 rs f rest).1))

-- In a supervisor that satisfies the invariant, a crash of the running attempt is never taken for a
-- stale or a repeated report: it is handled as an unexpected failure.
pub crash_is_handled :
    (s : WorkerSupervisor) (k : WorkerAttemptKey) (t : ℤ)
    → IsValid s
    → s.state ≡ running
    → is_current s k ≡ true
    → worker_exited s k crashed t ≡ unexpected_failure s k t
unfolding worker_exited exit_with is_current is_duplicate_failure
crash_is_handled s k t v e h = ground arith

-- In an activation without a failure so far, and with both callbacks set, two attempts crash that
-- shook no hands: the first crash restarts the worker, and the second rolls the activation back
-- where it comes no later than the health window after the start of the second attempt. Later than
-- that the worker is restarted once more.
pub second_crash :
    (s : WorkerSupervisor) (t₀ t₁ t₂ t₃ : ℤ)
    → s.state ≡ stopped
    → s.crash_loop ≡ false
    → s.restart_used ≡ false
    → s.rollback_called ≡ false
    → s.has_last_failed_attempt ≡ false
    → s.has_restart ≡ true
    → s.has_rollback ≡ true
    → (run s (
        begin_attempt_at s.activation t₀
        ∷ exited_at (record { activation = s.activation; attempt = next_id s.attempt }) crashed t₁
        ∷ begin_attempt_at s.activation t₂
        ∷ exited_at
            (record { activation = s.activation; attempt = next_id (next_id s.attempt) })
            crashed
            t₃
        ∷ [])).1
      ≡ (if leb_ℤ t₃ (t₂ +ℤ s.policy.health_window_ms)
          then restart_call s.activation ∷ rollback_call s.activation ∷ []
          else restart_call s.activation ∷ restart_call s.activation ∷ [])
unfolding run step begin_attempt worker_exited exit_with unexpected_failure is_current
    is_duplicate_failure
second_crash s t₀ t₁ t₂ t₃ a b c d e f g = ground (arith, next_id-ne (next_id s.attempt))

-- The reports about one attempt, the crash or exit and the missed heartbeat.
abbrev pub report : Bool → WorkerSupervisor → WorkerAttemptKey → WorkerExitReason → ℤ → Outcome
report true s k r t = check_health s k t
report false s k r t = worker_exited s k r t

abbrev pub AreHandled : WorkerSupervisionAction → Type 0
AreHandled ignored_stale_attempt = ⊥
AreHandled no_action = ⊥
AreHandled _ = Unit

-- In a supervisor that satisfies the invariant, a worker that counts as healthy has run for the
-- whole health window since its attempt began, and the health check at the same time takes no
-- action.
pub healthy_unharmed :
    (s : WorkerSupervisor) (k : WorkerAttemptKey) (t : ℤ)
    → IsValid s
    → is_healthy s k t ≡ true
    → (s.attempt_start_ms +ℤ s.policy.health_window_ms ≤ℤ t)
      × (check_health s k t ≡ quiet s no_action)
unfolding is_healthy check_health is_current is_duplicate_failure
healthy_unharmed s k t v h = (
  ground (arith, +ℤ_parts s.attempt_start_ms s.policy.health_window_ms, -ℤ_parts t s.handshake_ms),
  ground arith,
)
