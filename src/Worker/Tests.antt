-- ===== src/Worker/Tests.antt =====
-- A supervisor at concrete histories.
use q_browser.Base.{ℕ, true, false, List, [], ◌∷◌, ◌≡◌, ◌≢◌, refl, none, arith}
use q_browser.Base.Int.{pos, ◌+ℤ◌}
use q_browser.Worker.{
  WorkerAttemptKey, crashed, WorkerSupervisor, restart_call, rollback_call, Request,
  begin_activation_at, begin_attempt_at, handshake_at, heartbeat_at, exited_at, create,
  default_policy, next_id, is_healthy, is_current, is_duplicate_failure, authenticated_handshake,
  heartbeat, unexpected_failure, check_health, worker_exited, begin_activation, begin_attempt,
  exit_with, quiet, ignored_stale_attempt, step, run,
}
use q_browser.Worker.Invariant.{IsValid, run-create-IsValid}
use q_browser.Worker.Recovery.{EndsWithRollback, run-EndsWithRollback, run_retired, second_crash}
use q_browser.Worker.Activation.{another_activation_ignored}

abbrev key : ℕ → WorkerAttemptKey
key n = record { activation = 1; attempt = n }

-- An attempt of the next activation
abbrev later_key : ℕ → WorkerAttemptKey
later_key n = record { activation = 2; attempt = n }

abbrev fresh : WorkerSupervisor
fresh = create default_policy true true

abbrev crash_twice : List Request
crash_twice =
    begin_attempt_at 1 (pos 100)
    ∷ exited_at (key 1) crashed (pos 200)
    ∷ begin_attempt_at 1 (pos 300)
    ∷ exited_at (key 2) crashed (pos 400)
    ∷ []

abbrev activated : WorkerSupervisor
activated = (begin_activation fresh (pos 0)).0

abbrev started : WorkerSupervisor
started = (run fresh (begin_activation_at (pos 0) ∷ begin_attempt_at 1 (pos 100) ∷ [])).0

-- Shaken hands at 200, heartbeat at 40000.
abbrev old : WorkerSupervisor
old = (run started (handshake_at (key 1) (pos 200) ∷ heartbeat_at (key 1) (pos 40000) ∷ [])).0

crash_twice_calls : (run activated crash_twice).1 ≡ restart_call 1 ∷ rollback_call 1 ∷ []
unfolding run step create begin_activation begin_attempt worker_exited exit_with unexpected_failure
    is_current is_duplicate_failure next_id ◌+ℤ◌
crash_twice_calls = refl

run-create-IsValid_example : IsValid (run fresh (begin_activation_at (pos 0) ∷ crash_twice)).0
run-create-IsValid_example =
    run-create-IsValid default_policy true true (begin_activation_at (pos 0) ∷ crash_twice)

run-EndsWithRollback_example : EndsWithRollback 1 (run activated crash_twice).1
unfolding create begin_activation next_id
run-EndsWithRollback_example = run-EndsWithRollback activated crash_twice tt

run_retired_example : (run fresh crash_twice).1 ≡ []
unfolding create
run_retired_example = (run_retired fresh crash_twice refl tt).1

second_crash_example : (run activated crash_twice).1 ≡ restart_call 1 ∷ rollback_call 1 ∷ []
unfolding create begin_activation next_id ◌+ℤ◌
second_crash_example =
    second_crash activated (pos 100) (pos 200) (pos 300) (pos 400) refl refl refl refl refl refl
      refl

-- In the next activation attempt 2 crashes.
abbrev begun_again : List Request
begun_again = begin_attempt_at 2 (pos 600) ∷ exited_at (later_key 2) crashed (pos 700) ∷ []

abbrev again : WorkerSupervisor
again = (run started (begin_activation_at (pos 500) ∷ begun_again)).0

another_activation_number : 1 ≢ next_id started.activation
unfolding run step create begin_activation begin_attempt next_id
another_activation_number = omega arith

another_activation_ignored_example :
    (begin_attempt again 1 (pos 800) ≡ (again, none))
    × (is_healthy again (key 2) (pos 800) ≡ false)
    × (authenticated_handshake again (key 2) (pos 800) ≡ (again, false))
    × (heartbeat again (key 2) (pos 800) ≡ again)
    × (check_health again (key 2) (pos 800) ≡ quiet again ignored_stale_attempt)
    × (worker_exited again (key 2) crashed (pos 800) ≡ quiet again ignored_stale_attempt)
another_activation_ignored_example =
    another_activation_ignored started begun_again (key 2) crashed (pos 500) (pos 800) tt
      another_activation_number
