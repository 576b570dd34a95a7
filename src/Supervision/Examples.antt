-- ===== src/Supervision/Examples.antt =====
-- The theorems on agentsessions/supervision.go and the restart loop at concrete inputs.
use go_agent_sessions.Prelude.{
  ◌⊎◌, ℕ, ◌+◌, ◌*◌, ◌<◌, ◌≤◌, ◌≡◌, refl, false, none, some, [], ◌∷◌, map, arith,
}
use go_agent_sessions.Prelude.Int.{pos}
use go_agent_sessions.Supervision.{
  WaitError, spawn_failed, no_cause, idle_timeout, watchdog_kill, restart_exhausted, ExitError,
  SupervisorOptions, build_exit_error, restart_eligible, compute_restart_backoff, run_supervised,
  reported_code, second,
}
use go_agent_sessions.Supervision.Backoff.{
  compute_restart_backoff-delay, compute_restart_backoff-Bounded,
}
use go_agent_sessions.Supervision.Causes.{try_causes, first_cause_wins}
use go_agent_sessions.Supervision.Restarts.{numbers, schedule, run_supervised-Bounded}
use go_agent_sessions.Supervision.Recovery.{
  crash, flaky, run_supervised-recovers, run_supervised-exhausts,
}

-- The sixth restart under the default cap waits for the cap.
delay_example : compute_restart_backoff (pos 6) (pos (30 * second)) ≡ pos (30 * second)
delay_example = compute_restart_backoff-delay (30 * second) 5 (omega arith) (omega arith)

backoff_bounded_example :
    (d : ℕ) × (e : ℕ) × (compute_restart_backoff (pos 3) (pos 5000000000) ≡ pos d)
    × (compute_restart_backoff (pos 4) (pos 5000000000) ≡ pos e)
    × (0 < d)
    × (d ≤ e)
    × (e ≤ 5000000000)
backoff_bounded_example = compute_restart_backoff-Bounded 5000000000 2 (omega arith)

-- The watchdog fires while the idle kill is under way.
first_cause_example :
    (xe : ExitError) × (build_exit_error none none
        (try_causes (idle_timeout ∷ watchdog_kill ∷ []) no_cause)
      ≡ some xe)
    × (xe.cause ≡ idle_timeout)
    × (xe.wait_err ≡ none)
    × (restart_eligible (some xe) ≡ false)
first_cause_example =
    first_cause_wins idle_timeout (watchdog_kill ∷ []) none none (λ e. absurd (cc e))

abbrev exit_one : ExitError
exit_one = record {
  code = pos 1;
  signal = 0;
  killed = false;
  process_state = none;
  cause = no_cause;
  wait_err = none;
}

abbrev thrice : SupervisorOptions
thrice = record {
  idle_kill = pos 0;
  watchdog_timeout = pos 0;
  restart_on_crash = pos 3;
  max_restart_backoff = pos 0;
}

restarts_example :
    (k : ℕ) × (k ≤ 3)
    × ((run_supervised thrice (λ n. crash exit_one)).backoffs ≡ schedule (pos 0) 1 k)
    × (map (λ p. p.0) (run_supervised thrice (λ n. crash exit_one)).on_restart ≡ numbers 1 k)
    × (((run_supervised thrice (λ n. crash exit_one)).waits ≡ k + 1)
        ⊎ (((run_supervised thrice (λ n. crash exit_one)).waits ≡ k)
            × ((err : WaitError) × ((run_supervised thrice (λ n. crash exit_one)).last_exit
                  ≡ some (spawn_failed err)))))
restarts_example = run_supervised-Bounded thrice (λ n. crash exit_one)

recovers_example :
    ((run_supervised thrice (flaky 2 (λ n. exit_one))).last_exit ≡ none)
    × (reported_code (run_supervised thrice (flaky 2 (λ n. exit_one))).last_exit ≡ pos 0)
    × ((run_supervised thrice (flaky 2 (λ n. exit_one))).waits ≡ 3)
unfolding restart_eligible
recovers_example = run_supervised-recovers thrice 2 (λ n. exit_one) (λ n. refl) 3 refl (omega arith)

exhausts_example :
    ((run_supervised thrice (flaky 5 (λ n. exit_one))).last_exit
      ≡ some (record exit_one { cause = restart_exhausted }))
    × ((run_supervised thrice (flaky 5 (λ n. exit_one))).waits ≡ 4)
unfolding restart_eligible
exhausts_example = run_supervised-exhausts thrice 5 (λ n. exit_one) (λ n. refl) 3 refl (omega arith)
