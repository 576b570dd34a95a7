-- ===== src/Child/Watching.antt =====
-- waitOnceSupervised of agentsessions/streaming_stdio_session.go with superviseIdle,
-- superviseWatchdog and the watcher for Stop, and killWithGrace, idleSince and supState of
-- agentsessions/supervision.go: the goroutines of one attempt as a state machine. Times are
-- nanoseconds.
use go_agent_sessions.Prelude.{
  ℕ, ◌-◌, Bool, true, false, not, ◌||◌, Option, List, [], ◌∷◌, ◌++◌, if◌then◌else◌, ltb, nat_eq,
  ◌==◌,
}
use go_agent_sessions.Prelude.Int.{ℤ, pos, negsuc}
use go_agent_sessions.Supervision.{
  Cause, no_cause, idle_timeout, watchdog_kill, try_set_cause, SupervisorOptions, WaitError,
  ProcessState, ExitError, build_exit_error, sigkill,
}
use go_agent_sessions.Spawn.Attempt.{Step, signal}

-- A goroutine: not started, polling, in the grace period of killWithGrace, or returned.
pub data Guard : Type 0 where
  off polling in_grace returned : Guard

-- The attempt; `last` is the activity tracker.
pub record Attempt : Type 0 where
  pub idle_guard : Guard
  pub watchdog_guard : Guard
  pub stop_guard : Guard
  pub cause : Cause
  pub started_at : ℕ
  pub last : ℕ
  pub signals : List Step

-- What can happen until the child is waited for: a tick of the tracker, a poll by the ticker of
-- one of the supervisors, the end of a grace period, Stop or the end of the context as the watcher
-- sees it, and procDone as one of the goroutines sees it.
pub data Happening : Type 0 where
  activity idle_poll watchdog_poll : ℕ → Happening
  idle_grace_over stop_grace_over stopping idle_sees_exit watchdog_sees_exit stop_sees_exit :
      Happening

abbrev pub sigterm : ℕ
sigterm = 15

-- A supervisor runs where its duration is positive.
abbrev pub threshold : ℤ → ℕ
threshold (pos n) = n
threshold (negsuc n) = 0

unfoldable pub guard_of : ℤ → Guard
guard_of d = if ltb 0 (threshold d) then polling else off

unfoldable pub start_attempt : SupervisorOptions → ℕ → Attempt
unfolding guard_of
start_attempt sup now = record {
  idle_guard = guard_of sup.idle_kill;
  watchdog_guard = guard_of sup.watchdog_timeout;
  stop_guard = polling;
  cause = no_cause;
  started_at = now;
  last = now;
  signals = [];
}

-- idleSince at the time `now`.
unfoldable pub idle_since : Attempt → ℕ → ℕ
idle_since a now = if a.last == 0 then now - a.started_at else now - a.last

unfoldable pub send : ℕ → Attempt → Attempt
send sig a = record a { signals = a.signals ++ signal sig ∷ [] }

unfoldable pub is_polling : Guard → Bool
is_polling off = false
is_polling polling = true
is_polling in_grace = false
is_polling returned = false

unfoldable pub is_in_grace : Guard → Bool
is_in_grace off = false
is_in_grace polling = false
is_in_grace in_grace = true
is_in_grace returned = false

-- killWithGrace up to its wait.
unfoldable pub idle_fires : Cause × Bool → Attempt → Attempt
unfolding send
idle_fires (c, false) a = record a { idle_guard = returned }
idle_fires (c, true) a = send sigterm (record a { idle_guard = in_grace; cause = c })

unfoldable pub watchdog_fires : Cause × Bool → Attempt → Attempt
unfolding send
watchdog_fires (c, false) a = record a { watchdog_guard = returned }
watchdog_fires (c, true) a = send sigkill (record a { watchdog_guard = returned; cause = c })

-- A goroutine that has returned, or that waits, does not poll.
unfoldable pub happen : SupervisorOptions → Happening → Attempt → Attempt
unfolding idle_since send is_polling is_in_grace idle_fires watchdog_fires
happen sup (activity now) a = record a { last = now }
happen sup (idle_poll now) a =
    if not (is_polling a.idle_guard) || ltb (idle_since a now) (threshold sup.idle_kill)
    then a
    else idle_fires (try_set_cause idle_timeout a.cause) a
happen sup (watchdog_poll now) a =
    if not (is_polling a.watchdog_guard) || ltb (idle_since a now) (threshold sup.watchdog_timeout)
    then a
    else watchdog_fires (try_set_cause watchdog_kill a.cause) a
happen sup idle_grace_over a =
    if is_in_grace a.idle_guard then send sigkill (record a { idle_guard = returned }) else a
happen sup stopping a =
    if is_polling a.stop_guard then send sigterm (record a { stop_guard = in_grace }) else a
happen sup stop_grace_over a =
    if is_in_grace a.stop_guard then send sigkill (record a { stop_guard = returned }) else a
happen sup idle_sees_exit a = record a { idle_guard = returned }
happen sup watchdog_sees_exit a = record a { watchdog_guard = returned }
happen sup stop_sees_exit a = record a { stop_guard = returned }

unfoldable pub happenings : SupervisorOptions → List Happening → Attempt → Attempt
unfolding happen
happenings sup [] a = a
happenings sup (h ∷ hs) a = happenings sup hs (happen sup h a)

-- waitOnceSupervised: the attempt with what happens in it, and what cmd.Wait answers.
unfoldable pub wait_once_supervised :
    SupervisorOptions
    → ℕ
    → List Happening
    → Option ProcessState
    → Option WaitError
    → Option ExitError
unfolding happenings start_attempt
wait_once_supervised sup now hs ps wait_err =
    build_exit_error ps wait_err (happenings sup hs (start_attempt sup now)).cause
