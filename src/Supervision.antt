-- ===== src/Supervision.antt =====
-- agentsessions/supervision.go, and the supervised wait of the long-lived sessions (runSupervised
-- in agentsessions/jsonrpc_stdio_session.go; streaming_stdio_session.go and pty_session.go have
-- the same loop). The child, the clock and the context are arguments: what each attempt ends with,
-- and whether the session was stopped meanwhile.
pub mod Backoff
pub mod Causes
pub mod Restarts
pub mod Recovery
pub mod Examples
use go_agent_sessions.Prelude.{
  ℕ, zero, suc, ◌+◌, ◌-◌, ◌*◌, ◌^◌, ◌%◌, ◌≡◌, Bool, true, false, not, ◌&&◌, ◌||◌, Option, none,
  some, List, [], ◌∷◌, ◌++◌, String, if◌then◌else◌, ltb, leb, nat_eq, ◌==◌, max,
}
use go_agent_sessions.Prelude.Int.{ℤ, pos, negsuc}
use go_agent_sessions.Attach.{positive_or}

-- The Cause constants; `no_cause` is the empty string.
pub data Cause : Type 0 where
  no_cause idle_timeout watchdog_kill restart_exhausted oom_kill resource_limit : Cause

-- An error of cmd.Wait: *exec.ExitError with its code, or anything else.
pub data WaitError : Type 0 where
  exec_exit : ℤ → WaitError
  other_error : String → WaitError

-- os.ProcessState: the exit code, and the signal where Sys() is a WaitStatus that was signaled.
pub record ProcessState : Type 0 where
  pub exit_code : ℤ
  pub signaled : Option ℕ

pub record ExitError : Type 0 where
  pub code : ℤ
  pub signal : ℕ
  pub killed : Bool
  pub process_state : Option ProcessState
  pub cause : Cause
  pub wait_err : Option WaitError

abbrev pub sigkill : ℕ
sigkill = 9

abbrev pub is_empty : Cause → Bool
is_empty no_cause = true
is_empty idle_timeout = false
is_empty watchdog_kill = false
is_empty restart_exhausted = false
is_empty oom_kill = false
is_empty resource_limit = false

-- Code and signal as the ProcessState gives them.
state_code : Option ProcessState → ℤ
state_code none = negsuc 0
state_code (some ps) = ps.exit_code

state_signal : Option ProcessState → ℕ
state_signal none = 0
state_signal (some ps) = elim ps.signaled [ none ↦ 0 | some sig ↦ sig ]

state_killed : Option ProcessState → Bool
state_killed none = false
state_killed (some ps) = elim ps.signaled [ none ↦ false | some sig ↦ sig == sigkill ]

-- `if xe.Code == -1 && errors.As(waitErr, &ee) { xe.Code = ee.ExitCode() }`
fallback_code : ℤ → Option WaitError → ℤ
fallback_code (negsuc zero) (some (exec_exit c)) = c
fallback_code c w = c

unfoldable pub build_exit_error : Option ProcessState → Option WaitError → Cause → Option ExitError
unfolding state_code state_signal state_killed fallback_code
build_exit_error ps none no_cause = none
build_exit_error ps w cause = some (record {
  code = fallback_code (state_code ps) w;
  signal = state_signal ps;
  killed = state_killed ps;
  process_state = ps;
  cause = cause;
  wait_err = w;
})

unfoldable pub is_zero : ℤ → Bool
is_zero (pos zero) = true
is_zero (pos (suc n)) = false
is_zero (negsuc n) = false

unfoldable pub restart_eligible : Option ExitError → Bool
unfolding is_zero
restart_eligible none = false
restart_eligible (some xe) =
    if not (is_empty xe.cause) then false else (not (is_zero xe.code) || not (xe.signal == 0))

-- trySetCause: the new cause, and what it returns.
unfoldable pub try_set_cause : Cause → Cause → Cause × Bool
try_set_cause c held = if not (is_empty held) then (held, false) else (c, true)

-- One nanosecond is 1.
abbrev pub second : ℕ
second = 1000000000

-- A non-negative number as an int64.
abbrev pub int64 : ℕ → ℤ
int64 n = let w = n % 2 ^ 64 in if ltb w (2 ^ 63) then pos w else negsuc (2 ^ 64 - 1 - w)

-- `base > maxBackoff`
above : ℤ → ℕ → Bool
above (pos n) m = ltb m n
above (negsuc n) m = false

-- `if attempt < 1 { attempt = 1 }`
abbrev pub at_least_one : ℤ → ℕ
at_least_one (pos n) = max 1 n
at_least_one (negsuc n) = 1

backoff_of : ℕ → ℕ → ℤ
unfolding above
backoff_of attempt cap =
    if ltb 30 attempt
    then pos cap
    else (let base = int64 (2 ^ (attempt - 1) * second) in if above base cap then pos cap else base)

-- computeRestartBackoff, in nanoseconds.
unfoldable pub compute_restart_backoff : ℤ → ℤ → ℤ
unfolding backoff_of
compute_restart_backoff attempt max_backoff =
    backoff_of (at_least_one attempt) (positive_or (30 * second) max_backoff)

-- Durations in nanoseconds.
pub record SupervisorOptions : Type 0 where
  pub idle_kill : ℤ
  pub watchdog_timeout : ℤ
  pub restart_on_crash : ℤ
  pub max_restart_backoff : ℤ

-- What happens from the wait on an attempt to the spawn of the next: the exit; whether the context
-- was done or Stop requested when the child had exited, or became so during the backoff; and the
-- error of the next spawn, if it failed.
pub record Attempt : Type 0 where
  pub exit : Option ExitError
  pub stopped : Bool
  pub cut : Bool
  pub respawn_error : Option WaitError

-- The loop's variables and the calls that it makes: the attempts waited for, the backoffs slept in
-- full, and the OnRestart calls.
pub record Supervised : Type 0 where
  pub last_exit : Option ExitError
  pub waits : ℕ
  pub backoffs : List ℤ
  pub on_restart : List (ℕ × ExitError)

-- lastExit = &ExitError{Code: -1, Cause: CauseRestartExhausted, waitErr: err}
abbrev pub spawn_failed : WaitError → ExitError
spawn_failed err = record {
  code = negsuc 0;
  signal = 0;
  killed = false;
  process_state = none;
  cause = restart_exhausted;
  wait_err = some err;
}

module _ (opts : SupervisorOptions) (attempts : ℕ → Attempt) where
  -- From the crash `xe` of attempt `n` to the next attempt, which `next` goes on with.
  unfoldable pub restart :
      (Supervised → Supervised) → ℕ → ExitError → Attempt → Supervised → Supervised
  restart next n xe a s =
      if a.cut
      then s
      else (let s' : Supervised = record s {
        backoffs =
            s.backoffs ++ compute_restart_backoff (pos (n + 1)) opts.max_restart_backoff ∷ [];
        on_restart = s.on_restart ++ (n + 1, xe) ∷ [];
      } in
          elim a.respawn_error [
            | none ↦ next s'
            | some err ↦ record s' { last_exit = some (spawn_failed err) }
          ])

  -- The end of the body: is the session stopped, the exit clean, a restart allowed?
  unfoldable pub judge :
      (ℕ → ExitError → Attempt → Supervised → Supervised)
      → ℕ
      → Option ExitError
      → Attempt
      → Supervised
      → Supervised
  judge crashed n exit a s = if a.stopped then s else elim exit [
    | none ↦ s
    | some xe ↦ if not (restart_eligible (some xe)) then s else crashed n xe a s
  ]

  -- if attempt >= maxRestarts { lastExit.Cause = CauseRestartExhausted; return }
  unfoldable pub give_up : ℕ → ExitError → Attempt → Supervised → Supervised
  give_up n xe a s = record s { last_exit = some (record xe { cause = restart_exhausted }) }

  -- The loop, with the number of restarts that are left; `n` is the attempt.
  unfoldable pub supervise : ℕ → ℕ → Supervised → Supervised
  unfolding judge give_up restart
  supervise zero n s =
      let a = attempts n in
      judge give_up n a.exit a (record s { last_exit = a.exit; waits = s.waits + 1 })
  supervise (suc left) n s =
      let a = attempts n in
      judge (restart (supervise left (n + 1))) n a.exit a
        (record s { last_exit = a.exit; waits = s.waits + 1 })

  -- runSupervised; a negative RestartOnCrash counts as zero.
  unfoldable pub run_supervised : Supervised
  unfolding supervise
  run_supervised =
      supervise (positive_or 0 opts.restart_on_crash) 0
        (record { last_exit = none; waits = 0; backoffs = []; on_restart = [] })

-- The deferred end: what Wait reports, the exit code and the error.
unfoldable pub reported_code : Option ExitError → ℤ
reported_code none = pos 0
reported_code (some xe) = xe.code
