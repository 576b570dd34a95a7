-- ===== src/Child/Ending.antt =====
-- The ends of a session of one child (agentsessions/streaming_stdio_session.go): the waiter
-- without a supervisor, the deferred end of runSupervised, Wait, and logAbnormalWait
-- (agentsessions/diagnostics.go).
use go_agent_sessions.Prelude.{
  ℕ, Bool, true, false, ◌&&◌, ◌||◌, Option, none, some, if◌then◌else◌, ltb,
}
use go_agent_sessions.Prelude.Int.{ℤ, pos, negsuc, int32}
use go_agent_sessions.Supervision.{WaitError, exec_exit, other_error, ExitError, second}
use go_agent_sessions.Turns.{stopped}
use go_agent_sessions.Child.{ChildSession, Reported, plain, structured}

abnormal_error : Option WaitError → Bool
abnormal_error none = false
abnormal_error (some (exec_exit c)) = false
abnormal_error (some (other_error e)) = true

-- logAbnormalWait: does it print its line?
unfoldable pub log_abnormal_wait : ℕ → Option WaitError → Bool
unfolding abnormal_error
log_abnormal_wait elapsed err = abnormal_error err || (ltb 0 elapsed && ltb elapsed second)

-- The switch under waitOnce.Do of the waiter: the code and the error.
unfoldable pub legacy_outcome : Option WaitError → ℤ × Option Reported
legacy_outcome none = (pos 0, none)
legacy_outcome (some (exec_exit c)) = (int32 c, none)
legacy_outcome (some (other_error e)) = (negsuc 0, some (plain (other_error e)))

-- waitOnce.Do
unfoldable pub report_once : ℤ × Option Reported → ChildSession → ChildSession
report_once (code, err) s =
    if s.done then s else record s { done = true; wait_code = code; wait_err = err }

-- spawnWaiterLegacy, from the return of cmd.Wait to its end, with the reader at its end before
-- `<-s.copyDone`.
unfoldable pub legacy_wait : Option WaitError → ChildSession → ChildSession
unfolding report_once legacy_outcome
legacy_wait err s = report_once (legacy_outcome err) (record s {
  input = false;
  output = false;
  copy_done = true;
  log_open = false;
  alive = false;
  state = stopped;
  released = true;
  cleaned = true;
})

unfoldable pub supervised_outcome : Option ExitError → ℤ × Option Reported
supervised_outcome none = (pos 0, none)
supervised_outcome (some xe) = (int32 xe.code, some (structured xe))

-- The deferred function of runSupervised, with lastExit; each attempt has run its own cleanup.
unfoldable pub finish_supervised : Option ExitError → ChildSession → ChildSession
unfolding report_once supervised_outcome
finish_supervised last_exit s = report_once (supervised_outcome last_exit) (record s {
  log_open = false;
  alive = false;
  state = stopped;
  copy_done = true;
  cleaned = true;
})

-- waitOnceSupervised, on the session's fields when the attempt is over.
unfoldable pub close_attempt : ChildSession → ChildSession
close_attempt s = record s { input = false; output = false }

-- Wait; `none` while the session runs.
unfoldable pub wait : ChildSession → Option (ℤ × Option Reported)
wait s = if s.done then some (s.wait_code, s.wait_err) else none
