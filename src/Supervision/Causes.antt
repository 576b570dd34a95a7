-- ===== src/Supervision/Causes.antt =====
-- The cause of a termination in agentsessions/supervision.go: trySetCause, buildExitError and
-- restartEligible together.
use go_agent_sessions.Prelude.{◌≡◌, ◌≢◌, refl, false, Option, none, some, List, [], ◌∷◌}
use go_agent_sessions.Supervision.{
  Cause, no_cause, idle_timeout, watchdog_kill, restart_exhausted, oom_kill, resource_limit,
  WaitError, ProcessState, ExitError, is_empty, build_exit_error, restart_eligible, try_set_cause,
}

-- The goroutines of an attempt try to set their causes one after the other.
abbrev pub try_causes : List Cause → Cause → Cause
try_causes [] held = held
try_causes (c ∷ cs) held = try_causes cs (try_set_cause c held).0

keeps_cause : (cs : List Cause) (c : Cause) → is_empty c ≡ false → try_causes cs c ≡ c
unfolding try_set_cause
keeps_cause [] c h = refl
keeps_cause (d ∷ cs) c h = rw h (keeps_cause cs c h)

named : (c : Cause) → c ≢ no_cause → is_empty c ≡ false
named no_cause h = absurd (h refl)
named idle_timeout h = refl
named watchdog_kill h = refl
named restart_exhausted h = refl
named oom_kill h = refl
named resource_limit h = refl

keeps_first : (c : Cause) (cs : List Cause) → c ≢ no_cause → try_causes (c ∷ cs) no_cause ≡ c
unfolding try_set_cause
keeps_first c cs h = keeps_cause cs c (named c h)

pub build_exit_error-cause :
    (ps : Option ProcessState) (w : Option WaitError) (c : Cause)
    → c ≢ no_cause
    → (xe : ExitError) × (build_exit_error ps w c ≡ some xe) × (xe.cause ≡ c) × (xe.wait_err ≡ w)
unfolding build_exit_error
build_exit_error-cause ps none no_cause h = absurd (h refl)
build_exit_error-cause ps none idle_timeout h = (_, refl, refl, refl)
build_exit_error-cause ps none watchdog_kill h = (_, refl, refl, refl)
build_exit_error-cause ps none restart_exhausted h = (_, refl, refl, refl)
build_exit_error-cause ps none oom_kill h = (_, refl, refl, refl)
build_exit_error-cause ps none resource_limit h = (_, refl, refl, refl)
build_exit_error-cause ps (some w) c h = (_, refl, refl, refl)

pub caused-restart_eligible :
    (xe : ExitError) (c : Cause) → xe.cause ≡ c → c ≢ no_cause → restart_eligible (some xe) ≡ false
unfolding restart_eligible
caused-restart_eligible xe c e h = rw (e, named c h) refl

-- The first cause that is set on an attempt stays, whoever comes later; the exit error carries it
-- even where cmd.Wait reports no error, and such a termination is not restarted.
pub first_cause_wins :
    (c : Cause) (cs : List Cause) (ps : Option ProcessState) (w : Option WaitError)
    → c ≢ no_cause
    → (xe : ExitError) × (build_exit_error ps w (try_causes (c ∷ cs) no_cause) ≡ some xe)
      × (xe.cause ≡ c)
      × (xe.wait_err ≡ w)
      × (restart_eligible (some xe) ≡ false)
first_cause_wins c cs ps w h =
    let (xe, e, f, g) = build_exit_error-cause ps w c h in
    (xe, rw (keeps_first c cs h) e, f, g, caused-restart_eligible xe c f h)
