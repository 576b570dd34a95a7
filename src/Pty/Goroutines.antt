-- ===== src/Pty/Goroutines.antt =====
-- The goroutines of agentsessions/pty_session.go, which have the bodies of those in
-- agentsessions/streaming_stdio_session.go.
use go_agent_sessions.Prelude.{ℕ, Option, List}
use go_agent_sessions.Prelude.Int.{ℤ}
use go_agent_sessions.Prelude.Texts.{Bytes}
use go_agent_sessions.Supervision.{WaitError, ExitError, ProcessState, SupervisorOptions}
use go_agent_sessions.Spawn.Attempt.{Adapter}
use go_agent_sessions.Child.{ChildSession, Reported}
use go_agent_sessions.Child.Reading as Reading
use go_agent_sessions.Child.Ending as Ending
use go_agent_sessions.Child.Watching as Watching

-- runReaderLoop
unfoldable pub run_reader_loop : Adapter → Bytes → ChildSession → ChildSession
run_reader_loop a out s = Reading.run_reader_loop a out s

-- spawnWaiterLegacy
unfoldable pub legacy_wait : Option WaitError → ChildSession → ChildSession
legacy_wait err s = Ending.legacy_wait err s

-- The deferred function of runSupervised.
unfoldable pub finish_supervised : Option ExitError → ChildSession → ChildSession
finish_supervised last_exit s = Ending.finish_supervised last_exit s

-- superviseIdle, superviseWatchdog and the watcher for Stop.
unfoldable pub happenings :
    SupervisorOptions → List Watching.Happening → Watching.Attempt → Watching.Attempt
happenings sup hs a = Watching.happenings sup hs a

-- waitOnceSupervised: the reader can tick the tracker before the supervisors start; the tracker is
-- set again then.
unfoldable pub wait_once_supervised :
    SupervisorOptions
    → ℕ
    → List Watching.Happening
    → Option ProcessState
    → Option WaitError
    → Option ExitError
wait_once_supervised sup supervised_at hs ps wait_err =
    Watching.wait_once_supervised sup supervised_at hs ps wait_err

-- Wait
unfoldable pub wait : ChildSession → Option (ℤ × Option Reported)
wait s = Ending.wait s
