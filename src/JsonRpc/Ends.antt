-- ===== src/JsonRpc/Ends.antt =====
-- The end of a session of agentsessions/jsonrpc_stdio_session.go.
use go_agent_sessions.Prelude.{ℕ, ◌≡◌, Bool, false, Option, some, [], String}
use go_agent_sessions.Prelude.Int.{ℤ}
use go_agent_sessions.Prelude.Texts.{Bytes}
use go_agent_sessions.Supervision.{WaitError, ExitError}
use go_agent_sessions.Turns.{stopped}
use go_agent_sessions.Child.{Reported}
use go_agent_sessions.Child.Ending.{legacy_outcome, supervised_outcome}
use go_agent_sessions.Child.Ending as Ending
use go_agent_sessions.Stdio.Clients.{no_input_channel}
use go_agent_sessions.Stdio.Clients as Stdio
use go_agent_sessions.JsonRpc.{Outcome, waiting, returned, call, resume_phase}
use go_agent_sessions.JsonRpc as Client
use go_agent_sessions.JsonRpc.Hosting.{Hosted, legacy_wait, close_attempt, finish_supervised}
use go_agent_sessions.JsonRpc.Clients.{send_input, wait, health}

-- Without a supervisor the waiter ends the session; under one, the deferred function after the last
-- attempt.
pub data SessionEnd : Type 0 where
  waited : Option WaitError → SessionEnd
  supervised : Option ExitError → SessionEnd

abbrev pub ended : SessionEnd → Hosted → Hosted
ended (waited e) h = legacy_wait e h
ended (supervised x) h = finish_supervised x (close_attempt h)

abbrev pub outcome_of_end : SessionEnd → ℤ × Option Reported
outcome_of_end (waited e) = legacy_outcome e
outcome_of_end (supervised x) = supervised_outcome x

-- What is left of a session `h` in `h'`.
abbrev pub IsOver : SessionEnd → Hosted → Hosted → Type 0
IsOver e h h' =
    (wait h' ≡ some (outcome_of_end e))
    × (health h' ≡ (false, 0, stopped))
    × ((ok : Bool) (payload : Bytes) → send_input ok payload h' ≡ (h', [], some no_input_channel))
    × ((method params : String) → call method params h'.client ≡ h'.client)
    × ((i : ℕ)
        → h.client.phase i ≡ waiting
        → (o : Outcome) × ((resume_phase i h'.client (h'.client.phase i)).phase i ≡ returned o))
