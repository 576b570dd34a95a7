-- ===== src/Pty/Restarting.antt =====
-- runSupervised of agentsessions/pty_session.go: the restart loop of Child/Restarting with the
-- attempts of a session on a terminal.
use go_agent_sessions.Prelude.{ℕ, Option, ◌∷◌, String}
use go_agent_sessions.Supervision.{SupervisorOptions}
use go_agent_sessions.Spawn.Attempt.{Setup, SpawnError, reap, close_pipe, ptmx, cleanup}
use go_agent_sessions.Child.{ChildSession}
use go_agent_sessions.Child.Restarting.{Respawn, Round}
use go_agent_sessions.Child.Restarting as Restarting
use go_agent_sessions.Stdio.Spawning.{Spawned}
use go_agent_sessions.Pty.Attempt.{spawn_attempt}

-- What the spawn of each attempt finds; pty.Start answers a pid or an error.
pub record Found : Type 0 where
  pub setup : Setup
  pub started : Option ℕ

abbrev pub on_terminal : (SpawnError → String) → (ℕ → Found) → Respawn
on_terminal text found = record {
  adapter = (found 0).setup.adapter;
  spawn = λ n s. spawn_attempt (found n).setup (found n).started n s;
  ending = λ o. reap ∷ close_pipe ptmx ∷ cleanup o;
  message = text;
}

-- runSupervised
unfoldable pub run_session :
    (SpawnError → String) → (ℕ → Found) → SupervisorOptions → (ℕ → Round) → Spawned → ChildSession
unfolding Restarting.run_session
run_session text found sup rounds first =
    Restarting.run_session (on_terminal text found) sup rounds first
