-- ===== src/Stdio/Restarting.antt =====
-- runSupervised of agentsessions/streaming_stdio_session.go: the restart loop of Child/Restarting
-- with the attempts of a session on pipes.
pub mod Released
pub mod Examples
use go_agent_sessions.Prelude.{ℕ, ◌∷◌, String}
use go_agent_sessions.Supervision.{SupervisorOptions}
use go_agent_sessions.Spawn.Attempt.{
  Setup, SpawnError, reap, cleanup, close_pipe, stdin_pipe, stdout_pipe,
}
use go_agent_sessions.Child.{ChildSession}
use go_agent_sessions.Child.Restarting.{Respawn, Round}
use go_agent_sessions.Child.Restarting as Restarting
use go_agent_sessions.Stdio.Spawning.{Launched, Spawned, spawn_attempt}

-- What the spawn of each attempt finds.
pub record Found : Type 0 where
  pub setup : Setup
  pub launched : Launched

abbrev pub on_pipes : (SpawnError → String) → (ℕ → Found) → Respawn
on_pipes text found = record {
  adapter = (found 0).setup.adapter;
  spawn = λ n s. spawn_attempt (found n).setup (found n).launched n s;
  ending = λ o. reap ∷ close_pipe stdin_pipe ∷ close_pipe stdout_pipe ∷ cleanup o;
  message = text;
}

-- runSupervised
unfoldable pub run_session :
    (SpawnError → String) → (ℕ → Found) → SupervisorOptions → (ℕ → Round) → Spawned → ChildSession
unfolding Restarting.run_session
run_session text found sup rounds first =
    Restarting.run_session (on_pipes text found) sup rounds first
