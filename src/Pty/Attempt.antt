-- ===== src/Pty/Attempt.antt =====
-- spawnAttempt of agentsessions/pty_session.go.
use go_agent_sessions.Prelude.{
  ℕ, true, false, Option, none, some, List, [], ◌∷◌, ◌++◌, if◌then◌else◌, nat_eq, ◌==◌,
}
use go_agent_sessions.Spawn.Options.{Command}
use go_agent_sessions.Spawn.Limits.{apply_resource_limits}
use go_agent_sessions.Spawn.Attempt.{
  Setup, Step, limits_up, open_pipe, start, ptmx, binary_not_found, sandbox_error, limits_error,
  start_error, build_command, release_sandbox, apply_sandbox, cleanup,
}
use go_agent_sessions.Child.{ChildSession}
use go_agent_sessions.Stdio.Spawning.{Spawned, refuse}

-- pty.Start, which answers a pid or an error, and the stores behind it.
unfoldable pub start_stage : Option ℕ → ℕ → Command → List Step → ChildSession → Spawned
unfolding refuse cleanup
start_stage none attempt cmd steps s = refuse s (steps ++ cleanup s.opts) start_error
start_stage (some pid) attempt cmd steps s = record {
  session = record s {
    cmd = some pid;
    input = true;
    started_pid = if attempt == 0 then pid else s.started_pid;
    last_pid = pid;
  };
  steps = steps ++ open_pipe ptmx ∷ start pid ∷ [];
  error = none;
  command = some cmd;
}

unfoldable pub limits_stage : Setup → Option ℕ → ℕ → Command × List Step → ChildSession → Spawned
unfolding refuse release_sandbox start_stage
limits_stage setup pid attempt (cmd, steps) s =
    elim (apply_resource_limits setup.host s.opts.resource_limits cmd) [
      | none ↦ refuse s (steps ++ release_sandbox s.opts) limits_error
      | some wrapped ↦ start_stage pid attempt wrapped (steps ++ limits_up ∷ []) s
    ]

unfoldable pub spawn_attempt : Setup → Option ℕ → ℕ → ChildSession → Spawned
unfolding refuse limits_stage
spawn_attempt setup pid attempt s = elim setup.adapter.detect [
  | none ↦ refuse s [] binary_not_found
  | some binary ↦
      elim (apply_sandbox setup s.opts
        (build_command setup s.opts binary s.last_session_id attempt false)) [
          | none ↦ refuse s [] sandbox_error
          | some boxed ↦ limits_stage setup pid attempt boxed s
        ]
]
