-- ===== src/Serve/Spawning.antt =====
-- spawn of agentsessions/serve_http_session.go.
use go_agent_sessions.Prelude.{
  ℕ, Bool, false, not, Option, none, some, List, [], ◌∷◌, ◌++◌, if◌then◌else◌,
}
use go_agent_sessions.Prelude.Texts.{Bytes, is_blank}
use go_agent_sessions.Spawn.Options.{StartOptions, Command}
use go_agent_sessions.Spawn.Limits.{apply_resource_limits}
use go_agent_sessions.Spawn.Attempt.{
  Setup, Step, limits_up, open_pipe, close_pipe, start, stdout_pipe, stderr_pipe, SpawnError,
  binary_not_found, sandbox_error, limits_error, stdout_error, stderr_error, start_error,
  release_sandbox, apply_sandbox, cleanup,
}
use go_agent_sessions.Serve.{ServeSession}

-- What StdoutPipe, StderrPipe and cmd.Start answer.
pub record Launched : Type 0 where
  pub stdout_ok : Bool
  pub stderr_ok : Bool
  pub pid : Option ℕ

-- The boot prompt and the preset go to the adapter as they are; stderr is a pipe.
unfoldable pub serve_command : Setup → StartOptions → Bytes → Command
serve_command setup opts binary = record {
  path = binary;
  args =
      binary ∷ setup.adapter.build_args [] opts.boot_prompt opts.session_id_preset
      ++ opts.extra_args;
  dir = opts.workdir;
  env = if is_blank opts.env then setup.environ else opts.env;
  extra_files = opts.extra_files;
  stderr_to_log = false;
}

abbrev pub both_pipes : List Step
both_pipes = open_pipe stdout_pipe ∷ open_pipe stderr_pipe ∷ []

-- cmd.Start, and the stores behind it.
unfoldable pub start_stage :
    Option ℕ → List Step → ServeSession → ServeSession × List Step × Option SpawnError
unfolding cleanup
start_stage none steps s =
    (s, steps ++ close_pipe stdout_pipe ∷ close_pipe stderr_pipe ∷ cleanup s.opts, some start_error)
start_stage (some pid) steps s =
    (record s { cmd = some pid; started_pid = pid; last_pid = pid }, steps ++ start pid ∷ [], none)

unfoldable pub limits_stage :
    Setup
    → Option ℕ
    → Command × List Step
    → ServeSession
    → ServeSession × List Step × Option SpawnError
unfolding start_stage release_sandbox
limits_stage setup pid (cmd, steps) s =
    elim (apply_resource_limits setup.host s.opts.resource_limits cmd) [
      | none ↦ (s, steps ++ release_sandbox s.opts, some limits_error)
      | some limited ↦ start_stage pid (steps ++ limits_up ∷ []) s
    ]

-- After the pipes.
unfoldable pub sandbox_stage :
    Setup → Option ℕ → Command → ServeSession → ServeSession × List Step × Option SpawnError
unfolding limits_stage
sandbox_stage setup pid cmd s = elim (apply_sandbox setup s.opts cmd) [
  | none ↦ (s, both_pipes, some sandbox_error)
  | some (boxed, steps) ↦ limits_stage setup pid (boxed, both_pipes ++ steps) s
]

unfoldable pub spawn :
    Setup → Launched → ServeSession → ServeSession × List Step × Option SpawnError
unfolding sandbox_stage serve_command
spawn setup l s = elim setup.adapter.detect [
  | none ↦ (s, [], some binary_not_found)
  | some binary ↦
      if not l.stdout_ok
      then (s, [], some stdout_error)
      else (if not l.stderr_ok
          then (s, open_pipe stdout_pipe ∷ close_pipe stdout_pipe ∷ [], some stderr_error)
          else sandbox_stage setup l.pid (serve_command setup s.opts binary) s)
]
