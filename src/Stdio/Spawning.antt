-- ===== src/Stdio/Spawning.antt =====
-- spawnAttempt of agentsessions/streaming_stdio_session.go.
use go_agent_sessions.Prelude.{
  ℕ, Bool, true, not, ◌&&◌, Option, none, some, List, [], ◌∷◌, ◌++◌, if◌then◌else◌, nat_eq, ◌==◌,
}
use go_agent_sessions.Prelude.Texts.{is_blank}
use go_agent_sessions.Spawn.Options.{Command}
use go_agent_sessions.Spawn.Limits.{apply_resource_limits}
use go_agent_sessions.Spawn.Attempt.{
  Setup, Step, limits_up, reap, open_pipe, close_pipe, start, signal, write, stdin_pipe,
  stdout_pipe, SpawnError, binary_not_found, sandbox_error, limits_error, stdin_error, stdout_error,
  start_error, prompt_error, on_stdin, build_command, release_sandbox, apply_sandbox, cleanup,
}
use go_agent_sessions.Supervision.{sigkill}
use go_agent_sessions.Child.{ChildSession, tick_activity}

-- What StdinPipe, StdoutPipe, cmd.Start (with the pid) and the write of the boot prompt answer.
pub record Launched : Type 0 where
  pub stdin_ok : Bool
  pub stdout_ok : Bool
  pub pid : Option ℕ
  pub prompt_ok : Bool

-- The session, what was done, and the command or the error.
pub record Spawned : Type 0 where
  pub session : ChildSession
  pub steps : List Step
  pub error : Option SpawnError
  pub command : Option Command

unfoldable pub refuse : ChildSession → List Step → SpawnError → Spawned
refuse s steps e = record { session = s; steps = steps; error = some e; command = none }

-- From the stores after cmd.Start on; `steps` is what was done before.
unfoldable pub prompt_stage : Launched → ℕ → Command → ℕ → List Step → ChildSession → Spawned
unfolding refuse tick_activity cleanup
prompt_stage l attempt cmd pid steps s =
    let s' : ChildSession = record s {
      cmd = some pid;
      input = true;
      output = true;
      started_pid = if attempt == 0 then pid else s.started_pid;
      last_pid = pid;
    } in
    let ok : Spawned = record { session = s'; steps = steps; error = none; command = some cmd } in
    let prompt = s.opts.boot_prompt in
    if not (attempt == 0 && on_stdin s.opts && not (is_blank prompt))
    then ok
    else (if l.prompt_ok
        then record ok { session = tick_activity s'; steps = steps ++ write prompt ∷ [] }
        else refuse s'
            (steps
              ++ signal sigkill
                ∷ reap
                ∷ close_pipe stdin_pipe
                ∷ close_pipe stdout_pipe
                ∷ cleanup s.opts)
            prompt_error)

-- cmd.StdinPipe, cmd.StdoutPipe and cmd.Start.
unfoldable pub start_stage : Launched → ℕ → Command → List Step → ChildSession → Spawned
unfolding refuse cleanup prompt_stage
start_stage l attempt cmd steps s =
    if not l.stdin_ok
    then refuse s (steps ++ cleanup s.opts) stdin_error
    else (if not l.stdout_ok
        then refuse s (steps ++ open_pipe stdin_pipe ∷ close_pipe stdin_pipe ∷ cleanup s.opts)
            stdout_error
        else elim l.pid [
          | none ↦
              refuse s
                (steps
                  ++ open_pipe stdin_pipe
                    ∷ open_pipe stdout_pipe
                    ∷ close_pipe stdin_pipe
                    ∷ close_pipe stdout_pipe
                    ∷ cleanup s.opts)
                start_error
          | some pid ↦
              prompt_stage l attempt cmd pid
                (steps ++ open_pipe stdin_pipe ∷ open_pipe stdout_pipe ∷ start pid ∷ []) s
        ])

-- applyResourceLimits
unfoldable pub limits_stage : Setup → Launched → ℕ → Command × List Step → ChildSession → Spawned
unfolding refuse release_sandbox start_stage
limits_stage setup l attempt (cmd, steps) s =
    elim (apply_resource_limits setup.host s.opts.resource_limits cmd) [
      | none ↦ refuse s (steps ++ release_sandbox s.opts) limits_error
      | some wrapped ↦ start_stage l attempt wrapped (steps ++ limits_up ∷ []) s
    ]

unfoldable pub spawn_attempt : Setup → Launched → ℕ → ChildSession → Spawned
unfolding refuse limits_stage
spawn_attempt setup l attempt s = elim setup.adapter.detect [
  | none ↦ refuse s [] binary_not_found
  | some binary ↦
      elim (apply_sandbox setup s.opts
        (build_command setup s.opts binary s.last_session_id attempt (not s.opts.stderr))) [
          | none ↦ refuse s [] sandbox_error
          | some boxed ↦ limits_stage setup l attempt boxed s
        ]
]
