-- ===== src/JsonRpc/Spawning.antt =====
-- spawnAttempt of agentsessions/jsonrpc_stdio_session.go.
use go_agent_sessions.Prelude.{
  ℕ, Bool, true, not, ◌&&◌, Option, none, some, List, [], ◌∷◌, ◌++◌, if◌then◌else◌, nat_eq, ◌==◌,
}
use go_agent_sessions.Prelude.Texts.{is_blank}
use go_agent_sessions.Spawn.Options.{Command}
use go_agent_sessions.Spawn.Limits.{apply_resource_limits}
use go_agent_sessions.Spawn.Attempt.{
  Setup, Step, limits_up, reap, open_pipe, close_pipe, start, signal, write, stdin_pipe,
  stdout_pipe, SpawnError, binary_not_found, sandbox_error, limits_error, stdin_error, stdout_error,
  start_error, prompt_error, on_stdin, build_command, release_sandbox, apply_sandbox, cleanup,
}
use go_agent_sessions.Supervision.{sigkill}
use go_agent_sessions.Child.{tick_activity}
use go_agent_sessions.Stdio.Spawning.{Launched}
use go_agent_sessions.JsonRpc.Hosting.{Hosted, with_child}

-- The session, what was done, and the command or the error.
pub record Spawned : Type 0 where
  pub session : Hosted
  pub steps : List Step
  pub error : Option SpawnError
  pub command : Option Command

unfoldable pub failed : Hosted → List Step → SpawnError → Spawned
failed h steps e = record { session = h; steps = steps; error = some e; command = none }

-- The stores after cmd.Start: cmd, stdin, stdout, startedPID and lastPID.
unfoldable pub running : ℕ → ℕ → Hosted → Hosted
running attempt pid h =
    with_child
      (record h.child {
        cmd = some pid;
        input = true;
        output = true;
        started_pid = if attempt == 0 then pid else h.child.started_pid;
        last_pid = pid;
      })
      h

-- The write of the boot prompt; `steps` is what was done before.
unfoldable pub boot_stage : Bool → ℕ → Command → List Step → Hosted → Spawned
unfolding failed tick_activity cleanup
boot_stage prompt_ok attempt cmd steps h =
    let opts = h.child.opts in
    if attempt == 0 && on_stdin opts && not (is_blank opts.boot_prompt)
    then (if prompt_ok
        then (record {
          session = with_child (tick_activity h.child) h;
          steps = steps ++ write opts.boot_prompt ∷ [];
          error = none;
          command = some cmd;
        })
        else failed h
            (steps
              ++ signal sigkill
                ∷ reap
                ∷ close_pipe stdin_pipe
                ∷ close_pipe stdout_pipe
                ∷ cleanup opts)
            prompt_error)
    else (record { session = h; steps = steps; error = none; command = some cmd })

-- cmd.Start, which answers with the pid, once both pipes are open.
unfoldable pub exec_stage : Launched → ℕ → Command → List Step → Hosted → Spawned
unfolding failed running cleanup boot_stage
exec_stage l attempt cmd steps h = elim l.pid [
  | none ↦
      failed h (steps ++ close_pipe stdin_pipe ∷ close_pipe stdout_pipe ∷ cleanup h.child.opts)
        start_error
  | some pid ↦ boot_stage l.prompt_ok attempt cmd (steps ++ start pid ∷ []) (running attempt pid h)
]

-- cmd.StdinPipe and cmd.StdoutPipe.
unfoldable pub pipe_stage : Launched → ℕ → Command → List Step → Hosted → Spawned
unfolding failed exec_stage cleanup
pipe_stage l attempt cmd steps h =
    if l.stdin_ok
    then (if l.stdout_ok
        then exec_stage l attempt cmd (steps ++ open_pipe stdin_pipe ∷ open_pipe stdout_pipe ∷ []) h
        else failed h (steps ++ open_pipe stdin_pipe ∷ close_pipe stdin_pipe ∷ cleanup h.child.opts)
            stdout_error)
    else failed h (steps ++ cleanup h.child.opts) stdin_error

-- applyResourceLimits, after sandbox.Apply.
unfoldable pub limited_stage : Setup → Launched → ℕ → Command × List Step → Hosted → Spawned
unfolding failed release_sandbox pipe_stage
limited_stage setup l attempt (cmd, steps) h =
    elim (apply_resource_limits setup.host h.child.opts.resource_limits cmd) [
      | none ↦ failed h (steps ++ release_sandbox h.child.opts) limits_error
      | some wrapped ↦ pipe_stage l attempt wrapped (steps ++ limits_up ∷ []) h
    ]

unfoldable pub spawn_attempt : Setup → Launched → ℕ → Hosted → Spawned
unfolding failed limited_stage
spawn_attempt setup l attempt h =
    let opts = h.child.opts in
    elim setup.adapter.detect [
      | none ↦ failed h [] binary_not_found
      | some binary ↦
          elim (apply_sandbox setup opts
            (build_command setup opts binary h.child.last_session_id attempt (not opts.stderr))) [
              | none ↦ failed h [] sandbox_error
              | some boxed ↦ limited_stage setup l attempt boxed h
            ]
    ]
