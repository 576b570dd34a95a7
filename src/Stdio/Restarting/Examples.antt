-- ===== src/Stdio/Restarting/Examples.antt =====
-- The theorems on the restart loop of a session on pipes at a concrete input: a child that fails
-- each time, restarted twice.
use go_agent_sessions.Prelude.{ℕ, ◌+◌, ◌≤◌, ◌≡◌, refl, false, true, none, some, [], String}
use go_agent_sessions.Prelude.Int.{pos}
use go_agent_sessions.Prelude.Texts.{codes}
use go_agent_sessions.Supervision.{SupervisorOptions, exec_exit}
use go_agent_sessions.Supervision as Loop
use go_agent_sessions.Spawn.Attempt.{SpawnError, apply_sandbox, on_stdin}
use go_agent_sessions.Spawn.Limits.{apply_resource_limits}
use go_agent_sessions.Child.{ChildSession, new_session}
use go_agent_sessions.Child.Ending.{supervised_outcome, wait}
use go_agent_sessions.Stdio.Spawning.{spawn_attempt}
use go_agent_sessions.Stdio.Steps.{held_after, nothing_held}
use go_agent_sessions.Stdio.Examples.{echo, options}
use go_agent_sessions.Child.Restarting.{Round, spawned, run_loop}
use go_agent_sessions.Stdio.Restarting.{Found, on_pipes, run_session}
use go_agent_sessions.Child.Restarting.Refines.{attempts_of, run_loop-Refines}
use go_agent_sessions.Stdio.Restarting.Released.{run_session-Released}

abbrev text : SpawnError → String
text e = "spawn"

abbrev twice : SupervisorOptions
twice = record {
  idle_kill = pos 0;
  watchdog_timeout = pos 0;
  restart_on_crash = pos 2;
  max_restart_backoff = pos 0;
}

abbrev spawning : ℕ → Found
spawning n = record {
  setup = echo;
  launched = record { stdin_ok = true; stdout_ok = true; pid = some (40 + n); prompt_ok = true };
}

abbrev failing : ℕ → Round
failing n = record {
  output = codes "id\n";
  now = 0;
  happenings = [];
  ps = some (record { exit_code = pos 1; signaled = none });
  wait_err = some (exec_exit (pos 1));
  stopped = false;
  cut = false;
}

abbrev session : ChildSession
session = new_session [] options 8

released_example :
    let first = spawned (on_pipes text spawning) twice failing 0 session in
    let v = run_loop (on_pipes text spawning) twice failing first in
    let final = run_session text spawning twice failing first in
    (v.loop.waits ≤ 3)
    × (held_after nothing_held v.steps ≡ nothing_held)
    × (final.alive ≡ false)
    × (wait final ≡ some (supervised_outcome v.loop.last_exit))
unfolding new_session spawn_attempt apply_sandbox apply_resource_limits on_stdin
released_example = run_session-Released text spawning twice failing session refl refl

refines_example :
    (run_loop
      (on_pipes text spawning)
      twice
      failing
      (spawned (on_pipes text spawning) twice failing 0 session)).loop
    ≡ Loop.run_supervised twice (
        attempts_of
          (on_pipes text spawning)
          twice
          failing
          (spawned (on_pipes text spawning) twice failing 0 session))
refines_example =
    run_loop-Refines (on_pipes text spawning) twice failing
      (spawned (on_pipes text spawning) twice failing 0 session)
