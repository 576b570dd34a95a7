-- ===== src/Pty/Examples.antt =====
-- The theorems on the session on a pseudo-terminal (agentsessions/pty_session.go) at concrete
-- inputs.
use go_agent_sessions.Prelude.{ℕ, ◌+◌, ◌≤◌, ◌≡◌, String, true, false, none, some, [], refl}
use go_agent_sessions.Prelude.Int.{pos}
use go_agent_sessions.Prelude.Texts.{codes}
use go_agent_sessions.Spawn.Options.{StartOptions}
use go_agent_sessions.Spawn.Limits.{linux}
use go_agent_sessions.Spawn.Attempt.{Setup}
use go_agent_sessions.Child.{ChildSession, new_session}
use go_agent_sessions.Stdio.Clients.{elapsed}
use go_agent_sessions.Supervision.{SupervisorOptions, exec_exit}
use go_agent_sessions.Child.Ending.{supervised_outcome, wait}
use go_agent_sessions.Child.Restarting.{Round, run_loop}
use go_agent_sessions.Stdio.Steps.{held_after, nothing_held}
use go_agent_sessions.Pty.Attempt.{spawn_attempt}
use go_agent_sessions.Pty.Restarting.{Found, on_terminal, run_session}
use go_agent_sessions.Pty.Released.{pty_session-Released}
use go_agent_sessions.Spawn.Attempt.{SpawnError, apply_sandbox, on_stdin}
use go_agent_sessions.Spawn.Limits.{apply_resource_limits}
use go_agent_sessions.Pty.Clients.{World, start_session}
use go_agent_sessions.Pty.Starting.{Settled, pty_start-Settled}

abbrev shell : Setup
shell = record {
  adapter = record {
    detect = some (codes "/bin/sh");
    build_args = λ prompt system preset. [];
    parse_line = λ raw. none;
    parse_line_events = none;
  };
  host = record { goos = linux; sh = none; systemd_run = none; systemd_probe = false };
  environ = [];
  sandbox = λ profile cmd. some cmd;
  keeps_session_id = false;
}

abbrev options : StartOptions
options = record {
  workdir = codes "/w";
  workspace_dir = codes "/s";
  log_path = [];
  boot_prompt = codes "hello";
  boot_content = [];
  plant_context = record { system_prompt = []; boot_content = []; project_dir = []; boot_dir = [] };
  boot_mode = codes "stdin";
  env = [];
  stderr = false;
  extra_files = [];
  profile_id = codes "strict";
  fanout = true;
  event_fanout = false;
  session_id_preset = [];
  on_session_id = true;
  attach_enabled = false;
  ring_bytes = pos 0;
  subscriber_depth = pos 0;
  auto_fire_first_turn = true;
  first_turn_payload = codes "go";
  typed_event_callback = false;
  supervisor = none;
  json_rpc_notification_hook = false;
  json_rpc_request_hook = false;
  auto_plant_boot_dir = false;
  boot_dir_root = [];
  on_boot_dir_planted = false;
  extra_args = [];
  resource_limits = none;
}

abbrev session : ChildSession
session = new_session [] options 8

abbrev world : World
world = record {
  setup = shell;
  plant = λ opts. some (codes "/boot", opts);
  join = λ parts. [];
  mkdir_ok = true;
  create_ok = true;
  room = 8;
  pid = some 7;
  ready = true;
  prompt_ok = true;
  turn_ok = true;
  term_ok = true;
  stop_wait = elapsed;
}

pty_start_example : Settled (codes "/boot") options (start_session world options)
pty_start_example = pty_start-Settled world options options (codes "/boot") refl refl

abbrev text : SpawnError → String
text e = "spawn"

abbrev found : ℕ → Found
found n = record { setup = shell; started = some (40 + n) }

abbrev once_again : SupervisorOptions
once_again = record {
  idle_kill = pos 0;
  watchdog_timeout = pos 0;
  restart_on_crash = pos 1;
  max_restart_backoff = pos 0;
}

abbrev failing : ℕ → Round
failing n = record {
  output = codes "hi\n";
  now = 0;
  happenings = [];
  ps = some (record { exit_code = pos 1; signaled = none });
  wait_err = some (exec_exit (pos 1));
  stopped = false;
  cut = false;
}

pty_released_example :
    let first = spawn_attempt shell (some 40) 0 (new_session [] options 8) in
    let v = run_loop (on_terminal text found) once_again failing first in
    let final = run_session text found once_again failing first in
    (v.loop.waits ≤ 2)
    × (held_after nothing_held v.steps ≡ nothing_held)
    × (final.alive ≡ false)
    × (wait final ≡ some (supervised_outcome v.loop.last_exit))
unfolding new_session spawn_attempt apply_sandbox apply_resource_limits on_stdin
pty_released_example =
    pty_session-Released text found once_again failing (new_session [] options 8) refl refl
