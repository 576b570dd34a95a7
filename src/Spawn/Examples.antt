-- ===== src/Spawn/Examples.antt =====
-- applyResourceLimits of agentsessions/wraparg_unix.go at concrete inputs.
use go_agent_sessions.Prelude.{true, some, [], ◌∷◌, ◌≡◌, refl}
use go_agent_sessions.Prelude.Int.{pos}
use go_agent_sessions.Prelude.Texts.{codes}
use go_agent_sessions.Spawn.Options.{ResourceLimits, Command}
use go_agent_sessions.Spawn.Limits.{
  cpu_seconds, Host, linux, uses_systemd, systemd_run_user_available, ulimits,
}
use go_agent_sessions.Spawn.Wrapped.{Within, Each, ulimits-Within}

abbrev desktop : Host
desktop = record {
  goos = linux;
  sh = some (codes "/bin/sh");
  systemd_run = some (codes "/usr/bin/systemd-run");
  systemd_probe = true;
}

abbrev tight : ResourceLimits
tight = record {
  cpu_time = pos 2500000000;
  memory_max = 4096;
  max_open_files = 64;
  max_processes = 0;
  max_file_size = 100;
}

abbrev claude : Command
claude = record {
  path = codes "/bin/claude";
  args = codes "/bin/claude" ∷ codes "-p" ∷ [];
  dir = codes "/w";
  env = [];
  extra_files = [];
  stderr_to_log = true;
}

ulimits-tight :
    ulimits desktop tight
    ≡ record { flag = b't'; value = 2 }
      ∷ record { flag = b'n'; value = 64 }
      ∷ record { flag = b'f'; value = 1 }
      ∷ []
unfolding ulimits uses_systemd systemd_run_user_available
ulimits-tight = refl

within_example : Each (Within tight) (ulimits desktop tight)
within_example = ulimits-Within desktop tight

-- A nanosecond below 2 ^ 24 + 1 seconds, the float64 sum is rounded up.
rounded_up : cpu_seconds 16777216999999999 ≡ 16777217
unfolding cpu_seconds
rounded_up = refl

not_rounded_up : cpu_seconds 16777215999999999 ≡ 16777215
unfolding cpu_seconds
not_rounded_up = refl
