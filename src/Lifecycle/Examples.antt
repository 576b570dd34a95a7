-- ===== src/Lifecycle/Examples.antt =====
-- The theorem on NewFromAdapter (agentsessions/from_adapter.go) at a concrete configuration.
use go_agent_sessions.Prelude.{◌≡◌, ◌≢◌, refl, true, string_eq}
use go_agent_sessions.Lifecycle.{
  no_caps, AdapterRuntimeConfig, pty_runtime, new_from_adapter, validate_lifecycle, select_runtime,
}
use go_agent_sessions.Lifecycle.Selection.{Selected, new_from_adapter-Selected}

-- A PTY adapter that leaves its Kind to the default.
abbrev terminal : AdapterRuntimeConfig
terminal = record {
  id = "claude";
  kind = "";
  has_adapter = true;
  caps = record no_caps { pty = true };
}

new_from_adapter_example :
    (terminal.id ≢ "")
    × (terminal.has_adapter ≡ true)
    × Selected terminal (pty_runtime (record terminal { kind = "cli" }))
unfolding new_from_adapter validate_lifecycle select_runtime
new_from_adapter_example =
    new_from_adapter-Selected terminal (pty_runtime (record terminal { kind = "cli" })) refl
