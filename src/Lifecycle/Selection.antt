-- ===== src/Lifecycle/Selection.antt =====
-- What the checks of NewFromAdapter (agentsessions/from_adapter.go) guarantee.
use go_agent_sessions.Prelude.{◌≡◌, ◌≢◌, Bool, true, false, arith, string_eq, ◌==◌, if◌then◌else◌}
use text.Mathlib.TextEquality.{eq_iff}
use go_agent_sessions.Lifecycle.{
  Capabilities, validate_lifecycle, AdapterRuntimeConfig, AdapterRuntime, pty_runtime,
  streaming_stdio_runtime, json_rpc_stdio_runtime, serve_http_runtime, adapter_runtime, built,
  new_from_adapter, select_runtime,
}

-- The lifecycle flags, in the order PTY, StreamingStdio, JsonRpcStdio, ServeHTTP.
abbrev pub Flags : Capabilities → Bool → Bool → Bool → Bool → Type 0
Flags c p s j h =
    (c.pty ≡ p) × (c.streaming_stdio ≡ s) × (c.json_rpc_stdio ≡ j) × (c.serve_http ≡ h)

-- The runtime's configuration is the caller's, in all its fields, with "cli" for an empty Kind.
abbrev pub Keeps : AdapterRuntimeConfig → AdapterRuntimeConfig → Type 0
Keeps cfg c = c ≡ record cfg { kind = if cfg.kind == "" then "cli" else cfg.kind }

-- The runtime is the one that its own flag asks for, and no other flag is set.
abbrev pub Selected : AdapterRuntimeConfig → AdapterRuntime → Type 0
Selected cfg (pty_runtime c) = Flags cfg.caps true false false false × Keeps cfg c
Selected cfg (streaming_stdio_runtime c) = Flags cfg.caps false true false false × Keeps cfg c
Selected cfg (json_rpc_stdio_runtime c) = Flags cfg.caps false false true false × Keeps cfg c
Selected cfg (serve_http_runtime c) = Flags cfg.caps false false false true × Keeps cfg c
Selected cfg (adapter_runtime c) = Flags cfg.caps false false false false × Keeps cfg c

select_runtime-Selected :
    (cfg : AdapterRuntimeConfig)
    → validate_lifecycle cfg.caps ≡ true
    → Selected cfg
        (select_runtime (record cfg { kind = if cfg.kind == "" then "cli" else cfg.kind }))
unfolding select_runtime validate_lifecycle
select_runtime-Selected cfg v = ground arith

-- NewFromAdapter builds a runtime only for a configuration with an ID and an adapter whose flags
-- are all clear or clear but one; the runtime is the flag's own, and its configuration is
-- the caller's in every field, but that an empty Kind has become "cli".
pub new_from_adapter-Selected :
    (cfg : AdapterRuntimeConfig) (r : AdapterRuntime)
    → new_from_adapter cfg ≡ built r
    → (cfg.id ≢ "") × (cfg.has_adapter ≡ true) × Selected cfg r
unfolding new_from_adapter
new_from_adapter-Selected cfg r e = ground (arith, eq_iff cfg.id "", select_runtime-Selected cfg)
