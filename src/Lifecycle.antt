-- ===== src/Lifecycle.antt =====
-- agentsessions/types.go and agentsessions/from_adapter.go: the capability flags, and which runtime
-- NewFromAdapter builds for them.
pub mod Selection
pub mod Examples
use go_agent_sessions.Prelude.{
  ℕ, ◌+◌, ◌≡◌, Bool, true, false, Option, none, some, String, if◌then◌else◌, not, ltb, string_eq,
  ◌==◌,
}

pub record Capabilities : Type 0 where
  pub pty : Bool
  pub streaming_stdio : Bool
  pub json_rpc_stdio : Bool
  pub serve_http : Bool
  pub resize : Bool
  pub provider_session_id : Bool
  pub checkpoint_resume : Bool
  pub binary_required : Bool

-- The zero value.
abbrev pub no_caps : Capabilities
no_caps = record {
  pty = false;
  streaming_stdio = false;
  json_rpc_stdio = false;
  serve_http = false;
  resize = false;
  provider_session_id = false;
  checkpoint_resume = false;
  binary_required = false;
}

bit : Bool → ℕ
bit true = 1
bit false = 0

-- validateLifecycle: no error?
unfoldable pub validate_lifecycle : Capabilities → Bool
unfolding bit
validate_lifecycle c =
    not (ltb 1 (bit c.pty + bit c.streaming_stdio + bit c.json_rpc_stdio + bit c.serve_http))

-- What NewFromAdapter reads of AdapterRuntimeConfig; `has_adapter` is Adapter != nil.
pub record AdapterRuntimeConfig : Type 0 where
  pub id : String
  pub kind : String
  pub has_adapter : Bool
  pub caps : Capabilities

pub data ConfigError : Type 0 where
  id_required adapter_required many_lifecycles : ConfigError

-- The runtime types, with the configuration that they keep.
pub data AdapterRuntime : Type 0 where
  pty_runtime streaming_stdio_runtime json_rpc_stdio_runtime serve_http_runtime adapter_runtime :
      AdapterRuntimeConfig → AdapterRuntime

pub data Built : Type 0 where
  config_error : ConfigError → Built
  built : AdapterRuntime → Built

unfoldable pub select_runtime : AdapterRuntimeConfig → AdapterRuntime
select_runtime cfg =
    if cfg.caps.pty
    then pty_runtime cfg
    else (if cfg.caps.streaming_stdio
        then streaming_stdio_runtime cfg
        else (if cfg.caps.json_rpc_stdio
            then json_rpc_stdio_runtime cfg
            else (if cfg.caps.serve_http then serve_http_runtime cfg else adapter_runtime cfg)))

unfoldable pub new_from_adapter : AdapterRuntimeConfig → Built
new_from_adapter cfg =
    if cfg.id == ""
    then config_error id_required
    else (if not cfg.has_adapter
        then config_error adapter_required
        else (if not (validate_lifecycle cfg.caps)
            then config_error many_lifecycles
            else built (
                select_runtime (record cfg { kind = if cfg.kind == "" then "cli" else cfg.kind }))))
