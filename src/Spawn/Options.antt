-- ===== src/Spawn/Options.antt =====
-- StartOptions and ResourceLimits (agentsessions/types.go, agentsessions/supervision.go), and the
-- part of exec.Cmd that the sessions set. A writer, a hook or a channel is present or not.
use go_agent_sessions.Prelude.{ℕ, Bool, ◌&&◌, Option, List, nat_eq, ◌==◌}
use go_agent_sessions.Prelude.Int.{ℤ}
use go_agent_sessions.Prelude.Texts.{Bytes}
use go_agent_sessions.Supervision.{SupervisorOptions, is_zero}

-- CPUTime in nanoseconds.
pub record ResourceLimits : Type 0 where
  pub cpu_time : ℤ
  pub memory_max : ℕ
  pub max_open_files : ℕ
  pub max_processes : ℕ
  pub max_file_size : ℕ

-- IsZero
unfoldable pub is_unlimited : ResourceLimits → Bool
unfolding is_zero
is_unlimited l =
    is_zero l.cpu_time
    && l.memory_max == 0
    && l.max_open_files == 0
    && l.max_processes == 0
    && l.max_file_size == 0

-- provider.PlantContext, as far as the sessions set it.
pub record PlantContext : Type 0 where
  pub system_prompt : Bytes
  pub boot_content : Bytes
  pub project_dir : Bytes
  pub boot_dir : Bytes

pub record StartOptions : Type 0 where
  pub workdir : Bytes
  pub workspace_dir : Bytes
  pub log_path : Bytes
  pub boot_prompt : Bytes
  pub boot_content : Bytes
  pub plant_context : PlantContext
  pub boot_mode : Bytes
  pub env : List Bytes
  pub stderr : Bool
  pub extra_files : List ℕ
  pub profile_id : Bytes
  pub fanout : Bool
  pub event_fanout : Bool
  pub session_id_preset : Bytes
  pub on_session_id : Bool
  pub attach_enabled : Bool
  pub ring_bytes : ℤ
  pub subscriber_depth : ℤ
  pub auto_fire_first_turn : Bool
  pub first_turn_payload : Bytes
  pub typed_event_callback : Bool
  pub supervisor : Option SupervisorOptions
  pub json_rpc_notification_hook : Bool
  pub json_rpc_request_hook : Bool
  pub auto_plant_boot_dir : Bool
  pub boot_dir_root : Bytes
  pub on_boot_dir_planted : Bool
  pub extra_args : List Bytes
  pub resource_limits : Option ResourceLimits

-- exec.Cmd before Start; `args` begins with argv[0].
pub record Command : Type 0 where
  pub path : Bytes
  pub args : List Bytes
  pub dir : Bytes
  pub env : List Bytes
  pub extra_files : List ℕ
  pub stderr_to_log : Bool
