-- ===== src/Spawn/Attempt.antt =====
-- What spawnAttempt of agentsessions/streaming_stdio_session.go and agentsessions/pty_session.go do
-- alike: the prompt and the session id that the adapter's argv gets, the command, and the resources
-- that an attempt takes and gives back. The adapter, the sandbox and the operating system are
-- arguments.
use go_agent_sessions.Prelude.{
  ℕ, zero, suc, Bool, not, ◌&&◌, Option, none, some, List, [], ◌∷◌, ◌++◌, if◌then◌else◌, ◌==◌,
}
use go_agent_sessions.Prelude.Texts.{Bytes, codes, is_blank, bytes_eq}
use go_agent_sessions.Spawn.Options.{StartOptions, Command}
use go_agent_sessions.Spawn.Limits.{Host}

-- llmtypes.StreamEvent: an EventSessionID with its id, or another event.
pub data AgentEvent : Type 0 where
  session_id_event other_agent_event : Bytes → AgentEvent

-- provider.CLIAdapter; ParseLine and ParseLineEvents may fail, and ParseLineEvents may be missing.
pub record Adapter : Type 0 where
  pub detect : Option Bytes
  pub build_args : Bytes → Bytes → Bytes → List Bytes
  pub parse_line : Bytes → Option (List AgentEvent)
  pub parse_line_events : Option (Bytes → Option (List Bytes))

-- What an attempt finds: the adapter, the host, os.Environ(), sandbox.Apply on a command under a
-- profile (`none` is its error), and Caps.ProviderSessionID.
pub record Setup : Type 0 where
  pub adapter : Adapter
  pub host : Host
  pub environ : List Bytes
  pub sandbox : Bytes → Command → Option Command
  pub keeps_session_id : Bool

pub data Pipe : Type 0 where
  stdin_pipe stdout_pipe stderr_pipe ptmx : Pipe

-- What an attempt does outside the session; `signal` is to the process group.
pub data Step : Type 0 where
  sandbox_up sandbox_down limits_up limits_down reap : Step
  open_pipe close_pipe : Pipe → Step
  start signal : ℕ → Step
  write : Bytes → Step

pub data SpawnError : Type 0 where
  binary_not_found sandbox_error limits_error stdin_error stdout_error stderr_error start_error
        prompt_error :
      SpawnError

-- opts.BootMode == "stdin"
unfoldable pub on_stdin : StartOptions → Bool
on_stdin opts = opts.boot_mode == codes "stdin"

unfoldable pub system_prompt : StartOptions → Bytes
unfolding on_stdin
system_prompt opts = if on_stdin opts then [] else opts.boot_prompt

unfoldable pub session_preset : Setup → StartOptions → Bytes → ℕ → Bytes
session_preset setup opts last_session_id zero = opts.session_id_preset
session_preset setup opts last_session_id (suc n) =
    if setup.keeps_session_id && not (is_blank last_session_id)
    then last_session_id
    else opts.session_id_preset

unfoldable pub build_command : Setup → StartOptions → Bytes → Bytes → ℕ → Bool → Command
unfolding system_prompt session_preset
build_command setup opts binary last_session_id attempt stderr_to_log = record {
  path = binary;
  args =
      binary
        ∷ setup.adapter.build_args [] (system_prompt opts)
            (session_preset setup opts last_session_id attempt)
      ++ opts.extra_args;
  dir = opts.workdir;
  env = if is_blank opts.env then setup.environ else opts.env;
  extra_files = opts.extra_files;
  stderr_to_log = stderr_to_log;
}

-- if sandboxCleanup != nil { sandboxCleanup() }
unfoldable pub release_sandbox : StartOptions → List Step
release_sandbox opts = if is_blank opts.profile_id then [] else sandbox_down ∷ []

-- if s.opts.Profile.ID != "" { sandbox.Apply(...) }
unfoldable pub apply_sandbox : Setup → StartOptions → Command → Option (Command × List Step)
apply_sandbox setup opts cmd =
    if is_blank opts.profile_id then some (cmd, []) else elim (setup.sandbox opts.profile_id cmd) [
      | none ↦ none
      | some boxed ↦ some (boxed, sandbox_up ∷ [])
    ]

-- The cleanup that a successful attempt returns.
unfoldable pub cleanup : StartOptions → List Step
unfolding release_sandbox
cleanup opts = limits_down ∷ release_sandbox opts
