-- ===== src/Compliance/Examples.antt =====
-- The suite of compliance/compliance.go on concrete runtimes.
use go_agent_sessions.Prelude.{true, false, none, some, [], ◌≡◌, refl}
use go_agent_sessions.Prelude.Texts.{codes}
use go_agent_sessions.Lifecycle.{Capabilities, no_caps}
use go_agent_sessions.Spawn.Options.{StartOptions}
use go_agent_sessions.Spawn.Attempt.{apply_sandbox}
use go_agent_sessions.Spawn.Limits.{apply_resource_limits}
use go_agent_sessions.Child.{ChildSession, new_session}
use go_agent_sessions.Stdio.Clients.{World, start_session}
use go_agent_sessions.Stdio.Examples as Pipes
use go_agent_sessions.JsonRpc.Ends.{waited}
use go_agent_sessions.Turns.{chat_refused}
use go_agent_sessions.Turns.Runtime.{ProviderRuntimeConfig, new_from_provider, built}
use go_agent_sessions.Compliance.{Harness, NoneFails, options_of, preset, run}
use go_agent_sessions.Compliance.Providers.{provider_runtime, provider-passes}
use go_agent_sessions.Compliance.Pipes.{Meets, stdio_runtime, stdio-passes}

abbrev config : ProviderRuntimeConfig
config = record {
  id = codes "openai";
  kind = [];
  has_provider = true;
  caps = record no_caps { resize = true; checkpoint_resume = true };
  model = [];
  system_prompt = codes "be brief";
}

abbrev harness : Harness
harness = record {
  options = some Pipes.options;
  temp_dir = codes "/tmp";
  binary_skip = false;
  skip_event_fanout = true;
}

provider_passes_example :
    (cfg : ProviderRuntimeConfig) × (new_from_provider config ≡ built cfg)
    × NoneFails (run (provider_runtime cfg (chat_refused (codes "no"))) harness)
provider_passes_example =
    provider-passes config (chat_refused (codes "no")) harness refl refl refl refl

-- The child takes its prompt.
abbrev willing : World
willing = record Pipes.world { launched = record Pipes.launched { prompt_ok = true } }

abbrev meets : Meets
meets = record {
  world = willing;
  write_ok = true;
  kill_ok = true;
  end_of_child = waited none;
  first_event = λ s. none;
}

abbrev streaming : Capabilities
streaming = record no_caps { streaming_stdio = true; provider_session_id = true }

abbrev begun : StartOptions → ChildSession
begun opts = elim (start_session willing opts).session [ none ↦ new_session [] opts 0 | some s ↦ s ]

abbrev resumed : StartOptions
resumed = record Pipes.options { session_id_preset = preset }

begins : (start_session willing Pipes.options).session ≡ some (begun Pipes.options)
unfolding start_session apply_sandbox apply_resource_limits
begins = refl

begins_resumed : (start_session willing resumed).session ≡ some (begun resumed)
unfolding start_session apply_sandbox apply_resource_limits
begins_resumed = refl

stdio_passes_example :
    NoneFails (run (stdio_runtime (codes "claude") (codes "cli") streaming meets) harness)
unfolding options_of
stdio_passes_example =
    stdio-passes (codes "claude") (codes "cli") streaming meets Pipes.options Pipes.options resumed
      (codes "/boot") (codes "/boot") (begun Pipes.options) (begun resumed) refl refl refl refl refl
      refl refl begins begins_resumed harness refl refl
