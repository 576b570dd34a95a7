-- ===== src/Turns/Runtime.antt =====
-- The runtime of agentsessions/from_provider.go, and the small methods of its session.
use go_agent_sessions.Prelude.{ℕ, Bool, true, not, Option, none, some, if◌then◌else◌}
use go_agent_sessions.Prelude.Texts.{Bytes, codes, is_blank}
use go_agent_sessions.Lifecycle.{Capabilities}
use go_agent_sessions.Spawn.Options.{StartOptions}
use go_agent_sessions.Turns.{ProviderSession, LiveState}
use go_agent_sessions.Turns as Turns

-- `has_provider` is Provider != nil.
pub record ProviderRuntimeConfig : Type 0 where
  pub id : Bytes
  pub kind : Bytes
  pub has_provider : Bool
  pub caps : Capabilities
  pub model : Bytes
  pub system_prompt : Bytes

pub data ConfigError : Type 0 where
  id_required provider_required : ConfigError

pub data Built : Type 0 where
  config_error : ConfigError → Built
  built : ProviderRuntimeConfig → Built

-- NewFromProvider: the runtime keeps the configuration.
unfoldable pub new_from_provider : ProviderRuntimeConfig → Built
new_from_provider cfg =
    if is_blank cfg.id
    then config_error id_required
    else (if not cfg.has_provider
        then config_error provider_required
        else built (record cfg { kind = if is_blank cfg.kind then codes "api" else cfg.kind }))

-- Prepare gives no error.
unfoldable pub prepare : ProviderRuntimeConfig → Bool
prepare cfg = true

-- providerRuntime.Start, which gives no error.
unfoldable pub start : ProviderRuntimeConfig → StartOptions → ProviderSession
unfolding Turns.start_session
start cfg opts = Turns.start_session cfg.system_prompt opts.boot_prompt opts.fanout

-- Wait; `none` until Stop. exitCode is never set.
unfoldable pub wait : ProviderSession → Option ℕ
wait s = if s.done_closed then some 0 else none

-- Resize does nothing.
unfoldable pub resize : ℕ → ℕ → ProviderSession → ProviderSession
resize rows cols s = s

-- Health without the turn id: alive, the pid, and the state.
unfoldable pub health : ProviderSession → Bool × ℕ × LiveState
health s = (s.alive, 0, s.state)

unfoldable pub checkpoint_hints : ProviderSession → Option Bytes
checkpoint_hints s = none
