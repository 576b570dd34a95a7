-- ===== src/Compliance/Providers.antt =====
-- The runtime of agentsessions/from_provider.go under the suite of compliance/compliance.go.
use go_agent_sessions.Prelude.{
  Bool, true, false, Option, none, some, ◌≡◌, refl, [], ◌∷◌, if◌then◌else◌,
}
use go_agent_sessions.Prelude.Texts.{Bytes, codes, is_blank}
use go_agent_sessions.Turns.{
  ProviderSession, ChatResult, TurnError, no_input_channel, turn_in_flight_error, provider_error,
  begin_turn, finish_turn,
}
use go_agent_sessions.Spawn.Options.{StartOptions}
use go_agent_sessions.Turns as Turns
use go_agent_sessions.Turns.Runtime.{
  ProviderRuntimeConfig, built, new_from_provider, prepare, start, wait, resize, health,
  checkpoint_hints,
}
use go_agent_sessions.Compliance.{
  Runtime, Harness, Sent, accepted, other_error, NoneFails, options_of, run,
}
use go_agent_sessions.Compliance as Suite
use go_agent_sessions.Compliance.Contract.{Lawful, run-NoneFails}

sent_of : Option TurnError → Sent
sent_of none = accepted
sent_of (some no_input_channel) = Suite.no_input_channel
sent_of (some turn_in_flight_error) = other_error
sent_of (some (provider_error e)) = other_error

pub finished : ChatResult → ProviderSession × Option TurnError → ProviderSession × Sent
unfolding sent_of
finished answer (s, some e) = (s, sent_of (some e))
finished answer (s, none) = let (t, e) = finish_turn answer s in (t, sent_of e)

unfoldable pub is_some {ℓ} : {A : Type ℓ} → Option A → Bool
is_some none = false
is_some (some x) = true

-- A runtime as the suite sees it, whose provider gives this answer to the turn of a test. The events
-- of a provider are not part of the session's model.
abbrev pub provider_runtime : ProviderRuntimeConfig → ChatResult → Runtime
provider_runtime cfg answer = record {
  Session = ProviderSession;
  id = cfg.id;
  kind = cfg.kind;
  caps = cfg.caps;
  prepare = prepare cfg;
  start = λ opts. some (start cfg opts);
  stop = λ s. (Turns.stop s, true);
  wait_returns = λ s. is_some (wait s);
  in_time = λ s. s;
  send_input = λ payload s. finished answer (begin_turn payload s);
  resize = λ rows cols s. (resize rows cols s, true);
  health = λ s. ((health s).0, (health s).2);
  checkpoint_hints = checkpoint_hints;
  provider_session_id = none;
  first_event = λ s. none;
}

kind_or_api : Bytes → Bytes
kind_or_api kind = if is_blank kind then codes "api" else kind

kind_or_api-set : (kind : Bytes) → is_blank (kind_or_api kind) ≡ false
unfolding kind_or_api
kind_or_api-set [] = refl
kind_or_api-set (c ∷ cs) = refl

-- The session of a start.
provider-Lawful :
    (cfg : ProviderRuntimeConfig) (answer : ChatResult) (opts : StartOptions)
    → is_blank cfg.id ≡ false
    → is_blank cfg.kind ≡ false
    → cfg.caps.provider_session_id ≡ false
    → Lawful (provider_runtime cfg answer) opts
unfolding start Turns.stop wait health prepare begin_turn finished sent_of is_some
    Turns.start_session
provider-Lawful cfg answer opts e f g = record {
  kind_set = f;
  id_set = e;
  session = start cfg opts;
  starts = refl;
  alive = refl;
  stops = refl;
  stops_again = refl;
  dead = refl;
  unblocks = refl;
  refuses = refl;
  resizes = λ rows cols. refl;
  fans = λ h. (start cfg (record opts { fanout = true }), refl);
  keeps_id = λ h. absurd (cc (g, h));
  prepares = λ h. refl;
}

-- NewFromProvider with an id and a provider, for a configuration that does not declare provider
-- session ids, gives a runtime in which the suite finds no failure, with every other capability and
-- with any options, where the test of EventFanout is left out.
pub provider-passes :
    (given : ProviderRuntimeConfig) (answer : ChatResult) (h : Harness)
    → is_blank given.id ≡ false
    → given.has_provider ≡ true
    → given.caps.provider_session_id ≡ false
    → h.skip_event_fanout ≡ true
    → (cfg : ProviderRuntimeConfig) × (new_from_provider given ≡ built cfg)
      × NoneFails (run (provider_runtime cfg answer) h)
unfolding new_from_provider kind_or_api
provider-passes given answer h e f g skip =
    let cfg : ProviderRuntimeConfig = record given { kind = kind_or_api given.kind } in
    (
      cfg,
      rw (e, f) refl,
      run-NoneFails (provider_runtime cfg answer) h skip
          (provider-Lawful cfg answer (options_of h) e (kind_or_api-set given.kind) g),
    )
