-- ===== src/Compliance.antt =====
-- compliance/compliance.go: the behavioural suite that every Runtime passes, over the interfaces
-- Runtime and Session of agentsessions/types.go. A test returns its verdict; t.Fatal, t.Error and
-- t.Skip end it: no test of the suite goes on after one of them.
pub mod Contract
pub mod Providers
pub mod Pipes
pub mod Examples
use go_agent_sessions.Prelude.{
  ℕ, Bool, true, false, not, ◌&&◌, Option, none, some, List, [], ◌∷◌, ◌++◌, String, if◌then◌else◌,
  ◌==◌, ◌≡◌,
}
use go_agent_sessions.Prelude.Int.{pos}
use go_agent_sessions.Prelude.Texts.{Bytes, codes, is_blank, bytes_eq}
use go_agent_sessions.Lifecycle.{Capabilities}
use go_agent_sessions.Spawn.Options.{StartOptions}
use go_agent_sessions.Turns.{LiveState, idle, processing, stopped}

-- What SendInput returns: nil, ErrNoInputChannel, or another error.
pub data Sent : Type 0 where
  accepted no_input_channel other_error : Sent

-- A Runtime with its Sessions. Where a Go method returns an error, the Boolean is whether there is
-- none. `in_time` is what the goroutines of a session do in the time that a test waits; `first_event` is the
-- type of the first event in EventFanout, if one comes in the two seconds; SessionIDer may be missing.
pub record Runtime : Type 1 where
  pub Session : Type 0
  pub id : Bytes
  pub kind : Bytes
  pub caps : Capabilities
  pub prepare : Bool
  pub start : StartOptions → Option Session
  pub stop : Session → Session × Bool
  pub wait_returns : Session → Bool
  pub in_time : Session → Session
  pub send_input : Bytes → Session → Session × Sent
  pub resize : ℕ → ℕ → Session → Session × Bool
  pub health : Session → Bool × LiveState
  pub checkpoint_hints : Session → Option Bytes
  pub provider_session_id : Option (Session → Bytes)
  pub first_event : Session → Option Bytes

pub data Verdict : Type 0 where
  passed failed skipped : Verdict

-- `options` is what NewStartOptions gives, or the default with t.TempDir().
pub record Harness : Type 0 where
  pub options : Option StartOptions
  pub temp_dir : Bytes
  pub binary_skip : Bool
  pub skip_event_fanout : Bool

-- StartOptions{Workdir: t.TempDir()}
unfoldable pub default_options : Bytes → StartOptions
default_options dir = record {
  workdir = dir;
  workspace_dir = [];
  log_path = [];
  boot_prompt = [];
  boot_content = [];
  plant_context = record { system_prompt = []; boot_content = []; project_dir = []; boot_dir = [] };
  boot_mode = [];
  env = [];
  stderr = false;
  extra_files = [];
  profile_id = [];
  fanout = false;
  event_fanout = false;
  session_id_preset = [];
  on_session_id = false;
  attach_enabled = false;
  ring_bytes = pos 0;
  subscriber_depth = pos 0;
  auto_fire_first_turn = false;
  first_turn_payload = [];
  typed_event_callback = false;
  supervisor = none;
  json_rpc_notification_hook = false;
  json_rpc_request_hook = false;
  auto_plant_boot_dir = false;
  boot_dir_root = [];
  on_boot_dir_planted = false;
  extra_args = [];
  resource_limits = none;
}

unfoldable pub options_of : Harness → StartOptions
unfolding default_options
options_of h = elim h.options [ none ↦ default_options h.temp_dir | some opts ↦ opts ]

-- t.Errorf or t.Fatalf where the test does not hold.
unfoldable pub expect : Bool → Verdict
expect true = passed
expect false = failed

-- t.Skip under a condition.
unfoldable pub unless : Bool → Verdict → Verdict
unless true v = skipped
unless false v = v

unfoldable pub is_stopped : LiveState → Bool
is_stopped idle = false
is_stopped processing = false
is_stopped stopped = true

unfoldable pub is_no_input_channel : Sent → Bool
is_no_input_channel accepted = false
is_no_input_channel no_input_channel = true
is_no_input_channel other_error = false

unfoldable pub is_accepted : Sent → Bool
is_accepted accepted = true
is_accepted no_input_channel = false
is_accepted other_error = false

abbrev pub preset : Bytes
preset = codes "ses_compliance_preset"

module _ (rt : Runtime) where
  open rt use {Session, start, stop, wait_returns, in_time, send_input, resize, health, first_event}

  -- mustStart, and the test of the session.
  unfoldable pub must_start : StartOptions → (Session → Verdict) → Verdict
  must_start opts test = elim (start opts) [ none ↦ failed | some s ↦ test s ]

  -- A Stop that gives no error, and then a test.
  unfoldable pub after_stop : Session → (Session → Bool) → Verdict
  unfolding expect
  after_stop s test = let (s', ok) = stop s in if not ok then failed else expect (test s')

  unfoldable pub start_produces_alive_session : Session → Verdict
  unfolding expect
  start_produces_alive_session s = expect (health s).0

  unfoldable pub health_dead_after_stop : Session → Verdict
  unfolding after_stop
  health_dead_after_stop s = after_stop s (λ s'. not (health s').0)

  unfoldable pub health_state_stopped_after_stop : Session → Verdict
  unfolding after_stop is_stopped
  health_state_stopped_after_stop s = after_stop s (λ s'. is_stopped (health s').1)

  -- 50 milliseconds for Wait before Stop, and three seconds after it.
  unfoldable pub stop_unblocks_wait : Session → Verdict
  unfolding unless after_stop
  stop_unblocks_wait s = unless (wait_returns s) (after_stop s (λ s'. wait_returns (in_time s')))

  unfoldable pub stop_is_idempotent : Session → Verdict
  unfolding after_stop
  stop_is_idempotent s = after_stop s (λ s'. (stop s').1)

  unfoldable pub send_input_after_stop : Session → Verdict
  unfolding after_stop is_no_input_channel
  send_input_after_stop s =
      after_stop s (λ s'. is_no_input_channel (send_input (codes "too late") s').1)

  unfoldable pub resize_no_op_or_no_error : ℕ → ℕ → Session → Verdict
  unfolding expect
  resize_no_op_or_no_error rows cols s = expect (resize rows cols s).1

  event_type_set : Option Bytes → Bool
  event_type_set none = false
  event_type_set (some type) = not (is_blank type)

  unfoldable pub event_fanout_receives : Session → Verdict
  unfolding expect event_type_set is_accepted
  event_fanout_receives s =
      let (s', sent) = send_input (codes "compliance event fanout") s in
      if not (is_accepted sent) then failed else expect (event_type_set (first_event s'))

  -- runBaseline
  unfoldable pub run_baseline : StartOptions → Bool → Bool → List (String × Verdict)
  unfolding expect unless must_start start_produces_alive_session health_dead_after_stop
      health_state_stopped_after_stop stop_unblocks_wait stop_is_idempotent send_input_after_stop
      resize_no_op_or_no_error event_fanout_receives
  run_baseline opts binary_skip skip_event_fanout =
      ("KindNonEmpty", expect (not (is_blank rt.kind)))
      ∷ ("IDNonEmpty", expect (not (is_blank rt.id)))
      ∷ ("StartProducesAliveSession", must_start opts start_produces_alive_session)
      ∷ ("HealthDeadAfterStop", must_start opts health_dead_after_stop)
      ∷ ("HealthStateStoppedAfterStop", must_start opts health_state_stopped_after_stop)
      ∷ ("StopUnblocksWait", must_start opts stop_unblocks_wait)
      ∷ ("StopIsIdempotent", must_start opts stop_is_idempotent)
      ∷ ("SendInputAfterStopReturnsErrNoInputChannel", must_start opts send_input_after_stop)
      ∷ ("ResizeNoOpOrNoError", must_start opts (resize_no_op_or_no_error 24 80))
      ∷ ("CheckpointHintsReturnsBool", must_start opts (λ s. passed))
      ∷ (
        "EventFanoutReceivesParsedEvents",
        unless skip_event_fanout (
            unless binary_skip
              (must_start (record opts { event_fanout = true }) event_fanout_receives)),
      )
      ∷ []

  -- runCapsPTY
  unfoldable pub run_caps_pty : StartOptions → Bool → List (String × Verdict)
  unfolding unless must_start
  run_caps_pty opts binary_skip =
      (
        "SendInputDoesNotError",
        unless binary_skip (must_start (record opts { fanout = true }) (λ s. passed)),
      )
      ∷ []

  -- runCapsResize
  unfoldable pub run_caps_resize : StartOptions → Bool → List (String × Verdict)
  unfolding unless must_start resize_no_op_or_no_error
  run_caps_resize opts binary_skip =
      ("ResizeDoesNotError", unless binary_skip (must_start opts (resize_no_op_or_no_error 40 120)))
      ∷ ("ResizeZeroErrors", unless binary_skip (must_start opts (λ s. passed)))
      ∷ []

  carries_preset : Option (Session → Bytes) → Session → Verdict
  unfolding expect
  carries_preset none s = skipped
  carries_preset (some id_of) s = expect (id_of s == preset)

  implements_session_ider : Option (Session → Bytes) → Session → Verdict
  implements_session_ider none s = failed
  implements_session_ider (some id_of) s = passed

  -- runCapsProviderSessionID, which a missing binary skips as a whole
  unfoldable pub run_caps_provider_session_id : StartOptions → Bool → List (String × Verdict)
  unfolding must_start carries_preset implements_session_ider
  run_caps_provider_session_id opts binary_skip =
      if binary_skip
      then []
      else ((
        "ImplementsSessionIDer",
        must_start opts (implements_session_ider rt.provider_session_id),
      )
          ∷ (
            "PresetCarriedBeforeTurn",
            must_start (record opts { session_id_preset = preset })
                (carries_preset rt.provider_session_id),
          )
          ∷ [])

  -- runCapsCheckpointResume
  unfoldable pub run_caps_checkpoint_resume : StartOptions → Bool → List (String × Verdict)
  unfolding unless must_start
  run_caps_checkpoint_resume opts binary_skip =
      ("CheckpointHintsCallable", unless binary_skip (must_start opts (λ s. passed))) ∷ []

  -- runCapsNoBinary
  unfoldable pub run_caps_no_binary : List (String × Verdict)
  unfolding expect
  run_caps_no_binary = ("PrepareNoError", expect rt.prepare) ∷ []

  gated : Bool → List (String × Verdict) → List (String × Verdict)
  gated true tests = tests
  gated false tests = []

  -- Run: every test with its verdict.
  unfoldable pub run : Harness → List (String × Verdict)
  unfolding run_baseline run_caps_pty run_caps_resize run_caps_provider_session_id
      run_caps_no_binary run_caps_checkpoint_resume gated options_of
  run h =
      let opts = options_of h in
      run_baseline opts h.binary_skip h.skip_event_fanout
      ++ (gated rt.caps.pty (run_caps_pty opts h.binary_skip)
          ++ (gated rt.caps.resize (run_caps_resize opts h.binary_skip)
              ++ (gated rt.caps.provider_session_id
                    (run_caps_provider_session_id opts h.binary_skip)
                  ++ (gated (not rt.caps.binary_required) run_caps_no_binary
                      ++ gated rt.caps.checkpoint_resume
                          (run_caps_checkpoint_resume opts h.binary_skip)))))

-- No test fails.
abbrev pub is_failure : Verdict → Bool
is_failure passed = false
is_failure failed = true
is_failure skipped = false

abbrev pub NoneFails : List (String × Verdict) → Type 0
NoneFails [] = Unit {0}
NoneFails ((name, v) ∷ rest) = (is_failure v ≡ false) × NoneFails rest
