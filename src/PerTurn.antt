-- ===== src/PerTurn.antt =====
-- agentsessions/from_adapter.go: the session that runs the adapter's program once for each turn.
-- runner.Run is an argument: the events that it reports, and whether it fails. SendInput is the
-- step before it and the step after it, so that a Stop or a second SendInput can come between.
pub mod Conversation
pub mod Examples
use go_agent_sessions.Prelude.{
  ℕ, Bool, true, false, not, ◌&&◌, ◌||◌, Option, none, some, List, [], ◌∷◌, ◌++◌, if◌then◌else◌,
  length, ltb,
}
use go_agent_sessions.Prelude.Texts.{Bytes, codes, is_blank}
use go_agent_sessions.Turns.{LiveState, idle, processing, stopped}
use go_agent_sessions.Spawn.Options.{StartOptions}

-- llmtypes.StreamEvent; a tool use may be missing.
pub data StreamEvent : Type 0 where
  session_id_event delta_event error_event : Bytes → StreamEvent
  tool_use_event : Option Bytes → StreamEvent
  done_event other_event : StreamEvent

-- runner.Event; a payload may have another type than the code expects.
pub data RunnerEvent : Type 0 where
  process_started : Option ℕ → RunnerEvent
  provider_event : Option StreamEvent → RunnerEvent
  process_exited process_timeout other_runner_event : RunnerEvent

pub data TurnError : Type 0 where
  no_input_channel turn_in_flight_error run_error : TurnError

-- Fanout, EventFanout and OnSessionID by what they have been given.
pub record AdapterSession : Type 0 where
  pub boot_dir : Bytes
  pub opts : StartOptions
  pub session_id : Bytes
  pub state : LiveState
  pub alive : Bool
  pub pid : ℕ
  pub last_pid : ℕ
  pub turn_id : Bytes
  pub stop_closed : Bool
  pub done : Bool
  pub cleaned : Bool
  pub exit_code : ℕ
  pub turn_in_flight : Bool
  pub event_room : ℕ
  pub events : List StreamEvent
  pub session_ids : List Bytes
  pub fanned : Bytes

-- The literal in Start and the stores behind it.
unfoldable pub new_session : Bytes → StartOptions → ℕ → AdapterSession
new_session boot_dir opts room = record {
  boot_dir = boot_dir;
  opts = opts;
  session_id = opts.session_id_preset;
  state = idle;
  alive = true;
  pid = 0;
  last_pid = 0;
  turn_id = [];
  stop_closed = false;
  done = false;
  cleaned = false;
  exit_code = 0;
  turn_in_flight = false;
  event_room = room;
  events = [];
  session_ids = [];
  fanned = [];
}

-- encodeStreamEvent
unfoldable pub encode_stream_event : StreamEvent → Option Bytes
encode_stream_event (session_id_event i) = none
encode_stream_event (delta_event content) = if is_blank content then none else some content
encode_stream_event (error_event e) = some (codes "\n[error] " ++ e ++ codes "\n")
encode_stream_event (tool_use_event none) = none
encode_stream_event (tool_use_event (some name)) =
    some (codes "\n[tool_use:" ++ name ++ codes "]\n")
encode_stream_event done_event = some (codes "\n[turn_done]\n")
encode_stream_event other_event = none

-- if pe.Type == llmtypes.EventSessionID && pe.SessionID != "" { ... }
unfoldable pub note_session_id : StreamEvent → AdapterSession → AdapterSession
note_session_id (session_id_event i) s = if is_blank i then s else record s {
  session_id = i;
  session_ids = if s.opts.on_session_id then s.session_ids ++ i ∷ [] else s.session_ids;
}
note_session_id (delta_event c) s = s
note_session_id (error_event e) s = s
note_session_id (tool_use_event t) s = s
note_session_id done_event s = s
note_session_id other_event s = s

-- tryEventFanout
unfoldable pub try_event_fanout : StreamEvent → AdapterSession → AdapterSession
try_event_fanout ev s =
    if s.opts.event_fanout && ltb (length s.events) s.event_room
    then record s { events = s.events ++ ev ∷ [] }
    else s

-- if s.opts.Fanout != nil { ... }
unfoldable pub fan_text : Option Bytes → AdapterSession → AdapterSession
fan_text none s = s
fan_text (some line) s = if s.opts.fanout then record s { fanned = s.fanned ++ line } else s

unfoldable pub handle_runner_event : RunnerEvent → AdapterSession → AdapterSession
unfolding note_session_id try_event_fanout fan_text encode_stream_event
handle_runner_event (process_started none) s = s
handle_runner_event (process_started (some pid)) s = record s { pid = pid; last_pid = pid }
handle_runner_event (provider_event none) s = s
handle_runner_event (provider_event (some ev)) s =
    fan_text (encode_stream_event ev) (try_event_fanout ev (note_session_id ev s))
handle_runner_event process_exited s = record s { pid = 0 }
handle_runner_event process_timeout s = record s { pid = 0 }
handle_runner_event other_runner_event s = s

unfoldable pub handle_runner_events : List RunnerEvent → AdapterSession → AdapterSession
unfolding handle_runner_event
handle_runner_events [] s = s
handle_runner_events (ev ∷ evs) s = handle_runner_events evs (handle_runner_event ev s)

-- The arguments of a turn: cfg.BuildArgs, or else the adapter's, and then ExtraArgs.
unfoldable pub build_args :
    Option (Bytes → Bytes → List Bytes)
    → (Bytes → Bytes → Bytes → List Bytes)
    → StartOptions
    → Bytes
    → Bytes
    → List Bytes
build_args none of_adapter opts prompt session_id =
    of_adapter prompt [] session_id ++ opts.extra_args
build_args (some own) of_adapter opts prompt session_id = own prompt session_id ++ opts.extra_args

-- SendInput up to runner.Run, with the new turn's id: the session, and the arguments or the error.
unfoldable pub begin_turn :
    (Bytes → Bytes → List Bytes)
    → Bytes
    → Bytes
    → AdapterSession
    → AdapterSession × List Bytes × Option TurnError
begin_turn args_of turn_id prompt s =
    if not s.alive
    then (s, [], some no_input_channel)
    else (if s.turn_in_flight then (s, [], some turn_in_flight_error) else (
      record s { turn_in_flight = true; turn_id = turn_id; state = processing },
      args_of prompt s.session_id,
      none,
    ))

-- SendInput from the return of runner.Run on, with the deferred stores.
unfoldable pub finish_turn : Bool → AdapterSession → AdapterSession × Option TurnError
finish_turn ok s =
    let t : AdapterSession = record s { state = idle; turn_in_flight = false } in
    if ok then (t, none) else (record t { exit_code = 1 }, some run_error)

-- stopOnce and doneOnce.
unfoldable pub stop : AdapterSession → AdapterSession
stop s = if s.stop_closed then s else record s {
  alive = false;
  state = stopped;
  stop_closed = true;
  done = true;
  cleaned = true;
}

-- Wait; `none` until Stop.
unfoldable pub wait : AdapterSession → Option ℕ
wait s = if s.done then some s.exit_code else none

unfoldable pub health : AdapterSession → Bool × ℕ × LiveState × Bytes
health s = (s.alive, s.pid, s.state, s.turn_id)

unfoldable pub checkpoint_hints : Bool → AdapterSession → Option Bytes
checkpoint_hints resumes s =
    if not resumes || is_blank s.session_id then none else some s.session_id

unfoldable pub provider_session_id : AdapterSession → Bytes
provider_session_id s = s.session_id

unfoldable pub live_pid : AdapterSession → ℕ
live_pid s = s.pid

unfoldable pub last_pid : AdapterSession → ℕ
last_pid s = s.last_pid

-- What Start meets: preparePlant, the room in EventFanout, and the first turn's id, events and end.
pub record World : Type 0 where
  pub plant : StartOptions → Option (Bytes × StartOptions)
  pub room : ℕ
  pub args_of : StartOptions → Bytes → Bytes → List Bytes
  pub turn_id : Bytes
  pub turn_events : List RunnerEvent
  pub turn_ok : Bool

pub data StartError : Type 0 where
  workdir_required plant_error auto_fire_error : StartError

-- A session, or an error with the session that Stop has ended.
pub record Started : Type 0 where
  pub session : Option AdapterSession
  pub error : Option StartError
  pub ended : Option AdapterSession

ran_stage : AdapterSession × Option TurnError → Started
unfolding stop
ran_stage (s, none) = record { session = some s; error = none; ended = none }
ran_stage (s, some e) = record {
  session = none;
  error = some auto_fire_error;
  ended = some (stop s);
}

begun_stage : World → AdapterSession × List Bytes × Option TurnError → Started
unfolding ran_stage finish_turn handle_runner_events stop
begun_stage w (s, args, none) =
    ran_stage (finish_turn w.turn_ok (handle_runner_events w.turn_events s))
begun_stage w (s, args, some e) = record {
  session = none;
  error = some auto_fire_error;
  ended = some (stop s);
}

-- AutoFireFirstTurn, which waits for the turn.
unfoldable pub first_turn : World → AdapterSession → Started
unfolding begun_stage begin_turn
first_turn w s =
    if not s.opts.auto_fire_first_turn || is_blank s.opts.first_turn_payload
    then record { session = some s; error = none; ended = none }
    else begun_stage w (begin_turn (w.args_of s.opts) w.turn_id s.opts.first_turn_payload s)

unfoldable pub start_session : World → StartOptions → Started
unfolding first_turn new_session
start_session w opts =
    if is_blank opts.workdir
    then record { session = none; error = some workdir_required; ended = none }
    else elim (w.plant opts) [
      | none ↦ record { session = none; error = some plant_error; ended = none }
      | some (dir, planted) ↦ first_turn w (new_session dir planted w.room)
    ]
