-- ===== src/Serve.antt =====
-- agentsessions/serve_http_session.go: the session of a child that serves HTTP. What the server,
-- the operating system and the context answer are arguments; JSON and URLs are parameters. Each
-- function is what one goroutine does without waiting.
pub mod Scanning
pub mod Spawning
pub mod Events
pub mod Starting
pub mod Clients
pub mod Framing
pub mod Turns
pub mod Examples
use go_agent_sessions.Prelude.{
  ℕ, Bool, false, true, Option, none, List, [], ◌∷◌, ◌++◌, if◌then◌else◌,
}
use go_agent_sessions.Prelude.Int.{ℤ, pos}
use go_agent_sessions.Prelude.Texts.{Bytes}
use go_agent_sessions.Turns.{LiveState, idle}
use go_agent_sessions.Spawn.Options.{StartOptions}
use go_agent_sessions.Child.{Reported}

-- llmtypes.StreamEvent, as this session makes it.
pub data ServeEvent : Type 0 where
  session_id_event delta_event error_event : Bytes → ServeEvent
  done_event : ServeEvent

-- s.cmd as the pid; readyURL as what it holds; the log, Fanout, EventFanout and OnSessionID by
-- what they have been given; whether done is closed; whether the boot directory has been cleaned;
-- whether the stream's context is live.
pub record ServeSession : Type 0 where
  pub boot_dir : Bytes
  pub opts : StartOptions
  pub cmd : Option ℕ
  pub log_open : Bool
  pub log : Bytes
  pub fanned : Bytes
  pub base_url : Bytes
  pub session_id : Bytes
  pub state : LiveState
  pub alive : Bool
  pub started_pid : ℕ
  pub last_pid : ℕ
  pub last_session_id : Bytes
  pub ready_url : Option Bytes
  pub done : Bool
  pub wait_code : ℤ
  pub wait_err : Option Reported
  pub cleaned : Bool
  pub stop_requested : Bool
  pub turn_in_flight : Bool
  pub streaming : Bool
  pub event_room : ℕ
  pub events : List ServeEvent
  pub session_ids : List Bytes

-- The literal in Start and the stores behind it.
unfoldable pub new_session : Bytes → StartOptions → ℕ → ServeSession
new_session boot_dir opts room = record {
  boot_dir = boot_dir;
  opts = opts;
  cmd = none;
  log_open = true;
  log = [];
  fanned = [];
  base_url = [];
  session_id = [];
  state = idle;
  alive = true;
  started_pid = 0;
  last_pid = 0;
  last_session_id = opts.session_id_preset;
  ready_url = none;
  done = false;
  wait_code = pos 0;
  wait_err = none;
  cleaned = false;
  stop_requested = false;
  turn_in_flight = false;
  streaming = false;
  event_room = room;
  events = [];
  session_ids = [];
}

-- writeOutput
unfoldable pub write_output : Bytes → ServeSession → ServeSession
write_output text s = record s {
  log = s.log ++ text;
  fanned = if s.opts.fanout then s.fanned ++ text else s.fanned;
}
