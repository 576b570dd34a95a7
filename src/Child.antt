-- ===== src/Child.antt =====
-- What the sessions of one long-lived child have in common
-- (agentsessions/streaming_stdio_session.go and agentsessions/pty_session.go): their state, the
-- reader, the ends of an attempt and of the session, and the supervisors. Locks are left out: each
-- function is what one goroutine does without waiting. What the child, the operating system and
-- the context answer are arguments.
pub mod Reading
pub mod Ending
pub mod Watching
pub mod Lines
pub mod Output
pub mod Resuming
pub mod Killing
pub mod Lively
pub mod Idle
pub mod Restarting
use go_agent_sessions.Prelude.{
  ℕ, ◌+◌, ◌≡◌, Bool, true, false, not, ◌&&◌, Option, none, some, List, [], ◌∷◌, ◌++◌, if◌then◌else◌,
  length, ltb,
}
use go_agent_sessions.Prelude.Int.{ℤ, pos, negsuc}
use go_agent_sessions.Prelude.Texts.{Bytes}
use go_agent_sessions.Supervision.{WaitError, ExitError}
use go_agent_sessions.Turns.{LiveState, idle}
use go_agent_sessions.Spawn.Options.{StartOptions}
use go_agent_sessions.Spawn.Attempt.{AgentEvent}

-- What waitErr holds: cmd.Wait's error, or the ExitError of a supervised session.
pub data Reported : Type 0 where
  plain : WaitError → Reported
  structured : ExitError → Reported

-- s.cmd as the pid of the process; whether s.stdin (or s.ptmx) and s.stdout are set; the log,
-- Fanout, EventFanout, OnSessionID and TypedEventCallback by what they have been given; the calls
-- of tickActivity; whether done is closed, whether copyDone and stopRequested are; whether
-- legacyCleanup has run, and cleanupBootDir.
pub record ChildSession : Type 0 where
  pub boot_dir : Bytes
  pub opts : StartOptions
  pub cmd : Option ℕ
  pub input : Bool
  pub output : Bool
  pub log_open : Bool
  pub log : Bytes
  pub fanned : Bytes
  pub event_room : ℕ
  pub events : List AgentEvent
  pub session_ids : List Bytes
  pub typed_events : List Bytes
  pub ticks : ℕ
  pub state : LiveState
  pub alive : Bool
  pub started_pid : ℕ
  pub last_pid : ℕ
  pub last_session_id : Bytes
  pub done : Bool
  pub wait_code : ℤ
  pub wait_err : Option Reported
  pub copy_done : Bool
  pub stop_requested : Bool
  pub released : Bool
  pub cleaned : Bool

-- The literal in Start and the stores behind it; `room` is the room in the EventFanout channel.
unfoldable pub new_session : Bytes → StartOptions → ℕ → ChildSession
new_session boot_dir opts room = record {
  boot_dir = boot_dir;
  opts = opts;
  cmd = none;
  input = false;
  output = false;
  log_open = true;
  log = [];
  fanned = [];
  event_room = room;
  events = [];
  session_ids = [];
  typed_events = [];
  ticks = 0;
  state = idle;
  alive = true;
  started_pid = 0;
  last_pid = 0;
  last_session_id = opts.session_id_preset;
  done = false;
  wait_code = pos 0;
  wait_err = none;
  copy_done = false;
  stop_requested = false;
  released = false;
  cleaned = false;
}

-- tickActivity
unfoldable pub tick_activity : ChildSession → ChildSession
tick_activity s = record s { ticks = s.ticks + 1 }
