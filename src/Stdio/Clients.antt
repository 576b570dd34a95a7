-- ===== src/Stdio/Clients.antt =====
-- Start, Stop, SendInput and the small methods of agentsessions/streaming_stdio_session.go.
use go_agent_sessions.Prelude.{
  ℕ, Bool, true, false, not, ◌&&◌, ◌||◌, Option, none, some, List, [], ◌∷◌, ◌++◌, if◌then◌else◌,
  nat_eq, ◌==◌,
}
use go_agent_sessions.Prelude.Texts.{Bytes, codes, is_blank}
use go_agent_sessions.Supervision.{sigkill}
use go_agent_sessions.Turns.{LiveState, stopped}
use go_agent_sessions.Spawn.Options.{StartOptions}
use go_agent_sessions.Spawn.Attempt.{
  Adapter, Step, SpawnError, Setup, close_pipe, signal, stdin_pipe, on_stdin,
}
use go_agent_sessions.Child.{ChildSession, new_session, tick_activity}
use go_agent_sessions.Child.Reading.{newline}
use go_agent_sessions.Child.Watching.{sigterm}
use go_agent_sessions.Stdio.Spawning.{Launched, Spawned, spawn_attempt}

-- Prepare, with Caps.BinaryRequired: does it give no error?
unfoldable pub prepare : Bool → Adapter → Bool
prepare binary_required a =
    if not binary_required then true else elim a.detect [ none ↦ false | some binary ↦ true ]

-- Resize does nothing.
unfoldable pub resize : ℕ → ℕ → ChildSession → ChildSession
resize rows cols s = s

pub data InputError : Type 0 where
  no_input_channel write_error : InputError

-- The last byte of a text is a newline.
unfoldable pub ends_line : Bytes → Bool
ends_line [] = false
ends_line (c ∷ []) = c == newline
ends_line (c ∷ d ∷ cs) = ends_line (d ∷ cs)

-- The payload with its newline.
unfoldable pub framed : Bytes → Bytes
unfolding ends_line
framed payload = if ends_line payload then payload else payload ++ newline ∷ []

-- SendInput: what is written to stdin, and the error. `write_ok` is the answer of the write.
unfoldable pub send_input : Bool → Bytes → ChildSession → ChildSession × Bytes × Option InputError
unfolding framed tick_activity
send_input write_ok payload s =
    if not s.alive || not s.input
    then (s, [], some no_input_channel)
    else (if write_ok then (tick_activity s, framed payload, none) else (s, [], some write_error))

-- How one of the waits in Stop ends.
pub data Waited : Type 0 where
  exited elapsed cancelled : Waited

unfoldable pub kill_stage : Waited → List Step
kill_stage exited = []
kill_stage elapsed = signal sigkill ∷ []
kill_stage cancelled = signal sigkill ∷ []

-- From the end of the grace for EOF on; `term_ok` is the answer of the SIGTERM.
unfoldable pub term_stage : Bool → Waited → Waited → List Step
unfolding kill_stage
term_stage term_ok exited second_wait = []
term_stage term_ok elapsed second_wait =
    signal sigterm ∷ (if term_ok then kill_stage second_wait else [])
term_stage term_ok cancelled second_wait =
    signal sigterm ∷ (if term_ok then kill_stage second_wait else [])

-- Stop: the session, and what it does to the child.
unfoldable pub stop : Bool → Waited → Waited → ChildSession → ChildSession × List Step
unfolding term_stage
stop term_ok eof_wait second_wait s = if s.stop_requested then (s, []) else (
  record s { alive = false; state = stopped; stop_requested = true },
  (if s.input then close_pipe stdin_pipe ∷ [] else [])
      ++ elim s.cmd [ none ↦ [] | some pid ↦ term_stage term_ok eof_wait second_wait ],
)

-- Health: alive, the pid, and the state.
unfoldable pub health : ChildSession → Bool × ℕ × LiveState
health s = (s.alive, if s.alive then s.started_pid else 0, s.state)

-- CheckpointHints, with Caps.CheckpointResume.
unfoldable pub checkpoint_hints : Bool → ChildSession → Option Bytes
checkpoint_hints resumes s =
    if not resumes || is_blank s.last_session_id then none else some s.last_session_id

unfoldable pub live_pid : ChildSession → ℕ
live_pid s = if s.alive then s.started_pid else 0

unfoldable pub last_pid : ChildSession → ℕ
last_pid s = s.last_pid

unfoldable pub provider_session_id : ChildSession → Bytes
provider_session_id s = s.last_session_id

pub data StartError : Type 0 where
  workdir_required plant_error log_path_required log_dir_error log_create_error auto_fire_error :
      StartError
  spawn_error : SpawnError → StartError

-- resolveStreamingStdioLogPath, with filepath.Join and the answer of os.MkdirAll.
unfoldable pub resolve_log_path :
    (List Bytes → Bytes) → Bool → StartOptions → Bytes × Option StartError
resolve_log_path join mkdir_ok opts =
    if not (is_blank opts.log_path)
    then (opts.log_path, none)
    else (if is_blank opts.workspace_dir
        then ([], some log_path_required)
        else (if mkdir_ok
            then (join (opts.workspace_dir ∷ codes "logs" ∷ codes "session.log" ∷ []), none)
            else ([], some log_dir_error)))

-- What Start meets: preparePlant with the boot directory and the rewired options, filepath.Join,
-- the answers of MkdirAll and Create, the room in EventFanout, the first launch, the write of the
-- first turn, and how the Stop goes that follows where it fails.
pub record World : Type 0 where
  pub setup : Setup
  pub plant : StartOptions → Option (Bytes × StartOptions)
  pub join : List Bytes → Bytes
  pub mkdir_ok : Bool
  pub create_ok : Bool
  pub room : ℕ
  pub launched : Launched
  pub turn_ok : Bool
  pub term_ok : Bool
  pub eof_wait : Waited
  pub second_wait : Waited

-- What Start leaves: a session or an error; the files of a planted directory, the log, and what the
-- child was given.
pub record Started : Type 0 where
  pub session : Option ChildSession
  pub error : Option StartError
  pub cleaned_dir : Option Bytes
  pub steps : List Step
  pub turn : Bytes

unfoldable pub start_failed : Option Bytes → List Step → StartError → Started
start_failed dir steps e = record {
  session = none;
  error = some e;
  cleaned_dir = dir;
  steps = steps;
  turn = [];
}

-- After the SendInput of AutoFireFirstTurn; `_ = s.Stop(ctx)` where it fails.
unfoldable pub first_sent : World → List Step → ChildSession × Bytes × Option InputError → Started
unfolding start_failed stop
first_sent w steps (s, sent, none) = record {
  session = some s;
  error = none;
  cleaned_dir = none;
  steps = steps;
  turn = sent;
}
first_sent w steps (s, sent, some e) =
    start_failed none (steps ++ (stop w.term_ok w.eof_wait w.second_wait s).1) auto_fire_error

unfoldable pub skips_first_turn : StartOptions → Bool
unfolding on_stdin
skips_first_turn opts =
    not opts.auto_fire_first_turn
    || is_blank opts.first_turn_payload
    || (on_stdin opts && not (is_blank opts.boot_prompt))

-- AutoFireFirstTurn, unless the boot prompt has gone to stdin.
unfoldable pub first_turn : World → List Step → ChildSession → Started
unfolding first_sent skips_first_turn send_input
first_turn w steps s =
    if skips_first_turn s.opts
    then record { session = some s; error = none; cleaned_dir = none; steps = steps; turn = [] }
    else first_sent w steps (send_input w.turn_ok s.opts.first_turn_payload s)

-- After spawnAttempt(0). The goroutines that Start begins are the steps of Child.
unfoldable pub spawned_stage : World → Bytes → Spawned → Started
unfolding first_turn start_failed
spawned_stage w dir sp = elim sp.error [
  | none ↦ first_turn w sp.steps sp.session
  | some e ↦ start_failed (some dir) sp.steps (spawn_error e)
]

unfoldable pub log_stage : World → Bytes → StartOptions → Bytes × Option StartError → Started
unfolding spawned_stage start_failed spawn_attempt new_session
log_stage w dir opts (path, some e) = start_failed (some dir) [] e
log_stage w dir opts (path, none) =
    if not w.create_ok
    then start_failed (some dir) [] log_create_error
    else spawned_stage w dir (spawn_attempt w.setup w.launched 0 (new_session dir opts w.room))

-- Start. A planted directory that is empty means that nothing was planted.
unfoldable pub start_session : World → StartOptions → Started
unfolding log_stage start_failed resolve_log_path
start_session w opts =
    if is_blank opts.workdir then start_failed none [] workdir_required else elim (w.plant opts) [
      | none ↦ start_failed none [] plant_error
      | some (dir, planted) ↦ log_stage w dir planted (resolve_log_path w.join w.mkdir_ok planted)
    ]
