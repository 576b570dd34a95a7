-- ===== src/Pty/Clients.antt =====
-- Start, Stop, SendInput, Resize and the small methods of agentsessions/pty_session.go.
use go_agent_sessions.Prelude.{
  ℕ, Bool, true, false, not, ◌&&◌, ◌||◌, Option, none, some, List, [], ◌∷◌, ◌++◌, if◌then◌else◌,
  nat_eq,
}
use go_agent_sessions.Prelude.Texts.{Bytes, codes, is_blank}
use go_agent_sessions.Turns.{LiveState, stopped}
use go_agent_sessions.Spawn.Options.{StartOptions}
use go_agent_sessions.Spawn.Attempt.{Step, SpawnError, Setup, signal, on_stdin}
use go_agent_sessions.Child.{ChildSession, new_session, tick_activity}
use go_agent_sessions.Child.Watching.{sigterm}
use go_agent_sessions.Stdio.Spawning.{Spawned}
use go_agent_sessions.Stdio.Clients.{
  InputError, no_input_channel, write_error, framed, Waited, kill_stage,
}
use go_agent_sessions.Pty.Attempt.{spawn_attempt}

-- SendInput: what is written to the terminal, and the error.
unfoldable pub send_input : Bool → Bytes → ChildSession → ChildSession × Bytes × Option InputError
unfolding framed tick_activity
send_input write_ok payload s =
    if not s.alive || not s.input
    then (s, [], some no_input_channel)
    else (if write_ok then (tick_activity s, framed payload, none) else (s, [], some write_error))

-- writeRawInputString
unfoldable pub write_raw_input_string :
    Bool → Bytes → ChildSession → ChildSession × Bytes × Option InputError
unfolding tick_activity
write_raw_input_string write_ok text s =
    if not s.alive || not s.input
    then (s, [], some no_input_channel)
    else (if write_ok then (tick_activity s, text, none) else (s, [], some write_error))

-- Resize under Caps.Resize: the size that is set, if one is, and whether an error comes back.
unfoldable pub resize : Bool → Bool → ℕ → ℕ → ChildSession → Option (ℕ × ℕ) × Bool
resize can_resize set_ok rows cols s =
    if not can_resize
    then (none, false)
    else (if not s.input then (none, false) else (some (rows, cols), not set_ok))

-- The signals of Stop: SIGTERM, and SIGKILL unless the wait for the end of the session ends first.
unfoldable pub signals : Bool → Waited → Option ℕ → List Step
unfolding kill_stage
signals term_ok w none = []
signals term_ok w (some pid) = signal sigterm ∷ (if term_ok then kill_stage w else [])

unfoldable pub stop : Bool → Waited → ChildSession → ChildSession × List Step
unfolding signals
stop term_ok w s = if s.stop_requested then (s, []) else (
  record s { alive = false; state = stopped; stop_requested = true },
  signals term_ok w s.cmd,
)

unfoldable pub health : ChildSession → Bool × ℕ × LiveState
health s = (s.alive, if s.alive then s.started_pid else 0, s.state)

unfoldable pub live_pid : ChildSession → ℕ
live_pid s = if s.alive then s.started_pid else 0

unfoldable pub last_pid : ChildSession → ℕ
last_pid s = s.last_pid

unfoldable pub provider_session_id : ChildSession → Bytes
provider_session_id s = s.last_session_id

pub data StartError : Type 0 where
  workdir_required plant_error log_path_required log_dir_error log_create_error : StartError
  spawn_error : SpawnError → StartError
  context_done write_prompt_error auto_fire_error : StartError

-- resolvePTYLogPath, with filepath.Join and the answer of os.MkdirAll.
unfoldable pub resolve_log_path :
    (List Bytes → Bytes) → Bool → StartOptions → Bytes × Option StartError
resolve_log_path join mkdir_ok opts =
    if not (is_blank opts.log_path)
    then (opts.log_path, none)
    else (if is_blank opts.workspace_dir
        then ([], some log_path_required)
        else (if mkdir_ok
            then (join (opts.workspace_dir ∷ codes "logs" ∷ codes "session.log" ∷ []), none)
            else ([], some log_dir_error)))

-- What Start meets; `ready` is false where the context is done before the reader is ready.
pub record World : Type 0 where
  pub setup : Setup
  pub plant : StartOptions → Option (Bytes × StartOptions)
  pub join : List Bytes → Bytes
  pub mkdir_ok : Bool
  pub create_ok : Bool
  pub room : ℕ
  pub pid : Option ℕ
  pub ready : Bool
  pub prompt_ok : Bool
  pub turn_ok : Bool
  pub term_ok : Bool
  pub stop_wait : Waited

-- What Start leaves: a session or an error; the planted directory that was removed; what was done
-- to the child, and what was written to it.
pub record Started : Type 0 where
  pub session : Option ChildSession
  pub error : Option StartError
  pub cleaned_dir : Option Bytes
  pub steps : List Step
  pub typed : List Bytes

unfoldable pub start_failed : Option Bytes → List Step → StartError → Started
start_failed dir steps e = record {
  session = none;
  error = some e;
  cleaned_dir = dir;
  steps = steps;
  typed = [];
}

-- `_ = s.Stop(...)`, and the error.
unfoldable pub stopped_start : World → List Step → StartError → ChildSession → Started
unfolding start_failed stop
stopped_start w steps e s = start_failed none (steps ++ (stop w.term_ok w.stop_wait s).1) e

unfoldable pub first_sent :
    World → List Step → List Bytes → ChildSession × Bytes × Option InputError → Started
unfolding stopped_start
first_sent w steps typed (s, sent, none) = record {
  session = some s;
  error = none;
  cleaned_dir = none;
  steps = steps;
  typed = typed ++ sent ∷ [];
}
first_sent w steps typed (s, sent, some e) = stopped_start w steps auto_fire_error s

unfoldable pub skips_first_turn : StartOptions → Bool
unfolding on_stdin
skips_first_turn opts =
    not opts.auto_fire_first_turn
    || is_blank opts.first_turn_payload
    || (on_stdin opts && not (is_blank opts.boot_prompt))

-- AutoFireFirstTurn
unfoldable pub first_turn : World → List Step → List Bytes → ChildSession → Started
unfolding first_sent skips_first_turn send_input
first_turn w steps typed s =
    if skips_first_turn s.opts
    then record { session = some s; error = none; cleaned_dir = none; steps = steps; typed = typed }
    else first_sent w steps typed (send_input w.turn_ok s.opts.first_turn_payload s)

unfoldable pub prompt_sent : World → List Step → ChildSession × Bytes × Option InputError → Started
unfolding first_turn stopped_start
prompt_sent w steps (s, sent, none) = first_turn w steps (sent ∷ []) s
prompt_sent w steps (s, sent, some e) = stopped_start w steps write_prompt_error s

-- The boot prompt on the terminal.
unfoldable pub prompt_stage : World → List Step → ChildSession → Started
unfolding prompt_sent stopped_start write_raw_input_string first_turn on_stdin
prompt_stage w steps s =
    if not (on_stdin s.opts && not (is_blank s.opts.boot_prompt))
    then first_turn w steps [] s
    else (if not w.ready
        then stopped_start w steps context_done s
        else prompt_sent w steps (write_raw_input_string w.prompt_ok s.opts.boot_prompt s))

unfoldable pub spawned_stage : World → Bytes → Spawned → Started
unfolding prompt_stage start_failed
spawned_stage w dir sp = elim sp.error [
  | none ↦ prompt_stage w sp.steps sp.session
  | some e ↦ start_failed (some dir) sp.steps (spawn_error e)
]

unfoldable pub log_stage : World → Bytes → StartOptions → Bytes × Option StartError → Started
unfolding spawned_stage start_failed spawn_attempt new_session
log_stage w dir opts (path, some e) = start_failed (some dir) [] e
log_stage w dir opts (path, none) =
    if not w.create_ok
    then start_failed (some dir) [] log_create_error
    else spawned_stage w dir (spawn_attempt w.setup w.pid 0 (new_session dir opts w.room))

-- Start. A planted directory that is empty means that nothing was planted.
unfoldable pub start_session : World → StartOptions → Started
unfolding log_stage start_failed resolve_log_path
start_session w opts =
    if is_blank opts.workdir then start_failed none [] workdir_required else elim (w.plant opts) [
      | none ↦ start_failed none [] plant_error
      | some (dir, planted) ↦ log_stage w dir planted (resolve_log_path w.join w.mkdir_ok planted)
    ]
