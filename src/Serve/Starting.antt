-- ===== src/Serve/Starting.antt =====
-- Start of agentsessions/serve_http_session.go, with waitHealthy and createSession.
use go_agent_sessions.Prelude.{
  ℕ, Bool, true, false, not, ◌&&◌, ◌||◌, Option, none, some, List, [], ◌∷◌, ◌++◌, if◌then◌else◌,
  nat_eq, ◌==◌,
}
use go_agent_sessions.Prelude.Texts.{Bytes, codes, is_blank}
use go_agent_sessions.Supervision.{WaitError}
use go_agent_sessions.Spawn.Options.{StartOptions}
use go_agent_sessions.Spawn.Attempt.{Setup, Step, SpawnError}
use go_agent_sessions.Stdio.Clients.{Waited}
use go_agent_sessions.Serve.{ServeSession, new_session}
use go_agent_sessions.Serve.Scanning.{scan_line}
use go_agent_sessions.Serve.Events.{note_session}
use go_agent_sessions.Serve.Spawning.{Launched, spawn}
use go_agent_sessions.Serve.Clients.{
  Answer, failed, answered, is_success, TurnError, begin_turn, finish_turn, stop,
}

pub data StartError : Type 0 where
  workdir_required plant_error log_path_required log_dir_error log_create_error : StartError
  spawn_error : SpawnError → StartError
  exited_early listen_timeout context_done health_error health_timeout : StartError
  create_error decode_error empty_id auto_fire_error : StartError
  create_status : ℕ → Bytes → StartError

-- resolveServeHTTPLogPath, with filepath.Join and the answer of os.MkdirAll.
unfoldable pub resolve_log_path :
    (List Bytes → Bytes) → Bool → StartOptions → Bytes × Option StartError
resolve_log_path join mkdir_ok opts =
    if not (is_blank opts.log_path)
    then (opts.log_path, none)
    else (if is_blank opts.workspace_dir
        then ([], some log_path_required)
        else (if mkdir_ok
            then (join (opts.workspace_dir ∷ codes "logs" ∷ codes "session.log" ∷ []), none)
            else ([], some log_dir_error)))

-- One try of waitHealthy: the answer, whether the deadline has passed, and whether the context
-- ends the pause.
pub record HealthTry : Type 0 where
  pub answer : Answer
  pub late : Bool
  pub cancelled : Bool

succeeds : Answer → Bool
succeeds failed = false
succeeds (answered status body) = is_success status

late_error : Answer → StartError
late_error failed = health_error
late_error (answered status body) = health_timeout

-- waitHealthy on its tries in their order: it has no result as long as it goes on.
unfoldable pub wait_healthy : List HealthTry → Option (Option StartError)
unfolding succeeds late_error
wait_healthy [] = none
wait_healthy (t ∷ ts) =
    let rest = wait_healthy ts in
    if succeeds t.answer
    then some none
    else (if t.late
        then some (some (late_error t.answer))
        else (if t.cancelled then some (some context_done) else rest))

-- The id in the body, by json.Unmarshal.
module _ (session_id_of : Bytes → Option Bytes) where
  created : Option Bytes → ServeSession → ServeSession × Option StartError
  unfolding note_session
  created none s = (s, some decode_error)
  created (some i) s =
      if is_blank i
      then (s, some empty_id)
      else (note_session i (record s { session_id = i }), none)

  unfoldable pub create_session : Answer → ServeSession → ServeSession × Option StartError
  unfolding created
  create_session failed s = (s, some create_error)
  create_session (answered status body) s =
      if not (is_success status)
      then (s, some (create_status status body))
      else created (session_id_of body) s

-- strings.TrimRight(base, "/")
unfoldable pub trim_slashes : Bytes → Bytes
trim_slashes [] = []
trim_slashes (c ∷ cs) =
    let rest = trim_slashes cs in if is_blank rest && c == b'/' then [] else c ∷ rest

-- Which case of the select in Start is taken.
pub data Readiness : Type 0 where
  listening timed_out cancelled : Readiness
  child_exited : Option WaitError → Readiness

-- What Start meets: preparePlant, the file system, the launch, the lines of the child until the
-- select, the result of waitHealthy, the answers of the two requests, and how a Stop goes; with
-- the parameters of the parts.
pub record World : Type 0 where
  pub setup : Setup
  pub plant : StartOptions → Option (Bytes × StartOptions)
  pub join : List Bytes → Bytes
  pub mkdir_ok : Bool
  pub create_ok : Bool
  pub room : ℕ
  pub launched : Launched
  pub parses : Bytes → Bool
  pub lines : List Bytes
  pub readiness : Readiness
  pub healthy : Option StartError
  pub session_id_of : Bytes → Option Bytes
  pub created : Answer
  pub turn : Answer
  pub with_workdir : Bytes → Bytes
  pub path_escape : Bytes → Bytes
  pub term_ok : Bool
  pub first_wait : Waited
  pub second_wait : Waited

-- What Start leaves: a session or an error; the planted directory that Start itself removed; what
-- was done to the child.
pub record Started : Type 0 where
  pub session : Option ServeSession
  pub error : Option StartError
  pub cleaned_dir : Option Bytes
  pub steps : List Step

unfoldable pub start_failed : Option Bytes → List Step → StartError → Started
start_failed dir steps e = record {
  session = none;
  error = some e;
  cleaned_dir = dir;
  steps = steps;
}

unfoldable pub scan_lines : (Bytes → Bool) → List Bytes → ServeSession → ServeSession
unfolding scan_line
scan_lines parses [] s = s
scan_lines parses (line ∷ rest) s = scan_lines parses rest (scan_line parses line s)

module _ (w : World) (steps : List Step) where
  -- `_ = s.Stop(...)`, and the error.
  stopped_start : StartError → ServeSession → Started
  unfolding start_failed stop
  stopped_start e s =
      start_failed none
        (steps ++ (stop w.with_workdir w.path_escape w.term_ok w.first_wait w.second_wait s).2) e

  sent_stage : ServeSession × Option TurnError → Started
  unfolding stopped_start
  sent_stage (s, none) = record {
    session = some s;
    error = none;
    cleaned_dir = none;
    steps = steps;
  }
  sent_stage (s, some e) = stopped_start auto_fire_error s

  begun_stage : ServeSession × Option TurnError → Started
  unfolding stopped_start sent_stage finish_turn
  begun_stage (s, some e) = stopped_start auto_fire_error s
  begun_stage (s, none) = sent_stage (finish_turn w.turn s)

  -- AutoFireFirstTurn, with the event stream running.
  unfoldable pub first_turn : ServeSession → Started
  unfolding begun_stage begin_turn
  first_turn s =
      if not s.opts.auto_fire_first_turn || is_blank s.opts.first_turn_payload
      then record { session = some s; error = none; cleaned_dir = none; steps = steps }
      else begun_stage (begin_turn s)

  created_stage : ServeSession × Option StartError → Started
  unfolding first_turn stopped_start
  created_stage (s, some e) = stopped_start e s
  created_stage (s, none) = first_turn (record s { streaming = true })

  -- From waitHealthy on.
  unfoldable pub health_stage : Option StartError → ServeSession → Started
  unfolding stopped_start created_stage create_session
  health_stage (some e) s = stopped_start e s
  health_stage none s = created_stage (
      if is_blank s.opts.session_id_preset
      then create_session w.session_id_of w.created s
      else (record s { session_id = s.opts.session_id_preset }, none))

  base_of : Option Bytes → Bytes
  base_of none = []
  base_of (some u) = u

  -- The select; a child that has exited has been waited for.
  unfoldable pub ready_stage : Readiness → ServeSession → Started
  unfolding health_stage stopped_start start_failed base_of trim_slashes
  ready_stage listening s =
      health_stage w.healthy
        (record s { base_url = trim_slashes (base_of s.ready_url); ready_url = none })
  ready_stage (child_exited err) s = start_failed none steps exited_early
  ready_stage timed_out s = stopped_start listen_timeout s
  ready_stage cancelled s = stopped_start context_done s

spawned_stage : World → Bytes → ServeSession × List Step × Option SpawnError → Started
unfolding start_failed ready_stage scan_lines
spawned_stage w dir (s, steps, some e) = start_failed (some dir) steps (spawn_error e)
spawned_stage w dir (s, steps, none) =
    ready_stage w steps w.readiness (scan_lines w.parses w.lines s)

log_stage : World → Bytes → StartOptions → Bytes × Option StartError → Started
unfolding spawned_stage start_failed spawn new_session
log_stage w dir opts (path, some e) = start_failed (some dir) [] e
log_stage w dir opts (path, none) =
    if not w.create_ok
    then start_failed (some dir) [] log_create_error
    else spawned_stage w dir (spawn w.setup w.launched (new_session dir opts w.room))

-- Start. A planted directory that is empty means that nothing was planted.
unfoldable pub start_session : World → StartOptions → Started
unfolding log_stage start_failed resolve_log_path
start_session w opts =
    if is_blank opts.workdir then start_failed none [] workdir_required else elim (w.plant opts) [
      | none ↦ start_failed none [] plant_error
      | some (dir, planted) ↦ log_stage w dir planted (resolve_log_path w.join w.mkdir_ok planted)
    ]
