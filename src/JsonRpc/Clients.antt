-- ===== src/JsonRpc/Clients.antt =====
-- Start, Stop, SendInput, Call's write and the small methods of
-- agentsessions/jsonrpc_stdio_session.go.
use go_agent_sessions.Prelude.{
  ℕ, Bool, true, false, not, Option, none, some, List, [], ◌∷◌, ◌++◌, String, if◌then◌else◌,
}
use go_agent_sessions.Prelude.Int.{ℤ}
use go_agent_sessions.Prelude.Texts.{Bytes, codes, is_blank}
use go_agent_sessions.Turns.{LiveState, stopped}
use go_agent_sessions.Spawn.Options.{StartOptions}
use go_agent_sessions.Spawn.Attempt.{Step, Adapter, close_pipe, signal, stdin_pipe}
use go_agent_sessions.Child.{ChildSession, Reported, tick_activity}
use go_agent_sessions.Child.Ending as Ending
use go_agent_sessions.Child.Reading.{newline}
use go_agent_sessions.Child.Watching.{sigterm}
use go_agent_sessions.Supervision.{sigkill}
use go_agent_sessions.Stdio.Clients.{
  InputError, no_input_channel, write_error, Waited, exited, elapsed, cancelled, ends_line,
  log_path_required, log_dir_error, World, StartError, workdir_required, plant_error,
  log_create_error, auto_fire_error, spawn_error, skips_first_turn,
}
use go_agent_sessions.Stdio.Clients as Stdio
use go_agent_sessions.JsonRpc.{
  CallPhase, not_called, registered, waiting, returned, Session, Outside,
}
use go_agent_sessions.JsonRpc as Client
use go_agent_sessions.JsonRpc.Hosting.{Hosted, with_child, new_hosted}
use go_agent_sessions.JsonRpc.Spawning.{Spawned, spawn_attempt}

-- Prepare, with Caps.BinaryRequired: does it give no error?
unfoldable pub prepare : Bool → Adapter → Bool
prepare binary_required a =
    if not binary_required then true else elim a.detect [ none ↦ false | some b ↦ true ]

-- SendInput: what is written to stdin, and the error. `write_ok` is the answer of the write.
unfoldable pub send_input : Bool → Bytes → Hosted → Hosted × Bytes × Option InputError
unfolding tick_activity ends_line
send_input write_ok payload h =
    if h.child.alive
    then (if h.child.input
        then (let line = if ends_line payload then payload else payload ++ newline ∷ [] in
            if write_ok
            then (with_child (tick_activity h.child) h, line, none)
            else (h, [], some write_error))
        else (h, [], some no_input_channel))
    else (h, [], some no_input_channel)

-- The tickActivity of Call, once its request is written.
call_tick : CallPhase → CallPhase → ChildSession → ChildSession
unfolding tick_activity
call_tick (registered method params) waiting s = tick_activity s
call_tick (registered method params) not_called s = s
call_tick (registered method params) (registered m p) s = s
call_tick (registered method params) (returned o) s = s
call_tick not_called p s = s
call_tick waiting p s = s
call_tick (returned o) p s = s

-- Call, from the encoding of the frame to the tick; `werr` is the error of the write.
unfoldable pub send_call : Outside → ℕ → Option String → Hosted → Hosted
unfolding call_tick Client.send_phase
send_call out i werr h =
    let c : Session = Client.send_phase out i werr h.client (h.client.phase i) in
    record { child = call_tick (h.client.phase i) (c.phase i) h.child; client = c }

-- The select after the SIGTERM: is there a SIGKILL?
unfoldable pub last_grace : Waited → List Step
last_grace exited = []
last_grace elapsed = signal sigkill ∷ []
last_grace cancelled = signal sigkill ∷ []

-- The end of Stop, from the wait for the child to end after its stdin is closed.
unfoldable pub eof_grace : Bool → Waited → Waited → List Step
unfolding last_grace
eof_grace term_ok exited second_wait = []
eof_grace true elapsed second_wait = signal sigterm ∷ last_grace second_wait
eof_grace true cancelled second_wait = signal sigterm ∷ last_grace second_wait
eof_grace false elapsed second_wait = signal sigterm ∷ []
eof_grace false cancelled second_wait = signal sigterm ∷ []

-- What the function in stopOnce does to the child.
unfoldable pub end_child : Bool → Waited → Waited → ChildSession → List Step
unfolding eof_grace
end_child term_ok eof_wait second_wait s =
    let graces : List Step = elim s.cmd [
      | none ↦ []
      | some pid ↦ eof_grace term_ok eof_wait second_wait
    ] in
    if s.input then close_pipe stdin_pipe ∷ graces else graces

-- Stop: the session, and what it does to the child; `none` would be a panic.
unfoldable pub stop : Bool → Waited → Waited → Hosted → Option (Hosted × List Step)
unfolding end_child Client.stop
stop term_ok eof_wait second_wait h =
    if h.child.stop_requested then some (h, []) else elim (Client.stop h.client) [
      | none ↦ none
      | some c ↦ some (
        record {
          child = record h.child { alive = false; state = stopped; stop_requested = true };
          client = c;
        },
        end_child term_ok eof_wait second_wait h.child,
      )
    ]

-- Wait; `none` while the session runs.
unfoldable pub wait : Hosted → Option (ℤ × Option Reported)
unfolding Ending.wait
wait h = Ending.wait h.child

-- Resize does nothing.
unfoldable pub resize : ℕ → ℕ → Hosted → Hosted
resize rows cols h = h

-- Health: alive, the pid, and the state.
unfoldable pub health : Hosted → Bool × ℕ × LiveState
unfolding Stdio.health
health h = Stdio.health h.child

-- CheckpointHints, with Caps.CheckpointResume.
unfoldable pub checkpoint_hints : Bool → Hosted → Option Bytes
unfolding Stdio.checkpoint_hints
checkpoint_hints resumes h = Stdio.checkpoint_hints resumes h.child

unfoldable pub live_pid : Hosted → ℕ
live_pid h = if h.child.alive then h.child.started_pid else 0

unfoldable pub last_pid : Hosted → ℕ
last_pid h = h.child.last_pid

unfoldable pub provider_session_id : Hosted → Bytes
provider_session_id h = h.child.last_session_id

-- resolveJsonRpcStdioLogPath, with filepath.Join and the answer of os.MkdirAll.
unfoldable pub resolve_json_rpc_log_path :
    (List Bytes → Bytes) → Bool → StartOptions → Bytes × Option StartError
resolve_json_rpc_log_path join mkdir_ok opts =
    if is_blank opts.log_path
    then (if is_blank opts.workspace_dir
        then ([], some log_path_required)
        else (let path = join (opts.workspace_dir ∷ codes "logs" ∷ codes "session.log" ∷ []) in
            if mkdir_ok then (path, none) else ([], some log_dir_error)))
    else (opts.log_path, none)

-- What Start leaves: a session or an error; the planted directory that it has removed, what was done
-- to the child, and the first turn that it was given.
pub record Started : Type 0 where
  pub session : Option Hosted
  pub error : Option StartError
  pub cleaned_dir : Option Bytes
  pub steps : List Step
  pub turn : Bytes

unfoldable pub start_failed : Option Bytes → List Step → StartError → Started
start_failed dir steps e = record {
  session = none;
  error = some e;
  cleaned_dir = dir;
  steps = steps;
  turn = [];
}

unfoldable pub started : List Step → Bytes → Hosted → Started
started steps sent h = record {
  session = some h;
  error = none;
  cleaned_dir = none;
  steps = steps;
  turn = sent;
}

-- After the SendInput of AutoFireFirstTurn; `_ = s.Stop(ctx)` where it fails.
unfoldable pub first_sent : World → List Step → Hosted × Bytes × Option InputError → Option Started
unfolding start_failed started stop
first_sent w steps (h, sent, none) = some (started steps sent h)
first_sent w steps (h, sent, some e) = elim (stop w.term_ok w.eof_wait w.second_wait h) [
  | none ↦ none
  | some (h', more) ↦ some (start_failed none (steps ++ more) auto_fire_error)
]

unfoldable pub first_turn : World → List Step → Hosted → Option Started
unfolding first_sent started skips_first_turn send_input
first_turn w steps h =
    if skips_first_turn h.child.opts
    then some (started steps [] h)
    else first_sent w steps (send_input w.turn_ok h.child.opts.first_turn_payload h)

-- After spawnAttempt(0). The goroutines that Start begins are steps of their own.
unfoldable pub spawned_stage : World → Bytes → Spawned → Option Started
unfolding first_turn start_failed
spawned_stage w dir sp = elim sp.error [
  | none ↦ first_turn w sp.steps sp.session
  | some e ↦ some (start_failed (some dir) sp.steps (spawn_error e))
]

unfoldable pub log_stage : World → Bytes → StartOptions → Bytes × Option StartError → Option Started
unfolding spawned_stage start_failed spawn_attempt new_hosted
log_stage w dir opts (path, some e) = some (start_failed (some dir) [] e)
log_stage w dir opts (path, none) =
    if not w.create_ok
    then some (start_failed (some dir) [] log_create_error)
    else spawned_stage w dir (spawn_attempt w.setup w.launched 0 (new_hosted dir opts w.room))

-- Start, in the world that Stdio.Clients describes; a planted directory that is empty means that
-- nothing was planted.
unfoldable pub start_session : World → StartOptions → Option Started
unfolding log_stage start_failed resolve_json_rpc_log_path
start_session w opts =
    if is_blank opts.workdir
    then some (start_failed none [] workdir_required)
    else elim (w.plant opts) [
      | none ↦ some (start_failed none [] plant_error)
      | some (dir, planted) ↦
          log_stage w dir planted (resolve_json_rpc_log_path w.join w.mkdir_ok planted)
    ]
