-- ===== src/JsonRpc/Hosting.antt =====
-- The session of agentsessions/jsonrpc_stdio_session.go with its child: runReaderLoop and
-- the ends of an attempt and of the session. Its fields for the child are those of the session on
-- pipes, whose waiters it repeats; `client` has the rest of its fields.
use go_agent_sessions.Prelude.{
  ℕ, not, Option, none, some, List, [], ◌∷◌, ◌++◌, String, if◌then◌else◌, string_eq, ◌==◌,
}
use go_agent_sessions.Prelude.Texts.{Bytes}
use go_agent_sessions.Supervision.{WaitError, ExitError}
use go_agent_sessions.Spawn.Options.{StartOptions}
use go_agent_sessions.Spawn.Attempt.{Adapter}
use go_agent_sessions.Child.{ChildSession, tick_activity}
use go_agent_sessions.Child as Child
use go_agent_sessions.Child.Reading.{
  newline, fan_events, events_of, typed_stage, scanned, scan_bytes, fresh_scanner,
}
use go_agent_sessions.Child.Ending as Ending
use go_agent_sessions.JsonRpc.{Frame, Session, Outside, answer, fail_pending}
use go_agent_sessions.JsonRpc as Client

pub record Hosted : Type 0 where
  pub child : ChildSession
  pub client : Session

-- alive, stopRequested and stdin are one field each, which the client reads too.
abbrev pub sync : ChildSession → Session → Session
sync s c = record c { alive = s.alive; stopping = s.stop_requested; stdin = s.input }

abbrev pub with_child : ChildSession → Hosted → Hosted
with_child s h = record { child = s; client = sync s h.client }

-- The literal in Start and the stores behind it.
unfoldable pub new_hosted : Bytes → StartOptions → ℕ → Hosted
unfolding Child.new_session
new_hosted boot_dir opts room =
    with_child (Child.new_session boot_dir opts room)
      (record { child = Child.new_session boot_dir opts room; client = Client.new_session })

-- s.tickActivity(); line[len(raw)] = '\n'; sink.Write(line)
unfoldable pub log_stage : Bytes → ChildSession → ChildSession
unfolding tick_activity
log_stage raw s =
    let line = raw ++ newline ∷ [] in
    let t = tick_activity s in
    record t { log = t.log ++ line; fanned = if t.opts.fanout then t.fanned ++ line else t.fanned }

-- The end of runReaderLoop.
unfoldable pub end_reading : Hosted → Option Hosted
unfolding fail_pending
end_reading h =
    elim (fail_pending "agentsessions: jsonrpc reader exited before response" h.client) [
      | none ↦ none
      | some c ↦ some (record h { client = c })
    ]

module _ (out : Outside) (text : Bytes → String) where
  -- The tickActivity at the end of respondToServerRequest.
  unfoldable pub answer_tick : Frame → ChildSession → ChildSession
  unfolding tick_activity
  answer_tick f s = elim f.id [
    | none ↦ s
    | some id ↦ elim (out.encode_answer id (answer out f)) [
      | none ↦ s
      | some encoded ↦ if not (f.method == "") then tick_activity s else s
    ]
  ]

  -- What a line does to the fields for the child; a line that is not JSON is only logged.
  unfoldable pub hear : Adapter → Bytes → Option Frame → ChildSession → ChildSession
  unfolding log_stage answer_tick typed_stage fan_events events_of
  hear a raw none s = log_stage raw s
  hear a raw (some f) s =
      answer_tick f
        (typed_stage a raw (fan_events (events_of (a.parse_line raw)) (log_stage raw s)))

  -- The body of the loop in runReaderLoop; `text` gives a line as the raw message.
  unfoldable pub read_raw : Adapter → Bytes → Hosted → Option Hosted
  unfolding hear Client.read_line
  read_raw a raw h = elim (Client.read_line out (text raw) h.client) [
    | none ↦ none
    | some c ↦ some (record { child = hear a raw (out.unmarshal (text raw)) h.child; client = c })
  ]

  unfoldable pub read_raws : Adapter → List Bytes → Hosted → Option Hosted
  unfolding read_raw
  read_raws a [] h = some h
  read_raws a (raw ∷ rest) h = elim (read_raw a raw h) [
    | none ↦ none
    | some h' ↦ read_raws a rest h'
  ]

  -- runReaderLoop on all that the child writes before the pipe is closed.
  unfoldable pub run_reader_loop : Adapter → Bytes → Hosted → Option Hosted
  unfolding read_raws end_reading scanned scan_bytes
  run_reader_loop a output h = elim (read_raws a (scanned (scan_bytes fresh_scanner output)) h) [
    | none ↦ none
    | some h' ↦ end_reading h'
  ]

-- spawnWaiterLegacy, from the return of cmd.Wait to its end; the reader has ended before
-- `<-s.copyDone`.
unfoldable pub legacy_wait : Option WaitError → Hosted → Hosted
unfolding Ending.legacy_wait
legacy_wait err h = with_child (Ending.legacy_wait err h.child) h

-- waitOnceSupervised, on the session's fields when the attempt is over.
unfoldable pub close_attempt : Hosted → Hosted
unfolding Ending.close_attempt
close_attempt h = with_child (Ending.close_attempt h.child) h

-- The deferred function of runSupervised.
unfoldable pub finish_supervised : Option ExitError → Hosted → Hosted
unfolding Ending.finish_supervised
finish_supervised last_exit h = with_child (Ending.finish_supervised last_exit h.child) h
