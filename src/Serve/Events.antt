-- ===== src/Serve/Events.antt =====
-- runEventStream and handleSSEData of agentsessions/serve_http_session.go. json.Unmarshal is a
-- parameter.
use go_agent_sessions.Prelude.{
  false, not, ◌&&◌, ◌||◌, Option, none, some, List, [], ◌∷◌, ◌++◌, if◌then◌else◌, length, ltb,
  nat_eq, ◌==◌,
}
use go_agent_sessions.Prelude.Texts.{Bytes, codes, is_blank, bytes_eq}
use go_agent_sessions.Turns.{idle}
use go_agent_sessions.Child.Reading.{newline}
use go_agent_sessions.Serve.{
  ServeEvent, session_id_event, delta_event, error_event, done_event, ServeSession, write_output,
}
use go_agent_sessions.Serve.Scanning.{has_prefix, trim_prefix}

-- What the fields type, properties.sessionID, properties.delta and payload of a message hold.
pub record Message : Type 0 where
  pub kind : Bytes
  pub session : Bytes
  pub delta : Bytes
  pub payload : Bytes

-- tryEventFanout
unfoldable pub fan_event : ServeEvent → ServeSession → ServeSession
fan_event ev s =
    if s.opts.event_fanout && ltb (length s.events) s.event_room
    then record s { events = s.events ++ ev ∷ [] }
    else s

unfoldable pub mark_turn_done : ServeSession → ServeSession
mark_turn_done s = record s { turn_in_flight = false; state = if s.alive then idle else s.state }

-- if s.opts.OnSessionID != nil { s.opts.OnSessionID(id) }, and the store before it.
unfoldable pub note_session : Bytes → ServeSession → ServeSession
note_session i s = record s {
  last_session_id = i;
  session_ids = if s.opts.on_session_id then s.session_ids ++ i ∷ [] else s.session_ids;
}

-- The switch; `data_bytes` is the whole message.
unfoldable pub react : Bytes → Message → ServeSession → ServeSession
unfolding fan_event mark_turn_done note_session
react data_bytes m s =
    if m.kind == codes "session.created"
    then (if is_blank m.session
        then s
        else fan_event (session_id_event m.session) (note_session m.session s))
    else (if m.kind == codes "message.part.delta" || m.kind == codes "session.next.text.delta"
        then (if is_blank m.delta then s else fan_event (delta_event m.delta) s)
        else (if m.kind == codes "session.idle" || m.kind == codes "session.next.step.ended"
            then fan_event done_event (mark_turn_done s)
            else (if m.kind == codes "session.error" || m.kind == codes "session.next.step.failed"
                then fan_event (error_event data_bytes) (mark_turn_done s)
                else s)))

-- The payload in place of the message, where it parses and has a type.
wrapped : Message → Option Message → Message
wrapped m none = m
wrapped m (some w) =
    if is_blank w.kind then m else record m { kind = w.kind; session = w.session; delta = w.delta }

module _ (unmarshal : Bytes → Option Message) where
  unfoldable pub unwrap : Message → Message
  unfolding wrapped
  unwrap m = if is_blank m.payload then m else wrapped m (unmarshal m.payload)

  -- if ev.Properties.SessionID != "" && ev.Properties.SessionID != s.sessionID { return }
  unfoldable pub filtered : Bytes → Message → ServeSession → ServeSession
  unfolding react
  filtered data_bytes m s =
      if not (is_blank m.session) && not (m.session == s.session_id)
      then s
      else react data_bytes m s

  unfoldable pub handle_sse_data : Bytes → ServeSession → ServeSession
  unfolding filtered unwrap write_output
  handle_sse_data data_bytes s =
      let t = write_output (data_bytes ++ newline ∷ []) s in
      elim (unmarshal data_bytes) [ none ↦ t | some m ↦ filtered data_bytes (unwrap m) t ]

-- The loop of runEventStream over the lines of the body: the buffer, and the data that are handled.
unfoldable pub sse_line : Bytes × List Bytes → Bytes → Bytes × List Bytes
sse_line (buffer, handled) [] =
    if is_blank buffer then (buffer, handled) else ([], handled ++ buffer ∷ [])
sse_line (buffer, handled) (c ∷ cs) =
    if has_prefix (codes "data:") (c ∷ cs)
    then (buffer ++ trim_prefix (codes " ") (trim_prefix (codes "data:") (c ∷ cs)), handled)
    else (buffer, handled)

unfoldable pub sse_lines : Bytes × List Bytes → List Bytes → Bytes × List Bytes
unfolding sse_line
sse_lines st [] = st
sse_lines st (line ∷ rest) = sse_lines (sse_line st line) rest

module _ (unmarshal : Bytes → Option Message) where
  unfoldable pub handle_all : List Bytes → ServeSession → ServeSession
  unfolding handle_sse_data
  handle_all [] s = s
  handle_all (d ∷ ds) s = handle_all ds (handle_sse_data unmarshal d s)

  -- runEventStream on the lines of the body; what is left in the buffer at its end is dropped.
  unfoldable pub run_event_stream : List Bytes → ServeSession → ServeSession
  unfolding handle_all sse_lines
  run_event_stream lines s = handle_all (sse_lines ([], []) lines).1 s
