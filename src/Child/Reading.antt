-- ===== src/Child/Reading.antt =====
-- runReaderLoop of agentsessions/streaming_stdio_session.go: bufio.Scanner's lines, and what the
-- session does with each.
use go_agent_sessions.Prelude.{
  ℕ, ◌+◌, ◌^◌, Bool, false, not, ◌&&◌, ◌||◌, Option, none, some, List, [], ◌∷◌, ◌++◌, if◌then◌else◌,
  length, ltb, nat_eq, ◌==◌,
}
use go_agent_sessions.Prelude.Texts.{Bytes, is_blank}
use go_agent_sessions.Spawn.Attempt.{AgentEvent, session_id_event, other_agent_event, Adapter}
use go_agent_sessions.Child.{ChildSession, tick_activity}

abbrev pub newline : ℕ
newline = 10

-- scanner.Buffer(..., 1024*1024)
abbrev pub max_token : ℕ
max_token = 2 ^ 20

-- The lines scanned, the line that is being read, and whether the scanner has given up.
pub record Scanner : Type 0 where
  pub lines : List Bytes
  pub line : Bytes
  pub too_long : Bool

-- bufio.ScanLines drops one carriage return at the end of a line.
unfoldable pub drop_cr : Bytes → Bytes
drop_cr [] = []
drop_cr (c ∷ []) = if c == 13 then [] else c ∷ []
drop_cr (c ∷ d ∷ cs) = c ∷ drop_cr (d ∷ cs)

unfoldable pub scan_byte : Scanner → ℕ → Scanner
unfolding drop_cr
scan_byte sc c =
    if sc.too_long
    then sc
    else (if c == newline
        then record sc { lines = sc.lines ++ drop_cr sc.line ∷ []; line = [] }
        else record sc {
          line = sc.line ++ c ∷ [];
          too_long = not (ltb (length sc.line + 1) max_token);
        })

unfoldable pub scan_bytes : Scanner → Bytes → Scanner
unfolding scan_byte
scan_bytes sc [] = sc
scan_bytes sc (c ∷ cs) = scan_bytes (scan_byte sc c) cs

abbrev pub fresh_scanner : Scanner
fresh_scanner = record { lines = []; line = []; too_long = false }

-- At the end of the output a line without a newline counts, unless the scanner has given up.
unfoldable pub scanned : Scanner → List Bytes
unfolding drop_cr
scanned sc = if sc.too_long || is_blank sc.line then sc.lines else sc.lines ++ drop_cr sc.line ∷ []

-- tryEventFanout: a full channel drops the event.
unfoldable pub try_event_fanout : AgentEvent → ChildSession → ChildSession
try_event_fanout ev s =
    if s.opts.event_fanout && ltb (length s.events) s.event_room
    then record s { events = s.events ++ ev ∷ [] }
    else s

-- `if ev.Type == llmtypes.EventSessionID && ev.SessionID != "" { ... }`
unfoldable pub note_session_id : AgentEvent → ChildSession → ChildSession
note_session_id (other_agent_event e) s = s
note_session_id (session_id_event i) s = if is_blank i then s else record s {
  last_session_id = i;
  session_ids = if s.opts.on_session_id then s.session_ids ++ i ∷ [] else s.session_ids;
}

unfoldable pub fan_events : List AgentEvent → ChildSession → ChildSession
unfolding try_event_fanout note_session_id
fan_events [] s = s
fan_events (ev ∷ evs) s = fan_events evs (try_event_fanout ev (note_session_id ev s))

unfoldable pub or_empty : Option (List Bytes) → List Bytes
or_empty none = []
or_empty (some es) = es

-- if s.opts.TypedEventCallback != nil { ... }
unfoldable pub typed_stage : Adapter → Bytes → ChildSession → ChildSession
unfolding or_empty
typed_stage a raw s = if not s.opts.typed_event_callback then s else elim a.parse_line_events [
  | none ↦ s
  | some parse ↦ record s { typed_events = s.typed_events ++ or_empty (parse raw) }
]

unfoldable pub events_of : Option (List AgentEvent) → List AgentEvent
events_of none = []
events_of (some evs) = evs

-- The body of the loop.
unfoldable pub read_line : Adapter → Bytes → ChildSession → ChildSession
unfolding tick_activity fan_events typed_stage events_of
read_line a raw s =
    let line = raw ++ newline ∷ [] in
    let t = tick_activity s in
    let written : ChildSession = record t {
      log = t.log ++ line;
      fanned = if t.opts.fanout then t.fanned ++ line else t.fanned;
    } in
    typed_stage a raw (fan_events (events_of (a.parse_line raw)) written)

unfoldable pub read_lines : Adapter → List Bytes → ChildSession → ChildSession
unfolding read_line
read_lines a [] s = s
read_lines a (raw ∷ rest) s = read_lines a rest (read_line a raw s)

-- runReaderLoop on all that the child writes before the pipe is closed.
unfoldable pub run_reader_loop : Adapter → Bytes → ChildSession → ChildSession
unfolding read_lines scanned scan_bytes
run_reader_loop a out s = read_lines a (scanned (scan_bytes fresh_scanner out)) s
