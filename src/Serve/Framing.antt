-- ===== src/Serve/Framing.antt =====
-- Server-sent events as the loop of runEventStream (agentsessions/serve_http_session.go) reads
-- them.
use go_agent_sessions.Prelude.{
  false, Option, List, [], ◌∷◌, ◌++◌, ◌≡◌, refl, ap, sym, ◌∙◌, append_assoc, append-nil, arith,
}
use go_agent_sessions.Prelude.Texts.{Bytes, codes, is_blank}
use go_agent_sessions.Child.Reading.{scan_bytes, fresh_scanner, scanned, drop_cr}
use go_agent_sessions.Child.Lines.{Line, Lines, text_of, scan_text}
use go_agent_sessions.Serve.{ServeSession}
use go_agent_sessions.Serve.Scanning.{has_prefix, trim_prefix}
use go_agent_sessions.Serve.Events.{Message, sse_line, sse_lines, handle_all, run_event_stream}

-- An event as a server writes it: a field `data`, and an empty line.
abbrev pub event_lines : List Bytes → List Bytes
event_lines [] = []
event_lines (d ∷ ds) = (codes "data: " ++ d) ∷ [] ∷ event_lines ds

-- Data that fit in one line, after the name of the field, and are not empty.
abbrev pub Data : Bytes → Type 0
Data d = (is_blank d ≡ false) × Line (codes "data: " ++ d)

abbrev pub AllData : List Bytes → Type 0
AllData [] = Unit
AllData (d ∷ ds) = Data d × AllData ds

event_lines-Lines : (ds : List Bytes) → AllData ds → Lines (event_lines ds)
unfolding drop_cr
event_lines-Lines [] v = tt
event_lines-Lines (d ∷ ds) v = (v.0.1, ((tt, omega arith, refl), event_lines-Lines ds v.1))

one_event :
    (d : Bytes) (done : List Bytes)
    → is_blank d ≡ false
    → sse_lines ([], done) ((codes "data: " ++ d) ∷ [] ∷ []) ≡ ([], done ++ d ∷ [])
unfolding sse_lines sse_line has_prefix trim_prefix
one_event d done e = rw e refl

events_read :
    (ds done : List Bytes) → AllData ds → sse_lines ([], done) (event_lines ds) ≡ ([], done ++ ds)
unfolding sse_lines
events_read [] done v = ap (λ k. ([], k)) (sym (append-nil done))
events_read (d ∷ ds) done v =
    ap (λ st. sse_lines st (event_lines ds)) (one_event d done v.0.0)
    ∙ events_read ds (done ++ d ∷ []) v.1
    ∙ ap (λ k. ([], k)) (append_assoc done (d ∷ []) ds)

-- A stream of events that each have one line of data, which is not empty, has no newline and does
-- not end in a carriage return, and whose line of text is shorter than the scanner's 2^20 bytes: the
-- lines that the scanner finds in the text are handled as exactly these data, in their order.
pub run_event_stream-round_trip :
    (unmarshal : Bytes → Option Message) (ds : List Bytes) (s : ServeSession)
    → AllData ds
    → run_event_stream unmarshal (scanned (scan_bytes fresh_scanner (text_of (event_lines ds)))) s
      ≡ handle_all unmarshal ds s
unfolding run_event_stream scanned
run_event_stream-round_trip unmarshal ds s v =
    rw (scan_text [] (event_lines ds) (event_lines-Lines ds v), events_read ds [] v) refl
