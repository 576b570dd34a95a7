-- ===== src/Child/Output.antt =====
-- What runReaderLoop (agentsessions/streaming_stdio_session.go) makes of a child's output.
use go_agent_sessions.Prelude.{
  ◌+◌, ◌≤◌, Bool, true, false, not, ◌&&◌, List, [], ◌∷◌, ◌++◌, if◌then◌else◌, length, ltb, nat_eq,
  ◌≡◌, refl, ap, sym, ◌∙◌, append_assoc, append-nil, Option-elim, if-elim,
}
use go_agent_sessions.Prelude.Texts.{Bytes, is_blank}
use go_agent_sessions.Spawn.Attempt.{AgentEvent, session_id_event, other_agent_event, Adapter}
use go_agent_sessions.Child.{ChildSession, tick_activity}
use go_agent_sessions.Child.Reading.{
  newline, max_token, scanned, try_event_fanout, note_session_id, fan_events, typed_stage,
  events_of, read_line, read_lines, run_reader_loop,
}
use go_agent_sessions.Child.Lines.{Unbroken, Lines, text_of, scan_text, scan_oversized}

-- What the events of a line leave alone.
abbrev Same : ChildSession → ChildSession → Type 0
Same s t = (t.log ≡ s.log) × (t.fanned ≡ s.fanned) × (t.opts ≡ s.opts) × (t.done ≡ s.done)

Same-trans : (s t u : ChildSession) → Same s t → Same t u → Same s u
Same-trans s t u p q = (q.0 ∙ p.0, q.1 ∙ p.1, q.2 ∙ p.2, q.3 ∙ p.3)

try_event_fanout-Same : (ev : AgentEvent) (s : ChildSession) → Same s (try_event_fanout ev s)
unfolding try_event_fanout
try_event_fanout-Same ev s =
    if-elim (Same s) (s.opts.event_fanout && ltb (length s.events) s.event_room)
      (λ e. (refl, refl, refl, refl)) (λ e. (refl, refl, refl, refl))

note_session_id-Same : (ev : AgentEvent) (s : ChildSession) → Same s (note_session_id ev s)
unfolding note_session_id
note_session_id-Same (other_agent_event e) s = (refl, refl, refl, refl)
note_session_id-Same (session_id_event i) s =
    if-elim (Same s) (is_blank i) (λ e. (refl, refl, refl, refl)) (λ e. (refl, refl, refl, refl))

fan_events-Same : (evs : List AgentEvent) (s : ChildSession) → Same s (fan_events evs s)
unfolding fan_events
fan_events-Same [] s = (refl, refl, refl, refl)
fan_events-Same (ev ∷ evs) s =
    let t = note_session_id ev s in
    let u = try_event_fanout ev t in
    Same-trans s t (fan_events evs u) (note_session_id-Same ev s)
      (Same-trans t u (fan_events evs u) (try_event_fanout-Same ev t) (fan_events-Same evs u))

typed_stage-Same : (a : Adapter) (raw : Bytes) (s : ChildSession) → Same s (typed_stage a raw s)
unfolding typed_stage
typed_stage-Same a raw s =
    if-elim (Same s) (not s.opts.typed_event_callback) (λ e. (refl, refl, refl, refl))
      (λ e.
        Option-elim (Same s) a.parse_line_events (refl, refl, refl, refl)
          (λ parse. (refl, refl, refl, refl)))

-- The log and the Fanout after more output.
abbrev pub Extended : ChildSession → Bytes → ChildSession → Type 0
Extended s out t =
    (t.log ≡ s.log ++ out)
    × (t.fanned ≡ (if s.opts.fanout then s.fanned ++ out else s.fanned))
    × (t.opts ≡ s.opts)
    × (t.done ≡ s.done)

read_line-Extended :
    (a : Adapter) (raw : Bytes) (s : ChildSession)
    → Extended s (raw ++ newline ∷ []) (read_line a raw s)
unfolding read_line tick_activity
read_line-Extended a raw s =
    let line = raw ++ newline ∷ [] in
    let w : ChildSession = record s {
      ticks = s.ticks + 1;
      log = s.log ++ line;
      fanned = if s.opts.fanout then s.fanned ++ line else s.fanned;
    } in
    let evs = events_of (a.parse_line raw) in
    Same-trans w (fan_events evs w) (typed_stage a raw (fan_events evs w)) (fan_events-Same evs w)
      (typed_stage-Same a raw (fan_events evs w))

both :
    (b : Bool) (f l m : Bytes)
    → (if b then (if b then f ++ l else f) ++ m else (if b then f ++ l else f))
      ≡ (if b then f ++ (l ++ m) else f)
both true f l m = append_assoc f l m
both false f l m = refl

Extended-trans :
    (s t u : ChildSession) (l m : Bytes) → Extended s l t → Extended t m u → Extended s (l ++ m) u
Extended-trans s t u l m p q = (
  q.0 ∙ ap (◌++ m) p.0 ∙ append_assoc s.log l m,
  q.1
      ∙ ap (λ o. if o.fanout then t.fanned ++ m else t.fanned) p.2
      ∙ ap (λ f. if s.opts.fanout then f ++ m else f) p.1
      ∙ both s.opts.fanout s.fanned l m,
  q.2 ∙ p.2,
  q.3 ∙ p.3,
)

pub read_lines-Extended :
    (a : Adapter) (ls : List Bytes) (s : ChildSession) → Extended s (text_of ls) (read_lines a ls s)
unfolding read_lines
read_lines-Extended a [] s = (
  sym (append-nil s.log),
  if-elim (λ f. s.fanned ≡ f) s.opts.fanout (λ e. sym (append-nil s.fanned)) (λ e. refl),
  refl,
  refl,
)
read_lines-Extended a (raw ∷ rest) s =
    Extended-trans s (read_line a raw s) (read_lines a rest (read_line a raw s))
      (raw ++ newline ∷ []) (text_of rest) (read_line-Extended a raw s)
      (read_lines-Extended a rest (read_line a raw s))

-- Output in lines that fit the scanner's buffer and end in a newline alone: whatever the adapter
-- makes of them, the log, and Fanout where there is one, get exactly the bytes of the child.
pub run_reader_loop-verbatim :
    (a : Adapter) (ls : List Bytes) (s : ChildSession)
    → Lines ls
    → ((run_reader_loop a (text_of ls) s).log ≡ s.log ++ text_of ls)
      × ((run_reader_loop a (text_of ls) s).fanned
          ≡ (if s.opts.fanout then s.fanned ++ text_of ls else s.fanned))
unfolding run_reader_loop scanned
run_reader_loop-verbatim a ls s v =
    let r = read_lines-Extended a ls s in rw (scan_text [] ls v) (r.0, r.1)

-- A line of 2 ^ 20 bytes or more ends the reading for good: the session is as if the child had
-- written the lines before it and then nothing, whatever it writes after them.
pub run_reader_loop-oversized :
    (a : Adapter) (ls : List Bytes) (long more : Bytes) (s : ChildSession)
    → Lines ls
    → Unbroken long
    → max_token ≤ length long
    → run_reader_loop a (text_of ls ++ (long ++ more)) s ≡ run_reader_loop a (text_of ls) s
unfolding run_reader_loop scanned
run_reader_loop-oversized a ls long more s v u h =
    let (k, f) = scan_oversized ls long more v u h in rw (f, scan_text [] ls v) refl
