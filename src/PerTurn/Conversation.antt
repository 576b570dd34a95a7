-- ===== src/PerTurn/Conversation.antt =====
-- A turn of the session of agentsessions/from_adapter.go, and the session id that goes from turn
-- to turn.
use go_agent_sessions.Prelude.{
  Bool, true, false, not, ◌&&◌, Option, none, some, List, [], ◌∷◌, ◌++◌, if◌then◌else◌, length, ltb,
  ◌≡◌, refl, ap, sym, ◌∙◌, if-elim, append_assoc, append-nil,
}
use go_agent_sessions.Prelude.Texts.{Bytes, is_blank}
use go_agent_sessions.Turns.{idle, processing}
use go_agent_sessions.PerTurn.{
  StreamEvent, session_id_event, delta_event, error_event, tool_use_event, done_event, other_event,
  RunnerEvent, process_started, provider_event, process_exited, process_timeout, other_runner_event,
  TurnError, no_input_channel, turn_in_flight_error, AdapterSession, encode_stream_event,
  note_session_id, try_event_fanout, fan_text, handle_runner_event, handle_runner_events,
  begin_turn, finish_turn,
}

-- The id after an event, the text of an event, and the pid after it.
abbrev pub id_after : Bytes → RunnerEvent → Bytes
id_after i (process_started p) = i
id_after i (provider_event none) = i
id_after i (provider_event (some (session_id_event j))) = if is_blank j then i else j
id_after i (provider_event (some (delta_event c))) = i
id_after i (provider_event (some (error_event e))) = i
id_after i (provider_event (some (tool_use_event t))) = i
id_after i (provider_event (some done_event)) = i
id_after i (provider_event (some other_event)) = i
id_after i process_exited = i
id_after i process_timeout = i
id_after i other_runner_event = i

abbrev text_or_none : Option Bytes → Bytes
text_or_none none = []
text_or_none (some t) = t

abbrev pub text_of : RunnerEvent → Bytes
text_of ev = elim ev [ provider_event (some e) ↦ text_or_none (encode_stream_event e) | _ ↦ [] ]

abbrev pub ids_after : Bytes → List RunnerEvent → Bytes
ids_after i [] = i
ids_after i (ev ∷ evs) = ids_after (id_after i ev) evs

abbrev pub texts_of : List RunnerEvent → Bytes
texts_of [] = []
texts_of (ev ∷ evs) = text_of ev ++ texts_of evs

-- More text where there is a Fanout.
abbrev pub said : Bool → Bytes → Bytes → Bytes
said b f text = if b then f ++ text else f

said-append : (b : Bool) (f x y : Bytes) → said b (said b f x) y ≡ said b f (x ++ y)
said-append true f x y = append_assoc f x y
said-append false f x y = refl

said_nothing : (b : Bool) (f : Bytes) → f ≡ said b f []
said_nothing true f = sym (append-nil f)
said_nothing false f = refl

-- What the handling of events leaves alone.
abbrev Core : AdapterSession → AdapterSession → Type 0
Core s t = (t.opts ≡ s.opts) × (t.alive ≡ s.alive)

-- What some events have done to the id and to Fanout.
abbrev Told : AdapterSession → Bytes → Bytes → AdapterSession → Type 0
Told s i text t = Core s t × (t.session_id ≡ i) × (t.fanned ≡ said s.opts.fanout s.fanned text)

fan_text-Told :
    (o : Option Bytes) (s : AdapterSession) → Told s s.session_id (text_or_none o) (fan_text o s)
unfolding fan_text
fan_text-Told none s = ((refl, refl), refl, said_nothing s.opts.fanout s.fanned)
fan_text-Told (some x) s =
    if-elim (Told s s.session_id x) s.opts.fanout (λ f. ((refl, refl), refl, rw f refl))
      (λ f. ((refl, refl), refl, rw f refl))

-- Neither the id nor Fanout has changed.
abbrev Silent : AdapterSession → AdapterSession → Type 0
Silent s t = Core s t × (t.session_id ≡ s.session_id) × (t.fanned ≡ s.fanned)

try_event_fanout-Silent : (ev : StreamEvent) (s : AdapterSession) → Silent s (try_event_fanout ev s)
unfolding try_event_fanout
try_event_fanout-Silent ev s =
    if-elim (Silent s) (s.opts.event_fanout && ltb (length s.events) s.event_room)
      (λ e. ((refl, refl), refl, refl)) (λ e. ((refl, refl), refl, refl))

-- The id is noted, and Fanout is as it was.
abbrev Noted : Bytes → AdapterSession → AdapterSession → Type 0
Noted i s t = Core s t × (t.session_id ≡ i) × (t.fanned ≡ s.fanned)

note_session_id-Noted :
    (ev : StreamEvent) (s : AdapterSession)
    → Noted (id_after s.session_id (provider_event (some ev))) s (note_session_id ev s)
unfolding note_session_id
note_session_id-Noted (session_id_event i) s =
    if-elim (Noted (if is_blank i then s.session_id else i) s) (is_blank i)
      (λ e. ((refl, refl), rw e refl, refl)) (λ e. ((refl, refl), rw e refl, refl))
note_session_id-Noted (delta_event c) s = ((refl, refl), refl, refl)
note_session_id-Noted (error_event e) s = ((refl, refl), refl, refl)
note_session_id-Noted (tool_use_event t) s = ((refl, refl), refl, refl)
note_session_id-Noted done_event s = ((refl, refl), refl, refl)
note_session_id-Noted other_event s = ((refl, refl), refl, refl)

told :
    (i text : Bytes) (s t u v : AdapterSession)
    → Noted i s t
    → Silent t u
    → Told u u.session_id text v
    → Told s i text v
told i text s t u v (nc, ni, nf) (sc, si, sf) (c, j, f) = (
  (c.0 ∙ sc.0 ∙ nc.0, c.1 ∙ sc.1 ∙ nc.1),
  j ∙ si ∙ ni,
  f
      ∙ ap (λ o. said o.fanout u.fanned text) (sc.0 ∙ nc.0)
      ∙ ap (λ g. said s.opts.fanout g text) (sf ∙ nf),
)

handle-Told :
    (ev : RunnerEvent) (s : AdapterSession)
    → Told s (id_after s.session_id ev) (text_of ev) (handle_runner_event ev s)
unfolding handle_runner_event
handle-Told (process_started none) s = ((refl, refl), refl, said_nothing s.opts.fanout s.fanned)
handle-Told (process_started (some pid)) s =
    ((refl, refl), refl, said_nothing s.opts.fanout s.fanned)
handle-Told (provider_event none) s = ((refl, refl), refl, said_nothing s.opts.fanout s.fanned)
handle-Told (provider_event (some ev)) s =
    let t = note_session_id ev s in
    let u = try_event_fanout ev t in
    told (id_after s.session_id (provider_event (some ev))) (text_or_none (encode_stream_event ev))
      s t u (fan_text (encode_stream_event ev) u) (note_session_id-Noted ev s)
      (try_event_fanout-Silent ev t) (fan_text-Told (encode_stream_event ev) u)
handle-Told process_exited s = ((refl, refl), refl, said_nothing s.opts.fanout s.fanned)
handle-Told process_timeout s = ((refl, refl), refl, said_nothing s.opts.fanout s.fanned)
handle-Told other_runner_event s = ((refl, refl), refl, said_nothing s.opts.fanout s.fanned)

handle_all-Told :
    (evs : List RunnerEvent) (s : AdapterSession)
    → Told s (ids_after s.session_id evs) (texts_of evs) (handle_runner_events evs s)
unfolding handle_runner_events
handle_all-Told [] s = ((refl, refl), refl, said_nothing s.opts.fanout s.fanned)
handle_all-Told (ev ∷ evs) s =
    let t = handle_runner_event ev s in
    let (c, i, f) = handle-Told ev s in
    let (d, j, g) = handle_all-Told evs t in
    (
      (d.0 ∙ c.0, d.1 ∙ c.1),
      j ∙ ap (λ k. ids_after k evs) i,
      g
          ∙ ap (λ o. said o.fanout t.fanned (texts_of evs)) c.0
          ∙ ap (λ h. said s.opts.fanout h (texts_of evs)) f
          ∙ said-append s.opts.fanout s.fanned (text_of ev) (texts_of evs),
    )

abbrev pub begun_session : Bytes → AdapterSession → AdapterSession
begun_session turn_id s = record s { turn_in_flight = true; turn_id = turn_id; state = processing }

begins :
    (args_of : Bytes → Bytes → List Bytes) (turn_id prompt : Bytes) (s : AdapterSession)
    → s.alive ≡ true
    → s.turn_in_flight ≡ false
    → begin_turn args_of turn_id prompt s
      ≡ (begun_session turn_id s, args_of prompt s.session_id, none)
unfolding begin_turn
begins args_of turn_id prompt s a f =
    ap
      (λ b.
        if not b
        then (s, [], some no_input_channel)
        else (if s.turn_in_flight
            then (s, [], some turn_in_flight_error)
            else (begun_session turn_id s, args_of prompt s.session_id, none)))
      a
    ∙ ap
        (λ b.
          if b
          then (s, [], some turn_in_flight_error)
          else (begun_session turn_id s, args_of prompt s.session_id, none))
        f

busy :
    (args_of : Bytes → Bytes → List Bytes) (turn_id prompt : Bytes) (s : AdapterSession)
    → s.alive ≡ true
    → s.turn_in_flight ≡ true
    → begin_turn args_of turn_id prompt s ≡ (s, [], some turn_in_flight_error)
unfolding begin_turn
busy args_of turn_id prompt s a f =
    ap
      (λ b.
        if not b
        then (s, [], some no_input_channel)
        else (if s.turn_in_flight
            then (s, [], some turn_in_flight_error)
            else (begun_session turn_id s, args_of prompt s.session_id, none)))
      a
    ∙ ap
        (λ b.
          if b
          then (s, [], some turn_in_flight_error)
          else (begun_session turn_id s, args_of prompt s.session_id, none))
        f

-- The session after the turn.
abbrev pub after_turn : Bool → List RunnerEvent → AdapterSession → AdapterSession
after_turn ok evs s = (finish_turn ok (handle_runner_events evs s)).0

-- Another turn can begin.
abbrev pub Open : Bytes → Bytes → AdapterSession → AdapterSession → Type 0
Open i text s t =
    (t.state ≡ idle)
    × (t.alive ≡ s.alive)
    × (t.turn_in_flight ≡ false)
    × (t.session_id ≡ i)
    × (t.fanned ≡ said s.opts.fanout s.fanned text)

finished :
    (ok : Bool) (i text : Bytes) (s t : AdapterSession)
    → Told s i text t
    → Open i text s (finish_turn ok t).0
unfolding finish_turn
finished true i text s t (c, j, f) = (refl, c.1, refl, j, f)
finished false i text s t (c, j, f) = (refl, c.1, refl, j, f)

-- A turn of a live session without one, whatever the program reports and however it ends: it runs
-- with the arguments for the session id that is known; while it runs another SendInput is refused;
-- afterwards the session is idle, Fanout has the texts of the events in their order, and the next
-- turn runs with the last session id that the events have named.
pub conversation_goes_on :
    (args_of : Bytes → Bytes → List Bytes) (turn_id prompt next_id next : Bytes)
    (evs : List RunnerEvent) (ok : Bool) (s : AdapterSession)
    → s.alive ≡ true
    → s.turn_in_flight ≡ false
    → (begin_turn args_of turn_id prompt s
        ≡ (begun_session turn_id s, args_of prompt s.session_id, none))
      × (begin_turn args_of next_id next (begun_session turn_id s)
          ≡ (begun_session turn_id s, [], some turn_in_flight_error))
      × Open
          (ids_after s.session_id evs)
          (texts_of evs)
          s
          (after_turn ok evs (begun_session turn_id s))
      × ((begin_turn args_of next_id next (after_turn ok evs (begun_session turn_id s))).1
          ≡ args_of next (ids_after s.session_id evs))
conversation_goes_on args_of turn_id prompt next_id next evs ok s a f =
    let b = begun_session turn_id s in
    let t = after_turn ok evs b in
    let o =
      finished ok (ids_after s.session_id evs) (texts_of evs) b (handle_runner_events evs b)
        (handle_all-Told evs b) in
    (
      begins args_of turn_id prompt s a f,
      busy args_of next_id next b a refl,
      o,
      ap (λ (r : AdapterSession × List Bytes × Option TurnError). r.1)
            (begins args_of next_id next t (o.1 ∙ a) o.2)
          ∙ ap (args_of next) o.3,
    )
