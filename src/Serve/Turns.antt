-- ===== src/Serve/Turns.antt =====
-- The turns of the session behind an HTTP server, and its end
-- (agentsessions/serve_http_session.go).
use go_agent_sessions.Prelude.{
  Bool, List, ◌||◌, arith, ℕ, true, false, not, ◌&&◌, Option, none, some, [], ◌∷◌, ◌++◌,
  if◌then◌else◌, length, ltb, ◌≡◌, refl, ap, sym, subst, ◌∙◌, if-elim, nat_eq, ◌==◌,
}
use go_agent_sessions.Prelude.Int.{pos}
use go_agent_sessions.Prelude.Texts.{Bytes, codes, is_blank, bytes_eq}
use go_agent_sessions.Supervision.{WaitError, exec_exit, other_error}
use go_agent_sessions.Turns.{idle, processing}
use go_agent_sessions.Child.Ending.{legacy_outcome}
use go_agent_sessions.Child.Reading.{newline}
use go_agent_sessions.Serve.{
  ServeEvent, session_id_event, delta_event, done_event, ServeSession, write_output,
}
use go_agent_sessions.Serve.Events.{
  Message, fan_event, mark_turn_done, react, filtered, unwrap, handle_sse_data, handle_all,
  note_session,
}
use go_agent_sessions.Serve.Clients.{
  answered, is_success, TurnError, no_input_channel, turn_in_flight_error, begin_turn, finish_turn,
  finish_once, finish_on_process_exit, wait,
}

-- The message session.idle of a session.
abbrev pub idle_message : Bytes → Message
idle_message i = record { kind = codes "session.idle"; session = i; delta = []; payload = [] }

accepts :
    (s : ServeSession)
    → s.alive ≡ true
    → s.turn_in_flight ≡ false
    → begin_turn s ≡ (record s { turn_in_flight = true }, none)
unfolding begin_turn
accepts s a f =
    ap
      (λ b.
        if not b
        then (s, some no_input_channel)
        else (if s.turn_in_flight
            then (s, some turn_in_flight_error)
            else (record s { turn_in_flight = true }, none)))
      a
    ∙ ap
        (λ b.
          if b then (s, some turn_in_flight_error) else (record s { turn_in_flight = true }, none))
        f

refuses :
    (s : ServeSession)
    → s.alive ≡ true
    → s.turn_in_flight ≡ true
    → begin_turn s ≡ (s, some turn_in_flight_error)
unfolding begin_turn
refuses s a f =
    ap
      (λ b.
        if not b
        then (s, some no_input_channel)
        else (if s.turn_in_flight
            then (s, some turn_in_flight_error)
            else (record s { turn_in_flight = true }, none)))
      a
    ∙ ap
        (λ b.
          if b then (s, some turn_in_flight_error) else (record s { turn_in_flight = true }, none))
        f

succeeded :
    (status : ℕ) (body : Bytes) (s : ServeSession)
    → is_success status ≡ true
    → finish_turn (answered status body) s ≡ (record s { state = processing }, none)
unfolding finish_turn
succeeded status body s e = rw e refl

-- Ready for another turn.
abbrev pub Ready : ServeSession → Type 0
Ready t = (t.alive ≡ true) × (t.turn_in_flight ≡ false) × (t.state ≡ idle)

ends-Ready : (s : ServeSession) → s.alive ≡ true → Ready (fan_event done_event (mark_turn_done s))
unfolding fan_event mark_turn_done
ends-Ready s a =
    if-elim Ready (s.opts.event_fanout && ltb (length s.events) s.event_room)
      (λ e. (a, refl, ap (λ b. if b then idle else s.state) a))
      (λ e. (a, refl, ap (λ b. if b then idle else s.state) a))

idle-Ready :
    (unmarshal : Bytes → Option Message) (d i : Bytes) (s : ServeSession)
    → unmarshal d ≡ some (idle_message i)
    → (not (is_blank i) && not (i == s.session_id)) ≡ false
    → s.alive ≡ true
    → Ready (handle_sse_data unmarshal d s)
unfolding handle_sse_data filtered unwrap react write_output
idle-Ready unmarshal d i s e f a =
    let t = write_output (d ++ newline ∷ []) s in
    rw (e, handle_sse_data)
      (if-elim Ready (not (is_blank i) && not (i == s.session_id)) (λ g. absurd (cc (f, g)))
        (λ g. ends-Ready t a))

-- The messages that end a turn.
abbrev pub ends_turn : Bytes → Bool
ends_turn k =
    k == codes "session.idle"
    || k == codes "session.next.step.ended"
    || k == codes "session.error"
    || k == codes "session.next.step.failed"

-- A message, once unwrapped, does not end a turn.
abbrev pub MayGoOn : (Bytes → Option Message) → Option Message → Type 0
MayGoOn unmarshal none = Unit {0}
MayGoOn unmarshal (some m) = ends_turn (unwrap unmarshal m).kind ≡ false

abbrev pub GoesOn : (Bytes → Option Message) → Bytes → Type 0
GoesOn unmarshal d = MayGoOn unmarshal (unmarshal d)

abbrev pub AllGoOn : (Bytes → Option Message) → List Bytes → Type 0
AllGoOn unmarshal [] = Unit {0}
AllGoOn unmarshal (d ∷ ds) = GoesOn unmarshal d × AllGoOn unmarshal ds

-- A turn of the session is being processed.
abbrev pub InTurn : Bytes → ServeSession → Type 0
InTurn id t =
    (t.alive ≡ true) × (t.turn_in_flight ≡ true) × (t.state ≡ processing) × (t.session_id ≡ id)

fan_event-InTurn :
    (id : Bytes) (ev : ServeEvent) (s : ServeSession) → InTurn id s → InTurn id (fan_event ev s)
unfolding fan_event
fan_event-InTurn id ev s v =
    if-elim (InTurn id) (s.opts.event_fanout && ltb (length s.events) s.event_room) (λ e. v)
      (λ e. v)

react-InTurn :
    (id data_bytes : Bytes) (m : Message) (s : ServeSession)
    → ends_turn m.kind ≡ false
    → InTurn id s
    → InTurn id (react data_bytes m s)
unfolding react note_session
react-InTurn id data_bytes m s q v =
    let P = InTurn id in
    if-elim P (m.kind == codes "session.created")
      (λ e.
        if-elim P (is_blank m.session) (λ f. v)
          (λ f. fan_event-InTurn id (session_id_event m.session) (note_session m.session s) v))
      (λ e.
        if-elim P
          (m.kind == codes "message.part.delta" || m.kind == codes "session.next.text.delta")
          (λ f.
            if-elim P (is_blank m.delta) (λ g. v)
              (λ g. fan_event-InTurn id (delta_event m.delta) s v))
          (λ f.
            if-elim P (m.kind == codes "session.idle" || m.kind == codes "session.next.step.ended")
              (λ g. absurd (ground (arith, q, g)))
              (λ g.
                if-elim P
                  (m.kind == codes "session.error" || m.kind == codes "session.next.step.failed")
                  (λ h. absurd (ground (arith, q, h))) (λ h. v))))

parsed-InTurn :
    (unmarshal : Bytes → Option Message) (id d : Bytes) (t : ServeSession) (o : Option Message)
    → MayGoOn unmarshal o
    → InTurn id t
    → InTurn id (elim o [ none ↦ t | some m ↦ filtered unmarshal d (unwrap unmarshal m) t ])
unfolding filtered
parsed-InTurn unmarshal id d t none q v = v
parsed-InTurn unmarshal id d t (some m) q v =
    let u = unwrap unmarshal m in
    if-elim (InTurn id) (not (is_blank u.session) && not (u.session == t.session_id)) (λ e. v)
      (λ e. react-InTurn id d u t q v)

handle-InTurn :
    (unmarshal : Bytes → Option Message) (id d : Bytes) (s : ServeSession)
    → GoesOn unmarshal d
    → InTurn id s
    → InTurn id (handle_sse_data unmarshal d s)
unfolding handle_sse_data write_output
handle-InTurn unmarshal id d s q v =
    parsed-InTurn unmarshal id d (write_output (d ++ newline ∷ []) s) (unmarshal d) q v

handle_all-InTurn :
    (unmarshal : Bytes → Option Message) (id : Bytes) (ds : List Bytes) (s : ServeSession)
    → AllGoOn unmarshal ds
    → InTurn id s
    → InTurn id (handle_all unmarshal ds s)
unfolding handle_all
handle_all-InTurn unmarshal id [] s q v = v
handle_all-InTurn unmarshal id (d ∷ ds) s q v =
    handle_all-InTurn unmarshal id ds (handle_sse_data unmarshal d s) q.1
      (handle-InTurn unmarshal id d s q.0 v)

module _ (unmarshal : Bytes → Option Message) (d i body : Bytes) (status : ℕ) (s : ServeSession)
    (parsed : unmarshal d ≡ some (idle_message i))
    (own : (not (is_blank i) && not (i == s.session_id)) ≡ false) (alive : s.alive ≡ true)
    (free : s.turn_in_flight ≡ false) (accepted : is_success status ≡ true) where
  -- The session with the request under way.
  abbrev pub begun : ServeSession
  begun = record s { turn_in_flight = true }

  -- The session when the request has been answered with success.
  abbrev pub sent : ServeSession
  sent = (finish_turn (answered status body) begun).0

  sent-processing : sent ≡ record begun { state = processing }
  sent-processing = ap (λ r. r.0) (succeeded status body begun accepted)

  sent-InTurn : InTurn s.session_id sent
  sent-InTurn = subst (InTurn s.session_id) (sym sent-processing) (alive, refl, refl, refl)

  -- A turn of a live session without one: SendInput begins it, refuses another while the request is
  -- under way, and the session is processing when it is answered with success. Whatever messages
  -- come then of which none ends a turn (session.idle, session.next.step.ended, session.error and
  -- session.next.step.failed do), the session goes on processing and refuses another SendInput;
  -- after session.idle of the session it is idle and takes a turn again.
  pub turn_cycle :
      (ds : List Bytes)
      → AllGoOn unmarshal ds
      → (begin_turn s ≡ (begun, none))
        × (begin_turn begun ≡ (begun, some turn_in_flight_error))
        × ((handle_all unmarshal ds sent).state ≡ processing)
        × (begin_turn (handle_all unmarshal ds sent)
            ≡ (handle_all unmarshal ds sent, some turn_in_flight_error))
        × Ready (handle_sse_data unmarshal d (handle_all unmarshal ds sent))
  turn_cycle ds q =
      let t = handle_all unmarshal ds sent in
      let v = handle_all-InTurn unmarshal s.session_id ds sent q sent-InTurn in
      (
        accepts s alive free,
        refuses begun alive refl,
        v.2,
        refuses t v.0 v.1,
        idle-Ready unmarshal d i t parsed
            (ap (λ (x : Bytes). not (is_blank i) && not (i == x)) v.3 ∙ own) v.0,
      )

  -- Where session.idle comes before the answer of the request, the answer makes the state
  -- processing, although no turn is in flight: the session takes input, but reports processing.
  pub early_idle_lost :
      ((finish_turn (answered status body) (handle_sse_data unmarshal d begun)).0.state
        ≡ processing)
      × ((finish_turn (answered status body) (handle_sse_data unmarshal d begun)).0.turn_in_flight
          ≡ false)
  early_idle_lost =
      let t = handle_sse_data unmarshal d begun in
      let r = idle-Ready unmarshal d i begun parsed own alive in
      let e = succeeded status body t accepted in
      (
        ap (λ (q : ServeSession × Option TurnError). q.0.state) e,
        ap (λ (q : ServeSession × Option TurnError). q.0.turn_in_flight) e ∙ r.1,
      )

-- Start runs finishOnProcessExit twice, and the second receiver gets nil. Where that one comes
-- first, a child that failed is reported with code 0 and no error; in the other order its error is
-- reported.
pub second_receiver :
    (e : WaitError) (s : ServeSession)
    → s.done ≡ false
    → (wait (finish_on_process_exit (some e) (finish_on_process_exit none s)) ≡ some (pos 0, none))
      × (wait (finish_on_process_exit none (finish_on_process_exit (some e) s))
          ≡ some (legacy_outcome (some e)))
unfolding finish_on_process_exit finish_once wait legacy_outcome
second_receiver (exec_exit c) s d = (rw d refl, rw d refl)
second_receiver (other_error m) s d = (rw d refl, rw d refl)
