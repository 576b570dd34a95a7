-- ===== src/Turns/Replies.antt =====
-- What a turn of agentsessions/from_provider.go adds to the conversation.
use go_agent_sessions.Prelude.{
  ◌≡◌, refl, sym, ap, ◌∙◌, true, false, not, arith, if-elim, Option, none, some, List, [], ◌∷◌,
  ◌++◌, append-nil, append_assoc, length, nat_eq, ◌==◌,
}
use go_agent_sessions.Attach.{Bytes}
use go_agent_sessions.Turns.{
  ChatMessage, user, assistant, StreamEvent, delta, error_event, done_event, other_event, Written,
  TurnError, provider_error, no_input_channel, ProviderSession, idle, processing, text, turn_done,
  error_line, streamed, begin_turn, consume, fan, finish_stream, finish_turn, stop,
}

-- The text of the events, up to the first error, and that error.
abbrev pub said : List StreamEvent → Bytes
said [] = []
said (delta c ∷ es) = c ++ said es
said (error_event e ∷ es) = []
said (done_event ∷ es) = said es
said (other_event ∷ es) = said es

abbrev pub first_error : List StreamEvent → Option Bytes
first_error [] = none
first_error (delta c ∷ es) = first_error es
first_error (error_event e ∷ es) = some e
first_error (done_event ∷ es) = first_error es
first_error (other_event ∷ es) = first_error es

-- The assistant's message: none after an error, and none without text.
abbrev pub reply_of : Bytes → Option Bytes → List ChatMessage
reply_of [] none = []
reply_of (b ∷ bs) none = record { role = assistant; content = b ∷ bs } ∷ []
reply_of bs (some e) = []

-- The stream leaves the messages alone.
fan_lem :
    (w : Written) (s : ProviderSession)
    → ((fan w s).messages ≡ s.messages) × ((fan w s).alive ≡ s.alive)
fan_lem w s =
    if-elim (λ (t : ProviderSession). (t.messages ≡ s.messages) × (t.alive ≡ s.alive)) s.has_fanout
      (λ e. (refl, refl)) (λ e. (refl, refl))

consume_lem :
    (es : List StreamEvent) (reply : Bytes) (s : ProviderSession)
    → ((consume es reply s).0.messages ≡ s.messages)
      × ((consume es reply s).0.alive ≡ s.alive)
      × ((consume es reply s).1 ≡ reply ++ said es)
      × ((consume es reply s).2 ≡ first_error es)
unfolding consume
consume_lem [] reply s = (refl, refl, sym (append-nil reply), refl)
consume_lem (delta c ∷ es) reply s =
    let (m, a, t, e) = consume_lem es (reply ++ c) (fan (text c) s) in
    let (m', a') = fan_lem (text c) s in (m ∙ m', a ∙ a', t ∙ append_assoc reply c (said es), e)
consume_lem (error_event e ∷ es) reply s =
    let (m', a') = fan_lem (error_line e) s in (m', a', sym (append-nil reply), refl)
consume_lem (done_event ∷ es) reply s =
    let (m, a, t, e) = consume_lem es reply (fan turn_done s) in
    let (m', a') = fan_lem turn_done s in (m ∙ m', a ∙ a', t, e)
consume_lem (other_event ∷ es) reply s = consume_lem es reply s

abbrev pub error_of : Option Bytes → Option TurnError
error_of none = none
error_of (some e) = some (provider_error e)

-- The session is idle, with these messages more than `s`, and this was returned.
abbrev pub Turned :
    ProviderSession
    → List ChatMessage
    → Option TurnError
    → ProviderSession × Option TurnError
    → Type 0
Turned s added err (s', err') =
    (s'.messages ≡ s.messages ++ added)
    × (err' ≡ err)
    × (s'.state ≡ idle)
    × (s'.turn_in_flight ≡ false)
    × (s'.alive ≡ s.alive)

finish_stream_lem :
    (s : ProviderSession) (reply : Bytes) (err : Option Bytes)
    → Turned s (reply_of reply err) (error_of err) (finish_stream (s, reply, err))
unfolding finish_stream
finish_stream_lem s [] none = (sym (append-nil _), refl, refl, refl, refl)
finish_stream_lem s (b ∷ bs) none =
    let e : (length (b ∷ bs) == 0) ≡ false = ground arith in rw e (refl, refl, refl, refl, refl)
finish_stream_lem s [] (some e) = (sym (append-nil _), refl, refl, refl, refl)
finish_stream_lem s (b ∷ bs) (some e) = (sym (append-nil _), refl, refl, refl, refl)

abbrev begun : Bytes → ProviderSession → ProviderSession
begun input s = record s {
  turn_in_flight = true;
  messages = s.messages ++ record { role = user; content = input } ∷ [];
  state = processing;
}

begin_turn_lem :
    (input : Bytes) (s : ProviderSession)
    → s.alive ≡ true
    → s.turn_in_flight ≡ false
    → (begin_turn input s).0 ≡ begun input s
unfolding begin_turn
begin_turn_lem input s a f =
    if-elim (λ (p : ProviderSession × Option TurnError). p.0 ≡ begun input s) (not s.alive)
      (λ e. absurd (ground arith))
      (λ e.
        if-elim (λ (p : ProviderSession × Option TurnError). p.0 ≡ begun input s) s.turn_in_flight
          (λ g. absurd (cc (f, g))) (λ g. refl))

finish_turn_lem :
    (es : List StreamEvent) (s : ProviderSession)
    → Turned s
        (reply_of (said es) (first_error es))
        (error_of (first_error es))
        (finish_turn (streamed es) s)
unfolding finish_turn
finish_turn_lem es s =
    let (m, a, t, e) = consume_lem es [] s in
    let (m', e', i, f, a') =
      finish_stream_lem (consume es [] s).0 (consume es [] s).1 (consume es [] s).2 in
    let held : List ChatMessage = (consume es [] s).0.messages in
    (
      m'
          ∙ ap (λ r. held ++ reply_of r (consume es [] s).2) t
          ∙ ap (λ x. held ++ reply_of (said es) x) e
          ∙ ap (λ k. k ++ reply_of (said es) (first_error es)) m,
      e' ∙ ap error_of e,
      i,
      f,
      a' ∙ a,
    )

-- A turn on an idle session adds the user's message and then the assistant's: the text of all
-- deltas in order, if there is any and no event was an error. It returns the stream's first error,
-- and the session is idle again and takes the next turn.
pub turn_lem :
    (input : Bytes) (es : List StreamEvent) (s : ProviderSession)
    → s.alive ≡ true
    → s.turn_in_flight ≡ false
    → Turned s
        (record { role = user; content = input } ∷ reply_of (said es) (first_error es))
        (error_of (first_error es))
        (finish_turn (streamed es) (begin_turn input s).0)
turn_lem input es s a f =
    let (m, e, i, g, b) = finish_turn_lem es (begun input s) in
    rw (begin_turn_lem input s a f) (
      m
          ∙ append_assoc s.messages (record { role = user; content = input } ∷ [])
              (reply_of (said es) (first_error es)),
      e,
      i,
      g,
      b,
    )

refuses :
    (input : Bytes) (s : ProviderSession)
    → s.alive ≡ false
    → (begin_turn input s).1 ≡ some no_input_channel
unfolding begin_turn
refuses input s a =
    if-elim (λ (p : ProviderSession × Option TurnError). p.1 ≡ some no_input_channel) (not s.alive)
      (λ e. refl) (λ e. absurd (ground arith))

stop-begun :
    (input : Bytes) (s : ProviderSession) → s.alive ≡ true → (stop (begun input s)).alive ≡ false
unfolding stop
stop-begun input s a =
    if-elim (λ (t : ProviderSession). t.alive ≡ false) (not s.alive) (λ e. absurd (ground arith))
      (λ e. refl)

-- Stop during a turn: once the turn is over the session reports that it is idle, although it is
-- stopped and takes no more input.
pub stopped_turn_idles :
    (input again : Bytes) (es : List StreamEvent) (s : ProviderSession)
    → s.alive ≡ true
    → s.turn_in_flight ≡ false
    → ((finish_turn (streamed es) (stop (begin_turn input s).0)).0.state ≡ idle)
      × ((finish_turn (streamed es) (stop (begin_turn input s).0)).0.alive ≡ false)
      × ((begin_turn again (finish_turn (streamed es) (stop (begin_turn input s).0)).0).1
          ≡ some no_input_channel)
stopped_turn_idles input again es s a f =
    let (m, e, i, g, b) = finish_turn_lem es (stop (begun input s)) in
    let dead = b ∙ stop-begun input s a in
    rw (begin_turn_lem input s a f) (i, dead, refuses again _ dead)
