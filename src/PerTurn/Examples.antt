-- ===== src/PerTurn/Examples.antt =====
-- A turn of the session of agentsessions/from_adapter.go at a concrete input, and tests.
use go_agent_sessions.Prelude.{true, none, some, List, [], ◌∷◌, ◌≡◌, refl}
use go_agent_sessions.Prelude.Texts.{Bytes, codes}
use go_agent_sessions.Stdio.Examples.{options}
use go_agent_sessions.PerTurn.{
  session_id_event, delta_event, done_event, RunnerEvent, process_started, provider_event,
  process_exited, turn_in_flight_error, AdapterSession, new_session, encode_stream_event,
  handle_runner_event, handle_runner_events, note_session_id, try_event_fanout, fan_text,
  begin_turn,
}
use go_agent_sessions.PerTurn.Conversation.{begun_session, after_turn, Open, conversation_goes_on}

abbrev session : AdapterSession
session = new_session [] options 8

abbrev arguments : Bytes → Bytes → List Bytes
arguments prompt id = codes "-p" ∷ prompt ∷ codes "--resume" ∷ id ∷ []

abbrev events : List RunnerEvent
events =
    process_started (some 9)
    ∷ provider_event (some (session_id_event (codes "7")))
    ∷ provider_event (some (delta_event (codes "hi")))
    ∷ provider_event (some done_event)
    ∷ process_exited
    ∷ []

goes_on_example :
    (begin_turn arguments (codes "t1") (codes "a") session
      ≡ (begun_session (codes "t1") session, arguments (codes "a") [], none))
    × (begin_turn arguments (codes "t2") (codes "b") (begun_session (codes "t1") session)
        ≡ (begun_session (codes "t1") session, [], some turn_in_flight_error))
    × Open
        (codes "7")
        (codes "hi\n[turn_done]\n")
        session
        (after_turn true events (begun_session (codes "t1") session))
    × ((begin_turn arguments
          (codes "t2")
          (codes "b")
          (after_turn true events (begun_session (codes "t1") session))).1
        ≡ arguments (codes "b") (codes "7"))
unfolding new_session encode_stream_event
goes_on_example =
    conversation_goes_on arguments (codes "t1") (codes "a") (codes "t2") (codes "b") events true
      session refl refl

pids :
    (handle_runner_events events session).pid ∷ (handle_runner_events events session).last_pid ∷ []
    ≡ 0 ∷ 9 ∷ []
unfolding handle_runner_events handle_runner_event new_session note_session_id try_event_fanout
    fan_text encode_stream_event
pids = refl
