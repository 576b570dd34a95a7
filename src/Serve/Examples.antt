-- ===== src/Serve/Examples.antt =====
-- The theorems on the session behind an HTTP server (agentsessions/serve_http_session.go) at
-- concrete inputs.
use go_agent_sessions.Prelude.{true, false, Option, none, some, [], ◌∷◌, ◌≡◌, refl, arith}
use go_agent_sessions.Prelude.Int.{pos}
use go_agent_sessions.Prelude.Texts.{Bytes, codes}
use go_agent_sessions.Supervision.{exec_exit}
use go_agent_sessions.Turns.{processing}
use go_agent_sessions.Child.Ending.{legacy_outcome}
use go_agent_sessions.Child.Reading.{scan_bytes, fresh_scanner, scanned, drop_cr}
use go_agent_sessions.Child.Lines.{text_of}
use go_agent_sessions.Stdio.Examples.{options}
use go_agent_sessions.Serve.{ServeSession, new_session}
use go_agent_sessions.Serve.Scanning.{
  parse_serve_http_listen_url, from_index, has_prefix, first_field, trim_right,
}
use go_agent_sessions.Serve.Events.{unwrap, Message, run_event_stream, handle_all, handle_sse_data}
use go_agent_sessions.Serve.Clients.{
  answered, turn_in_flight_error, begin_turn, finish_turn, finish_on_process_exit, wait,
}
use go_agent_sessions.Serve.Framing.{Data, event_lines, run_event_stream-round_trip}
use go_agent_sessions.Serve.Turns.{
  idle_message, Ready, turn_cycle, early_idle_lost, second_receiver,
}

abbrev session : ServeSession
session = record (new_session [] options 8) { session_id = codes "ses" }

-- Every message says that the session is idle.
abbrev idles : Bytes → Option Message
idles d = some (idle_message (codes "ses"))

braces-Data : Data (codes "{}")
unfolding drop_cr
braces-Data =
    (refl, ((refl, (refl, (refl, (refl, (refl, (refl, (refl, (refl, tt)))))))), omega arith, refl))

stream_example :
    run_event_stream idles
      (scanned (scan_bytes fresh_scanner (text_of (event_lines (codes "{}" ∷ codes "{}" ∷ [])))))
      session
    ≡ handle_all idles (codes "{}" ∷ codes "{}" ∷ []) session
stream_example =
    run_event_stream-round_trip idles (codes "{}" ∷ codes "{}" ∷ []) session
      (braces-Data, (braces-Data, tt))

-- A delta, then messages that the session is idle.
abbrev speaks : Bytes → Option Message
speaks [] = none
speaks (c ∷ []) = some (record {
  kind = codes "message.part.delta";
  session = codes "ses";
  delta = codes "hi";
  payload = [];
})
speaks (c ∷ d ∷ cs) = some (idle_message (codes "ses"))

cycle_example :
    let begun : ServeSession = record session { turn_in_flight = true } in
    let sent = (finish_turn (answered 204 []) begun).0 in
    let later = handle_all speaks (codes "d" ∷ []) sent in
    (begin_turn session ≡ (begun, none))
    × (begin_turn begun ≡ (begun, some turn_in_flight_error))
    × (later.state ≡ processing)
    × (begin_turn later ≡ (later, some turn_in_flight_error))
    × Ready (handle_sse_data speaks (codes "{}") later)
unfolding new_session unwrap
cycle_example =
    turn_cycle speaks (codes "{}") (codes "ses") [] 204 session refl refl refl refl refl
      (codes "d" ∷ []) (refl, tt)

early_idle_example :
    ((finish_turn
        (answered 204 [])
        (handle_sse_data idles (codes "{}") (record session { turn_in_flight = true }))).0.state
      ≡ processing)
    × ((finish_turn (answered 204 []) (
          handle_sse_data idles
            (codes "{}")
            (record session { turn_in_flight = true }))).0.turn_in_flight
        ≡ false)
unfolding new_session
early_idle_example =
    early_idle_lost idles (codes "{}") (codes "ses") [] 204 session refl refl refl refl refl

receiver_example :
    (wait (finish_on_process_exit (some (exec_exit (pos 1))) (finish_on_process_exit none session))
      ≡ some (pos 0, none))
    × (wait
          (finish_on_process_exit none (finish_on_process_exit (some (exec_exit (pos 1))) session))
        ≡ some (legacy_outcome (some (exec_exit (pos 1)))))
unfolding new_session
receiver_example = second_receiver (exec_exit (pos 1)) session refl

-- The line of `opencode serve`.
listening :
    parse_serve_http_listen_url (λ u. true) (codes "listening on http://127.0.0.1:4096.")
    ≡ some (codes "http://127.0.0.1:4096")
unfolding parse_serve_http_listen_url from_index has_prefix first_field trim_right
listening = refl
