-- ===== src/JsonRpc/Examples.antt =====
-- The theorems on agentsessions/jsonrpc_stdio_session.go at concrete inputs.
use go_agent_sessions.Prelude.{
  ◌≡◌, refl, true, none, some, List, [], ◌∷◌, if◌then◌else◌, subst, string_eq, ◌==◌, nat_eq, arith,
}
use go_agent_sessions.Prelude.Int.{pos, negsuc}
use go_agent_sessions.JsonRpc.{
  waiting, ctx_done, cancel_phase, Frame, Session, Outcome, returned, Outside, Move, calls, sends,
  resumes, reads, reader_exits, stops, child_exits, child_starts, cancels, run, new_session,
}
use go_agent_sessions.JsonRpc.Calls.{Inv}
use go_agent_sessions.JsonRpc.Replies.{Returns, calls_run-total}
use go_agent_sessions.Prelude.Texts.{Bytes, codes}
use go_agent_sessions.Stdio.Examples.{options, world}
use go_agent_sessions.Stdio.Clients as Stdio
use go_agent_sessions.JsonRpc.Unanswered.{late_call_waits}
use go_agent_sessions.JsonRpc.Hosting.{Hosted, new_hosted}
use go_agent_sessions.JsonRpc.Clients.{start_session}
use go_agent_sessions.JsonRpc.Starting.{hosting_started, start_session-Alike}
use go_agent_sessions.JsonRpc.ErrorText.{
  json_rpc_error_string, read_int, json_rpc_error_string-Reads,
}
use go_agent_sessions.JsonRpc.Answers.{end_unblocks}

-- The response to the first Call.
abbrev pong : Frame
pong = record { id = some "1"; method = ""; params = ""; result = "pong"; error = none }

-- One line is JSON, and one id a number; requests are written as their method.
abbrev outside : Outside
outside = record {
  unmarshal = λ l. if l == "pong 1" then some pong else none;
  decode_id = λ r. if r == "1" then some (pos 1) else none;
  encode_call = λ i method params. some method;
  encode_answer = λ id a. none;
  request_hook = none;
  has_notification_hook = true;
  unhandled = λ method. method;
}

abbrev busy : List Move
busy =
    calls "ping" ""
    ∷ calls "list" ""
    ∷ sends 1 none
    ∷ sends 2 none
    ∷ reads "noise"
    ∷ reads "pong 1"
    ∷ reads "pong 1"
    ∷ resumes 1
    ∷ child_exits
    ∷ child_starts
    ∷ cancels 2 "deadline"
    ∷ stops
    ∷ reader_exits
    ∷ child_exits
    ∷ []

calls_run-total_example : Returns (run outside busy new_session)
calls_run-total_example = calls_run-total outside busy

-- Two Calls wait.
abbrev two_calls : List Move
two_calls = calls "ping" "" ∷ calls "list" "" ∷ sends 1 none ∷ sends 2 none ∷ []

abbrev both_wait : Session
both_wait = elim (run outside two_calls new_session) [ none ↦ new_session | some s ↦ s ]

both_wait-Inv : Inv both_wait
unfolding run new_session
both_wait-Inv = let (s, e, v) = calls_run-total outside two_calls in subst Inv (cc e) v

unblocked_example :
    (s' : Session) × (c : Outcome) × (run outside (stops ∷ resumes 2 ∷ []) both_wait ≡ some s')
    × (s'.phase 2 ≡ returned c)
unfolding run new_session
unblocked_example = end_unblocks outside stops 2 both_wait refl both_wait-Inv refl

-- The child exits, and another Call comes and goes.
abbrev afterwards : List Move
afterwards = resumes 1 ∷ child_exits ∷ calls "list" "" ∷ sends 2 none ∷ cancels 2 "deadline" ∷ []

late_call_example :
    (t : Session) × (run outside (calls "ping" "" ∷ sends 1 none ∷ []) new_session ≡ some t)
    × (t.written ≡ "ping" ∷ [])
    × ((u : Session) × (run outside afterwards t ≡ some u)
        × (u.phase 1 ≡ waiting)
        × ((cancel_phase 1 "late" u (u.phase 1)).phase 1 ≡ returned (ctx_done "late")))
unfolding new_session
late_call_example =
    late_call_waits outside "ping" "" "ping" "late" afterwards new_session refl refl refl
      (tt, (tt, (tt, (tt, (omega arith, tt)))))

start_alike_example :
    start_session world options ≡ some (hosting_started (Stdio.start_session world options))
start_alike_example = start_session-Alike world options

-- A session on whose client two Calls wait.
abbrev hosted : Hosted
hosted = record { child = (new_hosted [] options 8).child; client = both_wait }

error_string_example :
    (t : Bytes) × (json_rpc_error_string (negsuc 32600) ≡ some t) × (read_int t ≡ negsuc 32600)
error_string_example = json_rpc_error_string-Reads (negsuc 32600) (omega arith)

error_printed : json_rpc_error_string (negsuc 32600) ≡ some (codes "-32601")
unfolding json_rpc_error_string
error_printed = refl
