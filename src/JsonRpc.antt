-- ===== src/JsonRpc.antt =====
-- agentsessions/jsonrpc_stdio_session.go: the JSON-RPC client of a session. Each Call is known by
-- its id, and so is the channel that it makes; a goroutine's work between two waits is one step.
-- JSON itself, the consumer's hooks and the outcome of a write are arguments. An operation that
-- would panic in Go or block for ever on a full channel returns `none`.
pub mod Pending
pub mod Calls
pub mod Replies
pub mod Answers
pub mod Life
pub mod Refines
pub mod Hosting
pub mod Spawning
pub mod Clients
pub mod Unanswered
pub mod Alike
pub mod Starting
pub mod Ends
pub mod ErrorText
pub mod Examples
use go_agent_sessions.Prelude.{
  ℕ, ◌+◌, Bool, true, false, Option, none, some, List, [], ◌∷◌, ◌++◌, String, if◌then◌else◌, not,
  nat_eq, string_eq, ◌==◌,
}
use go_agent_sessions.Prelude.Assoc.{Assoc, lookup, delete, insert}
use go_agent_sessions.Prelude.Int.{ℤ, pos, negsuc}
use go_agent_sessions.Manager.State.{put}

pub record JsonRpcError : Type 0 where
  pub code : ℤ
  pub message : String
  pub error_data : String

-- A line that is JSON: raw messages are strings.
pub record Frame : Type 0 where
  pub id : Option String
  pub method : String
  pub params : String
  pub result : String
  pub error : Option JsonRpcError

pub record Response : Type 0 where
  pub result : String
  pub err : Option JsonRpcError

-- make(chan jsonRpcResponse, 1)
pub record RespChan : Type 0 where
  pub value : Option Response
  pub closed : Bool

-- What Call returns.
pub data Outcome : Type 0 where
  succeeded : String → Outcome
  remote_error : JsonRpcError → Outcome
  no_input_channel encode_failed : Outcome
  write_failed : String → Outcome
  ctx_done : String → Outcome

pub data CallPhase : Type 0 where
  not_called : CallPhase
  -- the id is in the pending map, and the request is not written yet
  registered : String → String → CallPhase
  waiting : CallPhase
  returned : Outcome → CallPhase

-- `stdin` is whether s.stdin is set; `written`, `sink` and `notified` are what was written to the
-- child, to the log, and given to the notification hook.
pub record Session : Type 0 where
  pub alive : Bool
  pub stopping : Bool
  pub stdin : Bool
  pub next_id : ℕ
  pub pending : Assoc ℕ ℕ
  pub chan : ℕ → RespChan
  pub phase : ℕ → CallPhase
  pub written : List String
  pub sink : List String
  pub notified : List (String × String)

abbrev pub fresh_chan : RespChan
fresh_chan = record { value = none; closed = false }

-- ch <- r; close(ch)
unfoldable pub send : Response → RespChan → Option RespChan
send r c =
    if c.closed
    then none
    else elim c.value [ none ↦ some (record { value = some r; closed = true }) | some old ↦ none ]

unfoldable pub deliver_found : Response → ℕ → Session → Option ℕ → Option Session
unfolding send
deliver_found r i s none = some s
deliver_found r i s (some q) = elim (send r (s.chan q)) [
  | none ↦ none
  | some c ↦ some (record s { pending = delete i s.pending; chan = put s.chan q c })
]

-- deliverResponse, with the id as decoded.
unfoldable pub deliver_response : Option ℤ → Response → Session → Option Session
unfolding deliver_found lookup
deliver_response none r s = some s
deliver_response (some (negsuc n)) r s = some s
deliver_response (some (pos i)) r s = deliver_found r i s (lookup i s.pending)

-- for _, ch := range pending { ch <- r; close(ch) }
unfoldable pub fail_all : Response → Assoc ℕ ℕ → (ℕ → RespChan) → Option (ℕ → RespChan)
unfolding send
fail_all r [] chan = some chan
fail_all r ((i, q) ∷ m) chan = elim (send r (chan q)) [
  | none ↦ none
  | some c ↦ fail_all r m (put chan q c)
]

abbrev pub closing : String → Response
closing text = record {
  result = "";
  err = some (record { code = negsuc 31999; message = text; error_data = "" });
}

-- failPendingOnClose
unfoldable pub fail_pending : String → Session → Option Session
unfolding fail_all
fail_pending text s = elim (fail_all (closing text) s.pending s.chan) [
  | none ↦ none
  | some chan ↦ some (record s { pending = []; chan = chan })
]

-- Call's `cleanup`.
abbrev pub cleanup : ℕ → Outcome → Session → Session
cleanup i o s = record s { pending = delete i s.pending; phase = put s.phase i (returned o) }

-- Call, up to the registration; a session that is not alive refuses.
unfoldable pub call : String → String → Session → Session
call method params s =
    if not s.alive
    then s
    else (let i = s.next_id + 1 in
        record s {
          next_id = i;
          pending = insert i i s.pending;
          chan = put s.chan i fresh_chan;
          phase = put s.phase i (registered method params);
        })

-- if resp.err != nil { return nil, resp.err }; return resp.result, nil
unfoldable pub outcome_of : Response → Outcome
outcome_of r = elim r.err [ none ↦ succeeded r.result | some e ↦ remote_error e ]

-- case resp := <-respCh
unfoldable pub take_response : ℕ → Session → Option Response → Session
take_response i s none = s
take_response i s (some r) = record s {
  chan = put s.chan i (record (s.chan i) { value = none });
  phase = put s.phase i (returned (outcome_of r));
}

unfoldable pub resume_phase : ℕ → Session → CallPhase → Session
unfolding take_response
resume_phase i s waiting = take_response i s (s.chan i).value
resume_phase i s other = s

-- case <-ctx.Done()
unfoldable pub cancel_phase : ℕ → String → Session → CallPhase → Session
cancel_phase i text s waiting = cleanup i (ctx_done text) s
cancel_phase i text s other = s

-- Stop, up to the signals to the process.
unfoldable pub stop : Session → Option Session
unfolding fail_pending
stop s =
    if s.stopping
    then some s
    else fail_pending "agentsessions: session stopped" (record s { alive = false; stopping = true })

-- What a server-initiated request is answered with: a result or an error.
pub data Answer : Type 0 where
  answer_result : String → Answer
  answer_error : JsonRpcError → Answer

-- The consumer's and encoding/json's part.
pub record Outside : Type 0 where
  -- json.Unmarshal of a line, and of an id into an int64
  pub unmarshal : String → Option Frame
  pub decode_id : String → Option ℤ
  -- json.Marshal of a request and of a response, with the newline
  pub encode_call : ℕ → String → String → Option String
  pub encode_answer : String → Answer → Option String
  -- JsonRpcRequestHook and whether there is a JsonRpcNotificationHook
  pub request_hook : Option (String → String → String × Option JsonRpcError)
  pub has_notification_hook : Bool
  -- "agentsessions: no JsonRpcRequestHook configured ... " + method
  pub unhandled : String → String

-- One step of a goroutine: a Call registers, writes its request, takes its response or gives up;
-- the reader reads a line or ends; Stop; the end of the child, and the start of the next one.
pub data Move : Type 0 where
  calls : String → String → Move
  sends : ℕ → Option String → Move
  resumes : ℕ → Move
  cancels : ℕ → String → Move
  reads : String → Move
  reader_exits stops child_exits child_starts : Move

module _ (out : Outside) where
  -- Call, from the encoding of the frame to the write; `werr` is the error of the write.
  unfoldable pub send_phase : ℕ → Option String → Session → CallPhase → Session
  send_phase i werr s (registered method params) = elim (out.encode_call i method params) [
    | none ↦ cleanup i encode_failed s
    | some encoded ↦ if not s.stdin then cleanup i no_input_channel s else elim werr [
      | none ↦ record s { written = s.written ++ encoded ∷ []; phase = put s.phase i waiting }
      | some e ↦ cleanup i (write_failed e) s
    ]
  ]
  send_phase i werr s other = s

  hook_answer : String × Option JsonRpcError → Answer
  hook_answer (result, none) = answer_result result
  hook_answer (result, some e) = answer_error e

  unfoldable pub answer : Frame → Answer
  unfolding hook_answer
  answer f = elim out.request_hook [
    | none ↦
        answer_error
          (record { code = negsuc 32600; message = out.unhandled f.method; error_data = "" })
    | some hook ↦ hook_answer (hook f.method f.params)
  ]

  -- respondToServerRequest
  unfoldable pub respond : String → Frame → Session → Session
  respond id f s = elim (out.encode_answer id (answer f)) [
    | none ↦ s
    | some encoded ↦ if s.stdin then record s { written = s.written ++ encoded ∷ [] } else s
  ]

  -- The switch on the kind of the frame.
  unfoldable pub dispatch : Frame → Session → Option Session
  unfolding respond deliver_response
  dispatch f s =
      if not (f.method == "")
      then elim f.id [
        | some id ↦ some (respond id f s)
        | none ↦ some (
            if out.has_notification_hook
            then record s { notified = s.notified ++ (f.method, f.params) ∷ [] }
            else s)
      ]
      else elim f.id [
        | some id ↦
            deliver_response (out.decode_id id) (record { result = f.result; err = f.error }) s
        | none ↦ some s
      ]

  -- The body of runReaderLoop; the adapter's own parsers are left out.
  unfoldable pub read_line : String → Session → Option Session
  unfolding dispatch
  read_line line s =
      let s' : Session = record s { sink = s.sink ++ line ∷ [] } in
      elim (out.unmarshal line) [ none ↦ some s' | some f ↦ dispatch f s' ]

  unfoldable pub step : Move → Session → Option Session
  unfolding call send_phase resume_phase cancel_phase read_line fail_pending stop
  step (calls method params) s = some (call method params s)
  step (sends i werr) s = some (send_phase i werr s (s.phase i))
  step (resumes i) s = some (resume_phase i s (s.phase i))
  step (cancels i text) s = some (cancel_phase i text s (s.phase i))
  step (reads line) s = read_line line s
  step reader_exits s = fail_pending "agentsessions: jsonrpc reader exited before response" s
  step stops s = stop s
  step child_exits s = some (record s { stdin = false })
  step child_starts s = some (record s { stdin = true })

  unfoldable pub run : List Move → Session → Option Session
  unfolding step
  run [] s = some s
  run (o ∷ os) s = elim (step o s) [ none ↦ none | some s' ↦ run os s' ]

-- A session whose child has been spawned.
unfoldable pub new_session : Session
new_session = record {
  alive = true;
  stopping = false;
  stdin = true;
  next_id = 0;
  pending = [];
  chan = λ i. fresh_chan;
  phase = λ i. not_called;
  written = [];
  sink = [];
  notified = [];
}
