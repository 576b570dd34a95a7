-- ===== src/Serve/Clients.antt =====
-- SendInput, Stop, Wait, finishOnProcessExit and the small methods of
-- agentsessions/serve_http_session.go.
use go_agent_sessions.Prelude.{
  ℕ, Bool, true, false, not, ◌&&◌, ◌||◌, Option, none, some, List, [], ◌∷◌, ◌++◌, if◌then◌else◌,
  ltb, leb,
}
use go_agent_sessions.Prelude.Int.{ℤ}
use go_agent_sessions.Prelude.Texts.{Bytes, codes, is_blank}
use go_agent_sessions.Supervision.{WaitError}
use go_agent_sessions.Turns.{LiveState, processing, stopped}
use go_agent_sessions.Spawn.Attempt.{Step}
use go_agent_sessions.Child.{Reported}
use go_agent_sessions.Child.Ending.{legacy_outcome}
use go_agent_sessions.Stdio.Clients.{Waited, term_stage}
use go_agent_sessions.Serve.{ServeSession}
use go_agent_sessions.Serve.Events.{mark_turn_done}

-- A request fails, or is answered with a status.
pub data Answer : Type 0 where
  failed : Answer
  answered : ℕ → Bytes → Answer

-- resp.StatusCode >= 200 && resp.StatusCode < 300
abbrev pub is_success : ℕ → Bool
is_success status = leb 200 status && ltb status 300

pub data TurnError : Type 0 where
  no_input_channel turn_in_flight_error request_error : TurnError
  status_error : ℕ → Bytes → TurnError

-- SendInput, up to the request.
unfoldable pub begin_turn : ServeSession → ServeSession × Option TurnError
begin_turn s =
    if not s.alive
    then (s, some no_input_channel)
    else (if s.turn_in_flight
        then (s, some turn_in_flight_error)
        else (record s { turn_in_flight = true }, none))

-- SendInput, from the answer of the request on.
unfoldable pub finish_turn : Answer → ServeSession → ServeSession × Option TurnError
unfolding mark_turn_done
finish_turn failed s = (mark_turn_done s, some request_error)
finish_turn (answered status body) s =
    if not (is_success status)
    then (mark_turn_done s, some (status_error status body))
    else (record s { state = processing }, none)

-- waitOnce.Do of finishOnProcessExit.
unfoldable pub finish_once : ℤ × Option Reported → ServeSession → ServeSession
finish_once (code, err) s = if s.done then s else record s {
  done = true;
  wait_code = code;
  wait_err = err;
  log_open = false;
  cleaned = true;
}

-- finishOnProcessExit, with what it receives from processDone: the error of cmd.Wait for the first
-- receiver, nil for the others, since the channel is closed then.
unfoldable pub finish_on_process_exit : Option WaitError → ServeSession → ServeSession
unfolding finish_once legacy_outcome
finish_on_process_exit err s =
    finish_once (legacy_outcome err) (record s { alive = false; state = stopped })

-- Wait; `none` while the session runs.
unfoldable pub wait : ServeSession → Option (ℤ × Option Reported)
wait s = if s.done then some (s.wait_code, s.wait_err) else none

module _ (with_workdir path_escape : Bytes → Bytes) where
  -- The requests of Stop; postNoBody makes none without a base URL.
  unfoldable pub dispose_requests : ServeSession → List Bytes
  dispose_requests s =
      if is_blank s.base_url
      then []
      else ((s.base_url ++ codes "/global/dispose")
          ∷ (if is_blank s.session_id
              then []
              else with_workdir
                  (s.base_url ++ codes "/session/" ++ path_escape s.session_id ++ codes "/abort")
                ∷ []))

  -- Stop: the session, its requests, and what it does to the child.
  unfoldable pub stop :
      Bool → Waited → Waited → ServeSession → ServeSession × List Bytes × List Step
  unfolding dispose_requests term_stage
  stop term_ok first_wait second_wait s = if s.stop_requested then (s, [], []) else (
    record s { alive = false; state = stopped; stop_requested = true; streaming = false },
    dispose_requests s,
    elim s.cmd [ none ↦ [] | some pid ↦ term_stage term_ok first_wait second_wait ],
  )

unfoldable pub health : ServeSession → Bool × ℕ × LiveState
health s = (s.alive, if s.alive then s.started_pid else 0, s.state)

unfoldable pub checkpoint_hints : Bool → ServeSession → Option Bytes
checkpoint_hints resumes s =
    if not resumes || is_blank s.last_session_id then none else some s.last_session_id

unfoldable pub live_pid : ServeSession → ℕ
live_pid s = if s.alive then s.started_pid else 0

unfoldable pub last_pid : ServeSession → ℕ
last_pid s = s.last_pid

unfoldable pub provider_session_id : ServeSession → Bytes
provider_session_id s = s.last_session_id
