-- ===== src/Turns.antt =====
-- agentsessions/from_provider.go: the session that makes one API call for each turn. What the
-- provider answers is an argument; SendInput is the step before the stream and the step after it,
-- so that a Stop or a second SendInput can come between. Strings are their bytes.
pub mod Replies
pub mod Runtime
pub mod Examples
use go_agent_sessions.Prelude.{
  ◌≡◌, Bool, true, false, not, Option, none, some, List, [], ◌∷◌, ◌++◌, if◌then◌else◌, length,
  nat_eq, ◌==◌,
}
use go_agent_sessions.Attach.{Bytes}

pub data Role : Type 0 where
  user assistant : Role

pub record ChatMessage : Type 0 where
  pub role : Role
  pub content : Bytes

pub data LiveState : Type 0 where
  idle processing stopped : LiveState

-- The event types that SendInput tells apart.
pub data StreamEvent : Type 0 where
  delta error_event : Bytes → StreamEvent
  done_event other_event : StreamEvent

-- A write to Fanout: the text, "\\n[error] %s\\n", or "\\n[turn_done]\\n".
pub data Written : Type 0 where
  text error_line : Bytes → Written
  turn_done : Written

pub data TurnError : Type 0 where
  no_input_channel turn_in_flight_error : TurnError
  provider_error : Bytes → TurnError

pub record ProviderSession : Type 0 where
  pub system : Bytes
  pub alive : Bool
  pub state : LiveState
  pub messages : List ChatMessage
  pub turn_in_flight : Bool
  pub done_closed : Bool
  pub has_fanout : Bool
  pub fanout : List Written

-- StreamChat refuses, or streams.
pub data ChatResult : Type 0 where
  chat_refused : Bytes → ChatResult
  streamed : List StreamEvent → ChatResult

-- providerRuntime.Start, with the configured system prompt, the boot prompt, and whether there is a
-- Fanout.
unfoldable pub start_session : Bytes → Bytes → Bool → ProviderSession
start_session system_prompt boot_prompt has_fanout = record {
  system = if length boot_prompt == 0 then system_prompt else boot_prompt;
  alive = true;
  state = idle;
  messages = [];
  turn_in_flight = false;
  done_closed = false;
  has_fanout = has_fanout;
  fanout = [];
}

unfoldable pub stop : ProviderSession → ProviderSession
stop s = if not s.alive then s else record s { alive = false; state = stopped; done_closed = true }

-- SendInput, up to the call of StreamChat.
unfoldable pub begin_turn : Bytes → ProviderSession → ProviderSession × Option TurnError
begin_turn data_bytes s =
    if not s.alive
    then (s, some no_input_channel)
    else (if s.turn_in_flight then (s, some turn_in_flight_error) else (
      record s {
        turn_in_flight = true;
        messages = s.messages ++ record { role = user; content = data_bytes } ∷ [];
        state = processing;
      },
      none,
    ))

-- if s.opts.Fanout != nil { ... }
abbrev pub fan : Written → ProviderSession → ProviderSession
fan w s = if s.has_fanout then record s { fanout = s.fanout ++ w ∷ [] } else s

-- for ev := range stream: the session, the assistant's text, and the error.
unfoldable pub consume :
    List StreamEvent → Bytes → ProviderSession → ProviderSession × Bytes × Option Bytes
consume [] reply s = (s, reply, none)
consume (delta c ∷ es) reply s = consume es (reply ++ c) (fan (text c) s)
consume (error_event e ∷ es) reply s = (fan (error_line e) s, reply, some e)
consume (done_event ∷ es) reply s = consume es reply (fan turn_done s)
consume (other_event ∷ es) reply s = consume es reply s

-- The deferred stores.
abbrev pub turn_over : ProviderSession → ProviderSession
turn_over s = record s { state = idle; turn_in_flight = false }

unfoldable pub finish_stream :
    ProviderSession × Bytes × Option Bytes → ProviderSession × Option TurnError
finish_stream (s, reply, some e) = (turn_over s, some (provider_error e))
finish_stream (s, reply, none) = if length reply == 0 then (turn_over s, none) else (
  turn_over
      (record s { messages = s.messages ++ record { role = assistant; content = reply } ∷ [] }),
  none,
)

-- SendInput, from the answer of StreamChat on.
unfoldable pub finish_turn : ChatResult → ProviderSession → ProviderSession × Option TurnError
unfolding finish_stream consume
finish_turn (chat_refused e) s = (turn_over s, some (provider_error e))
finish_turn (streamed es) s = finish_stream (consume es [] s)
