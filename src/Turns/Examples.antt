-- ===== src/Turns/Examples.antt =====
-- The theorems on agentsessions/from_provider.go at concrete inputs.
use go_agent_sessions.Prelude.{◌≡◌, refl, true, false, none, some, List, [], ◌∷◌}
use go_agent_sessions.Turns.{
  user, assistant, ProviderSession, StreamEvent, delta, done_event, no_input_channel, idle,
  streamed, start_session, stop, begin_turn, finish_turn,
}
use go_agent_sessions.Turns.Replies.{Turned, turn_lem, stopped_turn_idles}

abbrev new_chat : ProviderSession
new_chat = start_session (1 ∷ []) [] true

-- The assistant says "hi!" in two pieces.
abbrev greeting : List StreamEvent
greeting = delta (104 ∷ 105 ∷ []) ∷ delta (33 ∷ []) ∷ done_event ∷ []

turn_example :
    Turned new_chat
      (record { role = user; content = 63 ∷ [] }
        ∷ record { role = assistant; content = 104 ∷ 105 ∷ 33 ∷ [] }
        ∷ [])
      none
      (finish_turn (streamed greeting) (begin_turn (63 ∷ []) new_chat).0)
unfolding start_session
turn_example = turn_lem (63 ∷ []) greeting new_chat refl refl

stopped_turn_example :
    ((finish_turn (streamed greeting) (stop (begin_turn (63 ∷ []) new_chat).0)).0.state ≡ idle)
    × ((finish_turn (streamed greeting) (stop (begin_turn (63 ∷ []) new_chat).0)).0.alive ≡ false)
    × ((begin_turn
          (64 ∷ [])
          (finish_turn (streamed greeting) (stop (begin_turn (63 ∷ []) new_chat).0)).0).1
        ≡ some no_input_channel)
unfolding start_session
stopped_turn_example = stopped_turn_idles (63 ∷ []) (64 ∷ []) greeting new_chat refl refl
