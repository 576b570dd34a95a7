-- ===== src/JsonRpc/Life.antt =====
-- The life of one Call of agentsessions/jsonrpc_stdio_session.go, apart from maps, channels and
-- goroutines: what the client promises for each id.
use go_agent_sessions.Prelude.{ℕ, ◌≡◌, Option, none, some, List, [], ◌∷◌, String}
use go_agent_sessions.Prelude.Int.{pos}
use go_agent_sessions.JsonRpc.{
  Frame, Response, Outcome, succeeded, remote_error, no_input_channel, encode_failed, write_failed,
  ctx_done, CallPhase, not_called, registered, waiting, returned, Session, closing, outcome_of,
  Outside, Move, calls, sends, resumes, cancels, reads, reader_exits, stops, child_exits,
  child_starts,
}

-- The Call is not made yet, has no response, has one that it has not taken, or has returned.
pub data View : Type 0 where
  unmade awaiting : View
  settled : Response → View
  over : Outcome → View

abbrev open_view : Option Response → View
open_view none = awaiting
open_view (some r) = settled r

abbrev pub view_of : CallPhase → Option Response → View
view_of not_called v = unmade
view_of (registered method params) v = open_view v
view_of waiting v = open_view v
view_of (returned o) v = over o

abbrev pub view : ℕ → Session → View
view i s = view_of (s.phase i) (s.chan i).value

-- Errors of the Call itself, which no response brings.
abbrev pub IsLocal : Outcome → Type 0
IsLocal (succeeded r) = ⊥
IsLocal (remote_error e) = ⊥
IsLocal no_input_channel = Unit {0}
IsLocal encode_failed = Unit {0}
IsLocal (write_failed e) = Unit {0}
IsLocal (ctx_done e) = Unit {0}

module _ (out : Outside) (i : ℕ) where
  -- Where the response to the Call `i` comes from: a line that is a response with its id, or the end
  -- of the reader or of the session.
  abbrev pub ComesFrom : Move → Response → Type 0
  ComesFrom (reads line) r =
      (f : Frame) × (raw : String) × (out.unmarshal line ≡ some f)
      × (f.id ≡ some raw)
      × (out.decode_id raw ≡ some (pos i))
      × (r ≡ record { result = f.result; err = f.error })
  ComesFrom reader_exits r = r ≡ closing "agentsessions: jsonrpc reader exited before response"
  ComesFrom stops r = r ≡ closing "agentsessions: session stopped"
  ComesFrom (calls method params) r = ⊥
  ComesFrom (sends j e) r = ⊥
  ComesFrom (resumes j) r = ⊥
  ComesFrom (cancels j e) r = ⊥
  ComesFrom child_exits r = ⊥
  ComesFrom child_starts r = ⊥

  -- What one step of the client may do to the Call `i`.
  pub data LifeStep (o : Move) : View → View → Type 0 where
    rests : (v : View) → LifeStep o v v
    makes : (method params : String) → o ≡ calls method params → LifeStep o unmade awaiting
    settles : (r : Response) → ComesFrom o r → LifeStep o awaiting (settled r)
    takes : (r : Response) → o ≡ resumes i → LifeStep o (settled r) (over (outcome_of r))
    gives_up : (v : Option Response) (e : Outcome) → IsLocal e → LifeStep o (open_view v) (over e)

  -- What a schedule may do to it.
  pub data Life : List Move → View → View → Type 0 where
    here : (v : View) → Life [] v v
    step :
        {o : Move} {os : List Move} {u v w : View}
        → LifeStep o u v
        → Life os v w
        → Life (o ∷ os) u w
