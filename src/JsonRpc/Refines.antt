-- ===== src/JsonRpc/Refines.antt =====
-- The client of agentsessions/jsonrpc_stdio_session.go implements the life of each Call.
use go_agent_sessions.Prelude.{ℕ, ◌<◌, ◌≡◌, Option, none, some, List, nat_eq, string_eq}
use go_agent_sessions.JsonRpc.{Session, not_called, fail_all, Outside, Move}
use go_agent_sessions.JsonRpc as Client
use go_agent_sessions.JsonRpc.Life.{View, view, LifeStep, Life}
use go_agent_sessions.JsonRpc.Life as L

-- No Call is made with an id that has not been given.
abbrev Late : Session → Type 0
Late s = (j : ℕ) → s.next_id < j → s.phase j ≡ not_called

module _ (out : Outside) where
  -- After the move `o` in `s`.
  abbrev Keeps : Move → Session → Session → Type 0
  Keeps o s s' = Late s' × ((i : ℕ) → LifeStep out i o (view i s) (view i s'))

  abbrev MayKeep : Move → Session → Option Session → Type 0
  MayKeep o s none = Unit {0}
  MayKeep o s (some s') = Keeps o s s'

  abbrev pub Lives : List Move → Session → Option Session → Type 0
  Lives os s o = (s' : Session) × (o ≡ some s') × ((i : ℕ) → Life out i os (view i s) (view i s'))
