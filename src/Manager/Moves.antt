-- ===== src/Manager/Moves.antt =====
-- agentsessions/manager.go: the steps of its goroutines, and the schedules made of them.
use go_agent_sessions.Prelude.{
  ℕ, Bool, false, Option, none, some, List, [], ◌∷◌, String, nat_eq, string_eq,
}
use go_agent_sessions.Prelude.Int.{ℤ, pos}
use go_agent_sessions.Attach.{Op, fresh_hub, step as hub_step}
use go_agent_sessions.Lifecycle.{no_caps}
use go_agent_sessions.Manager.State.{Entry, Error, Manager, StartRequest, created, over, put}
use go_agent_sessions.Manager.Launch.{Launch, finish_start, start}
use go_agent_sessions.Manager.Watch.{deliver, shutdown, stop, wait_returns}
use go_agent_sessions.Manager.Clients.{AttachOptions, attach_with, detach}

-- A producer, a subscriber or a late cancel works on a broker.
unfoldable pub broker_op : ℕ → Op → Manager → Option Manager
broker_op b o m = elim (hub_step o (m.hub b)) [
  | none ↦ none
  | some h ↦ some (record m { hub = put m.hub b h })
]

-- One step of some goroutine.
pub data Move : Type 0 where
  starts : StartRequest → Move
  launches : ℕ → Launch → Move
  wait_ends : ℕ → ℤ → Option Error → Move
  delivers : ℕ → ℕ → Move
  stops : String → Move
  shuts_down : Move
  attaches : String → AttachOptions → String → ℕ → Move
  detaches : ℕ → ℕ → Move
  broker_ops : ℕ → Op → Move

unfoldable pub state_of : Option (Manager × Option Error) → Option Manager
state_of none = none
state_of (some (m, e)) = some m

unfoldable pub step : Move → Manager → Option Manager
unfolding start finish_start wait_returns deliver stop shutdown attach_with detach broker_op
    state_of
step (starts req) m = some (start req m).0
step (launches t l) m = state_of (finish_start t l m)
step (wait_ends t code err) m = some (wait_returns t code err m)
step (delivers t pid) m = deliver t pid m
step (stops id) m = some (stop id m).0
step shuts_down m = some (shutdown m).0
step (attaches id opts attach_id now) m = some (attach_with id opts attach_id now m).0
step (detaches t now) m = detach t now m
step (broker_ops b o) m = broker_op b o m

unfoldable pub run : List Move → Manager → Option Manager
unfolding step
run [] m = some m
run (o ∷ os) m = elim (step o m) [ none ↦ none | some m' ↦ run os m' ]

-- A heap cell that no goroutine has allocated yet.
abbrev pub no_entry : Entry
no_entry = record {
  info = record {
    id = "";
    pid = 0;
    state = created;
    runtime_id = "";
    runtime_kind = "";
    caps = no_caps;
    workdir = "";
    attached_clients = 0;
    meta = [];
  };
  sess = 0;
  broker = none;
  killing = false;
  attach_count = 0;
}

-- NewManager, with which of the optional sinks are set.
unfoldable pub new_manager : Bool → Bool → Bool → Manager
unfolding fresh_hub
new_manager has_sink has_attach_sink has_events = record {
  has_sink = has_sink;
  has_attach_sink = has_attach_sink;
  has_events = has_events;
  registry = [];
  results = [];
  stopped = false;
  wg = 0;
  entry = λ e. no_entry;
  result = λ r. record { closed = false; exit_code = pos 0; exit_err = none };
  hub = λ b. fresh_hub (pos 0) (pos 0);
  phase = λ t. over;
  next = 0;
  states = [];
  events = [];
  attachments = [];
  stops = [];
}
