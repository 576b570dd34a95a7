-- ===== src/Manager/State.antt =====
-- agentsessions/manager.go and types.go: the data of the Manager, its sinks, and the goroutines.
use go_agent_sessions.Prelude.{
  ℕ, ◌+◌, Bool, Option, List, [], ◌∷◌, ◌++◌, String, if◌then◌else◌, nat_eq, string_eq, ◌==◌,
}
use go_agent_sessions.Prelude.Assoc.{Assoc}
use go_agent_sessions.Prelude.Int.{ℤ}
use go_agent_sessions.Attach.{Hub}
use go_agent_sessions.Lifecycle.{Capabilities}

-- The four states of types.go, and the literal "created" that `Start` emits as a From.
pub data State : Type 0 where
  created launching running done failed : State

pub data Error : Type 0 where
  id_required runtime_required manager_stopped session_not_running attach_disabled : Error
  not_json_rpc_capable ctx_done : Error
  reported : String → Error

-- One call of StateSink.UpdateSessionState.
pub record StateRecord : Type 0 where
  pub id : String
  pub state : State
  pub pid : ℕ
  pub exit : Option ℤ

-- One call of EventSink.Emit; the library's only Kind is session.state_changed.
pub record LifecycleEvent : Type 0 where
  pub session_id : String
  pub from : State
  pub to : State
  pub exit_code : Option ℤ
  pub reason : String

-- One call on the AttachmentSink.
pub data Attachment : Type 0 where
  create_client : String → String → String → ℕ → Attachment
  detach_client : String → ℕ → Attachment

-- What the Manager asks of a Runtime besides Start.
pub record Runtime : Type 0 where
  pub id : String
  pub kind : String
  pub caps : Capabilities

pub record StartRequest : Type 0 where
  pub id : String
  pub runtime : Option Runtime
  pub workdir : String
  pub attach_enabled : Bool
  pub ring_bytes : ℤ
  pub subscriber_depth : ℤ
  pub session_meta : List (String × String)

pub record SessionInfo : Type 0 where
  pub id : String
  pub pid : ℕ
  pub state : State
  pub runtime_id : String
  pub runtime_kind : String
  pub caps : Capabilities
  pub workdir : String
  pub attached_clients : ℕ
  pub meta : List (String × String)

-- `sess` names a Session, `broker` a broker.
pub record Entry : Type 0 where
  pub info : SessionInfo
  pub sess : ℕ
  pub broker : Option ℕ
  pub killing : Bool
  pub attach_count : ℕ

-- `closed` is whether the channel `done` is closed.
pub record SessionResult : Type 0 where
  pub closed : Bool
  pub exit_code : ℤ
  pub exit_err : Option Error

-- Where a goroutine stands.
pub data Phase : Type 0 where
  -- nothing left to do
  over : Phase
  -- `Start` waits for Runtime.Start
  starting : StartRequest → Runtime → Phase
  -- `watch` waits for Session.Wait
  watching : String → ℕ → Option ℕ → Phase
  -- `watch` has unregistered the entry: the id, the session, the broker, `killing`, the exit code
  -- and error, and the result that it looked up
  delivering : String → ℕ → Option ℕ → Bool → ℤ → Option Error → Option ℕ → Phase
  -- `AttachWith` copies: the entry, the broker, the cancel id, the attach id
  attached : ℕ → ℕ → Option ℕ → String → Phase

-- The objects that goroutine `t` allocates (entry, result, broker) have the number `t`.
pub record Manager : Type 0 where
  pub has_sink : Bool
  pub has_attach_sink : Bool
  pub has_events : Bool
  pub registry : Assoc String ℕ
  pub results : Assoc String ℕ
  pub stopped : Bool
  pub wg : ℕ
  pub entry : ℕ → Entry
  pub result : ℕ → SessionResult
  pub hub : ℕ → Hub
  pub phase : ℕ → Phase
  pub next : ℕ
  pub states : List StateRecord
  pub events : List LifecycleEvent
  pub attachments : List Attachment
  pub stops : List ℕ

abbrev pub put {ℓ} : {A : Type ℓ} → (ℕ → A) → ℕ → A → ℕ → A
put f k v q = if q == k then v else f q

unfoldable pub record_state : String → State → ℕ → Option ℤ → Manager → Manager
record_state id state pid exit m =
    if m.has_sink
    then (record m {
      states = m.states ++ record { id = id; state = state; pid = pid; exit = exit } ∷ [];
    })
    else m

unfoldable pub emit : String → State → State → Option ℤ → String → Manager → Manager
emit id from to exit reason m =
    if m.has_events
    then (record m {
      events =
          m.events
          ++ record { session_id = id; from = from; to = to; exit_code = exit; reason = reason }
            ∷ [];
    })
    else m

-- A new goroutine, or the next phase of a call.
abbrev pub spawn : Phase → Manager → Manager
spawn p m = record m { phase = put m.phase m.next p; next = m.next + 1 }

abbrev pub become : ℕ → Phase → Manager → Manager
become t p m = record m { phase = put m.phase t p }
