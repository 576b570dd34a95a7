-- ===== src/Manager/Clients.antt =====
-- agentsessions/manager.go: AttachWith, and the calls that go on to a session.
use go_agent_sessions.Prelude.{
  ℕ, ◌+◌, ◌-◌, Bool, Option, none, some, [], ◌∷◌, ◌++◌, String, if◌then◌else◌, ltb, nat_eq,
  string_eq, ◌==◌,
}
use go_agent_sessions.Prelude.Assoc.{lookup}
use go_agent_sessions.Prelude.Int.{ℤ}
use go_agent_sessions.Attach.{subscribe_since, cancel}
use go_agent_sessions.Lifecycle.{Capabilities}
use go_agent_sessions.Manager.State.{
  Attachment, Error, Manager, Phase, attach_disabled, attached, become, create_client,
  detach_client, not_json_rpc_capable, over, put, session_not_running, spawn,
}

-- AttachOptions, without the defaults.
pub record AttachOptions : Type 0 where
  pub client_kind : String
  pub since_seq : ℤ
  pub depth : ℤ

unfoldable pub subscribe_hub : ℕ → ℕ → String → AttachOptions → Manager → Manager
unfolding subscribe_since
subscribe_hub e b attach_id opts m =
    let (h, s) = subscribe_since opts.depth opts.since_seq (m.hub b) in
    spawn (attached e b s.id attach_id) (record m { hub = put m.hub b h })

unfoldable pub count_client : ℕ → Manager → Manager
count_client e m = record m {
  entry = put m.entry e (record (m.entry e) { attach_count = (m.entry e).attach_count + 1 });
}

unfoldable pub record_attachment : Attachment → Manager → Manager
record_attachment a m =
    if m.has_attach_sink then (record m { attachments = m.attachments ++ a ∷ [] }) else m

unfoldable pub attach_entry :
    String → AttachOptions → String → ℕ → Manager → ℕ → Option ℕ → Manager × Option Error
unfolding record_attachment count_client subscribe_hub
attach_entry id opts attach_id now m e none = (m, some attach_disabled)
attach_entry id opts attach_id now m e (some b) =
    let kind = if opts.client_kind == "" then "cli" else opts.client_kind in
    let m₁ = record_attachment (create_client attach_id id kind now) m in
    (subscribe_hub e b attach_id opts (count_client e m₁), none)

unfoldable pub attach_found :
    String → AttachOptions → String → ℕ → Manager → Option ℕ → Manager × Option Error
unfolding attach_entry
attach_found id opts attach_id now m none = (m, some session_not_running)
attach_found id opts attach_id now m (some e) =
    attach_entry id opts attach_id now m e (m.entry e).broker

-- AttachWith, up to the start of copyStream; `attach_id` and `now` are what idFn and nowFn return.
unfoldable pub attach_with : String → AttachOptions → String → ℕ → Manager → Manager × Option Error
unfolding attach_found lookup
attach_with id opts attach_id now m = attach_found id opts attach_id now m (lookup id m.registry)

-- if e.attachCount > 0 { e.attachCount-- }
unfoldable pub uncount_client : ℕ → Manager → Manager
uncount_client e m = record m {
  entry = put m.entry e (record (m.entry e) {
    attach_count =
        if ltb 0 (m.entry e).attach_count
        then (m.entry e).attach_count - 1
        else (m.entry e).attach_count;
  });
}

-- The deferred `cancel`, a no-op where the broker was already closed at the subscription.
unfoldable pub cancel_hub : ℕ → Option ℕ → Manager → Option Manager
cancel_hub b none m = some m
cancel_hub b (some i) m = elim (cancel i (m.hub b)) [
  | none ↦ none
  | some h ↦ some (record m { hub = put m.hub b h })
]

unfoldable pub detached : ℕ → ℕ → String → ℕ → Option Manager → Option Manager
unfolding uncount_client record_attachment
detached t e attach_id now none = none
detached t e attach_id now (some m) =
    some (become t over (record_attachment (detach_client attach_id now) (uncount_client e m)))

unfoldable pub detach_phase : ℕ → ℕ → Manager → Phase → Option Manager
unfolding cancel_hub detached
detach_phase t now m (attached e b i attach_id) = detached t e attach_id now (cancel_hub b i m)
detach_phase t now m other = some m

-- AttachWith after copyStream: the deferred calls, the last one first.
unfoldable pub detach : ℕ → ℕ → Manager → Option Manager
unfolding detach_phase
detach t now m = detach_phase t now m (m.phase t)

-- Calls that look an entry up and go on to its session.
pub data Routed : Type 0 where
  rejected : Error → Routed
  calls : ℕ → Routed

-- SendInput and Resize.
unfoldable pub route : String → Manager → Routed
unfolding lookup
route id m = elim (lookup id m.registry) [
  | none ↦ rejected session_not_running
  | some e ↦ calls (m.entry e).sess
]

-- JsonRpcCall; which sessions implement JsonRpcCaller is an argument.
unfoldable pub json_rpc_call : (ℕ → Bool) → String → Manager → Routed
unfolding lookup
json_rpc_call is_caller id m = elim (lookup id m.registry) [
  | none ↦ rejected session_not_running
  | some e ↦
      if is_caller (m.entry e).sess then calls (m.entry e).sess else rejected not_json_rpc_capable
]

-- Resize forwards the window size, as SendInput does its bytes.
unfoldable pub resize : String → Manager → Routed
unfolding route
resize id m = route id m

-- `H` is what Session.Health returns.
pub record HealthSnapshot (H : Type 0) : Type 0 where
  pub session_id : String
  pub runtime_id : String
  pub runtime_kind : String
  pub caps : Capabilities
  pub health_status : H

-- Health; `session_health` asks the session.
unfoldable pub health : {H : Type 0} → (ℕ → H) → String → Manager → Option (HealthSnapshot H)
unfolding lookup
health session_health id m = elim (lookup id m.registry) [
  | none ↦ none
  | some e ↦ some (record {
    session_id = id;
    runtime_id = (m.entry e).info.runtime_id;
    runtime_kind = (m.entry e).info.runtime_kind;
    caps = (m.entry e).info.caps;
    health_status = session_health (m.entry e).sess;
  })
]
