-- ===== src/Manager/Launch.antt =====
-- agentsessions/manager.go: Start, before and after Runtime.Start.
use go_agent_sessions.Prelude.{
  ℕ, ◌+◌, false, Option, none, some, [], ◌∷◌, ◌++◌, String, if◌then◌else◌, nat_eq, string_eq, ◌==◌,
}
use go_agent_sessions.Prelude.Assoc.{insert}
use go_agent_sessions.Prelude.Int.{pos}
use go_agent_sessions.Attach.{fresh_hub, close}
use go_agent_sessions.Manager.State.{
  Error, Manager, Phase, Runtime, SessionInfo, StartRequest, become, created, emit, failed,
  id_required, launching, manager_stopped, over, put, record_state, reported, running,
  runtime_required, spawn, starting, watching,
}

-- Start, up to the call of Runtime.Start.
unfoldable pub start : StartRequest → Manager → Manager × Option Error
unfolding record_state emit fresh_hub
start req m = if req.id == "" then (m, some id_required) else elim req.runtime [
  | none ↦ (m, some runtime_required)
  | some rt ↦
      if m.stopped
      then (m, some manager_stopped)
      else (let m₁ = record_state req.id launching 0 none m in
          let m₂ = emit req.id created launching none "" m₁ in
          let m₃ : Manager = record m₂ {
            hub =
                if req.attach_enabled
                then put m₂.hub m.next (fresh_hub req.ring_bytes req.subscriber_depth)
                else m₂.hub;
          } in
          (spawn (starting req rt) m₃, none))
]

-- What Runtime.Start returns: an error's text, or a session with the PID of its Health.
pub data Launch : Type 0 where
  refused : String → Launch
  session : ℕ → ℕ → Launch

abbrev pub broker_of : StartRequest → ℕ → Option ℕ
broker_of req t = if req.attach_enabled then some t else none

-- if broker != nil { broker.close() }
unfoldable pub close_hub : Option ℕ → Manager → Option Manager
close_hub none m = some m
close_hub (some b) m = elim (close (m.hub b)) [
  | none ↦ none
  | some h ↦ some (record m { hub = put m.hub b h })
]

abbrev pub info_of : StartRequest → Runtime → ℕ → SessionInfo
info_of req rt pid = record {
  id = req.id;
  pid = pid;
  state = running;
  runtime_id = rt.id;
  runtime_kind = rt.kind;
  caps = rt.caps;
  workdir = req.workdir;
  attached_clients = 0;
  meta = req.session_meta;
}

unfoldable pub and_then :
    (Manager → Manager × Option Error) → Option Manager → Option (Manager × Option Error)
and_then f none = none
and_then f (some m) = some (f m)

-- The Manager with the entry and the result that Start makes, and the goroutine that watches.
abbrev pub registered_in : ℕ → StartRequest → Runtime → ℕ → ℕ → Manager → Manager
registered_in t req rt sess pid m = record m {
  registry = insert req.id t m.registry;
  results = insert req.id t m.results;
  entry = put m.entry t (record {
    info = info_of req rt pid;
    sess = sess;
    broker = broker_of req t;
    killing = false;
    attach_count = 0;
  });
  result = put m.result t (record { closed = false; exit_code = pos 0; exit_err = none });
  wg = m.wg + 1;
  phase = put m.phase t (watching req.id sess (broker_of req t));
}

-- The locked part of Start: register, or undo when Shutdown came first.
unfoldable pub register :
    ℕ → StartRequest → Runtime → ℕ → ℕ → Manager → Option (Manager × Option Error)
unfolding close_hub and_then
register t req rt sess pid m =
    if m.stopped
    then and_then
        (λ m'. (become t over (record m' { stops = m'.stops ++ sess ∷ [] }), some manager_stopped))
        (close_hub (broker_of req t) m)
    else (some (registered_in t req rt sess pid m, none))

unfoldable pub launched :
    ℕ → StartRequest → Runtime → Launch → Manager → Option (Manager × Option Error)
unfolding register close_hub and_then record_state emit
launched t req rt (refused text) m =
    and_then
      (λ m'.
        let m₁ = record_state req.id failed 0 (some (pos 1)) m' in
        (become t over (emit req.id launching failed (some (pos 1)) text m₁), some (reported text)))
      (close_hub (broker_of req t) m)
launched t req rt (session sess pid) m =
    let m₁ = record_state req.id running pid none m in
    register t req rt sess pid (emit req.id launching running none "" m₁)

unfoldable pub launch_phase : ℕ → Launch → Manager → Phase → Option (Manager × Option Error)
unfolding launched
launch_phase t l m (starting req rt) = launched t req rt l m
launch_phase t l m other = some (m, none)

-- The rest of Start, once Runtime.Start has answered.
unfoldable pub finish_start : ℕ → Launch → Manager → Option (Manager × Option Error)
unfolding launch_phase
finish_start t l m = launch_phase t l m (m.phase t)
