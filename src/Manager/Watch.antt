-- ===== src/Manager/Watch.antt =====
-- agentsessions/manager.go: watch, Stop, Get, List, Shutdown and WaitSession.
use go_agent_sessions.Prelude.{
  ℕ, zero, suc, ◌-◌, Bool, true, false, Option, none, some, List, [], ◌∷◌, ◌++◌, String, map,
  if◌then◌else◌, nat_eq, string_eq, ◌==◌,
}
use go_agent_sessions.Prelude.Assoc.{lookup, delete}
use go_agent_sessions.Prelude.Int.{ℤ, pos, negsuc}
use go_agent_sessions.Manager.State.{
  Error, Manager, Phase, SessionInfo, State, become, delivering, done, emit, failed, over, put,
  record_state, running, session_not_running, watching,
}
use go_agent_sessions.Manager.Launch.{close_hub}

-- `if e, ok := m.registry[id]; ok { killing = e.killing; delete(m.registry, id) }`
abbrev pub killing_of : Manager → Option ℕ → Bool
killing_of m none = false
killing_of m (some e) = (m.entry e).killing

unfoldable pub wait_phase : ℕ → ℤ → Option Error → Manager → Phase → Manager
unfolding delete lookup
wait_phase t code err m (watching id sess broker) = record m {
  registry = delete id m.registry;
  phase = put m.phase t (
      delivering id sess broker (killing_of m (lookup id m.registry)) code err
        (lookup id m.results));
}
wait_phase t code err m other = m

-- `watch`: Session.Wait has returned, and the entry is unregistered under the lock.
unfoldable pub wait_returns : ℕ → ℤ → Option Error → Manager → Manager
unfolding wait_phase
wait_returns t code err m = wait_phase t code err m (m.phase t)

-- The terminal state: done when Stop asked for the end or the code is 0.
unfoldable pub terminal : Bool → ℤ → State
terminal true code = done
terminal false (pos zero) = done
terminal false (pos (suc n)) = failed
terminal false (negsuc n) = failed

-- result.exitCode = code; result.exitErr = waitErr; close(result.done)
unfoldable pub deliver_result : ℤ → Option Error → Option ℕ → Manager → Option Manager
deliver_result code err none m = some m
deliver_result code err (some r) m =
    if (m.result r).closed
    then none
    else (some (record m {
      result = put m.result r (record { closed = true; exit_code = code; exit_err = err });
    }))

unfoldable pub delivered : Option ℕ → ℤ → Option Error → Option ℕ → Manager → Option Manager
unfolding close_hub deliver_result
delivered broker code err result m = elim (close_hub broker m) [
  | none ↦ none
  | some m' ↦ deliver_result code err result m'
]

-- defer m.wg.Done(), which panics when nothing is left to count down.
unfoldable pub wg_done : ℕ → Option Manager → Option Manager
wg_done t none = none
wg_done t (some m) = if m.wg == 0 then none else (some (become t over (record m { wg = m.wg - 1 })))

unfoldable pub deliver_phase : ℕ → ℕ → Manager → Phase → Option Manager
unfolding delivered wg_done terminal record_state emit
deliver_phase t pid m (delivering id sess broker killing code err result) =
    let state = terminal killing code in
    let m₁ = record_state id state pid (some code) m in
    let m₂ = emit id running state (some code) "" m₁ in
    wg_done t (delivered broker code err result m₂)
deliver_phase t pid m other = some m

-- `watch`, from the unlock to the end; `pid` is that of the session's Health.
unfoldable pub deliver : ℕ → ℕ → Manager → Option Manager
unfolding deliver_phase
deliver t pid m = deliver_phase t pid m (m.phase t)

unfoldable pub stop_found : Manager → Option ℕ → Manager × Option Error
stop_found m none = (m, some session_not_running)
stop_found m (some e) = (
  record m {
    entry = put m.entry e (record (m.entry e) { killing = true });
    stops = m.stops ++ (m.entry e).sess ∷ [];
  },
  none,
)

-- Stop marks the entry and calls Session.Stop, whose own error it returns.
unfoldable pub stop : String → Manager → Manager × Option Error
unfolding stop_found lookup
stop id m = stop_found m (lookup id m.registry)

-- Get: the snapshot of a registered session.
unfoldable pub get : String → Manager → Option SessionInfo
unfolding lookup
get id m = elim (lookup id m.registry) [
  | none ↦ none
  | some e ↦ some (record ((m.entry e).info) { attached_clients = (m.entry e).attach_count })
]

-- List: one snapshot for each entry of the map.
unfoldable pub list_sessions : Manager → List SessionInfo
list_sessions m =
    map
      (λ (k : String × ℕ). record ((m.entry k.1).info) {
        attached_clients = (m.entry k.1).attach_count;
      })
      m.registry

-- Shutdown marks the Manager; the first caller then waits for `wg`, a later one returns at once.
unfoldable pub shutdown : Manager → Manager × Bool
shutdown m = if m.stopped then (m, false) else (record m { stopped = true }, true)

-- The wait of the first Shutdown ends.
abbrev pub wg_is_zero : Manager → Bool
wg_is_zero m = m.wg == 0

-- What WaitSession sees: no such session, a wait, or the verbatim result.
pub data Waited : Type 0 where
  never_registered : Waited
  waits : Waited
  exited : ℤ → Option Error → Waited

unfoldable pub wait_session : String → Manager → Waited
unfolding lookup
wait_session id m = elim (lookup id m.results) [
  | none ↦ never_registered
  | some r ↦
      if (m.result r).closed then exited (m.result r).exit_code (m.result r).exit_err else waits
]
