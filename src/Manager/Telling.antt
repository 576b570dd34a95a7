-- ===== src/Manager/Telling.antt =====
-- What agentsessions/manager.go tells its StateSink and its EventSink.
use go_agent_sessions.Prelude.{
  arith, ℕ, ◌≡◌, refl, ap, sym, subst, ◌∙◌, Bool, true, false, not, ◌&&◌, Option, none, some, List,
  [], ◌∷◌, ◌++◌, map, String, if◌then◌else◌, nat_eq, string_eq,
}
use mathlib.Core.List.{map-append}
use go_agent_sessions.Prelude.Int.{ℤ}
use go_agent_sessions.Supervision.{is_zero}
use go_agent_sessions.Manager.State.{
  State, created, launching, running, done, failed, StateRecord, LifecycleEvent, Manager,
  record_state, emit,
}
use go_agent_sessions.Manager.Announce.{announce}

-- The transitions of a session, with the exit code that each is told with.
unfoldable pub allowed : State → State → Option ℤ → Bool
allowed created launching none = true
allowed launching running none = true
allowed launching failed (some code) = not (is_zero code)
allowed running done (some code) = true
allowed running failed (some code) = not (is_zero code)
allowed from to exit = false

unfoldable pub all_allowed : List LifecycleEvent → Bool
unfolding allowed
all_allowed [] = true
all_allowed (e ∷ es) = allowed e.from e.to e.exit_code && all_allowed es

-- A transition as the StateSink has it, and as the EventSink has it.
abbrev pub recorded : StateRecord → String × State × Option ℤ
recorded r = (r.id, r.state, r.exit)

abbrev pub emitted : LifecycleEvent → String × State × Option ℤ
emitted e = (e.session_id, e.to, e.exit_code)

all_allowed-append :
    (es : List LifecycleEvent) (e : LifecycleEvent)
    → all_allowed es ≡ true
    → allowed e.from e.to e.exit_code ≡ true
    → all_allowed (es ++ e ∷ []) ≡ true
unfolding all_allowed
all_allowed-append [] e p q = rw q refl
all_allowed-append (x ∷ xs) e p q = let rest = all_allowed-append xs e in ground (arith, p, q, rest)

-- Both sinks are set, and have been told the same transitions, each of them allowed.
pub record Told (m : Manager) : Type 0 where
  pub sink : m.has_sink ≡ true
  pub events_on : m.has_events ≡ true
  pub same : map recorded m.states ≡ map emitted m.events
  pub legal : all_allowed m.events ≡ true

-- The sinks, and what they have been told.
abbrev pub told_of : Manager → Bool × Bool × List StateRecord × List LifecycleEvent
told_of m = (m.has_sink, m.has_events, m.states, m.events)

pub told_of-Told : (m m' : Manager) → told_of m' ≡ told_of m → Told m → Told m'
told_of-Told m m' q t = record {
  sink = ap (λ x. x.0) q ∙ t.sink;
  events_on = ap (λ x. x.1) q ∙ t.events_on;
  same = ap (λ x. map recorded x.2) q ∙ t.same ∙ sym (ap (λ x. map emitted x.3) q);
  legal = ap (λ x. all_allowed x.3) q ∙ t.legal;
}

if_true : (b : Bool) (m n : Manager) → b ≡ true → (if b then m else n) ≡ m
if_true true m n e = refl
if_true false m n e = absurd (cc e)

-- A sink that is set gets the transition.
record_state_lem :
    (id : String) (to : State) (pid : ℕ) (x : Option ℤ) (m : Manager)
    → m.has_sink ≡ true
    → record_state id to pid x m
      ≡ record m { states = m.states ++ record { id = id; state = to; pid = pid; exit = x } ∷ [] }
unfolding record_state
record_state_lem id to pid x m h = if_true m.has_sink _ m h

emit_lem :
    (id : String) (from to : State) (x : Option ℤ) (reason : String) (m : Manager)
    → m.has_events ≡ true
    → emit id from to x reason m ≡ record m {
      events =
          m.events
          ++ record { session_id = id; from = from; to = to; exit_code = x; reason = reason } ∷ [];
    }
unfolding emit
emit_lem id from to x reason m h = if_true m.has_events _ m h

pub announce-Told :
    (id : String) (from to : State) (pid : ℕ) (x : Option ℤ) (reason : String) (m : Manager)
    → allowed from to x ≡ true
    → Told m
    → Told (announce id to from to pid x reason m)
announce-Told id from to pid x reason m ok t =
    let r : StateRecord = record { id = id; state = to; pid = pid; exit = x } in
    let ev : LifecycleEvent = record {
      session_id = id;
      from = from;
      to = to;
      exit_code = x;
      reason = reason;
    } in
    let m₁ : Manager = record m { states = m.states ++ r ∷ [] } in
    subst Told
      (sym (
        ap (emit id from to x reason) (record_state_lem id to pid x m t.sink)
        ∙ emit_lem id from to x reason m₁ t.events_on))
      (record {
        sink = t.sink;
        events_on = t.events_on;
        same =
            map-append recorded m.states (r ∷ [])
            ∙ ap (λ l. l ++ (id, to, x) ∷ []) t.same
            ∙ sym (map-append emitted m.events (ev ∷ []));
        legal = all_allowed-append m.events ev t.legal ok;
      })
