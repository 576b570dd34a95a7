-- ===== src/Manager/Announce.antt =====
-- The calls on the sinks in agentsessions/manager.go leave the registry and the results alone.
use go_agent_sessions.Prelude.{
  ℕ, ◌≡◌, ◌∙◌, Bool, true, false, Option, none, some, String, arith, nat_eq, string_eq,
  if◌then◌else◌,
}
use go_agent_sessions.Prelude.Int.{ℤ}
use go_agent_sessions.Attach.{Hub}
use go_agent_sessions.Attach.Live as Live
use go_agent_sessions.Manager.State.{State, record_state, emit, Manager, Runtime, Error}
use go_agent_sessions.Manager.Moves.{Move, step}
use go_agent_sessions.Manager.Invariant.{Inv}

-- What a move does to a Manager that satisfies the invariant: it returns, and keeps it.
abbrev pub Steps : Move → Manager → Type 0
Steps o m = (m' : Manager) × (step o m ≡ some m') × Inv m'

pub if-Inv : (b : Bool) (m n : Manager) → Inv m → Inv n → Inv (if b then m else n)
if-Inv true m n v w = v
if-Inv false m n v w = w

-- The managers differ in what the sinks and sessions were told at most.
pub record Aside (m m' : Manager) : Type 0 where
  pub registry : m'.registry ≡ m.registry
  pub results : m'.results ≡ m.results
  pub phase : m'.phase ≡ m.phase
  pub result : m'.result ≡ m.result
  pub hub : m'.hub ≡ m.hub
  pub wg : m'.wg ≡ m.wg
  pub next : m'.next ≡ m.next

record_state-Aside :
    (id : String) (s : State) (pid : ℕ) (x : Option ℤ) (m : Manager)
    → Aside m (record_state id s pid x m)
unfolding record_state
record_state-Aside id s pid x m = record {
  registry = ground arith;
  results = ground arith;
  phase = ground arith;
  result = ground arith;
  hub = ground arith;
  wg = ground arith;
  next = ground arith;
}

emit-Aside :
    (id : String) (from to : State) (x : Option ℤ) (reason : String) (m : Manager)
    → Aside m (emit id from to x reason m)
unfolding emit
emit-Aside id from to x reason m = record {
  registry = ground arith;
  results = ground arith;
  phase = ground arith;
  result = ground arith;
  hub = ground arith;
  wg = ground arith;
  next = ground arith;
}

-- A transition is recorded and emitted.
abbrev pub announce : String → State → State → State → ℕ → Option ℤ → String → Manager → Manager
announce id s from to pid x reason m = emit id from to x reason (record_state id s pid x m)

pub announce-Aside :
    (id : String) (s from to : State) (pid : ℕ) (x : Option ℤ) (reason : String) (m : Manager)
    → Aside m (announce id s from to pid x reason m)
announce-Aside id s from to pid x reason m =
    let a₁ = record_state-Aside id s pid x m in
    let a₂ = emit-Aside id from to x reason (record_state id s pid x m) in
    record {
      registry = a₂.registry ∙ a₁.registry;
      results = a₂.results ∙ a₁.results;
      phase = a₂.phase ∙ a₁.phase;
      result = a₂.result ∙ a₁.result;
      hub = a₂.hub ∙ a₁.hub;
      wg = a₂.wg ∙ a₁.wg;
      next = a₂.next ∙ a₁.next;
    }

record_state-Inv :
    (id : String) (s : State) (pid : ℕ) (x : Option ℤ) (m : Manager)
    → Inv m
    → Inv (record_state id s pid x m)
unfolding record_state
record_state-Inv id s pid x m v =
    if-Inv m.has_sink _ m
      (record {
        watches = v.watches;
        registered = v.registered;
        unborn = v.unborn;
        brokers = v.brokers;
        counted = v.counted;
      })
      v

emit-Inv :
    (id : String) (from to : State) (x : Option ℤ) (reason : String) (m : Manager)
    → Inv m
    → Inv (emit id from to x reason m)
unfolding emit
emit-Inv id from to x reason m v =
    if-Inv m.has_events _ m
      (record {
        watches = v.watches;
        registered = v.registered;
        unborn = v.unborn;
        brokers = v.brokers;
        counted = v.counted;
      })
      v

pub announce-Inv :
    (id : String) (s from to : State) (pid : ℕ) (x : Option ℤ) (reason : String) (m : Manager)
    → Inv m
    → Inv (announce id s from to pid x reason m) × Aside m (announce id s from to pid x reason m)
announce-Inv id s from to pid x reason m v = (
  emit-Inv id from to x reason _ (record_state-Inv id s pid x m v),
  announce-Aside id s from to pid x reason m,
)

pub if-fst :
    {E : Type 0} (b : Bool) (x y : Manager × E) → Inv x.0 → Inv y.0 → Inv (if b then x else y).0
if-fst true x y v w = v
if-fst false x y v w = w

pub elim-fst :
    (o : Option Runtime) (x : Manager × Option Error) (f : Runtime → Manager × Option Error)
    → Inv x.0
    → ((rt : Runtime) → Inv (f rt).0)
    → let y : Manager × Option Error = elim o [ none ↦ x | some rt ↦ f rt ] in Inv y.0
elim-fst none x f v w = v
elim-fst (some rt) x f v w = w rt

pub if-brokers :
    (c : Bool) (f g : ℕ → Hub)
    → ((b : ℕ) → Live.Inv (f b))
    → ((b : ℕ) → Live.Inv (g b))
    → (b : ℕ) → Live.Inv ((if c then f else g) b)
if-brokers true f g v w = v
if-brokers false f g v w = w
