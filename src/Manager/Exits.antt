-- ===== src/Manager/Exits.antt =====
-- Why no goroutine of agentsessions/manager.go closes a result twice, as long as an id is started
-- again only after its session has been unregistered.
use go_agent_sessions.Prelude.{◌≡◌, refl, ap, subst, Bool, some, List, [], ◌∷◌, nat_eq, string_eq}
use go_agent_sessions.Prelude.Assoc.{lookup}
use go_agent_sessions.Prelude.Int.{pos}
use go_agent_sessions.Attach.Safety as Safety
use go_agent_sessions.Manager.State.{Manager, put}
use go_agent_sessions.Manager.Moves.{
  new_manager, broker_op, state_of, Move, starts, launches, wait_ends, delivers, stops, shuts_down,
  attaches, detaches, broker_ops, step, run,
}
use go_agent_sessions.Manager.Counting.{busy}
use go_agent_sessions.Manager.Invariant.{
  Inv, Allowed, After, AllowedRun, put_hub-Inv, wait_phase-Inv,
}
use go_agent_sessions.Manager.Announce.{Steps}
use go_agent_sessions.Manager.Registering.{start-Inv, launch_phase-Inv}
use go_agent_sessions.Manager.Delivering.{deliver_phase-Inv, stop_found-Inv, shutdown-Inv}
use go_agent_sessions.Manager.Attaching.{attach_found-Inv, detach_phase-Inv}

-- Every move that `Allowed` admits returns, and keeps the invariant.
step-Inv : (o : Move) (m : Manager) → Allowed o m → Inv m → Steps o m
unfolding step
step-Inv (starts req) m a v = (_, refl, start-Inv req m v)
step-Inv (launches t l) m a v =
    let (r, e, w) = launch_phase-Inv t l m (m.phase t) refl a v in (r.0, ap state_of e, w)
step-Inv (wait_ends t code err) m a v = (_, refl, wait_phase-Inv t code err m (m.phase t) refl v)
step-Inv (delivers t pid) m a v = deliver_phase-Inv t pid m (m.phase t) refl v
step-Inv (stops id) m a v = (_, refl, stop_found-Inv m (lookup id m.registry) v)
step-Inv shuts_down m a v = (_, refl, shutdown-Inv m v)
step-Inv (attaches id opts attach_id now) m a v =
    (_, refl, attach_found-Inv id opts attach_id now m (lookup id m.registry) v)
step-Inv (detaches t now) m a v = detach_phase-Inv t now m (m.phase t) refl v
step-Inv (broker_ops b o) m a v =
    let (h, e, w) = Safety.step-Inv o (m.hub b) (v.brokers b) in
    (record m { hub = put m.hub b h }, rw (e, broker_op), put_hub-Inv b h m w v)

run-Inv :
    (os : List Move) (m : Manager)
    → AllowedRun os m
    → Inv m
    → (m' : Manager) × (run os m ≡ some m') × Inv m'
unfolding run
run-Inv [] m a v = (m, refl, v)
run-Inv (o ∷ os) m a v =
    let (m₁, e, v₁) = step-Inv o m a.0 v in
    let (m₂, e', v₂) = run-Inv os m₁ (subst (After (AllowedRun os)) e a.1) v₁ in
    (m₂, rw (e, run) e', v₂)

new_manager-Inv : (s a e : Bool) → Inv (new_manager s a e)
unfolding new_manager lookup busy
new_manager-Inv s a e = record {
  watches = λ t. tt;
  registered = λ id t h. absurd (cc h);
  unborn = λ t h. refl;
  brokers = λ b. Safety.fresh_hub-Inv (pos 0) (pos 0);
  counted = refl;
}

-- No schedule of starts, exits, stops, attachments, output and a shutdown makes a goroutine of the
-- Manager panic, provided that an id is registered only while no session of that id is: each
-- schedule runs to its end, and then the registry has exactly the sessions that are watched, and
-- the WaitGroup counts the goroutines that watch or deliver. A panic is a send on a closed channel,
-- a second close of a channel, or a WaitGroup counted below zero.
pub manager_run-total :
    (has_sink has_attach_sink has_events : Bool) (os : List Move)
    → AllowedRun os (new_manager has_sink has_attach_sink has_events)
    → (m : Manager) × (run os (new_manager has_sink has_attach_sink has_events) ≡ some m) × Inv m
manager_run-total s a e os ok = run-Inv os _ ok (new_manager-Inv s a e)
