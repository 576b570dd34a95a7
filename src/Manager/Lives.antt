-- ===== src/Manager/Lives.antt =====
-- A session's life as agentsessions/manager.go tells it, in any schedule.
use go_agent_sessions.Prelude.{
  ℕ, ◌≡◌, refl, subst, Bool, true, Option, none, some, List, [], ◌∷◌, map, String, if◌then◌else◌,
  nat_eq, string_eq, ◌==◌, if-elim, Option-elim,
}
use mathlib.Core.List.{Perm}
use mathlib.Core.List.Perm
use go_agent_sessions.Prelude.Assoc.{lookup}
use go_agent_sessions.Attach.{Op, cancel, step as hub_step}
use go_agent_sessions.Manager.State.{
  create_client, detach_client, Attachment, Error, Phase, over, starting, watching, delivering,
  attached, Manager,
}
use go_agent_sessions.Manager.Watch.{stop_found, shutdown}
use go_agent_sessions.Manager.Clients.{
  AttachOptions, record_attachment, attach_entry, attach_found, cancel_hub, detached, subscribe_hub,
  count_client, uncount_client, detach_phase,
}
use go_agent_sessions.Manager.Moves.{
  broker_op, Move, starts, launches, wait_ends, delivers, stops, shuts_down, attaches, detaches,
  broker_ops, step, run, new_manager, state_of,
}
use go_agent_sessions.Manager.Telling.{all_allowed, recorded, emitted, Told, told_of-Told}
use go_agent_sessions.Manager.Transitions.{
  MayTold, MayTold₂, start-Told, launch_phase-Told, wait_phase-Told, deliver_phase-Told,
}
use go_agent_sessions.Manager.Invariant.{AllowedRun}
use go_agent_sessions.Manager.Exits.{manager_run-total}

stop_found-Told : (m : Manager) (o : Option ℕ) → Told m → Told (stop_found m o).0
unfolding stop_found
stop_found-Told m none told = told
stop_found-Told m (some e) told = told_of-Told m _ refl told

shutdown-Told : (m : Manager) → Told m → Told (shutdown m).0
unfolding shutdown
shutdown-Told m told =
    if-elim (λ (r : Manager × Bool). Told r.0) m.stopped (λ e. told)
      (λ e. told_of-Told m _ refl told)

record_attachment-Told : (a : Attachment) (m : Manager) → Told m → Told (record_attachment a m)
unfolding record_attachment
record_attachment-Told a m told =
    if-elim Told m.has_attach_sink (λ e. told_of-Told m _ refl told) (λ e. told)

attach_entry-Told :
    (id : String) (opts : AttachOptions) (attach_id : String) (now : ℕ) (m : Manager) (e : ℕ)
    (o : Option ℕ)
    → Told m
    → Told (attach_entry id opts attach_id now m e o).0
unfolding attach_entry subscribe_hub count_client
attach_entry-Told id opts attach_id now m e none told = told
attach_entry-Told id opts attach_id now m e (some b) told =
    let kind = if opts.client_kind == "" then "cli" else opts.client_kind in
    told_of-Told _ _ refl (record_attachment-Told (create_client attach_id id kind now) m told)

attach_found-Told :
    (id : String) (opts : AttachOptions) (attach_id : String) (now : ℕ) (m : Manager) (o : Option ℕ)
    → Told m
    → Told (attach_found id opts attach_id now m o).0
unfolding attach_found
attach_found-Told id opts attach_id now m none told = told
attach_found-Told id opts attach_id now m (some e) told =
    attach_entry-Told id opts attach_id now m e (m.entry e).broker told

detached-Told :
    (t e : ℕ) (attach_id : String) (now : ℕ) (o : Option Manager)
    → MayTold o
    → MayTold (detached t e attach_id now o)
unfolding detached uncount_client
detached-Told t e attach_id now none told = tt
detached-Told t e attach_id now (some m) told = told_of-Told _ _ refl (
    record_attachment-Told (detach_client attach_id now) (uncount_client e m)
      (told_of-Told m _ refl told))

cancel_hub-Told : (b : ℕ) (i : Option ℕ) (m : Manager) → Told m → MayTold (cancel_hub b i m)
unfolding cancel_hub
cancel_hub-Told b none m told = told
cancel_hub-Told b (some i) m told =
    Option-elim MayTold (cancel i (m.hub b)) tt (λ h. told_of-Told m _ refl told)

detach_phase-Told :
    (t now : ℕ) (m : Manager) (p : Phase) → Told m → MayTold (detach_phase t now m p)
unfolding detach_phase
detach_phase-Told t now m (attached e b i attach_id) told =
    detached-Told t e attach_id now (cancel_hub b i m) (cancel_hub-Told b i m told)
detach_phase-Told t now m over told = told
detach_phase-Told t now m (starting req rt) told = told
detach_phase-Told t now m (watching id sess b) told = told
detach_phase-Told t now m (delivering id sess b k c e r) told = told

broker_op-Told : (b : ℕ) (o : Op) (m : Manager) → Told m → MayTold (broker_op b o m)
unfolding broker_op
broker_op-Told b o m told =
    Option-elim MayTold (hub_step o (m.hub b)) tt (λ h. told_of-Told m _ refl told)

state_of-Told : (o : Option (Manager × Option Error)) → MayTold₂ o → MayTold (state_of o)
unfolding state_of
state_of-Told none told = told
state_of-Told (some (m, e)) told = told

step-Told : (o : Move) (m : Manager) → Told m → MayTold (step o m)
unfolding step
step-Told (starts req) m told = start-Told req m told
step-Told (launches t l) m told = state_of-Told _ (launch_phase-Told t l m (m.phase t) told)
step-Told (wait_ends t code err) m told = wait_phase-Told t code err m (m.phase t) told
step-Told (delivers t pid) m told = deliver_phase-Told t pid m (m.phase t) told
step-Told (stops id) m told = stop_found-Told m (lookup id m.registry) told
step-Told shuts_down m told = shutdown-Told m told
step-Told (attaches id opts attach_id now) m told =
    attach_found-Told id opts attach_id now m (lookup id m.registry) told
step-Told (detaches t now) m told = detach_phase-Told t now m (m.phase t) told
step-Told (broker_ops b o) m told = broker_op-Told b o m told

after-Told :
    (f : Manager → Option Manager) (r : Option Manager)
    → ((m : Manager) → Told m → MayTold (f m))
    → MayTold r
    → MayTold (elim r [ none ↦ none | some m ↦ f m ])
after-Told f none go told = tt
after-Told f (some m) go told = go m told

run-Told : (os : List Move) (m : Manager) → Told m → MayTold (run os m)
unfolding run
run-Told [] m told = told
run-Told (o ∷ os) m told = after-Told (run os) (step o m) (run-Told os) (step-Told o m told)

new_manager-Told : (has_attach_sink : Bool) → Told (new_manager true has_attach_sink true)
unfolding new_manager all_allowed
new_manager-Told a = record { sink = refl; events_on = refl; same = refl; legal = refl }

-- A Manager with a StateSink and an EventSink tells both, in any schedule that `AllowedRun` admits,
-- the same transitions with the same exit codes, each as often to the one as to the other; and each
-- of them is one that a session's life has: from created to launching, from there to running, or to
-- failed with a code other than 0, and from running to done with a code, or to failed with a code
-- other than 0.
pub manager_run-Told :
    (has_attach_sink : Bool) (os : List Move)
    → AllowedRun os (new_manager true has_attach_sink true)
    → (m : Manager) × (run os (new_manager true has_attach_sink true) ≡ some m)
      × Perm (map recorded m.states) (map emitted m.events)
      × (all_allowed m.events ≡ true)
manager_run-Told a os ok =
    let (m, e, v) = manager_run-total true a true os ok in
    let told = subst MayTold e (run-Told os (new_manager true a true) (new_manager-Told a)) in
    (m, e, subst (Perm (map recorded m.states)) told.same (Perm.refl _), told.legal)
