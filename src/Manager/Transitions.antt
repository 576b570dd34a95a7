-- ===== src/Manager/Transitions.antt =====
-- Every step of agentsessions/manager.go tells its sinks what a session's life allows.
use go_agent_sessions.Prelude.{
  suc, ℕ, zero, ◌≡◌, refl, Bool, true, false, Option, none, some, nat_eq, string_eq, ◌==◌, if-elim,
  Option-elim,
}
use go_agent_sessions.Prelude.Int.{ℤ, pos, negsuc}
use go_agent_sessions.Supervision.{is_zero}
use go_agent_sessions.Attach.{close}
use go_agent_sessions.Manager.State.{
  created, launching, running, failed, Error, Runtime, StartRequest, Phase, over, starting,
  watching, delivering, attached, Manager,
}
use go_agent_sessions.Manager.Launch.{
  Launch, refused, session, start, close_hub, broker_of, and_then, register, launched, launch_phase,
}
use go_agent_sessions.Manager.Watch.{
  wait_phase, terminal, deliver_result, delivered, wg_done, deliver_phase,
}
use go_agent_sessions.Manager.Announce.{announce}
use go_agent_sessions.Manager.Telling.{allowed, Told, told_of-Told, announce-Told}

-- Where a step returns.
abbrev pub MayTold : Option Manager → Type 0
MayTold o = elim o [ none ↦ Unit {0} | some m ↦ Told m ]

abbrev pub MayTold₂ : Option (Manager × Option Error) → Type 0
MayTold₂ o = elim o [ none ↦ Unit {0} | some r ↦ Told r.0 ]

close_hub-Told : (b : Option ℕ) (m : Manager) → Told m → MayTold (close_hub b m)
unfolding close_hub
close_hub-Told none m t = t
close_hub-Told (some b) m t =
    Option-elim MayTold (close (m.hub b)) tt (λ h. told_of-Told m _ refl t)

and_then-Told :
    (f : Manager → Manager × Option Error) (o : Option Manager)
    → MayTold o
    → ((m : Manager) → Told m → Told (f m).0)
    → MayTold₂ (and_then f o)
unfolding and_then
and_then-Told f none t go = tt
and_then-Told f (some m) t go = go m t

register-Told :
    (t : ℕ) (req : StartRequest) (rt : Runtime) (sess pid : ℕ) (m : Manager)
    → Told m
    → MayTold₂ (register t req rt sess pid m)
unfolding register
register-Told t req rt sess pid m told =
    if-elim MayTold₂ m.stopped
      (λ e.
        and_then-Told _ (close_hub (broker_of req t) m) (close_hub-Told (broker_of req t) m told)
          (λ n u. told_of-Told n _ refl u))
      (λ e. told_of-Told m _ refl told)

launched-Told :
    (t : ℕ) (req : StartRequest) (rt : Runtime) (l : Launch) (m : Manager)
    → Told m
    → MayTold₂ (launched t req rt l m)
unfolding launched allowed is_zero
launched-Told t req rt (refused text) m told =
    and_then-Told _ (close_hub (broker_of req t) m) (close_hub-Told (broker_of req t) m told)
      (λ n u.
        told_of-Told (announce req.id failed launching failed 0 (some (pos 1)) text n) _ refl
          (announce-Told req.id launching failed 0 (some (pos 1)) text n refl u))
launched-Told t req rt (session sess pid) m told =
    register-Told t req rt sess pid (announce req.id running launching running pid none "" m)
      (announce-Told req.id launching running pid none "" m refl told)

pub launch_phase-Told :
    (t : ℕ) (l : Launch) (m : Manager) (p : Phase) → Told m → MayTold₂ (launch_phase t l m p)
unfolding launch_phase
launch_phase-Told t l m (starting req rt) told = launched-Told t req rt l m told
launch_phase-Told t l m over told = told
launch_phase-Told t l m (watching id sess b) told = told
launch_phase-Told t l m (delivering id sess b k c e r) told = told
launch_phase-Told t l m (attached e b i a) told = told

pub start-Told : (req : StartRequest) (m : Manager) → Told m → Told (start req m).0
unfolding start allowed
start-Told req m told =
    if-elim (λ (r : Manager × Option Error). Told r.0) (req.id == "") (λ e. told)
      (λ e.
        Option-elim (λ (r : Manager × Option Error). Told r.0) req.runtime told
          (λ rt.
            if-elim (λ (r : Manager × Option Error). Told r.0) m.stopped (λ f. told)
              (λ f.
                told_of-Told (announce req.id launching created launching 0 none "" m) _ refl
                  (announce-Told req.id created launching 0 none "" m refl told))))

pub wait_phase-Told :
    (t : ℕ) (code : ℤ) (err : Option Error) (m : Manager) (p : Phase)
    → Told m
    → Told (wait_phase t code err m p)
unfolding wait_phase
wait_phase-Told t code err m (watching id sess b) told = told_of-Told m _ refl told
wait_phase-Told t code err m over told = told
wait_phase-Told t code err m (starting req rt) told = told
wait_phase-Told t code err m (delivering id sess b k c e r) told = told
wait_phase-Told t code err m (attached e b i a) told = told

deliver_result-Told :
    (code : ℤ) (err : Option Error) (r : Option ℕ) (m : Manager)
    → Told m
    → MayTold (deliver_result code err r m)
unfolding deliver_result
deliver_result-Told code err none m told = told
deliver_result-Told code err (some r) m told =
    if-elim MayTold (m.result r).closed (λ e. tt) (λ e. told_of-Told m _ refl told)

delivered_after-Told :
    (code : ℤ) (err : Option Error) (r : Option ℕ) (o : Option Manager)
    → MayTold o
    → MayTold (elim o [ none ↦ none | some m ↦ deliver_result code err r m ])
delivered_after-Told code err r none told = tt
delivered_after-Told code err r (some m) told = deliver_result-Told code err r m told

wg_done-Told : (t : ℕ) (o : Option Manager) → MayTold o → MayTold (wg_done t o)
unfolding wg_done
wg_done-Told t none told = tt
wg_done-Told t (some m) told =
    if-elim MayTold (m.wg == 0) (λ e. tt) (λ e. told_of-Told m _ refl told)

terminal-allowed :
    (killing : Bool) (code : ℤ) → allowed running (terminal killing code) (some code) ≡ true
unfolding allowed terminal is_zero
terminal-allowed true code = refl
terminal-allowed false (pos zero) = refl
terminal-allowed false (pos (suc n)) = refl
terminal-allowed false (negsuc n) = refl

pub deliver_phase-Told :
    (t pid : ℕ) (m : Manager) (p : Phase) → Told m → MayTold (deliver_phase t pid m p)
unfolding deliver_phase delivered
deliver_phase-Told t pid m (delivering id sess b killing code err r) told =
    let s = terminal killing code in
    let m₁ = announce id s running s pid (some code) "" m in
    wg_done-Told t _ (
      delivered_after-Told code err r (close_hub b m₁) (
        close_hub-Told b m₁
          (announce-Told id running s pid (some code) "" m (terminal-allowed killing code) told)))
deliver_phase-Told t pid m over told = told
deliver_phase-Told t pid m (starting req rt) told = told
deliver_phase-Told t pid m (watching id sess b) told = told
deliver_phase-Told t pid m (attached e b i a) told = told
