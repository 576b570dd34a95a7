-- ===== src/Manager/Reuse.antt =====
-- What agentsessions/manager.go does when an id is started again while its session runs: Start does
-- not look whether the id is registered, so the second session takes over both map entries.
use go_agent_sessions.Prelude.{
  ℕ, ◌==◌, ◌≡◌, ◌≢◌, refl, ap, ◌∙◌, sym, subst, ◌-◌, List, Bool, true, false, Option, none, some,
  [], ◌∷◌, String, arith, nat_eq, string_eq,
}
use go_agent_sessions.Prelude.Assoc.{lookup, delete, lookup-delete}
use text.Mathlib.TextEquality.{eq_iff}
use go_agent_sessions.Attach.{Hub, closes, close}
use go_agent_sessions.Attach as Attach
use go_agent_sessions.Attach.Safety as Safety
use go_agent_sessions.Prelude.Int.{ℤ}
use go_agent_sessions.Manager.State.{
  SessionResult, Manager, over, watching, delivering, Error, put, running, become,
}
use go_agent_sessions.Manager.Launch.{close_hub}
use go_agent_sessions.Manager.Watch.{
  wait_phase, killing_of, deliver_phase, delivered, deliver_result, wg_done, terminal, wait_session,
  exited, get,
}
use go_agent_sessions.Manager.Moves.{Move, wait_ends, delivers, run}
use go_agent_sessions.Manager.Counting.{counts}
use go_agent_sessions.Manager.Invariant.{Inv, Watches, put-elim, watched-counted}
use go_agent_sessions.Manager.Announce.{Aside, announce, announce-Aside}
use go_agent_sessions.Manager.Delivering.{delivered_lem}

put-same {ℓ} : {A : Type ℓ} (f : ℕ → A) (t : ℕ) (x : A) → put f t x t ≡ x
put-same f t x = put-elim (λ y. y ≡ x) f t x t (λ _. refl) (λ n. absurd (n refl))

put-other {ℓ} : {A : Type ℓ} (f : ℕ → A) (t u : ℕ) (x : A) → u ≢ t → put f t x u ≡ f u
put-other f t u x n = put-elim (λ y. y ≡ f u) f t x u (λ e. absurd (n e)) (λ _. refl)

goes_on : List Move → Option Manager → Option Manager
goes_on os none = none
goes_on os (some m) = run os m

-- The broker, if there is one, closes without a panic.
abbrev pub Closes : Option ℕ → (ℕ → Hub) → Type 0
Closes b hub =
    (n : Manager) → n.hub ≡ hub → (h : ℕ → Hub) × (close_hub b n ≡ some (record n { hub = h }))

no_broker-Closes : (hub : ℕ → Hub) → Closes none hub
unfolding close_hub
no_broker-Closes hub n e = (n.hub, refl)

step-closes : (h : Hub) → Attach.step closes h ≡ close h
unfolding Attach.step
step-closes h = refl

pub broker-Closes : (b : Option ℕ) (m : Manager) → Inv m → Closes b m.hub
unfolding close_hub
broker-Closes none m v n e = (n.hub, refl)
broker-Closes (some b) m v n e =
    let (h, closed, _) = Safety.step-Inv closes (m.hub b) (v.brokers b) in
    let closed' : close (n.hub b) ≡ some h =
      ap (λ f. close (f b)) e ∙ sym (step-closes (m.hub b)) ∙ closed in
    (put n.hub b h, rw (closed', close_hub))

module _ (id : String) (t s r pid : ℕ) (b : Option ℕ) (code : ℤ) (err : Option Error)
    (os : List Move) (m : Manager) (watched : m.phase t ≡ watching id s b)
    (res : lookup id m.results ≡ some r) (closing : Closes b m.hub) where
  killed : Bool
  killed = killing_of m (lookup id m.registry)

  -- The Manager once the entry is unregistered, and once the terminal state is announced.
  unregistered : Manager
  unregistered = record m {
    registry = delete id m.registry;
    phase = put m.phase t (delivering id s b killed code err (lookup id m.results));
  }

  told : Manager
  unfolding unregistered
  told =
      announce id (terminal killed code) running (terminal killed code) pid (some code) ""
        unregistered

  -- The exit of the session, as the two moves of its watcher.
  exit_moves :
      run (wait_ends t code err ∷ delivers t pid ∷ os) m
      ≡ goes_on os (wg_done t (delivered b code err (some r) told))
  unfolding run wait_phase deliver_phase goes_on told killed
  exit_moves =
      ap (λ p. run (delivers t pid ∷ os) (wait_phase t code err m p)) watched
      ∙ ap (λ p. goes_on os (deliver_phase t pid unregistered p))
          (put-same m.phase t (delivering id s b killed code err (lookup id m.results)))
      ∙ ap (λ q. goes_on os (wg_done t (delivered b code err q told))) res

  told-Aside : Aside unregistered told
  unfolding told
  told-Aside =
      announce-Aside id (terminal killed code) running (terminal killed code) pid (some code) ""
        unregistered

  -- A result that is closed already: the close panics.
  exit_again :
      (m.result r).closed ≡ true → run (wait_ends t code err ∷ delivers t pid ∷ os) m ≡ none
  unfolding goes_on wg_done delivered deliver_result unregistered
  exit_again shut =
      let e : (told.result r).closed ≡ true = ap (λ c. (c r).closed) told-Aside.result ∙ shut in
      let (h, closed) = closing told told-Aside.hub in exit_moves ∙ ground arith

  -- A result that is open: it is closed, and the other goroutines are as they were.
  exit_once :
      (m.result r).closed ≡ false
      → (m.wg == 0) ≡ false
      → (m' : Manager) × (run (wait_ends t code err ∷ delivers t pid ∷ os) m ≡ run os m')
        × ((u : ℕ) → u ≢ t → m'.phase u ≡ m.phase u)
        × (m'.results ≡ m.results)
        × (m'.result r ≡ record { closed = true; exit_code = code; exit_err = err })
        × (m'.registry ≡ delete id m.registry)
  unfolding goes_on unregistered
  exit_once o counted =
      let e : (told.result r).closed ≡ false = ap (λ c. (c r).closed) told-Aside.result ∙ o in
      let (h, closed) = closing told told-Aside.hub in
      (
        become t over (record told {
          hub = h;
          result = put told.result r (record { closed = true; exit_code = code; exit_err = err });
          wg = told.wg - 1;
        }),
        exit_moves
            ∙ ap (goes_on os) (
                delivered_lem t r b code err told h closed e
                  (ap (λ n. n == 0) told-Aside.wg ∙ counted)),
        λ u n.
            put-other told.phase t u over n
            ∙ ap (λ f. f u) told-Aside.phase
            ∙ put-other m.phase t u _ n,
        told-Aside.results,
        put-same told.result r _,
        told-Aside.registry,
      )

-- Two goroutines watch sessions of one id, and the map of results holds the second's: when both
-- sessions have ended, the second close of that result's channel panics.
pub same_id_panics :
    (id : String) (t u s s' : ℕ) (code code' : ℤ) (err err' : Option Error) (pid pid' : ℕ)
    (m : Manager)
    → t ≢ u
    → m.phase t ≡ watching id s none
    → m.phase u ≡ watching id s' none
    → lookup id m.results ≡ some u
    → (m.result u).closed ≡ false
    → (m.wg == 0) ≡ false
    → run (wait_ends t code err ∷ delivers t pid ∷ wait_ends u code' err' ∷ delivers u pid' ∷ []) m
      ≡ none
same_id_panics id t u s s' code code' err err' pid pid' m n pt pu res open_ counted =
    let (m', e, same, results, shut, _) =
      exit_once id t s u pid none code err (wait_ends u code' err' ∷ delivers u pid' ∷ []) m pt res
        (no_broker-Closes m.hub) open_ counted in
    e
    ∙ exit_again id u s' u pid' none code' err' [] m' (same u (λ x. n (sym x)) ∙ pu)
        (ap (lookup id) results ∙ res) (no_broker-Closes m'.hub)
        (ap (λ (c : SessionResult). c.closed) shut)

-- When the Session.Wait of a registered session returns, its watcher delivers the exit code and the
-- error verbatim to WaitSession under its id, and the session is registered no longer.
pub exit_reported :
    (id : String) (t s pid : ℕ) (b : Option ℕ) (code : ℤ) (err : Option Error) (m : Manager)
    → Inv m
    → m.phase t ≡ watching id s b
    → (m' : Manager) × (run (wait_ends t code err ∷ delivers t pid ∷ []) m ≡ some m')
      × (wait_session id m' ≡ exited code err)
      × (get id m' ≡ none)
unfolding run wait_session get
exit_reported id t s pid b code err m v watched =
    let own = subst (Watches m.registry m.results m.result t) watched (v.watches t) in
    let (m', e, _, results, result, registry) =
      exit_once id t s t pid b code err [] m watched own.1 (broker-Closes b m v) own.2
        (watched-counted t m (ap counts watched) v) in
    (
      m',
      e,
      rw (results, own.1, result, wait_session),
      rw (registry, lookup-delete id id m.registry, (eq_iff id id).1 refl, get),
    )
