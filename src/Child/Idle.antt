-- ===== src/Child/Idle.antt =====
-- A child that is killed for being idle (superviseIdle in
-- agentsessions/streaming_stdio_session.go).
use go_agent_sessions.Prelude.{
  ℕ, ◌≤◌, true, false, not, ◌||◌, Option, some, List, [], ◌∷◌, if◌then◌else◌, ltb, nat_eq, ◌≡◌,
  refl, ap, sym, subst, ◌∙◌, arith, if-elim,
}
use go_agent_sessions.Supervision.{
  Cause, no_cause, idle_timeout, watchdog_kill, try_set_cause, SupervisorOptions, WaitError,
  ProcessState, build_exit_error, sigkill, ExitError, restart_eligible,
}
use go_agent_sessions.Supervision.Causes.{build_exit_error-cause, caused-restart_eligible}
use go_agent_sessions.Child.Watching.{
  polling, in_grace, Attempt, Happening, activity, idle_poll, watchdog_poll, idle_grace_over,
  stop_grace_over, stopping, idle_sees_exit, watchdog_sees_exit, stop_sees_exit, sigterm, threshold,
  idle_since, send, is_polling, is_in_grace, idle_fires, watchdog_fires, happen, happenings,
}
use go_agent_sessions.Child.Killing.{sent, sent_self, sent_more}

-- The idle supervisor has fired.
abbrev Marked : Attempt → Type 0
Marked a = (a.cause ≡ idle_timeout) × (sent sigterm a.signals ≡ true)

late_cause : (c d : Cause) → d ≡ idle_timeout → try_set_cause c d ≡ (d, false)
unfolding try_set_cause
late_cause c d e = rw e refl

happen-Marked :
    (sup : SupervisorOptions) (h : Happening) (a : Attempt) → Marked a → Marked (happen sup h a)
unfolding happen send idle_fires watchdog_fires
happen-Marked sup (activity now) a v = v
happen-Marked sup (idle_poll now) a v =
    if-elim Marked
      (not (is_polling a.idle_guard) || ltb (idle_since a now) (threshold sup.idle_kill)) (λ e. v)
      (λ e. subst (λ r. Marked (idle_fires r a)) (sym (late_cause idle_timeout a.cause v.0)) v)
happen-Marked sup (watchdog_poll now) a v =
    if-elim Marked
      (not (is_polling a.watchdog_guard) || ltb (idle_since a now) (threshold sup.watchdog_timeout))
      (λ e. v)
      (λ e. subst (λ r. Marked (watchdog_fires r a)) (sym (late_cause watchdog_kill a.cause v.0)) v)
happen-Marked sup idle_grace_over a v =
    if-elim Marked (is_in_grace a.idle_guard) (λ e. (v.0, sent_more sigterm sigkill a.signals v.1))
      (λ e. v)
happen-Marked sup stopping a v =
    if-elim Marked (is_polling a.stop_guard) (λ e. (v.0, sent_self sigterm a.signals)) (λ e. v)
happen-Marked sup stop_grace_over a v =
    if-elim Marked (is_in_grace a.stop_guard) (λ e. (v.0, sent_more sigterm sigkill a.signals v.1))
      (λ e. v)
happen-Marked sup idle_sees_exit a v = v
happen-Marked sup watchdog_sees_exit a v = v
happen-Marked sup stop_sees_exit a v = v

happenings-Marked :
    (sup : SupervisorOptions) (hs : List Happening) (a : Attempt)
    → Marked a
    → Marked (happenings sup hs a)
unfolding happenings
happenings-Marked sup [] a v = v
happenings-Marked sup (h ∷ hs) a v =
    happenings-Marked sup hs (happen sup h a) (happen-Marked sup h a v)

fires-Marked :
    (sup : SupervisorOptions) (now : ℕ) (a : Attempt)
    → a.idle_guard ≡ polling
    → a.cause ≡ no_cause
    → threshold sup.idle_kill ≤ idle_since a now
    → Marked (happen sup (idle_poll now) a)
unfolding happen send idle_fires is_polling try_set_cause
fires-Marked sup now a g c h =
    let e : ltb (idle_since a now) (threshold sup.idle_kill) ≡ false = ground arith in
    subst (λ t. Marked t) (sym (fired e)) (refl, sent_self sigterm a.signals)
  where
    fired :
        ltb (idle_since a now) (threshold sup.idle_kill) ≡ false
        → happen sup (idle_poll now) a
          ≡ send sigterm (record a { idle_guard = in_grace; cause = idle_timeout })
    fired e =
        ap
          (λ k.
            if not (is_polling k) || ltb (idle_since a now) (threshold sup.idle_kill)
            then a
            else idle_fires (try_set_cause idle_timeout a.cause) a)
          g
        ∙ ap (λ b. if b then a else idle_fires (try_set_cause idle_timeout a.cause) a) e
        ∙ ap (λ d. idle_fires (try_set_cause idle_timeout d) a) c

-- A poll of the idle supervisor that finds no activity for IdleKill, before another cause is set:
-- the child gets SIGTERM, and whatever happens then and however it exits, its exit carries
-- idle_timeout and is not restarted.
pub idle_kill_reported :
    (sup : SupervisorOptions) (now : ℕ) (a : Attempt) (hs : List Happening)
    (ps : Option ProcessState) (w : Option WaitError)
    → a.idle_guard ≡ polling
    → a.cause ≡ no_cause
    → threshold sup.idle_kill ≤ idle_since a now
    → (sent sigterm (happenings sup (idle_poll now ∷ hs) a).signals ≡ true)
      × (xe : ExitError) × (build_exit_error ps w (happenings sup (idle_poll now ∷ hs) a).cause
          ≡ some xe)
      × (xe.cause ≡ idle_timeout)
      × (restart_eligible (some xe) ≡ false)
unfolding happenings
idle_kill_reported sup now a hs ps w g c h =
    let m =
      happenings-Marked sup hs (happen sup (idle_poll now) a) (fires-Marked sup now a g c h) in
    let (xe, e, f, k) = build_exit_error-cause ps w idle_timeout (λ p. absurd (cc p)) in
    (
      m.1,
      xe,
      ap (build_exit_error ps w) m.0 ∙ e,
      f,
      caused-restart_eligible xe idle_timeout f (λ p. absurd (cc p)),
    )
