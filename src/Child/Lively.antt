-- ===== src/Child/Lively.antt =====
-- A child that stays active under supervision (superviseIdle and superviseWatchdog in
-- agentsessions/streaming_stdio_session.go).
use go_agent_sessions.Prelude.{
  ℕ, ◌-◌, ◌<◌, true, false, not, ◌||◌, Option, List, [], ◌∷◌, if◌then◌else◌, ltb, nat_eq, ◌==◌, ◌≡◌,
  refl, ap, sym, subst, arith, if-elim,
}
use go_agent_sessions.Supervision.{
  no_cause, SupervisorOptions, WaitError, ProcessState, build_exit_error,
}
use go_agent_sessions.Child.Watching.{
  returned, Attempt, Happening, activity, idle_poll, watchdog_poll, idle_grace_over,
  stop_grace_over, stopping, idle_sees_exit, watchdog_sees_exit, stop_sees_exit, threshold,
  guard_of, start_attempt, idle_since, is_polling, is_in_grace, happen, happenings,
  wait_once_supervised,
}

-- The time of the last activity.
abbrev pub since : ℕ → ℕ → ℕ → ℕ
since started_at last now = if last == 0 then now - started_at else now - last

-- Whenever a supervisor polls, the last activity is less than its threshold ago.
abbrev pub Lively : SupervisorOptions → ℕ → ℕ → List Happening → Type 0
Lively sup started_at last [] = Unit
Lively sup started_at last (activity now ∷ hs) = Lively sup started_at now hs
Lively sup started_at last (idle_poll now ∷ hs) =
    (since started_at last now < threshold sup.idle_kill) × Lively sup started_at last hs
Lively sup started_at last (watchdog_poll now ∷ hs) =
    (since started_at last now < threshold sup.watchdog_timeout) × Lively sup started_at last hs
Lively sup started_at last (idle_grace_over ∷ hs) = Lively sup started_at last hs
Lively sup started_at last (stop_grace_over ∷ hs) = Lively sup started_at last hs
Lively sup started_at last (stopping ∷ hs) = Lively sup started_at last hs
Lively sup started_at last (idle_sees_exit ∷ hs) = Lively sup started_at last hs
Lively sup started_at last (watchdog_sees_exit ∷ hs) = Lively sup started_at last hs
Lively sup started_at last (stop_sees_exit ∷ hs) = Lively sup started_at last hs

-- Nobody stops the session.
abbrev pub Unstopped : List Happening → Type 0
Unstopped [] = Unit
Unstopped (activity now ∷ hs) = Unstopped hs
Unstopped (idle_poll now ∷ hs) = Unstopped hs
Unstopped (watchdog_poll now ∷ hs) = Unstopped hs
Unstopped (idle_grace_over ∷ hs) = Unstopped hs
Unstopped (stop_grace_over ∷ hs) = Unstopped hs
Unstopped (stopping ∷ hs) = ⊥
Unstopped (idle_sees_exit ∷ hs) = Unstopped hs
Unstopped (watchdog_sees_exit ∷ hs) = Unstopped hs
Unstopped (stop_sees_exit ∷ hs) = Unstopped hs

abbrev Quiet : Attempt → Type 0
Quiet a =
    (a.cause ≡ no_cause)
    × (a.signals ≡ [])
    × (is_in_grace a.idle_guard ≡ false)
    × (is_in_grace a.stop_guard ≡ false)

idle_poll_early :
    (sup : SupervisorOptions) (now : ℕ) (a : Attempt)
    → idle_since a now < threshold sup.idle_kill
    → happen sup (idle_poll now) a ≡ a
unfolding happen
idle_poll_early sup now a h =
    let e : (not (is_polling a.idle_guard) || ltb (idle_since a now) (threshold sup.idle_kill))
        ≡ true =
      ground arith in
    rw e refl

watchdog_poll_early :
    (sup : SupervisorOptions) (now : ℕ) (a : Attempt)
    → idle_since a now < threshold sup.watchdog_timeout
    → happen sup (watchdog_poll now) a ≡ a
unfolding happen
watchdog_poll_early sup now a h =
    let e : (not (is_polling a.watchdog_guard)
          || ltb (idle_since a now) (threshold sup.watchdog_timeout))
        ≡ true =
      ground arith in
    rw e refl

idle_grace_idle :
    (sup : SupervisorOptions) (a : Attempt)
    → is_in_grace a.idle_guard ≡ false
    → happen sup idle_grace_over a ≡ a
unfolding happen
idle_grace_idle sup a e = rw e refl

stop_grace_idle :
    (sup : SupervisorOptions) (a : Attempt)
    → is_in_grace a.stop_guard ≡ false
    → happen sup stop_grace_over a ≡ a
unfolding happen
stop_grace_idle sup a e = rw e refl

stays-Quiet :
    (sup : SupervisorOptions) (hs : List Happening) (a : Attempt)
    → Lively sup a.started_at a.last hs
    → Unstopped hs
    → Quiet a
    → Quiet (happenings sup hs a)
unfolding happenings happen is_in_grace idle_since
stays-Quiet sup [] a l u q = q
stays-Quiet sup (activity now ∷ hs) a l u q = stays-Quiet sup hs (record a { last = now }) l u q
stays-Quiet sup (idle_poll now ∷ hs) a l u q =
    subst (λ t. Quiet (happenings sup hs t)) (sym (idle_poll_early sup now a l.0))
      (stays-Quiet sup hs a l.1 u q)
stays-Quiet sup (watchdog_poll now ∷ hs) a l u q =
    subst (λ t. Quiet (happenings sup hs t)) (sym (watchdog_poll_early sup now a l.0))
      (stays-Quiet sup hs a l.1 u q)
stays-Quiet sup (idle_grace_over ∷ hs) a l u q =
    subst (λ t. Quiet (happenings sup hs t)) (sym (idle_grace_idle sup a q.2))
      (stays-Quiet sup hs a l u q)
stays-Quiet sup (stop_grace_over ∷ hs) a l u q =
    subst (λ t. Quiet (happenings sup hs t)) (sym (stop_grace_idle sup a q.3))
      (stays-Quiet sup hs a l u q)
stays-Quiet sup (stopping ∷ hs) a l u q = absurd u
stays-Quiet sup (idle_sees_exit ∷ hs) a l u q =
    stays-Quiet sup hs (record a { idle_guard = returned }) l u (q.0, q.1, refl, q.3)
stays-Quiet sup (watchdog_sees_exit ∷ hs) a l u q =
    stays-Quiet sup hs (record a { watchdog_guard = returned }) l u q
stays-Quiet sup (stop_sees_exit ∷ hs) a l u q =
    stays-Quiet sup hs (record a { stop_guard = returned }) l u (q.0, q.1, q.2, refl)

started-Quiet : (sup : SupervisorOptions) (now : ℕ) → Quiet (start_attempt sup now)
unfolding start_attempt guard_of is_in_grace
started-Quiet sup now = (
  refl,
  refl,
  if-elim (λ g. is_in_grace g ≡ false) (ltb 0 (threshold sup.idle_kill)) (λ e. refl) (λ e. refl),
  refl,
)

-- A child with activity in every idle threshold, in a session that nobody stops, gets no signal,
-- and its exit is reported as cmd.Wait gives it, without a cause.
pub untouched :
    (sup : SupervisorOptions) (now : ℕ) (hs : List Happening) (ps : Option ProcessState)
    (w : Option WaitError)
    → Lively sup now now hs
    → Unstopped hs
    → ((happenings sup hs (start_attempt sup now)).signals ≡ [])
      × (wait_once_supervised sup now hs ps w ≡ build_exit_error ps w no_cause)
unfolding wait_once_supervised start_attempt
untouched sup now hs ps w l u =
    let q = stays-Quiet sup hs (start_attempt sup now) l u (started-Quiet sup now) in
    (q.1, ap (build_exit_error ps w) q.0)
