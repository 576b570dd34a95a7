-- ===== src/Child/Killing.antt =====
-- How an attempt is killed (waitOnceSupervised and its goroutines in
-- agentsessions/streaming_stdio_session.go, killWithGrace in agentsessions/supervision.go).
use go_agent_sessions.Prelude.{
  ℕ, Bool, true, false, not, ◌||◌, List, [], ◌∷◌, ◌++◌, ltb, nat_eq, ◌==◌, ◌≡◌, refl, ap, ◌∙◌,
  arith, inl, inr, ◌⊎◌, if-elim,
}
use go_agent_sessions.Supervision.{
  Cause, idle_timeout, watchdog_kill, try_set_cause, SupervisorOptions, sigkill, is_empty,
}
use go_agent_sessions.Spawn.Attempt.{Step, signal}
use go_agent_sessions.Child.Watching.{
  Guard, off, polling, in_grace, returned, Attempt, Happening, activity, idle_poll, watchdog_poll,
  idle_grace_over, stop_grace_over, stopping, idle_sees_exit, watchdog_sees_exit, stop_sees_exit,
  sigterm, threshold, guard_of, start_attempt, idle_since, send, is_polling, is_in_grace,
  idle_fires, watchdog_fires, happen, happenings,
}

abbrev is_signal : ℕ → Step → Bool
is_signal k x = elim x [ signal n ↦ n == k | _ ↦ false ]

-- Has this signal been sent?
abbrev pub sent : ℕ → List Step → Bool
sent k [] = false
sent k (x ∷ xs) = is_signal k x || sent k xs

sent-append : (k : ℕ) (xs ys : List Step) → sent k (xs ++ ys) ≡ (sent k xs || sent k ys)
sent-append k [] ys = refl
sent-append k (x ∷ xs) ys = ground (arith, sent-append k xs ys)

-- A SIGKILL has a SIGTERM with it unless the watchdog has sent it.
abbrev Gentle : Attempt → Type 0
Gentle a =
    (sent sigkill a.signals ≡ true → (a.cause ≡ watchdog_kill) ⊎ (sent sigterm a.signals ≡ true))
    × (a.idle_guard ≡ in_grace → sent sigterm a.signals ≡ true)
    × (a.stop_guard ≡ in_grace → sent sigterm a.signals ≡ true)

pub sent_self : (k : ℕ) (xs : List Step) → sent k (xs ++ signal k ∷ []) ≡ true
sent_self k xs = sent-append k xs (signal k ∷ []) ∙ ground arith

pub sent_more : (k n : ℕ) (xs : List Step) → sent k xs ≡ true → sent k (xs ++ signal n ∷ []) ≡ true
sent_more k n xs e = sent-append k xs (signal n ∷ []) ∙ ap (◌|| sent k (signal n ∷ [])) e

-- Once SIGTERM has been sent, whatever else.
termed : (a : Attempt) → sent sigterm a.signals ≡ true → Gentle a
termed a e = (λ f. inr e, λ f. e, λ f. e)

idle_fires-Gentle : (r : Cause × Bool) (a : Attempt) → Gentle a → Gentle (idle_fires r a)
unfolding idle_fires send
idle_fires-Gentle (c, false) a v = (v.0, λ e. absurd (cc e), v.2)
idle_fires-Gentle (c, true) a v =
    termed (send sigterm (record a { idle_guard = in_grace; cause = c }))
      (sent_self sigterm a.signals)

watchdog_fires-Gentle :
    (a : Attempt) → Gentle a → Gentle (watchdog_fires (try_set_cause watchdog_kill a.cause) a)
unfolding watchdog_fires send try_set_cause
watchdog_fires-Gentle a v =
    if-elim (λ r. Gentle (watchdog_fires r a)) (not (is_empty a.cause)) (λ e. v)
      (λ e. (
        λ f. inl refl,
        λ f. sent_more sigterm sigkill a.signals (v.1 f),
        λ f. sent_more sigterm sigkill a.signals (v.2 f),
      ))

grace_kept : (g : Guard) → is_in_grace g ≡ true → g ≡ in_grace
unfolding is_in_grace
grace_kept off e = absurd (cc e)
grace_kept polling e = absurd (cc e)
grace_kept in_grace e = refl
grace_kept returned e = absurd (cc e)

happen-Gentle :
    (sup : SupervisorOptions) (h : Happening) (a : Attempt) → Gentle a → Gentle (happen sup h a)
unfolding happen send
happen-Gentle sup (activity now) a v = v
happen-Gentle sup (idle_poll now) a v =
    if-elim Gentle
      (not (is_polling a.idle_guard) || ltb (idle_since a now) (threshold sup.idle_kill)) (λ e. v)
      (λ e. idle_fires-Gentle (try_set_cause idle_timeout a.cause) a v)
happen-Gentle sup (watchdog_poll now) a v =
    if-elim Gentle
      (not (is_polling a.watchdog_guard) || ltb (idle_since a now) (threshold sup.watchdog_timeout))
      (λ e. v) (λ e. watchdog_fires-Gentle a v)
happen-Gentle sup idle_grace_over a v =
    if-elim Gentle (is_in_grace a.idle_guard)
      (λ e.
        termed (send sigkill (record a { idle_guard = returned }))
          (sent_more sigterm sigkill a.signals (v.1 (grace_kept a.idle_guard e))))
      (λ e. v)
happen-Gentle sup stopping a v =
    if-elim Gentle (is_polling a.stop_guard)
      (λ e.
        termed (send sigterm (record a { stop_guard = in_grace })) (sent_self sigterm a.signals))
      (λ e. v)
happen-Gentle sup stop_grace_over a v =
    if-elim Gentle (is_in_grace a.stop_guard)
      (λ e.
        termed (send sigkill (record a { stop_guard = returned }))
          (sent_more sigterm sigkill a.signals (v.2 (grace_kept a.stop_guard e))))
      (λ e. v)
happen-Gentle sup idle_sees_exit a v = (v.0, λ e. absurd (cc e), v.2)
happen-Gentle sup watchdog_sees_exit a v = v
happen-Gentle sup stop_sees_exit a v = (v.0, v.1, λ e. absurd (cc e))

happenings-Gentle :
    (sup : SupervisorOptions) (hs : List Happening) (a : Attempt)
    → Gentle a
    → Gentle (happenings sup hs a)
unfolding happenings
happenings-Gentle sup [] a v = v
happenings-Gentle sup (h ∷ hs) a v =
    happenings-Gentle sup hs (happen sup h a) (happen-Gentle sup h a v)

-- In every interleaving of an attempt's goroutines, SIGKILL is sent only by the watchdog, which
-- names itself as the cause then, or with a SIGTERM sent too.
pub sigkill_last :
    (sup : SupervisorOptions) (now : ℕ) (hs : List Happening)
    → sent sigkill (happenings sup hs (start_attempt sup now)).signals ≡ true
    → ((happenings sup hs (start_attempt sup now)).cause ≡ watchdog_kill)
      ⊎ (sent sigterm (happenings sup hs (start_attempt sup now)).signals ≡ true)
unfolding start_attempt guard_of
sigkill_last sup now hs =
    (happenings-Gentle sup hs (start_attempt sup now) (
      λ e. absurd (cc e),
      λ e.
          if-elim (λ g. g ≡ in_grace → false ≡ true) (ltb 0 (threshold sup.idle_kill))
            (λ f g. absurd (cc g)) (λ f g. absurd (cc g)) e,
      λ e. absurd (cc e),
    )).0
