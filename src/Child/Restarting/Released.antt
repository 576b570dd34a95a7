-- ===== src/Child/Restarting/Released.antt =====
-- How the restart loop of a session ends (runSupervised in
-- agentsessions/streaming_stdio_session.go and agentsessions/pty_session.go), given what a spawn
-- takes and what the end of an attempt gives back.
use go_agent_sessions.Prelude.{
  ℕ, zero, suc, ◌+◌, ◌≤◌, ◌≡◌, refl, ap, ◌∙◌, not, false, Option, none, some, List, [], ◌∷◌, ◌++◌,
  if◌then◌else◌, arith, if-elim,
}
use go_agent_sessions.Prelude.Texts.{is_blank}
use go_agent_sessions.Attach.{positive_or}
use go_agent_sessions.Supervision.{ExitError, restart_eligible, SupervisorOptions}
use go_agent_sessions.Supervision.Restarts.{waits-bound}
use go_agent_sessions.Spawn.Options.{StartOptions, Command}
use go_agent_sessions.Spawn.Attempt.{Step, SpawnError}
use go_agent_sessions.Child.{ChildSession}
use go_agent_sessions.Child.Reading.{scanned, scan_bytes, fresh_scanner, run_reader_loop}
use go_agent_sessions.Child.Ending.{
  supervised_outcome, report_once, close_attempt, finish_supervised, wait,
}
use go_agent_sessions.Child.Output.{read_lines-Extended}
use go_agent_sessions.Stdio.Spawning.{Spawned}
use go_agent_sessions.Stdio.Steps.{Held, held_after, nothing_held, running}
use go_agent_sessions.Child.Restarting.{
  Respawn, Round, Running, read_out, spawned, exit_of, wait_attempt, exhaust, respawned,
  respawn_next, judge_exit, announced, attempts_from, run_loop, run_session,
}
use go_agent_sessions.Child.Restarting.Refines.{attempts_of, run_loop-Refines}

held_after-append :
    (h : Held) (xs ys : List Step) → held_after h (xs ++ ys) ≡ held_after (held_after h xs) ys
unfolding held_after
held_after-append h [] ys = refl
held_after-append h (x ∷ xs) ys = held_after-append _ xs ys

-- What is kept in a session until it ends.
abbrev pub Kept : StartOptions → ChildSession → Type 0
Kept opts s = (s.opts ≡ opts) × (s.done ≡ false)

-- A spawn that fails holds nothing, one that succeeds what the child needs.
abbrev pub Gained : StartOptions → Spawned → Type 0
Gained opts r = elim r.error [
  | none ↦ held_after nothing_held r.steps ≡ running (is_blank opts.profile_id)
  | some e ↦ held_after nothing_held r.steps ≡ nothing_held
]

-- The laws of the spawns of a session with the options `opts`.
pub record Lawful (child : Respawn) (opts : StartOptions) : Type 0 where
  pub keeps : (n : ℕ) (s : ChildSession) → Kept opts s → Kept opts (child.spawn n s).session
  pub gains : (n : ℕ) (s : ChildSession) → Kept opts s → Gained opts (child.spawn n s)
  pub gives_back :
      held_after (running (is_blank opts.profile_id)) (child.ending opts) ≡ nothing_held

module _ (child : Respawn) (sup : SupervisorOptions) (rounds : ℕ → Round) (opts : StartOptions)
    (laws : Lawful child opts) where
  -- Between two attempts.
  abbrev Between : Running → Type 0
  Between v = (held_after nothing_held v.steps ≡ nothing_held) × Kept opts v.session

  -- In an attempt.
  abbrev Busy : Running → Type 0
  Busy v =
      (held_after nothing_held v.steps ≡ running (is_blank opts.profile_id)) × Kept opts v.session

  read_out-Kept :
      (n : ℕ) (s : ChildSession) → Kept opts s → Kept opts (read_out child sup rounds n s)
  unfolding read_out close_attempt run_reader_loop
  read_out-Kept n s p =
      let r = rounds n in
      let x = read_lines-Extended child.adapter (scanned (scan_bytes fresh_scanner r.output)) s in
      (x.2 ∙ p.0, x.3 ∙ p.1)

  wait_attempt-Between :
      (n : ℕ) (v : Running) → Busy v → Between (wait_attempt child sup rounds n v)
  unfolding wait_attempt
  wait_attempt-Between n v p = (
    held_after-append nothing_held v.steps (child.ending v.session.opts)
        ∙ ap (λ h. held_after h (child.ending v.session.opts)) p.0
        ∙ ap (λ o. held_after (running (is_blank opts.profile_id)) (child.ending o)) p.1.0
        ∙ laws.gives_back,
    read_out-Kept n v.session p.1,
  )

  judge_exit-Between :
      (crashed : ExitError → Running → Running) (n : ℕ) (v : Running)
      → Between v
      → ((xe : ExitError) → Between (crashed xe v))
      → Between (judge_exit child sup rounds crashed n v)
  unfolding judge_exit
  judge_exit-Between crashed n v p q =
      if-elim Between (rounds n).stopped (λ e. p)
        (λ e.
          elim (exit_of child sup rounds n)
            as (λ o. Between (elim o [
              | none ↦ v
              | some xe ↦ if not (restart_eligible (some xe)) then v else crashed xe v
            ])) [
              | none ↦ p
              | some xe ↦ if-elim Between (not (restart_eligible (some xe))) (λ f. p) (λ f. q xe)
            ])

  respawned-Between :
      (next : Running → Running) (v : Running) (s : ChildSession) (steps : List Step)
      (cmd : Option Command) (o : Option SpawnError)
      → Gained opts (record { session = s; steps = steps; error = o; command = cmd })
      → Kept opts s
      → Between v
      → ((w : Running) → Busy w → Between (next w))
      → Between (
          respawned child sup rounds next
            (record { session = s; steps = steps; error = o; command = cmd })
            v)
  unfolding respawned
  respawned-Between next v s steps cmd none b kept p go =
      go _
        (held_after-append nothing_held v.steps steps ∙ ap (λ h. held_after h steps) p.0 ∙ b, kept)
  respawned-Between next v s steps cmd (some err) b kept p go =
      (held_after-append nothing_held v.steps steps ∙ ap (λ h. held_after h steps) p.0 ∙ b, kept)

  respawn_next-Between :
      (next : Running → Running) (n : ℕ) (xe : ExitError) (v : Running)
      → Between v
      → ((w : Running) → Busy w → Between (next w))
      → Between (respawn_next child sup rounds next n xe v)
  unfolding respawn_next
  respawn_next-Between next n xe v p go =
      let sp = spawned child sup rounds (n + 1) v.session in
      if-elim Between (rounds n).cut (λ e. p)
        (λ e.
          respawned-Between next (announced child sup rounds n xe v) sp.session sp.steps sp.command
            sp.error (laws.gains (n + 1) v.session p.1) (laws.keeps (n + 1) v.session p.1) p go)

  attempts_from-Between :
      (left n : ℕ) (v : Running) → Busy v → Between (attempts_from child sup rounds left n v)
  unfolding attempts_from exhaust
  attempts_from-Between zero n v p =
      let w = wait_attempt child sup rounds n v in
      let q = wait_attempt-Between n v p in
      judge_exit-Between (exhaust child sup rounds) n w q (λ xe. q)
  attempts_from-Between (suc left) n v p =
      let q = wait_attempt-Between n v p in
      judge_exit-Between
        (respawn_next child sup rounds (attempts_from child sup rounds left (n + 1)) n) n _ q
        (λ xe.
          respawn_next-Between (attempts_from child sup rounds left (n + 1)) n xe _ q
            (attempts_from-Between left (n + 1)))

begun_with :
    (opts : StartOptions) (r : Spawned)
    → r.error ≡ none
    → Gained opts r
    → held_after nothing_held r.steps ≡ running (is_blank opts.profile_id)
begun_with opts r e b = rw e at b

-- What the deferred function leaves.
finish_supervised-Reports :
    (x : Option ExitError) (s : ChildSession)
    → s.done ≡ false
    → (wait (finish_supervised x s) ≡ some (supervised_outcome x))
      × ((finish_supervised x s).alive ≡ false)
unfolding finish_supervised report_once wait
finish_supervised-Reports x s e = rw e (refl, refl)

-- Where the laws hold and the first spawn succeeds, the session ends after a bounded number of
-- attempts, dead, with nothing held, and Wait returns the loop's last exit.
pub run_session-Ends :
    (child : Respawn) (sup : SupervisorOptions) (rounds : ℕ → Round) (s : ChildSession)
    → Lawful child s.opts
    → s.done ≡ false
    → (child.spawn 0 s).error ≡ none
    → let first = child.spawn 0 s in
      let v = run_loop child sup rounds first in
      let final = run_session child sup rounds first in
      (v.loop.waits ≤ positive_or 0 sup.restart_on_crash + 1)
      × (held_after nothing_held v.steps ≡ nothing_held)
      × (final.alive ≡ false)
      × (wait final ≡ some (supervised_outcome v.loop.last_exit))
unfolding run_loop run_session
run_session-Ends child sup rounds s laws fresh ok =
    let first = child.spawn 0 s in
    let kept = laws.keeps 0 s (refl, fresh) in
    let over =
      attempts_from-Between child sup rounds s.opts laws (positive_or 0 sup.restart_on_crash) 0 _
        (begun_with s.opts first ok (laws.gains 0 s (refl, fresh)), kept) in
    let bound = waits-bound sup (attempts_of child sup rounds first) in
    let ended = finish_supervised-Reports _ _ over.1.1 in
    (
      omega (arith, bound, ap (λ x. x.waits) (run_loop-Refines child sup rounds first)),
      over.0,
      ended.1,
      ended.0,
    )
