-- ===== src/Pty/Released.antt =====
-- How the restart loop of a session on a terminal ends (runSupervised in
-- agentsessions/pty_session.go).
use go_agent_sessions.Prelude.{
  ℕ, ◌+◌, ◌≤◌, ◌≡◌, refl, subst, Bool, true, false, Option, none, some, List, [], ◌∷◌, String, inl,
  inr, ◌⊎◌, Option-elim,
}
use go_agent_sessions.Prelude.Texts.{is_blank}
use go_agent_sessions.Attach.{positive_or}
use go_agent_sessions.Supervision.{SupervisorOptions}
use go_agent_sessions.Spawn.Options.{StartOptions, Command}
use go_agent_sessions.Spawn.Limits.{apply_resource_limits}
use go_agent_sessions.Spawn.Attempt.{
  Setup, Step, SpawnError, reap, close_pipe, ptmx, sandbox_error, build_command, release_sandbox,
  apply_sandbox, cleanup,
}
use go_agent_sessions.Child.{ChildSession}
use go_agent_sessions.Child.Ending.{supervised_outcome, wait}
use go_agent_sessions.Child.Restarting.{Round, run_loop}
use go_agent_sessions.Child.Restarting.Released.{Kept, Gained, Lawful, run_session-Ends}
use go_agent_sessions.Stdio.Spawning.{Spawned, refuse}
use go_agent_sessions.Stdio.Steps.{
  held_after, nothing_held, running, released, boxed, taken, boxed-Held, taken-Held,
}
use go_agent_sessions.Stdio.Held.{sandboxed}
use go_agent_sessions.Pty.Attempt.{start_stage, limits_stage, spawn_attempt}
use go_agent_sessions.Pty.Held.{begun-Held}
use go_agent_sessions.Pty.Restarting.{Found, on_terminal, run_session}

ended-Held :
    (b : Bool) → held_after (running b) (reap ∷ close_pipe ptmx ∷ released b) ≡ nothing_held
unfolding held_after
ended-Held true = refl
ended-Held false = refl

abbrev Good : StartOptions → Spawned → Type 0
Good opts r = Kept opts r.session × Gained opts r

module _ (setup : Setup) (o : Option ℕ) (attempt : ℕ) (s : ChildSession)
    (going : s.done ≡ false) where
  start_stage-Good :
      (o' : Option ℕ) (cmd : Command)
      → Good s.opts (start_stage o' attempt cmd (taken (is_blank s.opts.profile_id)) s)
  unfolding start_stage refuse cleanup release_sandbox
  start_stage-Good none cmd = ((refl, going), taken-Held (is_blank s.opts.profile_id))
  start_stage-Good (some pid) cmd = ((refl, going), begun-Held (is_blank s.opts.profile_id) pid)

  limits_stage-Good :
      (cmd : Command)
      → Good s.opts (limits_stage setup o attempt (cmd, boxed (is_blank s.opts.profile_id)) s)
  unfolding limits_stage refuse release_sandbox
  limits_stage-Good cmd =
      Option-elim (Good s.opts) (apply_resource_limits setup.host s.opts.resource_limits cmd)
        ((refl, going), boxed-Held (is_blank s.opts.profile_id))
        (λ wrapped. start_stage-Good o wrapped)

  after_sandbox-Good :
      (r : Option (Command × List Step))
      → (r ≡ none) ⊎ ((c : Command) × (r ≡ some (c, boxed (is_blank s.opts.profile_id))))
      → Good s.opts
          (elim r [ none ↦ refuse s [] sandbox_error | some t ↦ limits_stage setup o attempt t s ])
  unfolding refuse held_after
  after_sandbox-Good r (inl e) = rw e ((refl, going), refl)
  after_sandbox-Good r (inr (c, e)) = rw e (limits_stage-Good c)

  spawn_attempt-Good : Good s.opts (spawn_attempt setup o attempt s)
  unfolding spawn_attempt refuse held_after
  spawn_attempt-Good =
      Option-elim (Good s.opts) setup.adapter.detect ((refl, going), refl)
        (λ binary.
          let cmd = build_command setup s.opts binary s.last_session_id attempt false in
          after_sandbox-Good (apply_sandbox setup s.opts cmd) (sandboxed setup s.opts cmd))

on_terminal-Lawful :
    (text : SpawnError → String) (found : ℕ → Found) (opts : StartOptions)
    → Lawful (on_terminal text found) opts
unfolding cleanup release_sandbox
on_terminal-Lawful text found opts =
    let good : (n : ℕ) (s : ChildSession)
        → Kept opts s
        → Good opts (spawn_attempt (found n).setup (found n).started n s) =
      λ n s kept.
        subst (λ o. Good o (spawn_attempt (found n).setup (found n).started n s)) kept.0
          (spawn_attempt-Good (found n).setup (found n).started n s kept.1) in
    record {
      keeps = λ n s kept. (good n s kept).0;
      gains = λ n s kept. (good n s kept).1;
      gives_back = ended-Held (is_blank opts.profile_id);
    }

-- Where the first spawn on a terminal succeeds, the supervised session comes to its end, whatever
-- its children write and end with, whatever the later spawns find and wherever it is stopped: it
-- has waited for at most one child more than RestartOnCrash; every sandbox, limit, terminal and
-- child that an attempt took has been given back; it is dead; and Wait returns the exit that the
-- loop ended with.
pub pty_session-Released :
    (text : SpawnError → String) (found : ℕ → Found) (sup : SupervisorOptions) (rounds : ℕ → Round)
    (s : ChildSession)
    → s.done ≡ false
    → (spawn_attempt (found 0).setup (found 0).started 0 s).error ≡ none
    → let first = spawn_attempt (found 0).setup (found 0).started 0 s in
      let v = run_loop (on_terminal text found) sup rounds first in
      let final = run_session text found sup rounds first in
      (v.loop.waits ≤ positive_or 0 sup.restart_on_crash + 1)
      × (held_after nothing_held v.steps ≡ nothing_held)
      × (final.alive ≡ false)
      × (wait final ≡ some (supervised_outcome v.loop.last_exit))
unfolding run_session
pty_session-Released text found sup rounds s fresh ok =
    run_session-Ends (on_terminal text found) sup rounds s (on_terminal-Lawful text found s.opts)
      fresh ok
