-- ===== src/Stdio/Restarting/Released.antt =====
-- How the restart loop of a session on pipes ends (runSupervised in
-- agentsessions/streaming_stdio_session.go).
use go_agent_sessions.Prelude.{
  ℕ, ◌+◌, ◌≤◌, ◌≡◌, refl, subst, Bool, true, false, Option, none, some, List, ◌∷◌, String,
}
use go_agent_sessions.Prelude.Texts.{is_blank}
use go_agent_sessions.Attach.{positive_or}
use go_agent_sessions.Supervision.{SupervisorOptions}
use go_agent_sessions.Spawn.Options.{StartOptions, Command}
use go_agent_sessions.Spawn.Attempt.{
  Step, SpawnError, reap, close_pipe, stdin_pipe, stdout_pipe, cleanup, release_sandbox,
}
use go_agent_sessions.Child.{ChildSession}
use go_agent_sessions.Child.Ending.{supervised_outcome, wait}
use go_agent_sessions.Stdio.Spawning.{spawn_attempt}
use go_agent_sessions.Stdio.Steps.{held_after, nothing_held, running, released}
use go_agent_sessions.Stdio.Held.{Balanced, spawn_attempt-Balanced}
use go_agent_sessions.Stdio.Fresh.{spawn_attempt-Holds}
use go_agent_sessions.Child.Restarting.{Round, spawned, run_loop}
use go_agent_sessions.Stdio.Restarting.{Found, on_pipes, run_session}
use go_agent_sessions.Child.Restarting.Released.{Kept, Gained, Lawful, run_session-Ends}

ended-Held :
    (b : Bool)
    → held_after (running b) (reap ∷ close_pipe stdin_pipe ∷ close_pipe stdout_pipe ∷ released b)
      ≡ nothing_held
unfolding held_after
ended-Held true = refl
ended-Held false = refl

gained :
    (k : ℕ) (opts : StartOptions) (s : ChildSession) (steps : List Step) (cmd : Option Command)
    (o : Option SpawnError)
    → Balanced k opts (record { session = s; steps = steps; error = o; command = cmd })
    → Gained opts (record { session = s; steps = steps; error = o; command = cmd })
gained k opts s steps cmd none b = b.0
gained k opts s steps cmd (some e) b = b

on_pipes-Lawful :
    (text : SpawnError → String) (found : ℕ → Found) (opts : StartOptions)
    → Lawful (on_pipes text found) opts
unfolding cleanup release_sandbox
on_pipes-Lawful text found opts = record {
  keeps = λ n s kept.
      spawn_attempt-Holds (Kept opts) (λ c i o q r t x y. y) (found n).setup (found n).launched n s
        kept;
  gains = λ n s kept.
      let r = spawn_attempt (found n).setup (found n).launched n s in
      gained n opts r.session r.steps r.command r.error (
        subst (λ o. Balanced n o r) kept.0
          (spawn_attempt-Balanced (found n).setup (found n).launched n s));
  gives_back = ended-Held (is_blank opts.profile_id);
}

-- Where the first spawn succeeds, the supervised session comes to its end, whatever its children
-- write and end with, whatever the later spawns find and wherever it is stopped: it has waited for
-- at most one child more than RestartOnCrash; every sandbox, limit, pipe and child that an attempt
-- took has been given back; it is dead; and Wait returns the exit that the loop ended with.
pub run_session-Released :
    (text : SpawnError → String) (found : ℕ → Found) (sup : SupervisorOptions) (rounds : ℕ → Round)
    (s : ChildSession)
    → s.done ≡ false
    → (spawned (on_pipes text found) sup rounds 0 s).error ≡ none
    → let first = spawned (on_pipes text found) sup rounds 0 s in
      let v = run_loop (on_pipes text found) sup rounds first in
      let final = run_session text found sup rounds first in
      (v.loop.waits ≤ positive_or 0 sup.restart_on_crash + 1)
      × (held_after nothing_held v.steps ≡ nothing_held)
      × (final.alive ≡ false)
      × (wait final ≡ some (supervised_outcome v.loop.last_exit))
unfolding run_session
run_session-Released text found sup rounds s fresh ok =
    run_session-Ends (on_pipes text found) sup rounds s (on_pipes-Lawful text found s.opts) fresh ok
