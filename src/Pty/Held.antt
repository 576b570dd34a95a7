-- ===== src/Pty/Held.antt =====
-- The resources of spawnAttempt (agentsessions/pty_session.go).
use go_agent_sessions.Prelude.{
  ℕ, Bool, true, false, not, Option, none, some, List, [], ◌∷◌, ◌++◌, nat_eq, ◌≡◌, refl, inl, inr,
  ◌⊎◌, Option-elim,
}
use go_agent_sessions.Prelude.Texts.{is_blank}
use go_agent_sessions.Spawn.Options.{StartOptions, Command}
use go_agent_sessions.Spawn.Limits.{apply_resource_limits}
use go_agent_sessions.Spawn.Attempt.{
  Setup, Step, open_pipe, start, ptmx, sandbox_error, build_command, release_sandbox, apply_sandbox,
  cleanup,
}
use go_agent_sessions.Child.{ChildSession}
use go_agent_sessions.Stdio.Spawning.{Spawned, refuse}
use go_agent_sessions.Stdio.Steps.{held_after, nothing_held, boxed, taken, boxed-Held, taken-Held}
use go_agent_sessions.Stdio.Held.{sandboxed}
use go_agent_sessions.Pty.Attempt.{start_stage, limits_stage, spawn_attempt}

-- A session that can be written to and stopped.
abbrev pub Running : StartOptions → ChildSession → Type 0
Running opts s =
    (s.opts ≡ opts)
    × (s.alive ≡ true)
    × (s.input ≡ true)
    × (s.stop_requested ≡ false)
    × ((pid : ℕ) × (s.cmd ≡ some pid))

-- A failed attempt holds nothing; a successful one leaves a running session, and holds what it
-- needs.
abbrev pub Balanced : StartOptions → Spawned → Type 0
Balanced opts r = elim r.error [
  | none ↦
      (held_after nothing_held r.steps ≡ record {
        sandbox = not (is_blank opts.profile_id);
        limits = true;
        stdin = true;
        stdout = true;
        child = true;
      })
      × Running opts r.session
  | some e ↦ held_after nothing_held r.steps ≡ nothing_held
]

pub begun-Held :
    (b : Bool) (pid : ℕ)
    → held_after nothing_held (taken b ++ open_pipe ptmx ∷ start pid ∷ [])
      ≡ record { sandbox = not b; limits = true; stdin = true; stdout = true; child = true }
unfolding held_after
begun-Held true pid = refl
begun-Held false pid = refl

module _ (setup : Setup) (o : Option ℕ) (attempt : ℕ) (s : ChildSession) (alive : s.alive ≡ true)
    (going : s.stop_requested ≡ false) where
  start_stage-Balanced :
      (o' : Option ℕ) (cmd : Command)
      → Balanced s.opts (start_stage o' attempt cmd (taken (is_blank s.opts.profile_id)) s)
  unfolding start_stage refuse cleanup release_sandbox
  start_stage-Balanced none cmd = taken-Held (is_blank s.opts.profile_id)
  start_stage-Balanced (some pid) cmd =
      (begun-Held (is_blank s.opts.profile_id) pid, (refl, alive, refl, going, (pid, refl)))

  limits_stage-Balanced :
      (cmd : Command)
      → Balanced s.opts (limits_stage setup o attempt (cmd, boxed (is_blank s.opts.profile_id)) s)
  unfolding limits_stage refuse release_sandbox
  limits_stage-Balanced cmd =
      Option-elim (Balanced s.opts) (apply_resource_limits setup.host s.opts.resource_limits cmd)
        (boxed-Held (is_blank s.opts.profile_id)) (λ wrapped. start_stage-Balanced o wrapped)

  after_sandbox-Balanced :
      (r : Option (Command × List Step))
      → (r ≡ none) ⊎ ((c : Command) × (r ≡ some (c, boxed (is_blank s.opts.profile_id))))
      → Balanced s.opts
          (elim r [ none ↦ refuse s [] sandbox_error | some t ↦ limits_stage setup o attempt t s ])
  unfolding refuse held_after
  after_sandbox-Balanced r (inl e) = rw e refl
  after_sandbox-Balanced r (inr (c, e)) = rw e (limits_stage-Balanced c)

  -- On a session that has not been stopped: whichever step of a spawn fails, what it has taken is
  -- given back; a spawn that succeeds leaves a session that takes input, and holds exactly what
  -- the running child needs.
  pub spawn_attempt-Running : Balanced s.opts (spawn_attempt setup o attempt s)
  unfolding spawn_attempt refuse held_after
  spawn_attempt-Running = Option-elim (Balanced s.opts) setup.adapter.detect refl (λ binary.
      let cmd = build_command setup s.opts binary s.last_session_id attempt false in
      after_sandbox-Balanced (apply_sandbox setup s.opts cmd) (sandboxed setup s.opts cmd))
