-- ===== src/Stdio/Held.antt =====
-- The resources of spawnAttempt and of Start (agentsessions/streaming_stdio_session.go).
use go_agent_sessions.Prelude.{
  ℕ, true, not, ◌&&◌, Option, none, some, List, [], nat_eq, ◌==◌, ◌≡◌, refl, sym, ◌∙◌, inl, inr,
  ◌⊎◌, Bool-cases, Option-cases, if-elim, Option-elim,
}
use go_agent_sessions.Prelude.Texts.{is_blank}
use go_agent_sessions.Spawn.Options.{StartOptions, Command}
use go_agent_sessions.Spawn.Limits.{apply_resource_limits}
use go_agent_sessions.Spawn.Attempt.{
  Setup, Step, sandbox_error, on_stdin, build_command, release_sandbox, apply_sandbox, cleanup,
}
use go_agent_sessions.Child.{ChildSession}
use go_agent_sessions.Stdio.Spawning.{
  Launched, Spawned, refuse, prompt_stage, start_stage, limits_stage, spawn_attempt,
}
use go_agent_sessions.Stdio.Steps.{
  held_after, nothing_held, writes, prompt_of, boxed, taken, begun, begun-Held, written-Held,
  killed-Held, unstarted-Held, half_open-Held, taken-Held, boxed-Held, begun-writes, written-writes,
  unprompted, prompted,
}

-- A failed attempt holds nothing; a successful one holds what the running child needs, and gives
-- it the boot prompt, if at all, in the first attempt and where the prompt goes to stdin.
abbrev pub Balanced : ℕ → StartOptions → Spawned → Type 0
Balanced attempt opts r = elim r.error [
  | none ↦
      (held_after nothing_held r.steps ≡ record {
        sandbox = not (is_blank opts.profile_id);
        limits = true;
        stdin = true;
        stdout = true;
        child = true;
      })
      × (r.session.opts ≡ opts)
      × (writes r.steps ≡ prompt_of attempt opts)
  | some e ↦ held_after nothing_held r.steps ≡ nothing_held
]

prompt_stage-Balanced :
    (l : Launched) (attempt pid : ℕ) (cmd : Command) (s : ChildSession)
    → Balanced attempt s.opts
        (prompt_stage l attempt cmd pid (begun (is_blank s.opts.profile_id) pid) s)
unfolding prompt_stage refuse cleanup release_sandbox
prompt_stage-Balanced l attempt pid cmd s =
    let b = is_blank s.opts.profile_id in
    if-elim (Balanced attempt s.opts)
      (not (attempt == 0 && on_stdin s.opts && not (is_blank s.opts.boot_prompt)))
      (λ e. (begun-Held b pid, refl, begun-writes b pid ∙ sym (unprompted attempt s.opts e)))
      (λ e.
        if-elim (Balanced attempt s.opts) l.prompt_ok
          (λ f. (
            written-Held b pid s.opts.boot_prompt,
            refl,
            written-writes b pid s.opts.boot_prompt ∙ sym (prompted attempt s.opts e),
          ))
          (λ f. killed-Held b pid))

start_stage-Balanced :
    (l : Launched) (attempt : ℕ) (cmd : Command) (s : ChildSession)
    → Balanced attempt s.opts (start_stage l attempt cmd (taken (is_blank s.opts.profile_id)) s)
unfolding start_stage refuse cleanup release_sandbox
start_stage-Balanced l attempt cmd s =
    let b = is_blank s.opts.profile_id in
    if-elim (Balanced attempt s.opts) (not l.stdin_ok) (λ e. taken-Held b)
      (λ e.
        if-elim (Balanced attempt s.opts) (not l.stdout_ok) (λ f. half_open-Held b)
          (λ f.
            Option-elim (Balanced attempt s.opts) l.pid (unstarted-Held b)
              (λ pid. prompt_stage-Balanced l attempt pid cmd s)))

limits_stage-Balanced :
    (setup : Setup) (l : Launched) (attempt : ℕ) (cmd : Command) (s : ChildSession)
    → Balanced attempt s.opts
        (limits_stage setup l attempt (cmd, boxed (is_blank s.opts.profile_id)) s)
unfolding limits_stage refuse release_sandbox
limits_stage-Balanced setup l attempt cmd s =
    Option-elim (Balanced attempt s.opts)
      (apply_resource_limits setup.host s.opts.resource_limits cmd)
      (boxed-Held (is_blank s.opts.profile_id))
      (λ wrapped. start_stage-Balanced l attempt wrapped s)

pub sandboxed :
    (setup : Setup) (opts : StartOptions) (cmd : Command)
    → (apply_sandbox setup opts cmd ≡ none)
      ⊎ ((c : Command) × (apply_sandbox setup opts cmd
            ≡ some (c, boxed (is_blank opts.profile_id))))
unfolding apply_sandbox
sandboxed setup opts cmd = elim (Bool-cases (is_blank opts.profile_id)) [
  | inl e ↦ inr (cmd, rw e refl)
  | inr e ↦ elim (Option-cases (setup.sandbox opts.profile_id cmd)) [
    | inl f ↦ inl (rw (e, f) refl)
    | inr (c, f) ↦ inr (c, rw (e, f) refl)
  ]
]

after_sandbox-Balanced :
    (setup : Setup) (l : Launched) (attempt : ℕ) (s : ChildSession)
    (o : Option (Command × List Step))
    → (o ≡ none) ⊎ ((c : Command) × (o ≡ some (c, boxed (is_blank s.opts.profile_id))))
    → Balanced attempt s.opts (elim o [
      | none ↦ refuse s [] sandbox_error
      | some taken ↦ limits_stage setup l attempt taken s
    ])
unfolding refuse held_after
after_sandbox-Balanced setup l attempt s o (inl e) = rw e refl
after_sandbox-Balanced setup l attempt s o (inr (c, e)) =
    rw e (limits_stage-Balanced setup l attempt c s)

-- Whichever step of a spawn fails, the sandbox, the limits, the pipes and the child that it has
-- taken are given back, each of them; a spawn that succeeds holds exactly what the running child
-- needs, and has written the boot prompt to its stdin in the first attempt of a session with boot mode
-- stdin and in no other.
pub spawn_attempt-Balanced :
    (setup : Setup) (l : Launched) (attempt : ℕ) (s : ChildSession)
    → Balanced attempt s.opts (spawn_attempt setup l attempt s)
unfolding spawn_attempt refuse held_after
spawn_attempt-Balanced setup l attempt s =
    Option-elim (Balanced attempt s.opts) setup.adapter.detect refl (λ binary.
      let cmd = build_command setup s.opts binary s.last_session_id attempt (not s.opts.stderr) in
      after_sandbox-Balanced setup l attempt s (apply_sandbox setup s.opts cmd)
        (sandboxed setup s.opts cmd))
