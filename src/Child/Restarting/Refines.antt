-- ===== src/Child/Restarting/Refines.antt =====
-- The restart loop of a session (runSupervised in agentsessions/streaming_stdio_session.go and
-- agentsessions/pty_session.go) and the loop of Supervision.
use go_agent_sessions.Prelude.{
  ℕ, zero, suc, ◌+◌, ◌≡◌, refl, sym, ap, subst, arith, not, Option, none, some, List, ◌++◌, inl,
  inr, Bool-cases, Option-cases,
}
use go_agent_sessions.Attach.{positive_or}
use go_agent_sessions.Supervision.{
  WaitError, other_error, ExitError, restart_eligible, SupervisorOptions, Attempt, Supervised,
}
use go_agent_sessions.Supervision as Loop
use go_agent_sessions.Spawn.Attempt.{Step, SpawnError}
use go_agent_sessions.Child.{ChildSession}
use go_agent_sessions.Stdio.Spawning.{Spawned}
use go_agent_sessions.Child.Restarting.{
  Respawn, Round, Running, read_out, spawned, exit_of, wait_attempt, exhaust, respawned,
  respawn_next, judge_exit, announced, attempts_from, run_loop,
}

module _ (child : Respawn) (sup : SupervisorOptions) (rounds : ℕ → Round) (first : Spawned) where
  -- The session of attempt `n`, if it comes to it.
  session_of : ℕ → ChildSession
  session_of zero = first.session
  session_of (suc n) =
      (spawned child sup rounds (n + 1) (read_out child sup rounds n (session_of n))).session

  respawn : ℕ → Spawned
  respawn n = spawned child sup rounds (n + 1) (read_out child sup rounds n (session_of n))

  message : Option SpawnError → Option WaitError
  message none = none
  message (some e) = some (other_error (child.message e))

  -- The attempts as Supervision sees them.
  pub attempts_of : ℕ → Attempt
  unfolding session_of respawn message
  attempts_of n = record {
    exit = exit_of child sup rounds n;
    stopped = (rounds n).stopped;
    cut = (rounds n).cut;
    respawn_error = message (respawn n).error;
  }

  session_of-suc : (n : ℕ) → (respawn n).session ≡ session_of (n + 1)
  unfolding respawn session_of
  session_of-suc n = let e : suc n ≡ n + 1 = omega arith in ap session_of e

  -- The two loops go on alike where they do so after a crash.
  judged :
      (crashed : ExitError → Running → Running)
      (crashed' : ℕ → ExitError → Attempt → Supervised → Supervised) (n : ℕ) (v : Running)
      → ((xe : ExitError) → (crashed xe v).loop ≡ crashed' n xe (attempts_of n) v.loop)
      → (judge_exit child sup rounds crashed n v).loop
        ≡ Loop.judge sup attempts_of crashed' n (exit_of child sup rounds n) (attempts_of n) v.loop
  unfolding judge_exit Loop.judge attempts_of
  judged crashed crashed' n v alike = elim (Bool-cases (rounds n).stopped) [
    | inl e ↦ rw e refl
    | inr e ↦ elim (Option-cases (exit_of child sup rounds n)) [
      | inl f ↦ rw (e, f) refl
      | inr (xe, f) ↦ elim (Bool-cases (not (restart_eligible (some xe)))) [
        | inl g ↦ rw (e, f, g) refl
        | inr g ↦ rw (e, f, g) (alike xe)
      ]
    ]
  ]

  -- After a spawn they go on alike where they do so after a successful one.
  respawned_alike :
      (next : Running → Running) (next' : Supervised → Supervised) (sp : Spawned) (v : Running)
      → ((next (record v { session = sp.session; steps = v.steps ++ sp.steps })).loop
          ≡ next' v.loop)
      → (respawned child sup rounds next sp v).loop ≡ (elim (message sp.error) [
        | none ↦ next' v.loop
        | some err ↦ record v.loop { last_exit = some (Loop.spawn_failed err) }
      ])
  unfolding respawned message
  respawned_alike next next' sp v alike =
      let v' : Running = record v { session = sp.session; steps = v.steps ++ sp.steps } in
      elim sp.error
        as (λ (o : Option SpawnError).
          (elim o as (λ x. Running) [
            | none ↦ next v'
            | some err ↦ record v' {
              loop = record v.loop {
                last_exit = some (Loop.spawn_failed (other_error (child.message err)));
              };
            }
          ]).loop
          ≡ (elim (message o) as (λ x. Supervised) [
            | none ↦ next' v.loop
            | some err ↦ record v.loop { last_exit = some (Loop.spawn_failed err) }
          ])) [ none ↦ alike | some err ↦ refl ]

  -- The loops go on alike from attempt `n` on, with the session `x`.
  abbrev Alike : ℕ → ℕ → ChildSession → Type 0
  Alike left n x =
      (steps : List Step) (s : Supervised)
      → (attempts_from child sup rounds left n
          (record { session = x; steps = steps; loop = s })).loop
        ≡ Loop.supervise sup attempts_of left n s

  -- The end of attempt `n`.
  abbrev waited : ℕ → List Step → Supervised → Running
  waited n steps s =
      wait_attempt child sup rounds n (record { session = session_of n; steps = steps; loop = s })

  attempts_from-Alike : (left n : ℕ) → Alike left n (session_of n)
  unfolding attempts_from exhaust wait_attempt respawn_next respawned respawn message attempts_of
      Loop.supervise Loop.give_up Loop.restart
  attempts_from-Alike zero n steps s =
      judged (exhaust child sup rounds) (Loop.give_up sup attempts_of) n (waited n steps s)
        (λ xe. refl)
  attempts_from-Alike (suc left) n steps s =
      judged (respawn_next child sup rounds (attempts_from child sup rounds left (n + 1)) n)
        (Loop.restart sup attempts_of (Loop.supervise sup attempts_of left (n + 1))) n
        (waited n steps s)
        (λ xe.
          let next =
            subst (Alike left (n + 1)) (sym (session_of-suc n))
              (attempts_from-Alike left (n + 1)) in
          elim (Bool-cases (rounds n).cut) [
            | inl f ↦ rw f refl
            | inr f ↦ rw f (
                respawned_alike (attempts_from child sup rounds left (n + 1))
                  (Loop.supervise sup attempts_of left (n + 1)) (respawn n)
                  (announced child sup rounds n xe (waited n steps s)) (next _ _))
          ])

  -- The loop of a session, on pipes or a terminal, with the reader, the resources and the commands of every attempt,
  -- waits, backs off, calls OnRestart and ends with an exit exactly as the loop of supervision does
  -- over the exits of its attempts and the errors of its spawns.
  pub run_loop-Refines :
      (run_loop child sup rounds first).loop ≡ Loop.run_supervised sup attempts_of
  unfolding run_loop Loop.run_supervised session_of
  run_loop-Refines = attempts_from-Alike (positive_or 0 sup.restart_on_crash) 0 first.steps _
