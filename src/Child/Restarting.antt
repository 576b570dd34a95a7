-- ===== src/Child/Restarting.antt =====
-- runSupervised of agentsessions/streaming_stdio_session.go and agentsessions/pty_session.go: the
-- restart loop over the session itself, with the reader, spawnAttempt and the cleanup of each
-- attempt. The two differ in the spawn and in what an attempt gives back, which are arguments. The
-- signals that the goroutines of an attempt send are those of Child/Watching.
pub mod Refines
pub mod Released
use go_agent_sessions.Prelude.{
  ℕ, zero, suc, ◌+◌, Bool, not, Option, none, some, List, [], ◌∷◌, ◌++◌, String, if◌then◌else◌,
}
use go_agent_sessions.Prelude.Int.{pos}
use go_agent_sessions.Prelude.Texts.{Bytes}
use go_agent_sessions.Attach.{positive_or}
use go_agent_sessions.Supervision.{
  WaitError, other_error, ProcessState, ExitError, restart_exhausted, restart_eligible,
  SupervisorOptions, Supervised, spawn_failed, compute_restart_backoff,
}
use go_agent_sessions.Spawn.Options.{StartOptions}
use go_agent_sessions.Spawn.Attempt.{Adapter, Step, SpawnError}
use go_agent_sessions.Child.{ChildSession}
use go_agent_sessions.Child.Reading.{run_reader_loop}
use go_agent_sessions.Child.Watching.{Happening, wait_once_supervised}
use go_agent_sessions.Child.Ending.{close_attempt, finish_supervised}
use go_agent_sessions.Stdio.Spawning.{Spawned}

-- The adapter, spawnAttempt, what is done when the child of an attempt has exited, and what Error()
-- of the error of a spawn gives.
pub record Respawn : Type 0 where
  pub adapter : Adapter
  pub spawn : ℕ → ChildSession → Spawned
  pub ending : StartOptions → List Step
  pub message : SpawnError → String

-- One attempt: what the child writes; when it starts and what happens to it;
-- what cmd.Wait answers; whether the context is done or Stop requested then, or becomes so during
-- the backoff.
pub record Round : Type 0 where
  pub output : Bytes
  pub now : ℕ
  pub happenings : List Happening
  pub ps : Option ProcessState
  pub wait_err : Option WaitError
  pub stopped : Bool
  pub cut : Bool

-- The session, what the attempts have done outside of it, and the loop's variables.
pub record Running : Type 0 where
  pub session : ChildSession
  pub steps : List Step
  pub loop : Supervised

module _ (child : Respawn) (sup : SupervisorOptions) (rounds : ℕ → Round) where
  -- What the session becomes when attempt `n` is over.
  unfoldable pub read_out : ℕ → ChildSession → ChildSession
  read_out n s = close_attempt (run_reader_loop child.adapter (rounds n).output s)

  -- spawnAttempt(n)
  abbrev pub spawned : ℕ → ChildSession → Spawned
  spawned n s = child.spawn n s

  abbrev pub exit_of : ℕ → Option ExitError
  exit_of n = let r = rounds n in wait_once_supervised sup r.now r.happenings r.ps r.wait_err

  -- waitOnceSupervised and cleanup().
  unfoldable pub wait_attempt : ℕ → Running → Running
  unfolding read_out
  wait_attempt n v = record {
    session = read_out n v.session;
    steps = v.steps ++ child.ending v.session.opts;
    loop = record v.loop { last_exit = exit_of n; waits = v.loop.waits + 1 };
  }

  -- lastExit.Cause = CauseRestartExhausted
  unfoldable pub exhaust : ExitError → Running → Running
  exhaust xe v = record v {
    loop = record v.loop { last_exit = some (record xe { cause = restart_exhausted }) };
  }

  -- What follows the spawn of the next attempt.
  unfoldable pub respawned : (Running → Running) → Spawned → Running → Running
  respawned next sp v =
      let v' : Running = record v { session = sp.session; steps = v.steps ++ sp.steps } in
      elim sp.error [
        | none ↦ next v'
        | some err ↦ record v' {
          loop = record v.loop {
            last_exit = some (spawn_failed (other_error (child.message err)));
          };
        }
      ]

  -- The backoff, and OnRestart.
  abbrev pub announced : ℕ → ExitError → Running → Running
  announced n xe v = record v {
    loop = record v.loop {
      backoffs =
          v.loop.backoffs ++ compute_restart_backoff (pos (n + 1)) sup.max_restart_backoff ∷ [];
      on_restart = v.loop.on_restart ++ (n + 1, xe) ∷ [];
    };
  }

  -- The backoff, OnRestart and the spawn of the attempt after `n`.
  unfoldable pub respawn_next : (Running → Running) → ℕ → ExitError → Running → Running
  unfolding respawned
  respawn_next next n xe v =
      if (rounds n).cut then v else respawned next (spawned (n + 1) v.session) (announced n xe v)

  -- What the loop does with the exit of attempt `n`; `crashed` is from `attempt >= maxRestarts` on.
  unfoldable pub judge_exit : (ExitError → Running → Running) → ℕ → Running → Running
  judge_exit crashed n v = if (rounds n).stopped then v else elim (exit_of n) [
    | none ↦ v
    | some xe ↦ if not (restart_eligible (some xe)) then v else crashed xe v
  ]

  -- The loop, with the restarts that are left.
  unfoldable pub attempts_from : ℕ → ℕ → Running → Running
  unfolding judge_exit exhaust respawn_next wait_attempt
  attempts_from zero n v = judge_exit exhaust n (wait_attempt n v)
  attempts_from (suc left) n v =
      judge_exit (respawn_next (attempts_from left (n + 1)) n) n (wait_attempt n v)

  -- runSupervised without its deferred function, with what the first spawn gives.
  unfoldable pub run_loop : Spawned → Running
  unfolding attempts_from
  run_loop first = attempts_from (positive_or 0 sup.restart_on_crash) 0 (record {
    session = first.session;
    steps = first.steps;
    loop = record { last_exit = none; waits = 0; backoffs = []; on_restart = [] };
  })

  unfoldable pub run_session : Spawned → ChildSession
  unfolding run_loop
  run_session first = let v = run_loop first in finish_supervised v.loop.last_exit v.session
