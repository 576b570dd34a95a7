-- ===== src/Supervision/Recovery.antt =====
-- How the restart loop (runSupervised in agentsessions/jsonrpc_stdio_session.go) ends when a child
-- crashes some number of times.
use go_agent_sessions.Prelude.{
  ℕ, zero, suc, ◌+◌, ◌≤◌, ◌<◌, ltb, ◌≡◌, refl, ap, ◌∙◌, Bool-cases, true, false, not, none, some,
  [], ◌∷◌, ◌++◌, if◌then◌else◌, inl, inr, arith,
}
use go_agent_sessions.Prelude.Int.{pos}
use go_agent_sessions.Attach.{positive_or}
use go_agent_sessions.Supervision.{
  ExitError, SupervisorOptions, Attempt, Supervised, judge, give_up, restart, supervise,
  run_supervised, reported_code, restart_eligible, compute_restart_backoff, restart_exhausted,
}

positive_or-zero : (m : ℕ) → positive_or 0 (pos m) ≡ m
positive_or-zero zero = refl
positive_or-zero (suc m) = refl

-- An attempt that crashes, and one that exits cleanly, while nobody stops the session.
abbrev pub crash : ExitError → Attempt
crash xe = record { exit = some xe; stopped = false; cut = false; respawn_error = none }

abbrev pub clean : Attempt
clean = record { exit = none; stopped = false; cut = false; respawn_error = none }

-- The first `k` attempts crash.
abbrev pub flaky : ℕ → (ℕ → ExitError) → ℕ → Attempt
flaky k xe n = if ltb n k then crash (xe n) else clean

module _ (opts : SupervisorOptions) (k : ℕ) (xe : ℕ → ExitError)
    (crashes : (n : ℕ) → restart_eligible (some (xe n)) ≡ true) where
  crash_goes_on :
      (at : ℕ → Attempt) (crashed : ℕ → ExitError → Attempt → Supervised → Supervised) (n : ℕ)
      (s : Supervised)
      → at n ≡ crash (xe n)
      → judge opts at crashed n
          (at n).exit
          (at n)
          (record s { last_exit = (at n).exit; waits = s.waits + 1 })
        ≡ crashed n
            (xe n)
            (crash (xe n))
            (record s { last_exit = some (xe n); waits = s.waits + 1 })
  unfolding judge
  crash_goes_on at crashed n s e =
      ap
        (λ a.
          judge opts at crashed n a.exit a (record s { last_exit = a.exit; waits = s.waits + 1 }))
        e
      ∙ ap
          (λ b.
            if not b
            then record s { last_exit = some (xe n); waits = s.waits + 1 }
            else crashed n (xe n) (crash (xe n))
                (record s { last_exit = some (xe n); waits = s.waits + 1 }))
          (crashes n)

  -- The loop's variables after a crash and the backoff.
  abbrev respawned : ℕ → Supervised → Supervised
  respawned n s = record {
    last_exit = some (xe n);
    waits = s.waits + 1;
    backoffs = s.backoffs ++ compute_restart_backoff (pos (n + 1)) opts.max_restart_backoff ∷ [];
    on_restart = s.on_restart ++ (n + 1, xe n) ∷ [];
  }

  crash_restarts :
      (at : ℕ → Attempt) (left n : ℕ) (s : Supervised)
      → at n ≡ crash (xe n)
      → supervise opts at (suc left) n s ≡ supervise opts at left (n + 1) (respawned n s)
  unfolding supervise restart
  crash_restarts at left n s e =
      crash_goes_on at (restart opts at (supervise opts at left (n + 1))) n s e

  crash_exhausts :
      (at : ℕ → Attempt) (n : ℕ) (s : Supervised)
      → at n ≡ crash (xe n)
      → supervise opts at 0 n s ≡ record s {
        last_exit = some (record (xe n) { cause = restart_exhausted });
        waits = s.waits + 1;
      }
  unfolding supervise give_up
  crash_exhausts at n s e = crash_goes_on at (give_up opts at) n s e

  clean_stops :
      (at : ℕ → Attempt) (crashed : ℕ → ExitError → Attempt → Supervised → Supervised) (n : ℕ)
      (s : Supervised)
      → at n ≡ clean
      → judge opts at crashed n
          (at n).exit
          (at n)
          (record s { last_exit = (at n).exit; waits = s.waits + 1 })
        ≡ record s { last_exit = none; waits = s.waits + 1 }
  unfolding judge
  clean_stops at crashed n s e =
      ap
        (λ a.
          judge opts at crashed n a.exit a (record s { last_exit = a.exit; waits = s.waits + 1 }))
        e

  clean_ends :
      (at : ℕ → Attempt) (left n : ℕ) (s : Supervised)
      → at n ≡ clean
      → supervise opts at left n s ≡ record s { last_exit = none; waits = s.waits + 1 }
  unfolding supervise
  clean_ends at zero n s e = clean_stops at (give_up opts at) n s e
  clean_ends at (suc left) n s e =
      clean_stops at (restart opts at (supervise opts at left (n + 1))) n s e

  flaky-crash : (n : ℕ) → ltb n k ≡ true → flaky k xe n ≡ crash (xe n)
  flaky-crash n e = rw e refl

  flaky-clean : (n : ℕ) → ltb n k ≡ false → flaky k xe n ≡ clean
  flaky-clean n e = rw e refl

  -- The end, seen from attempt `n`, where attempt `m` is the last one allowed.
  abbrev Ends : ℕ → ℕ → Supervised → Supervised → Type 0
  Ends m n s s' =
      (k ≤ m → (s'.last_exit ≡ none) × (s'.waits + n ≡ s.waits + k + 1))
      × (m < k
          → (s'.last_exit ≡ some (record (xe m) { cause = restart_exhausted }))
            × (s'.waits + n ≡ s.waits + m + 1))

  no_more :
      (m left n : ℕ) (s : Supervised)
      → n + left ≡ m
      → n ≤ k
      → ltb n k ≡ false
      → Ends m n s (supervise opts (flaky k xe) left n s)
  no_more m left n s e h f =
      rw (clean_ends (flaky k xe) left n s (flaky-clean n f))
        (λ a. (refl, ground arith), λ a. absurd (ground arith))

  supervise-flaky :
      (m left n : ℕ) (s : Supervised)
      → n + left ≡ m
      → n ≤ k
      → Ends m n s (supervise opts (flaky k xe) left n s)
  supervise-flaky m zero n s e h = elim (Bool-cases (ltb n k)) [
    | inl f ↦
        let i : n ≡ m = omega arith in
        rw (crash_exhausts (flaky k xe) n s (flaky-crash n f)) (
          λ a. absurd (ground arith),
          λ a. (ap (λ j. some (record (xe j) { cause = restart_exhausted })) i, omega arith),
        )
    | inr f ↦ no_more m zero n s e h f
  ]
  supervise-flaky m (suc left) n s e h = elim (Bool-cases (ltb n k)) [
    | inl f ↦
        let r = supervise-flaky m left (n + 1) (respawned n s) (omega arith) (ground arith) in
        rw (crash_restarts (flaky k xe) left n s (flaky-crash n f))
          (λ a. ((r.0 a).0, omega (arith, (r.0 a).1)), λ a. ((r.1 a).0, omega (arith, (r.1 a).1)))
    | inr f ↦ no_more m (suc left) n s e h f
  ]

  from_start :
      (m : ℕ)
      → opts.restart_on_crash ≡ pos m
      → Ends m 0
          (record { last_exit = none; waits = 0; backoffs = []; on_restart = [] })
          (run_supervised opts (flaky k xe))
  unfolding run_supervised
  from_start m e =
      let l : positive_or 0 opts.restart_on_crash ≡ m = ap (positive_or 0) e ∙ positive_or-zero m in
      rw l (
        supervise-flaky m m 0
          (record { last_exit = none; waits = 0; backoffs = []; on_restart = [] }) (omega arith)
          (omega arith))

  -- A child that crashes `k` times and then exits cleanly, where RestartOnCrash allows `k`
  -- restarts: the session ends without an error, and with code 0, after the clean attempt.
  pub run_supervised-recovers :
      (m : ℕ)
      → opts.restart_on_crash ≡ pos m
      → k ≤ m
      → ((run_supervised opts (flaky k xe)).last_exit ≡ none)
        × (reported_code (run_supervised opts (flaky k xe)).last_exit ≡ pos 0)
        × ((run_supervised opts (flaky k xe)).waits ≡ k + 1)
  unfolding reported_code
  run_supervised-recovers m e h =
      let r = (from_start m e).0 h in (r.0, rw r.0 refl, omega (arith, r.1))

  -- A child that crashes more often than RestartOnCrash allows restarts: the session ends after the
  -- last attempt that is allowed, with that attempt's error under the cause restart_exhausted.
  pub run_supervised-exhausts :
      (m : ℕ)
      → opts.restart_on_crash ≡ pos m
      → m < k
      → ((run_supervised opts (flaky k xe)).last_exit
          ≡ some (record (xe m) { cause = restart_exhausted }))
        × ((run_supervised opts (flaky k xe)).waits ≡ m + 1)
  run_supervised-exhausts m e h = let r = (from_start m e).1 h in (r.0, omega (arith, r.1))
