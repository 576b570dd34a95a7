-- ===== src/Supervision/Restarts.antt =====
-- The restart loop (runSupervised in agentsessions/jsonrpc_stdio_session.go).
use go_agent_sessions.Prelude.{
  Option-elim, if-elim, ℕ, zero, suc, ◌+◌, ◌≤◌, ◌≡◌, refl, sym, ap, ◌∙◌, not, Option, none, some,
  List, [], ◌∷◌, ◌++◌, map, append-nil, append_assoc, arith, inl, inr, ◌⊎◌,
}
use mathlib.Core.List.{map-append}
use go_agent_sessions.Prelude.Int.{ℤ, pos}
use go_agent_sessions.Attach.{positive_or}
use go_agent_sessions.Supervision.{
  WaitError, spawn_failed, ExitError, SupervisorOptions, Attempt, Supervised, judge, give_up,
  restart, supervise, run_supervised, restart_eligible, compute_restart_backoff,
}

-- The numbers of `k` restarts from `n` on.
abbrev pub numbers : ℕ → ℕ → List ℕ
numbers n zero = []
numbers n (suc k) = n ∷ numbers (n + 1) k

-- The backoffs before them.
abbrev pub schedule : ℤ → ℕ → ℕ → List ℤ
schedule longest n k = map (λ i. compute_restart_backoff (pos i) longest) (numbers n k)

extend {ℓ} :
    {A : Type ℓ} {ys ws : List A} (xs : List A) (y : A) (zs : List A)
    → ws ≡ ys ++ zs
    → ys ≡ xs ++ y ∷ []
    → ws ≡ xs ++ y ∷ zs
extend xs y zs e f = e ∙ ap (λ k. k ++ zs) f ∙ append_assoc xs (y ∷ []) zs

module _ (opts : SupervisorOptions) (attempts : ℕ → Attempt) where
  -- The loop has restarted `k` times since `s`, from attempt `n` on.
  record Restarted (left n : ℕ) (s s' : Supervised) : Type 0 where
    restarts : ℕ
    allowed : restarts ≤ left
    slept : s'.backoffs ≡ s.backoffs ++ schedule opts.max_restart_backoff (n + 1) restarts
    announced :
        map (λ p. p.0) s'.on_restart ≡ map (λ p. p.0) s.on_restart ++ numbers (n + 1) restarts
    waited :
        (s'.waits ≡ s.waits + restarts + 1)
        ⊎ ((s'.waits ≡ s.waits + restarts)
            × ((err : WaitError) × (s'.last_exit ≡ some (spawn_failed err))))

  -- A property of the end of the loop's body, from the two ways to get there.
  judge-elim :
      (P : Supervised → Type 0) (crashed : ℕ → ExitError → Attempt → Supervised → Supervised)
      (n : ℕ) (exit : Option ExitError) (a : Attempt) (s : Supervised)
      → P s
      → ((xe : ExitError) → exit ≡ some xe → P (crashed n xe a s))
      → P (judge opts attempts crashed n exit a s)
  unfolding judge
  judge-elim P crashed n none a s p q = if-elim P a.stopped (λ e. p) (λ e. p)
  judge-elim P crashed n (some xe) a s p q =
      if-elim P a.stopped (λ e. p)
        (λ e. if-elim P (not (restart_eligible (some xe))) (λ f. p) (λ f. q xe refl))

  -- The loop ends in the attempt that it waits for.
  stays :
      (left n : ℕ) (s : Supervised) (x : Option ExitError)
      → Restarted left n s (record s { last_exit = x; waits = s.waits + 1 })
  stays left n s x = record {
    restarts = 0;
    allowed = omega arith;
    slept = sym (append-nil _);
    announced = sym (append-nil _);
    waited = inl (omega arith);
  }

  -- One restart, and those that follow it.
  restarts_once :
      (left n : ℕ) (s s1 s' : Supervised) (xe : ExitError)
      → s1.waits ≡ s.waits + 1
      → s1.backoffs
        ≡ s.backoffs ++ compute_restart_backoff (pos (n + 1)) opts.max_restart_backoff ∷ []
      → s1.on_restart ≡ s.on_restart ++ (n + 1, xe) ∷ []
      → Restarted left (n + 1) s1 s'
      → Restarted (suc left) n s s'
  restarts_once left n s s1 s' xe w b r t = record {
    restarts = suc t.restarts;
    allowed = omega (arith, t.allowed);
    slept = extend _ _ _ t.slept b;
    announced =
        extend _ _ _ t.announced
          (ap (map (λ p. p.0)) r ∙ map-append (λ p. p.0) s.on_restart ((n + 1, xe) ∷ []));
    waited = elim t.waited [
      | inl e ↦ inl (omega (arith, e, w))
      | inr (e, failed) ↦ inr (omega (arith, e, w), failed)
    ];
  }

  not_spawned :
      (left n : ℕ) (s : Supervised) (err : WaitError)
      → s.last_exit ≡ some (spawn_failed err)
      → Restarted left n s s
  not_spawned left n s err e = record {
    restarts = 0;
    allowed = omega arith;
    slept = sym (append-nil _);
    announced = sym (append-nil _);
    waited = inr (omega arith, (err, e));
  }

  supervise-Restarted :
      (left n : ℕ) (s : Supervised) → Restarted left n s (supervise opts attempts left n s)
  unfolding supervise give_up restart
  supervise-Restarted zero n s =
      judge-elim (Restarted 0 n s) (give_up opts attempts) n (attempts n).exit (attempts n) _
        (stays 0 n s _) (λ xe e. stays 0 n s _)
  supervise-Restarted (suc left) n s =
      judge-elim (Restarted (suc left) n s)
        (restart opts attempts (supervise opts attempts left (n + 1))) n (attempts n).exit
        (attempts n) _ (stays (suc left) n s _)
        (λ xe e.
          if-elim (Restarted (suc left) n s) (attempts n).cut (λ f. stays (suc left) n s _)
            (λ f.
              Option-elim (Restarted (suc left) n s) (attempts n).respawn_error
                (restarts_once left n s _ _ xe refl refl refl (supervise-Restarted left (n + 1) _))
                (λ err.
                  restarts_once left n s _ _ xe refl refl refl
                    (not_spawned left (n + 1) _ err refl))))

  -- Whatever the attempts end with, the child is restarted at most RestartOnCrash times; OnRestart
  -- hears the numbers 1, 2, 3, ... in order, each after the backoff for that number; and the loop
  -- ends, having waited for the first child and for one child after each restart, unless the last
  -- spawn failed: then the exit is that failure's, and the loop has waited for all the others.
  pub run_supervised-Bounded :
      (k : ℕ) × (k ≤ positive_or 0 opts.restart_on_crash)
      × ((run_supervised opts attempts).backoffs ≡ schedule opts.max_restart_backoff 1 k)
      × (map (λ p. p.0) (run_supervised opts attempts).on_restart ≡ numbers 1 k)
      × (((run_supervised opts attempts).waits ≡ k + 1)
          ⊎ (((run_supervised opts attempts).waits ≡ k)
              × ((err : WaitError) × ((run_supervised opts attempts).last_exit
                    ≡ some (spawn_failed err)))))
  unfolding run_supervised
  run_supervised-Bounded =
      let r = supervise-Restarted (positive_or 0 opts.restart_on_crash) 0 _ in
      (
        r.restarts,
        r.allowed,
        r.slept,
        r.announced,
        elim r.waited [
          | inl e ↦ inl (omega (arith, e))
          | inr (e, failed) ↦ inr (omega (arith, e), failed)
        ],
      )

  pub waits-bound : (run_supervised opts attempts).waits ≤ positive_or 0 opts.restart_on_crash + 1
  waits-bound =
      let r = run_supervised-Bounded in
      elim r.4 [ inl e ↦ omega (arith, r.1, e) | inr (e, f) ↦ omega (arith, r.1, e) ]
