-- ===== src/Manager/Examples.antt =====
-- The theorems on agentsessions/manager.go at concrete inputs.
use go_agent_sessions.Prelude.{
  map, ◌≡◌, refl, subst, true, false, none, some, [], ◌∷◌, arith, List, nat_eq, string_eq,
}
use go_agent_sessions.Prelude.Int.{pos, negsuc}
use go_agent_sessions.Lifecycle.{no_caps}
use go_agent_sessions.Manager.State.{Manager, Runtime, StartRequest, reported}
use go_agent_sessions.Manager.Launch.{session}
use go_agent_sessions.Manager.Watch.{wait_session, exited, get}
use go_agent_sessions.Manager.Moves.{
  Move, starts, launches, wait_ends, delivers, stops, shuts_down, new_manager, run,
}
use go_agent_sessions.Manager.Invariant.{Inv}
use mathlib.Core.List.{Perm}
use go_agent_sessions.Manager.Telling.{recorded, emitted, all_allowed}
use go_agent_sessions.Manager.Lives.{manager_run-Told}
use go_agent_sessions.Manager.Exits.{manager_run-total}
use go_agent_sessions.Manager.Reuse.{same_id_panics, exit_reported}

abbrev fake : Runtime
fake = record { id = "fake"; kind = "cli"; caps = no_caps }

abbrev request : StartRequest
request = record {
  id = "a";
  runtime = some fake;
  workdir = "/w";
  attach_enabled = false;
  ring_bytes = pos 0;
  subscriber_depth = pos 0;
  session_meta = [];
}

-- A session that is started, stopped, and ends by itself before the Manager is shut down.
abbrev one_session : List Move
one_session =
    starts request
    ∷ launches 0 (session 7 100)
    ∷ stops "a"
    ∷ wait_ends 0 (negsuc 0) (some (reported "signal: terminated"))
    ∷ delivers 0 100
    ∷ shuts_down
    ∷ []

-- Both sessions of the id "a" run.
abbrev twice : Manager
twice =
    elim (run
      (starts request
        ∷ launches 0 (session 7 100)
        ∷ starts request
        ∷ launches 1 (session 8 101)
        ∷ [])
      (new_manager false false false)) [ none ↦ new_manager false false false | some m ↦ m ]

same_id_panics_example :
    run
      (wait_ends 0 (pos 0) none ∷ delivers 0 100 ∷ wait_ends 1 (pos 1) none ∷ delivers 1 101 ∷ [])
      twice
    ≡ none
unfolding run new_manager
same_id_panics_example =
    same_id_panics "a" 0 1 7 8 (pos 0) (pos 1) none none 100 101 twice (omega arith) refl refl refl
      refl refl

manager_run-total_example :
    (m : Manager) × (run one_session (new_manager true true true) ≡ some m) × Inv m
unfolding run new_manager
manager_run-total_example =
    manager_run-total true true true one_session (tt, (refl, (tt, (tt, (tt, (tt, tt))))))

told_example :
    (m : Manager) × (run one_session (new_manager true true true) ≡ some m)
    × Perm (map recorded m.states) (map emitted m.events)
    × (all_allowed m.events ≡ true)
unfolding run new_manager
told_example = manager_run-Told true one_session (tt, (refl, (tt, (tt, (tt, (tt, tt))))))

-- One session runs.
abbrev once : Manager
once =
    elim (run (starts request ∷ launches 0 (session 7 100) ∷ []) (new_manager false false false)) [
      | none ↦ new_manager false false false
      | some m ↦ m
    ]

once-Inv : Inv once
unfolding run new_manager
once-Inv =
    let (m, e, v) =
      manager_run-total false false false (starts request ∷ launches 0 (session 7 100) ∷ [])
        (tt, (refl, tt)) in
    subst Inv (cc e) v

exit_reported_example :
    (m' : Manager) × (run
        (wait_ends 0 (pos 3) (some (reported "exit 3")) ∷ delivers 0 100 ∷ [])
        once
      ≡ some m')
    × (wait_session "a" m' ≡ exited (pos 3) (some (reported "exit 3")))
    × (get "a" m' ≡ none)
unfolding run new_manager
exit_reported_example =
    exit_reported "a" 0 7 100 none (pos 3) (some (reported "exit 3")) once once-Inv refl
