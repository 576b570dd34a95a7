-- ===== src/Spawn/Signals.antt =====
-- agentsessions/process_group_unix.go: the process group of a child, and signals to it.
use go_agent_sessions.Prelude.{ℕ, zero, suc, Bool, true, false, Option, none, some, List, [], ◌∷◌}

-- syscall.SysProcAttr, as far as the sessions set it.
pub record SysProcAttr : Type 0 where
  pub setpgid : Bool

-- configureCommandProcessGroup
unfoldable pub configure_command_process_group : Option SysProcAttr → Option SysProcAttr
configure_command_process_group none = some (record { setpgid = true })
configure_command_process_group (some attr) = some (record attr { setpgid = true })

-- An answer of kill(2): done, no such process, or another error.
pub data Killed : Type 0 where
  done no_such_process other_error : Killed

-- What is asked of the operating system: a signal to the group of a pid, or to the process.
pub data Kill : Type 0 where
  to_group to_process : ℕ → ℕ → Kill

-- After the answer for the group: the second try, whose error counts unless the process has gone.
unfoldable pub fallback : ℕ → ℕ → Killed → Killed → List Kill × Bool
fallback pid sig done second = (to_group pid sig ∷ [], true)
fallback pid sig no_such_process other_error = (to_group pid sig ∷ to_process pid sig ∷ [], false)
fallback pid sig no_such_process done = (to_group pid sig ∷ to_process pid sig ∷ [], true)
fallback pid sig no_such_process no_such_process =
    (to_group pid sig ∷ to_process pid sig ∷ [], true)
fallback pid sig other_error other_error = (to_group pid sig ∷ to_process pid sig ∷ [], false)
fallback pid sig other_error done = (to_group pid sig ∷ to_process pid sig ∷ [], true)
fallback pid sig other_error no_such_process = (to_group pid sig ∷ to_process pid sig ∷ [], true)

-- signalProcessGroup, with the pid of the process, if it has been started, and the answers of the
-- two kills: what is sent, and whether there is no error.
unfoldable pub signal_process_group : Option ℕ → ℕ → Killed → Killed → List Kill × Bool
unfolding fallback
signal_process_group none sig first second = ([], true)
signal_process_group (some zero) sig first second = ([], true)
signal_process_group (some (suc n)) sig first second = fallback (suc n) sig first second
