-- ===== src/Stdio/Steps.antt =====
-- What is held after the steps of an attempt (spawnAttempt in
-- agentsessions/streaming_stdio_session.go).
use go_agent_sessions.Prelude.{
  ℕ, Bool, true, false, not, ◌&&◌, List, [], ◌∷◌, ◌++◌, if◌then◌else◌, nat_eq, ◌==◌, ◌≡◌, refl,
  arith,
}
use go_agent_sessions.Prelude.Texts.{Bytes, is_blank}
use go_agent_sessions.Supervision.{sigkill}
use go_agent_sessions.Spawn.Options.{StartOptions}
use go_agent_sessions.Spawn.Attempt.{
  Step, sandbox_up, sandbox_down, limits_up, limits_down, reap, open_pipe, close_pipe, start,
  signal, write, Pipe, stdin_pipe, stdout_pipe, stderr_pipe, ptmx, on_stdin,
}

-- What is held open, stderr apart, which the sessions of these proofs do not pipe: the sandbox,
-- the limits, the ends of the pipes, and a child that has not been waited for.
pub record Held : Type 0 where
  pub sandbox : Bool
  pub limits : Bool
  pub stdin : Bool
  pub stdout : Bool
  pub child : Bool

set_pipe : Pipe → Bool → Held → Held
set_pipe stdin_pipe b h = record h { stdin = b }
set_pipe stdout_pipe b h = record h { stdout = b }
set_pipe stderr_pipe b h = h
set_pipe ptmx b h = record h { stdin = b; stdout = b }

hold : Step → Held → Held
unfolding set_pipe
hold sandbox_up h = record h { sandbox = true }
hold sandbox_down h = record h { sandbox = false }
hold limits_up h = record h { limits = true }
hold limits_down h = record h { limits = false }
hold reap h = record h { child = false }
hold (open_pipe p) h = set_pipe p true h
hold (close_pipe p) h = set_pipe p false h
hold (start pid) h = record h { child = true }
hold (signal sig) h = h
hold (write text) h = h

abbrev pub nothing_held : Held
nothing_held = record {
  sandbox = false;
  limits = false;
  stdin = false;
  stdout = false;
  child = false;
}

unfoldable pub held_after : Held → List Step → Held
unfolding hold
held_after h [] = h
held_after h (x ∷ xs) = held_after (hold x h) xs

-- The texts that the child is given.
abbrev pub writes : List Step → List Bytes
writes [] = []
writes (write text ∷ xs) = text ∷ writes xs
writes (x ∷ xs) = writes xs

-- Does the boot prompt go to stdin?
abbrev pub prompts : StartOptions → Bool
prompts opts = on_stdin opts && not (is_blank opts.boot_prompt)

-- What an attempt writes to the stdin of its child: the boot prompt, in the first attempt and in
-- boot mode stdin, unless it is empty.
abbrev pub prompt_of : ℕ → StartOptions → List Bytes
prompt_of attempt opts = if attempt == 0 && prompts opts then opts.boot_prompt ∷ [] else []

-- The sandbox, where there is a profile, has been taken.
abbrev pub boxed : Bool → List Step
boxed true = []
boxed false = sandbox_up ∷ []

-- Every way to a result, with and without a sandbox.
module _ (b : Bool) where
  abbrev pub released : List Step
  released = limits_down ∷ (if b then [] else sandbox_down ∷ [])

  abbrev pub taken : List Step
  taken = boxed b ++ limits_up ∷ []

  abbrev pub begun : ℕ → List Step
  begun pid = taken ++ open_pipe stdin_pipe ∷ open_pipe stdout_pipe ∷ start pid ∷ []

  abbrev pub running : Held
  running = record { sandbox = not b; limits = true; stdin = true; stdout = true; child = true }

pub begun-Held : (b : Bool) (pid : ℕ) → held_after nothing_held (begun b pid) ≡ running b
unfolding held_after
begun-Held true pid = refl
begun-Held false pid = refl

pub written-Held :
    (b : Bool) (pid : ℕ) (text : Bytes)
    → held_after nothing_held (begun b pid ++ write text ∷ []) ≡ running b
unfolding held_after
written-Held true pid text = refl
written-Held false pid text = refl

pub begun-writes : (b : Bool) (pid : ℕ) → writes (begun b pid) ≡ []
begun-writes true pid = refl
begun-writes false pid = refl

pub written-writes :
    (b : Bool) (pid : ℕ) (text : Bytes) → writes (begun b pid ++ write text ∷ []) ≡ text ∷ []
written-writes true pid text = refl
written-writes false pid text = refl

pub unprompted :
    (attempt : ℕ) (opts : StartOptions)
    → not (attempt == 0 && on_stdin opts && not (is_blank opts.boot_prompt)) ≡ true
    → prompt_of attempt opts ≡ []
unprompted attempt opts e = ground (arith, e)

pub prompted :
    (attempt : ℕ) (opts : StartOptions)
    → not (attempt == 0 && on_stdin opts && not (is_blank opts.boot_prompt)) ≡ false
    → prompt_of attempt opts ≡ opts.boot_prompt ∷ []
prompted attempt opts e = ground (arith, e)

pub killed-Held :
    (b : Bool) (pid : ℕ)
    → held_after nothing_held (
        begun b pid
        ++ signal sigkill ∷ reap ∷ close_pipe stdin_pipe ∷ close_pipe stdout_pipe ∷ released b)
      ≡ nothing_held
unfolding held_after
killed-Held true pid = refl
killed-Held false pid = refl

pub unstarted-Held :
    (b : Bool)
    → held_after nothing_held (
        taken b
        ++ open_pipe stdin_pipe
          ∷ open_pipe stdout_pipe
          ∷ close_pipe stdin_pipe
          ∷ close_pipe stdout_pipe
          ∷ released b)
      ≡ nothing_held
unfolding held_after
unstarted-Held true = refl
unstarted-Held false = refl

pub half_open-Held :
    (b : Bool)
    → held_after nothing_held (taken b ++ open_pipe stdin_pipe ∷ close_pipe stdin_pipe ∷ released b)
      ≡ nothing_held
unfolding held_after
half_open-Held true = refl
half_open-Held false = refl

pub taken-Held : (b : Bool) → held_after nothing_held (taken b ++ released b) ≡ nothing_held
unfolding held_after
taken-Held true = refl
taken-Held false = refl

pub boxed-Held :
    (b : Bool)
    → held_after nothing_held (boxed b ++ (if b then [] else sandbox_down ∷ [])) ≡ nothing_held
unfolding held_after
boxed-Held true = refl
boxed-Held false = refl
