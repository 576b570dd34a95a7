-- ===== src/JsonRpc/Alike.antt =====
-- The operations of agentsessions/jsonrpc_stdio_session.go that have a counterpart in
-- agentsessions/streaming_stdio_session.go, against it.
use go_agent_sessions.Prelude.{
  ℕ, Bool, true, false, Bool-cases, Option-cases, not, ◌&&◌, Option, none, some, List, [], ◌∷◌,
  ◌++◌, ◌≡◌, refl, ap, inl, inr, append_assoc, if-elim, ◌∙◌, arith, ◌==◌, nat_eq,
}
use go_agent_sessions.Prelude.Texts.{Bytes, is_blank}
use go_agent_sessions.Spawn.Options.{Command, StartOptions}
use go_agent_sessions.Spawn.Limits.{apply_resource_limits}
use go_agent_sessions.Spawn.Attempt.{
  Setup, Step, apply_sandbox, build_command, on_stdin, open_pipe, start, stdin_pipe, stdout_pipe,
  limits_up, start_error, close_pipe, cleanup, release_sandbox, limits_error, sandbox_error,
  binary_not_found,
}
use go_agent_sessions.Child.{ChildSession, tick_activity}
use go_agent_sessions.Turns.{stopped}
use go_agent_sessions.Stdio.Spawning.{Launched}
use go_agent_sessions.Stdio.Spawning as Pipes
use go_agent_sessions.Stdio.Clients.{
  InputError, World, Waited, exited, elapsed, cancelled, framed, StartError,
}
use go_agent_sessions.Stdio.Clients as Stdio
use go_agent_sessions.JsonRpc.{new_session, fail_pending, fail_all}
use go_agent_sessions.JsonRpc as Client
use go_agent_sessions.JsonRpc.Hosting.{Hosted, sync}
use go_agent_sessions.JsonRpc.Spawning.{
  Spawned, failed, running, boot_stage, exec_stage, pipe_stage, limited_stage, spawn_attempt,
}
use go_agent_sessions.JsonRpc.Clients.{
  send_input, last_grace, eof_grace, end_child, stop, resolve_json_rpc_log_path,
}

-- A session with its child in this state, and with a client that has made no Call.
abbrev pub hosting : ChildSession → Hosted
hosting s = record { child = s; client = sync s new_session }

abbrev pub hosting_spawned : Pipes.Spawned → Spawned
hosting_spawned sp = record {
  session = hosting sp.session;
  steps = sp.steps;
  error = sp.error;
  command = sp.command;
}

boot_stage-Alike :
    (l : Launched) (attempt : ℕ) (cmd : Command) (pid : ℕ) (steps : List Step) (s : ChildSession)
    → boot_stage l.prompt_ok attempt cmd steps (running attempt pid (hosting s))
      ≡ hosting_spawned (Pipes.prompt_stage l attempt cmd pid steps s)
unfolding boot_stage running failed Pipes.prompt_stage Pipes.refuse tick_activity
boot_stage-Alike l attempt cmd pid steps s =
    elim (Bool-cases (attempt == 0 && on_stdin s.opts && not (is_blank s.opts.boot_prompt))) [
      | inl e ↦ elim (Bool-cases l.prompt_ok) [ inl f ↦ rw (e, f) refl | inr f ↦ rw (e, f) refl ]
      | inr e ↦ rw e refl
    ]

exec_stage-Alike :
    (l : Launched) (attempt : ℕ) (cmd : Command) (steps : List Step) (s : ChildSession)
    → pipe_stage l attempt cmd steps (hosting s)
      ≡ hosting_spawned (Pipes.start_stage l attempt cmd steps s)
unfolding pipe_stage exec_stage failed Pipes.start_stage Pipes.refuse
exec_stage-Alike l attempt cmd steps s = elim (Bool-cases l.stdin_ok) [
  | inr e ↦ rw e refl
  | inl e ↦ elim (Bool-cases l.stdout_ok) [
    | inr f ↦ rw (e, f) refl
    | inl f ↦ elim (Option-cases l.pid) [
      | inl g ↦
          rw (e, f, g)
            (ap (λ x. failed (hosting s) x start_error)
              (append_assoc steps (open_pipe stdin_pipe ∷ open_pipe stdout_pipe ∷ [])
                (close_pipe stdin_pipe ∷ close_pipe stdout_pipe ∷ cleanup s.opts)))
      | inr (pid, g) ↦
          rw (e, f, g)
            (ap (λ x. boot_stage l.prompt_ok attempt cmd x (running attempt pid (hosting s)))
                (append_assoc steps (open_pipe stdin_pipe ∷ open_pipe stdout_pipe ∷ [])
                  (start pid ∷ []))
              ∙ boot_stage-Alike l attempt cmd pid
                  (steps ++ open_pipe stdin_pipe ∷ open_pipe stdout_pipe ∷ start pid ∷ []) s)
    ]
  ]
]

limited_stage-Alike :
    (setup : Setup) (l : Launched) (attempt : ℕ) (cmd : Command) (steps : List Step)
    (s : ChildSession)
    → limited_stage setup l attempt (cmd, steps) (hosting s)
      ≡ hosting_spawned (Pipes.limits_stage setup l attempt (cmd, steps) s)
unfolding limited_stage failed Pipes.limits_stage Pipes.refuse
limited_stage-Alike setup l attempt cmd steps s =
    elim (apply_resource_limits setup.host s.opts.resource_limits cmd)
      as (λ o.
        (elim o as (λ _. Spawned) [
          | none ↦ failed (hosting s) (steps ++ release_sandbox s.opts) limits_error
          | some wrapped ↦ pipe_stage l attempt wrapped (steps ++ limits_up ∷ []) (hosting s)
        ])
        ≡ hosting_spawned (elim o as (λ _. Pipes.Spawned) [
          | none ↦ Pipes.refuse s (steps ++ release_sandbox s.opts) limits_error
          | some wrapped ↦ Pipes.start_stage l attempt wrapped (steps ++ limits_up ∷ []) s
        ])) [
          | none ↦ refl
          | some wrapped ↦ exec_stage-Alike l attempt wrapped (steps ++ limits_up ∷ []) s
        ]

boxed-Alike :
    (setup : Setup) (l : Launched) (attempt : ℕ) (s : ChildSession)
    (o : Option (Command × List Step))
    → (elim o as (λ _. Spawned) [
      | none ↦ failed (hosting s) [] sandbox_error
      | some boxed ↦ limited_stage setup l attempt boxed (hosting s)
    ])
      ≡ hosting_spawned (elim o as (λ _. Pipes.Spawned) [
        | none ↦ Pipes.refuse s [] sandbox_error
        | some boxed ↦ Pipes.limits_stage setup l attempt boxed s
      ])
unfolding failed Pipes.refuse
boxed-Alike setup l attempt s none = refl
boxed-Alike setup l attempt s (some (cmd, steps)) = limited_stage-Alike setup l attempt cmd steps s

pub spawn_attempt-Alike :
    (setup : Setup) (l : Launched) (attempt : ℕ) (s : ChildSession)
    → spawn_attempt setup l attempt (hosting s)
      ≡ hosting_spawned (Pipes.spawn_attempt setup l attempt s)
unfolding spawn_attempt failed Pipes.spawn_attempt Pipes.refuse
spawn_attempt-Alike setup l attempt s =
    let built : Bytes → Command =
      λ binary. build_command setup s.opts binary s.last_session_id attempt (not s.opts.stderr) in
    elim (setup.adapter.detect)
      as (λ o.
        (elim o as (λ _. Spawned) [
          | none ↦ failed (hosting s) [] binary_not_found
          | some binary ↦ elim (apply_sandbox setup s.opts (built binary)) as (λ _. Spawned) [
            | none ↦ failed (hosting s) [] sandbox_error
            | some boxed ↦ limited_stage setup l attempt boxed (hosting s)
          ]
        ])
        ≡ hosting_spawned (elim o as (λ _. Pipes.Spawned) [
          | none ↦ Pipes.refuse s [] binary_not_found
          | some binary ↦ elim (apply_sandbox setup s.opts (built binary)) as (λ _. Pipes.Spawned) [
            | none ↦ Pipes.refuse s [] sandbox_error
            | some boxed ↦ Pipes.limits_stage setup l attempt boxed s
          ]
        ])) [
          | none ↦ refl
          | some binary ↦ boxed-Alike setup l attempt s (apply_sandbox setup s.opts (built binary))
        ]

pub send_input-Alike :
    (ok : Bool) (payload : Bytes) (s : ChildSession)
    → send_input ok payload (hosting s)
      ≡ (let (t, written, e) = Stdio.send_input ok payload s in (hosting t, written, e))
unfolding send_input Stdio.send_input framed tick_activity
send_input-Alike ok payload s = elim (Bool-cases s.alive) [
  | inr e ↦ rw e refl
  | inl e ↦ elim (Bool-cases s.input) [
    | inr f ↦ rw (e, f) refl
    | inl f ↦ elim (Bool-cases ok) [ inl g ↦ rw (e, f, g) refl | inr g ↦ rw (e, f, g) refl ]
  ]
]

eof_grace-Alike :
    (ok : Bool) (eof_wait second_wait : Waited)
    → eof_grace ok eof_wait second_wait ≡ Stdio.term_stage ok eof_wait second_wait
unfolding eof_grace last_grace Stdio.term_stage Stdio.kill_stage
eof_grace-Alike ok exited second_wait = refl
eof_grace-Alike true elapsed exited = refl
eof_grace-Alike true elapsed elapsed = refl
eof_grace-Alike true elapsed cancelled = refl
eof_grace-Alike true cancelled exited = refl
eof_grace-Alike true cancelled elapsed = refl
eof_grace-Alike true cancelled cancelled = refl
eof_grace-Alike false elapsed second_wait = refl
eof_grace-Alike false cancelled second_wait = refl

client_stops :
    (s : ChildSession) → (c : Client.Session) × (Client.stop (sync s new_session) ≡ some c)
unfolding Client.stop new_session fail_pending fail_all
client_stops s =
    if-elim (λ o. (c : Client.Session) × (o ≡ some c)) s.stop_requested (λ e. (_, refl))
      (λ e. (_, refl))

end_child-Alike :
    (w : World) (s : ChildSession)
    → s.stop_requested ≡ false
    → end_child w.term_ok w.eof_wait w.second_wait s
      ≡ (Stdio.stop w.term_ok w.eof_wait w.second_wait s).1
unfolding end_child Stdio.stop
end_child-Alike w s f = let g = eof_grace-Alike w.term_ok w.eof_wait w.second_wait in ground arith

-- The first Stop.
stop_first :
    (w : World) (h : Hosted) (c : Client.Session)
    → h.child.stop_requested ≡ false
    → Client.stop h.client ≡ some c
    → stop w.term_ok w.eof_wait w.second_wait h
      ≡ some (
        record {
          child = record h.child { alive = false; state = stopped; stop_requested = true };
          client = c;
        },
        end_child w.term_ok w.eof_wait w.second_wait h.child,
      )
unfolding stop
stop_first w h c f e = ground arith

-- Stop does the same to the child.
pub stop-Alike :
    (w : World) (s : ChildSession)
    → (h : Hosted) × (stop w.term_ok w.eof_wait w.second_wait (hosting s)
        ≡ some (h, (Stdio.stop w.term_ok w.eof_wait w.second_wait s).1))
unfolding stop Stdio.stop
stop-Alike w s =
    let (c, e) = client_stops s in
    let after : Hosted = record {
      child = record s { alive = false; state = stopped; stop_requested = true };
      client = c;
    } in
    elim (Bool-cases s.stop_requested) [
      | inl f ↦ (hosting s, rw f refl)
      | inr f ↦
          let g = end_child-Alike w s f in
          (after, stop_first w (hosting s) c f e ∙ ap (λ x. some (after, x)) g)
    ]

pub resolve-Alike :
    (join : List Bytes → Bytes) (mkdir_ok : Bool) (opts : StartOptions)
    → resolve_json_rpc_log_path join mkdir_ok opts ≡ Stdio.resolve_log_path join mkdir_ok opts
unfolding resolve_json_rpc_log_path Stdio.resolve_log_path
resolve-Alike join mkdir_ok opts = ground arith
