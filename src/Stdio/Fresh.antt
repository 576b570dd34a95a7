-- ===== src/Stdio/Fresh.antt =====
-- A session that Start of agentsessions/streaming_stdio_session.go gives has just begun.
use go_agent_sessions.Prelude.{
  ℕ, ◌+◌, if◌then◌else◌, Bool, true, false, not, ◌&&◌, ◌||◌, Option, none, some, List, nat_eq, ◌==◌,
  ◌≡◌, refl, subst, if-elim, Option-elim, Option-cases, inl, inr,
}
use go_agent_sessions.Prelude.Texts.{Bytes, is_blank}
use go_agent_sessions.Spawn.Options.{StartOptions, Command}
use go_agent_sessions.Spawn.Limits.{apply_resource_limits}
use go_agent_sessions.Spawn.Attempt.{
  SpawnError, Setup, Step, on_stdin, build_command, apply_sandbox,
}
use go_agent_sessions.Child.{ChildSession, new_session, tick_activity}
use go_agent_sessions.Stdio.Spawning.{
  Launched, Spawned, refuse, prompt_stage, start_stage, limits_stage, spawn_attempt,
}
use go_agent_sessions.Stdio.Clients.{
  InputError, send_input, World, Started, StartError, start_failed, first_sent, skips_first_turn,
  first_turn, spawned_stage, log_stage, resolve_log_path, start_session,
}

-- The session is alive, nobody has stopped it or waited for it, and it has the session id of the
-- options.
abbrev pub Fresh : Bytes → ChildSession → Type 0
Fresh id s =
    (s.alive ≡ true) × (s.stop_requested ≡ false) × (s.done ≡ false) × (s.last_session_id ≡ id)

-- What an attempt may change in the session.
abbrev pub attempted : Option ℕ → Bool → Bool → ℕ → ℕ → ℕ → ChildSession → ChildSession
attempted cmd input output started_pid last_pid ticks s = record s {
  cmd = cmd;
  input = input;
  output = output;
  started_pid = started_pid;
  last_pid = last_pid;
  ticks = ticks;
}

-- A property of sessions that an attempt does not touch.
module _ (P : ChildSession → Type 0)
    (kept : (c : Option ℕ) (i o : Bool) (p q t : ℕ) (s : ChildSession)
      → P s
      → P (attempted c i o p q t s)) where
  abbrev Holds : Spawned → Type 0
  Holds r = P r.session

  prompt_stage-Holds :
      (l : Launched) (attempt pid : ℕ) (cmd : Command) (steps : List Step) (s : ChildSession)
      → P s
      → Holds (prompt_stage l attempt cmd pid steps s)
  unfolding prompt_stage refuse tick_activity
  prompt_stage-Holds l attempt pid cmd steps s v =
      let started = if attempt == 0 then pid else s.started_pid in
      let begun = kept (some pid) true true started pid s.ticks s v in
      if-elim Holds (not (attempt == 0 && on_stdin s.opts && not (is_blank s.opts.boot_prompt)))
        (λ e. begun)
        (λ e.
          if-elim Holds l.prompt_ok (λ f. kept (some pid) true true started pid (s.ticks + 1) s v)
            (λ f. begun))

  start_stage-Holds :
      (l : Launched) (attempt : ℕ) (cmd : Command) (steps : List Step) (s : ChildSession)
      → P s
      → Holds (start_stage l attempt cmd steps s)
  unfolding start_stage refuse
  start_stage-Holds l attempt cmd steps s v =
      if-elim Holds (not l.stdin_ok) (λ e. v)
        (λ e.
          if-elim Holds (not l.stdout_ok) (λ f. v)
            (λ f. Option-elim Holds l.pid v (λ pid. prompt_stage-Holds l attempt pid cmd _ s v)))

  limits_stage-Holds :
      (setup : Setup) (l : Launched) (attempt : ℕ) (cmd : Command) (steps : List Step)
      (s : ChildSession)
      → P s
      → Holds (limits_stage setup l attempt (cmd, steps) s)
  unfolding limits_stage refuse
  limits_stage-Holds setup l attempt cmd steps s v =
      Option-elim Holds (apply_resource_limits setup.host s.opts.resource_limits cmd) v
        (λ wrapped. start_stage-Holds l attempt wrapped _ s v)

  pub spawn_attempt-Holds :
      (setup : Setup) (l : Launched) (attempt : ℕ) (s : ChildSession)
      → P s
      → Holds (spawn_attempt setup l attempt s)
  unfolding spawn_attempt refuse
  spawn_attempt-Holds setup l attempt s v = Option-elim Holds setup.adapter.detect v (λ binary.
      Option-elim Holds
        (apply_sandbox setup s.opts
          (build_command setup s.opts binary s.last_session_id attempt (not s.opts.stderr)))
        v (λ boxed. limits_stage-Holds setup l attempt boxed.0 boxed.1 s v))

-- The session has a child and its stdin.
abbrev pub Running : ChildSession → Type 0
Running s = (s.input ≡ true) × ((pid : ℕ) × (s.cmd ≡ some pid))

-- An attempt without an error leaves a child.
abbrev Runs : Spawned → Type 0
Runs r = elim r.error [ none ↦ Running r.session | some e ↦ Unit {0} ]

prompt_stage-Runs :
    (l : Launched) (attempt pid : ℕ) (cmd : Command) (steps : List Step) (s : ChildSession)
    → Runs (prompt_stage l attempt cmd pid steps s)
unfolding prompt_stage refuse tick_activity
prompt_stage-Runs l attempt pid cmd steps s =
    if-elim Runs (not (attempt == 0 && on_stdin s.opts && not (is_blank s.opts.boot_prompt)))
      (λ e. (refl, (pid, refl)))
      (λ e. if-elim Runs l.prompt_ok (λ f. (refl, (pid, refl))) (λ f. tt))

start_stage-Runs :
    (l : Launched) (attempt : ℕ) (cmd : Command) (steps : List Step) (s : ChildSession)
    → Runs (start_stage l attempt cmd steps s)
unfolding start_stage refuse
start_stage-Runs l attempt cmd steps s =
    if-elim Runs (not l.stdin_ok) (λ e. tt)
      (λ e.
        if-elim Runs (not l.stdout_ok) (λ f. tt)
          (λ f. Option-elim Runs l.pid tt (λ pid. prompt_stage-Runs l attempt pid cmd _ s)))

limits_stage-Runs :
    (setup : Setup) (l : Launched) (attempt : ℕ) (cmd : Command) (steps : List Step)
    (s : ChildSession)
    → Runs (limits_stage setup l attempt (cmd, steps) s)
unfolding limits_stage refuse
limits_stage-Runs setup l attempt cmd steps s =
    Option-elim Runs (apply_resource_limits setup.host s.opts.resource_limits cmd) tt
      (λ wrapped. start_stage-Runs l attempt wrapped _ s)

spawn_attempt-Runs :
    (setup : Setup) (l : Launched) (attempt : ℕ) (s : ChildSession)
    → Runs (spawn_attempt setup l attempt s)
unfolding spawn_attempt refuse
spawn_attempt-Runs setup l attempt s = Option-elim Runs setup.adapter.detect tt (λ binary.
    Option-elim Runs
      (apply_sandbox setup s.opts
        (build_command setup s.opts binary s.last_session_id attempt (not s.opts.stderr)))
      tt (λ boxed. limits_stage-Runs setup l attempt boxed.0 boxed.1 s))

-- A session that has begun.
abbrev pub Begun : Bytes → ChildSession → Type 0
Begun id s = Fresh id s × Running s

-- Where there is a session.
abbrev MayBegun : Bytes → Started → Type 0
MayBegun id r = elim r.session [ none ↦ Unit {0} | some s ↦ Begun id s ]

abbrev Answered : Type 0
Answered = ChildSession × Bytes × Option InputError

send_input-Begun :
    (id payload : Bytes) (ok : Bool) (s : ChildSession)
    → Begun id s
    → Begun id (send_input ok payload s).0
unfolding send_input tick_activity
send_input-Begun id payload ok s v =
    if-elim (λ (r : Answered). Begun id r.0) (not s.alive || not s.input) (λ e. v)
      (λ e. if-elim (λ (r : Answered). Begun id r.0) ok (λ f. v) (λ f. v))

first_sent-Begun :
    (id : Bytes) (w : World) (steps : List Step) (s : ChildSession) (sent : Bytes)
    (o : Option InputError)
    → Begun id s
    → MayBegun id (first_sent w steps (s, sent, o))
unfolding first_sent start_failed
first_sent-Begun id w steps s sent none v = v
first_sent-Begun id w steps s sent (some e) v = tt

first_turn-Begun :
    (id : Bytes) (w : World) (steps : List Step) (s : ChildSession)
    → Begun id s
    → MayBegun id (first_turn w steps s)
unfolding first_turn
first_turn-Begun id w steps s v =
    let r = send_input w.turn_ok s.opts.first_turn_payload s in
    if-elim (MayBegun id) (skips_first_turn s.opts) (λ e. v)
      (λ e.
        first_sent-Begun id w steps r.0 r.1 r.2
          (send_input-Begun id s.opts.first_turn_payload w.turn_ok s v))

spawned_stage-Begun :
    (id : Bytes) (w : World) (dir : Bytes) (sp : Spawned)
    → Fresh id sp.session
    → Runs sp
    → MayBegun id (spawned_stage w dir sp)
unfolding spawned_stage start_failed
spawned_stage-Begun id w dir sp v r = elim (Option-cases sp.error) [
  | inl e ↦
      let running : Running sp.session =
        subst (λ (o : Option SpawnError). elim o [ none ↦ Running sp.session | some x ↦ Unit {0} ])
          e r in
      rw e (first_turn-Begun id w sp.steps sp.session (v, running))
  | inr (x, e) ↦ rw e tt
]

log_stage-Begun :
    (w : World) (dir : Bytes) (opts : StartOptions) (path : Bytes) (o : Option StartError)
    → MayBegun opts.session_id_preset (log_stage w dir opts (path, o))
unfolding log_stage start_failed new_session
log_stage-Begun w dir opts path (some e) = tt
log_stage-Begun w dir opts path none =
    if-elim (MayBegun opts.session_id_preset) (not w.create_ok) (λ e. tt)
      (λ e.
        spawned_stage-Begun opts.session_id_preset w dir
          (spawn_attempt w.setup w.launched 0 (new_session dir opts w.room))
          (spawn_attempt-Holds (Fresh opts.session_id_preset) (λ c i o p q t s v. v) w.setup
            w.launched 0 (new_session dir opts w.room) (refl, refl, refl, refl))
          (spawn_attempt-Runs w.setup w.launched 0 (new_session dir opts w.room)))

-- The session of a Start that gives one.
pub start_session-Begun :
    (w : World) (opts planted : StartOptions) (dir : Bytes) (s : ChildSession)
    → w.plant opts ≡ some (dir, planted)
    → (start_session w opts).session ≡ some s
    → Begun planted.session_id_preset s
unfolding start_session start_failed
start_session-Begun w opts planted dir s e f =
    let found : MayBegun planted.session_id_preset (start_session w opts) =
      if-elim (MayBegun planted.session_id_preset) (is_blank opts.workdir) (λ h. tt)
        (λ h. rw e (
          let r = resolve_log_path w.join w.mkdir_ok planted in
          log_stage-Begun w dir planted r.0 r.1)) in
    subst
      (λ (o : Option ChildSession). elim o [
        | none ↦ Unit {0}
        | some x ↦ Begun planted.session_id_preset x
      ])
      f found
