-- ===== src/Pty/Starting.antt =====
-- Start of agentsessions/pty_session.go on every branch.
use go_agent_sessions.Prelude.{
  Bool, true, false, not, ◌&&◌, ◌||◌, Option, none, some, List, [], ◌∷◌, ◌++◌, if◌then◌else◌,
  nat_eq, ◌≡◌, refl, ap, sym, subst, ◌∙◌, arith, inl, inr, ◌⊎◌, if-elim,
}
use go_agent_sessions.Prelude.Texts.{Bytes, is_blank}
use go_agent_sessions.Spawn.Options.{StartOptions, Command}
use go_agent_sessions.Spawn.Attempt.{Step, signal, SpawnError, on_stdin}
use go_agent_sessions.Child.{ChildSession, new_session, tick_activity}
use go_agent_sessions.Child.Killing.{sent}
use go_agent_sessions.Child.Watching.{sigterm}
use go_agent_sessions.Stdio.Steps.{held_after, nothing_held, prompts}
use go_agent_sessions.Stdio.Clients.{InputError, framed, Waited, kill_stage}
use go_agent_sessions.Pty.Attempt.{spawn_attempt}
use go_agent_sessions.Pty.Clients.{
  send_input, write_raw_input_string, signals, stop, World, Started, StartError, write_prompt_error,
  context_done, auto_fire_error, start_failed, stopped_start, first_sent, skips_first_turn,
  first_turn, prompt_sent, prompt_stage, spawned_stage, log_stage, resolve_log_path, start_session,
}
use go_agent_sessions.Pty.Held.{Running, Balanced, spawn_attempt-Running}

-- The one text that a child is to be given at its start, if any.
abbrev pub kickoff : StartOptions → List Bytes
kickoff opts =
    if prompts opts
    then opts.boot_prompt ∷ []
    else (if opts.auto_fire_first_turn && not (is_blank opts.first_turn_payload)
        then framed opts.first_turn_payload ∷ []
        else [])

-- How Start may end, once `dir` has been planted with `opts`.
abbrev pub Settled : Bytes → StartOptions → Started → Type 0
Settled dir opts r = elim r.error [
  | none ↦
      (c : ChildSession) × (r.session ≡ some c)
      × (c.alive ≡ true)
      × (r.cleaned_dir ≡ none)
      × (r.typed ≡ kickoff opts)
  | some e ↦
      (r.session ≡ none)
      × (((held_after nothing_held r.steps ≡ nothing_held) × (r.cleaned_dir ≡ some dir))
          ⊎ (sent sigterm r.steps ≡ true))
]

signalled :
    (xs : List Step) (b : Bool) (ys : List Step)
    → sent sigterm (xs ++ (signal sigterm ∷ (if b then ys else []))) ≡ true
signalled [] b ys = refl
signalled (x ∷ xs) b ys = ground (arith, signalled xs b ys)

stop_signals :
    (t : Bool) (v : Waited) (s : ChildSession)
    → s.stop_requested ≡ false
    → (stop t v s).1 ≡ signals t v s.cmd
unfolding stop
stop_signals t v s g =
    if-elim (λ (r : ChildSession × List Step). r.1 ≡ signals t v s.cmd) s.stop_requested
      (λ f. absurd (cc (f, g))) (λ f. refl)

stopped_start-Settled :
    (w : World) (dir : Bytes) (opts : StartOptions) (steps : List Step) (e : StartError)
    (s : ChildSession)
    → Running opts s
    → Settled dir opts (stopped_start w steps e s)
unfolding stopped_start start_failed signals
stopped_start-Settled w dir opts steps e s (same, a, i, g, (pid, c)) = (
  refl,
  inr (
      ap (λ xs. sent sigterm (steps ++ xs)) (stop_signals w.term_ok w.stop_wait s g)
      ∙ ap (λ k. sent sigterm (steps ++ signals w.term_ok w.stop_wait k)) c
      ∙ signalled steps w.term_ok (kill_stage w.stop_wait)),
)

-- A write that succeeds has written this text.
abbrev Delivered : StartOptions → Bytes → ChildSession × Bytes × Option InputError → Type 0
Delivered opts text r = Running opts r.0 × elim r.2 [ none ↦ r.1 ≡ text | some e ↦ Unit ]

send_input-Delivered :
    (opts : StartOptions) (ok : Bool) (p : Bytes) (s : ChildSession)
    → Running opts s
    → Delivered opts (framed p) (send_input ok p s)
unfolding send_input tick_activity
send_input-Delivered opts ok p s v =
    if-elim (Delivered opts (framed p)) (not s.alive || not s.input) (λ e. (v, tt))
      (λ e. if-elim (Delivered opts (framed p)) ok (λ f. (v, refl)) (λ f. (v, tt)))

write_raw-Delivered :
    (opts : StartOptions) (ok : Bool) (p : Bytes) (s : ChildSession)
    → Running opts s
    → Delivered opts p (write_raw_input_string ok p s)
unfolding write_raw_input_string tick_activity
write_raw-Delivered opts ok p s v =
    if-elim (Delivered opts p) (not s.alive || not s.input) (λ e. (v, tt))
      (λ e. if-elim (Delivered opts p) ok (λ f. (v, refl)) (λ f. (v, tt)))

first_sent-Settled :
    (w : World) (dir : Bytes) (opts : StartOptions) (steps : List Step) (text : Bytes)
    (r : ChildSession × Bytes × Option InputError)
    → Delivered opts text r
    → kickoff opts ≡ text ∷ []
    → Settled dir opts (first_sent w steps [] r)
unfolding first_sent
first_sent-Settled w dir opts steps text (s, sent_text, none) (v, d) k =
    (s, refl, v.1, refl, ap (λ t. t ∷ []) d ∙ sym k)
first_sent-Settled w dir opts steps text (s, sent_text, some e) (v, d) k =
    stopped_start-Settled w dir opts steps auto_fire_error s v

untyped :
    (opts : StartOptions) → prompts opts ≡ false → skips_first_turn opts ≡ true → kickoff opts ≡ []
unfolding skips_first_turn
untyped opts e f =
    let g : (opts.auto_fire_first_turn && not (is_blank opts.first_turn_payload)) ≡ false =
      ground (arith, e, f) in
    rw (e, g) refl

fired :
    (opts : StartOptions)
    → skips_first_turn opts ≡ false
    → kickoff opts ≡ framed opts.first_turn_payload ∷ []
unfolding skips_first_turn
fired opts f =
    let e : prompts opts ≡ false = ground (arith, f) in
    let g : (opts.auto_fire_first_turn && not (is_blank opts.first_turn_payload)) ≡ true =
      ground (arith, f) in
    rw (e, g) refl

first_turn-Settled :
    (w : World) (dir : Bytes) (steps : List Step) (s : ChildSession)
    → Running s.opts s
    → prompts s.opts ≡ false
    → Settled dir s.opts (first_turn w steps [] s)
unfolding first_turn
first_turn-Settled w dir steps s v e =
    if-elim (Settled dir s.opts) (skips_first_turn s.opts)
      (λ f. (s, refl, v.1, refl, sym (untyped s.opts e f)))
      (λ f.
        first_sent-Settled w dir s.opts steps (framed s.opts.first_turn_payload)
          (send_input w.turn_ok s.opts.first_turn_payload s)
          (send_input-Delivered s.opts w.turn_ok s.opts.first_turn_payload s v) (fired s.opts f))

prompted : (opts : StartOptions) → prompts opts ≡ true → kickoff opts ≡ opts.boot_prompt ∷ []
prompted opts e = rw e refl

no_turn : (opts : StartOptions) → prompts opts ≡ true → skips_first_turn opts ≡ true
unfolding skips_first_turn
no_turn opts e = ground (arith, e)

prompt_sent-Settled :
    (w : World) (dir : Bytes) (opts : StartOptions) (steps : List Step)
    (r : ChildSession × Bytes × Option InputError)
    → Delivered opts opts.boot_prompt r
    → prompts opts ≡ true
    → Settled dir opts (prompt_sent w steps r)
unfolding prompt_sent first_turn
prompt_sent-Settled w dir opts steps (s, text, none) (v, d) e =
    let f : skips_first_turn s.opts ≡ true = ap skips_first_turn v.0 ∙ no_turn opts e in
    if-elim (Settled dir opts) (skips_first_turn s.opts)
      (λ g. (s, refl, v.1, refl, ap (λ t. t ∷ []) d ∙ sym (prompted opts e)))
      (λ g. absurd (cc (f, g)))
prompt_sent-Settled w dir opts steps (s, text, some err) (v, d) e =
    stopped_start-Settled w dir opts steps write_prompt_error s v

prompt_stage-Settled :
    (w : World) (dir : Bytes) (steps : List Step) (s : ChildSession)
    → Running s.opts s
    → Settled dir s.opts (prompt_stage w steps s)
unfolding prompt_stage
prompt_stage-Settled w dir steps s v =
    if-elim (Settled dir s.opts) (not (on_stdin s.opts && not (is_blank s.opts.boot_prompt)))
      (λ e. first_turn-Settled w dir steps s v (ground (arith, e)))
      (λ e.
        if-elim (Settled dir s.opts) (not w.ready)
          (λ f. stopped_start-Settled w dir s.opts steps context_done s v)
          (λ f.
            prompt_sent-Settled w dir s.opts steps
              (write_raw_input_string w.prompt_ok s.opts.boot_prompt s)
              (write_raw-Delivered s.opts w.prompt_ok s.opts.boot_prompt s v) (ground (arith, e))))

spawned_stage-Settled :
    (w : World) (dir : Bytes) (opts : StartOptions) (s : ChildSession) (steps : List Step)
    (cmd : Option Command) (o : Option SpawnError)
    → Balanced opts (record { session = s; steps = steps; error = o; command = cmd })
    → Settled dir opts
        (spawned_stage w dir (record { session = s; steps = steps; error = o; command = cmd }))
unfolding spawned_stage start_failed
spawned_stage-Settled w dir opts s steps cmd none (h, v) =
    subst (λ o. Settled dir o (prompt_stage w steps s)) v.0
      (prompt_stage-Settled w dir steps s (refl, v.1, v.2, v.3, v.4))
spawned_stage-Settled w dir opts s steps cmd (some err) v = (refl, inl (v, refl))

log_stage-Settled :
    (w : World) (dir : Bytes) (opts : StartOptions) (r : Bytes × Option StartError)
    → Settled dir opts (log_stage w dir opts r)
unfolding log_stage start_failed held_after new_session
log_stage-Settled w dir opts (path, some e) = (refl, inl (refl, refl))
log_stage-Settled w dir opts (path, none) =
    if-elim (Settled dir opts) (not w.create_ok) (λ f. (refl, inl (refl, refl)))
      (λ f.
        let s = new_session dir opts w.room in
        let sp = spawn_attempt w.setup w.pid 0 s in
        spawned_stage-Settled w dir opts sp.session sp.steps sp.command sp.error
          (spawn_attempt-Running w.setup w.pid 0 s refl refl))

-- Start with a workdir, where planting gives a directory: it gives a live session, and the
-- terminal has been given exactly the boot prompt in boot mode stdin, or else the first turn where
-- it is to be fired; or it fails without a session, and then the planted directory has been
-- removed and what the spawn took has been given back, or the child has been sent SIGTERM.
pub pty_start-Settled :
    (w : World) (opts planted : StartOptions) (dir : Bytes)
    → is_blank opts.workdir ≡ false
    → w.plant opts ≡ some (dir, planted)
    → Settled dir planted (start_session w opts)
unfolding start_session
pty_start-Settled w opts planted dir e f =
    rw (e, f) (log_stage-Settled w dir planted (resolve_log_path w.join w.mkdir_ok planted))
