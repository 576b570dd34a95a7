-- ===== src/Compliance/Pipes.antt =====
-- The runtime of agentsessions/streaming_stdio_session.go under the suite of
-- compliance/compliance.go.
use go_agent_sessions.Prelude.{
  Bool, true, false, not, ◌||◌, ◌&&◌, ◌++◌, [], ◌∷◌, ap, if◌then◌else◌, Option, none, some, List,
  ◌≡◌, refl, sym, ◌∙◌, subst, arith,
}
use go_agent_sessions.Prelude.Texts.{Bytes, is_blank}
use go_agent_sessions.Lifecycle.{Capabilities}
use go_agent_sessions.Supervision.{sigkill}
use go_agent_sessions.Turns.{stopped}
use go_agent_sessions.Spawn.Options.{StartOptions}
use go_agent_sessions.Spawn.Attempt.{Step, close_pipe, stdin_pipe}
use go_agent_sessions.Child.Watching.{sigterm}
use mathlib.Core.Option
use go_agent_sessions.Child.{ChildSession}
use go_agent_sessions.Child.Killing.{sent}
use go_agent_sessions.Child.Ending.{
  legacy_wait, close_attempt, finish_supervised, report_once, wait,
}
use go_agent_sessions.Stdio.Clients.{
  Waited, exited, elapsed, cancelled, term_stage, kill_stage, InputError, no_input_channel,
  write_error, World, prepare, resize, send_input, stop, health, checkpoint_hints,
  provider_session_id, start_session,
}
use go_agent_sessions.Stdio.Fresh.{Running, start_session-Begun}
use go_agent_sessions.JsonRpc.Ends.{SessionEnd, waited, supervised}
use go_agent_sessions.Compliance.{
  Runtime, Harness, Sent, accepted, other_error, NoneFails, options_of, preset, run,
}
use go_agent_sessions.Compliance as Suite
use go_agent_sessions.Compliance.Providers.{is_some}
use go_agent_sessions.Compliance.Contract.{Lawful, run-NoneFails}

pub sent_of : Option InputError → Sent
sent_of none = accepted
sent_of (some no_input_channel) = Suite.no_input_channel
sent_of (some write_error) = other_error

-- Stop's error is that of the SIGKILL, if it sends one.
pub stop_ok : Bool → List Step → Bool
stop_ok kill_ok steps = not (sent sigkill steps) || kill_ok

-- The waiter, or the deferred function under a supervisor.
pub after_end : SessionEnd → ChildSession → ChildSession
after_end (waited e) s = legacy_wait e s
after_end (supervised x) s = finish_supervised x (close_attempt s)

-- Has the stdin of the child been closed?
abbrev closes_stdin : Step → Bool
closes_stdin x = elim x [
  | close_pipe pipe ↦ elim pipe [ stdin_pipe ↦ true | _ ↦ false ]
  | _ ↦ false
]

pub at_eof : List Step → Bool
at_eof [] = false
at_eof (x ∷ xs) = closes_stdin x || at_eof xs

pub has_exited : Waited → Bool
has_exited exited = true
has_exited elapsed = false
has_exited cancelled = false

-- Does the child end, of what Stop has done to it? A SIGKILL ends it; so does the end of its stdin,
-- or a SIGTERM, where it has exited when the wait for it ends; and it is gone where the SIGTERM
-- finds no process.
pub ends_child : Bool → Bool → Waited → Waited → List Step → Bool
ends_child kill_ok term_ok eof_wait second_wait steps =
    (sent sigkill steps && kill_ok)
    || (sent sigterm steps && (not term_ok || has_exited second_wait))
    || (at_eof steps && has_exited eof_wait)

-- What the suite meets besides what Start meets: the answers of the write and of the SIGKILL, and
-- how the child ends, when it does.
pub record Meets : Type 0 where
  pub world : World
  pub write_ok : Bool
  pub kill_ok : Bool
  pub end_of_child : SessionEnd
  pub first_event : ChildSession → Option Bytes

-- A session under test, with what Stop has done to its child.
pub record Tested : Type 0 where
  pub child : ChildSession
  pub asked : List Step

abbrev pub fresh : ChildSession → Tested
fresh s = record { child = s; asked = [] }

pub tested_stop : Meets → Tested → Tested × Bool
tested_stop m s =
    let (t, steps) = stop m.world.term_ok m.world.eof_wait m.world.second_wait s.child in
    (record { child = t; asked = s.asked ++ steps }, stop_ok m.kill_ok steps)

-- The waiter sees the end of the child, if Stop has ended it.
pub time_passes : Meets → Tested → Tested
time_passes m s =
    if ends_child m.kill_ok m.world.term_ok m.world.eof_wait m.world.second_wait s.asked
    then record s { child = after_end m.end_of_child s.child }
    else s

-- The runtime on pipes as the suite sees it.
abbrev pub stdio_runtime : Bytes → Bytes → Capabilities → Meets → Runtime
stdio_runtime id kind caps m = record {
  Session = Tested;
  id = id;
  kind = kind;
  caps = caps;
  prepare = prepare caps.binary_required m.world.setup.adapter;
  start = λ opts. Option.map fresh (start_session m.world opts).session;
  stop = tested_stop m;
  wait_returns = λ s. is_some (wait s.child);
  in_time = time_passes m;
  send_input = λ payload s.
      let (t, written, e) = send_input m.write_ok payload s.child in
      (record s { child = t }, sent_of e);
  resize = λ rows cols s. (record s { child = resize rows cols s.child }, true);
  health = λ s. ((health s.child).0, (health s.child).2);
  checkpoint_hints = λ s. checkpoint_hints caps.checkpoint_resume s.child;
  provider_session_id = some (λ s. provider_session_id s.child);
  first_event = λ s. m.first_event s.child;
}

abbrev down : ChildSession → ChildSession
down s = record s { alive = false; state = stopped; stop_requested = true }

-- The steps of the first Stop of a session with a child.
abbrev steps_of : World → List Step
steps_of w = close_pipe stdin_pipe ∷ term_stage w.term_ok w.eof_wait w.second_wait

stop-down :
    (w : World) (s : ChildSession)
    → s.stop_requested ≡ false
    → Running s
    → stop w.term_ok w.eof_wait w.second_wait s ≡ (down s, steps_of w)
unfolding stop
stop-down w s e (input, (pid, cmd)) = ground arith

stop_ok-kill : (b : Bool) (steps : List Step) → b ≡ true → stop_ok b steps ≡ true
unfolding stop_ok
stop_ok-kill b steps e = ground (arith, e)

after_end-waits :
    (e : SessionEnd) (s : ChildSession) → s.done ≡ false → is_some (wait (after_end e s)) ≡ true
unfolding after_end wait legacy_wait finish_supervised close_attempt report_once is_some
after_end-waits (waited x) s e = rw e refl
after_end-waits (supervised x) s e = rw e refl

-- Whatever the child does, Stop ends it.
stop-ends :
    (term_ok : Bool) (eof_wait second_wait : Waited)
    → ends_child true term_ok eof_wait second_wait
        (close_pipe stdin_pipe ∷ term_stage term_ok eof_wait second_wait)
      ≡ true
unfolding ends_child at_eof has_exited term_stage kill_stage
stop-ends true exited exited = refl
stop-ends true exited elapsed = refl
stop-ends true exited cancelled = refl
stop-ends false exited exited = refl
stop-ends false exited elapsed = refl
stop-ends false exited cancelled = refl
stop-ends true elapsed exited = refl
stop-ends true elapsed elapsed = refl
stop-ends true elapsed cancelled = refl
stop-ends false elapsed second_wait = refl
stop-ends true cancelled exited = refl
stop-ends true cancelled elapsed = refl
stop-ends true cancelled cancelled = refl
stop-ends false cancelled second_wait = refl

prepared : (b : Bool) (m : Meets) → b ≡ false → prepare b m.world.setup.adapter ≡ true
unfolding prepare
prepared b m e = rw e refl

tested_stop-kill : (m : Meets) (s : Tested) → m.kill_ok ≡ true → (tested_stop m s).1 ≡ true
unfolding tested_stop
tested_stop-kill m s k =
    stop_ok-kill m.kill_ok (stop m.world.term_ok m.world.eof_wait m.world.second_wait s.child).1 k

-- The session after the first Stop.
abbrev stopped_session : Meets → ChildSession → Tested
stopped_session m s = record { child = down s; asked = steps_of m.world }

tested_stop_lem :
    (m : Meets) (s : ChildSession)
    → s.stop_requested ≡ false
    → Running s
    → tested_stop m (fresh s) ≡ (stopped_session m s, stop_ok m.kill_ok (steps_of m.world))
unfolding tested_stop
tested_stop_lem m s e r =
    ap
      (λ (x : ChildSession × List Step).
        (record { child = x.0; asked = x.1 }, stop_ok m.kill_ok x.1))
      (stop-down m.world s e r)

ended-waits :
    (m : Meets) (s : ChildSession)
    → m.kill_ok ≡ true
    → s.done ≡ false
    → is_some (wait (time_passes m (stopped_session m s)).child) ≡ true
unfolding time_passes
ended-waits m s k d =
    let e = stop-ends m.world.term_ok m.world.eof_wait m.world.second_wait in
    rw (k, e) (after_end-waits m.end_of_child (down s) d)

module _ (id kind : Bytes) (caps : Capabilities) (m : Meets) (opts planted resumed : StartOptions)
    (dir dir' : Bytes) (s t : ChildSession) (id_set : is_blank id ≡ false)
    (kind_set : is_blank kind ≡ false) (no_pty : caps.pty ≡ false) (kills : m.kill_ok ≡ true)
    (plants : m.world.plant opts ≡ some (dir, planted))
    (plants_preset : m.world.plant (record opts { session_id_preset = preset })
      ≡ some (dir', resumed))
    (kept : resumed.session_id_preset ≡ preset)
    (starts : (start_session m.world opts).session ≡ some s)
    (starts_preset : (start_session m.world (record opts { session_id_preset = preset })).session
      ≡ some t) where
  stdio-Lawful : Lawful (stdio_runtime id kind caps m) opts
  unfolding health send_input sent_of resize provider_session_id
  stdio-Lawful =
      let w = m.world in
      let v = start_session-Begun w opts planted dir s plants starts in
      let u =
        start_session-Begun w (record opts { session_id_preset = preset }) resumed dir' t
          plants_preset starts_preset in
      let d : (tested_stop m (fresh s)).0 ≡ stopped_session m s =
        ap (λ x. x.0) (tested_stop_lem m s v.0.1 v.1) in
      record {
        kind_set = kind_set;
        id_set = id_set;
        session = fresh s;
        starts = ap (Option.map fresh) starts;
        alive = v.0.0;
        stops = tested_stop-kill m (fresh s) kills;
        stops_again = tested_stop-kill m _ kills;
        dead = rw d refl;
        unblocks = rw d (ended-waits m s kills v.0.2);
        refuses = rw d refl;
        resizes = λ rows cols. refl;
        fans = λ h. absurd (cc (no_pty, h));
        keeps_id = λ h. (
          λ s. provider_session_id s.child,
          fresh t,
          refl,
          ap (Option.map fresh) starts_preset,
          u.0.3 ∙ kept,
        );
        prepares = prepared caps.binary_required m;
      }

  -- The runtime on pipes, where Start gives a session under the options of the harness and under
  -- those with a preset session id, which planting keeps, where the child lives until Stop, and
  -- where a SIGKILL succeeds and ends it: whether the child exits at the end of its stdin, after a
  -- SIGTERM or at the SIGKILL only, Wait returns and the suite finds no failure, for all
  -- capabilities but the terminal, where the test of EventFanout is left out.
  pub stdio-passes :
      (h : Harness)
      → options_of h ≡ opts
      → h.skip_event_fanout ≡ true
      → NoneFails (run (stdio_runtime id kind caps m) h)
  stdio-passes h e skip =
      run-NoneFails (stdio_runtime id kind caps m) h skip
        (subst (Lawful (stdio_runtime id kind caps m)) (sym e) stdio-Lawful)
