-- ===== src/Stdio/Examples.antt =====
-- The theorems on the session on pipes (agentsessions/streaming_stdio_session.go) at concrete
-- inputs.
use go_agent_sessions.Prelude.{
  ℕ, zero, suc, ◌+◌, ◌≡◌, refl, ap, true, false, Option, none, some, List, [], ◌∷◌, ◌++◌, ◌⊎◌,
  arith, length, nat_eq, ◌≤◌,
}
use go_agent_sessions.Prelude.Int.{pos}
use go_agent_sessions.Prelude.Texts.{Bytes, codes}
use go_agent_sessions.Supervision.{
  SupervisorOptions, no_cause, idle_timeout, watchdog_kill, exec_exit, ExitError, build_exit_error,
  restart_eligible, try_set_cause,
}
use go_agent_sessions.Spawn.Options.{StartOptions}
use go_agent_sessions.Spawn.Limits.{linux}
use go_agent_sessions.Spawn.Attempt.{
  AgentEvent, session_id_event, Setup, build_command, system_prompt, on_stdin,
}
use go_agent_sessions.Child.{ChildSession, new_session}
use go_agent_sessions.Child.Reading.{
  max_token, events_of, drop_cr, scan_bytes, scan_byte, fresh_scanner, scanned, run_reader_loop,
}
use go_agent_sessions.Child.Lines.{Unbroken, Line, text_of}
use go_agent_sessions.Child.Output.{run_reader_loop-verbatim, run_reader_loop-oversized}
use go_agent_sessions.Child.Resuming.{restart_resumes}
use go_agent_sessions.Child.Watching.{
  Attempt, polling, activity, idle_poll, watchdog_poll, idle_grace_over, start_attempt, idle_since,
  happen, happenings, wait_once_supervised, sigterm,
}
use go_agent_sessions.Child.Killing.{sent, sigkill_last}
use go_agent_sessions.Child.Lively.{untouched}
use go_agent_sessions.Child.Idle.{idle_kill_reported}
use go_agent_sessions.Stdio.Spawning.{Launched, spawn_attempt}
use go_agent_sessions.Stdio.Held.{Balanced, spawn_attempt-Balanced}
use go_agent_sessions.Stdio.Clients.{World, elapsed, send_input, no_input_channel, stop, live_pid}
use go_agent_sessions.Stdio.Framing.{send_all, inputs_arrive, TermFirst, stop_lem}

-- An adapter whose children name the session "7" in lines that begin with an i.
abbrev pub parse : Bytes → Option (List AgentEvent)
parse [] = none
parse (c ∷ cs) = some (session_id_event (codes "7") ∷ [])

abbrev pub echo : Setup
echo = record {
  adapter = record {
    detect = some (codes "/bin/echo");
    build_args = λ prompt system preset. system ∷ preset ∷ [];
    parse_line = parse;
    parse_line_events = none;
  };
  host = record { goos = linux; sh = none; systemd_run = none; systemd_probe = false };
  environ = [];
  sandbox = λ profile cmd. some cmd;
  keeps_session_id = true;
}

abbrev pub options : StartOptions
options = record {
  workdir = codes "/w";
  workspace_dir = codes "/s";
  log_path = [];
  boot_prompt = codes "hello";
  boot_content = [];
  plant_context = record { system_prompt = []; boot_content = []; project_dir = []; boot_dir = [] };
  boot_mode = codes "stdin";
  env = [];
  stderr = false;
  extra_files = [];
  profile_id = codes "strict";
  fanout = true;
  event_fanout = false;
  session_id_preset = [];
  on_session_id = true;
  attach_enabled = false;
  ring_bytes = pos 0;
  subscriber_depth = pos 0;
  auto_fire_first_turn = true;
  first_turn_payload = codes "go";
  typed_event_callback = false;
  supervisor = none;
  json_rpc_notification_hook = false;
  json_rpc_request_hook = false;
  auto_plant_boot_dir = false;
  boot_dir_root = [];
  on_boot_dir_planted = false;
  extra_args = [];
  resource_limits = none;
}

abbrev session : ChildSession
session = record (new_session [] options 8) {
  input = true;
  cmd = some 41;
  started_pid = 41;
  last_pid = 41;
}

abbrev pub launched : Launched
launched = record { stdin_ok = true; stdout_ok = true; pid = some 42; prompt_ok = false }

ab-Line : Line (codes "ab")
unfolding drop_cr
ab-Line = ((refl, (refl, tt)), omega arith, refl)

verbatim_example :
    ((run_reader_loop echo.adapter (text_of (codes "ab" ∷ codes "ab" ∷ [])) session).log
      ≡ codes "ab\nab\n")
    × ((run_reader_loop echo.adapter (text_of (codes "ab" ∷ codes "ab" ∷ [])) session).fanned
        ≡ codes "ab\nab\n")
unfolding new_session
verbatim_example =
    run_reader_loop-verbatim echo.adapter (codes "ab" ∷ codes "ab" ∷ []) session
      (ab-Line, (ab-Line, tt))

-- A long line of one character.
repeat : ℕ → Bytes
repeat zero = []
repeat (suc n) = b'a' ∷ repeat n

repeat-Unbroken : (n : ℕ) → Unbroken (repeat n)
unfolding repeat
repeat-Unbroken zero = tt
repeat-Unbroken (suc n) = (refl, repeat-Unbroken n)

length-repeat : (n : ℕ) → length (repeat n) ≡ n
unfolding repeat
length-repeat zero = refl
length-repeat (suc n) = ap suc (length-repeat n)

reaches : (n : ℕ) → n ≤ length (repeat n)
reaches n = omega (arith, length-repeat n)

oversized_example :
    run_reader_loop echo.adapter
      (text_of (codes "ab" ∷ []) ++ (repeat max_token ++ codes "lost\n"))
      session
    ≡ run_reader_loop echo.adapter (text_of (codes "ab" ∷ [])) session
oversized_example =
    run_reader_loop-oversized echo.adapter (codes "ab" ∷ []) (repeat max_token) (codes "lost\n")
      session (ab-Line, tt) (repeat-Unbroken max_token) (reaches max_token)

resumes_example :
    (build_command echo options
      (codes "/bin/echo")
      (run_reader_loop echo.adapter (codes "id\n") session).last_session_id
      1
      true).args
    ≡ codes "/bin/echo" ∷ [] ∷ codes "7" ∷ []
unfolding events_of scanned scan_bytes scan_byte drop_cr system_prompt on_stdin new_session
resumes_example =
    restart_resumes echo echo.adapter (codes "id\n") session (codes "7") (codes "/bin/echo") 0 true
      [] [] refl refl refl tt

held_example : Balanced 0 options (spawn_attempt echo launched 0 session)
unfolding new_session
held_example = spawn_attempt-Balanced echo launched 0 session

arrive_example :
    scanned (scan_bytes fresh_scanner (send_all (codes "ab" ∷ codes "ab" ∷ []) session))
    ≡ codes "ab" ∷ codes "ab" ∷ []
unfolding new_session
arrive_example =
    inputs_arrive (codes "ab" ∷ codes "ab" ∷ []) session (ab-Line, (ab-Line, tt)) refl refl

stop_example :
    TermFirst (stop true elapsed elapsed session).1
    × (send_input true (codes "x") (stop true elapsed elapsed session).0
        ≡ ((stop true elapsed elapsed session).0, [], some no_input_channel))
    × (live_pid (stop true elapsed elapsed session).0 ≡ 0)
    × (stop true elapsed elapsed (stop true elapsed elapsed session).0
        ≡ ((stop true elapsed elapsed session).0, []))
unfolding new_session
stop_example = stop_lem true true elapsed elapsed (codes "x") session refl

abbrev pub world : World
world = record {
  setup = echo;
  plant = λ opts. some (codes "/boot", opts);
  join = λ parts. [];
  mkdir_ok = true;
  create_ok = true;
  room = 8;
  launched = launched;
  turn_ok = true;
  term_ok = true;
  eof_wait = elapsed;
  second_wait = elapsed;
}

-- Ten seconds of idleness, or twenty.
abbrev watchful : SupervisorOptions
watchful = record {
  idle_kill = pos 10;
  watchdog_timeout = pos 20;
  restart_on_crash = pos 1;
  max_restart_backoff = pos 0;
}

abbrev now : ℕ
now = 1000

kill_example :
    ((happenings watchful
        (idle_poll (now + 10) ∷ idle_grace_over ∷ [])
        (start_attempt watchful now)).cause
      ≡ watchdog_kill)
    ⊎ (sent sigterm
          (happenings watchful
            (idle_poll (now + 10) ∷ idle_grace_over ∷ [])
            (start_attempt watchful now)).signals
        ≡ true)
unfolding happenings happen start_attempt try_set_cause
kill_example = sigkill_last watchful now (idle_poll (now + 10) ∷ idle_grace_over ∷ []) refl

lively_example :
    ((happenings watchful
        (activity (now + 5) ∷ idle_poll (now + 14) ∷ watchdog_poll (now + 14) ∷ [])
        (start_attempt watchful now)).signals
      ≡ [])
    × (wait_once_supervised watchful now
          (activity (now + 5) ∷ idle_poll (now + 14) ∷ watchdog_poll (now + 14) ∷ [])
          none
          (some (exec_exit (pos 1)))
        ≡ build_exit_error none (some (exec_exit (pos 1))) no_cause)
lively_example =
    untouched watchful now
      (activity (now + 5) ∷ idle_poll (now + 14) ∷ watchdog_poll (now + 14) ∷ []) none
      (some (exec_exit (pos 1))) (omega arith, (omega arith, tt)) tt

abbrev at_work : Attempt
at_work = record (start_attempt watchful now) { idle_guard = polling }

idle_example :
    (sent sigterm
        (happenings watchful (idle_poll (now + 10) ∷ watchdog_poll (now + 20) ∷ []) at_work).signals
      ≡ true)
    × (xe : ExitError) × (build_exit_error none none
          (happenings watchful (idle_poll (now + 10) ∷ watchdog_poll (now + 20) ∷ []) at_work).cause
        ≡ some xe)
    × (xe.cause ≡ idle_timeout)
    × (restart_eligible (some xe) ≡ false)
unfolding start_attempt idle_since
idle_example =
    idle_kill_reported watchful (now + 10) at_work (watchdog_poll (now + 20) ∷ []) none none refl
      refl (omega arith)
