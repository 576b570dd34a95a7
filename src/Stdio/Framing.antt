-- ===== src/Stdio/Framing.antt =====
-- SendInput and Stop of agentsessions/streaming_stdio_session.go.
use go_agent_sessions.Prelude.{
  ℕ, Bool, true, false, not, ◌||◌, Option, none, some, List, [], ◌∷◌, ◌++◌, if◌then◌else◌, nat_eq,
  ◌≡◌, refl, ap, ◌∙◌, arith, if-elim,
}
use go_agent_sessions.Prelude.Texts.{Bytes}
use go_agent_sessions.Spawn.Attempt.{Step, close_pipe, signal, stdin_pipe}
use go_agent_sessions.Child.{ChildSession, tick_activity}
use go_agent_sessions.Child.Reading.{newline, scan_bytes, fresh_scanner, scanned}
use go_agent_sessions.Child.Lines.{Unbroken, Lines, text_of, scan_text}
use go_agent_sessions.Child.Watching.{sigterm}
use go_agent_sessions.Child.Killing.{sent}
use go_agent_sessions.Stdio.Clients.{
  no_input_channel, ends_line, framed, send_input, Waited, exited, elapsed, cancelled, kill_stage,
  term_stage, stop, live_pid,
}

ends_line-Unbroken : (p : Bytes) → Unbroken p → ends_line p ≡ false
unfolding ends_line
ends_line-Unbroken [] u = refl
ends_line-Unbroken (c ∷ []) u = u.0
ends_line-Unbroken (c ∷ d ∷ cs) u = ends_line-Unbroken (d ∷ cs) u.1

framed-line : (p : Bytes) → Unbroken p → framed p ≡ p ++ newline ∷ []
unfolding framed
framed-line p u = rw (ends_line-Unbroken p u) refl

-- Several inputs, one after the other, all of whose writes succeed.
abbrev pub send_all : List Bytes → ChildSession → Bytes
send_all [] s = []
send_all (m ∷ ms) s = let r = send_input true m s in r.1 ++ send_all ms r.0

accepted :
    (m : Bytes) (s : ChildSession)
    → s.alive ≡ true
    → s.input ≡ true
    → send_input true m s ≡ (tick_activity s, framed m, none)
unfolding send_input
accepted m s e f =
    let k : (not s.alive || not s.input) ≡ false = ground (arith, e, f) in
    ap (λ b. if b then (s, [], some no_input_channel) else (tick_activity s, framed m, none)) k

sent_text :
    (ms : List Bytes) (s : ChildSession)
    → Lines ms
    → s.alive ≡ true
    → s.input ≡ true
    → send_all ms s ≡ text_of ms
unfolding tick_activity
sent_text [] s v e f = refl
sent_text (m ∷ ms) s v e f =
    ap (λ r. r.1 ++ send_all ms r.0) (accepted m s e f)
    ∙ ap (◌++ send_all ms (tick_activity s)) (framed-line m v.0.0)
    ∙ ap (λ t. (m ++ newline ∷ []) ++ t) (sent_text ms (tick_activity s) v.1 e f)

-- Inputs that have no newline, do not end in a carriage return and are shorter than 2^20 bytes, sent
-- to a session that is alive with an open stdin: the lines that a bufio.Scanner with a buffer of
-- 2^20 bytes, as this library uses them, finds in what is written to stdin are the inputs.
pub inputs_arrive :
    (ms : List Bytes) (s : ChildSession)
    → Lines ms
    → s.alive ≡ true
    → s.input ≡ true
    → scanned (scan_bytes fresh_scanner (send_all ms s)) ≡ ms
unfolding scanned
inputs_arrive ms s v e f = rw (sent_text ms s v e f, scan_text [] ms v) refl

kill_waits : (w : Waited) → sent sigterm (kill_stage w) ≡ false
unfolding kill_stage
kill_waits exited = refl
kill_waits elapsed = refl
kill_waits cancelled = refl

-- SIGTERM is the first signal of a list of steps, or there is none.
abbrev pub TermFirst : List Step → Type 0
TermFirst [] = Unit
TermFirst (x ∷ xs) = elim x [ signal sig ↦ sig ≡ sigterm | _ ↦ TermFirst xs ]

stop_steps : (term_ok : Bool) (v w : Waited) → TermFirst (term_stage term_ok v w)
unfolding term_stage
stop_steps term_ok exited w = tt
stop_steps term_ok elapsed w = refl
stop_steps term_ok cancelled w = refl

closed_first :
    (b : Bool) (xs : List Step)
    → TermFirst xs
    → TermFirst ((if b then close_pipe stdin_pipe ∷ [] else []) ++ xs)
closed_first true xs t = t
closed_first false xs t = t

child_steps :
    (o : Option ℕ) (term_ok : Bool) (v w : Waited)
    → TermFirst (elim o [ none ↦ [] | some pid ↦ term_stage term_ok v w ])
child_steps none term_ok v w = tt
child_steps (some pid) term_ok v w = stop_steps term_ok v w

abbrev Settled : Bool → Bool → Waited → Waited → Bytes → ChildSession × List Step → Type 0
Settled term_ok write_ok v w text r =
    TermFirst r.1
    × (send_input write_ok text r.0 ≡ (r.0, [], some no_input_channel))
    × (live_pid r.0 ≡ 0)
    × (stop term_ok v w r.0 ≡ (r.0, []))

-- Stop in any state, whatever its waits find: SIGTERM comes before any other signal; afterwards
-- input is refused with nothing written, no pid is reported, and another Stop does nothing.
pub stop_lem :
    (term_ok write_ok : Bool) (v w : Waited) (text : Bytes) (s : ChildSession)
    → s.stop_requested ≡ false
    → TermFirst (stop term_ok v w s).1
      × (send_input write_ok text (stop term_ok v w s).0
          ≡ ((stop term_ok v w s).0, [], some no_input_channel))
      × (live_pid (stop term_ok v w s).0 ≡ 0)
      × (stop term_ok v w (stop term_ok v w s).0 ≡ ((stop term_ok v w s).0, []))
unfolding stop send_input live_pid
stop_lem term_ok write_ok v w text s e =
    if-elim (Settled term_ok write_ok v w text) s.stop_requested (λ f. absurd (cc (e, f)))
      (λ f. (
        closed_first s.input (elim s.cmd [ none ↦ [] | some pid ↦ term_stage term_ok v w ])
            (child_steps s.cmd term_ok v w),
        refl,
        refl,
        refl,
      ))
