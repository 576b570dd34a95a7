-- ===== src/Child/Resuming.antt =====
-- The session id across a restart: runReaderLoop and spawnAttempt of
-- agentsessions/streaming_stdio_session.go.
use go_agent_sessions.Prelude.{
  ℕ, suc, ◌+◌, Bool, true, false, not, ◌&&◌, List, [], ◌∷◌, ◌++◌, if◌then◌else◌, length, ltb, ◌≡◌,
  refl, ap, sym, ◌∙◌, Option-elim, if-elim,
}
use go_agent_sessions.Prelude.Texts.{Bytes, is_blank}
use go_agent_sessions.Spawn.Options.{StartOptions}
use go_agent_sessions.Spawn.Attempt.{
  AgentEvent, session_id_event, other_agent_event, Adapter, Setup, session_preset, build_command,
  system_prompt,
}
use go_agent_sessions.Child.{ChildSession, tick_activity}
use go_agent_sessions.Child.Reading.{
  newline, scan_bytes, fresh_scanner, scanned, try_event_fanout, note_session_id, fan_events,
  typed_stage, events_of, read_line, read_lines, run_reader_loop,
}

-- The id that is known after some events, and the ids that are told to OnSessionID.
abbrev pub latest : Bytes → List AgentEvent → Bytes
latest i [] = i
latest i (other_agent_event e ∷ evs) = latest i evs
latest i (session_id_event j ∷ evs) = latest (if is_blank j then i else j) evs

-- All the events in an output.
abbrev pub parsed : Adapter → List Bytes → List AgentEvent
parsed a [] = []
parsed a (raw ∷ rest) = events_of (a.parse_line raw) ++ parsed a rest

latest-append :
    (i : Bytes) (xs ys : List AgentEvent) → latest i (xs ++ ys) ≡ latest (latest i xs) ys
latest-append i [] ys = refl
latest-append i (other_agent_event e ∷ xs) ys = latest-append i xs ys
latest-append i (session_id_event j ∷ xs) ys = latest-append (if is_blank j then i else j) xs ys

fanned-id :
    (ev : AgentEvent) (s : ChildSession)
    → (try_event_fanout ev s).last_session_id ≡ s.last_session_id
unfolding try_event_fanout
fanned-id ev s =
    if-elim (λ (t : ChildSession). t.last_session_id ≡ s.last_session_id)
      (s.opts.event_fanout && ltb (length s.events) s.event_room) (λ e. refl) (λ e. refl)

noted-id :
    (j : Bytes) (s : ChildSession)
    → (note_session_id (session_id_event j) s).last_session_id
      ≡ (if is_blank j then s.last_session_id else j)
unfolding note_session_id
noted-id [] s = refl
noted-id (c ∷ cs) s = refl

fan_events-latest :
    (evs : List AgentEvent) (s : ChildSession)
    → (fan_events evs s).last_session_id ≡ latest s.last_session_id evs
unfolding fan_events note_session_id
fan_events-latest [] s = refl
fan_events-latest (other_agent_event e ∷ evs) s =
    let ev = other_agent_event e in
    fan_events-latest evs (try_event_fanout ev s) ∙ ap (λ i. latest i evs) (fanned-id ev s)
fan_events-latest (session_id_event j ∷ evs) s =
    let ev = session_id_event j in
    let t = note_session_id ev s in
    fan_events-latest evs (try_event_fanout ev t)
    ∙ ap (λ i. latest i evs) (fanned-id ev t ∙ noted-id j s)

typed-id :
    (a : Adapter) (raw : Bytes) (s : ChildSession)
    → (typed_stage a raw s).last_session_id ≡ s.last_session_id
unfolding typed_stage
typed-id a raw s =
    if-elim (λ (t : ChildSession). t.last_session_id ≡ s.last_session_id)
      (not s.opts.typed_event_callback) (λ e. refl)
      (λ e.
        Option-elim (λ (t : ChildSession). t.last_session_id ≡ s.last_session_id)
          a.parse_line_events refl (λ parse. refl))

read_line-latest :
    (a : Adapter) (raw : Bytes) (s : ChildSession)
    → (read_line a raw s).last_session_id ≡ latest s.last_session_id (events_of (a.parse_line raw))
unfolding read_line tick_activity
read_line-latest a raw s =
    let line = raw ++ newline ∷ [] in
    let w : ChildSession = record s {
      ticks = s.ticks + 1;
      log = s.log ++ line;
      fanned = if s.opts.fanout then s.fanned ++ line else s.fanned;
    } in
    let evs = events_of (a.parse_line raw) in
    typed-id a raw (fan_events evs w) ∙ fan_events-latest evs w

read_lines-latest :
    (a : Adapter) (ls : List Bytes) (s : ChildSession)
    → (read_lines a ls s).last_session_id ≡ latest s.last_session_id (parsed a ls)
unfolding read_lines
read_lines-latest a [] s = refl
read_lines-latest a (raw ∷ rest) s =
    read_lines-latest a rest (read_line a raw s)
    ∙ ap (λ i. latest i (parsed a rest)) (read_line-latest a raw s)
    ∙ sym (latest-append s.last_session_id (events_of (a.parse_line raw)) (parsed a rest))

-- Events that name no session id.
abbrev pub Nameless : List AgentEvent → Type 0
Nameless [] = Unit
Nameless (other_agent_event e ∷ evs) = Nameless evs
Nameless (session_id_event j ∷ evs) = (is_blank j ≡ true) × Nameless evs

latest-Nameless : (i : Bytes) (evs : List AgentEvent) → Nameless evs → latest i evs ≡ i
latest-Nameless i [] v = refl
latest-Nameless i (other_agent_event e ∷ evs) v = latest-Nameless i evs v
latest-Nameless i (session_id_event j ∷ evs) v = rw v.0 (latest-Nameless i evs v.1)

latest-last :
    (i j : Bytes) (xs ys : List AgentEvent)
    → is_blank j ≡ false
    → Nameless ys
    → latest i (xs ++ session_id_event j ∷ ys) ≡ j
latest-last i j xs ys e v =
    latest-append i xs (session_id_event j ∷ ys) ∙ rw e (latest-Nameless j ys v)

preset_of :
    (setup : Setup) (opts : StartOptions) (j : Bytes) (n : ℕ)
    → is_blank j ≡ false
    → setup.keeps_session_id ≡ true
    → session_preset setup opts j (suc n) ≡ j
unfolding session_preset
preset_of setup opts j n e k =
    ap (λ b. if b && not (is_blank j) then j else opts.session_id_preset) k
    ∙ ap (λ b. if not b then j else opts.session_id_preset) e

-- Where the provider keeps session ids, a restarted child is started to resume the last id, if not
-- empty, that the output of its predecessor has named: the adapter builds the arguments of every
-- later attempt with it.
pub restart_resumes :
    (setup : Setup) (a : Adapter) (out : Bytes) (s : ChildSession) (j binary : Bytes) (n : ℕ)
    (tee : Bool) (xs ys : List AgentEvent)
    → setup.keeps_session_id ≡ true
    → parsed a (scanned (scan_bytes fresh_scanner out)) ≡ xs ++ session_id_event j ∷ ys
    → is_blank j ≡ false
    → Nameless ys
    → (build_command setup s.opts binary (run_reader_loop a out s).last_session_id (suc n) tee).args
      ≡ binary ∷ setup.adapter.build_args [] (system_prompt s.opts) j ++ s.opts.extra_args
unfolding run_reader_loop build_command
restart_resumes setup a out s j binary n tee xs ys k f e v =
    let last =
      read_lines-latest a (scanned (scan_bytes fresh_scanner out)) s
      ∙ ap (latest s.last_session_id) f
      ∙ latest-last s.last_session_id j xs ys e v in
    ap (λ i. binary ∷ setup.adapter.build_args [] (system_prompt s.opts) i ++ s.opts.extra_args)
      (ap (λ i. session_preset setup s.opts i (suc n)) last ∙ preset_of setup s.opts j n e k)
