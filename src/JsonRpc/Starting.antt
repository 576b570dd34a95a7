-- ===== src/JsonRpc/Starting.antt =====
-- Start of agentsessions/jsonrpc_stdio_session.go against Start of
-- agentsessions/streaming_stdio_session.go.
use go_agent_sessions.Prelude.{
  Bool-cases, Option-cases, not, Option, none, some, List, ◌≡◌, refl, inl, inr, ap, ◌∙◌,
}
use mathlib.Core.Option
use go_agent_sessions.Prelude.Texts.{Bytes, is_blank}
use go_agent_sessions.Spawn.Options.{StartOptions}
use go_agent_sessions.Spawn.Attempt.{Step}
use go_agent_sessions.Child.{ChildSession}
use go_agent_sessions.Child as Child
use go_agent_sessions.Stdio.Spawning as Pipes
use go_agent_sessions.JsonRpc.Alike.{
  hosting, hosting_spawned, spawn_attempt-Alike, send_input-Alike, stop-Alike, resolve-Alike,
}
use go_agent_sessions.Stdio.Clients.{
  InputError, World, StartError, skips_first_turn, resolve_log_path,
}
use go_agent_sessions.Stdio.Clients as Stdio
use go_agent_sessions.JsonRpc.Hosting.{new_hosted}
use go_agent_sessions.JsonRpc.Clients.{
  Started, start_failed, started, first_sent, first_turn, spawned_stage, log_stage, start_session,
}

abbrev pub hosting_started : Stdio.Started → Started
hosting_started r = record {
  session = Option.map hosting r.session;
  error = r.error;
  cleaned_dir = r.cleaned_dir;
  steps = r.steps;
  turn = r.turn;
}

first_sent-Alike :
    (w : World) (steps : List Step) (s : ChildSession) (sent : Bytes) (o : Option InputError)
    → first_sent w steps (hosting s, sent, o)
      ≡ some (hosting_started (Stdio.first_sent w steps (s, sent, o)))
unfolding first_sent started start_failed Stdio.first_sent Stdio.start_failed
first_sent-Alike w steps s sent none = refl
first_sent-Alike w steps s sent (some e) = let (h, f) = stop-Alike w s in rw (f, first_sent) refl

first_turn-Alike :
    (w : World) (steps : List Step) (s : ChildSession)
    → first_turn w steps (hosting s) ≡ some (hosting_started (Stdio.first_turn w steps s))
unfolding first_turn started Stdio.first_turn
first_turn-Alike w steps s = elim (Bool-cases (skips_first_turn s.opts)) [
  | inl e ↦ rw e refl
  | inr e ↦
      let r = Stdio.send_input w.turn_ok s.opts.first_turn_payload s in
      rw e (
        ap (first_sent w steps) (send_input-Alike w.turn_ok s.opts.first_turn_payload s)
        ∙ first_sent-Alike w steps r.0 r.1 r.2)
]

spawned_stage-Alike :
    (w : World) (dir : Bytes) (sp : Pipes.Spawned)
    → spawned_stage w dir (hosting_spawned sp)
      ≡ some (hosting_started (Stdio.spawned_stage w dir sp))
unfolding spawned_stage start_failed Stdio.spawned_stage Stdio.start_failed
spawned_stage-Alike w dir sp = elim (Option-cases sp.error) [
  | inl e ↦ rw e (first_turn-Alike w sp.steps sp.session)
  | inr (err, e) ↦ rw e refl
]

log_stage-Alike :
    (w : World) (dir : Bytes) (opts : StartOptions) (path : Bytes) (o : Option StartError)
    → log_stage w dir opts (path, o) ≡ some (hosting_started (Stdio.log_stage w dir opts (path, o)))
unfolding log_stage start_failed new_hosted Stdio.log_stage Stdio.start_failed
log_stage-Alike w dir opts path (some e) = refl
log_stage-Alike w dir opts path none = elim (Bool-cases (not w.create_ok)) [
  | inl e ↦ rw e refl
  | inr e ↦
      rw (e, spawn_attempt-Alike w.setup w.launched 0 (Child.new_session dir opts w.room))
        (spawned_stage-Alike w dir
          (Pipes.spawn_attempt w.setup w.launched 0 (Child.new_session dir opts w.room)))
]

-- Start does what Start of the session on pipes does, with the same steps and the same first turn
-- on the child's stdin, and it fails where that fails; its client begins with no Call, and is as
-- alive as the session.
pub start_session-Alike :
    (w : World) (opts : StartOptions)
    → start_session w opts ≡ some (hosting_started (Stdio.start_session w opts))
unfolding start_session start_failed Stdio.start_session Stdio.start_failed
start_session-Alike w opts = elim (Bool-cases (is_blank opts.workdir)) [
  | inl e ↦ rw e refl
  | inr e ↦ elim (Option-cases (w.plant opts)) [
    | inl f ↦ rw (e, f) refl
    | inr ((dir, planted), f) ↦
        let r = resolve_log_path w.join w.mkdir_ok planted in
        rw (e, f, resolve-Alike w.join w.mkdir_ok planted) (log_stage-Alike w dir planted r.0 r.1)
  ]
]
