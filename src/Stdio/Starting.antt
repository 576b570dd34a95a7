-- ===== src/Stdio/Starting.antt =====
-- Start of agentsessions/streaming_stdio_session.go on every branch.
use go_agent_sessions.Prelude.{if◌then◌else◌, ◌++◌, none, some, [], nat_eq, ◌≡◌, ◌⊎◌}
use go_agent_sessions.Prelude.Texts.{Bytes}
use go_agent_sessions.Spawn.Options.{StartOptions}
use go_agent_sessions.Child.{ChildSession, new_session}
use go_agent_sessions.Stdio.Spawning.{Spawned, spawn_attempt}
use go_agent_sessions.Stdio.Steps.{held_after, nothing_held, writes, prompt_of}
use go_agent_sessions.Stdio.Clients.{
  framed, stop, World, Started, auto_fire_error, skips_first_turn,
}

-- How Start may end, once `dir` has been planted with the options `opts`. With a session: nothing is
-- cleaned up, and the child has been given the boot prompt, in boot mode stdin, or else the first
-- turn, where it is to be fired. With an error and no session: nothing is held and the planted
-- directory has been removed; or the first turn failed, and what was done is the spawn and then
-- what Stop does to a session that it has started.
abbrev pub Settled : World → Bytes → StartOptions → Started → Type 0
Settled w dir opts r = elim r.error [
  | none ↦
      (c : ChildSession) × (r.session ≡ some c)
      × (r.cleaned_dir ≡ none)
      × (writes r.steps ≡ prompt_of 0 opts)
      × (r.turn ≡ (if skips_first_turn opts then [] else framed opts.first_turn_payload))
  | some e ↦
      (r.session ≡ none)
      × (((held_after nothing_held r.steps ≡ nothing_held) × (r.cleaned_dir ≡ some dir))
          ⊎ ((e ≡ auto_fire_error)
              × (r.steps ≡ (
                  let sp = spawn_attempt w.setup w.launched 0 (new_session dir opts w.room) in
                  sp.steps ++ (stop w.term_ok w.eof_wait w.second_wait sp.session).1))))
]

module _ (w : World) (dir : Bytes) (opts : StartOptions) where
  abbrev spawned : Spawned
  spawned = spawn_attempt w.setup w.launched 0 (new_session dir opts w.room)
