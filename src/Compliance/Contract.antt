-- ===== src/Compliance/Contract.antt =====
-- What a Runtime has to promise so that the suite of compliance/compliance.go passes.
use go_agent_sessions.Prelude.{
  ℕ, Bool, true, false, not, none, some, List, [], ◌∷◌, ◌++◌, String, ◌≡◌, refl, ap, sym, subst,
  ◌∙◌, ◌==◌, if-elim, arith,
}
use go_agent_sessions.Prelude.Texts.{Bytes, codes, is_blank, bytes_eq, same_bytes_refl}
use go_agent_sessions.Spawn.Options.{StartOptions}
use go_agent_sessions.Turns.{stopped}
use go_agent_sessions.Compliance.{
  Runtime, Harness, Verdict, failed, no_input_channel, is_failure, NoneFails, options_of, expect,
  unless, is_stopped, is_no_input_channel, preset, must_start, after_stop,
  start_produces_alive_session, health_dead_after_stop, health_state_stopped_after_stop,
  stop_unblocks_wait, stop_is_idempotent, send_input_after_stop, resize_no_op_or_no_error,
  run_baseline, run_caps_pty, run_caps_resize, run_caps_provider_session_id, carries_preset,
  implements_session_ider, run_caps_checkpoint_resume, run_caps_no_binary, gated, run,
}

-- The contract between a Runtime and its clients, under the options of the suite: Start gives a live session;
-- Stop gives no error, a second time neither, and leaves a session that is not alive and stopped, that takes no input, and
-- whose Wait returns; and what the capabilities declare is there.
pub record Lawful (rt : Runtime) (opts : StartOptions) : Type 0 where
  pub kind_set : is_blank rt.kind ≡ false
  pub id_set : is_blank rt.id ≡ false
  pub session : rt.Session
  pub starts : rt.start opts ≡ some session
  pub alive : (rt.health session).0 ≡ true
  pub stops : (rt.stop session).1 ≡ true
  pub stops_again : (rt.stop (rt.stop session).0).1 ≡ true
  pub dead : rt.health (rt.stop session).0 ≡ (false, stopped)
  pub unblocks : rt.wait_returns (rt.in_time (rt.stop session).0) ≡ true
  pub refuses : (rt.send_input (codes "too late") (rt.stop session).0).1 ≡ no_input_channel
  pub resizes : (rows cols : ℕ) → (rt.resize rows cols session).1 ≡ true
  pub fans :
      rt.caps.pty ≡ true → (s : rt.Session) × (rt.start (record opts { fanout = true }) ≡ some s)
  pub keeps_id :
      rt.caps.provider_session_id ≡ true
      → (id_of : rt.Session → Bytes) × (s : rt.Session) × (rt.provider_session_id ≡ some id_of)
        × (rt.start (record opts { session_id_preset = preset }) ≡ some s)
        × (id_of s ≡ preset)
  pub prepares : rt.caps.binary_required ≡ false → rt.prepare ≡ true

NoneFails-append :
    (xs ys : List (String × Verdict)) → NoneFails xs → NoneFails ys → NoneFails (xs ++ ys)
NoneFails-append [] ys v w = w
NoneFails-append ((name, x) ∷ xs) ys v w = (v.0, NoneFails-append xs ys v.1 w)

-- A suite that a flag gates.
gated-NoneFails :
    (rt : Runtime) (b : Bool) (xs : List (String × Verdict))
    → (b ≡ true → NoneFails xs)
    → NoneFails (gated rt b xs)
unfolding gated
gated-NoneFails rt true xs f = f refl
gated-NoneFails rt false xs f = tt

append_gated :
    (rt : Runtime) (xs : List (String × Verdict)) (b : Bool) (ys zs : List (String × Verdict))
    → NoneFails xs
    → (b ≡ true → NoneFails ys)
    → NoneFails zs
    → NoneFails (xs ++ (gated rt b ys ++ zs))
append_gated rt xs b ys zs v f w =
    NoneFails-append xs (gated rt b ys ++ zs) v
      (NoneFails-append (gated rt b ys) zs (gated-NoneFails rt b ys f) w)

expect-Fine : (b : Bool) → b ≡ true → is_failure (expect b) ≡ false
unfolding expect
expect-Fine b e = rw e refl

unless-Fine : (b : Bool) (v : Verdict) → is_failure v ≡ false → is_failure (unless b v) ≡ false
unfolding unless
unless-Fine true v e = refl
unless-Fine false v e = e

unless-skips : (b : Bool) (v : Verdict) → b ≡ true → is_failure (unless b v) ≡ false
unfolding unless
unless-skips true v e = refl
unless-skips false v e = absurd (cc e)

module _ (rt : Runtime) where
  must_start-Fine :
      (opts : StartOptions) (test : rt.Session → Verdict) (s : rt.Session)
      → rt.start opts ≡ some s
      → is_failure (test s) ≡ false
      → is_failure (must_start rt opts test) ≡ false
  unfolding must_start
  must_start-Fine opts test s e f =
      subst (λ o. is_failure (elim o [ none ↦ failed | some t ↦ test t ]) ≡ false) (sym e) f

  after_stop-Fine :
      (s : rt.Session) (test : rt.Session → Bool)
      → (rt.stop s).1 ≡ true
      → test (rt.stop s).0 ≡ true
      → is_failure (after_stop rt s test) ≡ false
  unfolding after_stop
  after_stop-Fine s test e f = rw e (expect-Fine (test (rt.stop s).0) f)

module _ (rt : Runtime) (opts : StartOptions) (v : Lawful rt opts) where
  baseline-NoneFails : (b skip : Bool) → skip ≡ true → NoneFails (run_baseline rt opts b skip)
  unfolding run_baseline start_produces_alive_session health_dead_after_stop
      health_state_stopped_after_stop stop_unblocks_wait stop_is_idempotent send_input_after_stop
      resize_no_op_or_no_error is_stopped is_no_input_channel
  baseline-NoneFails b skip e =
      let s = v.session in
      let starts = λ (test : rt.Session → Verdict). must_start-Fine rt opts test s v.starts in
      let stops = λ (test : rt.Session → Bool). after_stop-Fine rt s test v.stops in
      (
        expect-Fine (not (is_blank rt.kind)) (ap not v.kind_set),
        (
          expect-Fine (not (is_blank rt.id)) (ap not v.id_set),
          (
            starts _ (expect-Fine _ v.alive),
            (
              starts _ (stops (λ x. not (rt.health x).0) (ap (λ h. not h.0) v.dead)),
              (
                starts _
                    (stops (λ x. is_stopped (rt.health x).1) (ap (λ h. is_stopped h.1) v.dead)),
                (
                  starts _
                      (unless-Fine _ _ (stops (λ x. rt.wait_returns (rt.in_time x)) v.unblocks)),
                  (
                    starts _ (stops (λ x. (rt.stop x).1) v.stops_again),
                    (
                      starts _ (
                          stops (λ x. is_no_input_channel (rt.send_input (codes "too late") x).1)
                            (ap is_no_input_channel v.refuses)),
                      (
                        starts _ (expect-Fine _ (v.resizes 24 80)),
                        (starts _ refl, (unless-skips skip _ e, tt)),
                      ),
                    ),
                  ),
                ),
              ),
            ),
          ),
        ),
      )

  pty-NoneFails : (b : Bool) → rt.caps.pty ≡ true → NoneFails (run_caps_pty rt opts b)
  unfolding run_caps_pty
  pty-NoneFails b e =
      let (s, f) = v.fans e in (unless-Fine b _ (must_start-Fine rt _ _ s f refl), tt)

  resize-NoneFails : (b : Bool) → NoneFails (run_caps_resize rt opts b)
  unfolding run_caps_resize resize_no_op_or_no_error
  resize-NoneFails b = (
    unless-Fine b _
        (must_start-Fine rt opts _ v.session v.starts (expect-Fine _ (v.resizes 40 120))),
    (unless-Fine b _ (must_start-Fine rt opts _ v.session v.starts refl), tt),
  )

  session_id-NoneFails :
      (b : Bool)
      → rt.caps.provider_session_id ≡ true
      → NoneFails (run_caps_provider_session_id rt opts b)
  unfolding run_caps_provider_session_id carries_preset implements_session_ider
  session_id-NoneFails b e =
      let (id_of, s, f, g, h) = v.keeps_id e in
      if-elim NoneFails b (λ c. tt)
        (λ c. rw f (
          must_start-Fine rt opts _ v.session v.starts refl,
          (
            must_start-Fine rt _ _ s g
                (expect-Fine _ (ap (λ i. i == preset) h ∙ same_bytes_refl preset)),
            tt,
          ),
        ))

  checkpoint-NoneFails : (b : Bool) → NoneFails (run_caps_checkpoint_resume rt opts b)
  unfolding run_caps_checkpoint_resume
  checkpoint-NoneFails b = (unless-Fine b _ (must_start-Fine rt opts _ v.session v.starts refl), tt)

  no_binary-NoneFails : not rt.caps.binary_required ≡ true → NoneFails (run_caps_no_binary rt)
  unfolding run_caps_no_binary
  no_binary-NoneFails e = (expect-Fine rt.prepare (v.prepares (ground (arith, e))), tt)

-- The suite finds no failure in a runtime that keeps the contract under the options of the harness,
-- where the harness leaves out the test of EventFanout, which needs a child that answers.
pub run-NoneFails :
    (rt : Runtime) (h : Harness)
    → h.skip_event_fanout ≡ true
    → Lawful rt (options_of h)
    → NoneFails (run rt h)
unfolding run
run-NoneFails rt h e v =
    let o = options_of h in
    let b = h.binary_skip in
    append_gated rt (run_baseline rt o b h.skip_event_fanout) rt.caps.pty (run_caps_pty rt o b)
      (gated rt rt.caps.resize (run_caps_resize rt o b)
        ++ (gated rt rt.caps.provider_session_id (run_caps_provider_session_id rt o b)
            ++ (gated rt (not rt.caps.binary_required) (run_caps_no_binary rt)
                ++ gated rt rt.caps.checkpoint_resume (run_caps_checkpoint_resume rt o b))))
      (baseline-NoneFails rt o v b h.skip_event_fanout e) (pty-NoneFails rt o v b)
      (append_gated rt [] rt.caps.resize (run_caps_resize rt o b)
        (gated rt rt.caps.provider_session_id (run_caps_provider_session_id rt o b)
          ++ (gated rt (not rt.caps.binary_required) (run_caps_no_binary rt)
              ++ gated rt rt.caps.checkpoint_resume (run_caps_checkpoint_resume rt o b)))
        tt (λ c. resize-NoneFails rt o v b)
        (append_gated rt [] rt.caps.provider_session_id (run_caps_provider_session_id rt o b)
          (gated rt (not rt.caps.binary_required) (run_caps_no_binary rt)
            ++ gated rt rt.caps.checkpoint_resume (run_caps_checkpoint_resume rt o b))
          tt (session_id-NoneFails rt o v b)
          (append_gated rt [] (not rt.caps.binary_required) (run_caps_no_binary rt)
            (gated rt rt.caps.checkpoint_resume (run_caps_checkpoint_resume rt o b)) tt
            (no_binary-NoneFails rt o v)
            (gated-NoneFails rt rt.caps.checkpoint_resume (run_caps_checkpoint_resume rt o b)
              (λ c. checkpoint-NoneFails rt o v b)))))
