-- ===== src/JsonRpc/Unanswered.antt =====
-- A Call of agentsessions/jsonrpc_stdio_session.go that nobody answers.
use go_agent_sessions.Prelude.{
  ℕ, ◌+◌, ◌≤◌, ◌≡◌, ◌≢◌, refl, ap, sym, ◌∙◌, true, not, Option, none, some, List, [], ◌∷◌, ◌++◌,
  String, if-elim, Option-elim, arith, nat_eq,
}
use go_agent_sessions.Prelude.Assoc.{insert}
use go_agent_sessions.Manager.State.{put}
use go_agent_sessions.JsonRpc.{
  Response, fresh_chan, Session, CallPhase, not_called, registered, waiting, returned, Outcome,
  encode_failed, no_input_channel, write_failed, ctx_done, cleanup, call, take_response,
  resume_phase, cancel_phase, send_phase, Outside, Move, calls, sends, resumes, cancels, reads,
  reader_exits, stops, child_exits, child_starts, step, run,
}
use go_agent_sessions.JsonRpc.Calls.{put-cases}

-- The Call `i` waits, and its channel is empty.
abbrev Stuck : ℕ → Session → Type 0
Stuck i s = (s.phase i ≡ waiting) × ((s.chan i).value ≡ none) × (i ≤ s.next_id)

-- What may still happen when the reader has ended: anything but Stop, and the end of the context of
-- the Call `i`.
abbrev pub WithoutReader : ℕ → Move → Type 0
WithoutReader i (calls method params) = Unit {0}
WithoutReader i (sends j e) = Unit {0}
WithoutReader i (resumes j) = Unit {0}
WithoutReader i (cancels j text) = j ≢ i
WithoutReader i (reads line) = ⊥
WithoutReader i reader_exits = ⊥
WithoutReader i stops = ⊥
WithoutReader i child_exits = Unit {0}
WithoutReader i child_starts = ⊥

abbrev pub AllWithoutReader : ℕ → List Move → Type 0
AllWithoutReader i [] = Unit {0}
AllWithoutReader i (o ∷ os) = WithoutReader i o × AllWithoutReader i os

put-same {ℓ} : {A : Type ℓ} (g : ℕ → A) (i : ℕ) (x : A) → put g i x i ≡ x
put-same g i x = ground arith

-- Only the phase of another Call changes.
other-Stuck :
    (i k : ℕ) (p : CallPhase) (s : Session) → i ≢ k → Stuck i s → put s.phase k p i ≡ waiting
other-Stuck i k p s h v = put-cases (λ q. q ≡ waiting) s.phase k i p (λ e. absurd (h e)) (λ e. v.0)

differs : (i k : ℕ) (p : CallPhase) (s : Session) → s.phase k ≡ p → p ≢ waiting → Stuck i s → i ≢ k
differs i k p s e h v same = h (sym e ∙ ap s.phase (sym same) ∙ v.0)

call-Stuck :
    (i : ℕ) (method params : String) (s : Session) → Stuck i s → Stuck i (call method params s)
unfolding call
call-Stuck i method params s v =
    if-elim (Stuck i) (not s.alive) (λ e. v)
      (λ e. (
        other-Stuck i (s.next_id + 1) (registered method params) s (λ h. absurd (omega arith)) v,
        put-cases (λ c. c.value ≡ none) s.chan (s.next_id + 1) i fresh_chan (λ h. refl) (λ h. v.1),
        omega arith,
      ))

take-Stuck :
    (i k : ℕ) (s : Session) (w : Option Response)
    → (s.chan k).value ≡ w
    → Stuck i s
    → Stuck i (take_response k s w)
unfolding take_response
take-Stuck i k s none e v = v
take-Stuck i k s (some r) e v =
    let h : i ≢ k = λ same. cc (sym v.1 ∙ ap (λ j. (s.chan j).value) same ∙ e) in
    (
      other-Stuck i k _ s h v,
      put-cases (λ c. c.value ≡ none) s.chan k i _ (λ g. refl) (λ g. v.1),
      v.2,
    )

resume-Stuck : (i k : ℕ) (s : Session) (p : CallPhase) → Stuck i s → Stuck i (resume_phase k s p)
unfolding resume_phase
resume-Stuck i k s waiting v = take-Stuck i k s (s.chan k).value refl v
resume-Stuck i k s not_called v = v
resume-Stuck i k s (registered method params) v = v
resume-Stuck i k s (returned o) v = v

cancel-Stuck :
    (i k : ℕ) (text : String) (s : Session) (p : CallPhase)
    → k ≢ i
    → Stuck i s
    → Stuck i (cancel_phase k text s p)
unfolding cancel_phase
cancel-Stuck i k text s waiting h v = (other-Stuck i k _ s (λ e. h (sym e)) v, v.1, v.2)
cancel-Stuck i k text s not_called h v = v
cancel-Stuck i k text s (registered method params) h v = v
cancel-Stuck i k text s (returned o) h v = v

abbrev pub StillWaits : ℕ → Option Session → Type 0
StillWaits i o = (s' : Session) × (o ≡ some s') × (s'.phase i ≡ waiting)

module _ (out : Outside) where
  send-Stuck :
      (i k : ℕ) (werr : Option String) (s : Session) (p : CallPhase)
      → s.phase k ≡ p
      → Stuck i s
      → Stuck i (send_phase out k werr s p)
  unfolding send_phase
  send-Stuck i k werr s (registered method params) e v =
      let h : i ≢ k = differs i k (registered method params) s e (λ x. cc x) v in
      let fails = λ (o : Outcome).
        let st : Stuck i (cleanup k o s) = (other-Stuck i k (returned o) s h v, v.1, v.2) in st in
      Option-elim (Stuck i) (out.encode_call k method params) (fails encode_failed) (λ encoded.
        if-elim (Stuck i) (not s.stdin) (λ g. fails no_input_channel)
          (λ g.
            Option-elim (Stuck i) werr (other-Stuck i k waiting s h v, v.1, v.2)
              (λ text. fails (write_failed text))))
  send-Stuck i k werr s not_called e v = v
  send-Stuck i k werr s waiting e v = v
  send-Stuck i k werr s (returned o) e v = v

  step-Stuck :
      (i : ℕ) (o : Move) (s : Session)
      → WithoutReader i o
      → Stuck i s
      → (s' : Session) × (step out o s ≡ some s') × Stuck i s'
  unfolding step
  step-Stuck i (calls method params) s w v = (_, refl, call-Stuck i method params s v)
  step-Stuck i (sends k e) s w v = (_, refl, send-Stuck i k e s (s.phase k) refl v)
  step-Stuck i (resumes k) s w v = (_, refl, resume-Stuck i k s (s.phase k) v)
  step-Stuck i (cancels k text) s w v = (_, refl, cancel-Stuck i k text s (s.phase k) w v)
  step-Stuck i (reads line) s w v = absurd w
  step-Stuck i reader_exits s w v = absurd w
  step-Stuck i stops s w v = absurd w
  step-Stuck i child_exits s w v = (_, refl, v)
  step-Stuck i child_starts s w v = absurd w

  run-Stuck :
      (i : ℕ) (os : List Move) (s : Session)
      → AllWithoutReader i os
      → Stuck i s
      → StillWaits i (run out os s)
  unfolding run
  run-Stuck i [] s w v = (s, refl, v.0)
  run-Stuck i (o ∷ os) s w v =
      let (t, e, v') = step-Stuck i o s w.0 v in
      let (u, f, p) = run-Stuck i os t w.1 v' in (u, rw (e, run) f, p)

  asked-Stuck :
      (i : ℕ) (method params encoded : String) (s : Session)
      → s.stdin ≡ true
      → s.phase i ≡ registered method params
      → (s.chan i).value ≡ none
      → i ≤ s.next_id
      → out.encode_call i method params ≡ some encoded
      → Stuck i (send_phase out i none s (s.phase i))
  unfolding send_phase
  asked-Stuck i method params encoded s d p c h e =
      rw (p, send_phase) (rw (e, d) (put-same s.phase i waiting, c, h))

  ctx_returns :
      (i : ℕ) (text : String) (u : Session)
      → u.phase i ≡ waiting
      → (cancel_phase i text u (u.phase i)).phase i ≡ returned (ctx_done text)
  unfolding cancel_phase
  ctx_returns i text u p = rw (p, cancel_phase) (put-same u.phase i (returned (ctx_done text)))

  asked-written :
      (i : ℕ) (method params encoded : String) (s : Session)
      → s.stdin ≡ true
      → s.phase i ≡ registered method params
      → out.encode_call i method params ≡ some encoded
      → (send_phase out i none s (s.phase i)).written ≡ s.written ++ encoded ∷ []
  unfolding send_phase
  asked-written i method params encoded s d p e = rw (p, send_phase) (rw (e, d) refl)

  request_written :
      (method params encoded : String) (s : Session)
      → s.alive ≡ true
      → s.stdin ≡ true
      → out.encode_call (s.next_id + 1) method params ≡ some encoded
      → (send_phase out
          (s.next_id + 1)
          none
          (call method params s)
          ((call method params s).phase (s.next_id + 1))).written
        ≡ s.written ++ encoded ∷ []
  unfolding call
  request_written method params encoded s a d e =
      let i = s.next_id + 1 in
      if-elim
        (λ (t : Session). (send_phase out i none t (t.phase i)).written ≡ s.written ++ encoded ∷ [])
        (not s.alive) (λ f. absurd (cc (ap not a, f)))
        (λ f.
          asked-written i method params encoded
            (record s {
              next_id = i;
              pending = insert i i s.pending;
              chan = put s.chan i fresh_chan;
              phase = put s.phase i (registered method params);
            })
            d (put-same s.phase i (registered method params)) e)

  registered-Stuck :
      (method params encoded : String) (s : Session)
      → s.alive ≡ true
      → s.stdin ≡ true
      → out.encode_call (s.next_id + 1) method params ≡ some encoded
      → Stuck (s.next_id + 1) (
          send_phase out
            (s.next_id + 1)
            none
            (call method params s)
            ((call method params s).phase (s.next_id + 1)))
  unfolding call
  registered-Stuck method params encoded s a d e =
      let i = s.next_id + 1 in
      if-elim (λ t. Stuck i (send_phase out i none t (t.phase i))) (not s.alive)
        (λ f. absurd (cc (ap not a, f)))
        (λ f.
          asked-Stuck i method params encoded
            (record s {
              next_id = i;
              pending = insert i i s.pending;
              chan = put s.chan i fresh_chan;
              phase = put s.phase i (registered method params);
            })
            d (put-same s.phase i (registered method params))
            (ap (λ c. c.value) (put-same s.chan i fresh_chan)) (omega arith) e)

  -- A Call of a live session when the reader has ended, so that nothing is read any more: its
  -- request is written, and then it waits, whatever the other Calls do and although the child
  -- exits, as long as its own context does not end and Stop is not called; when its context ends
  -- it returns the context's error.
  pub late_call_waits :
      (method params encoded text : String) (os : List Move) (s : Session)
      → s.alive ≡ true
      → s.stdin ≡ true
      → out.encode_call (s.next_id + 1) method params ≡ some encoded
      → AllWithoutReader (s.next_id + 1) os
      → (t : Session) × (run out (calls method params ∷ sends (s.next_id + 1) none ∷ []) s ≡ some t)
        × (t.written ≡ s.written ++ encoded ∷ [])
        × ((u : Session) × (run out os t ≡ some u)
            × (u.phase (s.next_id + 1) ≡ waiting)
            × ((cancel_phase (s.next_id + 1) text u (u.phase (s.next_id + 1))).phase (s.next_id + 1)
                ≡ returned (ctx_done text)))
  unfolding run step
  late_call_waits method params encoded text os s a d e w =
      let i = s.next_id + 1 in
      let t = send_phase out i none (call method params s) ((call method params s).phase i) in
      let (u, f, p) = run-Stuck i os t w (registered-Stuck method params encoded s a d e) in
      (t, refl, request_written method params encoded s a d e, (u, f, p, ctx_returns i text u p))
