-- ===== src/JsonRpc/Replies.antt =====
-- The schedules of agentsessions/jsonrpc_stdio_session.go: no step panics, and each Call that waits
-- is answered at the end.
use go_agent_sessions.Prelude.{
  ℕ, ◌≡◌, refl, Bool, true, false, Option, none, some, List, [], ◌∷◌, ◌++◌, String, not, if-elim,
  Option-elim, sym, subst, if◌then◌else◌, nat_eq, string_eq, ◌==◌,
}
use go_agent_sessions.Prelude.Int.{ℤ, pos, negsuc}
use go_agent_sessions.Manager.State.{put}
use go_agent_sessions.JsonRpc.{
  Response, Session, CallPhase, not_called, registered, waiting, returned, Move, calls, sends,
  resumes, cancels, reads, reader_exits, stops, child_exits, child_starts, Outside, Frame,
  send_phase, deliver_response, stop, respond, dispatch, read_line, step, run, new_session, answer,
}
use go_agent_sessions.JsonRpc.Calls.{
  Inv, CallInv, put-cases, cleanup-Inv, call-Inv, deliver_found-Inv, fail_pending-Inv, resume-Inv,
  cancel-Inv,
}

-- What a step does to a session that satisfies the invariant: it returns, and keeps it.
abbrev pub Returns : Option Session → Type 0
Returns o = (s' : Session) × (o ≡ some s') × Inv s'

-- Only what the log, the child and the hooks were given changes.
noted-Inv :
    (s : Session) (a t i : Bool) (w l : List String) (n : List (String × String))
    → Inv s
    → Inv (record s { alive = a; stopping = t; stdin = i; written = w; sink = l; notified = n })
noted-Inv s a t i w l n v = record { owned = v.owned; expects = v.expects }

deliver_response-Inv :
    (id : Option ℤ) (r : Response) (s : Session) → Inv s → Returns (deliver_response id r s)
unfolding deliver_response
deliver_response-Inv none r s v = (s, refl, v)
deliver_response-Inv (some (negsuc n)) r s v = (s, refl, v)
deliver_response-Inv (some (pos i)) r s v = deliver_found-Inv r i s v

stop-Inv : (s : Session) → Inv s → Returns (stop s)
unfolding stop
stop-Inv s v =
    if-elim Returns s.stopping (λ e. (s, refl, v))
      (λ e.
        fail_pending-Inv "agentsessions: session stopped" _
          (noted-Inv s false true s.stdin s.written s.sink s.notified v))

sent-Inv :
    (i : ℕ) (method params : String) (w : List String) (s : Session)
    → s.phase i ≡ registered method params
    → Inv s
    → Inv (record s { written = w; phase = put s.phase i waiting })
sent-Inv i method params w s e v = record {
  owned = v.owned;
  expects = λ j.
      put-cases (CallInv j s.pending (s.chan j)) s.phase i j waiting
        (λ h.
          subst (λ k. CallInv k s.pending (s.chan k) waiting) (sym h)
            (subst (CallInv i s.pending (s.chan i)) e (v.expects i)))
        (λ h. v.expects j);
}

module _ (out : Outside) where
  send-Inv :
      (i : ℕ) (werr : Option String) (s : Session) (p : CallPhase)
      → s.phase i ≡ p
      → Inv s
      → Inv (send_phase out i werr s p)
  unfolding send_phase
  send-Inv i werr s (registered method params) e v =
      Option-elim Inv (out.encode_call i method params) (cleanup-Inv i _ s v) (λ encoded.
        if-elim Inv (not s.stdin) (λ h. cleanup-Inv i _ s v)
          (λ h.
            Option-elim Inv werr (sent-Inv i method params _ s e v) (λ text. cleanup-Inv i _ s v)))
  send-Inv i werr s not_called e v = v
  send-Inv i werr s waiting e v = v
  send-Inv i werr s (returned o) e v = v

  respond-Inv : (id : String) (f : Frame) (s : Session) → Inv s → Inv (respond out id f s)
  unfolding respond
  respond-Inv id f s v = Option-elim Inv (out.encode_answer id (answer out f)) v (λ encoded.
      if-elim Inv s.stdin
        (λ h.
          noted-Inv s s.alive s.stopping s.stdin (s.written ++ encoded ∷ []) s.sink s.notified v)
        (λ h. v))

  notified-Inv :
      (f : Frame) (s : Session)
      → Inv s
      → Inv (
          if out.has_notification_hook
          then record s { notified = s.notified ++ (f.method, f.params) ∷ [] }
          else s)
  notified-Inv f s v =
      if-elim Inv out.has_notification_hook
        (λ h. noted-Inv s s.alive s.stopping s.stdin s.written s.sink _ v) (λ h. v)

  dispatch-Inv : (f : Frame) (s : Session) → Inv s → Returns (dispatch out f s)
  unfolding dispatch
  dispatch-Inv f s v =
      if-elim Returns (not (f.method == ""))
        (λ h.
          Option-elim Returns f.id (_, refl, notified-Inv f s v)
            (λ id. (_, refl, respond-Inv id f s v)))
        (λ h.
          Option-elim Returns f.id (s, refl, v)
            (λ id. deliver_response-Inv (out.decode_id id) _ s v))

  read_line-Inv : (line : String) (s : Session) → Inv s → Returns (read_line out line s)
  unfolding read_line
  read_line-Inv line s v =
      let v' =
        noted-Inv s s.alive s.stopping s.stdin s.written (s.sink ++ line ∷ []) s.notified v in
      Option-elim Returns (out.unmarshal line) (_, refl, v') (λ f. dispatch-Inv f _ v')

  pub step-Inv : (o : Move) (s : Session) → Inv s → Returns (step out o s)
  unfolding step
  step-Inv (calls method params) s v = (_, refl, call-Inv method params s v)
  step-Inv (sends i werr) s v = (_, refl, send-Inv i werr s (s.phase i) refl v)
  step-Inv (resumes i) s v = (_, refl, resume-Inv i s (s.phase i) v)
  step-Inv (cancels i text) s v = (_, refl, cancel-Inv i text s (s.phase i) v)
  step-Inv (reads line) s v = read_line-Inv line s v
  step-Inv reader_exits s v = fail_pending-Inv _ s v
  step-Inv stops s v = stop-Inv s v
  step-Inv child_exits s v =
      (_, refl, noted-Inv s s.alive s.stopping false s.written s.sink s.notified v)
  step-Inv child_starts s v =
      (_, refl, noted-Inv s s.alive s.stopping true s.written s.sink s.notified v)

  pub run-Inv : (os : List Move) (s : Session) → Inv s → Returns (run out os s)
  unfolding run
  run-Inv [] s v = (s, refl, v)
  run-Inv (o ∷ os) s v =
      let (s', e, v') = step-Inv o s v in
      let (s'', e', v'') = run-Inv os s' v' in (s'', rw (e, run) e', v'')

  pub new_session-Inv : Inv new_session
  unfolding new_session
  new_session-Inv = record { owned = tt; expects = λ i. tt }

  -- No schedule of Calls, cancellations, lines from the child, a stop, ends and restarts of the child
  -- makes the client answer a Call twice or block on its channel; and afterwards each Call that
  -- waits is in the pending map, or its response is ready.
  pub calls_run-total : (os : List Move) → Returns (run out os new_session)
  calls_run-total os = run-Inv os new_session new_session-Inv
