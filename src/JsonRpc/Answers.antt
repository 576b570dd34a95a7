-- ===== src/JsonRpc/Answers.antt =====
-- How a Call of agentsessions/jsonrpc_stdio_session.go ends: by the response with its id, or
-- because the reader or the session has ended.
use go_agent_sessions.Prelude.{
  ℕ, ◌≡◌, refl, ap, ◌∙◌, subst, inl, inr, true, false, none, some, [], ◌∷◌, ◌++◌, String, arith,
  nat_eq, string_eq,
}
use go_agent_sessions.Prelude.Assoc.{lookup, delete}
use go_agent_sessions.Manager.State.{put}
use go_agent_sessions.JsonRpc.{
  Response, Session, waiting, returned, Outcome, outcome_of, Move, calls, sends, cancels,
  child_exits, child_starts, resumes, reads, reader_exits, stops, Outside, take_response,
  resume_phase, stop, step, run,
}
use go_agent_sessions.JsonRpc.Pending.{answered}
use go_agent_sessions.JsonRpc.Calls.{Inv, Expects, CallInv, fail_pending-empties}

-- The Call `j` is as it was.
abbrev pub Untouched : Session → Session → ℕ → Type 0
Untouched s s' j =
    (s'.phase j ≡ s.phase j) × (s'.chan j ≡ s.chan j) × (lookup j s'.pending ≡ lookup j s.pending)

put-same {ℓ} : {A : Type ℓ} (g : ℕ → A) (i : ℕ) (x : A) → put g i x i ≡ x
put-same g i x = ground arith

-- A Call that waits takes the response that is ready.
takes :
    (i : ℕ) (r : Response) (s : Session)
    → s.phase i ≡ waiting
    → (s.chan i).value ≡ some r
    → (resume_phase i s (s.phase i)).phase i ≡ returned (outcome_of r)
unfolding resume_phase take_response
takes i r s e f = rw (e, f) (put-same s.phase i (returned (outcome_of r)))

nothing : {i : ℕ} → lookup i [] ≡ some i → ⊥
unfolding lookup
nothing l = absurd (cc l)

-- The reader's end, or the first Stop.
abbrev pub Ending : Move → Session → Type 0
Ending reader_exits s = Unit {0}
Ending stops s = s.stopping ≡ false
Ending (calls method params) s = ⊥
Ending (sends i e) s = ⊥
Ending (resumes i) s = ⊥
Ending (cancels i t) s = ⊥
Ending (reads l) s = ⊥
Ending child_exits s = ⊥
Ending child_starts s = ⊥

-- The session once the response `r` has reached the Call `i`, and once the Call has taken it.
abbrev after_line : ℕ → Response → String → Session → Session
after_line i r line s = record s {
  sink = s.sink ++ line ∷ [];
  pending = delete i s.pending;
  chan = put s.chan i (answered r);
}

abbrev after_take : ℕ → Response → String → Session → Session
after_take i r line s = record s {
  sink = s.sink ++ line ∷ [];
  pending = delete i s.pending;
  chan = put (put s.chan i (answered r)) i (record (put s.chan i (answered r) i) { value = none });
  phase = put s.phase i (returned (outcome_of r));
}

pub emptied :
    (i : ℕ) (s : Session)
    → Inv s
    → s.pending ≡ []
    → s.phase i ≡ waiting
    → (o : Outcome) × ((resume_phase i s (s.phase i)).phase i ≡ returned o)
emptied i s v e f =
    let x : Expects i [] (s.chan i) =
      subst (λ m. Expects i m (s.chan i)) e
        (subst (CallInv i s.pending (s.chan i)) f (v.expects i)) in
    elim x [ inl l ↦ absurd (nothing l) | inr (r, h) ↦ (_, takes i r s f h) ]

module _ (out : Outside) where
  -- A Call that waits returns once the reader has ended, and once Stop has been called for the
  -- first time, whether or not it is still in the pending map.
  pub end_unblocks :
      (o : Move) (i : ℕ) (s : Session)
      → Ending o s
      → Inv s
      → s.phase i ≡ waiting
      → (s' : Session) × (c : Outcome) × (run out (o ∷ resumes i ∷ []) s ≡ some s')
        × (s'.phase i ≡ returned c)
  unfolding run step stop
  end_unblocks reader_exits i s h v w =
      let (s', e, v', p, q) =
        fail_pending-empties "agentsessions: jsonrpc reader exited before response" s v in
      let (c, f) = emptied i s' v' p (ap (λ g. g i) q ∙ w) in
      (resume_phase i s' (s'.phase i), c, rw (run, step, e) refl, f)
  end_unblocks stops i s h v w =
      let t : Session = record s { alive = false; stopping = true } in
      let (s', e, v', p, q) =
        fail_pending-empties "agentsessions: session stopped" t
          (record { owned = v.owned; expects = v.expects }) in
      let (c, f) = emptied i s' v' p (ap (λ g. g i) q ∙ w) in
      (resume_phase i s' (s'.phase i), c, rw (run, step, h) (rw (run, step, e) refl), f)
  end_unblocks (calls method params) i s h v w = absurd h
  end_unblocks (sends j e) i s h v w = absurd h
  end_unblocks (resumes j) i s h v w = absurd h
  end_unblocks (cancels j t) i s h v w = absurd h
  end_unblocks (reads l) i s h v w = absurd h
  end_unblocks child_exits i s h v w = absurd h
  end_unblocks child_starts i s h v w = absurd h
