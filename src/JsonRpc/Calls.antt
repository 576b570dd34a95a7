-- ===== src/JsonRpc/Calls.antt =====
-- Why no Call of agentsessions/jsonrpc_stdio_session.go is answered twice or forgotten: one that
-- waits is in the pending map, or its response is ready.
use go_agent_sessions.Prelude.{
  ℕ, ◌+◌, ◌≡◌, refl, ◌∙◌, ap, inl, inr, ◌⊎◌, Bool-cases, Option-cases, false, Option, none, some,
  [], String, not, if-elim, arith, nat_eq, string_eq, ◌==◌,
}
use go_agent_sessions.Prelude.Assoc.{Assoc, lookup, delete, insert, lookup-delete, lookup-insert}
use go_agent_sessions.Manager.State.{put}
use go_agent_sessions.JsonRpc.{
  Response, RespChan, fresh_chan, Session, CallPhase, not_called, registered, waiting, returned,
  Outcome, cleanup, call, take_response, resume_phase, cancel_phase, deliver_found, fail_pending,
  closing,
}
use go_agent_sessions.JsonRpc.Pending.{
  Owned, Owned-lookup, Owned-delete, Owned-suc, Owned-put, answered, send-fresh, fail_all-total,
}

-- The Call `i` is in the map, or its response is ready.
abbrev pub Expects : ℕ → Assoc ℕ ℕ → RespChan → Type 0
Expects i pending c = (lookup i pending ≡ some i) ⊎ ((r : Response) × (c.value ≡ some r))

abbrev pub CallInv : ℕ → Assoc ℕ ℕ → RespChan → CallPhase → Type 0
CallInv i pending c not_called = Unit {0}
CallInv i pending c (registered method params) = Expects i pending c
CallInv i pending c waiting = Expects i pending c
CallInv i pending c (returned o) = Unit {0}

pub record Inv (s : Session) : Type 0 where
  pub owned : Owned s.chan s.next_id s.pending
  pub expects : (i : ℕ) → CallInv i s.pending (s.chan i) (s.phase i)

-- To carry an expectation over, whichever phase the Call is in.
pub CallInv-map :
    (i : ℕ) (m m' : Assoc ℕ ℕ) (c c' : RespChan) (p : CallPhase)
    → (Expects i m c → Expects i m' c')
    → CallInv i m c p
    → CallInv i m' c' p
CallInv-map i m m' c c' not_called f v = tt
CallInv-map i m m' c c' (registered method params) f v = f v
CallInv-map i m m' c c' waiting f v = f v
CallInv-map i m m' c c' (returned o) f v = tt

pub put-cases {ℓ} :
    {A : Type 0} (P : A → Type ℓ) (f : ℕ → A) (i j : ℕ) (x : A)
    → (j ≡ i → P x)
    → ((j == i) ≡ false → P (f j))
    → P (put f i x j)
put-cases P f i j x hit miss = elim (Bool-cases (j == i)) [
  | inl e ↦ rw e (hit (ground arith))
  | inr e ↦ rw e (miss e)
]

pub put_both-cases {ℓ} :
    {A B : Type 0} (P : A → B → Type ℓ) (f : ℕ → A) (g : ℕ → B) (i j : ℕ) (x : A) (y : B)
    → (j ≡ i → P x y)
    → ((j == i) ≡ false → P (f j) (g j))
    → P (put f i x j) (put g i y j)
put_both-cases P f g i j x y hit miss = elim (Bool-cases (j == i)) [
  | inl e ↦ rw e (hit (ground arith))
  | inr e ↦ rw e (miss e)
]

pub cleanup-Inv : (i : ℕ) (o : Outcome) (s : Session) → Inv s → Inv (cleanup i o s)
cleanup-Inv i o s v = record {
  owned = Owned-delete s.chan s.next_id i s.pending v.owned;
  expects = λ j.
      put-cases (CallInv j (delete i s.pending) (s.chan j)) s.phase i j (returned o) (λ e. tt)
        (λ e.
          CallInv-map j s.pending (delete i s.pending) (s.chan j) (s.chan j) (s.phase j)
            (λ x. elim x [
              | inl l ↦ inl (ground (arith, lookup-delete i j s.pending))
              | inr r ↦ inr r
            ])
            (v.expects j));
}

register-Inv :
    (method params : String) (i : ℕ) (s : Session)
    → i ≡ s.next_id + 1
    → Inv s
    → Inv (record s {
      next_id = i;
      pending = insert i i s.pending;
      chan = put s.chan i fresh_chan;
      phase = put s.phase i (registered method params);
    })
unfolding insert
register-Inv method params i s e v =
    let gone : lookup i (delete i s.pending) ≡ none = ground (arith, lookup-delete i i s.pending) in
    record {
      owned = (
        refl,
        omega arith,
        ground arith,
        gone,
        Owned-put s.chan i i fresh_chan (delete i s.pending) gone (
            Owned-suc s.chan s.next_id i (delete i s.pending)
              (Owned-delete s.chan s.next_id i s.pending v.owned) (omega (arith, e))),
      );
      expects = λ j.
          put_both-cases (CallInv j (insert i i s.pending)) s.chan s.phase i j fresh_chan
            (registered method params) (λ h. inl (ground (arith, lookup-insert i j i s.pending)))
            (λ h.
              CallInv-map j s.pending (insert i i s.pending) (s.chan j) (s.chan j) (s.phase j)
                (λ x. elim x [
                  | inl l ↦ inl (ground (arith, lookup-insert i j i s.pending))
                  | inr r ↦ inr r
                ])
                (v.expects j));
    }

pub call-Inv : (method params : String) (s : Session) → Inv s → Inv (call method params s)
unfolding call
call-Inv method params s v =
    if-elim Inv (not s.alive) (λ e. v) (λ e. register-Inv method params (s.next_id + 1) s refl v)

pub deliver_found-Inv :
    (r : Response) (i : ℕ) (s : Session)
    → Inv s
    → (s' : Session) × (deliver_found r i s (lookup i s.pending) ≡ some s') × Inv s'
unfolding deliver_found
deliver_found-Inv r i s v = elim (Option-cases (lookup i s.pending)) [
  | inl e ↦ (s, rw e refl, v)
  | inr (q, e) ↦
      let (same, below, fresh) = Owned-lookup s.chan s.next_id i q s.pending v.owned e in
      let gone : lookup q (delete i s.pending) ≡ none =
        ground (arith, lookup-delete i q s.pending) in
      (
        record s { pending = delete i s.pending; chan = put s.chan q (answered r) },
        rw (e, deliver_found, send-fresh r (s.chan q) (ap s.chan same ∙ fresh)) refl,
        record {
          owned =
              Owned-put s.chan s.next_id q (answered r) (delete i s.pending) gone
                (Owned-delete s.chan s.next_id i s.pending v.owned);
          expects = λ j.
              put-cases (λ c. CallInv j (delete i s.pending) c (s.phase j)) s.chan q j (answered r)
                (λ h.
                  CallInv-map j s.pending (delete i s.pending) (s.chan j) (answered r) (s.phase j)
                    (λ x. inr (r, refl)) (v.expects j))
                (λ h.
                  CallInv-map j s.pending (delete i s.pending) (s.chan j) (s.chan j) (s.phase j)
                    (λ x. elim x [
                      | inl l ↦ inl (ground (arith, lookup-delete i j s.pending))
                      | inr y ↦ inr y
                    ])
                    (v.expects j));
        },
      )
]

still-Expects :
    (j : ℕ) (m : Assoc ℕ ℕ) (r : Response) (c c' : RespChan)
    → c' ≡ elim (lookup j m) [ none ↦ c | some q ↦ answered r ]
    → Expects j m c
    → Expects j [] c'
still-Expects j m r c c' e x = elim (Option-cases (lookup j m)) [
  | inl miss ↦ elim x [ inl l ↦ absurd (cc (l, miss)) | inr (y, h) ↦ inr (y, rw (e, miss) h) ]
  | inr (q, hit) ↦ inr (r, rw (e, hit) refl)
]

pub fail_pending-empties :
    (text : String) (s : Session)
    → Inv s
    → (s' : Session) × (fail_pending text s ≡ some s')
      × Inv s'
      × (s'.pending ≡ [])
      × (s'.phase ≡ s.phase)
unfolding fail_pending
fail_pending-empties text s v =
    let (chan', e, f) = fail_all-total (closing text) s.next_id s.pending s.chan v.owned in
    (
      record s { pending = []; chan = chan' },
      rw (e, fail_pending) refl,
      record {
        owned = tt;
        expects = λ j.
            CallInv-map j s.pending [] (s.chan j) (chan' j) (s.phase j)
              (still-Expects j s.pending (closing text) (s.chan j) (chan' j) (f j)) (v.expects j);
      },
      refl,
      refl,
    )

pub fail_pending-Inv :
    (text : String) (s : Session)
    → Inv s
    → (s' : Session) × (fail_pending text s ≡ some s') × Inv s'
fail_pending-Inv text s v = let (s', e, v', p, q) = fail_pending-empties text s v in (s', e, v')

take_response-Inv :
    (i : ℕ) (s : Session) (o : Option Response)
    → (s.chan i).value ≡ o
    → Inv s
    → Inv (take_response i s o)
unfolding take_response
take_response-Inv i s none e v = v
take_response-Inv i s (some r) e v =
    let gone : lookup i s.pending ≡ none = elim (Option-cases (lookup i s.pending)) [
      | inl miss ↦ miss
      | inr (q, hit) ↦
          let fresh = (Owned-lookup s.chan s.next_id i q s.pending v.owned hit).2 in
          absurd (cc (ap (λ c. c.value) fresh, e))
    ] in
    record {
      owned = Owned-put s.chan s.next_id i _ s.pending gone v.owned;
      expects = λ j.
          put_both-cases (CallInv j s.pending) s.chan s.phase i j
            (record (s.chan i) { value = none }) _ (λ h. tt) (λ h. v.expects j);
    }

pub resume-Inv : (i : ℕ) (s : Session) (p : CallPhase) → Inv s → Inv (resume_phase i s p)
unfolding resume_phase
resume-Inv i s waiting v = take_response-Inv i s (s.chan i).value refl v
resume-Inv i s not_called v = v
resume-Inv i s (registered method params) v = v
resume-Inv i s (returned o) v = v

pub cancel-Inv :
    (i : ℕ) (text : String) (s : Session) (p : CallPhase) → Inv s → Inv (cancel_phase i text s p)
unfolding cancel_phase
cancel-Inv i text s waiting v = cleanup-Inv i _ s v
cancel-Inv i text s not_called v = v
cancel-Inv i text s (registered method params) v = v
cancel-Inv i text s (returned o) v = v
