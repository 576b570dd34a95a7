-- ===== src/Attach/Safety.antt =====
-- Why the broker of agentsessions/attach.go never panics: no channel is closed twice, and none is
-- written after its close.
use go_agent_sessions.Prelude.{
  ℕ, ◌≡◌, refl, ap, inl, inr, true, false, some, List, [], ◌∷◌, arith, Bool-cases, Option-cases,
  nat_eq, ◌==◌, if◌then◌else◌,
}
use go_agent_sessions.Prelude.Assoc.{lookup, delete}
use go_agent_sessions.Prelude.Int.{ℤ}
use go_agent_sessions.Attach.{
  positive_or, Bytes, Chan, Store, update, Hub, make_chan, subscribe_since, cancel, pop_chunk, Op,
  writes, subscribes, cancels, closes, receives, step, run, fresh_hub,
}
use go_agent_sessions.Attach.Live.{
  Inv, Live-SameShape, Live-update, Live-make_chan, Live-suc, NotRef-fresh, NotRef-delete,
  Live-delete, Live-lookup,
}
use go_agent_sessions.Attach.Delivery.{close_all-total, Steps, write-Inv}

pub subscribe_since-Inv :
    (depth since_seq : ℤ) (h : Hub) → Inv h → Inv (subscribe_since depth since_seq h).0
unfolding subscribe_since
subscribe_since-Inv depth since_seq h v = elim (Bool-cases h.broker.closed) [
  | inl shut ↦ rw shut (record {
    live = Live-make_chan h.store _ h.broker.sub_next h.broker.subs v.live;
    shut = λ _. v.shut shut;
  })
  | inr open_ ↦ rw open_ (record {
    live = (
      omega arith,
      omega arith,
      ground arith,
      NotRef-delete s.next n h.broker.subs (NotRef-fresh s n h.broker.subs v.live),
      Live-suc (make_chan s c) n _
          (Live-make_chan s c n _ (Live-delete s n n h.broker.subs v.live)),
    );
    shut = λ e. cc;
  })
]
  where
    s : Store
    s = h.store

    n : ℕ
    n = h.broker.sub_next

    c : Chan
    c = record { buf = []; cap = positive_or h.broker.chan_cap depth; closed = false }

cancel-Inv : (i : ℕ) (h : Hub) → Inv h → Steps (cancels i) h
unfolding step
cancel-Inv i h v = elim (Bool-cases (h.fired i)) [
  | inl done ↦ (h, rw (done, cancel), v)
  | inr first ↦ elim (Option-cases (lookup i h.broker.subs)) [
    | inl gone ↦ (h', rw (first, gone, cancel), record { live = v.live; shut = v.shut })
    | inr (r, e) ↦
        let (o, other) = Live-lookup h.store h.broker.sub_next i r h.broker.subs v.live e in
        (
          record h' {
            broker = record h.broker { subs = delete i h.broker.subs };
            store = update h.store r (record (h.store.chan r) { closed = true });
          },
          ground arith,
          record {
            live =
                Live-update h.store r _ h.broker.sub_next (delete i h.broker.subs) other
                  (Live-delete h.store h.broker.sub_next i h.broker.subs v.live);
            shut = λ c. ap (delete i) (v.shut c);
          },
        )
  ]
]
  where
    h' : Hub
    h' = record h { fired = λ j. if j == i then true else h.fired j }

close-Inv : (h : Hub) → Inv h → Steps closes h
unfolding step
close-Inv h v = elim (Bool-cases h.broker.closed) [
  | inl shut ↦ (h, ground arith, v)
  | inr open_ ↦
      let (s, e, _) = close_all-total h.broker.sub_next h.broker.subs h.store v.live in
      (
        record h { broker = record h.broker { closed = true; subs = [] }; store = s },
        ground arith,
        record { live = tt; shut = λ _. refl },
      )
]

pop_chunk-Inv : (r : ℕ) (h : Hub) (q : List Bytes) → Inv h → Inv (pop_chunk r h q)
unfolding pop_chunk
pop_chunk-Inv r h [] v = v
pop_chunk-Inv r h (p ∷ rest) v = record {
  live =
      Live-SameShape {s = h.store} {t = update h.store r (record (h.store.chan r) { buf = rest })}
        h.broker.sub_next h.broker.subs (record { next = refl; closed = λ q. ground arith }) v.live;
  shut = v.shut;
}

-- Every operation on a hub that satisfies the invariant returns, and keeps it.
pub step-Inv : (o : Op) (h : Hub) → Inv h → Steps o h
unfolding step
step-Inv (writes p) h v = write-Inv p h v
step-Inv (subscribes depth since_seq) h v = (_, refl, subscribe_since-Inv depth since_seq h v)
step-Inv (cancels i) h v = cancel-Inv i h v
step-Inv closes h v = close-Inv h v
step-Inv (receives r) h v = (_, refl, pop_chunk-Inv r h (h.store.chan r).buf v)

pub run-Inv : (os : List Op) (h : Hub) → Inv h → (h' : Hub) × (run os h ≡ some h') × Inv h'
unfolding run
run-Inv [] h v = (h, refl, v)
run-Inv (o ∷ os) h v =
    let (h₁, e, v₁) = step-Inv o h v in
    let (h₂, e', v₂) = run-Inv os h₁ v₁ in (h₂, rw (e, run) e', v₂)

pub fresh_hub-Inv : (ring_bytes subscriber_depth : ℤ) → Inv (fresh_hub ring_bytes subscriber_depth)
unfolding fresh_hub
fresh_hub-Inv ring_bytes subscriber_depth = record { live = tt; shut = λ e. cc }

-- No interleaving of writes, subscriptions, cancels, receives and closes makes the broker panic:
-- from a new broker every list of operations runs to its end.
pub run-total :
    (ring_bytes subscriber_depth : ℤ) (os : List Op)
    → (h : Hub) × (run os (fresh_hub ring_bytes subscriber_depth) ≡ some h) × Inv h
run-total ring_bytes subscriber_depth os = run-Inv os _ (fresh_hub-Inv ring_bytes subscriber_depth)
