-- ===== src/Attach/Joining.antt =====
-- A new subscriber of agentsessions/attach.go: its replay, and its empty channel.
use go_agent_sessions.Prelude.{
  ℕ, ◌-◌, ◌≡◌, refl, sym, ap, ◌∙◌, inl, inr, false, ◌||◌, [], ◌∷◌, ◌++◌, arith, Bool-cases, length,
  nat_eq, ◌==◌, if◌then◌else◌, flatten, append-nil, drop, drop-all, leb, take_last, length-drop,
  max,
}
use go_agent_sessions.Prelude.Assoc.{Assoc, delete, insert}
use go_agent_sessions.Prelude.Int.{ℤ, pos, negsuc}
use go_agent_sessions.Attach.{
  Bytes, Subscription, Store, Hub, subscribes, subscribe_since, compute_replay,
}
use go_agent_sessions.Attach.Ring.{compute_replay-tail, compute_replay-all}
use go_agent_sessions.Attach.Live.{Inv, Live}
use go_agent_sessions.Attach.Delivery.{holds}
use go_agent_sessions.Attach.World.{World, observe, Faithful}

-- A suffix is found by its length.
drop_by_length :
    (k : ℕ) (sent : Bytes) → drop (length sent - length (drop k sent)) sent ≡ drop k sent
drop_by_length k sent = elim (Bool-cases (leb k (length sent))) [
  | inl inside ↦ ap (λ n. drop n sent) (ground (arith, length-drop k sent))
  | inr beyond ↦
      drop-all _ sent (ground (arith, length-drop k sent)) ∙ sym (drop-all k sent (ground arith))
]

compute_replay-suffix :
    (ring_cap : ℕ) (sent : Bytes) (since_seq : ℤ)
    → let replay = compute_replay (take_last ring_cap sent) (length sent) since_seq in
      replay ++ [] ≡ drop (length sent - length replay) sent
compute_replay-suffix ring_cap sent (negsuc n) =
    append-nil _
    ∙ rw (compute_replay-all ring_cap sent (negsuc n) refl)
        (sym (drop_by_length (length sent - ring_cap) sent))
compute_replay-suffix ring_cap sent (pos n) =
    append-nil _
    ∙ rw (compute_replay-tail ring_cap n sent)
        (sym (drop_by_length (max n (length sent - ring_cap)) sent))

delete-fresh : (s : Store) (n : ℕ) (m : Assoc ℕ ℕ) → Live s n m → delete n m ≡ m
unfolding delete
delete-fresh s n [] v = refl
delete-fresh s n ((i, r) ∷ m) v = ground (arith, delete-fresh s n m v.4)

subscribe_since-Keeps :
    (depth since_seq : ℤ) (h : Hub)
    → let (h', s) = subscribe_since depth since_seq h in
      (h'.broker.ring ≡ h.broker.ring)
      × (h'.broker.ring_cap ≡ h.broker.ring_cap)
      × (h'.broker.total_written ≡ h.broker.total_written)
      × (h'.broker.closed ≡ h.broker.closed)
      × (s.live ≡ h.store.next)
      × (s.replay ≡ compute_replay h.broker.ring h.broker.total_written since_seq)
unfolding subscribe_since
subscribe_since-Keeps depth since_seq h = ground arith

-- The new channel is empty, and the old ones are as they were.
subscribe_since-buf :
    (depth since_seq : ℤ) (h : Hub) (q : ℕ)
    → let (h', s) = subscribe_since depth since_seq h in
      (h'.store.chan q).buf ≡ (if q == s.live then [] else (h.store.chan q).buf)
unfolding subscribe_since
subscribe_since-buf depth since_seq h q = ground arith

subscribe_since-holds :
    (depth since_seq : ℤ) (h : Hub) (q : ℕ)
    → Inv h
    → h.broker.closed ≡ false
    → let (h', s) = subscribe_since depth since_seq h in
      holds q h'.broker.subs ≡ (q == s.live || holds q h.broker.subs)
unfolding subscribe_since insert
subscribe_since-holds depth since_seq h q v c =
    ground (arith, delete-fresh h.store h.broker.sub_next h.broker.subs v.live)

pub replays-tail :
    (depth since_seq : ℤ) (w : World)
    → Faithful w
    → (subscribe_since depth since_seq w.hub).1.replay
      ≡ compute_replay (take_last w.hub.broker.ring_cap w.sent) (length w.sent) since_seq
replays-tail depth since_seq w f =
    (subscribe_since-Keeps depth since_seq w.hub).5
    ∙ ap (λ b. compute_replay b w.hub.broker.total_written since_seq) f.window
    ∙ ap (λ n. compute_replay (take_last w.hub.broker.ring_cap w.sent) n since_seq) f.counted

pub subscribes-Faithful :
    (depth since_seq : ℤ) (w : World)
    → Inv (subscribe_since depth since_seq w.hub).0
    → Faithful w
    → Faithful (observe (subscribes depth since_seq) w (subscribe_since depth since_seq w.hub).0)
unfolding observe
subscribes-Faithful depth since_seq w v f = record {
  safe = v;
  window = same.0 ∙ f.window ∙ ap (λ n. take_last n w.sent) (sym same.1);
  counted = same.2 ∙ f.counted;
  streams = λ r a. elim (Bool-cases (r == s.live)) [
    | inl new ↦ record {
      within = ground arith;
      known = λ c.
          ground (arith, subscribe_since-holds depth since_seq w.hub r f.safe (sym same.3 ∙ c));
      gapless = λ l. rw (new, subscribe_since-buf depth since_seq w.hub r, new) whole;
    }
    | inr old ↦
        let t = f.streams r (ground arith) in
        record {
          within = ground (arith, t.within);
          known = λ c. ground (
            arith,
            subscribe_since-holds depth since_seq w.hub r f.safe (sym same.3 ∙ c),
            t.known (sym same.3 ∙ c),
          );
          gapless = λ l.
              rw (old, subscribe_since-buf depth since_seq w.hub r, old) (t.gapless (ground arith));
        }
  ];
}
  where
    same :
        let (h', s) = subscribe_since depth since_seq w.hub in
        (h'.broker.ring ≡ w.hub.broker.ring)
        × (h'.broker.ring_cap ≡ w.hub.broker.ring_cap)
        × (h'.broker.total_written ≡ w.hub.broker.total_written)
        × (h'.broker.closed ≡ w.hub.broker.closed)
        × (s.live ≡ w.hub.store.next)
        × (s.replay ≡ compute_replay w.hub.broker.ring w.hub.broker.total_written since_seq)
    same = subscribe_since-Keeps depth since_seq w.hub

    s : Subscription
    s = (subscribe_since depth since_seq w.hub).1

    whole : s.replay ++ flatten [] ≡ drop (length w.sent - length s.replay) w.sent
    whole =
        rw (replays-tail depth since_seq w f)
          (compute_replay-suffix w.hub.broker.ring_cap w.sent since_seq)
