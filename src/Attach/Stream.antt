-- ===== src/Attach/Stream.antt =====
-- The stream of agentsessions/attach.go, over any interleaving of its operations.
use go_agent_sessions.Prelude.{
  ℕ, ◌+◌, ◌-◌, ◌≤◌, ◌≡◌, refl, sym, ap, ◌∙◌, some, List, [], ◌∷◌, arith, length, nat_eq, subst,
  drop-all, length-drop, max,
}
use go_agent_sessions.Prelude.Int.{ℤ, pos}
use go_agent_sessions.Attach.{
  Hub, Op, writes, subscribes, cancels, closes, receives, step, fresh_hub, subscribe_since,
}
use go_agent_sessions.Attach.Ring.{compute_replay-tail}
use go_agent_sessions.Attach.Live.{Inv}
use go_agent_sessions.Attach.Delivery.{step-writes}
use go_agent_sessions.Attach.Safety.{step-Inv, fresh_hub-Inv}
use go_agent_sessions.Attach.World.{World, observe, observed, watch_run, new_world, Faithful}
use go_agent_sessions.Attach.Leaving.{writes-Faithful}
use go_agent_sessions.Attach.Joining.{replays-tail, subscribes-Faithful}
use go_agent_sessions.Attach.Draining.{cancels-Faithful, closes-Faithful, receives-Faithful}

-- Every operation keeps the invariant of the world.
observe-Faithful :
    (o : Op) (w : World) (h : Hub)
    → step o w.hub ≡ some h
    → Inv h
    → Faithful w
    → Faithful (observe o w h)
unfolding step
observe-Faithful (writes p) w h e v f =
    subst (λ k. Faithful (observe (writes p) w k)) (cc (step-writes p w.hub f.safe))
      (writes-Faithful p w f)
observe-Faithful (subscribes depth since_seq) w h e v f =
    subst (λ k. Inv k → Faithful (observe (subscribes depth since_seq) w k)) (cc)
      (λ v'. subscribes-Faithful depth since_seq w v' f) v
observe-Faithful (cancels i) w h e v f = cancels-Faithful i w h e v f
observe-Faithful closes w h e v f = closes-Faithful w h e v f
observe-Faithful (receives r) w h e v f =
    subst (λ k. Inv k → Faithful (observe (receives r) w k)) (cc) (λ v'. receives-Faithful r w v' f)
      v

new_world-Faithful :
    (ring_bytes subscriber_depth : ℤ) → Faithful (new_world ring_bytes subscriber_depth)
unfolding new_world fresh_hub
new_world-Faithful ring_bytes subscriber_depth = record {
  safe = fresh_hub-Inv ring_bytes subscriber_depth;
  window = sym (drop-all _ [] (omega arith));
  counted = refl;
  streams = λ r a. cc;
}

watch_run-Faithful :
    (os : List Op) (w : World)
    → Faithful w
    → (w' : World) × (watch_run os w ≡ some w') × Faithful w'
unfolding watch_run observed
watch_run-Faithful [] w f = (w, refl, f)
watch_run-Faithful (o ∷ os) w f =
    let (h, e, v) = step-Inv o w.hub f.safe in
    let (w', e', f') = watch_run-Faithful os (observe o w h) (observe-Faithful o w h e v f) in
    (w', rw (e, watch_run, observed) e', f')

-- After any interleaving of the broker's operations, the ring is the tail of the accepted stream
-- and `total_written` its length; and each subscriber that no full channel has cost a chunk has
-- received, or has queued, exactly the stream from the start of its replay on, in order.
pub streams_lem :
    (ring_bytes subscriber_depth : ℤ) (os : List Op)
    → (w : World) × (watch_run os (new_world ring_bytes subscriber_depth) ≡ some w) × Faithful w
streams_lem ring_bytes subscriber_depth os =
    watch_run-Faithful os _ (new_world-Faithful ring_bytes subscriber_depth)

-- A subscriber that names a position which the ring still covers gets the stream from there on.
pub subscribe_since-base :
    (w : World) (depth : ℤ) (n : ℕ)
    → Faithful w
    → n ≤ length w.sent
    → length w.sent ≤ w.hub.broker.ring_cap + n
    → length w.sent - length (subscribe_since depth (pos n) w.hub).1.replay ≡ n
subscribe_since-base w depth n f h k =
    let e = replays-tail depth (pos n) w f in
    omega (
      arith,
      ap length (e ∙ compute_replay-tail w.hub.broker.ring_cap n w.sent),
      length-drop (max n (length w.sent - w.hub.broker.ring_cap)) w.sent,
    )
