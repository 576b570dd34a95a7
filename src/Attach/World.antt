-- ===== src/Attach/World.antt =====
-- What subscribers of agentsessions/attach.go receive, against the whole stream that was written.
-- `World` adds to the broker what an observer writes down; no operation of the program reads it.
use go_agent_sessions.Prelude.{
  ℕ, ◌-◌, ◌≤◌, ◌≡◌, Bool, true, false, ◌&&◌, ◌||◌, not, Option, none, some, List, [], ◌∷◌, ◌++◌,
  ltb, length, nat_eq, ◌==◌, if◌then◌else◌, flatten, drop, take_last,
}
use go_agent_sessions.Prelude.Int.{ℤ}
use go_agent_sessions.Attach.{
  Bytes, Chan, Hub, Op, writes, subscribes, cancels, closes, receives, step, fresh_hub,
  subscribe_since,
}
use go_agent_sessions.Attach.Live.{Inv}
use go_agent_sessions.Attach.Delivery.{holds, accepts}

pub record World : Type 0 where
  pub hub : Hub
  -- every byte that `Write` has accepted
  pub sent : Bytes
  -- by channel: the replay and the chunks that its subscriber has received
  pub got : ℕ → Bytes
  -- by channel: the position in the stream at which the replay begins
  pub base : ℕ → ℕ
  -- by channel: has a chunk found it full?
  pub lost : ℕ → Bool
  -- by channel: subscribed, and not cancelled before the broker was closed
  pub active : ℕ → Bool

unfoldable pub is_full : Chan → Bool
is_full c = not (ltb (length c.buf) c.cap)

unfoldable pub head_of : List Bytes → Bytes
head_of [] = []
head_of (p ∷ rest) = p

-- The observer's notes on one operation; `h` is the hub after it.
unfoldable pub observe : Op → World → Hub → World
unfolding is_full head_of
observe (writes p) w h =
    if accepts p w.hub
    then (record w {
      hub = h;
      sent = w.sent ++ p;
      lost = λ q. w.lost q || is_full (w.hub.store.chan q);
    })
    else (record w { hub = h })
observe (subscribes depth since_seq) w h =
    let s = (subscribe_since depth since_seq w.hub).1 in
    record w {
      hub = h;
      got = λ q. if q == s.live then s.replay else w.got q;
      base = λ q. if q == s.live then length w.sent - length s.replay else w.base q;
      lost = λ q. if q == s.live then false else w.lost q;
      active = λ q. if q == s.live then true else w.active q;
    }
observe (cancels i) w h = record w {
  hub = h;
  active = λ q. w.active q && (h.broker.closed || holds q h.broker.subs);
}
observe closes w h = record w { hub = h }
observe (receives r) w h = record w {
  hub = h;
  got = λ q. if q == r then w.got q ++ head_of (w.hub.store.chan r).buf else w.got q;
}

unfoldable pub observed : Op → World → Option Hub → Option World
unfolding observe
observed o w none = none
observed o w (some h) = some (observe o w h)

unfoldable pub watch_run : List Op → World → Option World
unfolding observed step
watch_run [] w = some w
watch_run (o ∷ os) w = elim (observed o w (step o w.hub)) [
  | none ↦ none
  | some w' ↦ watch_run os w'
]

unfoldable pub new_world : ℤ → ℤ → World
unfolding fresh_hub
new_world ring_bytes subscriber_depth = record {
  hub = fresh_hub ring_bytes subscriber_depth;
  sent = [];
  got = λ q. [];
  base = λ q. 0;
  lost = λ q. false;
  active = λ q. false;
}

-- The subscriber of `r` has, or will find in its channel, the stream from `base` on, unless a chunk
-- was dropped; while the broker is open the channel is registered.
pub record Tracked (w : World) (r : ℕ) : Type 0 where
  pub within : w.base r ≤ length w.sent
  pub known : w.hub.broker.closed ≡ false → holds r w.hub.broker.subs ≡ true
  pub gapless :
      w.lost r ≡ false → w.got r ++ flatten (w.hub.store.chan r).buf ≡ drop (w.base r) w.sent

pub record Faithful (w : World) : Type 0 where
  pub safe : Inv w.hub
  pub window : w.hub.broker.ring ≡ take_last w.hub.broker.ring_cap w.sent
  pub counted : w.hub.broker.total_written ≡ length w.sent
  pub streams : (r : ℕ) → w.active r ≡ true → Tracked w r
