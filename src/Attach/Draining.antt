-- ===== src/Attach/Draining.antt =====
-- Subscribers of agentsessions/attach.go that leave or take a chunk, and the end of the broker.
use go_agent_sessions.Prelude.{
  ℕ, ◌≡◌, refl, sym, ap, ◌∙◌, inl, inr, true, false, some, List, [], ◌∷◌, ◌++◌, arith, Bool-cases,
  nat_eq, ◌==◌, if◌then◌else◌, flatten, append_assoc, take_last,
}
use go_agent_sessions.Attach.{
  Bytes, Chan, Hub, cancels, closes, receives, cancel, close, receive, pop_chunk,
}
use go_agent_sessions.Attach.Live.{Inv}
use go_agent_sessions.Attach.World.{World, head_of, observe, Faithful}
use go_agent_sessions.Attach.Leaving.{Keeps, cancel-Keeps, close-Keeps}

pub cancels-Faithful :
    (i : ℕ) (w : World) (h : Hub)
    → cancel i w.hub ≡ some h
    → Inv h
    → Faithful w
    → Faithful (observe (cancels i) w h)
unfolding observe
cancels-Faithful i w h e v f = record {
  safe = v;
  window = k.ring ∙ f.window ∙ ap (λ n. take_last n w.sent) (sym k.ring_cap);
  counted = k.total ∙ f.counted;
  streams = λ r a.
      let t = f.streams r (ground arith) in
      record {
        within = t.within;
        known = λ c. ground arith;
        gapless = λ l. rw (k.bufs r) (t.gapless l);
      };
}
  where
    k : Keeps w.hub h
    k = (cancel-Keeps i w.hub h e).0

pub closes-Faithful :
    (w : World) (h : Hub)
    → close w.hub ≡ some h
    → Inv h
    → Faithful w
    → Faithful (observe closes w h)
unfolding observe
closes-Faithful w h e v f = record {
  safe = v;
  window = k.ring ∙ f.window ∙ ap (λ n. take_last n w.sent) (sym k.ring_cap);
  counted = k.total ∙ f.counted;
  streams = λ r a. record {
    within = (f.streams r a).within;
    known = λ c. cc (close-Keeps w.hub h e).1;
    gapless = λ l. rw (k.bufs r) ((f.streams r a).gapless l);
  };
}
  where
    k : Keeps w.hub h
    k = (close-Keeps w.hub h e).0

pop_chunk-broker : (r : ℕ) (h : Hub) (b : List Bytes) → (pop_chunk r h b).broker ≡ h.broker
unfolding pop_chunk
pop_chunk-broker r h [] = refl
pop_chunk-broker r h (p ∷ rest) = refl

-- What leaves the channel is what the subscriber gets.
pop_chunk-flatten :
    (r : ℕ) (h : Hub) (b : List Bytes)
    → (h.store.chan r).buf ≡ b
    → head_of b ++ flatten ((pop_chunk r h b).store.chan r).buf ≡ flatten b
unfolding pop_chunk head_of
pop_chunk-flatten r h [] e = rw e
pop_chunk-flatten r h (p ∷ rest) e =
    ap (λ (c : Chan). p ++ flatten c.buf)
      (let same : (if r == r then record (h.store.chan r) { buf = rest } else h.store.chan r)
            ≡ record (h.store.chan r) { buf = rest } =
          ground arith in
        same)

pop_chunk-other :
    (r q : ℕ) (h : Hub) (b : List Bytes)
    → q == r ≡ false
    → (pop_chunk r h b).store.chan q ≡ h.store.chan q
unfolding pop_chunk
pop_chunk-other r q h [] e = refl
pop_chunk-other r q h (p ∷ rest) e = rw e

pub receives-Faithful :
    (r : ℕ) (w : World)
    → Inv (receive r w.hub)
    → Faithful w
    → Faithful (observe (receives r) w (receive r w.hub))
unfolding observe receive
receives-Faithful r w v f = record {
  safe = v;
  window = rw broker f.window;
  counted = rw broker f.counted;
  streams = λ q a.
      let t = f.streams q a in
      record {
        within = t.within;
        known = λ c. rw broker (t.known (rw broker at c));
        gapless = λ l. elim (Bool-cases (q == r)) [
          | inl hit ↦ rw hit (
              append_assoc (w.got q) (head_of chunks) (flatten ((receive r w.hub).store.chan q).buf)
              ∙ ap (◌++◌ (w.got q)) (taken q hit)
              ∙ t.gapless l)
          | inr miss ↦ rw (miss, pop_chunk-other r q w.hub chunks miss) (t.gapless l)
        ];
      };
}
  where
    chunks : List Bytes
    chunks = (w.hub.store.chan r).buf

    broker : (receive r w.hub).broker ≡ w.hub.broker
    broker = pop_chunk-broker r w.hub chunks

    taken :
        (q : ℕ)
        → q == r ≡ true
        → head_of chunks ++ flatten ((receive r w.hub).store.chan q).buf
          ≡ flatten (w.hub.store.chan q).buf
    taken q hit = let e : q ≡ r = ground arith in rw e (pop_chunk-flatten r w.hub chunks refl)
