-- ===== src/Attach/Leaving.antt =====
-- What `cancel` and `close` of agentsessions/attach.go leave as it was, and what `Write` adds.
use go_agent_sessions.Prelude.{
  ℕ, ◌≤◌, ◌≡◌, refl, sym, ap, ◌∙◌, inl, inr, true, false, ◌||◌, Option, none, some, List, [], ◌∷◌,
  ◌++◌, arith, Bool-cases, Option-cases, length, nat_eq, ◌==◌, if◌then◌else◌, flatten,
  flatten-append, append_assoc, drop, drop-append, length-append,
}
use go_agent_sessions.Prelude.Assoc.{Assoc, lookup, delete}
use go_agent_sessions.Attach.{
  Bytes, Chan, Store, update, Hub, writes, cancel, close, cancel_found, close_all,
}
use go_agent_sessions.Attach.Ring.{append_ring-tail}
use go_agent_sessions.Attach.Delivery.{holds, accepts, after_write, after_write-Inv}
use go_agent_sessions.Attach.World.{World, is_full, observe, Faithful}

holds-delete : (r i : ℕ) (m : Assoc ℕ ℕ) → holds r m ≡ false → holds r (delete i m) ≡ false
unfolding delete
holds-delete r i [] h = refl
holds-delete r i ((j, q) ∷ m) h = ground (arith, holds-delete r i m)

-- What `cancel` and `close` leave as it was.
pub record Keeps (h h' : Hub) : Type 0 where
  pub ring : h'.broker.ring ≡ h.broker.ring
  pub ring_cap : h'.broker.ring_cap ≡ h.broker.ring_cap
  pub total : h'.broker.total_written ≡ h.broker.total_written
  pub bufs : (q : ℕ) → (h'.store.chan q).buf ≡ (h.store.chan q).buf

cancel_found-Keeps :
    (i : ℕ) (h h' : Hub) (o : Option ℕ)
    → cancel_found i h o ≡ some h'
    → Keeps h h' × (h'.broker.closed ≡ h.broker.closed)
unfolding cancel_found
cancel_found-Keeps i h h' none e = (
  record {
    ring = ground arith;
    ring_cap = ground arith;
    total = ground arith;
    bufs = λ q. ground arith;
  },
  ground arith,
)
cancel_found-Keeps i h h' (some r) e = (
  record {
    ring = ground arith;
    ring_cap = ground arith;
    total = ground arith;
    bufs = λ q. ground arith;
  },
  ground arith,
)

pub cancel-Keeps :
    (i : ℕ) (h h' : Hub) → cancel i h ≡ some h' → Keeps h h' × (h'.broker.closed ≡ h.broker.closed)
unfolding cancel
cancel-Keeps i h h' e = elim (Bool-cases (h.fired i)) [
  | inl done ↦ (
    record {
      ring = ground arith;
      ring_cap = ground arith;
      total = ground arith;
      bufs = λ q. ground arith;
    },
    ground arith,
  )
  | inr first ↦
      let (k, c) =
        cancel_found-Keeps i (record h { fired = λ j. if j == i then true else h.fired j }) h'
          (lookup i h.broker.subs) (ground arith) in
      (record { ring = k.ring; ring_cap = k.ring_cap; total = k.total; bufs = k.bufs }, c)
]

close_all-bufs :
    (m : Assoc ℕ ℕ) (s t : Store) (q : ℕ) → close_all m s ≡ some t → (t.chan q).buf ≡ (s.chan q).buf
unfolding close_all
close_all-bufs [] s t q e = ground arith
close_all-bufs ((i, r) ∷ m) s t q e =
    ground (arith, close_all-bufs m (update s r (record (s.chan r) { closed = true })) t q)

pub close-Keeps : (h h' : Hub) → close h ≡ some h' → Keeps h h' × (h'.broker.closed ≡ true)
unfolding close
close-Keeps h h' e = elim (Option-cases (close_all h.broker.subs h.store)) [
  | inl stuck ↦ (
    record {
      ring = ground arith;
      ring_cap = ground arith;
      total = ground arith;
      bufs = λ q. ground arith;
    },
    ground arith,
  )
  | inr (t, e') ↦ (
    record {
      ring = ground arith;
      ring_cap = ground arith;
      total = ground arith;
      bufs = λ q. ground (arith, close_all-bufs h.broker.subs h.store t q e');
    },
    ground arith,
  )
]

-- A chunk that the channel takes extends the stream at both ends alike.
queue_one :
    (got sent p : Bytes) (q : List Bytes) (base : ℕ)
    → base ≤ length sent
    → got ++ flatten q ≡ drop base sent
    → got ++ flatten (q ++ p ∷ []) ≡ drop base (sent ++ p)
queue_one got sent p q base h e =
    ap (◌++◌ got) (flatten-append q p)
    ∙ sym (append_assoc got (flatten q) p)
    ∙ ap (λ b. b ++ p) e
    ∙ sym (drop-append base sent p h)

pub writes-Faithful :
    (p : Bytes) (w : World)
    → Faithful w
    → Faithful (observe (writes p) w (if accepts p w.hub then after_write p w.hub else w.hub))
unfolding observe is_full
writes-Faithful p w f = elim (Bool-cases (accepts p w.hub)) [
  | inl taken ↦ rw taken (record {
    safe = after_write-Inv p w.hub f.safe;
    window = append_ring-tail w.hub.broker.ring_cap w.sent w.hub.broker.ring p f.window;
    counted = omega (arith, length-append w.sent p, f.counted);
    streams = λ r a. record {
      within = ground (arith, length-append w.sent p, (f.streams r a).within);
      known = (f.streams r a).known;
      gapless = λ l.
          ap (λ (c : Chan). w.got r ++ flatten c.buf) (queued r a (ground arith) l)
          ∙ queue_one (w.got r) w.sent p (w.hub.store.chan r).buf (w.base r) (f.streams r a).within
              ((f.streams r a).gapless (ground arith));
    };
  })
  | inr refused ↦ rw refused f
]
  where
    queued :
        (r : ℕ)
        → w.active r ≡ true
        → w.hub.broker.closed ≡ false
        → w.lost r || is_full (w.hub.store.chan r) ≡ false
        → (after_write p w.hub).store.chan r
          ≡ record (w.hub.store.chan r) { buf = (w.hub.store.chan r).buf ++ p ∷ [] }
    queued r a c l = ground (arith, (f.streams r a).known c)
