-- ===== src/Attach/Delivery.antt =====
-- What `Write` of agentsessions/attach.go does to each subscriber.
use go_agent_sessions.Prelude.{
  not, ◌&&◌, ℕ, ◌*◌, ◌||◌, fun_ext, ◌+◌, ◌≡◌, refl, ◌∙◌, inl, inr, Bool, true, false, some, [], ◌∷◌,
  ◌++◌, arith, Bool-cases, ltb, length, nat_eq, ◌==◌, if◌then◌else◌,
}
use go_agent_sessions.Prelude.Assoc.{Assoc}
use go_agent_sessions.Attach.{
  wrote, closed_pipe, Bytes, Chan, Store, update, Hub, Publish, publish_one, publish, write_open,
  write, close_all, Op, writes, step, append_ring,
}
use go_agent_sessions.Attach.Live.{NotRef, Live, Inv, SameShape, Live-SameShape, Live-update}

-- Does some entry hold the channel `r`?
abbrev pub holds : ℕ → Assoc ℕ ℕ → Bool
holds r [] = false
holds r ((i, q) ∷ m) = r == q || holds r m

-- What one subscriber's channel is afterwards, whatever the other subscribers do: the chunk is
-- queued if there is room and lost for this subscriber if there is none.
abbrev pub offered : Bytes → Chan → Chan
offered p c = if ltb (length c.buf) c.cap then record c { buf = c.buf ++ p ∷ [] } else c

-- How many of the registered channels are full.
abbrev pub full_count : Store → Assoc ℕ ℕ → ℕ
full_count s [] = 0
full_count s ((i, r) ∷ m) =
    (if ltb (length (s.chan r).buf) (s.chan r).cap then 0 else 1) + full_count s m

abbrev pub offer : Bytes → Assoc ℕ ℕ → Store → Store
offer p m s = record s { chan = λ q. if holds q m then offered p (s.chan q) else s.chan q }

publish_one_lem :
    (p : Bytes) (r : ℕ) (s : Publish)
    → (s.store.chan r).closed ≡ false
    → publish_one p r s
      ≡ some (record {
        store = update s.store r (offered p (s.store.chan r));
        drop_cnt = s.drop_cnt + length p * full_count s.store ((0, r) ∷ []);
      })
unfolding publish_one
publish_one_lem p r s o = ground arith

not-holds : (r : ℕ) (m : Assoc ℕ ℕ) → NotRef r m → holds r m ≡ false
not-holds r [] f = refl
not-holds r ((i, q) ∷ m) f = ground (arith, not-holds r m f.1)

full_count-update :
    (s : Store) (r : ℕ) (c : Chan) (m : Assoc ℕ ℕ)
    → NotRef r m
    → full_count (update s r c) m ≡ full_count s m
full_count-update s r c [] f = refl
full_count-update s r c ((i, q) ∷ m) f = ground (arith, full_count-update s r c m f.1)

-- The loop of `Write` ends without a panic. It offers the chunk to each registered channel once,
-- touches no other channel, and counts the bytes that full channels lose.
pub publish_lem :
    (p : Bytes) (n : ℕ) (m : Assoc ℕ ℕ) (s : Publish)
    → Live s.store n m
    → publish p m s
      ≡ some (record {
        store = offer p m s.store;
        drop_cnt = s.drop_cnt + length p * full_count s.store m;
      })
unfolding publish
publish_lem p n [] s v = ground arith
publish_lem p n ((i, r) ∷ m) s v =
    rw (publish_one_lem p r s v.2, publish)
      (publish_lem p n m _ (Live-update s.store r _ n m v.3 v.4) ∙ λ i. some (record {
        store = record { next = s.store.next; chan = fun_ext chans i };
        drop_cnt = count i;
      }))
  where
    c : Chan
    c = offered p (s.store.chan r)

    chans :
        (q : ℕ) → (offer p m (update s.store r c)).chan q ≡ (offer p ((i, r) ∷ m) s.store).chan q
    chans q = ground (arith, not-holds r m v.3)

    count :
        s.drop_cnt
          + length p * full_count s.store ((0, r) ∷ [])
          + length p * full_count (update s.store r c) m
        ≡ s.drop_cnt + length p * full_count s.store ((i, r) ∷ m)
    count = rw (full_count-update s.store r c m v.3) (grind arith)

SameShape-offer : (p : Bytes) (m : Assoc ℕ ℕ) (s : Store) → SameShape s (offer p m s)
SameShape-offer p m s = record { next = refl; closed = λ q. ground arith }

-- `close` closes every registered channel once.
pub close_all-total :
    (n : ℕ) (m : Assoc ℕ ℕ) (s : Store)
    → Live s n m
    → (t : Store) × (close_all m s ≡ some t) × (t.next ≡ s.next)
unfolding close_all
close_all-total n [] s v = (s, refl, refl)
close_all-total n ((i, r) ∷ m) s v =
    let c : Chan = record (s.chan r) { closed = true } in
    let (t, rest, e) = close_all-total n m (update s r c) (Live-update s r c n m v.3 v.4) in
    (t, rw (v.2, close_all) rest, e)

abbrev pub Steps : Op → Hub → Type 0
Steps o h = (h' : Hub) × (step o h ≡ some h') × Inv h'

-- The hub after the locked part of `Write` on an open broker.
abbrev pub after_write : Bytes → Hub → Hub
after_write p h = record h {
  broker = record h.broker {
    ring = append_ring h.broker.ring_cap h.broker.ring p;
    total_written = h.broker.total_written + length p;
    drop_cnt = h.broker.drop_cnt + length p * full_count h.store h.broker.subs;
  };
  store = offer p h.broker.subs h.store;
}

-- `Write` returns on every branch: an empty chunk changes nothing, a closed broker refuses, and an
-- open one takes the chunk and reports its length, however slow the subscribers are.
pub write_lem :
    (p : Bytes) (h : Hub)
    → Inv h
    → write p h
      ≡ some (
          if length p == 0
          then (h, wrote 0)
          else (if h.broker.closed then (h, closed_pipe) else (after_write p h, wrote (length p))))
unfolding write write_open
write_lem p h v = ground (
  arith,
  publish_lem p h.broker.sub_next h.broker.subs
      (record { store = h.store; drop_cnt = h.broker.drop_cnt }) v.live,
)

-- Is the chunk taken?
abbrev pub accepts : Bytes → Hub → Bool
accepts p h = not (length p == 0) && not h.broker.closed

pub step-writes :
    (p : Bytes) (h : Hub)
    → Inv h
    → step (writes p) h ≡ some (if accepts p h then after_write p h else h)
unfolding step
step-writes p h v = ground (arith, write_lem p h v)

pub after_write-Inv : (p : Bytes) (h : Hub) → Inv h → Inv (after_write p h)
after_write-Inv p h v = record {
  live =
      Live-SameShape h.broker.sub_next h.broker.subs (SameShape-offer p h.broker.subs h.store)
        v.live;
  shut = v.shut;
}

pub write-Inv : (p : Bytes) (h : Hub) → Inv h → Steps (writes p) h
write-Inv p h v = elim (Bool-cases (accepts p h)) [
  | inl taken ↦ (after_write p h, ground (arith, step-writes p h v), after_write-Inv p h v)
  | inr refused ↦ (h, ground (arith, step-writes p h v), v)
]
