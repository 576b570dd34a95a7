-- ===== src/Attach.antt =====
-- agentsessions/attach.go: the attach broker. The broker's state is a record, a Go channel is a
-- bounded queue in a store that hands out references, and an operation that would panic in Go (a
-- send on a closed channel, a second close) returns `none`. Each operation runs under the broker's
-- mutex, so an interleaving of goroutines is a list of operations.
pub mod Ring
pub mod Live
pub mod Delivery
pub mod Safety
pub mod World
pub mod Leaving
pub mod Joining
pub mod Draining
pub mod Stream
pub mod Copy
pub mod Examples
pub use go_agent_sessions.Prelude.Texts.{Bytes}
use go_agent_sessions.Prelude.{
  ℕ, zero, suc, ◌+◌, ◌-◌, ◌*◌, ◌≡◌, Bool, true, false, Option, none, some, List, [], ◌∷◌, ◌++◌,
  if◌then◌else◌, ltb, leb, nat_eq, ◌==◌, length, drop, take_last,
}
use go_agent_sessions.Prelude.Assoc.{Assoc, lookup, delete, insert}
use go_agent_sessions.Prelude.Int.{ℤ, pos, negsuc}

abbrev pub default_ring_bytes : ℕ
default_ring_bytes = 64 * 1024

abbrev pub default_subscriber_depth : ℕ
default_subscriber_depth = 64

-- `if n <= 0 { n = d }` on a Go int.
abbrev pub positive_or : ℕ → ℤ → ℕ
positive_or d (pos zero) = d
positive_or d (pos (suc n)) = suc n
positive_or d (negsuc n) = d

-- A buffered Go channel of byte chunks.
pub record Chan : Type 0 where
  pub buf : List Bytes
  pub cap : ℕ
  pub closed : Bool

-- The channels that exist: references below `next` are in use.
pub record Store : Type 0 where
  pub next : ℕ
  pub chan : ℕ → Chan

abbrev pub update : Store → ℕ → Chan → Store
update s r c = record s { chan = λ q. if q == r then c else s.chan q }

pub record Broker : Type 0 where
  pub ring_cap : ℕ
  pub chan_cap : ℕ
  pub drop_cnt : ℕ
  pub total_written : ℕ
  pub ring : Bytes
  pub subs : Assoc ℕ ℕ
  pub sub_next : ℕ
  pub closed : Bool

-- The broker with the channels that it made, and which `cancel` closures have run (sync.Once).
pub record Hub : Type 0 where
  pub broker : Broker
  pub store : Store
  pub fired : ℕ → Bool

unfoldable pub new_attach_broker : ℤ → ℤ → Broker
new_attach_broker ring_bytes subscriber_depth = record {
  ring_cap = positive_or default_ring_bytes ring_bytes;
  chan_cap = positive_or default_subscriber_depth subscriber_depth;
  drop_cnt = 0;
  total_written = 0;
  ring = [];
  subs = [];
  sub_next = 0;
  closed = false;
}

-- A broker before anybody has subscribed.
unfoldable pub fresh_hub : ℤ → ℤ → Hub
unfolding new_attach_broker
fresh_hub ring_bytes subscriber_depth = record {
  broker = new_attach_broker ring_bytes subscriber_depth;
  store = record { next = 0; chan = λ r. record { buf = []; cap = 0; closed = false } };
  fired = λ i. false;
}

-- Trim the oldest bytes, keep at most `ring_cap`.
unfoldable pub append_ring : ℕ → Bytes → Bytes → Bytes
append_ring ring_cap ring p =
    if leb ring_cap (length p)
    then drop (length p - ring_cap) p
    else (let spare : ℕ = ring_cap - length ring in
        if ltb spare (length p) then drop (length p - spare) ring ++ p else ring ++ p)

-- `select { case ch <- p: default: }`: the new channel, and whether the chunk was dropped.
unfoldable pub try_send : Bytes → Chan → Option (Chan × Bool)
try_send p c =
    if c.closed
    then none
    else (if ltb (length c.buf) c.cap
        then some (record c { buf = c.buf ++ p ∷ [] }, false)
        else some (c, true))

unfoldable pub close_chan : Chan → Option Chan
close_chan c = if c.closed then none else some (record c { closed = true })

-- The store and the dropped-byte counter, which `Write`'s loop changes.
pub record Publish : Type 0 where
  pub store : Store
  pub drop_cnt : ℕ

publish_sent : Bytes → ℕ → Publish → Option (Chan × Bool) → Option Publish
publish_sent p r s none = none
publish_sent p r s (some (c, dropped)) = some (record {
  store = update s.store r c;
  drop_cnt = if dropped then s.drop_cnt + length p else s.drop_cnt;
})

pub publish_one : Bytes → ℕ → Publish → Option Publish
unfolding try_send publish_sent
publish_one p r s = publish_sent p r s (try_send p (s.store.chan r))

-- for _, ch := range b.subs { ... }
pub publish : Bytes → Assoc ℕ ℕ → Publish → Option Publish
unfolding publish_one
publish p [] s = some s
publish p ((i, r) ∷ m) s = elim (publish_one p r s) [ none ↦ none | some s' ↦ publish p m s' ]

pub data WriteResult : Type 0 where
  wrote : ℕ → WriteResult
  closed_pipe : WriteResult

-- Under the lock, on an open broker and a chunk that is not empty.
write_open : Bytes → Hub → Option (Hub × WriteResult)
unfolding append_ring publish
write_open p h =
    elim (publish p h.broker.subs (record { store = h.store; drop_cnt = h.broker.drop_cnt })) [
      | none ↦ none
      | some s ↦ some (
        record h {
          broker = record h.broker {
            ring = append_ring h.broker.ring_cap h.broker.ring p;
            total_written = h.broker.total_written + length p;
            drop_cnt = s.drop_cnt;
          };
          store = s.store;
        },
        wrote (length p),
      )
    ]

unfoldable pub write : Bytes → Hub → Option (Hub × WriteResult)
unfolding write_open
write p h =
    if length p == 0
    then some (h, wrote 0)
    else (if h.broker.closed then some (h, closed_pipe) else write_open p h)

-- computeReplay; `since_seq` is a signed 64-bit position.
unfoldable pub compute_replay : Bytes → ℕ → ℤ → Bytes
compute_replay ring total_written (negsuc n) = ring
compute_replay ring total_written (pos since_seq) =
    if since_seq == 0
    then ring
    else (if length ring == 0
        then ring
        else (if leb total_written since_seq
            then []
            else (if ltb since_seq (total_written - length ring)
                then ring
                else drop (since_seq - (total_written - length ring)) ring)))

-- What subscribeSince returns: the replay, the channel, and the id that `cancel` closes over; on a
-- closed broker `cancel` does nothing.
pub record Subscription : Type 0 where
  pub replay : Bytes
  pub live : ℕ
  pub id : Option ℕ

-- make(chan []byte, depth)
abbrev make_chan : Store → Chan → Store
make_chan s c = record (update s s.next c) { next = s.next + 1 }

unfoldable pub subscribe_since : ℤ → ℤ → Hub → Hub × Subscription
unfolding compute_replay insert
subscribe_since depth since_seq h =
    let replay = compute_replay h.broker.ring h.broker.total_written since_seq in
    let room = positive_or h.broker.chan_cap depth in
    if h.broker.closed
    then (
      record h { store = make_chan h.store (record { buf = []; cap = room; closed = true }) },
      record { replay = replay; live = h.store.next; id = none },
    )
    else (
      record h {
        broker = record h.broker {
          sub_next = h.broker.sub_next + 1;
          subs = insert h.broker.sub_next h.store.next h.broker.subs;
        };
        store = make_chan h.store (record { buf = []; cap = room; closed = false });
      },
      record { replay = replay; live = h.store.next; id = some h.broker.sub_next },
    )

cancel_found : ℕ → Hub → Option ℕ → Option Hub
unfolding close_chan delete
cancel_found i h none = some h
cancel_found i h (some r) = elim (close_chan (h.store.chan r)) [
  | none ↦ none
  | some c ↦ some (record h {
    broker = record h.broker { subs = delete i h.broker.subs };
    store = update h.store r c;
  })
]

unfoldable pub cancel : ℕ → Hub → Option Hub
unfolding cancel_found lookup
cancel i h =
    if h.fired i
    then some h
    else (let h' : Hub = record h { fired = λ j. if j == i then true else h.fired j } in
        cancel_found i h' (lookup i h.broker.subs))

-- for id, ch := range b.subs { close(ch); delete(b.subs, id) }: the map is empty afterwards.
pub close_all : Assoc ℕ ℕ → Store → Option Store
unfolding close_chan
close_all [] s = some s
close_all ((i, r) ∷ m) s = elim (close_chan (s.chan r)) [
  | none ↦ none
  | some c ↦ close_all m (update s r c)
]

unfoldable pub close : Hub → Option Hub
unfolding close_all
close h = if h.broker.closed then some h else elim (close_all h.broker.subs h.store) [
  | none ↦ none
  | some s ↦ some (record h { broker = record h.broker { closed = true; subs = [] }; store = s })
]

pop_chunk : ℕ → Hub → List Bytes → Hub
pop_chunk r h [] = h
pop_chunk r h (p ∷ rest) = record h {
  store = update h.store r (record (h.store.chan r) { buf = rest });
}

-- A subscriber takes the oldest chunk of its channel, if there is one.
unfoldable pub receive : ℕ → Hub → Hub
unfolding pop_chunk
receive r h = pop_chunk r h (h.store.chan r).buf

-- One step of some goroutine: the producer, a subscriber, or the Manager.
pub data Op : Type 0 where
  writes : Bytes → Op
  subscribes : ℤ → ℤ → Op
  cancels : ℕ → Op
  closes : Op
  receives : ℕ → Op

written : Option (Hub × WriteResult) → Option Hub
written none = none
written (some (h, r)) = some h

unfoldable pub step : Op → Hub → Option Hub
unfolding written write subscribe_since cancel close receive
step (writes p) h = written (write p h)
step (subscribes depth since_seq) h = some (subscribe_since depth since_seq h).0
step (cancels i) h = cancel i h
step closes h = close h
step (receives r) h = some (receive r h)

unfoldable pub run : List Op → Hub → Option Hub
unfolding step
run [] h = some h
run (o ∷ os) h = elim (step o h) [ none ↦ none | some h' ↦ run os h' ]
