-- ===== src/Attach/Examples.antt =====
-- The theorems on agentsessions/attach.go at concrete inputs, and tests of its operations.
use go_agent_sessions.Prelude.{
  ℕ, ◌≡◌, ◌-◌, subst, refl, none, some, [], ◌∷◌, ◌++◌, arith, take, length, nat_eq, ◌==◌, Option,
  List, if◌then◌else◌,
}
use go_agent_sessions.Prelude.Int.{pos, negsuc}
use go_agent_sessions.Attach.{
  Bytes, Hub, Op, writes, subscribes, cancels, closes, receives, run, fresh_hub, compute_replay,
  subscribe_since, write, wrote, closed_pipe, append_ring,
}
use go_agent_sessions.Attach.Ring.{resume_round_trip}
use go_agent_sessions.Attach.Live.{Inv}
use go_agent_sessions.Attach.Safety.{run-total, fresh_hub-Inv}
use go_agent_sessions.Attach.Delivery.{write_lem, after_write}
use go_agent_sessions.Attach.World.{World, Faithful, watch_run, new_world}
use go_agent_sessions.Attach.Stream.{streams_lem, subscribe_since-base}
use go_agent_sessions.Attach.Copy.{
  chunk, eof, ctx_done, returned, recorder, copy_stream, copy_stream_lem,
}

-- A ring of four bytes, channels of one chunk; the second subscriber is too slow for the last
-- write.
abbrev busy : List Op
busy =
    writes (1 ∷ 2 ∷ 3 ∷ [])
    ∷ subscribes (pos 0) (pos 1)
    ∷ writes (4 ∷ 5 ∷ [])
    ∷ receives 0
    ∷ subscribes (pos 2) (negsuc 0)
    ∷ writes (6 ∷ [])
    ∷ cancels 0
    ∷ cancels 0
    ∷ closes
    ∷ writes (7 ∷ [])
    ∷ receives 1
    ∷ []

streams_example : (w : World) × (watch_run busy (new_world (pos 4) (pos 1)) ≡ some w) × Faithful w
streams_example = streams_lem (pos 4) (pos 1) busy

run-total_example : (h : Hub) × (run busy (fresh_hub (pos 4) (pos 1)) ≡ some h) × Inv h
run-total_example = run-total (pos 4) (pos 1) busy

-- Six bytes sent, a ring of four, a client that has three.
resume_example :
    take 3 (1 ∷ 2 ∷ 3 ∷ 4 ∷ 5 ∷ 6 ∷ []) ++ compute_replay (3 ∷ 4 ∷ 5 ∷ 6 ∷ []) 6 (pos 3)
    ≡ 1 ∷ 2 ∷ 3 ∷ 4 ∷ 5 ∷ 6 ∷ []
resume_example = resume_round_trip 4 3 (1 ∷ 2 ∷ 3 ∷ 4 ∷ 5 ∷ 6 ∷ []) (omega arith)

write_example :
    write (8 ∷ 9 ∷ []) (fresh_hub (pos 4) (pos 1))
    ≡ some (
        if (fresh_hub (pos 4) (pos 1)).broker.closed
        then (fresh_hub (pos 4) (pos 1), closed_pipe)
        else (after_write (8 ∷ 9 ∷ []) (fresh_hub (pos 4) (pos 1)), wrote 2))
write_example = write_lem (8 ∷ 9 ∷ []) (fresh_hub (pos 4) (pos 1)) (fresh_hub-Inv (pos 4) (pos 1))

-- A writer that takes two buffers and then fails with the error 13.
abbrev two_then_fail : List Bytes → Bytes → Option ℕ
two_then_fail log p = if length log == 2 then some 13 else none

copy_example :
    (copy_stream
        (recorder two_then_fail)
        (1 ∷ 2 ∷ [])
        (chunk (3 ∷ []) ∷ chunk (4 ∷ []) ∷ chunk (5 ∷ []) ∷ eof ∷ [])
        []
      ≡ ((1 ∷ 2 ∷ []) ∷ (3 ∷ []) ∷ [], returned (some 13)))
    × (copy_stream
          (recorder two_then_fail)
          (1 ∷ 2 ∷ [])
          (chunk (3 ∷ []) ∷ chunk (4 ∷ []) ∷ chunk (5 ∷ []) ∷ ctx_done 7 ∷ [])
          []
        ≡ ((1 ∷ 2 ∷ []) ∷ (3 ∷ []) ∷ [], returned (some 13)))
copy_example = copy_stream_lem two_then_fail (1 ∷ 2 ∷ []) ((3 ∷ []) ∷ (4 ∷ []) ∷ (5 ∷ []) ∷ []) [] 7

-- Six bytes have been written to a ring of four.
abbrev six : List Op
six = writes (1 ∷ 2 ∷ 3 ∷ []) ∷ writes (4 ∷ 5 ∷ 6 ∷ []) ∷ []

abbrev six_sent : World
six_sent = elim (watch_run six (new_world (pos 4) (pos 1))) [
  | none ↦ new_world (pos 4) (pos 1)
  | some w ↦ w
]

six_sent-Faithful : Faithful six_sent
unfolding watch_run new_world
six_sent-Faithful = let (w, e, f) = streams_lem (pos 4) (pos 1) six in subst Faithful (cc e) f

subscribe_since_example : 6 - length (subscribe_since (pos 0) (pos 3) six_sent.hub).1.replay ≡ 3
unfolding watch_run new_world
subscribe_since_example =
    subscribe_since-base six_sent (pos 0) 3 six_sent-Faithful (omega arith) (omega arith)

-- The ring after `Write` of more than fits.
append_ring_overflow : append_ring 4 (1 ∷ 2 ∷ 3 ∷ []) (4 ∷ 5 ∷ []) ≡ 2 ∷ 3 ∷ 4 ∷ 5 ∷ []
unfolding append_ring
append_ring_overflow = refl
