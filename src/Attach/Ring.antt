-- ===== src/Attach/Ring.antt =====
-- The replay ring and the resume arithmetic of agentsessions/attach.go, against the whole stream.
use go_agent_sessions.Prelude.{
  zero, nat_eq, ◌==◌, inl, inr, Bool-cases, leb, ltb, ℕ, suc, ◌+◌, ◌-◌, ◌≤◌, ◌≡◌, refl, sym, ap,
  ◌∙◌, ◌++◌, arith, length, take, drop, take_last, length-append, take_last-append,
  length-take_last, take-append-drop, drop-drop, drop-append, drop-all, max, min, drop-append_add,
}
use go_agent_sessions.Prelude.Int.{ℤ, pos, negsuc}
use go_agent_sessions.Attach.{Bytes, positive_or, append_ring, compute_replay}

-- Appending keeps exactly the trailing window, whichever of the three branches runs.
append_ring-take_last :
    (ring_cap : ℕ) (ring p : Bytes)
    → length ring ≤ ring_cap
    → append_ring ring_cap ring p ≡ take_last ring_cap (ring ++ p)
unfolding append_ring
append_ring-take_last ring_cap ring p h = elim (Bool-cases (leb ring_cap (length p))) [
  | inl big ↦ rw big (
      sym (drop-append_add ring p (length p - ring_cap))
      ∙ ap (λ k. drop k (ring ++ p)) (ground (arith, length-append ring p)))
  | inr small ↦ elim (Bool-cases (ltb (ring_cap - length ring) (length p))) [
    | inl over ↦
        rw (small, over)
          (sym (drop-append (length p - (ring_cap - length ring)) ring p (ground arith))
            ∙ ap (λ k. drop k (ring ++ p)) (ground (arith, length-append ring p)))
    | inr fits ↦
        rw (small, fits)
          (ap (λ k. drop k (ring ++ p)) {x = 0} (ground (arith, length-append ring p)))
  ]
]

-- The ring is the tail of the stream.
pub append_ring-tail :
    (ring_cap : ℕ) (sent ring p : Bytes)
    → ring ≡ take_last ring_cap sent
    → append_ring ring_cap ring p ≡ take_last ring_cap (sent ++ p)
append_ring-tail ring_cap sent ring p e =
    append_ring-take_last ring_cap ring p
      (omega (arith, ap length e, length-take_last ring_cap sent))
    ∙ ap (λ r. take_last ring_cap (r ++ p)) e
    ∙ take_last-append ring_cap sent p

-- The bytes of the stream that lie beyond `n` and are still in the ring.
pub compute_replay-tail :
    (ring_cap n : ℕ) (sent : Bytes)
    → compute_replay (take_last ring_cap sent) (length sent) (pos n)
      ≡ drop (max n (length sent - ring_cap)) sent
unfolding compute_replay
compute_replay-tail ring_cap n sent = elim (Bool-cases (n == 0)) [
  | inl start ↦ rw start (ap (λ k. drop k sent) {x = length sent - ring_cap} (ground arith))
  | inr later ↦ elim (Bool-cases (length ring == 0)) [
    | inl empty ↦
        rw (later, empty)
          (drop-all (length sent - ring_cap) sent (ground (arith, size))
            ∙ sym (drop-all _ sent (ground (arith, size))))
    | inr full ↦ elim (Bool-cases (leb (length sent) n)) [
      | inl head ↦ rw (later, full, head) (sym (drop-all _ sent (ground arith)))
      | inr behind ↦ elim (Bool-cases (ltb n (length sent - length ring))) [
        | inl gap ↦
            rw (later, full, behind, gap)
              (ap (λ k. drop k sent) {x = length sent - ring_cap} (ground (arith, size)))
        | inr inside ↦
            rw (later, full, behind, inside)
              (drop-drop (n - (length sent - length ring)) (length sent - ring_cap) sent
                ∙ ap (λ k. drop k sent) (ground (arith, size)))
      ]
    ]
  ]
]
  where
    ring : Bytes
    ring = take_last ring_cap sent

    size : length ring ≡ min ring_cap (length sent)
    size = length-take_last ring_cap sent

-- A full replay: position zero, or a negative one.
pub compute_replay-all :
    (ring_cap : ℕ) (sent : Bytes) (since_seq : ℤ)
    → positive_or 0 since_seq ≡ 0
    → compute_replay (take_last ring_cap sent) (length sent) since_seq ≡ take_last ring_cap sent
unfolding compute_replay
compute_replay-all ring_cap sent (pos zero) h = refl
compute_replay-all ring_cap sent (pos (suc n)) h = absurd (omega arith)
compute_replay-all ring_cap sent (negsuc n) h = refl

-- A client that has the first `n` bytes and reconnects with `since_seq = n`, while the ring still
-- reaches back to `n`, ends up with the whole stream: nothing is missing and nothing comes twice.
pub resume_round_trip :
    (ring_cap n : ℕ) (sent : Bytes)
    → length sent ≤ ring_cap + n
    → take n sent ++ compute_replay (take_last ring_cap sent) (length sent) (pos n) ≡ sent
resume_round_trip ring_cap n sent h =
    ap (◌++◌ (take n sent)) (compute_replay-tail ring_cap n sent)
    ∙ ap (λ k. take n sent ++ drop k sent) (omega arith)
    ∙ take-append-drop n sent
