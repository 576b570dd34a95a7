-- ===== src/Attach/Copy.antt =====
-- copyStream of agentsessions/attach.go: the pump from a subscription to a client's writer. The
-- writer is an argument, and so is the list of the outcomes of `select`.
use go_agent_sessions.Prelude.{
  ◌≡◌, Option, none, some, List, [], ◌∷◌, ◌++◌, map, length, nat_eq, ◌==◌, if◌then◌else◌,
  Bool-cases, Option-cases, refl, inl, inr,
}
use go_agent_sessions.Attach.{Bytes}

-- An outcome of the `select`: a chunk, the closed and drained channel, or the end of the context.
pub data Pick (E : Type 0) : Type 0 where
  chunk : Bytes → Pick E
  eof : Pick E
  ctx_done : E → Pick E

-- `blocked` is a pump that still waits when the list of outcomes ends.
pub data Copied (E : Type 0) : Type 0 where
  blocked : Copied E
  returned : Option E → Copied E

module _ {W E : Type 0} (write_to : W → Bytes → W × Option E) where
  -- if _, err := w.Write(b); err != nil { return err }
  write_then : (W → W × Copied E) → W × Option E → W × Copied E
  write_then next (w, none) = next w
  write_then next (w, some e) = (w, returned (some e))

  copy_loop : List (Pick E) → W → W × Copied E
  unfolding write_then
  copy_loop [] w = (w, blocked)
  copy_loop (chunk p ∷ ps) w = write_then (copy_loop ps) (write_to w p)
  copy_loop (eof ∷ ps) w = (w, returned none)
  copy_loop (ctx_done e ∷ ps) w = (w, returned (some e))

  unfoldable pub copy_stream : Bytes → List (Pick E) → W → W × Copied E
  unfolding copy_loop write_then
  copy_stream replay ps w =
      if length replay == 0 then copy_loop ps w else write_then (copy_loop ps) (write_to w replay)

-- A writer that keeps what it is given and fails when `refuses` says so.
module _ {E : Type 0} (refuses : List Bytes → Bytes → Option E) where
  abbrev pub recorder : List Bytes → Bytes → List Bytes × Option E
  recorder log p = elim (refuses log p) [ none ↦ (log ++ p ∷ [], none) | some e ↦ (log, some e) ]

  -- What the writer has been given of `ps` after `log`, up to the first one that it refuses, and
  -- its error.
  abbrev pub given : List Bytes → List Bytes → List Bytes × Option E
  given log [] = (log, none)
  given log (p ∷ ps) = elim (refuses log p) [
    | none ↦ given (log ++ p ∷ []) ps
    | some e ↦ (log, some e)
  ]

  -- How a pump ends that comes to `last` where the writer takes everything.
  abbrev pub ends_with : List Bytes × Option E → Copied E → List Bytes × Copied E
  ends_with (log, none) last = (log, last)
  ends_with (log, some e) last = (log, returned (some e))

  copy_loop-given :
      (log ps : List Bytes) (rest : List (Pick E)) (last : Copied E)
      → ((w : List Bytes) → copy_loop recorder rest w ≡ (w, last))
      → copy_loop recorder (map chunk ps ++ rest) log ≡ ends_with (given log ps) last
  unfolding copy_loop write_then
  copy_loop-given log [] rest last h = h log
  copy_loop-given log (p ∷ ps) rest last h = elim (Option-cases (refuses log p)) [
    | inl e ↦ rw (e, recorder, given) (copy_loop-given (log ++ p ∷ []) ps rest last h)
    | inr (x, e) ↦ rw (e, recorder, given) refl
  ]

  -- What the client's writer is to be given: the replay, unless it is empty, and then the chunks.
  abbrev pub feed : Bytes → List Bytes → List Bytes
  feed replay ps = if length replay == 0 then ps else replay ∷ ps

  copy_stream-given :
      (replay : Bytes) (ps : List Bytes) (rest : List (Pick E)) (last : Copied E)
      → ((w : List Bytes) → copy_loop recorder rest w ≡ (w, last))
      → copy_stream recorder replay (map chunk ps ++ rest) []
        ≡ ends_with (given [] (feed replay ps)) last
  unfolding copy_stream copy_loop write_then
  copy_stream-given replay ps rest last h = elim (Bool-cases (length replay == 0)) [
    | inl empty ↦ rw empty (copy_loop-given [] ps rest last h)
    | inr full ↦ rw full (copy_loop-given [] (replay ∷ ps) rest last h)
  ]

  -- The client's writer is given the replay (if it is not empty) and then every chunk, in order, up
  -- to the first that it refuses: then the pump returns the writer's error and writes nothing
  -- more. Where it refuses none, the pump returns no error when the broker closes, and the context's
  -- error when the context ends first.
  pub copy_stream_lem :
      (replay : Bytes) (ps : List Bytes) (rest : List (Pick E)) (e : E)
      → (copy_stream recorder replay (map chunk ps ++ eof ∷ rest) []
          ≡ ends_with (given [] (feed replay ps)) (returned none))
        × (copy_stream recorder replay (map chunk ps ++ ctx_done e ∷ rest) []
            ≡ ends_with (given [] (feed replay ps)) (returned (some e)))
  unfolding copy_loop
  copy_stream_lem replay ps rest e = (
    copy_stream-given replay ps (eof ∷ rest) (returned none) (λ w. refl),
    copy_stream-given replay ps (ctx_done e ∷ rest) (returned (some e)) (λ w. refl),
  )
