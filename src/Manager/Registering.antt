-- ===== src/Manager/Registering.antt =====
-- Start of agentsessions/manager.go keeps the invariant.
use go_agent_sessions.Prelude.{
  ℕ, ◌<◌, ◌≡◌, inl, inr, refl, ap, subst, ◌∙◌, true, false, Option, none, some, [], ◌∷◌, ◌++◌,
  String, arith, Bool-cases, nat_eq, string_eq, ◌==◌, if◌then◌else◌,
}
use go_agent_sessions.Prelude.Assoc.{Assoc, lookup, insert, lookup-insert}
use text.Mathlib.TextEquality.{eq_iff}
use go_agent_sessions.Prelude.Int.{pos}
use go_agent_sessions.Attach.{Hub, fresh_hub}
use go_agent_sessions.Attach.Safety as Safety
use go_agent_sessions.Attach.Live as Live
use go_agent_sessions.Manager.State.{
  reported, id_required, runtime_required, manager_stopped, created, launching, running, failed,
  record_state, emit, SessionResult, Manager, Phase, over, starting, watching, delivering, attached,
  StartRequest, Runtime, Error, put, become,
}
use go_agent_sessions.Manager.Launch.{
  launch_phase, registered_in, broker_of, Launch, refused, session, start, register, launched,
}
use go_agent_sessions.Manager.Counting.{counts, busy-put}
use go_agent_sessions.Manager.Invariant.{
  born, Watches, IsWatching, Inv, Unused, put-elim, Watches-keep, spawn-Inv, become_over-Inv,
  close_hub-Inv,
}
use go_agent_sessions.Manager.Announce.{announce-Inv, if-fst, elim-fst, if-brokers}

pub start-Inv : (req : StartRequest) (m : Manager) → Inv m → Inv (start req m).0
unfolding start
start-Inv req m v =
    if-fst (req.id == "") (m, some id_required) _ v
      (elim-fst req.runtime (m, some runtime_required) _ v
        (λ rt.
          if-fst m.stopped (m, some manager_stopped) _ v
            (spawn-Inv (starting req rt)
              (record m₂ {
                hub =
                    if req.attach_enabled
                    then put m₂.hub m.next (fresh_hub req.ring_bytes req.subscriber_depth)
                    else m₂.hub;
              })
              tt refl
              (record {
                watches = v₂.watches;
                registered = v₂.registered;
                unborn = v₂.unborn;
                brokers =
                    if-brokers req.attach_enabled _ m₂.hub
                      (λ b.
                        put-elim Live.Inv m₂.hub m.next
                          (fresh_hub req.ring_bytes req.subscriber_depth) b
                          (λ _. Safety.fresh_hub-Inv req.ring_bytes req.subscriber_depth)
                          (λ _. v₂.brokers b))
                      v₂.brokers;
                counted = v₂.counted;
              }))))
  where
    v₂ : Inv (emit req.id created launching none "" (record_state req.id launching 0 none m))
    v₂ = (announce-Inv req.id launching created launching 0 none "" m v).0

    m₂ : Manager
    m₂ = emit req.id created launching none "" (record_state req.id launching 0 none m)

register-late :
    (t : ℕ) (req : StartRequest) (rt : Runtime) (sess pid : ℕ) (m : Manager)
    → m.phase t ≡ starting req rt
    → m.stopped ≡ true
    → Inv m
    → (r : Manager × Option Error) × (register t req rt sess pid m ≡ some r) × Inv r.0
unfolding register
register-late t req rt sess pid m e late v =
    let (h, closed, i) = close_hub-Inv (broker_of req t) m v in
    (
      (become t over (record m { hub = h; stops = m.stops ++ sess ∷ [] }), some manager_stopped),
      ground arith,
      become_over-Inv t (record m { hub = h; stops = m.stops ++ sess ∷ [] })
          (λ id w. subst (IsWatching id) e w) (ap counts e)
          (record {
            watches = i.watches;
            registered = i.registered;
            unborn = i.unborn;
            brokers = i.brokers;
            counted = i.counted;
          }),
    )

register-early :
    (t : ℕ) (req : StartRequest) (rt : Runtime) (sess pid : ℕ) (m : Manager)
    → m.phase t ≡ starting req rt
    → lookup req.id m.registry ≡ none
    → Inv m
    → Inv (registered_in t req rt sess pid m)
register-early t req rt sess pid m e unused v = record {
  watches = λ u.
      put-elim (Watches g r c u) m.phase t p u
        (λ h. rw h (found m.registry, found m.results, ground arith))
        (λ n.
          Watches-keep m.registry g m.results r m.result c u (m.phase u) (kept u) (kept_result u)
            (ground arith) (v.watches u));
  registered = λ j u f.
      put-elim (IsWatching j) m.phase t p u
        (λ h. elim (Bool-cases (req.id == j)) [
          | inl same ↦ ground (arith, eq_iff req.id j)
          | inr other ↦ absurd (
              subst (IsWatching j) (ap m.phase h ∙ e)
                (v.registered j u (ground (arith, lookup-insert req.id j t m.registry))))
        ])
        (λ n. v.registered j u (ground (arith, lookup-insert req.id j t m.registry)));
  unborn = λ u h.
      put-elim (λ q. q ≡ over) m.phase t p u (λ x. cc (v.unborn u h, ap m.phase x))
        (λ _. v.unborn u h);
  brokers = v.brokers;
  counted =
      let there : t < m.next = born t m (λ q. cc (e, q)) v in
      let moved = busy-put m.phase t p m.next there in
      let idle : counts (m.phase t) ≡ 0 = ap counts e in let old = v.counted in omega arith;
}
  where
    p : Phase
    p = watching req.id sess (broker_of req t)

    g : Assoc String ℕ
    g = insert req.id t m.registry

    r : Assoc String ℕ
    r = insert req.id t m.results

    c : ℕ → SessionResult
    c = put m.result t (record { closed = false; exit_code = pos 0; exit_err = none })

    found : (a : Assoc String ℕ) → lookup req.id (insert req.id t a) ≡ some t
    found a = ground (arith, lookup-insert req.id req.id t a, eq_iff req.id req.id)

    kept : (u : ℕ) (j : String) → lookup j m.registry ≡ some u → lookup j g ≡ some u
    kept u j h = ground (arith, lookup-insert req.id j t m.registry, eq_iff req.id j)

    kept_result :
        (u : ℕ) (j : String)
        → lookup j m.registry ≡ some u
        → lookup j m.results ≡ some u
        → lookup j r ≡ some u
    kept_result u j h k = ground (arith, lookup-insert req.id j t m.results, eq_iff req.id j)

register-Inv :
    (t : ℕ) (req : StartRequest) (rt : Runtime) (sess pid : ℕ) (m : Manager)
    → m.phase t ≡ starting req rt
    → lookup req.id m.registry ≡ none
    → Inv m
    → (r : Manager × Option Error) × (register t req rt sess pid m ≡ some r) × Inv r.0
unfolding register
register-Inv t req rt sess pid m e unused v = elim (Bool-cases m.stopped) [
  | inl late ↦ register-late t req rt sess pid m e late v
  | inr early ↦ (
    (registered_in t req rt sess pid m, none),
    ground arith,
    register-early t req rt sess pid m e unused v,
  )
]

launched-Inv :
    (t : ℕ) (req : StartRequest) (rt : Runtime) (l : Launch) (m : Manager)
    → m.phase t ≡ starting req rt
    → lookup req.id m.registry ≡ none
    → Inv m
    → (r : Manager × Option Error) × (launched t req rt l m ≡ some r) × Inv r.0
unfolding launched
launched-Inv t req rt (refused text) m e unused v =
    let (h, closed, i) = close_hub-Inv (broker_of req t) m v in
    let (v', a) =
      announce-Inv req.id failed launching failed 0 (some (pos 1)) text (record m { hub = h }) i in
    (
      (become t over (told h), some (reported text)),
      rw (closed, launched),
      become_over-Inv t (told h) (λ id w. subst (IsWatching id) (ap (λ f. f t) a.phase ∙ e) w)
          (ap counts (ap (λ f. f t) a.phase ∙ e)) v',
    )
  where
    told : (ℕ → Hub) → Manager
    told h =
        emit req.id launching failed (some (pos 1)) text
          (record_state req.id failed 0 (some (pos 1)) (record m { hub = h }))
launched-Inv t req rt (session sess pid) m e unused v =
    let (v', a) = announce-Inv req.id running launching running pid none "" m v in
    register-Inv t req rt sess pid _ (ap (λ f. f t) a.phase ∙ e)
      (ap (lookup req.id) a.registry ∙ unused) v'

pub launch_phase-Inv :
    (t : ℕ) (l : Launch) (m : Manager) (p : Phase)
    → m.phase t ≡ p
    → Unused m p
    → Inv m
    → (r : Manager × Option Error) × (launch_phase t l m p ≡ some r) × Inv r.0
unfolding launch_phase
launch_phase-Inv t l m (starting req rt) e unused v = launched-Inv t req rt l m e unused v
launch_phase-Inv t l m over e unused v = ((m, none), refl, v)
launch_phase-Inv t l m (watching id s b) e unused v = ((m, none), refl, v)
launch_phase-Inv t l m (delivering id s b k x y r) e unused v = ((m, none), refl, v)
launch_phase-Inv t l m (attached x b i a) e unused v = ((m, none), refl, v)
