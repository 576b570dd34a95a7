-- ===== src/Manager/Attaching.antt =====
-- AttachWith of agentsessions/manager.go keeps the invariant.
use go_agent_sessions.Prelude.{
  ℕ, ◌≡◌, refl, ap, subst, ◌∙◌, Option, none, some, String, arith, nat_eq, string_eq,
}
use go_agent_sessions.Attach.{Hub, Op, writes, subscribes, cancels, closes, fresh_hub}
use go_agent_sessions.Attach as Attach
use go_agent_sessions.Attach.Safety as Safety
use go_agent_sessions.Manager.State.{
  detach_client, Attachment, Manager, Phase, over, starting, watching, delivering, attached, put,
  become,
}
use go_agent_sessions.Manager.Clients.{
  uncount_client, record_attachment, subscribe_hub, count_client, attach_entry, cancel_hub,
  detached, AttachOptions, attach_found, detach_phase,
}
use go_agent_sessions.Manager.Counting.{counts}
use go_agent_sessions.Manager.Invariant.{IsWatching, Inv, spawn-Inv, become_over-Inv, put_hub-Inv}
use go_agent_sessions.Manager.Announce.{if-Inv}

record_attachment-Inv : (a : Attachment) (m : Manager) → Inv m → Inv (record_attachment a m)
unfolding record_attachment
record_attachment-Inv a m v =
    if-Inv m.has_attach_sink _ m
      (record {
        watches = v.watches;
        registered = v.registered;
        unborn = v.unborn;
        brokers = v.brokers;
        counted = v.counted;
      })
      v

record_attachment-phase : (a : Attachment) (m : Manager) → (record_attachment a m).phase ≡ m.phase
unfolding record_attachment
record_attachment-phase a m = ground arith

subscribe_hub-Inv :
    (e b : ℕ) (attach_id : String) (opts : AttachOptions) (m : Manager)
    → Inv m
    → Inv (subscribe_hub e b attach_id opts (count_client e m))
unfolding subscribe_hub count_client
subscribe_hub-Inv e b attach_id opts m v = spawn-Inv _ _ tt refl (
    put_hub-Inv b _ (count_client e m)
      (Safety.subscribe_since-Inv opts.depth opts.since_seq (m.hub b) (v.brokers b))
      (record {
        watches = v.watches;
        registered = v.registered;
        unborn = v.unborn;
        brokers = v.brokers;
        counted = v.counted;
      }))

attach_entry-Inv :
    (id : String) (opts : AttachOptions) (attach_id : String) (now : ℕ) (m : Manager) (e : ℕ)
    (o : Option ℕ)
    → Inv m
    → Inv (attach_entry id opts attach_id now m e o).0
unfolding attach_entry
attach_entry-Inv id opts attach_id now m e none v = v
attach_entry-Inv id opts attach_id now m e (some b) v =
    subscribe_hub-Inv e b attach_id opts _ (record_attachment-Inv _ m v)

cancel_hub-Inv :
    (b : ℕ) (o : Option ℕ) (m : Manager)
    → Inv m
    → (h : ℕ → Hub) × (cancel_hub b o m ≡ some (record m { hub = h })) × Inv (record m { hub = h })
unfolding cancel_hub Attach.step
cancel_hub-Inv b none m v = (m.hub, refl, v)
cancel_hub-Inv b (some i) m v =
    let (h, e, w) = Safety.step-Inv (cancels i) (m.hub b) (v.brokers b) in
    (put m.hub b h, rw (e, cancel_hub), put_hub-Inv b h m w v)

pub attach_found-Inv :
    (id : String) (opts : AttachOptions) (attach_id : String) (now : ℕ) (m : Manager) (o : Option ℕ)
    → Inv m
    → Inv (attach_found id opts attach_id now m o).0
unfolding attach_found
attach_found-Inv id opts attach_id now m none v = v
attach_found-Inv id opts attach_id now m (some e) v =
    attach_entry-Inv id opts attach_id now m e (m.entry e).broker v

pub detach_phase-Inv :
    (t now : ℕ) (m : Manager) (p : Phase)
    → m.phase t ≡ p
    → Inv m
    → (m' : Manager) × (detach_phase t now m p ≡ some m') × Inv m'
unfolding detach_phase uncount_client
detach_phase-Inv t now m (attached e b i a) h v =
    let (f, cancelled, w) = cancel_hub-Inv b i m v in
    let left : Manager =
      record_attachment (detach_client a now) (uncount_client e (record m { hub = f })) in
    (
      become t over left,
      rw (cancelled, detached),
      become_over-Inv t left
          (λ id x.
            subst (IsWatching id)
              (ap (λ p. p t)
                  (record_attachment-phase (detach_client a now)
                    (uncount_client e (record m { hub = f })))
                ∙ h)
              x)
          (ap counts (
            ap (λ p. p t)
              (record_attachment-phase (detach_client a now)
                (uncount_client e (record m { hub = f })))
            ∙ h))
          (record_attachment-Inv (detach_client a now) (uncount_client e (record m { hub = f }))
            (record {
              watches = w.watches;
              registered = w.registered;
              unborn = w.unborn;
              brokers = w.brokers;
              counted = w.counted;
            })),
    )
detach_phase-Inv t now m over e v = (m, refl, v)
detach_phase-Inv t now m (watching id s b) e v = (m, refl, v)
detach_phase-Inv t now m (starting req rt) e v = (m, refl, v)
detach_phase-Inv t now m (delivering id s b k x y r) e v = (m, refl, v)
