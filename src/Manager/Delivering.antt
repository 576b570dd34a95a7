-- ===== src/Manager/Delivering.antt =====
-- watch, Stop and Shutdown of agentsessions/manager.go keep the invariant.
use go_agent_sessions.Prelude.{
  ℕ, ◌==◌, ◌-◌, ◌≡◌, refl, ap, subst, ◌∙◌, true, false, Option, none, some, String, arith, nat_eq,
  string_eq,
}
use go_agent_sessions.Prelude.Int.{ℤ}
use go_agent_sessions.Attach.{Hub}
use go_agent_sessions.Manager.State.{
  running, record_state, emit, SessionResult, Manager, Phase, over, starting, watching, delivering,
  attached, Error, put, become,
}
use go_agent_sessions.Manager.Launch.{close_hub}
use go_agent_sessions.Manager.Watch.{
  wg_done, terminal, delivered, stop_found, shutdown, deliver_phase,
}
use go_agent_sessions.Manager.Counting.{counts, busy-put}
use go_agent_sessions.Manager.Invariant.{
  Watches, IsWatching, Inv, put-elim, Watches-keep, over_lem, born, watched-counted, close_hub-Inv,
}
use go_agent_sessions.Manager.Announce.{announce-Inv, if-fst}

-- The result is closed and the watcher counted down.
deliver_result-Inv :
    (t : ℕ) (x : SessionResult) (m : Manager)
    → ((id : String) → ¬ IsWatching id (m.phase t))
    → counts (m.phase t) ≡ 1
    → Inv m
    → Inv (become t over (record m { result = put m.result t x; wg = m.wg - 1 }))
deliver_result-Inv t x m idle c v = record {
  watches = λ u.
      put-elim (Watches m.registry m.results (put m.result t x) u) m.phase t over u (λ _. tt)
        (λ h.
          Watches-keep m.registry m.registry m.results m.results m.result (put m.result t x) u
            (m.phase u) (λ _ f. f) (λ _ _ f. f) (ground arith) (v.watches u));
  registered = (over_lem t m idle v).0;
  unborn = (over_lem t m idle v).1;
  brokers = v.brokers;
  counted =
      let there = born t m (λ q. cc (c, ap counts q)) v in
      let moved = busy-put m.phase t over m.next there in let old = v.counted in omega arith;
}

pub delivered_lem :
    (t r : ℕ) (b : Option ℕ) (code : ℤ) (err : Option Error) (m : Manager) (h : ℕ → Hub)
    → close_hub b m ≡ some (record m { hub = h })
    → (m.result r).closed ≡ false
    → (m.wg == 0) ≡ false
    → wg_done t (delivered b code err (some r) m)
      ≡ some (
          become t over (record m {
            hub = h;
            result = put m.result r (record { closed = true; exit_code = code; exit_err = err });
            wg = m.wg - 1;
          }))
unfolding wg_done delivered
delivered_lem t r b code err m h c o w = ground arith

-- The goroutine's result is open, and after the delivery it is over.
pub deliver_phase-Inv :
    (t pid : ℕ) (m : Manager) (p : Phase)
    → m.phase t ≡ p
    → Inv m
    → (m' : Manager) × (deliver_phase t pid m p ≡ some m') × Inv m'
unfolding deliver_phase
deliver_phase-Inv t pid m (delivering id s b k code err r) e v =
    let told : Manager =
      emit id running (terminal k code) (some code) ""
        (record_state id (terminal k code) pid (some code) m) in
    let (v₂, a) =
      announce-Inv id (terminal k code) running (terminal k code) pid (some code) "" m v in
    let own = subst (Watches m.registry m.results m.result t) e (v.watches t) in
    let (h, closed, i) = close_hub-Inv b told v₂ in
    let open_ : (told.result t).closed ≡ false = ap (λ c. (c t).closed) a.result ∙ own.1 in
    let counted : counts (told.phase t) ≡ 1 = ap counts (ap (λ f. f t) a.phase ∙ e) in
    (
      become t over (record told {
        hub = h;
        result = put told.result t (record { closed = true; exit_code = code; exit_err = err });
        wg = told.wg - 1;
      }),
      ap (λ q. wg_done t (delivered b code err q told)) own.0
          ∙ delivered_lem t t b code err told h closed open_ (watched-counted t told counted v₂),
      deliver_result-Inv t _ (record told { hub = h })
          (λ j w. subst (IsWatching j) (ap (λ f. f t) a.phase ∙ e) w) counted i,
    )
deliver_phase-Inv t pid m over e v = (m, refl, v)
deliver_phase-Inv t pid m (watching id s b) e v = (m, refl, v)
deliver_phase-Inv t pid m (starting req rt) e v = (m, refl, v)
deliver_phase-Inv t pid m (attached x b i a) e v = (m, refl, v)

pub stop_found-Inv : (m : Manager) (o : Option ℕ) → Inv m → Inv (stop_found m o).0
unfolding stop_found
stop_found-Inv m none v = v
stop_found-Inv m (some e) v = record {
  watches = v.watches;
  registered = v.registered;
  unborn = v.unborn;
  brokers = v.brokers;
  counted = v.counted;
}

pub shutdown-Inv : (m : Manager) → Inv m → Inv (shutdown m).0
unfolding shutdown
shutdown-Inv m v =
    if-fst m.stopped (m, false) _ v
      (record {
        watches = v.watches;
        registered = v.registered;
        unborn = v.unborn;
        brokers = v.brokers;
        counted = v.counted;
      })
