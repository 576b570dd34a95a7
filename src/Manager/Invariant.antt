-- ===== src/Manager/Invariant.antt =====
-- Who watches which session in agentsessions/manager.go, and which schedules are allowed.
use go_agent_sessions.Prelude.{
  ℕ, ltb, ◌<◌, ◌≤◌, ◌≡◌, ◌≢◌, inl, inr, refl, ap, subst, sym, ◌∙◌, false, Option, none, some, List,
  [], ◌∷◌, String, arith, Bool-cases, nat_eq, string_eq, ◌==◌,
}
use go_agent_sessions.Prelude.Assoc.{Assoc, lookup, delete, lookup-delete}
use text.Mathlib.TextEquality.{eq_iff}
use go_agent_sessions.Prelude.Int.{ℤ}
use go_agent_sessions.Attach.{Hub, Op, writes, subscribes, cancels, closes, fresh_hub}
use go_agent_sessions.Attach as Attach
use go_agent_sessions.Attach.Safety as Safety
use go_agent_sessions.Attach.Live as Live
use go_agent_sessions.Manager.State.{
  SessionResult, Manager, Phase, over, starting, watching, delivering, attached, Error, put, spawn,
  become,
}
use go_agent_sessions.Manager.Counting.{counts, busy, busy-put, busy-same, busy-spawn}
use go_agent_sessions.Manager.Launch.{close_hub}
use go_agent_sessions.Manager.Watch.{wait_phase, killing_of}
use go_agent_sessions.Manager.Moves.{Move, starts, launches, step}

-- Goroutine `t` watches a session that is registered under its id, and owns an open result.
abbrev pub Watches : Assoc String ℕ → Assoc String ℕ → (ℕ → SessionResult) → ℕ → Phase → Type 0
Watches registry results result t (watching id s b) =
    (lookup id registry ≡ some t) × (lookup id results ≡ some t) × ((result t).closed ≡ false)
Watches registry results result t (delivering id s b k c e r) =
    (r ≡ some t) × ((result t).closed ≡ false)
Watches registry results result t over = Unit {0}
Watches registry results result t (starting req rt) = Unit {0}
Watches registry results result t (attached e b i a) = Unit {0}

-- The goroutine watches a session with this id.
abbrev pub IsWatching : String → Phase → Type 0
IsWatching id (watching j s b) = j ≡ id
IsWatching id (delivering j s b k c e r) = ⊥
IsWatching id over = ⊥
IsWatching id (starting req rt) = ⊥
IsWatching id (attached e b i a) = ⊥

-- An entry of the registry is that of a goroutine that watches under the same id, and the WaitGroup
-- counts the goroutines that run `watch`.
pub record Inv (m : Manager) : Type 0 where
  pub watches : (t : ℕ) → Watches m.registry m.results m.result t (m.phase t)
  pub registered : (id : String) (e : ℕ) → lookup id m.registry ≡ some e → IsWatching id (m.phase e)
  pub unborn : (t : ℕ) → m.next ≤ t → m.phase t ≡ over
  pub brokers : (b : ℕ) → Live.Inv (m.hub b)
  pub counted : m.wg ≡ busy m.phase m.next

-- `Start` registers an id only while no session of that id is registered.
abbrev pub Unused : Manager → Phase → Type 0
Unused m (starting req rt) = lookup req.id m.registry ≡ none
Unused m over = Unit {0}
Unused m (watching id s b) = Unit {0}
Unused m (delivering id s b k c e r) = Unit {0}
Unused m (attached e b i a) = Unit {0}

abbrev pub Allowed : Move → Manager → Type 0
Allowed (launches t l) m = Unused m (m.phase t)
Allowed (starts req) m = Unit {0}
Allowed other m = Unit {0}

abbrev pub After : (Manager → Type 0) → Option Manager → Type 0
After P none = Unit {0}
After P (some m) = P m

-- Each move of the schedule is allowed where it is made.
abbrev pub AllowedRun : List Move → Manager → Type 0
AllowedRun [] m = Unit {0}
AllowedRun (o ∷ os) m = Allowed o m × After (AllowedRun os) (step o m)

pub put-elim {ℓ κ} :
    {A : Type ℓ} (Q : A → Type κ) (f : ℕ → A) (t : ℕ) (x : A) (u : ℕ)
    → (u ≡ t → Q x)
    → (u ≢ t → Q (f u))
    → Q (put f t x u)
put-elim Q f t x u hit miss = elim (Bool-cases (u == t)) [
  | inl e ↦ rw e (hit (ground arith))
  | inr n ↦ rw n (miss (λ e. ground arith))
]

pub Watches-keep :
    (g g' r r' : Assoc String ℕ) (c c' : ℕ → SessionResult) (u : ℕ) (p : Phase)
    → ((id : String) → lookup id g ≡ some u → lookup id g' ≡ some u)
    → ((id : String) → lookup id g ≡ some u → lookup id r ≡ some u → lookup id r' ≡ some u)
    → (c' u).closed ≡ (c u).closed
    → Watches g r c u p
    → Watches g' r' c' u p
Watches-keep g g' r r' c c' u (watching id s b) hg hr hc w = (hg id w.0, hr id w.0 w.1, hc ∙ w.2)
Watches-keep g g' r r' c c' u (delivering id s b k x e q) hg hr hc w = (w.0, hc ∙ w.1)
Watches-keep g g' r r' c c' u over hg hr hc w = tt
Watches-keep g g' r r' c c' u (starting req rt) hg hr hc w = tt
Watches-keep g g' r r' c c' u (attached e b i a) hg hr hc w = tt

-- A goroutine that is not over exists.
pub born : (t : ℕ) (m : Manager) → m.phase t ≢ over → Inv m → t < m.next
born t m live v = elim (Bool-cases (ltb t m.next)) [
  | inl e ↦ ground arith
  | inr e ↦ absurd (live (v.unborn t (ground arith)))
]

-- A goroutine that watches is counted.
pub watched-counted : (t : ℕ) (m : Manager) → counts (m.phase t) ≡ 1 → Inv m → (m.wg == 0) ≡ false
watched-counted t m e v =
    let there = born t m (λ q. cc (e, ap counts q)) v in
    let moved = busy-put m.phase t over m.next there in let old = v.counted in ground arith

pub spawn-Inv :
    (p : Phase) (m : Manager)
    → Watches m.registry m.results m.result m.next p
    → counts p ≡ 0
    → Inv m
    → Inv (spawn p m)
spawn-Inv p m w c v = record {
  watches = λ u.
      put-elim (Watches m.registry m.results m.result u) m.phase m.next p u (λ e. rw e w)
        (λ _. v.watches u);
  registered = λ id u f.
      put-elim (IsWatching id) m.phase m.next p u
        (λ e. absurd (
          subst (IsWatching id) (ap m.phase e ∙ v.unborn m.next (omega arith))
            (v.registered id u f)))
        (λ _. v.registered id u f);
  unborn = λ u h.
      put-elim (λ q. q ≡ over) m.phase m.next p u (λ e. absurd (omega arith))
        (λ _. v.unborn u (omega arith));
  brokers = v.brokers;
  counted = let e = busy-spawn m.phase p m.next in let old = v.counted in omega arith;
}

-- A goroutine that ends and watched nothing is missed nowhere.
pub over_lem :
    (t : ℕ) (m : Manager)
    → ((id : String) → ¬ IsWatching id (m.phase t))
    → Inv m
    → ((id : String) (e : ℕ) → lookup id m.registry ≡ some e → IsWatching id (put m.phase t over e))
      × ((u : ℕ) → m.next ≤ u → put m.phase t over u ≡ over)
over_lem t m idle v = (
  λ id u f.
      put-elim (IsWatching id) m.phase t over u
        (λ e. absurd (idle id (subst (λ x. IsWatching id (m.phase x)) e (v.registered id u f))))
        (λ _. v.registered id u f),
  λ u h. put-elim (λ q. q ≡ over) m.phase t over u (λ _. refl) (λ _. v.unborn u h),
)

pub become_over-Inv :
    (t : ℕ) (m : Manager)
    → ((id : String) → ¬ IsWatching id (m.phase t))
    → counts (m.phase t) ≡ 0
    → Inv m
    → Inv (become t over m)
become_over-Inv t m idle c v = record {
  watches = λ u.
      put-elim (Watches m.registry m.results m.result u) m.phase t over u (λ e. tt)
        (λ _. v.watches u);
  registered = (over_lem t m idle v).0;
  unborn = (over_lem t m idle v).1;
  brokers = v.brokers;
  counted = v.counted ∙ sym (busy-same m.phase t over m.next c);
}

pub put_hub-Inv :
    (b : ℕ) (h : Hub) (m : Manager) → Live.Inv h → Inv m → Inv (record m { hub = put m.hub b h })
put_hub-Inv b h m i v = record {
  watches = v.watches;
  registered = v.registered;
  unborn = v.unborn;
  brokers = λ c. put-elim Live.Inv m.hub b h c (λ _. i) (λ _. v.brokers c);
  counted = v.counted;
}

-- Closing a broker returns, and changes nothing else.
pub close_hub-Inv :
    (b : Option ℕ) (m : Manager)
    → Inv m
    → (h : ℕ → Hub) × (close_hub b m ≡ some (record m { hub = h })) × Inv (record m { hub = h })
unfolding close_hub Attach.step
close_hub-Inv none m v = (m.hub, refl, v)
close_hub-Inv (some b) m v =
    let (h, e, i) = Safety.step-Inv closes (m.hub b) (v.brokers b) in
    (put m.hub b h, rw (e, close_hub), put_hub-Inv b h m i v)

pub wait_phase-Inv :
    (t : ℕ) (code : ℤ) (err : Option Error) (m : Manager) (p : Phase)
    → m.phase t ≡ p
    → Inv m
    → Inv (wait_phase t code err m p)
unfolding wait_phase
wait_phase-Inv t code err m (watching id s b) e v = record {
  watches = λ u.
      put-elim (Watches (delete id m.registry) m.results m.result u) m.phase t d u
        (λ h. rw h (own.1, own.2))
        (λ n.
          Watches-keep m.registry (delete id m.registry) m.results m.results m.result m.result u
            (m.phase u) (kept u n) (λ j _ x. x) refl (v.watches u));
  registered = λ j u f.
      put-elim (IsWatching j) m.phase t d u
        (λ h.
          let same : id ≡ j =
            subst (IsWatching j) (ap m.phase h ∙ e)
              (v.registered j u (ground (arith, lookup-delete id j m.registry))) in
          ground (arith, lookup-delete id j m.registry, eq_iff id j))
        (λ n. v.registered j u (ground (arith, lookup-delete id j m.registry)));
  unborn = λ u h.
      put-elim (λ q. q ≡ over) m.phase t d u (λ x. cc (v.unborn u h, ap m.phase x))
        (λ _. v.unborn u h);
  brokers = v.brokers;
  counted = v.counted ∙ sym (busy-same m.phase t d m.next (ap counts e));
}
  where
    d : Phase
    d = delivering id s b (killing_of m (lookup id m.registry)) code err (lookup id m.results)

    own : Watches m.registry m.results m.result t (watching id s b)
    own = subst (Watches m.registry m.results m.result t) e (v.watches t)

    kept :
        (u : ℕ)
        → u ≢ t
        → (j : String) → lookup j m.registry ≡ some u
        → lookup j (delete id m.registry) ≡ some u
    kept u n j h = ground (arith, lookup-delete id j m.registry, eq_iff id j, own.0)
wait_phase-Inv t code err m over e v = v
wait_phase-Inv t code err m (starting req rt) e v = v
wait_phase-Inv t code err m (delivering id s b k x y r) e v = v
wait_phase-Inv t code err m (attached x b i a) e v = v
