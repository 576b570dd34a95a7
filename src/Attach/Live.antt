-- ===== src/Attach/Live.antt =====
-- The invariant of the broker of agentsessions/attach.go: every channel in `subs` is open, and no
-- two entries share one.
use go_agent_sessions.Prelude.{
  ℕ, ◌+◌, ◌<◌, ◌≡◌, ◌≢◌, sym, ◌∙◌, inl, inr, true, false, some, [], ◌∷◌, arith, Bool-cases, nat_eq,
  ◌==◌,
}
use go_agent_sessions.Prelude.Assoc.{Assoc, lookup, delete}
use go_agent_sessions.Attach.{Chan, Store, update, Hub, make_chan}

-- No entry holds the channel `r`.
abbrev pub NotRef : ℕ → Assoc ℕ ℕ → Type 0
NotRef r [] = Unit {0}
NotRef r ((i, q) ∷ m) = (r ≢ q) × NotRef r m

-- Ids are below `n`, channels exist, are open, and are held once.
abbrev pub Live : Store → ℕ → Assoc ℕ ℕ → Type 0
Live s n [] = Unit {0}
Live s n ((i, r) ∷ m) =
    (i < n) × (r < s.next) × ((s.chan r).closed ≡ false) × NotRef r m × Live s n m

pub record Inv (h : Hub) : Type 0 where
  pub live : Live h.store h.broker.sub_next h.broker.subs
  pub shut : h.broker.closed ≡ true → h.broker.subs ≡ []

-- The stores have the same channels, and the same of them are closed.
pub record SameShape (s t : Store) : Type 0 where
  pub next : t.next ≡ s.next
  pub closed : (q : ℕ) → (t.chan q).closed ≡ (s.chan q).closed

pub Live-SameShape : {s t : Store} (n : ℕ) (m : Assoc ℕ ℕ) → SameShape s t → Live s n m → Live t n m
Live-SameShape n [] e v = tt
Live-SameShape n ((i, r) ∷ m) e v =
    (v.0, rw e.next v.1, e.closed r ∙ v.2, v.3, Live-SameShape n m e v.4)

pub Live-update :
    (s : Store) (r : ℕ) (c : Chan) (n : ℕ) (m : Assoc ℕ ℕ)
    → NotRef r m
    → Live s n m
    → Live (update s r c) n m
Live-update s r c n [] f v = tt
Live-update s r c n ((i, q) ∷ m) f v =
    (v.0, v.1, ground (arith, f.0), v.3, Live-update s r c n m f.1 v.4)

pub Live-make_chan :
    (s : Store) (c : Chan) (n : ℕ) (m : Assoc ℕ ℕ) → Live s n m → Live (make_chan s c) n m
Live-make_chan s c n [] v = tt
Live-make_chan s c n ((i, r) ∷ m) v =
    (v.0, omega arith, ground arith, v.3, Live-make_chan s c n m v.4)

pub Live-suc : (s : Store) (n : ℕ) (m : Assoc ℕ ℕ) → Live s n m → Live s (n + 1) m
Live-suc s n [] v = tt
Live-suc s n ((i, r) ∷ m) v = (omega arith, v.1, v.2, v.3, Live-suc s n m v.4)

pub NotRef-fresh : (s : Store) (n : ℕ) (m : Assoc ℕ ℕ) → Live s n m → NotRef s.next m
NotRef-fresh s n [] v = tt
NotRef-fresh s n ((i, r) ∷ m) v = (omega arith, NotRef-fresh s n m v.4)

pub NotRef-delete : (r i : ℕ) (m : Assoc ℕ ℕ) → NotRef r m → NotRef r (delete i m)
unfolding delete
NotRef-delete r i [] f = tt
NotRef-delete r i ((j, q) ∷ m) f = ground (arith, NotRef-delete r i m f.1)

pub Live-delete : (s : Store) (n i : ℕ) (m : Assoc ℕ ℕ) → Live s n m → Live s n (delete i m)
unfolding delete
Live-delete s n i [] v = tt
Live-delete s n i ((j, r) ∷ m) v = ground (arith, Live-delete s n i m v.4, NotRef-delete r i m v.3)

NotRef-lookup : (r i q : ℕ) (m : Assoc ℕ ℕ) → NotRef r m → lookup i m ≡ some q → r ≢ q
unfolding lookup
NotRef-lookup r i q [] f e = cc
NotRef-lookup r i q ((j, x) ∷ m) f e = ground (arith, f.0, NotRef-lookup r i q m f.1)

-- A registered channel is open, and the other entries do not hold it.
pub Live-lookup :
    (s : Store) (n i r : ℕ) (m : Assoc ℕ ℕ)
    → Live s n m
    → lookup i m ≡ some r
    → ((s.chan r).closed ≡ false) × NotRef r (delete i m)
unfolding lookup delete
Live-lookup s n i r [] v e = absurd (cc)
Live-lookup s n i r ((j, x) ∷ m) v e = elim (Bool-cases (j == i)) [
  | inl hit ↦
      let x-eq-r : x ≡ r = ground arith in
      (rw (← x-eq-r) v.2, rw (hit, ← x-eq-r) (NotRef-delete x i m v.3))
  | inr miss ↦
      let rest : lookup i m ≡ some r = ground arith in
      let found = Live-lookup s n i r m v.4 rest in
      (found.0, rw miss (λ e'. NotRef-lookup x i r m v.3 rest (sym e'), found.1))
]
