-- ===== src/JsonRpc/Pending.antt =====
-- The pending map of agentsessions/jsonrpc_stdio_session.go: each entry is the open and empty
-- channel of the Call with that id.
use go_agent_sessions.Prelude.{
  ℕ, ◌≤◌, ◌<◌, ◌≡◌, refl, ◌∙◌, ap, sym, subst, inl, inr, Bool-cases, true, none, some, [], ◌∷◌,
  arith, nat_eq, ◌==◌,
}
use go_agent_sessions.Prelude.Assoc.{Assoc, lookup, delete, lookup-delete}
use go_agent_sessions.Manager.State.{put}
use go_agent_sessions.JsonRpc.{Response, RespChan, fresh_chan, send, fail_all}

abbrev pub Owned : (ℕ → RespChan) → ℕ → Assoc ℕ ℕ → Type 0
Owned chan n [] = Unit {0}
Owned chan n ((i, q) ∷ m) =
    (q ≡ i) × (i ≤ n) × (chan i ≡ fresh_chan) × (lookup i m ≡ none) × Owned chan n m

pub Owned-lookup :
    (chan : ℕ → RespChan) (n i q : ℕ) (m : Assoc ℕ ℕ)
    → Owned chan n m
    → lookup i m ≡ some q
    → (q ≡ i) × (i ≤ n) × (chan i ≡ fresh_chan)
unfolding lookup
Owned-lookup chan n i q [] v e = absurd (cc e)
Owned-lookup chan n i q ((j, p) ∷ m) v e = elim (Bool-cases (j == i)) [
  | inl hit ↦
      let f : j ≡ i = ground arith in
      let g : some p ≡ some q = rw hit at e in
      (cc (v.0, f, g), omega (arith, v.1, f), subst (λ k. chan k ≡ fresh_chan) f v.2)
  | inr miss ↦ Owned-lookup chan n i q m v.4 (rw miss at e)
]

pub Owned-late :
    (chan : ℕ → RespChan) (n i : ℕ) (m : Assoc ℕ ℕ) → Owned chan n m → n < i → lookup i m ≡ none
unfolding lookup
Owned-late chan n i [] v h = refl
Owned-late chan n i ((j, p) ∷ m) v h = ground (arith, Owned-late chan n i m v.4 h)

pub Owned-delete :
    (chan : ℕ → RespChan) (n i : ℕ) (m : Assoc ℕ ℕ) → Owned chan n m → Owned chan n (delete i m)
unfolding delete
Owned-delete chan n i [] v = tt
Owned-delete chan n i ((j, p) ∷ m) v = elim (Bool-cases (j == i)) [
  | inl hit ↦ rw hit (Owned-delete chan n i m v.4)
  | inr miss ↦
      rw miss (v.0, v.1, v.2, ground (arith, lookup-delete i j m), Owned-delete chan n i m v.4)
]

pub Owned-suc :
    (chan : ℕ → RespChan) (n k : ℕ) (m : Assoc ℕ ℕ) → Owned chan n m → n ≤ k → Owned chan k m
Owned-suc chan n k [] v h = tt
Owned-suc chan n k ((j, p) ∷ m) v h =
    (v.0, omega (arith, v.1), v.2, v.3, Owned-suc chan n k m v.4 h)

pub Owned-put :
    (chan : ℕ → RespChan) (n i : ℕ) (c : RespChan) (m : Assoc ℕ ℕ)
    → lookup i m ≡ none
    → Owned chan n m
    → Owned (put chan i c) n m
unfolding lookup
Owned-put chan n i c [] h v = tt
Owned-put chan n i c ((j, p) ∷ m) h v = elim (Bool-cases (j == i)) [
  | inl hit ↦ absurd (cc (rw hit at h))
  | inr miss ↦ rw miss (v.0, v.1, v.2, v.3, Owned-put chan n i c m (rw miss at h) v.4)
]

-- A channel that has been answered.
abbrev pub answered : Response → RespChan
answered r = record { value = some r; closed = true }

pub send-fresh : (r : Response) (c : RespChan) → c ≡ fresh_chan → send r c ≡ some (answered r)
unfolding send
send-fresh r c e = rw e refl

after_head :
    (r : Response) (i q : ℕ) (m : Assoc ℕ ℕ) (chan : ℕ → RespChan) (j : ℕ)
    → q ≡ i
    → lookup i m ≡ none
    → elim (lookup j m) [ none ↦ put chan q (answered r) j | some k ↦ answered r ]
      ≡ elim (lookup j ((i, q) ∷ m)) [ none ↦ chan j | some k ↦ answered r ]
unfolding lookup
after_head r i q m chan j e h = elim (Bool-cases (i == j)) [
  | inl hit ↦
      let f : i ≡ j = ground arith in
      let g : lookup j m ≡ none = subst (λ k. lookup k m ≡ none) f h in
      let k : (j == q) ≡ true = ground arith in rw (hit, g, k) refl
  | inr miss ↦
      let k : put chan q (answered r) j ≡ chan j = ground arith in
      rw miss (ap (λ c. elim (lookup j m) [ none ↦ c | some x ↦ answered r ]) k)
]

-- failPendingOnClose answers each pending Call once, and touches no other channel.
pub fail_all-total :
    (r : Response) (n : ℕ) (m : Assoc ℕ ℕ) (chan : ℕ → RespChan)
    → Owned chan n m
    → (chan' : ℕ → RespChan) × (fail_all r m chan ≡ some chan')
      × ((j : ℕ) → chan' j ≡ elim (lookup j m) [ none ↦ chan j | some q ↦ answered r ])
unfolding fail_all lookup
fail_all-total r n [] chan v = (chan, refl, λ j. refl)
fail_all-total r n ((i, q) ∷ m) chan v =
    let back : i ≡ q = sym v.0 in
    let own : Owned (put chan q (answered r)) n m =
      Owned-put chan n q (answered r) m (subst (λ k. lookup k m ≡ none) back v.3) v.4 in
    let (chan', e, f) = fail_all-total r n m (put chan q (answered r)) own in
    (
      chan',
      rw (send-fresh r (chan q) (ap chan v.0 ∙ v.2), fail_all) e,
      λ j. f j ∙ after_head r i q m chan j v.0 v.3,
    )
