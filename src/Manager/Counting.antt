-- ===== src/Manager/Counting.antt =====
-- How many goroutines run `watch` of agentsessions/manager.go, as its WaitGroup counts them.
use go_agent_sessions.Prelude.{
  ℕ, zero, suc, ◌+◌, ◌<◌, ◌≤◌, ◌≡◌, ◌≢◌, inl, inr, refl, ap, ◌∙◌, arith, Bool-cases, nat_eq, ◌==◌,
}
use go_agent_sessions.Manager.State.{Phase, over, starting, watching, delivering, attached, put}

-- `watch` runs until its deferred wg.Done.
abbrev pub counts : Phase → ℕ
counts over = 0
counts (starting req rt) = 0
counts (watching id s b) = 1
counts (delivering id s b k c e r) = 1
counts (attached e b i a) = 0

-- The goroutines below the number that run `watch`.
unfoldable pub busy : (ℕ → Phase) → ℕ → ℕ
busy f zero = 0
busy f (suc n) = busy f n + counts (f n)

put-hit : (f : ℕ → Phase) (t : ℕ) (p : Phase) → put f t p t ≡ p
put-hit f t p = elim (Bool-cases (t == t)) [ inl e ↦ rw e refl | inr n ↦ absurd (ground arith) ]

at-hit :
    (f : ℕ → Phase) (t : ℕ) (p : Phase) (n : ℕ)
    → n ≡ t
    → (counts (put f t p n) ≡ counts p) × (counts (f n) ≡ counts (f t))
at-hit f t p n same =
    (ap (λ x. counts (put f t p x)) same ∙ ap counts (put-hit f t p), ap (λ x. counts (f x)) same)

put-miss : (f : ℕ → Phase) (t u : ℕ) (p : Phase) → u ≢ t → put f t p u ≡ f u
put-miss f t u p n = elim (Bool-cases (u == t)) [
  | inl e ↦ absurd (ground arith)
  | inr m ↦ rw m refl
]

-- A goroutine that counts as it did changes nothing.
pub busy-same :
    (f : ℕ → Phase) (t : ℕ) (p : Phase) (n : ℕ)
    → counts (f t) ≡ counts p
    → busy (put f t p) n ≡ busy f n
unfolding busy
busy-same f t p zero e = refl
busy-same f t p (suc n) e =
    let i = busy-same f t p n e in
    elim (Bool-cases (n == t)) [
      | inl h ↦ let (x, y) = at-hit f t p n (ground arith) in omega arith
      | inr h ↦ rw (put-miss f t n p (ground arith), i) refl
    ]

busy-above : (f : ℕ → Phase) (t : ℕ) (p : Phase) (n : ℕ) → n ≤ t → busy (put f t p) n ≡ busy f n
unfolding busy
busy-above f t p zero h = refl
busy-above f t p (suc n) h =
    rw (put-miss f t n p (omega arith), busy-above f t p n (omega arith)) refl

-- A goroutine that exists counts once.
pub busy-put :
    (f : ℕ → Phase) (t : ℕ) (p : Phase) (n : ℕ)
    → t < n
    → busy (put f t p) n + counts (f t) ≡ busy f n + counts p
unfolding busy
busy-put f t p zero h = absurd (omega arith)
busy-put f t p (suc n) h = elim (Bool-cases (n == t)) [
  | inl e ↦
      let same : n ≡ t = ground arith in
      let (x, y) = at-hit f t p n same in let z = busy-above f t p n (omega arith) in omega arith
  | inr e ↦
      let i = busy-put f t p n (ground arith) in
      let miss = put-miss f t n p (ground arith) in rw miss (omega arith)
]

-- The next goroutine.
pub busy-spawn :
    (f : ℕ → Phase) (p : Phase) (n : ℕ) → busy (put f n p) (n + 1) ≡ busy f n + counts p
unfolding busy
busy-spawn f p n =
    let one : n + 1 ≡ suc n = omega arith in
    rw (one, put-hit f n p, busy-above f n p n (omega arith)) refl
