-- ===== src/Supervision/Backoff.antt =====
-- computeRestartBackoff of agentsessions/supervision.go against a delay that doubles up to its cap.
use go_agent_sessions.Prelude.{
  ℕ, zero, suc, ◌+◌, ◌-◌, ◌*◌, ◌^◌, ◌%◌, ◌≤◌, ◌<◌, ◌≡◌, refl, sym, ap, ◌∙◌, Bool-cases,
  if◌then◌else◌, ltb, min, max, inl, inr, arith,
}
use go_agent_sessions.Prelude.Int.{pos}
use go_agent_sessions.Supervision.{above, backoff_of, second, int64, compute_restart_backoff}
use native.Mathlib.Nat.{mod-eq_of_lt, pow-le-pow_right, two-pow-succ, one-le-pow}

-- The delay before restart `suc n`, by doubling: it never grows beyond the cap.
abbrev pub delay : ℕ → ℕ → ℕ
delay limit zero = min second limit
delay limit (suc n) = min (2 * delay limit n) limit

delay-pow : (limit n : ℕ) → delay limit n ≡ min (2 ^ n * second) limit
delay-pow limit zero = refl
delay-pow limit (suc n) = omega (arith, delay-pow limit n, two-pow-succ n)

int64-small : (n : ℕ) → n < 2 ^ 63 → int64 n ≡ pos n
int64-small n h = let e : n % 2 ^ 64 ≡ n = mod-eq_of_lt (omega arith) in rw e (ground arith)

capped :
    (b limit : ℕ)
    → b < 2 ^ 63
    → (if above (int64 b) limit then pos limit else int64 b) ≡ pos (min b limit)
unfolding above
capped b limit h = rw (int64-small b h) (ground arith)

-- What the code computes, without the machine integers.
amount : ℕ → ℕ → ℕ
amount limit n = if ltb 30 (n + 1) then limit else min (2 ^ n * second) limit

backoff_of-amount : (limit n : ℕ) → backoff_of (n + 1) limit ≡ pos (amount limit n)
unfolding backoff_of amount
backoff_of-amount limit n = elim (Bool-cases (ltb 30 (n + 1))) [
  | inl e ↦ rw e refl
  | inr e ↦
      let l : 2 ^ n ≤ 2 ^ 29 = pow-le-pow_right (omega arith) {i = n} {j = 29} (ground arith) in
      let f : n + 1 - 1 ≡ n = omega arith in rw (e, f) (capped (2 ^ n * second) limit (omega arith))
]

amount-delay : (limit n : ℕ) → limit ≤ 2 ^ 30 * second → amount limit n ≡ delay limit n
unfolding amount
amount-delay limit n k = elim (Bool-cases (ltb 30 (n + 1))) [
  | inl e ↦
      let l : 2 ^ 30 ≤ 2 ^ n = pow-le-pow_right (omega arith) {i = 30} {j = n} (ground arith) in
      rw e (omega (arith, delay-pow limit n, l))
  | inr e ↦ rw e (sym (delay-pow limit n))
]

backoff-amount :
    (limit n : ℕ)
    → 0 < limit
    → compute_restart_backoff (pos (n + 1)) (pos limit) ≡ pos (amount limit n)
unfolding compute_restart_backoff
backoff-amount zero n h = absurd (omega arith)
backoff-amount (suc c) n h =
    let e : max 1 (n + 1) ≡ n + 1 = omega arith in rw e (backoff_of-amount (suc c) n)

-- With a cap of at most 2 ^ 30 seconds the delays are those of doubling up to the cap: no product
-- overflows, and the shortcut for attempts above 30 gives the same.
pub compute_restart_backoff-delay :
    (limit n : ℕ)
    → 0 < limit
    → limit ≤ 2 ^ 30 * second
    → compute_restart_backoff (pos (n + 1)) (pos limit) ≡ pos (delay limit n)
compute_restart_backoff-delay limit n h k =
    backoff-amount limit n h ∙ ap pos (amount-delay limit n k)

amount-le-suc : (limit n : ℕ) → amount limit n ≤ amount limit (n + 1)
unfolding amount
amount-le-suc limit n =
    let e : 2 ^ suc n ≡ 2 ^ n + 2 ^ n = two-pow-succ n in
    let f : n + 1 ≡ suc n = omega arith in rw f (ground arith)

amount-Bounded : (limit n : ℕ) → 0 < limit → (0 < amount limit n) × (amount limit n ≤ limit)
unfolding amount
amount-Bounded limit n h = let l : 1 ≤ 2 ^ n = one-le-pow n 2 (omega arith) in ground arith

-- Whatever the cap, each backoff is positive, at most the cap, and at most the next one.
pub compute_restart_backoff-Bounded :
    (limit n : ℕ)
    → 0 < limit
    → (d : ℕ) × (e : ℕ) × (compute_restart_backoff (pos (n + 1)) (pos limit) ≡ pos d)
      × (compute_restart_backoff (pos (n + 2)) (pos limit) ≡ pos e)
      × (0 < d)
      × (d ≤ e)
      × (e ≤ limit)
compute_restart_backoff-Bounded limit n h =
    let f : n + 2 ≡ n + 1 + 1 = omega arith in
    (
      amount limit n,
      amount limit (n + 1),
      backoff-amount limit n h,
      rw f (backoff-amount limit (n + 1) h),
      (amount-Bounded limit n h).0,
      amount-le-suc limit n,
      (amount-Bounded limit (n + 1) h).1,
    )
