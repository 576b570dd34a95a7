-- ===== src/Spawn/Wrapped.antt =====
-- What a command wrapped by applyResourceLimits (agentsessions/wraparg_unix.go) runs in the end,
-- and what its ulimits allow.
use go_agent_sessions.Prelude.{
  ◌+◌, ◌-◌, ◌%◌, ◌^◌, leb, ℕ, zero, suc, ◌*◌, ◌/◌, ◌≤◌, ◌<◌, max, Bool, true, false, not, ◌&&◌,
  ◌||◌, some, List, [], ◌∷◌, ◌++◌, if◌then◌else◌, ltb, ◌≡◌, refl, subst, sym, inl, inr, ◌⊎◌,
  Bool-cases, nat_eq, ◌==◌, arith, if-elim,
}
use go_agent_sessions.Prelude.Texts.{Bytes, codes, decimal, bytes_eq}
use go_agent_sessions.Supervision.{second}
use go_agent_sessions.Spawn.Options.{ResourceLimits, Command}
use native.Mathlib.Nat.{div-mul-le_self}
use go_agent_sessions.Spawn.Limits.{
  top_bit, cpu_seconds, Host, Ulimit, cpu_nanoseconds, when_positive, uses_systemd, ulimits,
  is_darwin,
}

-- systemd-run takes its options up to `--`, and runs what follows.
abbrev pub after_dashes : List Bytes → List Bytes
after_dashes [] = []
after_dashes (x ∷ xs) = let rest = after_dashes xs in if x == codes "--" then xs else rest

-- The ulimits as a shell reads them, each before a semicolon.
abbrev pub settings : List Ulimit → Bytes
settings [] = []
settings (u ∷ us) =
    (codes "ulimit -" ++ u.flag ∷ b' ' ∷ decimal u.value) ++ codes "; " ++ settings us

-- The parts of a command that no wrapping touches.
abbrev pub Kept : Command → Command → Type 0
Kept cmd c =
    (c.dir ≡ cmd.dir)
    × (c.env ≡ cmd.env)
    × (c.extra_files ≡ cmd.extra_files)
    × (c.stderr_to_log ≡ cmd.stderr_to_log)

-- The path of systemd-run is not `--`.
abbrev pub Sane : Host → Type 0
Sane h = (srun : Bytes) → h.systemd_run ≡ some srun → (srun == codes "--") ≡ false

module _ (h : Host) (l : ResourceLimits) (cmd : Command) where
  -- The command itself; or a shell that sets the ulimits and then executes its arguments, which are
  -- the command's argv.
  abbrev pub Shelled : List Ulimit → Command → Type 0
  Shelled [] c = (c.path ≡ cmd.path) × (c.args ≡ cmd.args)
  Shelled (u ∷ us) c =
      (sh : Bytes) × (h.sh ≡ some sh)
      × (c.path ≡ sh)
      × (c.args
          ≡ sh ∷ codes "-c" ∷ (settings (u ∷ us) ++ codes "exec \"$@\"") ∷ codes "sh" ∷ cmd.args)

  -- That, or systemd-run with it as the command after its options.
  abbrev pub Runs : Bool → List Ulimit → Command → Type 0
  Runs false us c = Shelled us c × Kept cmd c
  Runs true us c =
      (srun : Bytes) × (inner : Command) × (h.systemd_run ≡ some srun)
      × (c.path ≡ srun)
      × (after_dashes c.args ≡ inner.args)
      × Shelled us inner
      × Kept cmd c

-- What the limits ask for under a flag of ulimit, in the unit that the code counts in.
abbrev pub asked : ResourceLimits → ℕ → ℕ
asked l flag =
    if flag == b't'
    then cpu_nanoseconds l.cpu_time
    else (if flag == b'v'
        then l.memory_max
        else (if flag == b'n'
            then l.max_open_files
            else (if flag == b'u' then l.max_processes else l.max_file_size)))

abbrev pub unit : ℕ → ℕ
unit flag = if flag == b't' then second else (if flag == b'v' || flag == b'f' then 1024 else 1)

-- By how much a ulimit may be above what was asked for: the seconds by one part in 2 ^ 53.
abbrev pub slack : ResourceLimits → ℕ → ℕ
slack l flag = if flag == b't' then cpu_nanoseconds l.cpu_time / 2 ^ 53 else 0

-- A ulimit is positive, and allows no more than was asked for and the slack, or is one unit.
abbrev pub Within : ResourceLimits → Ulimit → Type 0
Within l u =
    (0 < u.value) × ((u.value * unit u.flag ≤ asked l u.flag + slack l u.flag) ⊎ (u.value ≡ 1))

abbrev pub Each {ℓ κ} : {A : Type ℓ} → (A → Type κ) → List A → Type κ
Each P [] = Unit
Each P (x ∷ xs) = P x × Each P xs

Each-append {ℓ κ} :
    {A : Type ℓ} (P : A → Type κ) (xs ys : List A) → Each P xs → Each P ys → Each P (xs ++ ys)
Each-append P [] ys p q = q
Each-append P (x ∷ xs) ys p q = (p.0, Each-append P xs ys p.1 q)

when_positive-Each :
    (l : ResourceLimits) (n : ℕ) (u : Ulimit)
    → (0 < n → Within l u)
    → Each (Within l) (when_positive n u)
unfolding when_positive
when_positive-Each l n u p =
    if-elim (Each (Within l)) (ltb 0 n) (λ e. (p (ground arith), tt)) (λ e. tt)

rounded : (n d : ℕ) → (0 < max 1 (n / d)) × ((max 1 (n / d) * d ≤ n + 0) ⊎ (max 1 (n / d) ≡ 1))
rounded n d = elim (Bool-cases (ltb 0 (n / d))) [
  | inl e ↦
      let f : max 1 (n / d) ≡ n / d = ground arith in
      (omega arith, inl (subst (λ q. q * d ≤ n + 0) (sym f) (omega (arith, div-mul-le_self n d))))
  | inr e ↦ (omega arith, inr (ground arith))
]

top_bit-Below : (fuel n : ℕ) → (top_bit fuel n ≤ n) ⊎ (top_bit fuel n ≡ 1)
unfolding top_bit
top_bit-Below zero n = inr refl
top_bit-Below (suc fuel) n =
    let P = λ (k : ℕ). (k ≤ n) ⊎ (k ≡ 1) in
    if-elim P (ltb n 2) (λ e. inr refl)
      (λ e. elim (top_bit-Below fuel (n / 2)) [
        | inl h ↦ inl (omega (arith, h, div-mul-le_self n 2))
        | inr h ↦ inl (ground (arith, h, e))
      ])

above :
    (d k : ℕ)
    → k ≤ d / second
    → (second - d % second) * 2 ^ 53 ≤ second * k
    → (d / second + 1) * second ≤ d + d / 2 ^ 53
above d k f g = omega (arith, f, g)

below :
    (d k : ℕ)
    → k ≡ 1
    → (second - d % second) * 2 ^ 53 ≤ second * k
    → (d / second + 1) * second ≤ d + d / 2 ^ 53
below d k f g = omega (arith, f, g)

-- The seconds are too many by one part in 2 ^ 53 at most.
cpu_seconds-Near : (d : ℕ) → cpu_seconds d * second ≤ d + d / 2 ^ 53
unfolding cpu_seconds
cpu_seconds-Near d =
    let sec = d / second in
    let h = top_bit-Below 64 sec in
    if-elim (λ k. k * second ≤ d + d / 2 ^ 53)
      (leb ((second - d % second) * 2 ^ 53) (second * top_bit 64 sec))
      (λ e. elim h [
        | inl f ↦ above d (top_bit 64 sec) f (ground (arith, e))
        | inr f ↦ below d (top_bit 64 sec) f (ground (arith, e))
      ])
      (λ e. omega (arith, div-mul-le_self d second))

near_or_one :
    (d : ℕ)
    → (0 < max 1 (cpu_seconds d))
      × ((max 1 (cpu_seconds d) * second ≤ d + d / 2 ^ 53) ⊎ (max 1 (cpu_seconds d) ≡ 1))
near_or_one d = elim (Bool-cases (ltb 0 (cpu_seconds d))) [
  | inl e ↦
      let f : max 1 (cpu_seconds d) ≡ cpu_seconds d = ground arith in
      (omega arith, inl (subst (λ q. q * second ≤ d + d / 2 ^ 53) (sym f) (cpu_seconds-Near d)))
  | inr e ↦ (omega arith, inr (ground arith))
]

exact : (n : ℕ) → 0 < n → (0 < n) × ((n * 1 ≤ n + 0) ⊎ (n ≡ 1))
exact n h = (h, inl (omega arith))

-- Each ulimit of the wrapping shell is positive and allows no more than the limit that it is for,
-- except that a limit below one unit (a second, 1024 bytes) becomes one unit, and that the seconds,
-- which are counted in float64, may be above CPUTime by at most one part in 2 ^ 53 of it.
pub ulimits-Within : (h : Host) (l : ResourceLimits) → Each (Within l) (ulimits h l)
unfolding ulimits
ulimits-Within h l =
    let P = Within l in
    let memory =
      if-elim (Each P) (not (uses_systemd h l) && not (is_darwin h.goos)) {y = []}
        (λ e.
          when_positive-Each l l.memory_max
            (record { flag = b'v'; value = max 1 (l.memory_max / 1024) })
            (λ p. rounded l.memory_max 1024))
        (λ e. tt) in
    let cpu =
      when_positive-Each l (cpu_nanoseconds l.cpu_time)
        (record { flag = b't'; value = max 1 (cpu_seconds (cpu_nanoseconds l.cpu_time)) })
        (λ p. near_or_one (cpu_nanoseconds l.cpu_time)) in
    let files =
      when_positive-Each l l.max_open_files (record { flag = b'n'; value = l.max_open_files })
        (exact l.max_open_files) in
    let processes =
      when_positive-Each l l.max_processes (record { flag = b'u'; value = l.max_processes })
        (exact l.max_processes) in
    let size =
      when_positive-Each l l.max_file_size
        (record { flag = b'f'; value = max 1 (l.max_file_size / 1024) })
        (λ p. rounded l.max_file_size 1024) in
    Each-append P _ _
      (Each-append P _ _ (Each-append P _ _ (Each-append P _ _ cpu memory) files) processes) size
