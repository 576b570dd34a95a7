-- ===== src/Prelude/Decimal.antt =====
-- Decimal numbers read back: 20 digits are enough for what `decimal` is given.
use Prim.Native.Nat.{ℕ, zero, suc, ◌+◌, ◌-◌, ◌*◌, ◌/◌, ◌%◌, ◌^◌, ◌<◌}
use mathlib.Core.Path.{◌≡◌, refl, ap, ◌∙◌}
use mathlib.Core.Logic.{inl, inr}
use mathlib.Core.List.{[], ◌∷◌}
use native.Mathlib.Nat.{pow-succ'}
use native.Mathlib.Omega.{arith}
use go_agent_sessions.Prelude.Tests.{ltb, Bool-cases}
use go_agent_sessions.Prelude.Texts.{Bytes, codes, decimal_before, decimal}

-- The value of a text of digits, behind a number that has been read.
abbrev pub value_from : ℕ → Bytes → ℕ
value_from n [] = n
value_from n (c ∷ cs) = value_from (10 * n + (c - 48)) cs

value_from-decimal_before :
    (fuel n : ℕ) (rest : Bytes)
    → n < 10 ^ fuel
    → value_from 0 (decimal_before fuel n rest) ≡ value_from n rest
unfolding decimal_before
value_from-decimal_before zero n rest h =
    let e : 0 ≡ n = omega arith in ap (λ k. value_from k rest) e
value_from-decimal_before (suc fuel) n rest h = elim (Bool-cases (ltb n 10)) [
  | inl e ↦ let f : 10 * 0 + (48 + n - 48) ≡ n = omega arith in rw e (ap (λ k. value_from k rest) f)
  | inr e ↦
      let f : 10 * (n / 10) + (48 + n % 10 - 48) ≡ n = omega arith in
      let g : n / 10 < 10 ^ fuel = omega (arith, pow-succ' 10 fuel) in
      rw e (
        value_from-decimal_before fuel (n / 10) ((48 + n % 10) ∷ rest) g
        ∙ ap (λ k. value_from k rest) f)
]

pub value_from-decimal : (n : ℕ) → n < 10 ^ 20 → value_from 0 (decimal n) ≡ n
unfolding decimal
value_from-decimal n h = value_from-decimal_before 20 n [] h

printed : decimal 4096 ≡ codes "4096"
unfolding decimal decimal_before
printed = refl
