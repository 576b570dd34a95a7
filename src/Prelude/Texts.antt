-- ===== src/Prelude/Texts.antt =====
-- Texts as lists of bytes: literals, equality, decimal numbers.
use Prim.Native.Char.{code}
use Prim.Native.Nat.{ℕ, zero, suc, ◌+◌, ◌/◌, ◌%◌}
use Prim.Native.String.{String}
use mathlib.Core.Path.{◌≡◌, refl, ap, sym, ◌∙◌}
use mathlib.Core.Logic.{◌↔◌}
use mathlib.Core.Bool.{Bool, true, false, ◌&&◌}
use mathlib.Core.List.{List, [], ◌∷◌}
use native.Mathlib.Omega.{arith}
use go_agent_sessions.Prelude.Tests.{Key, nat_beq, nat_same_iff, ltb, if◌then◌else◌}

abbrev pub Bytes : Type 0
Bytes = List ℕ

-- The bytes of a literal.
abbrev pub codes : String → Bytes
codes String.[] = []
codes (String.◌∷◌ c s) = code c ∷ codes s

-- s == ""
abbrev pub is_blank {ℓ} : {A : Type ℓ} → List A → Bool
is_blank [] = true
is_blank (x ∷ xs) = false

abbrev pub same_bytes : Bytes → Bytes → Bool
same_bytes [] [] = true
same_bytes [] (y ∷ ys) = false
same_bytes (x ∷ xs) [] = false
same_bytes (x ∷ xs) (y ∷ ys) = nat_beq x y && same_bytes xs ys

same_bytes_sound : (xs ys : Bytes) → same_bytes xs ys ≡ true → xs ≡ ys
same_bytes_sound [] [] e = refl
same_bytes_sound [] (y ∷ ys) e = absurd (cc e)
same_bytes_sound (x ∷ xs) [] e = absurd (cc e)
same_bytes_sound (x ∷ xs) (y ∷ ys) e = ground (arith, nat_same_iff x y, same_bytes_sound xs ys)

pub same_bytes_refl : (xs : Bytes) → same_bytes xs xs ≡ true
same_bytes_refl [] = refl
same_bytes_refl (x ∷ xs) = ground (arith, nat_same_iff x x, same_bytes_refl xs)

pub same_bytes_iff : (xs ys : Bytes) → (same_bytes xs ys ≡ true) ↔ (xs ≡ ys)
same_bytes_iff xs ys =
    (same_bytes_sound xs ys, λ e. ap (same_bytes xs) (sym e) ∙ same_bytes_refl xs)

instance abbrev pub bytes_eq : Key Bytes
bytes_eq = record { same = same_bytes; same_iff = same_bytes_iff }

-- %d of a number with at most `fuel` digits, before `rest`.
unfoldable pub decimal_before : ℕ → ℕ → Bytes → Bytes
decimal_before zero n rest = rest
decimal_before (suc fuel) n rest =
    let more = decimal_before fuel (n / 10) ((48 + n % 10) ∷ rest) in
    if ltb n 10 then (48 + n) ∷ rest else more

-- fmt.Sprintf("%d", n) of an unsigned 64-bit number, which has at most 20 digits.
unfoldable pub decimal : ℕ → Bytes
unfolding decimal_before
decimal n = decimal_before 20 n []
