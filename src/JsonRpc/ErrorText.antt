-- ===== src/JsonRpc/ErrorText.antt =====
-- The text of a JsonRpcError (agentsessions/types.go), with its own conversion of the code.
use go_agent_sessions.Prelude.{
  ℕ, zero, suc, ◌+◌, ◌-◌, ◌*◌, ◌/◌, ◌%◌, ◌^◌, ◌<◌, ◌≤◌, ◌≡◌, refl, ap, ◌∙◌, inl, inr, Bool-cases,
  false, Option, none, some, [], ◌∷◌, ◌++◌, if◌then◌else◌, arith, nat_eq, ◌==◌,
}
use native.Mathlib.Nat.{pow-succ'}
use go_agent_sessions.Prelude.Int.{ℤ, pos, negsuc}
use go_agent_sessions.Prelude.Texts.{Bytes, codes}
use go_agent_sessions.Prelude.Decimal.{value_from}
use go_agent_sessions.JsonRpc.{JsonRpcError}

-- A text in the buffer: the room before it, which is the code's `pos`, and its bytes.
abbrev pub Buffer : Type 0
Buffer = ℕ × Bytes

-- for code > 0 { pos--; buf[pos] = ...; code /= 10 }; an index below 0 would panic.
unfoldable pub fill : ℕ → ℕ → Bytes → Option Buffer
fill zero n out = if n == 0 then some (0, out) else none
fill (suc room) n out =
    let rest = fill room (n / 10) ((48 + n % 10) ∷ out) in
    if n == 0 then some (suc room, out) else rest

-- if negative { pos--; buf[pos] = '-' }
unfoldable pub sign : Option Buffer → Option Bytes
sign none = none
sign (some (zero, out)) = none
sign (some (suc room, out)) = some (b'-' ∷ out)

unfoldable pub unsigned : Option Buffer → Option Bytes
unsigned none = none
unsigned (some (room, out)) = some out

-- -code of an int64: the smallest one is its own opposite, and the loop does not see it as positive.
unfoldable pub negated : ℕ → ℕ
negated n = if n == 2 ^ 63 then 0 else n

-- jsonRpcErrorString
unfoldable pub json_rpc_error_string : ℤ → Option Bytes
unfolding fill sign unsigned negated
json_rpc_error_string (pos zero) = some (codes "0")
json_rpc_error_string (pos (suc n)) = unsigned (fill 20 (suc n) [])
json_rpc_error_string (negsuc n) = sign (fill 20 (negated (n + 1)) [])

-- Error, of a nil pointer too.
unfoldable pub error_text : Option JsonRpcError → Option Bytes
unfolding json_rpc_error_string
error_text none = some (codes "<nil>")
error_text (some e) = elim (json_rpc_error_string e.code) [
  | none ↦ none
  | some digits ↦
      some (codes "agentsessions: jsonrpc error " ++ (digits ++ (codes ": " ++ codes e.message)))
]

-- The int64 numbers, the smallest apart.
abbrev pub IsNegatable : ℤ → Type 0
IsNegatable (pos n) = n < 2 ^ 63
IsNegatable (negsuc n) = n + 1 < 2 ^ 63

-- The number that a text of digits, with or without a sign, stands for.
abbrev pub read_int : Bytes → ℤ
read_int [] = pos 0
read_int (c ∷ cs) = if c == b'-' then negsuc (value_from 0 cs - 1) else pos (value_from 0 (c ∷ cs))

StartsDigit : Bytes → Type 0
StartsDigit [] = ⊥
StartsDigit (c ∷ cs) = 48 ≤ c

-- The loop ends with room left, and its text has the value of the number before what it began with.
abbrev Fills : ℕ → ℕ → Bytes → Type 0
Fills room n out =
    (r : ℕ) × (c : ℕ) × (cs : Bytes) × (fill (suc room) n out ≡ some (suc r, c ∷ cs))
    × (48 ≤ c)
    × (value_from 0 (c ∷ cs) ≡ value_from n out)

fill-Fills : (room n d : ℕ) (out : Bytes) → n < 10 ^ room → 48 ≤ d → Fills room n (d ∷ out)
unfolding fill
fill-Fills zero n d out h k = let e : n ≡ 0 = omega arith in rw e (0, d, out, refl, k, refl)
fill-Fills (suc room) n d out h k = elim (Bool-cases (n == 0)) [
  | inl e ↦ let z : n ≡ 0 = ground arith in rw z (suc room, d, out, refl, k, refl)
  | inr e ↦
      let g : n / 10 < 10 ^ room = omega (arith, pow-succ' 10 room) in
      let f : 10 * (n / 10) + (48 + n % 10 - 48) ≡ n = omega arith in
      let (r, c, cs, same, digit, value) =
        fill-Fills room (n / 10) (48 + n % 10) (d ∷ out) g (omega arith) in
      (r, c, cs, rw (e, fill) same, digit, value ∙ ap (λ m. value_from m (d ∷ out)) f)
]

-- The digits of a positive number.
positive :
    (n : ℕ)
    → n < 2 ^ 63
    → (n == 0) ≡ false
    → (r : ℕ) × (c : ℕ) × (cs : Bytes) × (fill 20 n [] ≡ some (suc r, c ∷ cs))
      × (48 ≤ c)
      × (value_from 0 (c ∷ cs) ≡ n)
unfolding fill
positive n h e =
    let (r, c, cs, same, digit, value) =
      fill-Fills 18 (n / 10) (48 + n % 10) [] (omega arith) (omega arith) in
    (r, c, cs, rw (e, fill) same, digit, value ∙ omega arith)

kept : (n m : ℕ) → n < m → (if n == m then 0 else n) ≡ n
kept n m h = ground arith

negated-below : (n : ℕ) → n < 2 ^ 63 → negated n ≡ n
unfolding negated
negated-below n h = kept n (2 ^ 63) h

-- For every code that an int64 holds, the smallest apart, the conversion ends within its buffer of 20
-- bytes, and its text reads as the code.
pub json_rpc_error_string-Reads :
    (code : ℤ)
    → IsNegatable code
    → (t : Bytes) × (json_rpc_error_string code ≡ some t) × (read_int t ≡ code)
unfolding json_rpc_error_string
json_rpc_error_string-Reads (pos zero) h = (codes "0", refl, refl)
json_rpc_error_string-Reads (pos (suc n)) h =
    let (r, c, cs, same, digit, value) = positive (suc n) h (ground arith) in
    let plain : (c == b'-') ≡ false = ground arith in
    (c ∷ cs, rw (same, unsigned) refl, rw (plain, value) refl)
json_rpc_error_string-Reads (negsuc n) h =
    let (r, c, cs, same, digit, value) = positive (n + 1) h (ground arith) in
    (
      b'-' ∷ c ∷ cs,
      rw (negated-below (n + 1) h, same, sign) refl,
      rw value (ap negsuc (omega arith)),
    )

smallest : json_rpc_error_string (negsuc (2 ^ 63 - 1)) ≡ some (codes "-")
unfolding json_rpc_error_string
smallest = refl
