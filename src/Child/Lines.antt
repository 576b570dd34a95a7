-- ===== src/Child/Lines.antt =====
-- bufio.Scanner (agentsessions/streaming_stdio_session.go, runReaderLoop) on lines that fit its
-- buffer, and on one that does not.
use go_agent_sessions.Prelude.{
  ℕ, ◌+◌, ◌≤◌, ◌<◌, true, false, not, List, [], ◌∷◌, ◌++◌, length, ltb, nat_eq, ◌==◌, ◌≡◌, refl, ap,
  sym, ◌∙◌, append_assoc, append-nil, length-append, arith, Bool-cases, inl, inr,
}
use go_agent_sessions.Prelude.Texts.{Bytes}
use go_agent_sessions.Child.Reading.{
  newline, max_token, Scanner, drop_cr, scan_byte, scan_bytes, fresh_scanner,
}

-- No newline in a text.
abbrev pub Unbroken : Bytes → Type 0
Unbroken [] = Unit
Unbroken (c ∷ cs) = ((c == newline) ≡ false) × Unbroken cs

-- A line that fits the scanner's buffer and does not end in a carriage return.
abbrev pub Line : Bytes → Type 0
Line l = Unbroken l × (length l < max_token) × (drop_cr l ≡ l)

abbrev pub Lines : List Bytes → Type 0
Lines [] = Unit
Lines (l ∷ ls) = Line l × Lines ls

-- The lines, each with its newline.
abbrev pub text_of : List Bytes → Bytes
text_of [] = []
text_of (l ∷ ls) = (l ++ newline ∷ []) ++ text_of ls

scan_bytes-append :
    (sc : Scanner) (xs ys : Bytes) → scan_bytes sc (xs ++ ys) ≡ scan_bytes (scan_bytes sc xs) ys
unfolding scan_bytes
scan_bytes-append sc [] ys = refl
scan_bytes-append sc (x ∷ xs) ys = scan_bytes-append (scan_byte sc x) xs ys

abbrev pub reading : List Bytes → Bytes → Scanner
reading ls l = record { lines = ls; line = l; too_long = false }

scan_char :
    (ls : List Bytes) (l : Bytes) (c : ℕ)
    → (c == newline) ≡ false
    → length l + 1 < max_token
    → scan_byte (reading ls l) c ≡ reading ls (l ++ c ∷ [])
unfolding scan_byte
scan_char ls l c e h =
    let f : not (ltb (length l + 1) max_token) ≡ false = ground arith in rw (e, f) refl

scan_chars :
    (ls : List Bytes) (l xs : Bytes)
    → Unbroken xs
    → length l + length xs < max_token
    → scan_bytes (reading ls l) xs ≡ reading ls (l ++ xs)
unfolding scan_bytes
scan_chars ls l [] u h = ap (reading ls) (sym (append-nil l))
scan_chars ls l (c ∷ xs) u h =
    ap (λ sc. scan_bytes sc xs) (scan_char ls l c u.0 (omega arith))
    ∙ scan_chars ls (l ++ c ∷ []) xs u.1 (omega (arith, length-append l (c ∷ [])))
    ∙ ap (reading ls) (append_assoc l (c ∷ []) xs)

scan_one :
    (ls : List Bytes) (l : Bytes)
    → Line l
    → scan_bytes (reading ls []) (l ++ newline ∷ []) ≡ reading (ls ++ l ∷ []) []
unfolding scan_bytes scan_byte
scan_one ls l (u, h, d) =
    scan_bytes-append (reading ls []) l (newline ∷ [])
    ∙ ap (λ sc. scan_bytes sc (newline ∷ [])) (scan_chars ls [] l u (omega arith))
    ∙ ap (λ k. reading (ls ++ k ∷ []) []) d

pub scan_text :
    (ls ms : List Bytes)
    → Lines ms
    → scan_bytes (reading ls []) (text_of ms) ≡ reading (ls ++ ms) []
unfolding scan_bytes
scan_text ls [] v = ap (λ k. reading k []) (sym (append-nil ls))
scan_text ls (m ∷ ms) v =
    scan_bytes-append (reading ls []) (m ++ newline ∷ []) (text_of ms)
    ∙ ap (λ sc. scan_bytes sc (text_of ms)) (scan_one ls m v.0)
    ∙ scan_text (ls ++ m ∷ []) ms v.1
    ∙ ap (λ k. reading k []) (append_assoc ls (m ∷ []) ms)

abbrev pub given_up : List Bytes → Bytes → Scanner
given_up ls l = record { lines = ls; line = l; too_long = true }

given_up_stays : (ls : List Bytes) (l xs : Bytes) → scan_bytes (given_up ls l) xs ≡ given_up ls l
unfolding scan_bytes scan_byte
given_up_stays ls l [] = refl
given_up_stays ls l (x ∷ xs) = given_up_stays ls l xs

gives_up :
    (ls : List Bytes) (l : Bytes) (c : ℕ)
    → (c == newline) ≡ false
    → max_token ≤ length l + 1
    → scan_byte (reading ls l) c ≡ given_up ls (l ++ c ∷ [])
unfolding scan_byte
gives_up ls l c e h =
    let f : not (ltb (length l + 1) max_token) ≡ true = ground arith in rw (e, f) refl

scan_long :
    (ls : List Bytes) (l xs : Bytes)
    → Unbroken xs
    → length l < max_token
    → max_token ≤ length l + length xs
    → (k : Bytes) × (scan_bytes (reading ls l) xs ≡ given_up ls k)
unfolding scan_bytes
scan_long ls l [] u g h = absurd (omega arith)
scan_long ls l (c ∷ xs) u g h = elim (Bool-cases (ltb (length l + 1) max_token)) [
  | inl e ↦
      let (k, f) =
        scan_long ls (l ++ c ∷ []) xs u.1 (ground (arith, length-append l (c ∷ [])))
          (omega (arith, length-append l (c ∷ []))) in
      (k, ap (λ sc. scan_bytes sc xs) (scan_char ls l c u.0 (ground arith)) ∙ f)
  | inr e ↦ (
    l ++ c ∷ [],
    ap (λ sc. scan_bytes sc xs) (gives_up ls l c u.0 (ground arith))
        ∙ given_up_stays ls (l ++ c ∷ []) xs,
  )
]

pub scan_oversized :
    (ls : List Bytes) (long more : Bytes)
    → Lines ls
    → Unbroken long
    → max_token ≤ length long
    → (k : Bytes) × (scan_bytes fresh_scanner (text_of ls ++ (long ++ more)) ≡ given_up ls k)
scan_oversized ls long more v u h =
    let (k, f) = scan_long ls [] long u (omega arith) (omega arith) in
    (
      k,
      scan_bytes-append fresh_scanner (text_of ls) (long ++ more)
          ∙ ap (λ sc. scan_bytes sc (long ++ more)) (scan_text [] ls v)
          ∙ scan_bytes-append (reading ls []) long more
          ∙ ap (λ sc. scan_bytes sc more) f
          ∙ given_up_stays ls k more,
    )
