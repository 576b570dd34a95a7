-- ===== src/Boot/Names.antt =====
-- The names of planted directories (sanitizeBootDirID in agentsessions/bootdir_planting.go).
use go_agent_sessions.Prelude.{
  ℕ, true, false, [], ◌∷◌, map, length, ◌≡◌, ◌≢◌, refl, ap, if-elim, nat_eq, arith, inl, inr, ◌⊎◌,
}
use go_agent_sessions.Prelude.Texts.{Bytes, codes, is_blank}
use go_agent_sessions.Boot.Texts.{is_safe, safe_char, sanitize_boot_dir_id}

-- Only letters, digits, `-` and `_`; no separator of a path, and no dot.
abbrev pub Safe : Bytes → Type 0
Safe [] = Unit
Safe (c ∷ cs) = (is_safe c ≡ true) × (c ≢ b'/') × (c ≢ b'.') × Safe cs

safe_char-is_safe : (c : ℕ) → is_safe (safe_char c) ≡ true
unfolding safe_char is_safe
safe_char-is_safe c = if-elim (λ d. is_safe d ≡ true) (is_safe c) (λ e. e) (λ e. refl)

not_slash : (c : ℕ) → is_safe c ≡ true → (c ≢ b'/') × (c ≢ b'.')
unfolding is_safe
not_slash c e = (λ f. absurd (cc (e, ap is_safe f)), λ f. absurd (cc (e, ap is_safe f)))

map-Safe : (s : Bytes) → Safe (map safe_char s)
map-Safe [] = tt
map-Safe (c ∷ cs) =
    let e = safe_char-is_safe c in let n = not_slash (safe_char c) e in (e, n.0, n.1, map-Safe cs)

map-same : (s : Bytes) → Safe s → map safe_char s ≡ s
unfolding safe_char
map-same [] v = refl
map-same (c ∷ cs) v = rw v.0 (ap (λ t. c ∷ t) (map-same cs v.3))

length-map : (s : Bytes) → length (map safe_char s) ≡ length s
length-map [] = refl
length-map (c ∷ cs) = omega (arith, length-map cs)

-- The id that goes into the name of a planted directory is never empty, has safe characters only,
-- so that it cannot leave the root, keeps its length where it was not empty, and is left alone
-- where it is safe already.
pub sanitize_boot_dir_id-Safe :
    (s : Bytes)
    → Safe (sanitize_boot_dir_id s)
      × (is_blank (sanitize_boot_dir_id s) ≡ false)
      × ((is_blank s ≡ true) ⊎ (length (sanitize_boot_dir_id s) ≡ length s))
      × (sanitize_boot_dir_id (sanitize_boot_dir_id s) ≡ sanitize_boot_dir_id s)
unfolding sanitize_boot_dir_id safe_char is_safe
sanitize_boot_dir_id-Safe [] = (map-Safe (codes "session"), refl, inl refl, refl)
sanitize_boot_dir_id-Safe (c ∷ cs) = (
  map-Safe (c ∷ cs),
  refl,
  inr (length-map (c ∷ cs)),
  map-same (map safe_char (c ∷ cs)) (map-Safe (c ∷ cs)),
)
