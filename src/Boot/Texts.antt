-- ===== src/Boot/Texts.antt =====
-- The texts of agentsessions/bootdir_planting.go: names, modes and templates.
use go_agent_sessions.Prelude.{
  ℕ, zero, suc, ◌-◌, Bool, not, ◌&&◌, ◌||◌, List, [], ◌∷◌, ◌++◌, map, if◌then◌else◌, length, leb,
  nat_eq, ◌==◌,
}
use go_agent_sessions.Prelude.Texts.{Bytes, codes, is_blank, bytes_eq}
use go_agent_sessions.Serve.Scanning.{has_prefix}

-- The characters that stay.
unfoldable pub is_safe : ℕ → Bool
is_safe c =
    leb b'a' c && leb c b'z'
    || leb b'A' c && leb c b'Z'
    || leb b'0' c && leb c b'9'
    || c == b'-'
    || c == b'_'

unfoldable pub safe_char : ℕ → ℕ
unfolding is_safe
safe_char c = if is_safe c then c else b'_'

-- sanitizeBootDirID
unfoldable pub sanitize_boot_dir_id : Bytes → Bytes
unfolding safe_char
sanitize_boot_dir_id s = if is_blank s then codes "session" else map safe_char s

-- strings.HasSuffix
unfoldable pub has_suffix : Bytes → Bytes → Bool
has_suffix p [] = is_blank p
has_suffix p (c ∷ cs) = let rest = has_suffix p cs in (c ∷ cs) == p || rest

-- plantedFileMode
unfoldable pub planted_file_mode : Bytes → ℕ
unfolding has_suffix
planted_file_mode rel_path =
    if rel_path == codes ".mcp.json" || has_suffix (codes "settings.json") rel_path
    then 384
    else 420

-- strings.ReplaceAll of a text that is not empty; `skip` bytes of a match are left.
unfoldable pub replace_from : Bytes → Bytes → ℕ → Bytes → Bytes
replace_from old new skip [] = []
replace_from old new (suc skip) (c ∷ cs) = replace_from old new skip cs
replace_from old new zero (c ∷ cs) =
    let found = has_prefix old (c ∷ cs) in
    let rest = replace_from old new (if found then length old - 1 else 0) cs in
    if found then new ++ rest else c ∷ rest

unfoldable pub replace_all : Bytes → Bytes → Bytes → Bytes
unfolding replace_from
replace_all old new s = replace_from old new 0 s

unfoldable pub is_space : ℕ → Bool
is_space c = c == 32 || c == 9 || c == 10 || c == 11 || c == 12 || c == 13

-- strings.Fields, with the word that is being read.
unfoldable pub fields_from : Bytes → Bytes → List Bytes
unfolding is_space
fields_from word [] = if is_blank word then [] else word ∷ []
fields_from word (c ∷ cs) =
    let rest = fields_from (if is_space c then [] else word ++ c ∷ []) cs in
    if is_space c && not (is_blank word) then word ∷ rest else rest

unfoldable pub fields : Bytes → List Bytes
unfolding fields_from
fields s = fields_from [] s

-- Both replacements, in their order.
unfoldable pub substitute : Bytes → Bytes → Bytes → Bytes
unfolding replace_all
substitute boot_dir project_dir s =
    replace_all (codes "{{.ProjectDir}}") project_dir
      (replace_all (codes "{{.BootDir}}") boot_dir s)

-- substituteTemplates
unfoldable pub substitute_templates : List Bytes → Bytes → Bytes → List Bytes
unfolding substitute
substitute_templates texts boot_dir project_dir = map (substitute boot_dir project_dir) texts

-- substituteArgTokens
unfoldable pub substitute_arg_tokens : Bytes → Bytes → Bytes → List Bytes
unfolding substitute fields
substitute_arg_tokens template boot_dir project_dir =
    if is_blank template || is_blank project_dir
    then []
    else map (substitute boot_dir project_dir) (fields template)
