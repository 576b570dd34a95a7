-- ===== src/Boot/Examples.antt =====
-- The theorems on planted directories (agentsessions/bootdir_planting.go) at concrete inputs, and
-- tests of the texts.
use go_agent_sessions.Prelude.{ℕ, true, false, some, [], ◌∷◌, ◌≡◌, refl}
use go_agent_sessions.Prelude.Texts.{codes, is_blank}
use go_agent_sessions.Spawn.Options.{StartOptions}
use go_agent_sessions.Stdio.Examples.{options}
use go_agent_sessions.Serve.Scanning.{has_prefix}
use go_agent_sessions.Boot.Texts.{
  is_safe, safe_char, sanitize_boot_dir_id, planted_file_mode, has_suffix, replace_from,
  replace_all, substitute, fields, fields_from, is_space, substitute_arg_tokens,
}
use go_agent_sessions.Boot.Planting.{BootDirSpec, Files, prepare_plant}
use go_agent_sessions.Boot.Cleaning.{Prepared, prepare_plant-Prepared}

sanitized : sanitize_boot_dir_id (codes "a/../B-9") ≡ codes "a____B-9"
unfolding sanitize_boot_dir_id safe_char is_safe
sanitized = refl

modes :
    planted_file_mode (codes ".claude/settings.json") ∷ planted_file_mode (codes "CLAUDE.md") ∷ []
    ≡ 384 ∷ 420 ∷ []
unfolding planted_file_mode has_suffix
modes = refl

tokens :
    substitute_arg_tokens (codes "--add-dir  {{.ProjectDir}}/x") (codes "/b") (codes "/p")
    ≡ codes "--add-dir" ∷ codes "/p/x" ∷ []
unfolding substitute_arg_tokens substitute replace_all replace_from fields fields_from is_space
    has_prefix
tokens = refl

-- A directory whose second file cannot be written.
abbrev files : Files
files = record {
  mkdir_ok = λ path. true;
  write_ok = λ path. is_blank path;
  mkdir_temp = λ root pattern. some (codes "/tmp/boot");
  temp_dir = codes "/tmp";
  join = λ dir name. name;
  dir = λ path. codes "/tmp/boot";
}

abbrev spec : BootDirSpec
spec = record {
  planted_files =
      record { rel_path = []; render = some (λ ctx. some ctx.system_prompt) }
      ∷ record { rel_path = codes ".mcp.json"; render = some (λ ctx. some []) }
      ∷ [];
  env_amendments = [];
  project_dir_arg = [];
  spawn_workdir = λ boot project. boot;
}

abbrev planting : StartOptions
planting = record options { auto_plant_boot_dir = true }

plant_example :
    Prepared {A = ℕ}
      (λ n. some spec)
      (λ n. false)
      (λ boot project n. n)
      planting
      0
      (prepare_plant {A = ℕ}
        (λ n. some spec)
        (λ n. false)
        (λ boot project n. n)
        files
        (codes "run")
        planting
        0)
plant_example =
    prepare_plant-Prepared {A = ℕ} (λ n. some spec) (λ n. false) (λ boot project n. n) planting 0
      files (codes "run")
