-- ===== src/Boot/Planting.antt =====
-- preparePlant of agentsessions/bootdir_planting.go.
use go_agent_sessions.Prelude.{
  ℕ, Bool, not, ◌&&◌, Option, none, some, List, [], ◌∷◌, ◌++◌, if◌then◌else◌,
}
use go_agent_sessions.Prelude.Texts.{Bytes, codes, is_blank}
use go_agent_sessions.Spawn.Options.{StartOptions, PlantContext}
use go_agent_sessions.Boot.Texts.{
  sanitize_boot_dir_id, planted_file_mode, substitute_templates, substitute_arg_tokens,
}

-- provider.PlantedFile; Render may be missing, and may fail.
pub record PlantedFile : Type 0 where
  pub rel_path : Bytes
  pub render : Option (PlantContext → Option Bytes)

-- provider.BootDirSpec, with SpawnWorkdir as a function of the planted and the project directory.
pub record BootDirSpec : Type 0 where
  pub planted_files : List PlantedFile
  pub env_amendments : List Bytes
  pub project_dir_arg : Bytes
  pub spawn_workdir : Bytes → Bytes → Bytes

-- What is done to the file system.
pub data FileStep : Type 0 where
  make_dir make_temp remove_all : Bytes → FileStep
  write_file : Bytes → Bytes → ℕ → FileStep

-- The answers of the file system: os.MkdirAll and os.WriteFile by their path, os.MkdirTemp by its
-- root and pattern, os.TempDir, and filepath.Join and filepath.Dir.
pub record Files : Type 0 where
  pub mkdir_ok : Bytes → Bool
  pub write_ok : Bytes → Bool
  pub mkdir_temp : Bytes → Bytes → Option Bytes
  pub temp_dir : Bytes
  pub join : Bytes → Bytes → Bytes
  pub dir : Bytes → Bytes

pub data PlantError : Type 0 where
  root_error temp_error : PlantError
  mkdir_error render_error write_error : Bytes → PlantError

-- What preparePlant returns; `boot_dir` is empty where nothing has been planted.
pub record Planted {ℓ} (A : Type ℓ) : Type ℓ where
  pub boot_dir : Bytes
  pub options : StartOptions
  pub adapter : A
  pub error : Option PlantError
  pub steps : List FileStep

-- resolveBootDirRoot: the root and what is done, or its error.
unfoldable pub resolve_boot_dir_root : Files → Bytes → Bytes → Option Bytes × List FileStep
resolve_boot_dir_root fs explicit workspace_dir =
    if is_blank explicit && is_blank workspace_dir
    then (some fs.temp_dir, [])
    else (let root = if is_blank explicit then fs.join workspace_dir (codes "boot") else explicit in
        if fs.mkdir_ok root then (some root, make_dir root ∷ []) else (none, []))

-- One planted file, under the directory: what is done, and the error.
unfoldable pub plant_file :
    Files → Bytes → PlantContext → PlantedFile → List FileStep × Option PlantError
plant_file fs dir ctx pf =
    let path = fs.join dir pf.rel_path in
    let made = make_dir (fs.dir path) ∷ [] in
    if not (fs.mkdir_ok (fs.dir path))
    then ([], some (mkdir_error pf.rel_path))
    else elim pf.render [
      | none ↦ (made, none)
      | some render ↦ elim (render ctx) [
        | none ↦ (made, some (render_error pf.rel_path))
        | some content ↦
            if fs.write_ok path
            then (made ++ write_file path content (planted_file_mode pf.rel_path) ∷ [], none)
            else (made, some (write_error pf.rel_path))
      ]
    ]

-- The loop: after an error the directory is removed.
unfoldable pub plant_files :
    Files → Bytes → PlantContext → List PlantedFile → List FileStep × Option PlantError
unfolding plant_file
plant_files fs dir ctx [] = ([], none)
plant_files fs dir ctx (pf ∷ pfs) =
    let rest = plant_files fs dir ctx pfs in
    let r = plant_file fs dir ctx pf in
    elim r.1 [ some e ↦ (r.0 ++ remove_all dir ∷ [], some e) | none ↦ (r.0 ++ rest.0, rest.1) ]

-- opts.PlantContext with its four fields set; the boot content falls back to the boot prompt.
unfoldable pub plant_context_of : StartOptions → Bytes → PlantContext
plant_context_of opts dir = record opts.plant_context {
  system_prompt = opts.boot_prompt;
  boot_content = if is_blank opts.boot_content then opts.boot_prompt else opts.boot_content;
  project_dir = opts.workdir;
  boot_dir = dir;
}

module _ {ℓ} {A : Type ℓ} (boot_dir_spec : A → Option BootDirSpec) (is_bare : A → Bool)
    (inject : Bytes → Bytes → A → A) where
  -- applyBareInjection: `is_bare` is a ClaudeAdapter with Bare, `inject` its copy with the planted
  -- paths.
  unfoldable pub apply_bare_injection : A → Bytes → Bytes → List Bytes → A × List Bytes
  apply_bare_injection adapter boot_dir project_dir arg =
      if is_bare adapter then (inject boot_dir project_dir adapter, []) else (adapter, arg)

  unfoldable pub unplanted : StartOptions → A → Option PlantError → List FileStep → Planted A
  unplanted opts adapter e steps = record {
    boot_dir = [];
    options = opts;
    adapter = adapter;
    error = e;
    steps = steps;
  }

  -- The options and the adapter for the planted directory.
  unfoldable pub rewire : StartOptions → A → BootDirSpec → Bytes → List FileStep → Planted A
  unfolding apply_bare_injection substitute_templates substitute_arg_tokens
  rewire opts adapter spec dir steps =
      let amendments = substitute_templates spec.env_amendments dir opts.workdir in
      let injected =
        apply_bare_injection adapter dir opts.workdir
          (substitute_arg_tokens spec.project_dir_arg dir opts.workdir) in
      record {
        boot_dir = dir;
        options = record opts {
          workdir = spec.spawn_workdir dir opts.workdir;
          env = opts.env ++ amendments;
          extra_args = opts.extra_args ++ injected.1;
        };
        adapter = injected.0;
        error = none;
        steps = steps;
      }

  unfoldable pub planted_stage :
      StartOptions
      → A
      → BootDirSpec
      → Bytes
      → List FileStep
      → List FileStep × Option PlantError
      → Planted A
  unfolding unplanted rewire
  planted_stage opts adapter spec dir before (steps, some e) =
      unplanted opts adapter (some e) (before ++ make_temp dir ∷ steps)
  planted_stage opts adapter spec dir before (steps, none) =
      rewire opts adapter spec dir (before ++ make_temp dir ∷ steps)

  unfoldable pub root_stage :
      Files → Bytes → StartOptions → A → BootDirSpec → Option Bytes × List FileStep → Planted A
  unfolding unplanted planted_stage plant_files plant_context_of sanitize_boot_dir_id
  root_stage fs runtime_id opts adapter spec (none, before) =
      unplanted opts adapter (some root_error) before
  root_stage fs runtime_id opts adapter spec (some root, before) =
      elim (fs.mkdir_temp root
        (codes "agent-sessions-boot-" ++ sanitize_boot_dir_id runtime_id ++ codes "-*")) [
          | none ↦ unplanted opts adapter (some temp_error) before
          | some dir ↦
              planted_stage opts adapter spec dir before
                (plant_files fs dir (plant_context_of opts dir) spec.planted_files)
        ]

  -- preparePlant
  unfoldable pub prepare_plant : Files → Bytes → StartOptions → A → Planted A
  unfolding unplanted root_stage resolve_boot_dir_root
  prepare_plant fs runtime_id opts adapter =
      if not opts.auto_plant_boot_dir
      then unplanted opts adapter none []
      else elim (boot_dir_spec adapter) [
        | none ↦ unplanted opts adapter none []
        | some spec ↦
            if is_blank spec.planted_files
            then unplanted opts adapter none []
            else root_stage fs runtime_id opts adapter spec
                (resolve_boot_dir_root fs opts.boot_dir_root opts.workspace_dir)
      ]

-- cleanupBootDir
unfoldable pub cleanup_boot_dir : Bytes → List FileStep
cleanup_boot_dir boot_dir = if is_blank boot_dir then [] else remove_all boot_dir ∷ []
