-- ===== src/Boot/Cleaning.antt =====
-- What preparePlant (agentsessions/bootdir_planting.go) leaves on every branch.
use go_agent_sessions.Prelude.{
  false, true, subst, sym, arith, Bool-cases, Bool, not, ◌&&◌, Option, none, some, List, [], ◌∷◌,
  ◌++◌, if◌then◌else◌, ◌≡◌, refl, ap, ◌∙◌, inl, inr, ◌⊎◌, if-elim, Option-elim, ◌==◌,
}
use go_agent_sessions.Prelude.Texts.{Bytes, codes, is_blank, same_bytes_refl, bytes_eq}
use go_agent_sessions.Spawn.Options.{StartOptions, PlantContext}
use go_agent_sessions.Boot.Texts.{sanitize_boot_dir_id}
use go_agent_sessions.Boot.Planting.{
  PlantedFile, BootDirSpec, FileStep, make_dir, make_temp, remove_all, write_file, Files,
  PlantError, Planted, resolve_boot_dir_root, plant_file, plant_files, plant_context_of, unplanted,
  rewire, planted_stage, root_stage, prepare_plant,
}

-- The temporary directory that is left after some steps.
abbrev pub temp_left : Option Bytes → List FileStep → Option Bytes
temp_left t [] = t
temp_left t (make_dir p ∷ xs) = temp_left t xs
temp_left t (make_temp d ∷ xs) = temp_left (some d) xs
temp_left t (remove_all d ∷ xs) =
    temp_left (elim t [ none ↦ none | some e ↦ if d == e then none else some e ]) xs
temp_left t (write_file p c m ∷ xs) = temp_left t xs

temp_left-append :
    (t : Option Bytes) (xs ys : List FileStep)
    → temp_left t (xs ++ ys) ≡ temp_left (temp_left t xs) ys
temp_left-append t [] ys = refl
temp_left-append t (make_dir p ∷ xs) ys = temp_left-append t xs ys
temp_left-append t (make_temp d ∷ xs) ys = temp_left-append (some d) xs ys
temp_left-append t (remove_all d ∷ xs) ys =
    temp_left-append (elim t [ none ↦ none | some e ↦ if d == e then none else some e ]) xs ys
temp_left-append t (write_file p c m ∷ xs) ys = temp_left-append t xs ys

abbrev Keeps : Option Bytes → List FileStep × Option PlantError → Type 0
Keeps t r = temp_left t r.0 ≡ t

plant_file-Keeps :
    (t : Option Bytes) (fs : Files) (dir : Bytes) (ctx : PlantContext) (pf : PlantedFile)
    → Keeps t (plant_file fs dir ctx pf)
unfolding plant_file
plant_file-Keeps t fs dir ctx pf =
    let path = fs.join dir pf.rel_path in
    if-elim (Keeps t) (not (fs.mkdir_ok (fs.dir path))) (λ e. refl)
      (λ e. Option-elim (Keeps t) pf.render refl (λ render.
        Option-elim (Keeps t) (render ctx) refl
          (λ content. if-elim (Keeps t) (fs.write_ok path) (λ f. refl) (λ f. refl))))

-- After an error the directory is gone; without one it stands.
abbrev Ended : Bytes → List FileStep × Option PlantError → Type 0
Ended dir r = temp_left (some dir) r.0 ≡ elim r.1 [ none ↦ some dir | some e ↦ none ]

plant_files-Ended :
    (fs : Files) (dir : Bytes) (ctx : PlantContext) (pfs : List PlantedFile)
    → Ended dir (plant_files fs dir ctx pfs)
unfolding plant_files
plant_files-Ended fs dir ctx [] = refl
plant_files-Ended fs dir ctx (pf ∷ pfs) =
    let r = plant_file fs dir ctx pf in
    let k = plant_file-Keeps (some dir) fs dir ctx pf in
    Option-elim (Ended dir) r.1
      (temp_left-append (some dir) r.0 (plant_files fs dir ctx pfs).0
        ∙ ap (λ t. temp_left t (plant_files fs dir ctx pfs).0) k
        ∙ plant_files-Ended fs dir ctx pfs)
      (λ e.
        temp_left-append (some dir) r.0 (remove_all dir ∷ [])
        ∙ ap (λ t. temp_left t (remove_all dir ∷ [])) k
        ∙ ap (λ b. if b then none else some dir) (same_bytes_refl dir))

module _ {ℓ} {A : Type ℓ} (boot_dir_spec : A → Option BootDirSpec) (is_bare : A → Bool)
    (inject : Bytes → Bytes → A → A) (opts : StartOptions) (adapter : A) where
  -- Nothing has changed.
  abbrev pub Untouched : Planted A → Type ℓ
  Untouched r =
      (r.boot_dir ≡ [])
      × (r.options ≡ opts)
      × (r.adapter ≡ adapter)
      × (temp_left none r.steps ≡ none)

  -- Is a directory to be planted?
  abbrev pub wants_plant : Bool
  wants_plant = opts.auto_plant_boot_dir && elim (boot_dir_spec adapter) [
    | none ↦ false
    | some spec ↦ not (is_blank spec.planted_files)
  ]

  -- A directory is left where one is to be planted and nothing fails.
  abbrev pub Prepared : Planted A → Type ℓ
  Prepared r = elim r.error [
    | none ↦
        ((wants_plant ≡ false) × Untouched r)
        ⊎ ((wants_plant ≡ true) × (temp_left none r.steps ≡ some r.boot_dir))
    | some e ↦ (wants_plant ≡ true) × Untouched r
  ]

  planted-Prepared :
      (spec : BootDirSpec) (dir : Bytes) (before : List FileStep)
      (r : List FileStep × Option PlantError)
      → wants_plant ≡ true
      → temp_left none before ≡ none
      → Ended dir r
      → Prepared (planted_stage boot_dir_spec is_bare inject opts adapter spec dir before r)
  unfolding planted_stage unplanted rewire
  planted-Prepared spec dir before (steps, some e) w b v =
      (w, (refl, refl, refl, temp_left-append none before (make_temp dir ∷ steps) ∙ v))
  planted-Prepared spec dir before (steps, none) w b v =
      inr (w, temp_left-append none before (make_temp dir ∷ steps) ∙ v)

  root-Prepared :
      (fs : Files) (runtime_id : Bytes) (spec : BootDirSpec) (r : Option Bytes × List FileStep)
      → wants_plant ≡ true
      → temp_left none r.1 ≡ none
      → Prepared (root_stage boot_dir_spec is_bare inject fs runtime_id opts adapter spec r)
  unfolding root_stage unplanted
  root-Prepared fs runtime_id spec (none, before) w b = (w, (refl, refl, refl, b))
  root-Prepared fs runtime_id spec (some root, before) w b =
      Option-elim Prepared
        (fs.mkdir_temp root
          (codes "agent-sessions-boot-" ++ sanitize_boot_dir_id runtime_id ++ codes "-*"))
        (w, (refl, refl, refl, b))
        (λ dir.
          planted-Prepared spec dir before
            (plant_files fs dir (plant_context_of opts dir) spec.planted_files) w b
            (plant_files-Ended fs dir (plant_context_of opts dir) spec.planted_files))

  root_steps :
      (fs : Files) (explicit workspace_dir : Bytes)
      → temp_left none (resolve_boot_dir_root fs explicit workspace_dir).1 ≡ none
  unfolding resolve_boot_dir_root
  root_steps fs explicit workspace_dir =
      let Clean : Option Bytes × List FileStep → Type 0 = λ r. temp_left none r.1 ≡ none in
      if-elim Clean (is_blank explicit && is_blank workspace_dir) (λ e. refl)
        (λ e.
          if-elim Clean
            (fs.mkdir_ok
              (if is_blank explicit then fs.join workspace_dir (codes "boot") else explicit))
            (λ f. refl) (λ f. refl))

  -- preparePlant with nothing to plant.
  Bare : Planted A
  Bare = unplanted boot_dir_spec is_bare inject opts adapter none []

  Bare-Prepared : wants_plant ≡ false → Prepared Bare
  unfolding Bare unplanted
  Bare-Prepared e = inl (e, (refl, refl, refl, refl))

  bare :
      (fs : Files) (runtime_id : Bytes)
      → wants_plant ≡ false
      → prepare_plant boot_dir_spec is_bare inject fs runtime_id opts adapter ≡ Bare
  unfolding prepare_plant Bare
  bare fs runtime_id e = ground (arith, e)

  -- preparePlant: where AutoPlantBootDir is not set or the adapter names no files to plant, it
  -- changes nothing; where it fails, the options and the adapter are the caller's, no directory is
  -- reported, and no temporary directory is left; otherwise the temporary directory that it reports
  -- is there.
  pub prepare_plant-Prepared :
      (fs : Files) (runtime_id : Bytes)
      → Prepared (prepare_plant boot_dir_spec is_bare inject fs runtime_id opts adapter)
  unfolding prepare_plant Bare
  prepare_plant-Prepared fs runtime_id = elim (Bool-cases wants_plant) [
    | inr e ↦ subst Prepared (sym (bare fs runtime_id e)) (Bare-Prepared e)
    | inl w ↦
        if-elim Prepared (not opts.auto_plant_boot_dir) (λ e. absurd (ground (arith, w, e)))
          (λ e.
            elim (boot_dir_spec adapter)
                as (λ (o : Option BootDirSpec).
                  boot_dir_spec adapter ≡ o
                  → Prepared (elim o [
                    | none ↦ Bare
                    | some spec ↦
                        if is_blank spec.planted_files
                        then Bare
                        else root_stage boot_dir_spec is_bare inject fs runtime_id opts adapter spec
                            (resolve_boot_dir_root fs opts.boot_dir_root opts.workspace_dir)
                  ])) [
                    | none ↦ λ f. absurd (ground (arith, w, f))
                    | some spec ↦ λ f.
                        if-elim Prepared (is_blank spec.planted_files)
                          (λ g. absurd (ground (arith, w, f, g)))
                          (λ g.
                            root-Prepared fs runtime_id spec
                              (resolve_boot_dir_root fs opts.boot_dir_root opts.workspace_dir) w
                              (root_steps fs opts.boot_dir_root opts.workspace_dir))
                  ]
              refl)
  ]
