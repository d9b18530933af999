-- ===== src/Baseline/Stored.antt =====
-- Which baseline a run stores.
use Prim.Native.String.{◌++◌}
use living_codebase.Prelude.{
  ◌≡◌, ◌≢◌, refl, ℕ, String, Bool, true, false, Option, some, List, [], ◌∷◌, if◌then◌else◌, str_eq,
  eq_iff, Option-cases, inl, inr, Bool-cases, sym,
}
use living_codebase.Baseline.{
  File, text, unreadable, Files, exists, GoldenPath, Tools, db_path, generate_mock_baseline,
  generate_klee_bc, parse_paths, parse_klee_paths, run_klee, store_baseline, run_baseline,
}

-- The files of a list that can be read.
abbrev keep_readable : String → Option File → List String → List String
keep_readable p (some (text t)) ps = p ∷ ps
keep_readable p _ ps = ps

unfoldable pub readable : List String → Files → List String
readable [] files = []
readable (p ∷ ps) files = keep_readable p (files p) (readable ps files)

abbrev pub Of : Tools → Files → List String → List GoldenPath → Type 0
Of tools files [] [] = Unit
Of tools files (p ∷ ps) (g ∷ gs) =
    (files p ≡ some (text g.constraints))
    × (g.id ≡ tools.stem p)
    × (g.status ≡ "VALID_PATH")
    × Of tools files ps gs
Of tools files _ _ = ⊥

if_same {ℓ} : {A : Type ℓ} (b : Bool) (x : A) → (if b then x else x) ≡ x
if_same true x = refl
if_same false x = refl

str_eq-other : (s t : String) → s ≢ t → str_eq s t ≡ false
str_eq-other s t h = elim (Bool-cases (str_eq s t)) [
  | inl e ↦ absurd (h ((eq_iff s t).0 e))
  | inr e ↦ e
]

module _ (tools : Tools) where
  parse_paths_lem :
      (ps : List String) (files : Files)
      → Of tools files (readable ps files) (parse_paths tools ps files)
  unfolding parse_paths readable
  parse_paths_lem [] files = tt
  parse_paths_lem (p ∷ ps) files = elim (Option-cases (files p)) [
    | inl e ↦ rw e (parse_paths_lem ps files)
    | inr (text t, e) ↦ rw e (e, refl, refl, parse_paths_lem ps files)
    | inr (unreadable, e) ↦ rw e (parse_paths_lem ps files)
  ]

  -- The parsed paths are the `.path` files of the directory that can be read, in the order of the
  -- listing: each with its stem, its whole text and the status VALID_PATH.
  pub parse_klee_paths_lem :
      (klee_dir : String) (files : Files)
      → Of tools files
          (readable (tools.glob_paths klee_dir files) files)
          (parse_klee_paths tools klee_dir files)
  unfolding parse_klee_paths
  parse_klee_paths_lem klee_dir files = parse_paths_lem (tools.glob_paths klee_dir files) files

  generate_klee_bc_without :
      ((source bitcode : String) (files : Files)
        → tools.clang source bitcode files ≡ (false, files))
      → (binary : String) (files : Files) → generate_klee_bc tools binary files ≡ (false, files)
  unfolding generate_klee_bc
  generate_klee_bc_without no_clang binary files =
      rw (no_clang (binary ++ ".c") (binary ++ ".bc") files)
        (if_same (exists (files (binary ++ ".c"))) (false, files))

  run_klee_without :
      ((bitcode dir : String) (time : ℕ) (files : Files)
        → tools.klee bitcode dir time files ≡ (false, files))
      → (binary : String) (time : ℕ) (files : Files)
      → run_klee tools binary time files ≡ (generate_mock_baseline, files)
  unfolding run_klee
  run_klee_without no_klee binary time files =
      rw (no_klee (binary ++ ".bc") "klee-out" time files)
        (if_same (exists (files (binary ++ ".bc"))) (generate_mock_baseline, files))

  -- Where clang and KLEE cannot be run and change nothing, a run stores the mock baseline in
  -- golden_paths.json, whatever files exist, and every other file stays.
  pub run_baseline_without_tools :
      ((source bitcode : String) (files : Files)
        → tools.clang source bitcode files ≡ (false, files))
      → ((bitcode dir : String) (time : ℕ) (files : Files)
          → tools.klee bitcode dir time files ≡ (false, files))
      → (binary : String) (files : Files)
      → (run_baseline tools binary files db_path ≡ some (text (tools.dump generate_mock_baseline)))
        × ((p : String) → p ≢ db_path → run_baseline tools binary files p ≡ files p)
  unfolding run_baseline store_baseline
  run_baseline_without_tools no_clang no_klee binary files =
      rw (generate_klee_bc_without no_clang binary files, run_klee_without no_klee binary 300 files)
        (refl, λ p h. rw (str_eq-other db_path p (λ e. h (sym e))) refl)

  module _ (clang' : String → String → Files → Bool × Files) where
    parse_paths-clang :
        (ps : List String) (files : Files)
        → parse_paths (record tools { clang = clang' }) ps files ≡ parse_paths tools ps files
    unfolding parse_paths
    parse_paths-clang [] files = refl
    parse_paths-clang (p ∷ ps) files = rw (parse_paths-clang ps files) refl

    -- The main program does not look at whether the compilation succeeded: with a clang that leaves
    -- the same files and reports otherwise, a run leaves the same files, whatever was there and
    -- whatever KLEE does.
    pub run_baseline_ignores_clang :
        ((source bitcode : String) (files : Files)
          → (clang' source bitcode files).1 ≡ (tools.clang source bitcode files).1)
        → (binary : String) (files : Files)
        → run_baseline (record tools { clang = clang' }) binary files
          ≡ run_baseline tools binary files
    unfolding run_baseline generate_klee_bc run_klee store_baseline parse_klee_paths
    run_baseline_ignores_clang same binary files =
        elim (Bool-cases (exists (files (binary ++ ".c")))) [
          | inl e ↦
              rw (e, same (binary ++ ".c") (binary ++ ".bc") files)
                (same_stored (tools.clang (binary ++ ".c") (binary ++ ".bc") files).1)
          | inr e ↦ rw e (same_stored files)
        ]
      where
        same_stored :
            (files : Files)
            → (let (paths, files') = run_klee (record tools { clang = clang' }) binary 300 files in
                store_baseline (record tools { clang = clang' }) paths files')
              ≡ (let (paths, files') = run_klee tools binary 300 files in
                  store_baseline tools paths files')
        same_stored files =
            let after = (tools.klee (binary ++ ".bc") "klee-out" 300 files).1 in
            rw (parse_paths-clang (tools.glob_paths "klee-out" after) after) refl
