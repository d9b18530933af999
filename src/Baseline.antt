-- ===== src/Baseline.antt =====
-- healing/baseline_generator.py: which execution paths a run stores as the baseline. The files are
-- a function from paths, and `clang`, `klee`, the directory listing, `Path.stem` and `json.dump`
-- are parameters. A write of a file succeeds.
pub mod Stored
use Prim.Native.String.{◌++◌}
use living_codebase.Prelude.{
  ℕ, String, Bool, true, false, Option, none, some, List, [], ◌∷◌, if◌then◌else◌, str_eq,
}

-- What a path holds: a text, or something that `open` and `read` raise an exception for.
pub data File : Type 0 where
  text : String → File
  unreadable : File

abbrev pub Files : Type 0
Files = String → Option File

abbrev pub exists : Option File → Bool
exists none = false
exists (some f) = true

abbrev pub put_file : String → String → Files → Files
put_file path t files p = if str_eq path p then some (text t) else files p

-- An entry of the baseline; KLEE's have no "function".
pub record GoldenPath : Type 0 where
  pub id : String
  pub constraints : String
  pub status : String
  pub function : Option String

-- A tool says whether it ran without an error, and leaves files; an error is the non-zero exit, or
-- that the tool is not installed.
pub record Tools : Type 0 where
  -- source and bitcode file
  pub clang : String → String → Files → Bool × Files
  -- bitcode file, output directory and time
  pub klee : String → String → ℕ → Files → Bool × Files
  pub glob_paths : String → Files → List String
  pub stem : String → String
  pub dump : List GoldenPath → String

-- `generate_mock_baseline`
unfoldable pub generate_mock_baseline : List GoldenPath
generate_mock_baseline =
    record {
      id = "path_0";
      constraints = "(assert (> x 0))\n(assert (< x 100))\n(assert (not (= ptr 0)))";
      status = "VALID_PATH";
      function = some "process_packet";
    }
    ∷ record {
      id = "path_1";
      constraints = "(assert (<= x 0))\n(assert (not (= ptr 0)))";
      status = "VALID_PATH";
      function = some "process_packet";
    }
    ∷ []

abbrev pub db_path : String
db_path = "golden_paths.json"

module _ (tools : Tools) where
  unfoldable pub generate_klee_bc : String → Files → Bool × Files
  generate_klee_bc binary files =
      if exists (files (binary ++ ".c"))
      then tools.clang (binary ++ ".c") (binary ++ ".bc") files
      else (false, files)

  abbrev read_path : String → Option File → List GoldenPath → List GoldenPath
  read_path path (some (text t)) rest =
      record { id = tools.stem path; constraints = t; status = "VALID_PATH"; function = none }
      ∷ rest
  read_path path _ rest = rest

  -- The loop of `parse_klee_paths`: a file that cannot be read is left out.
  unfoldable pub parse_paths : List String → Files → List GoldenPath
  parse_paths [] files = []
  parse_paths (p ∷ ps) files = read_path p (files p) (parse_paths ps files)

  unfoldable pub parse_klee_paths : String → Files → List GoldenPath
  unfolding parse_paths
  parse_klee_paths klee_dir files = parse_paths (tools.glob_paths klee_dir files) files

  unfoldable pub run_klee : String → ℕ → Files → List GoldenPath × Files
  unfolding parse_klee_paths generate_mock_baseline
  run_klee binary max_time files =
      if exists (files (binary ++ ".bc"))
      then (let (ran, files') = tools.klee (binary ++ ".bc") "klee-out" max_time files in
          if ran
          then (parse_klee_paths "klee-out" files', files')
          else (generate_mock_baseline, files'))
      else (generate_mock_baseline, files)

  unfoldable pub store_baseline : List GoldenPath → Files → Files
  store_baseline paths files = put_file db_path (tools.dump paths) files

  -- The main program, for one target.
  unfoldable pub run_baseline : String → Files → Files
  unfolding generate_klee_bc run_klee store_baseline
  run_baseline binary files =
      let (compiled, files₁) = generate_klee_bc binary files in
      let (paths, files₂) = run_klee binary 300 files₁ in store_baseline paths files₂
