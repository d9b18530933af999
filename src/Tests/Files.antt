-- ===== src/Tests/Files.antt =====
-- The baseline generator with small tools.
use living_codebase.Prelude.{
  ◌≡◌, ◌≢◌, refl, String, true, false, some, none, List, [], ◌∷◌, if◌then◌else◌, str_eq,
}
use living_codebase.Baseline.{
  Files, text, unreadable, GoldenPath, Tools, put_file, db_path, generate_mock_baseline,
  parse_klee_paths, run_baseline,
}
use living_codebase.Baseline.Stored.{
  Of, readable, parse_klee_paths_lem, run_baseline_without_tools, run_baseline_ignores_clang,
}

abbrev ids : List GoldenPath → String
ids [] = "no paths"
ids (g ∷ gs) = g.id

abbrev not_installed : Tools
not_installed = record {
  clang = λ source bitcode files. (false, files);
  klee = λ bitcode dir time files. (false, files);
  glob_paths = λ dir files. "a.path" ∷ "b.path" ∷ [];
  stem = λ p. p;
  dump = ids;
}

abbrev klee_only : Tools
klee_only = record not_installed {
  klee = λ bitcode dir time files. (true, put_file "a.path" "(p)" files);
}

-- A source and the bitcode of an earlier build, and one path that cannot be read.
abbrev built : Files
built =
    put_file "service.c" "int main;"
      (put_file "service.bc" "old" (λ p. if str_eq p "b.path" then some unreadable else none))

parse_klee_paths_lem_example :
    Of klee_only built
      (readable ("a.path" ∷ "b.path" ∷ []) built)
      (parse_klee_paths klee_only "klee-out" built)
parse_klee_paths_lem_example = parse_klee_paths_lem klee_only "klee-out" built

run_baseline_without_tools_example :
    (run_baseline not_installed "service" built db_path ≡ some (text (ids generate_mock_baseline)))
    × ((p : String) → p ≢ db_path → run_baseline not_installed "service" built p ≡ built p)
run_baseline_without_tools_example =
    run_baseline_without_tools not_installed (λ source bitcode files. refl)
      (λ bitcode dir time files. refl) "service" built

run_baseline_ignores_clang_example :
    run_baseline
      (record klee_only { clang = λ source bitcode files. (true, files) })
      "service"
      built
    ≡ run_baseline klee_only "service" built
run_baseline_ignores_clang_example =
    run_baseline_ignores_clang klee_only (λ source bitcode files. (true, files))
      (λ source bitcode files. refl) "service" built
