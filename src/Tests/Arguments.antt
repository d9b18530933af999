-- ===== src/Tests/Arguments.antt =====
-- `main` of hotswap/patch_injector.c, called with the arguments of a shell.
use living_codebase.Prelude.{
  ◌≡◌, ◌<◌, refl, ℕ, ◌+◌, ◌-◌, ◌*◌, List, [], ◌∷◌, ◌++◌, Option, none, some, leb, if◌then◌else◌,
  arith,
}
use living_codebase.Hotswap.{inject_patch}
use living_codebase.Hotswap.Arguments.{
  Libc, ReadsHex, World, put_process, main, hex_digit, hex_of, main_lem,
}
use living_codebase.Tests.Machine.{Machine, machine, target}

abbrev digit : ℕ → ℕ
digit c = if leb 97 c then c - 87 else c - 48

abbrev number : ℕ → List ℕ → ℕ
number n [] = n
number n (c ∷ cs) = number (16 * n + digit c) cs

abbrev two_digits : List ℕ → Option ℕ
two_digits (x ∷ y ∷ rest) = some (16 * digit x + digit y)
two_digits _ = none

abbrev small_libc : Libc
small_libc = record {
  strtol = number 0;
  strtoul = number 0;
  sscanf = two_digits;
  indeterminate = λ i. 0;
}

digit-hex_digit : (d : ℕ) → d < 16 → digit (hex_digit d) ≡ d
digit-hex_digit d h = ground arith

small_libc-ReadsHex : ReadsHex small_libc
small_libc-ReadsHex a b rest h k = rw (digit-hex_digit a h, digit-hex_digit b k) refl

-- All processes are alike.
abbrev processes : World Machine
processes pid = target

-- `patch_injector 7 1040 9090c3c`, with a digit too much
main_lem_example :
    let r =
      inject_patch machine
        (record {
          fault_addr = small_libc.strtoul (49 ∷ 48 ∷ 52 ∷ 48 ∷ []);
          patch_code = 144 ∷ 144 ∷ 195 ∷ [];
        })
        target in
    main machine small_libc
      ([]
        ∷ (55 ∷ [])
        ∷ (49 ∷ 48 ∷ 52 ∷ 48 ∷ [])
        ∷ (hex_of (144 ∷ 144 ∷ 195 ∷ []) ++ (99 ∷ []))
        ∷ [])
      processes
    ≡ (r.0, put_process (small_libc.strtol (55 ∷ [])) r.1 processes)
main_lem_example =
    main_lem small_libc small_libc-ReadsHex machine [] (55 ∷ []) (49 ∷ 48 ∷ 52 ∷ 48 ∷ [])
      (144 ∷ 144 ∷ 195 ∷ []) (99 ∷ []) [] processes (omega arith, (omega arith, (omega arith, tt)))
      (omega arith)
