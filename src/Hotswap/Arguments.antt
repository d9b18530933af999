-- ===== src/Hotswap/Arguments.antt =====
-- hotswap/patch_injector.c, `main`: the arguments, and the patch in hexadecimal. Characters are
-- their codes. Of the C library, `strtol`, `strtoul` and `sscanf` are parameters.
use living_codebase.Prelude.{
  ◌≡◌, ◌≤◌, ◌<◌, refl, ℕ, zero, suc, ◌+◌, ◌*◌, ◌/◌, ◌%◌, Option, none, some, List, [], ◌∷◌, ◌++◌,
  length, All, ltb, ◌==◌, if◌then◌else◌, arith,
}
use living_codebase.Prelude.Int.{ℤ, pos}
use living_codebase.Ptrace.{Ptrace}
use living_codebase.Hotswap.{inject_patch}

-- `sscanf(…, "%2x", &byte)` is none where it does not match; `byte` is then what the variable
-- happens to hold in the round.
pub record Libc : Type 0 where
  pub strtol : List ℕ → ℕ
  pub strtoul : List ℕ → ℕ
  pub sscanf : List ℕ → Option ℕ
  pub indeterminate : ℕ → ℕ

abbrev value_or : Option ℕ → ℕ → ℕ
value_or none d = d
value_or (some v) d = v

abbrev after_two : List ℕ → List ℕ
after_two (x ∷ y ∷ rest) = rest
after_two xs = []

module _ (libc : Libc) where
  -- The loop over `len` bytes, from the i-th on.
  unfoldable pub decode : ℕ → ℕ → List ℕ → List ℕ
  decode zero i raw_hex = []
  decode (suc len) i raw_hex =
      value_or (libc.sscanf raw_hex) (libc.indeterminate i) % 256
      ∷ decode len (suc i) (after_two raw_hex)

-- The processes, by their PIDs.
abbrev pub World : Type 0 → Type 0
World Target = ℕ → Target

abbrev pub put_process : {Target : Type 0} → ℕ → Target → World Target → World Target
put_process pid t world q = if pid == q then t else world q

module _ {Target : Type 0} (p : Ptrace Target) (libc : Libc) where
  unfoldable pub main : List (List ℕ) → World Target → ℤ × World Target
  unfolding decode
  main (program ∷ pid ∷ fault_addr ∷ raw_hex ∷ rest) world =
      let r =
        inject_patch p
          (record {
            fault_addr = libc.strtoul fault_addr;
            patch_code = decode libc (length raw_hex / 2) 0 raw_hex;
          })
          (world (libc.strtol pid)) in
      (r.0, put_process (libc.strtol pid) r.1 world)
  main _ world = (pos 1, world)

-- The digits `0` to `9` and `a` to `f`
abbrev pub hex_digit : ℕ → ℕ
hex_digit d = if ltb d 10 then 48 + d else 87 + d

abbrev pub hex_of : List ℕ → List ℕ
hex_of [] = []
hex_of (b ∷ bs) = hex_digit (b / 16) ∷ hex_digit (b % 16) ∷ hex_of bs

-- What the C standard says of `%2x` before two digits.
abbrev pub ReadsHex : Libc → Type 0
ReadsHex libc =
    (a b : ℕ) (rest : List ℕ)
    → a < 16
    → b < 16
    → libc.sscanf (hex_digit a ∷ hex_digit b ∷ rest) ≡ some (16 * a + b)

length-hex_of : (bs tail : List ℕ) → length (hex_of bs ++ tail) ≡ 2 * length bs + length tail
length-hex_of [] tail = omega arith
length-hex_of (b ∷ bs) tail = omega (arith, length-hex_of bs tail)

module _ (libc : Libc) (reads : ReadsHex libc) where
  decode-hex_of :
      (bs tail : List ℕ) (i : ℕ)
      → All (λ b. b < 256) bs
      → decode libc (length bs) i (hex_of bs ++ tail) ≡ bs
  unfolding decode
  decode-hex_of [] tail i h = refl
  decode-hex_of (b ∷ bs) tail i (h, hs) =
      rw
        (
          reads (b / 16) (b % 16) (hex_of bs ++ tail) (omega arith) (omega arith),
          whole,
          decode-hex_of bs tail (suc i) hs,
        )
        refl
    where
      whole : (16 * (b / 16) + b % 16) % 256 ≡ b
      whole = omega (arith, h)

  -- With a `sscanf` that reads two hexadecimal digits as their number: called with the digits of a
  -- patch, two for each byte, `main` injects just that patch, into the process and at the address
  -- of its arguments, and touches no other process; a single digit too much is ignored, as are
  -- further arguments.
  pub main_lem :
      {Target : Type 0} (p : Ptrace Target) (program pid fault_addr patch tail : List ℕ)
      (rest : List (List ℕ)) (world : World Target)
      → All (λ b. b < 256) patch
      → length tail ≤ 1
      → let r =
          inject_patch p
            (record { fault_addr = libc.strtoul fault_addr; patch_code = patch })
            (world (libc.strtol pid)) in
        main p libc (program ∷ pid ∷ fault_addr ∷ (hex_of patch ++ tail) ∷ rest) world
        ≡ (r.0, put_process (libc.strtol pid) r.1 world)
  unfolding main
  main_lem p program pid fault_addr patch tail rest world h k =
      rw (half, decode-hex_of patch tail 0 h) refl
    where
      half : length (hex_of patch ++ tail) / 2 ≡ length patch
      half = omega (arith, length-hex_of patch tail, k)
