-- ===== src/Injector.antt =====
-- daemon/src/injector.rs, `hot_swap_patch` on Linux: the calls of ptrace that map a page in the
-- target, copy the patch there, and write a jump to it over the faulty function. A `u64` is a
-- number; the target stands for the process of the PID.
pub mod Writes
pub mod Mapping
pub mod Jump
pub mod Swapped
pub mod Frozen
use living_codebase.Prelude.{
  ℕ, zero, suc, ◌+◌, ◌-◌, ◌*◌, ◌/◌, ◌%◌, min, Option, none, some, List, [], ◌∷◌, length, ltb,
  if◌then◌else◌,
}
use living_codebase.Words.{byte, word}
use living_codebase.Ptrace.{Regs, Ptrace}

-- `io::ErrorKind`
pub data ErrorKind : Type 0 where
  permission_denied other : ErrorKind

pub data IoResult (A : Type 0) : Type 0 where
  ok : A → IoResult A
  err : ErrorKind → IoResult A

-- `patch_bytes[i]`; the loop stays within the slice.
abbrev pub get_or : List ℕ → ℕ → ℕ → ℕ
get_or [] i d = d
get_or (x ∷ xs) zero d = x
get_or (x ∷ xs) (suc i) d = get_or xs i d

-- The registers that ask for the mapping.
unfoldable pub mmap_regs : Regs → ℕ → Regs
mmap_regs regs patch_size = record regs {
  rax = 9;
  rdi = 0;
  rsi = patch_size;
  rdx = 7;
  r10 = 34;
  r8 = 18446744073709551615;
  r9 = 0;
}

-- Sums and differences of `u64` and `i64` wrap around, as in a release build.
abbrev pub u64 : ℕ → ℕ
u64 n = n % 18446744073709551616

-- `chunk`: zeros, overwritten by at most eight bytes of the patch from `i` on
unfoldable pub chunk : List ℕ → ℕ → ℕ
unfolding word
chunk patch_bytes i =
    word 8 (λ j. if ltb j (min 8 (length patch_bytes - i)) then get_or patch_bytes (i + j) 0 else 0)

-- `relative_offset as i32`, as its bit pattern: the difference of the addresses less 5, modulo 2^32
unfoldable pub relative_offset : ℕ → ℕ → ℕ
relative_offset allocated_addr fault_addr =
    u64 (allocated_addr + 18446744073709551616 - fault_addr + 18446744073709551616 - 5) % 4294967296

-- `jmp_instruction`: the opcode, the offset, and three bytes of the original word
unfoldable pub jmp_byte : ℕ → ℕ → ℕ → ℕ
unfolding byte
jmp_byte offset original_word zero = 233
jmp_byte offset original_word (suc i) =
    if ltb i 4 then byte offset i else byte original_word (suc i)

unfoldable pub jmp_val : ℕ → ℕ → ℕ
unfolding word jmp_byte
jmp_val offset original_word = word 8 (jmp_byte offset original_word)

-- A call that fails returns the error, and leaves the target where it was.
abbrev pub M : Type 0 → Type 0 → Type 0
M Target A = Target → IoResult A × Target

module _ {Target : Type 0} where
  abbrev pub continue :
      {A B : Type 0} → (A → M Target B) → IoResult A → Target → IoResult B × Target
  continue f (ok a) t = f a t
  continue f (err e) t = (err e, t)

  infixl 5 ◌>>=◌ ◌>>◌
  abbrev pub ◌>>=◌ : {A B : Type 0} → M Target A → (A → M Target B) → M Target B
  ◌>>=◌ m f t = let r = m t in continue f r.0 r.1

  abbrev pub ◌>>◌ : {B : Type 0} → M Target (Unit {0}) → M Target B → M Target B
  m >> k = m >>= λ _. k

  abbrev pub value_or : {A : Type 0} → Option A → Target → IoResult A × Target
  value_or none t = (err other, t)
  value_or (some a) t = (ok a, t)

  abbrev pub target_or : ErrorKind → Option Target → Target → IoResult (Unit {0}) × Target
  target_or e none t = (err e, t)
  target_or e (some t') t = (ok tt, t')

  -- A call with a value, and one that changes the target, with `map_err` and `?`.
  abbrev pub get : {A : Type 0} → (Target → Option A) → M Target A
  get call t = value_or (call t) t

  abbrev pub perform : ErrorKind → (Target → Option Target) → M Target (Unit {0})
  perform e call t = target_or e (call t) t

module _ {Target : Type 0} (p : Ptrace Target) where
  -- `for i in (0..patch_size).step_by(8)`, for the rounds left
  unfoldable pub write_patch : ℕ → ℕ → ℕ → List ℕ → M Target (Unit {0})
  write_patch zero i allocated_addr patch_bytes t = (ok tt, t)
  write_patch (suc rounds) i allocated_addr patch_bytes t =
      let rest = write_patch rounds (i + 8) allocated_addr patch_bytes in
      (perform other (p.write (u64 (allocated_addr + i)) (chunk patch_bytes i)) >> rest) t

  -- From the saving of the registers to the restoring of the instruction: the saved registers and
  -- the allocated address.
  unfoldable pub remote_mmap : ℕ → M Target (Regs × ℕ)
  remote_mmap patch_size = do
    saved_regs ← get p.getregs
    original_instr ← get (p.read saved_regs.rip)
    perform other (p.write saved_regs.rip 1295)
    perform other (p.setregs (mmap_regs saved_regs patch_size))
    perform other p.step
    perform other p.wait
    new_regs ← get p.getregs
    perform other (p.write saved_regs.rip original_instr)
    λ t. (ok (saved_regs, new_regs.rax), t)

  -- The jump over the faulty function.
  unfoldable pub redirect : ℕ → ℕ → M Target (Unit {0})
  redirect fault_addr allocated_addr = do
    original_word ← get (p.read fault_addr)
    perform other
        (p.write fault_addr (jmp_val (relative_offset allocated_addr fault_addr) original_word))

  unfoldable pub hot_swap_patch : ℕ → List ℕ → M Target (Unit {0})
  unfolding remote_mmap write_patch redirect
  hot_swap_patch fault_addr patch_bytes = do
    perform permission_denied p.attach
    perform other p.wait
    r ← remote_mmap (length patch_bytes)
    write_patch ((length patch_bytes + 7) / 8) 0 r.1 patch_bytes
    redirect fault_addr r.1
    perform other (p.setregs r.0)
    perform other p.detach
