-- ===== src/Hotswap.antt =====
-- hotswap/patch_injector.c, `inject_patch` on x86_64 Linux: the same steps as the daemon's injector,
-- with a label where a failed call is undone. A `long` is a number, as its bits; the target stands
-- for the process of the PID.
pub mod Calls
pub mod Mapping
pub mod Steps
pub mod Outcomes
pub mod Arguments
use living_codebase.Prelude.{
  ℕ, zero, suc, ◌+◌, ◌-◌, ◌*◌, ◌/◌, ◌%◌, Bool, ◌||◌, Option, none, some, List, [], ◌∷◌, length, leb,
  ltb, ◌==◌, if◌then◌else◌,
}
use living_codebase.Prelude.Int.{ℤ, pos, negsuc}
use living_codebase.Words.{byte, word}
use living_codebase.Ptrace.{Regs, Ptrace}
use living_codebase.Injector.{
  IoResult, ok, err, other, M, u64, get, perform, ◌>>=◌, ◌>>◌, mmap_regs, chunk, jmp_byte,
}

-- `HotSwapContext`; the size of the patch is the length of the list.
pub record HotSwapContext : Type 0 where
  pub fault_addr : ℕ
  pub patch_code : List ℕ

-- `temp_text`: the saved word, its first bytes overwritten with `syscall_ins`
unfoldable pub temp_byte : ℕ → ℕ → ℕ
unfolding byte
temp_byte saved_text zero = 15
temp_byte saved_text (suc zero) = 5
temp_byte saved_text (suc (suc i)) = byte saved_text (suc (suc i))

unfoldable pub temp_text : ℕ → ℕ
unfolding word temp_byte
temp_text saved_text = word 8 (temp_byte saved_text)

-- `offset`, the difference of the addresses less 5 as a `long`
unfoldable pub jmp_offset : ℕ → ℕ → ℕ
jmp_offset remote_addr fault_addr =
    u64 (remote_addr + 18446744073709551616 - fault_addr + 18446744073709551616 - 5)

-- `target_jmp_word`: 0xE9, the four low bytes of the offset, three bytes of the original word
unfoldable pub target_jmp_word : ℕ → ℕ → ℕ
unfolding word jmp_byte
target_jmp_word offset original_func_word = word 8 (jmp_byte offset original_func_word)

-- A call whose result is not looked at.
abbrev pub or_same : {T : Type 0} → Option T → T → T
or_same none t = t
or_same (some t') t = t'

abbrev pub tried : {T : Type 0} → (T → Option T) → T → T
tried call t = or_same (call t) t

-- A call whose error returns.
abbrev pub or_return : {A R : Type 0} → Option A → R → (A → R) → R
or_return none r k = r
or_return (some a) r k = k a

-- `PTRACE_PEEKTEXT`, which is -1 where it fails
abbrev pub peeked : Option ℕ → ℕ
peeked none = 18446744073709551615
peeked (some w) = w

-- `remote_addr == MAP_FAILED || (long)remote_addr < 0`
unfoldable pub mmap_failed : ℕ → Bool
mmap_failed remote_addr = remote_addr == 18446744073709551615 || leb 9223372036854775808 remote_addr

-- In the steps between the words `syscall` and the restored registers, `err other` is the jump to
-- `restore_and_fail`.
module _ {Target : Type 0} (p : Ptrace Target) where
  -- From `regs.rax = SYS_mmap` to the test of the address.
  unfoldable pub remote_page : Regs → ℕ → M Target ℕ
  unfolding mmap_failed
  remote_page saved_regs patch_size = do
    perform other (p.setregs (mmap_regs saved_regs patch_size))
    perform other p.step
    (λ t. (ok tt, tried p.wait t))
    new_regs ← get p.getregs
    λ t. if mmap_failed new_regs.rax then (err other, t) else (ok new_regs.rax, t)

  -- `for (size_t i = 0; i < ctx->patch_size; i += sizeof(long))`, for the rounds left
  unfoldable pub write_words : ℕ → ℕ → ℕ → List ℕ → M Target (Unit {0})
  write_words zero i remote_addr patch t = (ok tt, t)
  write_words (suc rounds) i remote_addr patch t =
      let rest = write_words rounds (i + 8) remote_addr patch in
      (perform other (p.write (u64 (remote_addr + i)) (chunk patch i)) >> rest) t

  -- The jump over the entry of the function.
  unfoldable pub write_jump : ℕ → ℕ → M Target (Unit {0})
  unfolding jmp_offset target_jmp_word
  write_jump fault_addr remote_addr t =
      let original_func_word = peeked (p.read fault_addr t) in
      perform other
        (p.write fault_addr
          (target_jmp_word (jmp_offset remote_addr fault_addr) original_func_word))
        t

  unfoldable pub restore_and_fail : Regs → ℕ → Target → Target
  restore_and_fail saved_regs saved_text t =
      tried p.detach (tried (p.setregs saved_regs) (tried (p.write saved_regs.rip saved_text) t))

  -- Steps 3 to 6, when `temp_text` is in its place.
  unfoldable pub install : HotSwapContext → Regs → ℕ → M Target (Unit {0})
  unfolding remote_page write_words write_jump
  install ctx saved_regs saved_text = do
    remote_addr ← remote_page saved_regs (length ctx.patch_code)
    perform other (p.write saved_regs.rip saved_text)
    write_words ((length ctx.patch_code + 7) / 8) 0 remote_addr ctx.patch_code
    write_jump ctx.fault_addr remote_addr

  -- Step 7, or the label.
  unfoldable pub finish : Regs → ℕ → IoResult (Unit {0}) × Target → ℤ × Target
  unfolding restore_and_fail
  finish saved_regs saved_text (ok x, t) = (pos 0, tried p.detach (tried (p.setregs saved_regs) t))
  finish saved_regs saved_text (err e, t) = (negsuc 0, restore_and_fail saved_regs saved_text t)

  unfoldable pub inject_patch : HotSwapContext → Target → ℤ × Target
  unfolding install finish temp_text
  inject_patch ctx t =
      or_return (p.attach t) (negsuc 0, t)
        λ t₁.
          let t₂ = tried p.wait t₁ in
          or_return (p.getregs t₂) (negsuc 0, tried p.detach t₂)
            λ saved_regs.
              let saved_text = peeked (p.read saved_regs.rip t₂) in
              or_return (p.write saved_regs.rip (temp_text saved_text) t₂)
                (negsuc 0, tried p.detach t₂)
                λ t₃. finish saved_regs saved_text (install ctx saved_regs saved_text t₃)
