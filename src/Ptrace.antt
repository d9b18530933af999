-- ===== src/Ptrace.antt =====
-- ptrace(2) on one target, for the injectors: an interface with what its manual page and that of
-- mmap(2) say of the calls. The target is an x86_64 Linux process.
use living_codebase.Prelude.{
  ◌≡◌, ◌≤◌, ◌<◌, ℕ, ◌+◌, ◌-◌, ◌*◌, ◌/◌, Bool, true, false, ◌&&◌, Option, none, some, leb, ltb,
  if◌then◌else◌,
}
use living_codebase.Words.{byte, word}

-- `user_regs_struct`; `others` stands for the registers that no injector names.
pub record Regs : Type 0 where
  pub rip : ℕ
  pub rax : ℕ
  pub rdi : ℕ
  pub rsi : ℕ
  pub rdx : ℕ
  pub r10 : ℕ
  pub r8 : ℕ
  pub r9 : ℕ
  pub others : ℕ → ℕ

-- What can be seen of a target: whether it is attached and stopped, its registers, and its bytes,
-- with those that are mapped.
pub record View : Type 0 where
  pub stopped : Bool
  pub regs : Regs
  pub memory : ℕ → ℕ
  pub mapped : ℕ → Bool

abbrev pub within : ℕ → ℕ → ℕ → Bool
within a n x = leb a x && ltb x (a + n)

-- The memory after a word was written at `a`.
abbrev pub poked : ℕ → ℕ → (ℕ → ℕ) → ℕ → ℕ
poked a w memory x = if within a 8 x then byte w (x - a) else memory x

-- The memory that the pages of `n` bytes take.
abbrev pub pages : ℕ → ℕ
pages n = (n + 4095) / 4096 * 4096

-- The calls; `none` is an error. `place` is the address that the kernel gives a new mapping of so
-- many bytes, if it finds one.
pub record Ptrace (Target : Type 0) : Type 0 where
  pub attach : Target → Option Target
  pub wait : Target → Option Target
  pub getregs : Target → Option Regs
  pub setregs : Regs → Target → Option Target
  pub read : ℕ → Target → Option ℕ
  pub write : ℕ → ℕ → Target → Option Target
  pub step : Target → Option Target
  pub detach : Target → Option Target
  pub view : Target → View
  pub place : Target → ℕ → Option ℕ

abbrev pub Mapped : View → ℕ → ℕ → Type 0
Mapped v a n = (x : ℕ) → a ≤ x → x < a + n → v.mapped x ≡ true

-- Nothing but the `n` bytes at `a` was mapped.
abbrev pub Outside : View → View → ℕ → ℕ → Type 0
Outside v v' a n = (x : ℕ) → v.mapped x ≡ false → within a n x ≡ false → v'.mapped x ≡ false

-- The next instruction is `syscall`, and the registers ask for an anonymous mapping of `n` bytes
-- that can be read, written and executed.
pub record AsksMmap (v : View) (n : ℕ) : Type 0 where
  pub opcode₀ : v.memory v.regs.rip ≡ 15
  pub opcode₁ : v.memory (v.regs.rip + 1) ≡ 5
  pub number : v.regs.rax ≡ 9
  pub address : v.regs.rdi ≡ 0
  pub size : v.regs.rsi ≡ n
  pub protection : v.regs.rdx ≡ 7
  pub flags : v.regs.r10 ≡ 34
  pub descriptor : v.regs.r8 ≡ 18446744073709551615
  pub offset : v.regs.r9 ≡ 0

-- What stays over the mapping of new pages: the bytes that were mapped.
pub record Extends (v v' : View) : Type 0 where
  pub stopped : v'.stopped ≡ v.stopped
  pub mapped : (x : ℕ) → v.mapped x ≡ true → v'.mapped x ≡ true
  pub memory : (x : ℕ) → v.mapped x ≡ true → v'.memory x ≡ v.memory x

-- A stopped target can be read, written, stepped and let go.
pub record IsPtrace {Target : Type 0} (p : Ptrace Target) : Type 0 where
  pub bytes : (t : Target) (x : ℕ) → (p.view t).memory x < 256
  pub gets : (t : Target) → (p.view t).stopped ≡ true → p.getregs t ≡ some (p.view t).regs
  pub sets :
      (r : Regs) (t : Target)
      → (p.view t).stopped ≡ true
      → (t' : Target) × (p.setregs r t ≡ some t')
        × (p.view t' ≡ record (p.view t) { regs = r })
        × (p.place t' ≡ p.place t)
  pub reads :
      (a : ℕ) (t : Target)
      → (p.view t).stopped ≡ true
      → Mapped (p.view t) a 8
      → p.read a t ≡ some (word 8 (λ i. (p.view t).memory (a + i)))
  pub faults : (a : ℕ) (t : Target) → (p.view t).mapped a ≡ false → p.read a t ≡ none
  pub refuses : (a w : ℕ) (t : Target) → (p.view t).mapped a ≡ false → p.write a w t ≡ none
  pub writes :
      (a w : ℕ) (t : Target)
      → (p.view t).stopped ≡ true
      → Mapped (p.view t) a 8
      → (t' : Target) × (p.write a w t ≡ some t')
        × (p.view t' ≡ record (p.view t) { memory = poked a w (p.view t).memory })
        × (p.place t' ≡ p.place t)
  pub detaches :
      (t : Target)
      → (p.view t).stopped ≡ true
      → (t' : Target) × (p.detach t ≡ some t') × (p.view t' ≡ record (p.view t) { stopped = false })
  -- A free range of whole pages, in the lower half of the addresses.
  pub places :
      (t : Target) (n a : ℕ)
      → p.place t n ≡ some a
      → (a + pages n < 9223372036854775808)
        × ((x : ℕ) → a ≤ x → x < a + pages n → (p.view t).mapped x ≡ false)
  pub maps :
      (t : Target) (n a : ℕ)
      → (p.view t).stopped ≡ true
      → AsksMmap (p.view t) n
      → p.place t n ≡ some a
      → (t₁ t₂ : Target) × (p.step t ≡ some t₁)
        × (p.wait t₁ ≡ some t₂)
        × Extends (p.view t) (p.view t₂)
        × ((p.view t₂).regs.rax ≡ a)
        × Mapped (p.view t₂) a (pages n)
        × Outside (p.view t) (p.view t₂) a (pages n)
  -- Without room the call returns an error number, which is no address of the target.
  pub exhausts :
      (t : Target) (n : ℕ)
      → (p.view t).stopped ≡ true
      → AsksMmap (p.view t) n
      → p.place t n ≡ none
      → (t₁ t₂ : Target) × (p.step t ≡ some t₁)
        × (p.wait t₁ ≡ some t₂)
        × Extends (p.view t) (p.view t₂)
        × (18446744073709547520 < (p.view t₂).regs.rax)
        × ((p.view t₂).regs.rax < 18446744073709551616)
        × ((p.view t₂).mapped (p.view t₂).regs.rax ≡ false)
