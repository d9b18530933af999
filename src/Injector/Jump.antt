-- ===== src/Injector/Jump.antt =====
-- The jump: where it leads, and what it leaves of the function.
use living_codebase.Prelude.{
  ◌≡◌, ◌≤◌, ◌<◌, ◌∙◌, ◌↔◌, ap, fun_ext, refl, ℕ, zero, suc, ◌+◌, ◌-◌, ◌%◌, true, ltb, if◌then◌else◌,
  Bool-cases, inl, inr, arith,
}
use living_codebase.Words.{byte, word, byte-word, byte-lt, word_ext}
use living_codebase.Ptrace.{Ptrace, IsPtrace, Mapped, poked, within}
use living_codebase.Injector.{ok, jmp_byte, jmp_val, relative_offset, redirect}

-- JMP rel32 of x86_64: the opcode 0xE9, and a signed offset from the next instruction.
abbrev pub displaced : ℕ → ℕ → ℕ
displaced address rel =
    (if ltb rel 2147483648 then address + 5 + rel else address + 5 + rel + 18446744069414584320)
    % 18446744073709551616

abbrev pub jump_target : (ℕ → ℕ) → ℕ → ℕ
jump_target memory address = displaced address (word 4 (λ i. memory (address + suc i)))

-- The offset is exact from 2^31 below to 2^31 - 1 above the next instruction.
pub displaced-relative_offset :
    (a f : ℕ)
    → a ≤ 9223372036854775808
    → f + 5 ≤ 9223372036854775808
    → (displaced f (relative_offset a f) ≡ a)
      ↔ ((a < f + 5 + 2147483648) × (f + 5 ≤ a + 2147483648))
unfolding relative_offset
displaced-relative_offset a f h k = ground arith

word-byte : (w : ℕ) → w < 4294967296 → word 4 (byte w) ≡ w
unfolding word byte
word-byte w h = omega arith

pub relative_offset-lt : (a f : ℕ) → relative_offset a f < 4294967296
unfolding relative_offset
relative_offset-lt a f = omega arith

jmp_byte-lt : (offset w i : ℕ) → jmp_byte offset w i < 256
unfolding jmp_byte
jmp_byte-lt offset w zero = omega arith
jmp_byte-lt offset w (suc i) = ground (arith, byte-lt offset i, byte-lt w (suc i))

-- The memory with a jump at `f`.
abbrev pub jumping : ℕ → ℕ → (ℕ → ℕ) → ℕ → ℕ
jumping f offset memory x = if within f 5 x then jmp_byte offset 0 (x - f) else memory x

jmp_byte-tail : (offset w i : ℕ) → 5 ≤ i → jmp_byte offset w i ≡ byte w i
unfolding jmp_byte
jmp_byte-tail offset w zero h = absurd (omega arith)
jmp_byte-tail offset w (suc i) h = ground arith

jmp_byte-head : (offset w i : ℕ) → i < 5 → jmp_byte offset w i ≡ jmp_byte offset 0 i
unfolding jmp_byte
jmp_byte-head offset w zero h = refl
jmp_byte-head offset w (suc i) h = ground arith

poked-jmp_val :
    (f offset : ℕ) (memory : ℕ → ℕ)
    → ((x : ℕ) → memory x < 256)
    → poked f (jmp_val offset (word 8 (λ i. memory (f + i)))) memory ≡ jumping f offset memory
unfolding jmp_val
poked-jmp_val f offset memory b = fun_ext λ x.
    let w : ℕ = word 8 (λ i. memory (f + i)) in
    elim (Bool-cases (within f 8 x)) [
      | inl e ↦
          let lo : f ≤ x = ground arith in
          let hi : x - f < 8 = ground arith in
          let now = byte-word 8 (jmp_byte offset w) (x - f) (jmp_byte-lt offset w) hi in
          elim (Bool-cases (within f 5 x)) [
            | inl e' ↦ rw (e, e') (now ∙ jmp_byte-head offset w (x - f) (ground arith))
            | inr e' ↦
                let same : f + (x - f) ≡ x = omega arith in
                rw (e, e')
                  (now
                    ∙ jmp_byte-tail offset w (x - f) (ground arith)
                    ∙ byte-word 8 (λ i. memory (f + i)) (x - f) (λ k. b (f + k)) hi
                    ∙ ap memory same)
          ]
      | inr e ↦ ground arith
    ]

jump_byte :
    (f offset : ℕ) (memory : ℕ → ℕ) (i : ℕ)
    → i < 4
    → jumping f offset memory (f + suc i) ≡ byte offset i
unfolding jmp_byte
jump_byte f offset memory i h =
    let index : f + suc i - f ≡ suc i = omega arith in
    let here : within f 5 (f + suc i) ≡ true = ground arith in
    let first : ltb i 4 ≡ true = ground arith in rw (here, index, first)

-- The jump that the injector writes is read back as its offset.
pub jump_target-jumping :
    (f offset : ℕ) (memory : ℕ → ℕ)
    → offset < 4294967296
    → jump_target (jumping f offset memory) f ≡ displaced f offset
jump_target-jumping f offset memory h = ap (displaced f) (
    word_ext 4 (λ i. jumping f offset memory (f + suc i)) (byte offset) (jump_byte f offset memory)
    ∙ word-byte offset h)

module _ {Target : Type 0} (p : Ptrace Target) (laws : IsPtrace p) (f a : ℕ) where
  pub redirect_lem :
      (t : Target)
      → (p.view t).stopped ≡ true
      → Mapped (p.view t) f 8
      → (t' : Target) × (redirect p f a t ≡ (ok tt, t'))
        × (p.view t'
            ≡ record (p.view t) { memory = jumping f (relative_offset a f) (p.view t).memory })
  unfolding redirect
  redirect_lem t s m =
      let r = laws.reads f t s m in
      let w : ℕ = jmp_val (relative_offset a f) (word 8 (λ i. (p.view t).memory (f + i))) in
      let (t', e, v, _) = laws.writes f w t s m in
      (
        t',
        rw (r, e),
        v
            ∙ ap (λ (m : ℕ → ℕ). record (p.view t) { memory = m })
                (poked-jmp_val f (relative_offset a f) (p.view t).memory (laws.bytes t)),
      )
