-- ===== src/Injector/Mapping.antt =====
-- The mapping of pages in the target.
use living_codebase.Prelude.{
  ◌≡◌, ◌≤◌, ◌<◌, ◌∙◌, ap, refl, ℕ, ◌+◌, ◌-◌, true, false, some, none, Bool-cases, inl, inr, arith,
}
use living_codebase.Words.{byte, word, byte-word}
use living_codebase.Ptrace.{
  View, Ptrace, IsPtrace, Mapped, AsksMmap, Extends, Outside, poked, within, pages,
}
use living_codebase.Injector.{ok, mmap_regs, remote_mmap}

-- The view when the mapping is asked for, by the word `w` at the next instruction.
abbrev pub asked : View → ℕ → ℕ → View
asked v w n = record v { memory = poked v.regs.rip w v.memory; regs = mmap_regs v.regs n }

-- A word that begins with the opcode of `syscall` asks for the mapping.
pub asks_mmap : (v : View) (w n : ℕ) → byte w 0 ≡ 15 → byte w 1 ≡ 5 → AsksMmap (asked v w n) n
unfolding mmap_regs
asks_mmap v w n b₀ b₁ =
    let none_past : v.regs.rip - v.regs.rip ≡ 0 = omega arith in
    let one_past : v.regs.rip + 1 - v.regs.rip ≡ 1 = omega arith in
    let here : within v.regs.rip 8 v.regs.rip ≡ true = ground arith in
    let next : within v.regs.rip 8 (v.regs.rip + 1) ≡ true = ground arith in
    record {
      opcode₀ = rw (here, none_past) b₀;
      opcode₁ = rw (next, one_past) b₁;
      number = refl;
      address = refl;
      size = refl;
      protection = refl;
      flags = refl;
      descriptor = refl;
      offset = refl;
    }

-- The first word of a function, overwritten and restored around a mapping, is as it was.
pub restored :
    (a : ℕ) (memory m : ℕ → ℕ) (x : ℕ)
    → ((y : ℕ) → memory y < 256)
    → (within a 8 x ≡ false → m x ≡ memory x)
    → poked a (word 8 (λ i. memory (a + i))) m x ≡ memory x
restored a memory m x b h = elim (Bool-cases (within a 8 x)) [
  | inl e ↦
      let lo : a ≤ x = ground arith in
      let hi : x - a < 8 = ground arith in
      let same : a + (x - a) ≡ x = omega arith in
      rw e (byte-word 8 (λ i. memory (a + i)) (x - a) (λ k. b (a + k)) hi ∙ ap memory same)
  | inr e ↦ rw e (h e)
]

pub restored-Extends :
    (v u u' : View) (w n : ℕ)
    → ((x : ℕ) → v.memory x < 256)
    → Extends (asked v w n) u
    → u' ≡ record u { memory = poked v.regs.rip (word 8 (λ i. v.memory (v.regs.rip + i))) u.memory }
    → Extends v u'
restored-Extends v u u' w n b x e = record {
  stopped = ap (λ (w : View). w.stopped) e ∙ x.stopped;
  mapped = λ y h. ap (λ (w : View). w.mapped y) e ∙ x.mapped y h;
  memory = λ y h.
      ap (λ (w : View). w.memory y) e
      ∙ restored v.regs.rip v.memory u.memory y b (λ out. x.memory y h ∙ rw out);
}

module _ {Target : Type 0} (p : Ptrace Target) (laws : IsPtrace p) where
  -- What the call `mmap` in the target does.
  pub mapped_lem :
      (v : View) (w n a : ℕ) (t : Target)
      → byte w 0 ≡ 15
      → byte w 1 ≡ 5
      → v.stopped ≡ true
      → p.view t ≡ asked v w n
      → p.place t n ≡ some a
      → (t₁ t₂ : Target) × (p.step t ≡ some t₁)
        × (p.wait t₁ ≡ some t₂)
        × Extends (asked v w n) (p.view t₂)
        × (p.getregs t₂ ≡ some (p.view t₂).regs)
        × ((p.view t₂).regs.rax ≡ a)
        × Mapped (p.view t₂) a (pages n)
        × Outside (asked v w n) (p.view t₂) a (pages n)
  mapped_lem v w n a t b₀ b₁ s e room =
      let asks : AsksMmap (p.view t) n = rw e (asks_mmap v w n b₀ b₁) in
      let stopped : (p.view t).stopped ≡ true = rw e s in
      let (t₁, t₂, e₁, e₂, x, r, k, o) = laws.maps t n a stopped asks room in
      (t₁, t₂, e₁, e₂, rw e at x, laws.gets t₂ (x.stopped ∙ stopped), r, k, rw e at o)

  -- A mapping leaves everything as it was, but for the new pages and the registers.
  pub remote_mmap_lem :
      (n a : ℕ) (t : Target)
      → (p.view t).stopped ≡ true
      → Mapped (p.view t) (p.view t).regs.rip 8
      → p.place t n ≡ some a
      → (t' : Target) × (remote_mmap p n t ≡ (ok ((p.view t).regs, a), t'))
        × Extends (p.view t) (p.view t')
        × Mapped (p.view t') a (pages n)
        × Outside (p.view t) (p.view t') a (pages n)
  unfolding remote_mmap byte
  remote_mmap_lem n a t s m here =
      let v : View = p.view t in
      let (t₁, e₁, v₁, l₁) = laws.writes v.regs.rip 1295 t s m in
      let (t₂, e₂, v₂, l₂) =
        laws.sets (mmap_regs v.regs n) t₁ (ap (λ (w : View). w.stopped) v₁ ∙ s) in
      let (t₃, t₄, e₃, e₄, x, g, r, k, o) =
        mapped_lem v 1295 n a t₂ refl refl s
          (v₂ ∙ ap (λ (u : View). record u { regs = mmap_regs v.regs n }) v₁) (rw (l₂, l₁) here) in
      let (t₅, e₅, v₅, _) =
        laws.writes v.regs.rip (word 8 (λ i. v.memory (v.regs.rip + i))) t₄ (x.stopped ∙ s)
          (λ y h q. x.mapped y (m y h q)) in
      (
        t₅,
        rw (laws.gets t s, laws.reads v.regs.rip t s m, e₁, e₂, e₃, e₄, g, e₅, r),
        restored-Extends v (p.view t₄) (p.view t₅) 1295 n (laws.bytes t) x v₅,
        λ y h q. ap (λ (u : View). u.mapped y) v₅ ∙ k y h q,
        λ y h q. ap (λ (u : View). u.mapped y) v₅ ∙ o y h q,
      )

  -- Without room the address is an error number, where nothing is mapped.
  pub remote_mmap_no_room :
      (n : ℕ) (t : Target)
      → (p.view t).stopped ≡ true
      → Mapped (p.view t) (p.view t).regs.rip 8
      → p.place t n ≡ none
      → (t' : Target) × (a : ℕ) × (remote_mmap p n t ≡ (ok ((p.view t).regs, a), t'))
        × ((p.view t').stopped ≡ true)
        × ((p.view t').mapped a ≡ false)
        × (a < 18446744073709551616)
  unfolding remote_mmap byte
  remote_mmap_no_room n t s m full =
      let v : View = p.view t in
      let (t₁, e₁, v₁, l₁) = laws.writes v.regs.rip 1295 t s m in
      let (t₂, e₂, v₂, l₂) =
        laws.sets (mmap_regs v.regs n) t₁ (ap (λ (w : View). w.stopped) v₁ ∙ s) in
      let now : p.view t₂ ≡ asked v 1295 n =
        v₂ ∙ ap (λ (u : View). record u { regs = mmap_regs v.regs n }) v₁ in
      let asks : AsksMmap (p.view t₂) n = rw now (asks_mmap v 1295 n refl refl) in
      let s₂ : (p.view t₂).stopped ≡ true = rw now s in
      let (t₃, t₄, e₃, e₄, x, _, hi, hole) = laws.exhausts t₂ n s₂ asks (rw (l₂, l₁) full) in
      let s₄ : (p.view t₄).stopped ≡ true = x.stopped ∙ s₂ in
      let m₄ : Mapped (p.view t₄) v.regs.rip 8 =
        λ y h q. x.mapped y (ap (λ (u : View). u.mapped y) now ∙ m y h q) in
      let (t₅, e₅, v₅, _) =
        laws.writes v.regs.rip (word 8 (λ i. v.memory (v.regs.rip + i))) t₄ s₄ m₄ in
      (
        t₅,
        (p.view t₄).regs.rax,
        rw (laws.gets t s, laws.reads v.regs.rip t s m, e₁, e₂, e₃, e₄, laws.gets t₄ s₄, e₅),
        ap (λ (u : View). u.stopped) v₅ ∙ s₄,
        ap (λ (u : View). u.mapped (p.view t₄).regs.rax) v₅ ∙ hole,
        hi,
      )
