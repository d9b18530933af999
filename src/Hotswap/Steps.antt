-- ===== src/Hotswap/Steps.antt =====
-- The steps of `inject_patch` from the mapping to the jump, and the label where they are undone.
use living_codebase.Prelude.{
  ◌≡◌, ◌≤◌, ◌<◌, ◌∙◌, sym, ap, refl, ℕ, ◌+◌, ◌*◌, ◌/◌, true, false, none, some, List, All, length,
  arith,
}
use living_codebase.Words.{word}
use living_codebase.Ptrace.{View, Ptrace, IsPtrace, Mapped, Extends, Outside, poked, within, pages}
use living_codebase.Injector.{IoResult, ok, err, other, relative_offset}
use living_codebase.Injector.Writes.{copied, write_patch_lem}
use living_codebase.Injector.Jump.{jumping, redirect_lem}
use living_codebase.Injector.Mapping.{asked, restored, restored-Extends}
use living_codebase.Injector.Swapped.{IsPatchable, not_copied}
use living_codebase.Hotswap.{
  HotSwapContext, temp_byte, temp_text, peeked, remote_page, write_words, write_jump,
  restore_and_fail, install, jmp_offset, target_jmp_word,
}
use living_codebase.Hotswap.Calls.{write_words-eq-write_patch, write_jump-eq-redirect}
use living_codebase.Hotswap.Mapping.{injected, byte-temp_text, remote_page_lem, remote_page_no_room}

-- A target that was let go as it was found: its registers, and every byte that was mapped.
pub record IsRestored (v v' : View) : Type 0 where
  pub released : v'.stopped ≡ false
  pub registers : v'.regs ≡ v.regs
  pub mapped : (x : ℕ) → v.mapped x ≡ true → v'.mapped x ≡ true
  pub memory : (x : ℕ) → v.mapped x ≡ true → v'.memory x ≡ v.memory x

-- What the steps before a failure leave: the target is stopped, and but for the word of the next
-- instruction its memory is as it was.
pub record IsHalfway (v u : View) : Type 0 where
  pub stopped : u.stopped ≡ true
  pub mapped : (x : ℕ) → v.mapped x ≡ true → u.mapped x ≡ true
  pub memory : (x : ℕ) → v.mapped x ≡ true → within v.regs.rip 8 x ≡ false → u.memory x ≡ v.memory x

-- The word of the next instruction.
abbrev pub saved_word : View → ℕ
saved_word v = word 8 (λ i. v.memory (v.regs.rip + i))

abbrev ended : View → View → View
ended v u = record u {
  stopped = false;
  regs = v.regs;
  memory = poked v.regs.rip (saved_word v) u.memory;
}

ended-IsRestored :
    (v u : View) → ((x : ℕ) → v.memory x < 256) → IsHalfway v u → IsRestored v (ended v u)
ended-IsRestored v u b half = record {
  released = refl;
  registers = refl;
  mapped = half.mapped;
  memory = λ x h. restored v.regs.rip v.memory u.memory x b (half.memory x h);
}

-- An error of the mapping leaves the target halfway.
asked-IsHalfway :
    (v u : View) (w n : ℕ) → v.stopped ≡ true → Extends (asked v w n) u → IsHalfway v u
asked-IsHalfway v u w n s x = record {
  stopped = x.stopped ∙ s;
  mapped = x.mapped;
  memory = λ y h out. x.memory y h ∙ rw out;
}

-- So does the copied patch, in new pages.
copied-IsHalfway :
    (a : ℕ) (xs : List ℕ) (v u u' : View)
    → ((y : ℕ) → a ≤ y → y < a + pages (length xs) → v.mapped y ≡ false)
    → v.stopped ≡ true
    → Extends v u
    → u' ≡ record u { memory = copied a xs 0 (0 + 8 * ((length xs + 7) / 8)) u.memory }
    → IsHalfway v u'
copied-IsHalfway a xs v u u' free s x e = rw e (record {
  stopped = x.stopped ∙ s;
  mapped = x.mapped;
  memory = λ y h out. rw (not_copied a xs v free y h) (x.memory y h);
})

module _ {Target : Type 0} (p : Ptrace Target) (laws : IsPtrace p) where
  pub restore_and_fail_lem :
      (v : View) (t : Target)
      → ((x : ℕ) → v.memory x < 256)
      → Mapped v v.regs.rip 8
      → IsHalfway v (p.view t)
      → IsRestored v (p.view (restore_and_fail p v.regs (saved_word v) t))
  unfolding restore_and_fail
  restore_and_fail_lem v t b m half =
      let (t₁, e₁, v₁, _) =
        laws.writes v.regs.rip (saved_word v) t half.stopped (λ x h k. half.mapped x (m x h k)) in
      let (t₂, e₂, v₂, _) = laws.sets v.regs t₁ (ap (λ (u : View). u.stopped) v₁ ∙ half.stopped) in
      let (t₃, e₃, v₃) = laws.detaches t₂ (
        ap (λ (u : View). u.stopped) (v₂ ∙ ap (λ (u : View). record u { regs = v.regs }) v₁)
        ∙ half.stopped) in
      let all : p.view t₃ ≡ ended v (p.view t) =
        v₃
        ∙ ap (λ (u : View). record u { stopped = false })
            (v₂ ∙ ap (λ (u : View). record u { regs = v.regs }) v₁) in
      rw (e₁, e₂, e₃, all) (ended-IsRestored v (p.view t) b half)

  module _ (v : View) (ctx : HotSwapContext) (t : Target) (s : v.stopped ≡ true)
      (m : Mapped v v.regs.rip 8) (b : (x : ℕ) → v.memory x < 256)
      (e : p.view t ≡ injected v (temp_text (saved_word v)))
      (small : All (λ x. x < 256) ctx.patch_code) where
    -- From the mapping to the copied patch.
    install_copied :
        (a : ℕ)
        → p.place t (length ctx.patch_code) ≡ some a
        → (t₁ t₂ t₃ : Target) × (remote_page p v.regs (length ctx.patch_code) t ≡ (ok a, t₁))
          × (p.write v.regs.rip (saved_word v) t₁ ≡ some t₂)
          × (write_words p ((length ctx.patch_code + 7) / 8) 0 a ctx.patch_code t₂ ≡ (ok tt, t₃))
          × Extends v (p.view t₂)
          × Outside v (p.view t₂) a (pages (length ctx.patch_code))
          × (p.view t₃ ≡ record (p.view t₂) {
            memory =
                copied a ctx.patch_code 0
                  (0 + 8 * ((length ctx.patch_code + 7) / 8))
                  (p.view t₂).memory;
          })
    unfolding temp_byte
    install_copied a room =
        let xs : List ℕ = ctx.patch_code in
        let w : ℕ = temp_text (saved_word v) in
        let (bound, _) = laws.places t (length xs) a room in
        let (t₁, e₁, x, k, o) =
          remote_page_lem p laws v w (length xs) t (byte-temp_text (saved_word v) 0 (omega arith))
            (byte-temp_text (saved_word v) 1 (omega arith)) s e a room in
        let (t₂, e₂, v₂, _) =
          laws.writes v.regs.rip (saved_word v) t₁ (x.stopped ∙ s)
            (λ y h q. x.mapped y (m y h q)) in
        let x₂ : Extends v (p.view t₂) =
          restored-Extends v (p.view t₁) (p.view t₂) w (length xs) b x v₂ in
        let (t₃, e₃, v₃) =
          write_patch_lem p laws a xs small ((length xs + 7) / 8) 0 t₂ (x₂.stopped ∙ s)
            (λ y h q. ap (λ (u : View). u.mapped y) v₂ ∙ k y (omega arith) (omega arith))
            (omega arith) in
        (
          t₁,
          t₂,
          t₃,
          e₁,
          e₂,
          ap (λ (f : Target → IoResult Unit × Target). f t₂)
                (write_words-eq-write_patch p ((length xs + 7) / 8) 0 a xs)
              ∙ e₃,
          x₂,
          λ y h q. ap (λ (u : View). u.mapped y) v₂ ∙ o y h q,
          v₃,
        )

    pub install_lem :
        (a : ℕ)
        → IsPatchable ctx.fault_addr v
        → p.place t (length ctx.patch_code) ≡ some a
        → (t' : Target) × (u : View) × (install p ctx v.regs (saved_word v) t ≡ (ok tt, t'))
          × Extends v u
          × (p.view t' ≡ record u {
            memory =
                jumping ctx.fault_addr
                  (relative_offset a ctx.fault_addr)
                  (copied a ctx.patch_code 0 (0 + 8 * ((length ctx.patch_code + 7) / 8)) u.memory);
          })
    unfolding install
    install_lem a ready room =
        let f : ℕ = ctx.fault_addr in
        let (t₁, t₂, t₃, e₁, e₂, e₃, x, _, v₃) = install_copied a room in
        let s₃ : (p.view t₃).stopped ≡ true = ap (λ (u : View). u.stopped) v₃ ∙ x.stopped ∙ s in
        let m₃ : Mapped (p.view t₃) f 8 =
          λ y h q. ap (λ (u : View). u.mapped y) v₃ ∙ x.mapped y (ready.function y h q) in
        let (t₄, e₄, v₄) = redirect_lem p laws f a t₃ s₃ m₃ in
        let same =
          write_jump-eq-redirect p f a (word 8 (λ i. (p.view t₃).memory (f + i))) t₃
            (laws.reads f t₃ s₃ m₃) in
        (
          t₄,
          p.view t₂,
          rw (e₁, e₂, e₃, same, e₄),
          x,
          v₄ ∙ ap (λ (u : View). record u { memory = jumping f (relative_offset a f) u.memory }) v₃,
        )

    pub install_no_room :
        p.place t (length ctx.patch_code) ≡ none
        → (t' : Target) × (install p ctx v.regs (saved_word v) t ≡ (err other, t'))
          × IsHalfway v (p.view t')
    unfolding install temp_byte
    install_no_room full =
        let w : ℕ = temp_text (saved_word v) in
        let n : ℕ = length ctx.patch_code in
        let (t₁, e₁, x) =
          remote_page_no_room p laws v w n t (byte-temp_text (saved_word v) 0 (omega arith))
            (byte-temp_text (saved_word v) 1 (omega arith)) s e full in
        (t₁, rw e₁, asked-IsHalfway v (p.view t₁) w n s x)

    pub install_unmapped :
        (a : ℕ)
        → p.place t (length ctx.patch_code) ≡ some a
        → v.mapped ctx.fault_addr ≡ false
        → within a (pages (length ctx.patch_code)) ctx.fault_addr ≡ false
        → (t' : Target) × (install p ctx v.regs (saved_word v) t ≡ (err other, t'))
          × IsHalfway v (p.view t')
    unfolding install write_jump
    install_unmapped a room hole apart =
        let f : ℕ = ctx.fault_addr in
        let (_, free) = laws.places t (length ctx.patch_code) a room in
        let (t₁, t₂, t₃, e₁, e₂, e₃, x, o, v₃) = install_copied a room in
        let refused =
          laws.refuses f (target_jmp_word (jmp_offset a f) (peeked (p.read f t₃))) t₃
            (ap (λ (u : View). u.mapped f) v₃ ∙ o f hole apart) in
        (
          t₃,
          rw (e₁, e₂, e₃, refused),
          copied-IsHalfway a ctx.patch_code v (p.view t₂) (p.view t₃)
              (λ y h q. ap (λ (u : View). u.mapped y) (sym e) ∙ free y h q) s x v₃,
        )
