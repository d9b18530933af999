-- ===== src/Hotswap/Outcomes.antt =====
-- How `inject_patch` ends, and what it leaves of the target.
use living_codebase.Prelude.{
  ◌≡◌, ◌<◌, ◌∙◌, ◌⊎◌, ap, ℕ, true, false, none, some, List, All, length, Option-cases, inl, inr,
}
use living_codebase.Prelude.Int.{pos, negsuc}
use living_codebase.Ptrace.{View, Ptrace, IsPtrace, Mapped}
use living_codebase.Injector.{err, other}
use living_codebase.Injector.Swapped.{IsSwapped, IsPatchable, swapped-IsSwapped}
use living_codebase.Injector.Frozen.{IsUnmapped}
use living_codebase.Hotswap.{
  HotSwapContext, temp_text, restore_and_fail, install, finish, inject_patch,
}
use living_codebase.Hotswap.Mapping.{injected}
use living_codebase.Hotswap.Steps.{
  IsRestored, IsHalfway, saved_word, restore_and_fail_lem, install_lem, install_no_room,
  install_unmapped,
}

module _ {Target : Type 0} (p : Ptrace Target) (laws : IsPtrace p) (ctx : HotSwapContext)
    (t t₁ t₂ : Target) (e₁ : p.attach t ≡ some t₁) (e₂ : p.wait t₁ ≡ some t₂)
    (small : All (λ x. x < 256) ctx.patch_code) where
  -- The steps before: the word at the next instruction is saved and overwritten.
  inject_patch-install :
      (p.view t₂).stopped ≡ true
      → Mapped (p.view t₂) (p.view t₂).regs.rip 8
      → (t₃ : Target) × (p.view t₃ ≡ injected (p.view t₂) (temp_text (saved_word (p.view t₂))))
        × (p.place t₃ ≡ p.place t₂)
        × (inject_patch p ctx t
            ≡ finish p
                (p.view t₂).regs
                (saved_word (p.view t₂))
                (install p ctx (p.view t₂).regs (saved_word (p.view t₂)) t₃))
  unfolding inject_patch
  inject_patch-install s m =
      let v : View = p.view t₂ in
      let (t₃, e₃, v₃, l₃) = laws.writes v.regs.rip (temp_text (saved_word v)) t₂ s m in
      (t₃, v₃, l₃, rw (e₁, e₂, laws.gets t₂ s, laws.reads v.regs.rip t₂ s m, e₃))

  -- A target that can be attached and then stops, with the words at its next instruction and at the
  -- function mapped, the function in the lower half of the addresses, and room for the patch: the
  -- call returns 0. The target is released with its registers; the patch lies in pages that were
  -- not mapped; the function begins with a jump, which leads to the patch exactly when that is
  -- within the 32 bits of the offset; and no other byte that was mapped has changed.
  pub inject_patch_lem :
      (a : ℕ)
      → IsPatchable ctx.fault_addr (p.view t₂)
      → p.place t₂ (length ctx.patch_code) ≡ some a
      → (t' : Target) × (inject_patch p ctx t ≡ (pos 0, t'))
        × IsSwapped ctx.fault_addr a ctx.patch_code (p.view t₂) (p.view t')
  unfolding finish
  inject_patch_lem a ready room =
      let v : View = p.view t₂ in
      let f : ℕ = ctx.fault_addr in
      let xs : List ℕ = ctx.patch_code in
      let (bound, free) = laws.places t₂ (length xs) a room in
      let (t₃, v₃, l₃, e₃) = inject_patch-install ready.stopped ready.instruction in
      let (t₄, u, e₄, x, v₄) =
        install_lem p laws v ctx t₃ ready.stopped ready.instruction (laws.bytes t₂) v₃ small a ready
          (rw l₃ room) in
      let s₄ : (p.view t₄).stopped ≡ true =
        ap (λ (u : View). u.stopped) v₄ ∙ x.stopped ∙ ready.stopped in
      let (t₅, e₅, v₅, _) = laws.sets v.regs t₄ s₄ in
      let (t₆, e₆, v₆) = laws.detaches t₅ (ap (λ (u : View). u.stopped) v₅ ∙ s₄) in
      (
        t₆,
        e₃ ∙ rw (e₄, e₅, e₆),
        rw
            (v₆
              ∙ ap (λ (w : View). record w { stopped = false })
                  (v₅ ∙ ap (λ (w : View). record w { regs = v.regs }) v₄))
            (swapped-IsSwapped f a xs v u ready x bound free),
      )

  -- A target that can be attached and then stops, with the word at its next instruction mapped:
  -- where the kernel finds no room for the patch, or the function's address is neither mapped nor in
  -- the new pages, the call returns -1, and the target is released with its registers and with every
  -- byte that was mapped as it was found.
  pub inject_patch_restores :
      (p.view t₂).stopped ≡ true
      → Mapped (p.view t₂) (p.view t₂).regs.rip 8
      → (p.place t₂ (length ctx.patch_code) ≡ none)
        ⊎ IsUnmapped ctx.fault_addr
            (length ctx.patch_code)
            (p.view t₂)
            (p.place t₂ (length ctx.patch_code))
      → (t' : Target) × (inject_patch p ctx t ≡ (negsuc 0, t')) × IsRestored (p.view t₂) (p.view t')
  unfolding finish
  inject_patch_restores s m cannot =
      let v : View = p.view t₂ in
      let n : ℕ = length ctx.patch_code in
      let (t₃, v₃, l₃, e₃) = inject_patch-install s m in
      let (t₄, e₄, half) = fails t₃ v₃ l₃ in
      (
        restore_and_fail p v.regs (saved_word v) t₄,
        e₃ ∙ rw e₄,
        restore_and_fail_lem p laws v t₄ (laws.bytes t₂) m half,
      )
    where
      fails :
          (t₃ : Target)
          → p.view t₃ ≡ injected (p.view t₂) (temp_text (saved_word (p.view t₂)))
          → p.place t₃ ≡ p.place t₂
          → (t' : Target) × (install p ctx (p.view t₂).regs (saved_word (p.view t₂)) t₃
              ≡ (err other, t'))
            × IsHalfway (p.view t₂) (p.view t')
      fails t₃ v₃ l₃ = elim (Option-cases (p.place t₂ (length ctx.patch_code))) [
        | inl full ↦
            install_no_room p laws (p.view t₂) ctx t₃ s m (laws.bytes t₂) v₃ small (rw l₃ full)
        | inr (a, room) ↦ elim cannot [
          | inl full ↦ cc
          | inr u ↦
              install_unmapped p laws (p.view t₂) ctx t₃ s m (laws.bytes t₂) v₃ small a (rw l₃ room)
                u.hole (u.apart a room)
        ]
      ]
