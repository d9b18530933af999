-- ===== src/Injector/Frozen.antt =====
-- Where `hot_swap_patch` stops with an error, and how it leaves the target.
use living_codebase.Prelude.{
  ◌≡◌, ◌<◌, ◌∙◌, ◌⊎◌, ap, ℕ, ◌+◌, ◌/◌, true, false, Option, none, some, List, All, length,
  Option-cases, inl, inr, arith,
}
use living_codebase.Ptrace.{View, Ptrace, IsPtrace, Mapped, within, pages}
use living_codebase.Injector.{err, other, redirect, hot_swap_patch}
use living_codebase.Injector.Writes.{write_patch_lem, write_patch-refuses}
use living_codebase.Injector.Mapping.{remote_mmap_lem, remote_mmap_no_room}

-- The function's address is not mapped, nor in the new pages.
pub record IsUnmapped (f n : ℕ) (v : View) (place : Option ℕ) : Type 0 where
  pub hole : v.mapped f ≡ false
  pub apart : (a : ℕ) → place ≡ some a → within a (pages n) f ≡ false

module _ {Target : Type 0} (p : Ptrace Target) (laws : IsPtrace p) where
  -- Where nothing is mapped at the function's address the call fails when the patch has been
  -- copied, and returns at once: the target stays attached and stopped.
  pub hot_swap_patch_unmapped :
      (f a : ℕ) (xs : List ℕ) (t t₁ t₂ : Target)
      → p.attach t ≡ some t₁
      → p.wait t₁ ≡ some t₂
      → (p.view t₂).stopped ≡ true
      → Mapped (p.view t₂) (p.view t₂).regs.rip 8
      → All (λ x. x < 256) xs
      → p.place t₂ (length xs) ≡ some a
      → (p.view t₂).mapped f ≡ false
      → within a (pages (length xs)) f ≡ false
      → (t' : Target) × (hot_swap_patch p f xs t ≡ (err other, t')) × ((p.view t').stopped ≡ true)
  unfolding hot_swap_patch redirect
  hot_swap_patch_unmapped f a xs t t₁ t₂ e₁ e₂ s m small room hole apart =
      let (bound, _) = laws.places t₂ (length xs) a room in
      let (t₃, e₃, x, new, out) = remote_mmap_lem p laws (length xs) a t₂ s m room in
      let (t₄, e₄, v₄) =
        write_patch_lem p laws a xs small ((length xs + 7) / 8) 0 t₃ (x.stopped ∙ s)
          (λ y h k. new y (omega arith) (omega arith)) (omega arith) in
      let fault = laws.faults f t₄ (ap (λ (u : View). u.mapped f) v₄ ∙ out f hole apart) in
      (t₄, rw (e₁, e₂, e₃, e₄, fault), ap (λ (u : View). u.stopped) v₄ ∙ x.stopped ∙ s)

  -- Without room for the patch the call does not see that: it writes to the error number, fails
  -- and returns at once, and the target stays stopped.
  pub hot_swap_patch_no_room :
      (f : ℕ) (xs : List ℕ) (t t₁ t₂ : Target)
      → p.attach t ≡ some t₁
      → p.wait t₁ ≡ some t₂
      → (p.view t₂).stopped ≡ true
      → Mapped (p.view t₂) (p.view t₂).regs.rip 8
      → 0 < length xs
      → p.place t₂ (length xs) ≡ none
      → (t' : Target) × (hot_swap_patch p f xs t ≡ (err other, t')) × ((p.view t').stopped ≡ true)
  unfolding hot_swap_patch
  hot_swap_patch_no_room f xs t t₁ t₂ e₁ e₂ s m some_patch full =
      let (t₃, a, e₃, s₃, hole, top) = remote_mmap_no_room p laws (length xs) t₂ s m full in
      let e₄ = write_patch-refuses p laws ((length xs + 7) / 8) a xs t₃ hole top (omega arith) in
      (t₃, rw (e₁, e₂, e₃, e₄), s₃)

  -- A target that can be attached and then stops, with the word at its next instruction mapped:
  -- where the kernel finds no room for a patch that is not empty, or the function's address is
  -- neither mapped nor in the new pages, the call returns an error, and the target stays attached
  -- and stopped.
  pub hot_swap_patch_freezes :
      (f : ℕ) (xs : List ℕ) (t t₁ t₂ : Target)
      → p.attach t ≡ some t₁
      → p.wait t₁ ≡ some t₂
      → (p.view t₂).stopped ≡ true
      → Mapped (p.view t₂) (p.view t₂).regs.rip 8
      → All (λ x. x < 256) xs
      → 0 < length xs
      → (p.place t₂ (length xs) ≡ none)
        ⊎ IsUnmapped f (length xs) (p.view t₂) (p.place t₂ (length xs))
      → (t' : Target) × (hot_swap_patch p f xs t ≡ (err other, t')) × ((p.view t').stopped ≡ true)
  hot_swap_patch_freezes f xs t t₁ t₂ e₁ e₂ s m small some_patch cannot =
      elim (Option-cases (p.place t₂ (length xs))) [
        | inl full ↦ hot_swap_patch_no_room f xs t t₁ t₂ e₁ e₂ s m some_patch full
        | inr (a, room) ↦ elim cannot [
          | inl full ↦ cc
          | inr u ↦
              hot_swap_patch_unmapped f a xs t t₁ t₂ e₁ e₂ s m small room u.hole (u.apart a room)
        ]
      ]
