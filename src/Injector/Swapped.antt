-- ===== src/Injector/Swapped.antt =====
-- The whole of `hot_swap_patch`: what it does to a target, and where the jump leads.
use living_codebase.Prelude.{
  ◌≡◌, ◌≤◌, ◌<◌, ◌∙◌, ◌↔◌, ap, refl, ℕ, ◌+◌, ◌-◌, ◌*◌, ◌/◌, true, false, ◌&&◌, some, List, All,
  length, leb, ltb, Bool-cases, inl, inr, arith,
}
use living_codebase.Ptrace.{View, Ptrace, IsPtrace, Mapped, Extends, within, pages}
use living_codebase.Injector.{ok, get_or, jmp_byte, relative_offset, hot_swap_patch}
use living_codebase.Injector.Writes.{copied, write_patch_lem}
use living_codebase.Injector.Jump.{
  jumping, jump_target, jump_target-jumping, displaced-relative_offset, relative_offset-lt,
  redirect_lem,
}
use living_codebase.Injector.Mapping.{remote_mmap_lem}

-- What a hot swap does to a target: the patch lies in pages that were not mapped before, five
-- bytes of the function are a jump, and nothing else that was mapped has changed.
pub record IsSwapped (f a : ℕ) (xs : List ℕ) (v v' : View) : Type 0 where
  pub released : v'.stopped ≡ false
  pub registers : v'.regs ≡ v.regs
  pub fresh : (i : ℕ) → i < length xs → v.mapped (a + i) ≡ false
  pub patch : (i : ℕ) → i < length xs → v'.memory (a + i) ≡ get_or xs i 0
  pub opcode : v'.memory f ≡ 233
  pub target : (jump_target v'.memory f ≡ a) ↔ ((a < f + 5 + 2147483648) × (f + 5 ≤ a + 2147483648))
  pub rest : (x : ℕ) → v.mapped x ≡ true → within f 5 x ≡ false → v'.memory x ≡ v.memory x

-- A target that can be patched at `f`: it is stopped, the words at its next instruction and at
-- `f` are mapped, in the lower half of the addresses.
pub record IsPatchable (f : ℕ) (v : View) : Type 0 where
  pub stopped : v.stopped ≡ true
  pub instruction : Mapped v v.regs.rip 8
  pub function : Mapped v f 8
  pub low : f + 5 ≤ 9223372036854775808

-- The view at the end, from that after the mapping.
abbrev pub swapped : ℕ → ℕ → List ℕ → View → View → View
swapped f a xs v u = record {
  stopped = false;
  regs = v.regs;
  memory = jumping f (relative_offset a f) (copied a xs 0 (0 + 8 * ((length xs + 7) / 8)) u.memory);
  mapped = u.mapped;
}

pub swapped_view :
    (f a : ℕ) (xs : List ℕ) (v v₃ v₄ v₅ v₆ v₇ : View)
    → v₄ ≡ record v₃ { memory = copied a xs 0 (0 + 8 * ((length xs + 7) / 8)) v₃.memory }
    → v₅ ≡ record v₄ { memory = jumping f (relative_offset a f) v₄.memory }
    → v₆ ≡ record v₅ { regs = v.regs }
    → v₇ ≡ record v₆ { stopped = false }
    → v₇ ≡ swapped f a xs v v₃
swapped_view f a xs v v₃ v₄ v₅ v₆ v₇ e₄ e₅ e₆ e₇ =
    e₇
    ∙ ap (λ (w : View). record w { stopped = false })
        (e₆
          ∙ ap (λ (w : View). record w { regs = v.regs })
              (e₅
                ∙ ap (λ (w : View). record w { memory = jumping f (relative_offset a f) w.memory })
                    e₄))

-- A byte that was mapped does not lie in the new pages.
pub not_copied :
    (a : ℕ) (xs : List ℕ) (v : View)
    → ((y : ℕ) → a ≤ y → y < a + pages (length xs) → v.mapped y ≡ false)
    → (y : ℕ) → v.mapped y ≡ true
    → (leb (a + 0) y && ltb y (a + (0 + 8 * ((length xs + 7) / 8)))) ≡ false
not_copied a xs v free y m =
    elim (Bool-cases (leb (a + 0) y && ltb y (a + (0 + 8 * ((length xs + 7) / 8))))) [
      | inl e ↦
          let lo : a ≤ y = ground arith in
          let hi : y < a + (8 * ((length xs + 7) / 8)) = ground arith in
          let out = free y lo (omega arith) in cc
      | inr e ↦ e
    ]

module _ (f a : ℕ) (xs : List ℕ) (v u : View) (ready : IsPatchable f v) (x : Extends v u)
    (bound : a + pages (length xs) < 9223372036854775808)
    (free : (y : ℕ) → a ≤ y → y < a + pages (length xs) → v.mapped y ≡ false) where
  not_jumping : (y : ℕ) → v.mapped y ≡ false → within f 5 y ≡ false
  not_jumping y m = elim (Bool-cases (within f 5 y)) [
    | inl e ↦
        let lo : f ≤ y = ground arith in
        let hi : y < f + 5 = ground arith in let inside = ready.function y lo (omega arith) in cc
    | inr e ↦ e
  ]

  copied_patch : (i : ℕ) → i < length xs → (swapped f a xs v u).memory (a + i) ≡ get_or xs i 0
  copied_patch i h =
      let index : a + i - a ≡ i = omega arith in
      let inside : (leb (a + 0) (a + i) && ltb (a + i) (a + (0 + 8 * ((length xs + 7) / 8))))
          ≡ true =
        ground arith in
      rw (not_jumping (a + i) (free (a + i) (omega arith) (omega arith)), inside, index)

  pub swapped-IsSwapped : IsSwapped f a xs v (swapped f a xs v u)
  unfolding jmp_byte
  swapped-IsSwapped =
      let none_past : f - f ≡ 0 = omega arith in
      let here : within f 5 f ≡ true = ground arith in
      let off : ℕ = relative_offset a f in
      let land =
        jump_target-jumping f off (copied a xs 0 (0 + 8 * ((length xs + 7) / 8)) u.memory)
          (relative_offset-lt a f) in
      record {
        released = refl;
        registers = refl;
        fresh = λ i h. free (a + i) (omega arith) (omega arith);
        patch = copied_patch;
        opcode = rw (here, none_past);
        target = rw land (displaced-relative_offset a f (omega arith) ready.low);
        rest = λ y m o. rw (o, not_copied a xs v free y m) (x.memory y m);
      }

module _ {Target : Type 0} (p : Ptrace Target) (laws : IsPtrace p) where
  -- A target that can be attached and then stops, with the words at its next instruction and at the
  -- function mapped, the function in the lower half of the addresses, and room for the patch: the
  -- call succeeds. The target is released with its registers; the patch lies in pages that were
  -- not mapped; the function begins with a jump, which leads to the patch exactly when that is
  -- within the 32 bits of the offset; and no other byte that was mapped has changed.
  pub hot_swap_patch_lem :
      (f a : ℕ) (xs : List ℕ) (t t₁ t₂ : Target)
      → p.attach t ≡ some t₁
      → p.wait t₁ ≡ some t₂
      → IsPatchable f (p.view t₂)
      → All (λ x. x < 256) xs
      → p.place t₂ (length xs) ≡ some a
      → (t' : Target) × (hot_swap_patch p f xs t ≡ (ok tt, t'))
        × IsSwapped f a xs (p.view t₂) (p.view t')
  unfolding hot_swap_patch
  hot_swap_patch_lem f a xs t t₁ t₂ e₁ e₂ ready small room =
      let n : ℕ = length xs in
      let rounds : ℕ = (n + 7) / 8 in
      let v : View = p.view t₂ in
      let (bound, free) = laws.places t₂ n a room in
      let (t₃, e₃, x, new, _) =
        remote_mmap_lem p laws n a t₂ ready.stopped ready.instruction room in
      let (t₄, e₄, v₄) =
        write_patch_lem p laws a xs small rounds 0 t₃ (x.stopped ∙ ready.stopped)
          (λ y h k. new y (omega arith) (omega arith)) (omega arith) in
      let s₄ : (p.view t₄).stopped ≡ true =
        ap (λ (u : View). u.stopped) v₄ ∙ x.stopped ∙ ready.stopped in
      let (t₅, e₅, v₅) =
        redirect_lem p laws f a t₄ s₄
          (λ y h k. ap (λ (u : View). u.mapped y) v₄ ∙ x.mapped y (ready.function y h k)) in
      let s₅ : (p.view t₅).stopped ≡ true = ap (λ (u : View). u.stopped) v₅ ∙ s₄ in
      let (t₆, e₆, v₆, _) = laws.sets v.regs t₅ s₅ in
      let (t₇, e₇, v₇) = laws.detaches t₆ (ap (λ (u : View). u.stopped) v₆ ∙ s₅) in
      (
        t₇,
        rw (e₁, e₂, e₃, e₄, e₅, e₆, e₇),
        rw
            (swapped_view f a xs v (p.view t₃) (p.view t₄) (p.view t₅) (p.view t₆) (p.view t₇) v₄ v₅
              v₆ v₇)
            (swapped-IsSwapped f a xs v (p.view t₃) ready x bound free),
      )
