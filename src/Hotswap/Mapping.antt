-- ===== src/Hotswap/Mapping.antt =====
-- The mapping of pages by the injected call, with and without room.
use living_codebase.Prelude.{◌≡◌, ◌<◌, ◌∙◌, ap, ℕ, zero, suc, true, false, some, none, arith}
use living_codebase.Words.{byte, byte-word, byte-lt}
use living_codebase.Ptrace.{
  View, Ptrace, IsPtrace, Mapped, AsksMmap, Extends, Outside, poked, pages,
}
use living_codebase.Injector.{ok, err, other, mmap_regs}
use living_codebase.Injector.Mapping.{asked, asks_mmap, mapped_lem}
use living_codebase.Hotswap.{temp_byte, temp_text, mmap_failed, remote_page}

-- The view when the next instruction is `syscall`.
abbrev pub injected : View → ℕ → View
injected v w = record v { memory = poked v.regs.rip w v.memory }

temp_byte-lt : (w i : ℕ) → temp_byte w i < 256
unfolding temp_byte
temp_byte-lt w zero = omega arith
temp_byte-lt w (suc zero) = omega arith
temp_byte-lt w (suc (suc i)) = byte-lt w (suc (suc i))

pub byte-temp_text : (w i : ℕ) → i < 8 → byte (temp_text w) i ≡ temp_byte w i
unfolding temp_text
byte-temp_text w i h = byte-word 8 (temp_byte w) i (temp_byte-lt w) h

module _ {Target : Type 0} (p : Ptrace Target) (laws : IsPtrace p) (v : View) (w n : ℕ) (t : Target)
    (b₀ : byte w 0 ≡ 15) (b₁ : byte w 1 ≡ 5) (s : v.stopped ≡ true)
    (e : p.view t ≡ injected v w) where
  pub remote_page_lem :
      (a : ℕ)
      → p.place t n ≡ some a
      → (t' : Target) × (remote_page p v.regs n t ≡ (ok a, t'))
        × Extends (asked v w n) (p.view t')
        × Mapped (p.view t') a (pages n)
        × Outside (asked v w n) (p.view t') a (pages n)
  unfolding remote_page mmap_failed
  remote_page_lem a room =
      let (bound, _) = laws.places t n a room in
      let good : mmap_failed a ≡ false = ground arith in
      let (t₁, e₁, v₁, l₁) =
        laws.sets (mmap_regs v.regs n) t (ap (λ (u : View). u.stopped) e ∙ s) in
      let (t₂, t₃, e₂, e₃, x, g, r, k, o) =
        mapped_lem p laws v w n a t₁ b₀ b₁ s
          (v₁ ∙ ap (λ (u : View). record u { regs = mmap_regs v.regs n }) e) (rw l₁ room) in
      (t₃, rw (e₁, e₂, e₃, g, r, good), x, k, o)

  pub remote_page_no_room :
      p.place t n ≡ none
      → (t' : Target) × (remote_page p v.regs n t ≡ (err other, t'))
        × Extends (asked v w n) (p.view t')
  unfolding remote_page mmap_failed
  remote_page_no_room full =
      let (t₁, e₁, v₁, l₁) =
        laws.sets (mmap_regs v.regs n) t (ap (λ (u : View). u.stopped) e ∙ s) in
      let now : p.view t₁ ≡ asked v w n =
        v₁ ∙ ap (λ (u : View). record u { regs = mmap_regs v.regs n }) e in
      let asks : AsksMmap (p.view t₁) n = rw now (asks_mmap v w n b₀ b₁) in
      let stopped : (p.view t₁).stopped ≡ true = rw now s in
      let (t₂, t₃, e₂, e₃, x, lo, hi, _) = laws.exhausts t₁ n stopped asks (rw l₁ full) in
      let g = laws.gets t₃ (x.stopped ∙ stopped) in
      let bad : mmap_failed (p.view t₃).regs.rax ≡ true = ground arith in
      (t₃, rw (e₁, e₂, e₃, g, bad), rw now at x)
