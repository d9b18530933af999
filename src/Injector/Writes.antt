-- ===== src/Injector/Writes.antt =====
-- The loop that copies the patch: what the memory holds after it.
use living_codebase.Prelude.{
  ◌≡◌, ◌≤◌, ◌<◌, ◌∙◌, ap, fun_ext, refl, ℕ, zero, suc, ◌+◌, ◌-◌, ◌*◌, min, true, false, ◌&&◌, List,
  [], ◌∷◌, All, length, leb, ltb, if◌then◌else◌, Bool-cases, inl, inr, arith,
}
use living_codebase.Words.{byte, byte-word}
use living_codebase.Ptrace.{View, Ptrace, IsPtrace, Mapped, poked, within}
use living_codebase.Injector.{ok, err, other, get_or, chunk, u64, perform, ◌>>◌, write_patch}

abbrev pub chunk_byte : List ℕ → ℕ → ℕ → ℕ
chunk_byte patch_bytes i j =
    if ltb j (min 8 (length patch_bytes - i)) then get_or patch_bytes (i + j) 0 else 0

get_or-lt : (xs : List ℕ) (i : ℕ) → All (λ x. x < 256) xs → get_or xs i 0 < 256
get_or-lt [] i h = omega arith
get_or-lt (x ∷ xs) zero (h, a) = h
get_or-lt (x ∷ xs) (suc i) (h, a) = get_or-lt xs i a

get_or-past : (xs : List ℕ) (i : ℕ) → length xs ≤ i → get_or xs i 0 ≡ 0
get_or-past [] i h = refl
get_or-past (x ∷ xs) zero h = absurd (omega arith)
get_or-past (x ∷ xs) (suc i) h = get_or-past xs i (omega arith)

-- A byte of a chunk is the byte of the patch, or a zero behind its end.
pub byte-chunk :
    (xs : List ℕ) (i j : ℕ)
    → All (λ x. x < 256) xs
    → j < 8
    → byte (chunk xs i) j ≡ get_or xs (i + j) 0
unfolding chunk
byte-chunk xs i j a h =
    byte-word 8 (chunk_byte xs i) j (λ k. ground (arith, get_or-lt xs (i + k) a)) h
    ∙ ground (arith, get_or-past xs (i + j))

-- The memory with the bytes of the patch from `i` to `j`.
abbrev pub copied : ℕ → List ℕ → ℕ → ℕ → (ℕ → ℕ) → ℕ → ℕ
copied a xs i j memory x = if leb (a + i) x && ltb x (a + j) then get_or xs (x - a) 0 else memory x

poked-chunk :
    (a i : ℕ) (xs : List ℕ) (memory : ℕ → ℕ)
    → All (λ x. x < 256) xs
    → poked (a + i) (chunk xs i) memory ≡ copied a xs i (i + 8) memory
poked-chunk a i xs memory h = fun_ext λ x. elim (Bool-cases (within (a + i) 8 x)) [
  | inl e ↦
      let lo : a + i ≤ x = ground arith in
      let hi : x < a + i + 8 = ground arith in
      let index : i + (x - (a + i)) ≡ x - a = omega arith in
      let b = byte-chunk xs i (x - (a + i)) h (omega arith) in
      ground (arith, b ∙ ap (λ k. get_or xs k 0) index)
  | inr e ↦ ground arith
]

module _ {Target : Type 0} (p : Ptrace Target) (laws : IsPtrace p) (a : ℕ) (xs : List ℕ)
    (small : All (λ x. x < 256) xs) where
  pub write_patch_lem :
      (rounds i : ℕ) (t : Target)
      → (p.view t).stopped ≡ true
      → Mapped (p.view t) (a + i) (8 * rounds)
      → a + (i + 8 * rounds) ≤ 18446744073709551616
      → (t' : Target) × (write_patch p rounds i a xs t ≡ (ok tt, t'))
        × (p.view t'
            ≡ record (p.view t) { memory = copied a xs i (i + 8 * rounds) (p.view t).memory })
  unfolding write_patch
  write_patch_lem zero i t s m top =
      (t, refl, ap (λ (m : ℕ → ℕ). record (p.view t) { memory = m }) (fun_ext λ x. ground arith))
  write_patch_lem (suc rounds) i t s m top =
      let address : u64 (a + i) ≡ a + i = omega arith in
      let (t₁, e, v, _) = laws.writes (a + i) (chunk xs i) t s (λ x h k. m x h (omega arith)) in
      let s₁ : (p.view t₁).stopped ≡ true = ap (λ (w : View). w.stopped) v ∙ s in
      let m₁ : Mapped (p.view t₁) (a + (i + 8)) (8 * rounds) =
        λ x h k. ap (λ (w : View). w.mapped x) v ∙ m x (omega arith) (omega arith) in
      let (t₂, e₂, v₂) = write_patch_lem rounds (i + 8) t₁ s₁ m₁ (omega arith) in
      (
        t₂,
        ap
              (λ (x : ℕ).
                (perform other (p.write x (chunk xs i)) >> write_patch p rounds (i + 8) a xs) t)
              address
            ∙ rw (e, e₂),
        v₂
            ∙ ap
                (λ (w : View). record w {
                  memory = copied a xs (i + 8) (i + 8 + 8 * rounds) w.memory;
                })
                v
            ∙ ap (λ (m : ℕ → ℕ). record (p.view t) { memory = m })
                (ap (copied a xs (i + 8) (i + 8 + 8 * rounds))
                    (poked-chunk a i xs (p.view t).memory small)
                  ∙ fun_ext λ x. ground arith),
      )

-- Nothing is copied to an address that is not mapped.
pub write_patch-refuses :
    {Target : Type 0} (p : Ptrace Target)
    → IsPtrace p
    → (rounds a : ℕ) (xs : List ℕ) (t : Target) → (p.view t).mapped a ≡ false
    → a < 18446744073709551616
    → 0 < rounds
    → write_patch p rounds 0 a xs t ≡ (err other, t)
unfolding write_patch
write_patch-refuses p laws zero a xs t hole top some_round = absurd (omega arith)
write_patch-refuses p laws (suc r) a xs t hole top some_round =
    let address : u64 (a + 0) ≡ a = omega arith in rw (address, laws.refuses a (chunk xs 0) t hole)
