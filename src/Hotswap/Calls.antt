-- ===== src/Hotswap/Calls.antt =====
-- The loop and the jump of this injector, compared with those of the daemon's.
use living_codebase.Prelude.{
  ◌≡◌, ◌<◌, sym, fun_ext, refl, ℕ, zero, suc, ◌+◌, ◌%◌, some, List, arith,
}
use living_codebase.Words.{byte, word_ext}
use living_codebase.Ptrace.{Ptrace}
use living_codebase.Injector.{jmp_byte, jmp_val, relative_offset, write_patch, redirect}
use living_codebase.Hotswap.{jmp_offset, target_jmp_word, write_words, write_jump}

byte-mod : (w i : ℕ) → i < 4 → byte (w % 4294967296) i ≡ byte w i
unfolding byte
byte-mod w zero h = omega arith
byte-mod w (suc zero) h = omega arith
byte-mod w (suc (suc zero)) h = omega arith
byte-mod w (suc (suc (suc zero))) h = omega arith
byte-mod w (suc (suc (suc (suc i)))) h = absurd (omega arith)

jmp_byte-mod : (offset w i : ℕ) → jmp_byte (offset % 4294967296) w i ≡ jmp_byte offset w i
unfolding jmp_byte
jmp_byte-mod offset w zero = refl
jmp_byte-mod offset w (suc i) = ground (arith, byte-mod offset i)

-- The word with the jump is the daemon's, for any word of the function and any two addresses.
pub target_jmp_word-eq-jmp_val :
    (a f w : ℕ) → target_jmp_word (jmp_offset a f) w ≡ jmp_val (relative_offset a f) w
unfolding target_jmp_word jmp_offset jmp_val relative_offset
target_jmp_word-eq-jmp_val a f w =
    word_ext 8 (jmp_byte (jmp_offset a f) w) (jmp_byte (relative_offset a f) w)
      (λ i h. sym (jmp_byte-mod (jmp_offset a f) w i))

module _ {Target : Type 0} (p : Ptrace Target) where
  pub write_words-eq-write_patch :
      (rounds i a : ℕ) (xs : List ℕ) → write_words p rounds i a xs ≡ write_patch p rounds i a xs
  unfolding write_words write_patch
  write_words-eq-write_patch zero i a xs = refl
  write_words-eq-write_patch (suc rounds) i a xs =
      fun_ext λ t. rw (write_words-eq-write_patch rounds (i + 8) a xs)

  -- Where the word of the function can be read.
  pub write_jump-eq-redirect :
      (f a w : ℕ) (t : Target) → p.read f t ≡ some w → write_jump p f a t ≡ redirect p f a t
  unfolding write_jump redirect
  write_jump-eq-redirect f a w t e = rw (e, target_jmp_word-eq-jmp_val a f w)
