-- ===== src/Words.antt =====
-- Machine words as numbers, and their bytes, the lowest first: `to_le_bytes`, `from_le_bytes` and
-- the `memcpy` of a `long` on a little-endian machine.
use living_codebase.Prelude.{◌≡◌, ◌<◌, ℕ, zero, suc, refl, ◌+◌, ◌*◌, ◌/◌, ◌%◌, arith}

unfoldable pub byte : ℕ → ℕ → ℕ
byte w zero = w % 256
byte w (suc i) = byte (w / 256) i

-- The word with the bytes `f 0`, `f 1` up to `f (n - 1)`.
unfoldable pub word : ℕ → (ℕ → ℕ) → ℕ
word zero f = 0
word (suc n) f = f 0 + 256 * word n (λ i. f (suc i))

pub byte-lt : (w i : ℕ) → byte w i < 256
unfolding byte
byte-lt w zero = omega arith
byte-lt w (suc i) = byte-lt (w / 256) i

pub byte-word :
    (n : ℕ) (f : ℕ → ℕ) (i : ℕ) → ((k : ℕ) → f k < 256) → i < n → byte (word n f) i ≡ f i
unfolding byte word
byte-word zero f i b h = absurd (omega arith)
byte-word (suc n) f zero b h = omega (arith, b 0)
byte-word (suc n) f (suc i) b h =
    let low : (f 0 + 256 * word n (λ k. f (suc k))) / 256 ≡ word n (λ k. f (suc k)) =
      omega (arith, b 0) in
    rw low (byte-word n (λ k. f (suc k)) i (λ k. b (suc k)) (omega arith))

pub word_ext : (n : ℕ) (f g : ℕ → ℕ) → ((i : ℕ) → i < n → f i ≡ g i) → word n f ≡ word n g
unfolding word
word_ext zero f g h = refl
word_ext (suc n) f g h = omega (
  arith,
  h 0 (omega arith),
  word_ext n (λ i. f (suc i)) (λ i. g (suc i)) (λ i k. h (suc i) (omega arith)),
)
