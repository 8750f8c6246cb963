-- ===== src/Fat32/Words.antt =====
-- The words that kernel/drivers/fat32/fat32.c reads and writes in a buffer of bytes.
use deva.Prelude.{ℕ, ◌+◌, ◌*◌, ◌^◌, ◌<◌, ◌≤◌, ◌⊎◌, ◌≡◌, ◌≢◌, refl, arith}
use deva.Fat32.{get32, put32}

-- A word read where it was written, and one read at another aligned place.
pub get32-put32 :
    (buf : ℕ → ℕ) (off value : ℕ) → value < 2 ^ 32 → get32 (put32 buf off value) off ≡ value
unfolding get32 put32
get32-put32 buf off value h = ground arith

pub get32-put32_ne :
    (buf : ℕ → ℕ) (i j value : ℕ)
    → i ≢ j
    → get32 (put32 buf (4 * i) value) (4 * j) ≡ get32 buf (4 * j)
unfolding get32 put32
get32-put32_ne buf i j value h = ground arith

-- A word depends on the bytes of its sector alone.
pub get32_same :
    (a b : ℕ → ℕ) (off : ℕ)
    → ((i : ℕ) → i < 512 → a i ≡ b i)
    → off + 3 < 512
    → get32 a off ≡ get32 b off
unfolding get32
get32_same a b off h lt = rw (h off (omega arith)) (
    rw (h (off + 1) (omega arith))
      (rw (h (off + 2) (omega arith)) (rw (h (off + 3) (omega arith)) refl)))

pub put32_same :
    (a b : ℕ → ℕ) (off value i : ℕ) → a i ≡ b i → put32 a off value i ≡ put32 b off value i
unfolding put32
put32_same a b off value i h = ground (arith, h)

-- The bytes outside the word that is written, and a word of bytes that agree.
pub put32_outside :
    (buf : ℕ → ℕ) (off value b : ℕ) → (b < off) ⊎ (off + 4 ≤ b) → put32 buf off value b ≡ buf b
unfolding put32
put32_outside buf off value b h = ground (arith, h)

pub get32_agree :
    (a b : ℕ → ℕ) (off : ℕ)
    → ((i : ℕ) → off ≤ i → i < off + 4 → a i ≡ b i)
    → get32 a off ≡ get32 b off
unfolding get32
get32_agree a b off h = rw (h off (omega arith) (omega arith)) (
    rw (h (off + 1) (omega arith) (omega arith)) (
      rw (h (off + 2) (omega arith) (omega arith))
        (rw (h (off + 3) (omega arith) (omega arith)) refl)))
