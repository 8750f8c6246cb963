-- ===== src/Klib/Mem.antt =====
-- `memcpy`, `memmove`, `memset`, `memcmp` and `memchr` of kernel/klib/string/string.c. A loop
-- `while (n--)` recurs on `n`; a function that returns `dest` returns the memory instead.
pub mod Copy
pub mod Compare
mod Tests
use deva.Prelude.{ℕ, zero, suc, ◌+◌, ◌%◌, Option, none, some, ltb, ◌==◌, if◌then◌else◌, update}
use deva.Prelude.Int.{ℤ, pos, sub_ℕ}

-- Memory, by address.
abbrev pub Mem : Type 0
Mem = ℕ → ℕ

-- `while (n--) *d++ = *s++;`
pub copy_up : Mem → ℕ → ℕ → ℕ → Mem
copy_up m d s zero = m
copy_up m d s (suc n) = copy_up (update m d (m s)) (d + 1) (s + 1) n

-- `while (n--) *--d = *--s;` from `d + n` and `s + n`.
pub copy_down : Mem → ℕ → ℕ → ℕ → Mem
copy_down m d s zero = m
copy_down m d s (suc n) = copy_down (update m (d + n) (m (s + n))) d s n

pub memcpy : Mem → ℕ → ℕ → ℕ → Mem
unfolding copy_up
memcpy m dest src n = copy_up m dest src n

pub memmove : Mem → ℕ → ℕ → ℕ → Mem
memmove m dest src n = if ltb dest src then copy_up m dest src n else copy_down m dest src n

-- `*p++ = (uint8_t)c`
pub memset : Mem → ℕ → ℕ → ℕ → Mem
memset m p c zero = m
memset m p c (suc n) = memset (update m p (c % 256)) (p + 1) c n

pub memcmp : Mem → ℕ → ℕ → ℕ → ℤ
memcmp m p1 p2 zero = pos 0
memcmp m p1 p2 (suc n) =
    let rest = memcmp m (p1 + 1) (p2 + 1) n in if m p1 == m p2 then rest else sub_ℕ (m p1) (m p2)

-- `none` is `NULL`.
pub memchr : Mem → ℕ → ℕ → ℕ → Option ℕ
memchr m p c zero = none
memchr m p c (suc n) = let rest = memchr m (p + 1) c n in if m p == c % 256 then some p else rest
