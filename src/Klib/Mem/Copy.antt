-- ===== src/Klib/Mem/Copy.antt =====
-- What `memcpy`, `memmove` and `memset` of kernel/klib/string/string.c leave in memory.
use deva.Prelude.{
  ℕ, zero, suc, ◌+◌, ◌-◌, ◌%◌, ◌≤◌, ◌≡◌, ◌⊎◌, ◌&&◌, arith, ltb, leb, if◌then◌else◌, update,
}
use deva.Klib.Mem.{Mem, copy_up, copy_down, memcpy, memmove, memset}

-- Memory `m` with the `n` bytes from `d` on replaced by those of `old` from `s` on.
abbrev pub copied : Mem → ℕ → ℕ → ℕ → Mem
copied m d s n a = if leb d a && ltb a (d + n) then m (s + (a - d)) else m a

copy_up-copied :
    (m : Mem) (d s n a : ℕ) → (d ≤ s) ⊎ (s + n ≤ d) → copy_up m d s n a ≡ copied m d s n a
unfolding copy_up
copy_up-copied m d s zero a h = ground arith
copy_up-copied m d s (suc n) a h =
    ground (arith, copy_up-copied (update m d (m s)) (d + 1) (s + 1) n a (omega arith))

copy_down-copied : (m : Mem) (d s n a : ℕ) → s ≤ d → copy_down m d s n a ≡ copied m d s n a
unfolding copy_down
copy_down-copied m d s zero a h = ground arith
copy_down-copied m d s (suc n) a h =
    ground (arith, copy_down-copied (update m (d + n) (m (s + n))) d s n a h)

-- `memcpy` between regions that do not overlap, or downwards, copies the `n` bytes and changes
-- no other address.
pub memcpy_lem :
    (m : Mem) (dest src n a : ℕ)
    → (dest ≤ src) ⊎ (src + n ≤ dest)
    → memcpy m dest src n a ≡ copied m dest src n a
unfolding memcpy
memcpy_lem m dest src n a h = copy_up-copied m dest src n a h

-- `memmove` copies the `n` bytes as they were before the call, however the two regions overlap,
-- and changes no other address.
pub memmove_lem : (m : Mem) (dest src n a : ℕ) → memmove m dest src n a ≡ copied m dest src n a
unfolding memmove
memmove_lem m dest src n a =
    ground (arith, copy_up-copied m dest src n a, copy_down-copied m dest src n a)

-- `memset` fills the `n` bytes from `p` on with the low byte of `c`, and changes nothing else.
pub memset_lem :
    (m : Mem) (p c n a : ℕ) → memset m p c n a ≡ (if leb p a && ltb a (p + n) then c % 256 else m a)
unfolding memset
memset_lem m p c zero a = ground arith
memset_lem m p c (suc n) a = ground (arith, memset_lem (update m p (c % 256)) (p + 1) c n a)
