-- ===== src/Klib/Mem/Tests.antt =====
-- Runs of the memory functions of kernel/klib/string/string.c, and their theorems at concrete
-- inputs.
use deva.Prelude.{◌%◌, ◌≡◌, refl, some}
use deva.Prelude.Int.{negsuc}
use deva.Klib.Mem.{Mem, copy_up, copy_down, memcpy, memmove, memcmp, memchr}
use deva.Klib.Mem.Copy.{copied, memmove_lem}

-- The byte at each address is the address.
abbrev ramp : Mem
ramp a = a % 256

memmove_overlap : memmove ramp 12 10 5 16 ≡ 14
unfolding memmove copy_down copy_up
memmove_overlap = refl

memcpy_overlap : memcpy ramp 12 10 5 16 ≡ 10
unfolding memcpy copy_up
memcpy_overlap = refl

memcmp-ramp : memcmp ramp 3 5 4 ≡ negsuc 1
unfolding memcmp
memcmp-ramp = refl

memchr-ramp : memchr ramp 3 263 9 ≡ some 7
unfolding memchr
memchr-ramp = refl

memmove_lem_example : memmove ramp 12 10 5 16 ≡ copied ramp 12 10 5 16
memmove_lem_example = memmove_lem ramp 12 10 5 16
