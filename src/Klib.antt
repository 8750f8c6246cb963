-- ===== src/Klib.antt =====
-- The kernel's C library, kernel/klib/string/string.c, over a byte memory.
-- A pointer is an address, a number; memory is a function from addresses to bytes. Pointer
-- arithmetic that leaves the address space is undefined in C and is not wrapped here.
pub mod Mem
pub mod Str
