-- ===== src/Elf.antt =====
-- The loader of programs, kernel/drivers/elf/elf.c, over the paging of
-- kernel/drivers/paging/paging.c. A file is a function of the index to its bytes, and physical memory
-- the words of Paging, written byte by byte. The messages on the terminal are left out, and the file
-- is never NULL: the only caller passes an array.
pub mod Bytes
pub mod Page
mod Tests
use deva.Prelude.{
  ℕ, zero, suc, ◌+◌, ◌-◌, ◌*◌, ◌/◌, ◌%◌, ◌^◌, Bool, true, false, ◌&&◌, ltb, ◌==◌, if◌then◌else◌,
  update, bit_and,
}
use deva.Paging.{
  Paging, page_size, pte_rw, pte_user, alloc_frame, get_physical, map_page, zero_page,
}
use deva.Fat32.{get16, get32}

abbrev pub pt_load : ℕ
pt_load = 1

-- The fields of the header and of a program header that the loader reads.
pub record Ehdr : Type 0 where
  pub e_type : ℕ
  pub e_machine : ℕ
  pub e_entry : ℕ
  pub e_phoff : ℕ
  pub e_phnum : ℕ

pub record Phdr : Type 0 where
  pub p_type : ℕ
  pub p_offset : ℕ
  pub p_vaddr : ℕ
  pub p_filesz : ℕ
  pub p_memsz : ℕ

pub ehdr_of : (ℕ → ℕ) → Ehdr
ehdr_of file = record {
  e_type = get16 file 16;
  e_machine = get16 file 18;
  e_entry = get32 file 24;
  e_phoff = get32 file 28;
  e_phnum = get16 file 44;
}

-- `ph[i]`, where an element has 32 bytes.
pub phdr_at : (ℕ → ℕ) → ℕ → ℕ → Phdr
phdr_at file phoff i =
    let at = phoff + 32 * i in
    record {
      p_type = get32 file at;
      p_offset = get32 file (at + 4);
      p_vaddr = get32 file (at + 8);
      p_filesz = get32 file (at + 16);
      p_memsz = get32 file (at + 20);
    }

-- The magic bytes, 32 bits, little-endian, x86, an executable.
pub elf_check : (ℕ → ℕ) → Bool
elf_check file =
    file 0 == 0x7F
    && file 1 == b'E'
    && file 2 == b'L'
    && file 3 == b'F'
    && file 4 == 1
    && file 5 == 1
    && (ehdr_of file).e_machine == 3
    && (ehdr_of file).e_type == 2

-- `start` and `end`, in 32 bits.
pub segment_start : Phdr → ℕ
segment_start ph = bit_and ph.p_vaddr 0xFFFFF000

pub segment_end : Phdr → ℕ
segment_end ph = bit_and ((ph.p_vaddr + ph.p_memsz + 0xFFF) % 2 ^ 32) 0xFFFFF000

-- Where the segment starts and ends inside the page, from `vaddr` on.
pub seg_lo : Phdr → ℕ → ℕ
seg_lo ph page_v = if ltb ph.p_vaddr page_v then page_v - ph.p_vaddr else 0

pub seg_hi : Phdr → ℕ → ℕ
seg_hi ph page_v =
    let last = (ph.p_vaddr + ph.p_memsz) % 2 ^ 32 in
    let page_end = (page_v + page_size) % 2 ^ 32 in
    ((if ltb last page_end then last else page_end) + 2 ^ 32 - ph.p_vaddr) % 2 ^ 32

-- The number of bytes that come from the file, and where in the page they go.
pub copy_count : Phdr → ℕ → ℕ
copy_count ph page_v =
    let hi = if ltb (seg_hi ph page_v) ph.p_filesz then seg_hi ph page_v else ph.p_filesz in
    if ltb (seg_lo ph page_v) ph.p_filesz then (hi + 2 ^ 32 - seg_lo ph page_v) % 2 ^ 32 else 0

pub dst_off : Phdr → ℕ → ℕ
dst_off ph page_v = if ltb ph.p_vaddr page_v then 0 else ph.p_vaddr - page_v

-- A byte of physical memory, little-endian in its word.
pub load_byte : (ℕ → ℕ) → ℕ → ℕ
load_byte mem a = mem (a - a % 4) / 2 ^ (8 * (a % 4)) % 2 ^ 8

pub store_byte : (ℕ → ℕ) → ℕ → ℕ → ℕ → ℕ
store_byte mem a v =
    let w = mem (a - a % 4) in
    let low = 2 ^ (8 * (a % 4)) in
    update mem (a - a % 4) (w / (low * 2 ^ 8) * (low * 2 ^ 8) + v % 2 ^ 8 * low + w % low)

-- `memcpy` from the file into physical memory.
pub copy_in : (ℕ → ℕ) → ℕ → ℕ → ℕ → (ℕ → ℕ) → ℕ → ℕ
copy_in file src dst zero mem = mem
copy_in file src dst (suc n) mem =
    copy_in file (src + 1) (dst + 1) n (store_byte mem dst (file src))

pub copy_page : (ℕ → ℕ) → Phdr → ℕ → ℕ → (ℕ → ℕ) → ℕ → ℕ
copy_page file ph page_v frame mem =
    copy_in file (ph.p_offset + seg_lo ph page_v) (frame + dst_off ph page_v) (copy_count ph page_v)
      mem

-- The body of the loop over the pages; false where no frame is left.
pub load_page : (ℕ → ℕ) → Phdr → ℕ → ℕ → Paging → Bool × Paging
load_page file ph dir page_v s =
    let there = get_physical dir page_v s in
    let (frame, s1) = alloc_frame s in
    let s2 =
      map_page dir page_v frame (pte_rw + pte_user) (record s1 { mem = zero_page s1.mem frame }) in
    if there == 0
    then (if frame == 0
        then (false, s1)
        else (true, record s2 { mem = copy_page file ph page_v frame s2.mem }))
    else (true, record s { mem = copy_page file ph page_v there s.mem })

-- A segment has at most 2 ^ 20 pages, which is the fuel.
pub load_pages : ℕ → (ℕ → ℕ) → Phdr → ℕ → ℕ → Paging → Bool × Paging
load_pages zero file ph dir page_v s = (true, s)
load_pages (suc fuel) file ph dir page_v s =
    let (ok, s1) = load_page file ph dir page_v s in
    let rest = load_pages fuel file ph dir (page_v + page_size) s1 in
    if ltb page_v (segment_end ph) then (if ok then rest else (false, s1)) else (true, s)

-- `n` program headers from header `i` on.
pub load_segments : (ℕ → ℕ) → ℕ → ℕ → ℕ → ℕ → Paging → Bool × Paging
load_segments file phoff dir i zero s = (true, s)
load_segments file phoff dir i (suc n) s =
    let ph = phdr_at file phoff i in
    let (ok, s1) = load_pages (2 ^ 20) file ph dir (segment_start ph) s in
    let loads = ph.p_type == pt_load in
    let rest = load_segments file phoff dir (i + 1) n (if loads then s1 else s) in
    if loads then (if ok then rest else (false, s1)) else rest

-- The entry of the program, or 0.
pub elf_load : ℕ → (ℕ → ℕ) → Paging → ℕ × Paging
elf_load dir file s =
    let eh = ehdr_of file in
    let (ok, s1) = load_segments file eh.e_phoff dir 0 eh.e_phnum s in
    if elf_check file then (if ok then (eh.e_entry, s1) else (0, s1)) else (0, s)
