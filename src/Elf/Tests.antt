-- ===== src/Elf/Tests.antt =====
-- Runs of kernel/drivers/elf/elf.c, and its theorem on one page.
use deva.Prelude.{
  ℕ, ◌+◌, ◌-◌, ◌%◌, ◌^◌, ◌≤◌, ◌<◌, ◌≡◌, ◌⊎◌, refl, ◌&&◌, arith, ltb, leb, if◌then◌else◌,
}
use deva.Elf.{
  Phdr, segment_start, segment_end, seg_lo, seg_hi, copy_count, dst_off, load_byte, copy_page,
}
use deva.Elf.Page.{InSegment, copy_page_lem}

-- 600 bytes of the file from 0x08048F00 on, and 200 more of zeros: pages 0x08048000 and 0x08049000.
abbrev two_pages : Phdr
two_pages = record {
  p_type = 1;
  p_offset = 0x100;
  p_vaddr = 0x08048F00;
  p_filesz = 600;
  p_memsz = 800;
}

abbrev some_file : ℕ → ℕ
some_file i = i % 2 ^ 8

second-InSegment : InSegment two_pages 0x08049000
unfolding segment_start segment_end
second-InSegment = record {
  no_wrap = omega arith;
  on_page = refl;
  from_start = omega arith;
  to_end = omega arith;
}

copy_page_lem_example :
    ((o : ℕ)
      → o < 4096
      → load_byte (copy_page some_file two_pages 0x08049000 0x5000 (λ a. 7)) (0x5000 + o) ≡ (
          if leb 0x08048F00 (0x08049000 + o) && ltb (0x08049000 + o) (0x08048F00 + 600)
          then some_file (0x100 + (0x08049000 + o - 0x08048F00)) % 2 ^ 8
          else load_byte (λ a. 7) (0x5000 + o)))
    × ((b : ℕ)
        → (b < 0x5000) ⊎ (0x5000 + 4096 ≤ b)
        → load_byte (copy_page some_file two_pages 0x08049000 0x5000 (λ a. 7)) b
          ≡ load_byte (λ a. 7) b)
copy_page_lem_example = copy_page_lem second-InSegment some_file 0x5000 (λ a. 7)

-- The second page gets the 344 bytes of the file behind the first 256.
count_test : (copy_count two_pages 0x08049000 ≡ 344) × (dst_off two_pages 0x08049000 ≡ 0)
unfolding copy_count dst_off seg_lo seg_hi
count_test = (refl, refl)
