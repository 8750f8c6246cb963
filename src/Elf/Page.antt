-- ===== src/Elf/Page.antt =====
-- What `elf_load` of kernel/drivers/elf/elf.c copies into one page.
use deva.Prelude.{
  ℕ, ◌+◌, ◌-◌, ◌*◌, ◌/◌, ◌%◌, ◌^◌, ◌≤◌, ◌<◌, min, ◌≡◌, ◌⊎◌, ap, ◌∙◌, ◌&&◌, arith, ltb, leb,
  if◌then◌else◌,
}
use deva.Prelude.Bits.{bit_and_high}
use deva.Paging.{page_size}
use deva.Elf.{
  Phdr, segment_start, segment_end, seg_lo, seg_hi, copy_count, dst_off, load_byte, copy_page,
}
use deva.Elf.Bytes.{load_byte-copy_in}

-- A page of the segment, whose end does not wrap.
pub record InSegment (ph : Phdr) (page_v : ℕ) : Type 0 where
  pub no_wrap : ph.p_vaddr + ph.p_memsz + 0xFFF < 2 ^ 32
  pub on_page : page_v % page_size ≡ 0
  pub from_start : segment_start ph ≤ page_v
  pub to_end : page_v < segment_end ph

module _ {ph : Phdr} {page_v : ℕ} (i : InSegment ph page_v) where
  start_lem : segment_start ph ≡ ph.p_vaddr / 2 ^ 12 * 2 ^ 12
  unfolding segment_start
  start_lem = bit_and_high 12 20 ph.p_vaddr (omega (arith, i.no_wrap))

  before_end : page_v < ph.p_vaddr + ph.p_memsz
  unfolding segment_end
  before_end =
      let e : (ph.p_vaddr + ph.p_memsz + 0xFFF) % 2 ^ 32 ≡ ph.p_vaddr + ph.p_memsz + 0xFFF =
        omega (arith, i.no_wrap) in
      let mask = bit_and_high 12 20 ((ph.p_vaddr + ph.p_memsz + 0xFFF) % 2 ^ 32) (omega arith) in
      omega (arith, e, mask, i.to_end, i.on_page)

  above : ph.p_vaddr < page_v + page_size
  above = omega (arith, start_lem, i.from_start, i.on_page)

  -- The bytes of the segment that come from the file.
  last : ℕ
  last = ph.p_vaddr + min ph.p_filesz ph.p_memsz

  hi_lem : seg_hi ph page_v ≡ min (ph.p_vaddr + ph.p_memsz) (page_v + page_size) - ph.p_vaddr
  unfolding seg_hi
  hi_lem = ground (arith, i.no_wrap, before_end, above)

  count_lem :
      (copy_count ph page_v ≡ min (page_v + page_size) last - (page_v + dst_off ph page_v))
      × (ph.p_vaddr + seg_lo ph page_v ≡ page_v + dst_off ph page_v)
      × (dst_off ph page_v < page_size)
      × (dst_off ph page_v ≡ ph.p_vaddr - page_v)
  unfolding copy_count seg_lo dst_off last
  count_lem = (
    ground (arith, hi_lem, i.no_wrap, before_end, above),
    ground (arith, above),
    ground (arith, above),
    ground (arith, above),
  )

  -- On a page of a loadable segment whose end, rounded up, does not wrap: of the frame the bytes
  -- whose addresses lie in the segment's part that the file has get the bytes of the file at that
  -- place, every other byte of the frame is what it was, and nothing outside the frame is written.
  pub copy_page_lem :
      (file : ℕ → ℕ) (frame : ℕ) (mem : ℕ → ℕ)
      → ((o : ℕ)
          → o < page_size
          → load_byte (copy_page file ph page_v frame mem) (frame + o) ≡ (
              if leb ph.p_vaddr (page_v + o)
                && ltb (page_v + o) (ph.p_vaddr + min ph.p_filesz ph.p_memsz)
              then file (ph.p_offset + (page_v + o - ph.p_vaddr)) % 2 ^ 8
              else load_byte mem (frame + o)))
        × ((b : ℕ)
            → (b < frame) ⊎ (frame + page_size ≤ b)
            → load_byte (copy_page file ph page_v frame mem) b ≡ load_byte mem b)
  unfolding copy_page last
  copy_page_lem file frame mem =
      let (count, start, off, gap) = count_lem in
      let at = frame + dst_off ph page_v in
      let src = ph.p_offset + seg_lo ph page_v in
      let n = copy_count ph page_v in
      (
        λ o lt.
            let got = load_byte-copy_in file src at n mem (frame + o) in
            let same : dst_off ph page_v ≤ o
                → file (src + (frame + o - at)) ≡ file (ph.p_offset + (page_v + o - ph.p_vaddr)) =
              λ le. ap file (omega (arith, le, start)) in
            got ∙ ground (arith, count, gap, lt, same),
        λ b out. load_byte-copy_in file src at n mem b ∙ ground (arith, count, gap, off, out),
      )
