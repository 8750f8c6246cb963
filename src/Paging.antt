-- ===== src/Paging.antt =====
-- Frames and page tables, kernel/drivers/paging/paging.c.
-- Physical memory is a function from the address of an aligned 32-bit word to the word. The code
-- reaches a frame through the identity mapping, by its physical address, and so does the model;
-- loading CR3 and setting CR0 are assembly and are left out.
pub mod Frames
pub mod Owners
pub mod Tables
pub mod Map
pub mod Boot
mod Tests
use deva.Prelude.{
  ℕ, zero, suc, ◌+◌, ◌-◌, ◌*◌, ◌/◌, ◌%◌, ◌^◌, Bool, ◌&&◌, Option, none, some, bit_and, bit_or, ltb,
  leb, ◌==◌, if◌then◌else◌, update, not_zero,
}

abbrev pub page_size : ℕ
page_size = 4096

abbrev pub page_entries : ℕ
page_entries = 1024

abbrev pub pte_present : ℕ
pte_present = 1

abbrev pub pte_rw : ℕ
pte_rw = 2

abbrev pub pte_user : ℕ
pte_user = 4

abbrev pub pte_frame_mask : ℕ
pte_frame_mask = 0xFFFFF000

abbrev pub max_memory_bytes : ℕ
max_memory_bytes = 64 * 1024 * 1024

-- The static variables, and the physical memory that the tables stand in.
pub record Paging : Type 0 where
  pub frame_bitmap : ℕ → ℕ
  pub total_frames : ℕ
  pub kernel_dir : ℕ
  pub current_dir : ℕ
  pub mem : ℕ → ℕ

abbrev pub dir_idx : ℕ → ℕ
dir_idx v = v / 2 ^ 22

abbrev pub tbl_idx : ℕ → ℕ
tbl_idx v = bit_and (v / 2 ^ 12) 0x3FF

abbrev pub frame_of : ℕ → ℕ
frame_of addr = addr / page_size

abbrev pub addr_of : ℕ → ℕ
addr_of frame = frame * page_size % 2 ^ 32

unfoldable pub bm_set : (ℕ → ℕ) → ℕ → ℕ → ℕ
bm_set bm f = update bm (f / 32) (bit_or (bm (f / 32)) (2 ^ (f % 32)))

-- `&= ~(1u << k)`: the complement in 32 bits.
pub bm_clear : (ℕ → ℕ) → ℕ → ℕ → ℕ
bm_clear bm f = update bm (f / 32) (bit_and (bm (f / 32)) (2 ^ 32 - 1 - 2 ^ (f % 32)))

unfoldable pub bm_test : (ℕ → ℕ) → ℕ → Bool
bm_test bm f = not_zero (bit_and (bm (f / 32) / 2 ^ (f % 32)) 1)

-- The loop of `alloc_frame` from frame `i`, with `n` frames to go.
unfoldable pub find_free : (ℕ → ℕ) → ℕ → ℕ → Option ℕ
find_free bm i zero = none
find_free bm i (suc n) = let rest = find_free bm (i + 1) n in if bm_test bm i then rest else some i

-- The address of a frame that was free, or 0.
unfoldable pub alloc_frame : Paging → ℕ × Paging
alloc_frame s = elim (find_free s.frame_bitmap 0 s.total_frames) [
  | none ↦ (0, s)
  | some i ↦ (addr_of i, record s { frame_bitmap = bm_set s.frame_bitmap i })
]

pub free_frame : ℕ → Paging → Paging
free_frame frame_addr s =
    let f = frame_of frame_addr in
    if ltb f s.total_frames then record s { frame_bitmap = bm_clear s.frame_bitmap f } else s

-- `memset(t, 0, 4096)`, word by word.
abbrev pub zero_page : (ℕ → ℕ) → ℕ → ℕ → ℕ
zero_page mem t a = if leb t a && ltb a (t + page_size) then 0 else mem a

unfoldable pub alloc_page_table : Paging → ℕ × Paging
alloc_page_table s =
    let (frame, s1) = alloc_frame s in
    if frame == 0 then (0, s1) else (frame, record s1 { mem = zero_page s1.mem frame })

-- `p->entries[i]` of a directory or a table.
abbrev pub entry_at : ℕ → ℕ → ℕ
entry_at p i = p + 4 * i

abbrev pub is_present : ℕ → Bool
is_present e = not_zero (bit_and e pte_present)

-- The last line of `map_page`, for a table that is there.
unfoldable pub set_entry : ℕ → ℕ → ℕ → ℕ → Paging → Paging
set_entry table ti paddr flags s = record s {
  mem =
      update s.mem (entry_at table ti)
        (bit_or (bit_or (bit_and paddr pte_frame_mask) flags) pte_present);
}

unfoldable pub map_page : ℕ → ℕ → ℕ → ℕ → Paging → Paging
map_page dir vaddr paddr flags s =
    let di = dir_idx vaddr in
    let ti = tbl_idx vaddr in
    if is_present (s.mem (entry_at dir di))
    then set_entry (bit_and (s.mem (entry_at dir di)) pte_frame_mask) ti paddr flags s
    else (let (table, s1) = alloc_page_table s in
        if table == 0
        then s1
        else set_entry table ti paddr flags (record s1 {
          mem =
              update s1.mem (entry_at dir di)
                (bit_or (bit_or (bit_or table flags) pte_present) pte_rw);
        }))

-- The physical address of a page, or 0.
pub get_physical : ℕ → ℕ → Paging → ℕ
get_physical dir vaddr s =
    let e = s.mem (entry_at dir (dir_idx vaddr)) in
    let p = s.mem (entry_at (bit_and e pte_frame_mask) (tbl_idx vaddr)) in
    if is_present e then (if is_present p then bit_and p pte_frame_mask else 0) else 0

-- The loop that clones the entries of the kernel's directory: `n` entries from `i` on.
pub clone_entries : (ℕ → ℕ) → ℕ → ℕ → ℕ → ℕ → ℕ → ℕ
clone_entries mem dir kernel_dir i zero = mem
clone_entries mem dir kernel_dir i (suc n) =
    clone_entries (update mem (entry_at dir i) (mem (entry_at kernel_dir i))) dir kernel_dir (i + 1)
      n

pub create_page_directory : Paging → ℕ × Paging
create_page_directory s =
    let (dir, s1) = alloc_frame s in
    if dir == 0 then (0, s1) else (
      dir,
      record s1 { mem = clone_entries (zero_page s1.mem dir) dir s1.kernel_dir 0 page_entries },
    )

-- `for (a = start; a < end; a += PAGE_SIZE)`. There are 2 ^ 20 pages, which is the fuel; with an end
-- in the last page of the address space the source's `a` wraps and the loop never ends.
pub for_pages : ℕ → (ℕ → Paging → Paging) → ℕ → ℕ → Paging → Paging
for_pages zero body a end s = s
for_pages (suc fuel) body a end s =
    let rest = for_pages fuel body (a + page_size) end (body a s) in if ltb a end then rest else s

-- `x & ~(PAGE_SIZE - 1)` on a 32-bit value.
abbrev pub page_down : ℕ → ℕ
page_down x = bit_and (x % 2 ^ 32) pte_frame_mask

pub reserve_frame : ℕ → Paging → Paging
reserve_frame a s =
    let f = frame_of a in
    if ltb f s.total_frames then record s { frame_bitmap = bm_set s.frame_bitmap f } else s

pub reserve_range : ℕ → ℕ → Paging → Paging
unfolding reserve_frame
reserve_range addr size s =
    for_pages (2 ^ 20) reserve_frame (page_down addr) (page_down (addr + size + page_size - 1)) s

-- The frames that `paging_init` counts: at most 64 MiB of them.
pub frames_of : ℕ → ℕ
frames_of mem_upper_kib =
    let mem_total = (mem_upper_kib + 1024) % 2 ^ 32 * 1024 % 2 ^ 32 in
    (if ltb max_memory_bytes mem_total then max_memory_bytes else mem_total) / page_size

abbrev pub ident_max : ℕ
ident_max = 32 * 1024 * 1024

-- The second half of `paging_init`: the kernel's directory and its mappings.
pub map_kernel : ℕ → ℕ → Paging → Paging
map_kernel fb_addr fb_size s =
    let (dir, s1) = alloc_frame s in
    let s2 = record s1 { kernel_dir = dir; mem = zero_page s1.mem dir } in
    let all = s2.total_frames * page_size % 2 ^ 32 in
    let ident_limit = if ltb ident_max all then ident_max else all in
    let s3 = for_pages (2 ^ 20) (λ a. map_page dir a a pte_rw) 0 ident_limit s2 in
    let s4 =
      if not_zero fb_size && leb ident_limit fb_addr
      then for_pages (2 ^ 20) (λ a. map_page dir a a pte_rw) (page_down fb_addr)
          ((fb_addr + fb_size) % 2 ^ 32) s3
      else s3 in
    record s4 { current_dir = dir }

-- `kernel_end` is the address of `__bss_end`, which the linker script gives.
pub paging_init : ℕ → ℕ → ℕ → ℕ → Paging → Paging
unfolding frames_of
paging_init kernel_end mem_upper_kib fb_addr fb_size s =
    let s1 = record s { total_frames = frames_of mem_upper_kib; frame_bitmap = λ i. 0 } in
    let s2 = reserve_range 0 kernel_end s1 in
    let s3 = if not_zero fb_size then reserve_range fb_addr fb_size s2 else s2 in
    map_kernel fb_addr fb_size s3
