-- ===== src/Paging/Boot.antt =====
-- `create_page_directory` and `reserve_range` of kernel/drivers/paging/paging.c.
use deva.Prelude.{
  ℕ, zero, suc, ◌+◌, ◌-◌, ◌*◌, ◌%◌, ◌^◌, ◌≤◌, ◌<◌, ◌≡◌, ◌≢◌, refl, ◌∙◌, ◌⊎◌, inl, inr, true, ◌&&◌,
  arith, ltb, leb, ◌==◌, if◌then◌else◌, update,
}
use deva.Paging.{
  Paging, page_size, entry_at, dir_idx, alloc_frame, zero_page, clone_entries,
  create_page_directory, get_physical, for_pages, reserve_frame, reserve_range, page_down,
}
use deva.Paging.Frames.{is_used, Allocates, alloc_frame_lem, bm_test-bm_set}
use deva.Paging.Tables.{page_of, slot, IsDirectory, frame_mask}
use deva.Paging.Map.Present.{get_physical_lem}

clone_entries_lem :
    (mem : ℕ → ℕ) (dir kernel i n a : ℕ)
    → (dir + 4096 ≤ kernel) ⊎ (kernel + 4096 ≤ dir)
    → dir % page_size ≡ 0
    → i + n ≤ 1024
    → clone_entries mem dir kernel i n a ≡ (
        if leb (dir + 4 * i) a && ltb a (dir + 4 * (i + n)) && (a % 4 == 0)
        then mem (kernel + (a - dir))
        else mem a)
unfolding clone_entries
clone_entries_lem mem dir kernel i zero a apart al le = ground arith
clone_entries_lem mem dir kernel i (suc n) a apart al le = ground (
  arith,
  clone_entries_lem (update mem (entry_at dir i) (mem (entry_at kernel i))) dir kernel (i + 1) n a
      apart al (omega arith),
)

is_used-reserve_frame :
    (a f : ℕ) (s : Paging)
    → is_used (reserve_frame a s) f
      ≡ (if page_of a == f && ltb f s.total_frames then true else is_used s f)
unfolding reserve_frame
is_used-reserve_frame a f s = ground (arith, bm_test-bm_set s.frame_bitmap (page_of a) f)

total-reserve_frame : (a : ℕ) (s : Paging) → (reserve_frame a s).total_frames ≡ s.total_frames
unfolding reserve_frame
total-reserve_frame a s = ground arith

-- Marking the pages from `a` up to `end`, for enough fuel.
reserve_loop_lem :
    (fuel a end f : ℕ) (s : Paging)
    → end ≤ a + fuel * page_size
    → a % page_size ≡ 0
    → end % page_size ≡ 0
    → (is_used (for_pages fuel reserve_frame a end s) f ≡ (
        if leb (page_of a) f && ltb f (page_of end) && ltb f s.total_frames
        then true
        else is_used s f))
unfolding for_pages
reserve_loop_lem zero a end f s h al el = ground arith
reserve_loop_lem (suc fuel) a end f s h al el = ground (
  arith,
  reserve_loop_lem fuel (a + page_size) end f (reserve_frame a s),
  is_used-reserve_frame a f s,
  total-reserve_frame a s,
)

total-for_pages :
    (fuel a end : ℕ) (s : Paging)
    → (for_pages fuel reserve_frame a end s).total_frames ≡ s.total_frames
unfolding for_pages
total-for_pages zero a end s = refl
total-for_pages (suc fuel) a end s =
    ground
      (arith, total-for_pages fuel (a + page_size) end (reserve_frame a s), total-reserve_frame a s)

reserve_range_lem :
    (addr size : ℕ) (s : Paging)
    → reserve_range addr size s
      ≡ for_pages
          (2 ^ 20)
          reserve_frame
          (page_down addr)
          (page_down (addr + size + page_size - 1))
          s
unfolding reserve_range
reserve_range_lem addr size s = refl

-- `reserve_range` marks the frames that the range of `size` bytes from `addr` on touches, those
-- that exist, and no other, if rounding the end up does not wrap.
pub is_used-reserve_range :
    (addr size f : ℕ) (s : Paging)
    → addr + size + page_size ≤ 2 ^ 32
    → is_used (reserve_range addr size s) f ≡ (
        if leb (page_of addr) f
          && ltb f (page_of (addr + size + page_size - 1))
          && ltb f s.total_frames
        then true
        else is_used s f)
is_used-reserve_range addr size f s h =
    let lo = frame_mask (addr % 2 ^ 32) (omega arith) in
    let hi = frame_mask ((addr + size + page_size - 1) % 2 ^ 32) (omega arith) in
    ground (
      arith,
      reserve_range_lem addr size s,
      reserve_loop_lem (2 ^ 20) (page_down addr) (page_down (addr + size + page_size - 1)) f s,
      lo,
      hi,
    )

module _ (s : Paging) (d : IsDirectory s.kernel_dir s) (f : ℕ) (al : Allocates s f) where
  abbrev cloned : Paging
  cloned = record s {
    frame_bitmap = (alloc_frame s).1.frame_bitmap;
    mem = clone_entries (zero_page s.mem (f * page_size)) (f * page_size) s.kernel_dir 0 1024;
  }

  some_frame : f ≢ 0
  some_frame = ground (arith, al.was_free, d.zero_marked)

  kernel_apart : page_of s.kernel_dir ≢ f
  kernel_apart = ground (arith, al.was_free, d.marked)

  create_cloned : create_page_directory s ≡ (f * page_size, cloned)
  unfolding create_page_directory
  create_cloned = ground (arith, al.address, al.rest, some_frame)

  cloned-slot : (i : ℕ) → i < 1024 → slot cloned (f * page_size) i ≡ slot s s.kernel_dir i
  cloned-slot i lt = ground (
    arith,
    clone_entries_lem (zero_page s.mem (f * page_size)) (f * page_size) s.kernel_dir 0 1024
        (f * page_size + 4 * i),
    kernel_apart,
    d.aligned,
  )

  cloned_other :
      (b k : ℕ)
      → b ≢ f
      → k < 1024
      → cloned.mem (b * page_size + 4 * k) ≡ s.mem (b * page_size + 4 * k)
  cloned_other b k ne lt = ground (
    arith,
    clone_entries_lem (zero_page s.mem (f * page_size)) (f * page_size) s.kernel_dir 0 1024
        (b * page_size + 4 * k),
    kernel_apart,
    d.aligned,
  )

  cloned_lookup :
      (w : ℕ) → w < 2 ^ 32 → get_physical (f * page_size) w cloned ≡ get_physical s.kernel_dir w s
  cloned_lookup w in_w =
      let dw = dir_idx w in
      let old = d.words dw (omega arith) in
      let slots = cloned-slot dw (omega arith) in
      let fits : slot cloned (f * page_size) dw < 2 ^ 32 = ground (arith, slots, old) in
      get_physical_lem (f * page_size) w cloned fits
      ∙ rw slots (
          ground (
            arith,
            get_physical_lem s.kernel_dir w s old,
            d.tables dw (omega arith),
            al.was_free,
            cloned_other (page_of (slot s s.kernel_dir dw)) (page_of w % 1024),
          ))

-- A new directory maps every page as the kernel's does, if a frame was free for it.
pub create_page_directory-get_physical :
    (s : Paging)
    → IsDirectory s.kernel_dir s
    → (alloc_frame s).0 ≢ 0
    → (w : ℕ) → w < 2 ^ 32
    → get_physical (create_page_directory s).0 w (create_page_directory s).1
      ≡ get_physical s.kernel_dir w s
create_page_directory-get_physical s d ne w in_w = elim (alloc_frame_lem s d.few) [
  | inl (f, al) ↦ rw (create_cloned s d f al) (cloned_lookup s d f al w in_w)
  | inr (all, e) ↦ absurd (ground arith)
]
