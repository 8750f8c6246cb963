-- ===== src/Heap/Tests.antt =====
-- Runs of the heap of kernel/drivers/mm/mm.c, and its theorems on a small heap.
use deva.Prelude.{
  ℕ, ◌+◌, ◌%◌, ◌^◌, ◌≤◌, ◌<◌, ◌≡◌, refl, Bool, true, ◌||◌, Option, none, some, List, [], ◌∷◌, arith,
  ◌==◌, if◌then◌else◌, length,
}
use deva.Paging.{
  Paging, alloc_frame, find_free, bm_test, bm_set, map_page, alloc_page_table, set_entry,
}
use deva.Heap.{
  Heap, heap_start, used_magic, free_magic, magic_of, block_sz, needed_for, grow_pages, add_page,
  add_block, heap_grow, walk, split_block, take_block, malloc, free, heap_grow_pages,
}
use deva.Heap.FreeList.{count}
use deva.Heap.Blocks.{IsHeap, in_use, Allocated, Freed}
use deva.Heap.Malloc.{malloc_lem}
use deva.Heap.Free.{free_lem}
use deva.Heap.Cycle.{free-malloc}
use deva.Heap.Errors.{malloc_stuck, malloc_in_vain}

-- 64 frames from the address 0 on, the first two in use, the kernel's directory at 0x1000.
abbrev small_paging : Paging
small_paging = record {
  frame_bitmap = λ i. if i == 0 then 3 else 0;
  total_frames = 64;
  kernel_dir = 0x1000;
  current_dir = 0x1000;
  mem = λ a. 0;
}

abbrev out_of_frames : Paging
out_of_frames = record small_paging { total_frames = 0 }

abbrev boot_heap : Heap
boot_heap = record {
  free_list = 0;
  heap_cur = heap_start;
  heap_max = heap_start;
  words = λ a. 7;
  paging = small_paging;
}

-- A block in use, a free one of 64 bytes and another one in use.
abbrev second : ℕ
second = 0x01000040

abbrev third : ℕ
third = 0x01000080

abbrev three_blocks : ℕ → Bool
three_blocks b = b == heap_start || b == second || b == third

abbrev three_words : ℕ → ℕ
three_words a =
    if a == heap_start || a == second
    then 64
    else if a == third
    then 0x7F80
    else if a == magic_of heap_start || a == magic_of third
    then used_magic
    else if a == magic_of second
    then free_magic
    else 0

abbrev three_heap : Paging → ℕ → Heap
three_heap pg max = record {
  free_list = second;
  heap_cur = 0x01008000;
  heap_max = max;
  words = three_words;
  paging = pg;
}

three_heap-IsHeap :
    (pg : Paging) (max : ℕ)
    → 0x01008000 ≤ max
    → max < 2 ^ 32
    → max % 4 ≡ 0
    → IsHeap (three_heap pg max) three_blocks (second ∷ [])
three_heap-IsHeap pg max l u e = record {
  cur_le_max = l;
  max_fits = u;
  start_le_cur = omega arith;
  max_aligned = e;
  cur_aligned = refl;
  low = λ b t. ground (arith, t);
  aligned = λ b t. ground (arith, t);
  size_aligned = λ b t. ground (arith, t);
  wide = λ b t. ground (arith, t);
  within = λ b t. ground (arith, t);
  apart = λ b c t u l. ground (arith, t, u, l);
  follows = λ b t l. ground (arith, t, l);
  marked = λ b t. ground (arith, t);
  listed = λ b. ground arith;
  chained = (refl, omega arith, refl);
}

-- Two requests to a heap that has just started: the first follows its header, the second the first.
abbrev first_malloc : Option ℕ
first_malloc = elim (malloc 5 100 boot_heap) [
  | none ↦ none
  | some (p, h) ↦ elim (malloc 5 7 h) [ none ↦ none | some (q, h') ↦ some (p + q) ]
]

first_malloc_test : first_malloc ≡ some (heap_start + 12 + (heap_start + 112 + 12))
unfolding malloc heap_grow grow_pages add_page add_block alloc_frame find_free bm_test bm_set
    map_page alloc_page_table set_entry walk needed_for split_block take_block
first_malloc_test = refl

-- The wrap-around of the size: almost 4 GiB are taken for 4 bytes.
needed_for_test : needed_for 0xFFFFFFF8 ≡ 4
unfolding needed_for
needed_for_test = refl

three-IsHeap : IsHeap (three_heap small_paging 0x01008000) three_blocks (second ∷ [])
three-IsHeap = three_heap-IsHeap small_paging 0x01008000 (omega arith) (omega arith) refl

malloc_lem_example :
    (b : ℕ) × (h' : Heap) × (blocks' : ℕ → Bool) × (frees' : List ℕ) × (malloc 3 20
        (three_heap small_paging 0x01008000)
      ≡ some (b + block_sz, h'))
    × IsHeap h' blocks' frees'
    × Allocated (three_heap small_paging 0x01008000) h' three_blocks blocks' b (20 + block_sz)
    × (length frees' ≤ 1)
malloc_lem_example =
    malloc_lem three-IsHeap 2 20 second (omega arith) (omega arith) (omega arith) (omega arith)
      (omega arith)

free_lem_example :
    (h' : Heap) × (blocks' : ℕ → Bool) × (frees' : List ℕ) × (free 2
        (heap_start + block_sz)
        (three_heap small_paging 0x01008000)
      ≡ some h')
    × IsHeap h' blocks' frees'
    × Freed (three_heap small_paging 0x01008000) h' three_blocks blocks' heap_start
free_lem_example = free_lem three-IsHeap 2 heap_start (omega arith) refl refl

free-malloc_example :
    (p : ℕ) × (h1 h2 : Heap) × (blocks2 : ℕ → Bool) × (frees2 : List ℕ) × (malloc 3 20
        (three_heap small_paging 0x01008000)
      ≡ some (p, h1))
    × (free 2 p h1 ≡ some h2)
    × IsHeap h2 blocks2 frees2
    × ((y : ℕ) → in_use h2 blocks2 y ≡ in_use (three_heap small_paging 0x01008000) three_blocks y)
free-malloc_example =
    free-malloc three-IsHeap 2 20 second (omega arith) refl (omega arith) (omega arith)
      (omega arith) (omega arith)

too_small_example : (y : ℕ) → 1 ≤ count y (second ∷ []) → three_words y < needed_for 100
unfolding needed_for
too_small_example y m = ground (arith, m)

out_of_frames_lem : alloc_frame out_of_frames ≡ (0, out_of_frames)
unfolding alloc_frame find_free
out_of_frames_lem = refl

malloc_stuck_example : malloc 9 100 (three_heap out_of_frames 0x01009000) ≡ none
malloc_stuck_example =
    malloc_stuck (three_heap-IsHeap out_of_frames 0x01009000 (omega arith) (omega arith) refl) 100
      (omega arith) (omega arith) too_small_example out_of_frames_lem (omega arith) 9

grows_lem : (grow_pages heap_grow_pages (three_heap small_paging 0x01008000)).0 ≡ true
unfolding grow_pages add_page alloc_frame find_free bm_test bm_set map_page alloc_page_table
    set_entry
grows_lem = refl

malloc_in_vain_example :
    (h' : Heap) × (blocks' : ℕ → Bool) × (malloc 3 100 (three_heap small_paging 0x01008000)
      ≡ some (0, h'))
    × IsHeap h' blocks' (0x01008000 ∷ second ∷ [])
    × (32768 ≤ h'.words 0x01008000)
malloc_in_vain_example =
    malloc_in_vain three-IsHeap 100 (omega arith) (omega arith) too_small_example 2 (omega arith)
      (omega arith) grows_lem
