-- ===== src/Heap.antt =====
-- The kernel heap, kernel/drivers/mm/mm.c.
-- The heap's memory is a function from the address of an aligned 32-bit word to the word, at the
-- virtual addresses the code uses; the frames below it come from Paging. A page that is mapped keeps
-- the words it had: the code does not clear it. A pointer is its address, and NULL is 0.
pub mod FreeList
pub mod Blocks
pub mod Found
pub mod Grow
pub mod Malloc
pub mod Free
pub mod Errors
pub mod Cycle
mod Tests
use deva.Prelude.{
  ℕ, zero, suc, ◌+◌, ◌-◌, ◌%◌, ◌^◌, Bool, true, false, ◌&&◌, Option, none, some, bit_and, ltb, leb,
  ◌==◌, if◌then◌else◌, update,
}
use deva.Paging.{Paging, page_size, pte_present, pte_rw, alloc_frame, map_page}

abbrev pub heap_start : ℕ
heap_start = 0x01000000

abbrev pub heap_grow_pages : ℕ
heap_grow_pages = 8

abbrev pub used_magic : ℕ
used_magic = 0xDEADBEEF

abbrev pub free_magic : ℕ
free_magic = 0xBEEFDEAD

-- The fields of a `block_t`: `size` stands at its address, then `magic` and `next`.
abbrev pub magic_of : ℕ → ℕ
magic_of b = b + 4

abbrev pub next_of : ℕ → ℕ
next_of b = b + 8

-- `sizeof(block_t)`.
abbrev pub block_sz : ℕ
block_sz = 12

-- The static variables, the memory of the heap, and the frames.
pub record Heap : Type 0 where
  pub free_list : ℕ
  pub heap_cur : ℕ
  pub heap_max : ℕ
  pub words : ℕ → ℕ
  pub paging : Paging

-- The heap with one more page, on the frame `frame`.
pub add_page : ℕ → Paging → Heap → Heap
add_page frame pg h = record h {
  paging = map_page pg.kernel_dir h.heap_max frame (pte_present + pte_rw) pg;
  heap_max = (h.heap_max + page_size) % 2 ^ 32;
}

-- The loop of `heap_grow` with `n` pages to go, and whether it came to its end.
pub grow_pages : ℕ → Heap → Bool × Heap
grow_pages zero h = (true, h)
grow_pages (suc n) h =
    let (frame, pg) = alloc_frame h.paging in
    let rest = grow_pages n (add_page frame pg h) in
    if frame == 0 then (false, record h { paging = pg }) else rest

-- All the memory that is new becomes one free block at the head of the list.
pub add_block : Heap → Heap
add_block h = record h {
  words =
      update
        (update (update h.words h.heap_cur ((h.heap_max + 2 ^ 32 - h.heap_cur) % 2 ^ 32))
          (magic_of h.heap_cur) free_magic)
        (next_of h.heap_cur) h.free_list;
  free_list = h.heap_cur;
  heap_cur = h.heap_max;
}

pub heap_grow : Heap → Heap
heap_grow h = let (done, h1) = grow_pages heap_grow_pages h in if done then add_block h1 else h1

-- The walks of `malloc` and `free` along the list: the first block that passes the test and the
-- block before it (0 at the head), or 0 for the block at the end. Without fuel, none.
pub walk : ℕ → (ℕ → ℕ) → (ℕ → Bool) → ℕ → ℕ → Option (ℕ × ℕ)
walk zero words test prev cur = none
walk (suc fuel) words test prev cur =
    let rest = walk fuel words test cur (words (next_of cur)) in
    if cur == 0 then some (prev, 0) else if test cur then some (prev, cur) else rest

-- `malloc` passes over a block whose magic is wrong and over one that is too small.
abbrev pub fits : (ℕ → ℕ) → ℕ → ℕ → Bool
fits words needed cur = words (magic_of cur) == free_magic && leb needed (words cur)

-- `*pp = b`, where `pp` is `&prev->next`, or `&free_list` when there is no `prev`.
abbrev pub link : ℕ → ℕ → Heap → Heap
link prev b h =
    if prev == 0
    then record h { free_list = b }
    else record h { words = update h.words (next_of prev) b }

-- The end of the block goes back to the list.
pub split_block : ℕ → ℕ → ℕ → Heap → Heap
split_block prev cur needed h =
    let rest = cur + needed in
    let marked = update (update h.words rest (h.words cur - needed)) (magic_of rest) free_magic in
    link prev rest
      (record h { words = update (update marked (next_of rest) (marked (next_of cur))) cur needed })

-- The body of the loop for the block it takes.
pub take_block : ℕ → ℕ → ℕ → Heap → Heap
take_block prev cur needed h =
    let h1 =
      if leb (block_sz + 4) (h.words cur - needed)
      then split_block prev cur needed h
      else link prev (h.words (next_of cur)) h in
    record h1 { words = update (update h1.words (magic_of cur) used_magic) (next_of cur) 0 }

-- The header and the data, rounded up to a word.
pub needed_for : ℕ → ℕ
needed_for size = bit_and (((block_sz + size) % 2 ^ 32 + 3) % 2 ^ 32) 0xFFFFFFFC

-- The fuel bounds the walk and the calls of `malloc` by itself.
pub malloc : ℕ → ℕ → Heap → Option (ℕ × Heap)
malloc zero size h = none
malloc (suc fuel) size h =
    let h1 = if h.free_list == 0 then heap_grow h else h in
    let needed = needed_for size in
    let h2 = heap_grow h1 in
    let again = malloc fuel size h2 in
    if size == 0
    then some (0, h)
    else if h1.free_list == 0
    then some (0, h1)
    else elim (walk fuel h1.words (fits h1.words needed) 0 h1.free_list) [
      | none ↦ none
      | some (prev, zero) ↦ if ltb h2.heap_cur h2.heap_max then again else some (0, h2)
      | some (prev, suc c) ↦ some (suc c + block_sz, take_block prev (suc c) needed h1)
    ]

-- The block `next_phys` leaves the list, if the walk came to it as `cur`, and becomes part of `b`.
pub absorb : ℕ → ℕ → ℕ → ℕ → Heap → Heap
absorb prev cur b next_phys h =
    let h1 = if cur == 0 then h else link prev (h.words (next_of next_phys)) h in
    record h1 { words = update h1.words b ((h1.words b + h1.words next_phys) % 2 ^ 32) }

pub coalesce : ℕ → ℕ → ℕ → Heap → Option Heap
coalesce fuel b next_phys h = elim (walk fuel h.words (λ cur. cur == next_phys) 0 h.free_list) [
  | none ↦ none
  | some (prev, cur) ↦ some (absorb prev cur b next_phys h)
]

-- `b->next = free_list; free_list = b`.
abbrev pub push_free : ℕ → Heap → Heap
push_free b h = record h { words = update h.words (next_of b) h.free_list; free_list = b }

-- `b->magic = FREE_MAGIC`.
pub mark_free : ℕ → Heap → Heap
mark_free b h = record h { words = update h.words (magic_of b) free_magic }

pub free : ℕ → ℕ → Heap → Option Heap
free fuel ptr h =
    let b = (ptr + 2 ^ 32 - block_sz) % 2 ^ 32 in
    let h1 = mark_free b h in
    let next_phys = (b + h.words b) % 2 ^ 32 in
    let merged =
      if ltb next_phys h.heap_max && h1.words (magic_of next_phys) == free_magic
      then coalesce fuel b next_phys h1
      else some h1 in
    if ptr == 0
    then some h
    else if h.words (magic_of b) == used_magic
    then elim merged [ none ↦ none | some h2 ↦ some (push_free b h2) ]
    else some h
