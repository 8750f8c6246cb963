-- ===== src/Heap/Blocks.antt =====
-- The invariant of the heap of kernel/drivers/mm/mm.c: its blocks lie side by side and never
-- overlap, and the free list holds the free ones, once each.
use deva.Prelude.{
  ℕ, ◌+◌, ◌%◌, ◌^◌, ◌≤◌, ◌<◌, ◌≡◌, ◌≢◌, ◌⊎◌, Bool, true, false, ◌&&◌, List, arith, ◌==◌,
  if◌then◌else◌,
}
use deva.Heap.{Heap, heap_start, used_magic, free_magic, magic_of}
use deva.Heap.FreeList.{count, Chain}

-- `blocks` tells where a block starts, and `frees` is the free list.
pub record IsHeap (h : Heap) (blocks : ℕ → Bool) (frees : List ℕ) : Type 0 where
  pub cur_le_max : h.heap_cur ≤ h.heap_max
  pub max_fits : h.heap_max < 2 ^ 32
  pub start_le_cur : heap_start ≤ h.heap_cur
  pub max_aligned : h.heap_max % 4 ≡ 0
  pub cur_aligned : h.heap_cur % 4 ≡ 0
  pub low : (b : ℕ) → blocks b ≡ true → heap_start ≤ b
  pub aligned : (b : ℕ) → blocks b ≡ true → b % 4 ≡ 0
  pub size_aligned : (b : ℕ) → blocks b ≡ true → h.words b % 4 ≡ 0
  pub wide : (b : ℕ) → blocks b ≡ true → 16 ≤ h.words b
  pub within : (b : ℕ) → blocks b ≡ true → b + h.words b ≤ h.heap_cur
  pub apart : (b c : ℕ) → blocks b ≡ true → blocks c ≡ true → b < c → b + h.words b ≤ c
  pub follows :
      (b : ℕ) → blocks b ≡ true → b + h.words b < h.heap_cur → blocks (b + h.words b) ≡ true
  pub marked :
      (b : ℕ)
      → blocks b ≡ true
      → (h.words (magic_of b) ≡ used_magic) ⊎ (h.words (magic_of b) ≡ free_magic)
  pub listed :
      (b : ℕ) → count b frees ≡ (if blocks b && h.words (magic_of b) == free_magic then 1 else 0)
  pub chained : Chain h.words h.free_list frees

-- A block that a caller holds.
abbrev pub in_use : Heap → (ℕ → Bool) → ℕ → Bool
in_use h blocks b = blocks b && h.words (magic_of b) == used_magic

-- The block `b` is a caller's now, with `needed` bytes, and was nobody's; the other callers' blocks
-- are what they were.
pub record Allocated (h h' : Heap) (blocks blocks' : ℕ → Bool) (b needed : ℕ) : Type 0 where
  pub same_cur : h'.heap_cur ≡ h.heap_cur
  pub same_max : h'.heap_max ≡ h.heap_max
  pub given : in_use h' blocks' b ≡ true
  pub enough : needed ≤ h'.words b
  pub fresh : in_use h blocks b ≡ false
  pub others : (y : ℕ) → y ≢ b → in_use h' blocks' y ≡ in_use h blocks y
  pub same_size : (y : ℕ) → in_use h blocks y ≡ true → h'.words y ≡ h.words y

-- The block `b`, which a caller held, is free with all its bytes, and the other callers' blocks are
-- what they were.
pub record Freed (h h' : Heap) (blocks blocks' : ℕ → Bool) (b : ℕ) : Type 0 where
  pub is_block : blocks' b ≡ true
  pub is_free : h'.words (magic_of b) ≡ free_magic
  pub no_smaller : h.words b ≤ h'.words b
  pub held : in_use h blocks b ≡ true
  pub others : (y : ℕ) → y ≢ b → in_use h' blocks' y ≡ in_use h blocks y
  pub same_size : (y : ℕ) → in_use h' blocks' y ≡ true → h'.words y ≡ h.words y

module _ {h : Heap} {blocks : ℕ → Bool} {frees : List ℕ} (i : IsHeap h blocks frees) where
  pub listed_once : (b : ℕ) → count b frees ≤ 1
  listed_once b = ground (arith, i.listed b)

  -- A member of the free list is a free block.
  pub listed_free :
      (b : ℕ)
      → 1 ≤ count b frees
      → (blocks b ≡ true) × (h.words (magic_of b) ≡ free_magic) × (count b frees ≡ 1)
  listed_free b c =
      (ground (arith, i.listed b), ground (arith, i.listed b), ground (arith, i.listed b))

  -- A free block is a member of the free list.
  pub free_listed :
      (b : ℕ) → blocks b ≡ true → h.words (magic_of b) ≡ free_magic → count b frees ≡ 1
  free_listed b t m = ground (arith, i.listed b)

  -- Two blocks are at least a header and a word apart.
  pub blocks_apart :
      (b c : ℕ)
      → blocks b ≡ true
      → blocks c ≡ true
      → b ≢ c
      → ((b < c) × (b + h.words b ≤ c) × (b + 16 ≤ c))
        ⊎ ((c < b) × (c + h.words c ≤ b) × (c + 16 ≤ b))
  blocks_apart b c t u ne = ground (arith, i.apart b c t u, i.apart c b u t, i.wide b t, i.wide c u)

  pub null_unlisted : count 0 frees ≡ 0
  null_unlisted = ground (arith, i.listed 0, i.low 0)
