-- ===== src/Heap/Free.antt =====
-- `free` of kernel/drivers/mm/mm.c.
pub mod Alone
pub mod Merged
use mathlib.Core.Path.{subst}
use deva.Prelude.{
  ℕ, zero, suc, ◌+◌, ◌-◌, ◌*◌, ◌/◌, ◌%◌, ◌^◌, ◌≤◌, ◌<◌, min, ◌≡◌, ◌≢◌, ◌⊎◌, inl, inr, refl, sym, ap,
  ◌∙◌, Bool, true, false, ◌&&◌, ◌||◌, Option, none, some, List, [], ◌∷◌, ◌++◌, arith, ltb, leb,
  ◌==◌, if◌then◌else◌, not_zero, Bool-cases, Option-cases, update, bit_and, bit_or, length, get_or,
  take, drop, replicate,
}
use deva.Heap.{
  Heap, used_magic, free_magic, magic_of, next_of, block_sz, walk, link, push_free, mark_free,
  absorb, coalesce, free,
}
use deva.Heap.FreeList.{Chain, Chain-frame, count, pick, before, after, walk-pick, pick-some}
use deva.Heap.Blocks.{IsHeap, in_use, Freed, listed_free, free_listed}
use deva.Heap.Found.{ℕ_cases, Found, pick-is_Found}
use deva.Heap.Free.Alone.{alone-IsHeap, alone-Freed}
use deva.Heap.Free.Merged.{
  merged, without, absorb_lem, merged-IsHeap, merged-Freed, mark_free-Chain, prev_far,
}

-- No free block follows, by what the code reads there.
free_alone :
    (fuel b : ℕ) (h : Heap)
    → b < 2 ^ 32
    → b + h.words b < 2 ^ 32
    → h.words (magic_of b) ≡ used_magic
    → (ltb (b + h.words b) h.heap_max
        && (mark_free b h).words (magic_of (b + h.words b)) == free_magic)
      ≡ false
    → free fuel (b + block_sz) h ≡ some (push_free b (mark_free b h))
unfolding free
free_alone fuel b h small small' used last =
    let e : (b + block_sz + 2 ^ 32 - block_sz) % 2 ^ 32 ≡ b = omega (arith, small) in
    let e' : (b + h.words b) % 2 ^ 32 ≡ b + h.words b = omega (arith, small') in
    rw (e, e', last) (ground (arith, used))

mark_free_other :
    (b y v : ℕ) (h : Heap)
    → b + 16 ≤ y
    → (mark_free b h).words (magic_of y) ≡ v
    → h.words (magic_of y) ≡ v
unfolding mark_free
mark_free_other b y v h far e = ground (arith, e, far)

free_merged :
    (fuel b prev next : ℕ) (h : Heap)
    → b < 2 ^ 32
    → next < 2 ^ 32
    → b + h.words b ≡ next
    → h.words (magic_of b) ≡ used_magic
    → (ltb next h.heap_max && (mark_free b h).words (magic_of next) == free_magic) ≡ true
    → walk fuel (mark_free b h).words (λ cur. cur == next) 0 (mark_free b h).free_list
      ≡ some (prev, next)
    → free fuel (b + block_sz) h ≡ some (push_free b (absorb prev next b next (mark_free b h)))
unfolding free coalesce
free_merged fuel b prev next h small small' adjacent used last w =
    let e : (b + block_sz + 2 ^ 32 - block_sz) % 2 ^ 32 ≡ b = omega (arith, small) in
    let e' : (b + h.words b) % 2 ^ 32 ≡ next = omega (arith, small', adjacent) in
    rw (e, e', last, w) (ground (arith, used))

free_lem-merged :
    {h : Heap} {blocks : ℕ → Bool} {frees : List ℕ}
    → IsHeap h blocks frees
    → (fuel b : ℕ) → length frees < fuel
    → h.heap_cur ≡ h.heap_max
    → in_use h blocks b ≡ true
    → (ltb (b + h.words b) h.heap_max
        && (mark_free b h).words (magic_of (b + h.words b)) == free_magic)
      ≡ true
    → (h' : Heap) × (blocks' : ℕ → Bool) × (frees' : List ℕ) × (free fuel (b + block_sz) h
        ≡ some h')
      × IsHeap h' blocks' frees'
      × Freed h h' blocks blocks' b
free_lem-merged {h} {blocks} {frees} i fuel b fuel_lem full used last =
    let is_block : blocks b ≡ true = ground (arith, used) in
    let is_used : h.words (magic_of b) ≡ used_magic = ground (arith, used) in
    let next = b + h.words b in
    let wide = i.wide b is_block in
    let inside : next < h.heap_cur = ground (arith, last, full) in
    let next_block = i.follows b is_block inside in
    let next_free : h.words (magic_of next) ≡ free_magic =
      mark_free_other b next free_magic h (omega (arith, wide)) (ground (arith, last)) in
    let listed : 1 ≤ count next frees = omega (arith, free_listed i next next_block next_free) in
    let test = λ (cur : ℕ). cur == next in
    let found = pick-some h.words test 0 h.free_list next frees i.chained listed (ground arith) in
    let (f, t) = pick-is_Found i test found in
    let at_next : (pick test 0 frees).1 ≡ next = ground (arith, t) in
    let prev = (pick test 0 frees).0 in
    let f' : Found h blocks frees prev next (before test frees) (after test frees) =
      subst (λ c. Found h blocks frees prev c (before test frees) (after test frees)) at_next f in
    let w : walk fuel (mark_free b h).words test 0 (mark_free b h).free_list ≡ some (prev, next) =
      walk-pick fuel (mark_free b h).words test 0 (mark_free b h).free_list frees
        (mark_free-Chain i b used) fuel_lem
      ∙ ap (λ c. some (prev, c)) at_next in
    let small : next < 2 ^ 32 = omega (arith, inside, i.cur_le_max, i.max_fits) in
    let small_b : b < 2 ^ 32 = omega (arith, small) in
    (
      merged prev next b h,
      without blocks next,
      b ∷ (before test frees ++ after test frees),
      free_merged fuel b prev next h small_b small refl is_used last w
          ∙ ap some (absorb_lem prev next b h (omega (arith, wide)) (prev_far i f' b used refl)),
      merged-IsHeap i f' b used refl,
      merged-Freed i f' b used refl,
    )

-- On a heap with its invariant whose pages are all in blocks, with more fuel than the list is
-- long: free of the data of a block that a caller holds ends; the block is free with at least the
-- bytes it had, every other caller keeps its block and its size, and the heap keeps its invariant.
pub free_lem :
    {h : Heap} {blocks : ℕ → Bool} {frees : List ℕ}
    → IsHeap h blocks frees
    → (fuel b : ℕ) → length frees < fuel
    → h.heap_cur ≡ h.heap_max
    → in_use h blocks b ≡ true
    → (h' : Heap) × (blocks' : ℕ → Bool) × (frees' : List ℕ) × (free fuel (b + block_sz) h
        ≡ some h')
      × IsHeap h' blocks' frees'
      × Freed h h' blocks blocks' b
free_lem {h} {blocks} {frees} i fuel b fuel_lem full used =
    let is_block : blocks b ≡ true = ground (arith, used) in
    let is_used : h.words (magic_of b) ≡ used_magic = ground (arith, used) in
    let next = b + h.words b in
    let small : next < 2 ^ 32 = omega (arith, i.within b is_block, i.cur_le_max, i.max_fits) in
    let small_b : b < 2 ^ 32 = omega (arith, small) in
    elim (Bool-cases (ltb next h.heap_max && (mark_free b h).words (magic_of next) == free_magic)) [
      | inr e ↦ (
        push_free b (mark_free b h),
        blocks,
        b ∷ frees,
        free_alone fuel b h small_b small is_used e,
        alone-IsHeap i b used,
        alone-Freed i b used,
      )
      | inl e ↦ free_lem-merged i fuel b fuel_lem full used e
    ]
