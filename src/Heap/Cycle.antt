-- ===== src/Heap/Cycle.antt =====
-- `malloc`, `free` and `heap_grow` of kernel/drivers/mm/mm.c together.
use deva.Prelude.{
  ℕ, suc, ◌+◌, ◌*◌, ◌/◌, ◌^◌, ◌≤◌, ◌<◌, ◌≡◌, ◌≢◌, inl, inr, refl, sym, ◌∙◌, Bool, true, false, some,
  List, [], arith, length,
}
use deva.Heap.{Heap, heap_start, heap_grow_pages, block_sz, grow_pages, malloc, free}
use deva.Heap.FreeList.{count}
use deva.Heap.Blocks.{IsHeap, in_use}
use deva.Heap.Found.{ℕ_cases}
use deva.Heap.Grow.{heap_grow_lem}
use deva.Heap.Malloc.{malloc_serves, malloc_lem}
use deva.Heap.Free.{free_lem}

-- The heap as the static initialisers leave it has no blocks.
pub start-IsHeap :
    (h : Heap)
    → h.free_list ≡ 0
    → h.heap_cur ≡ heap_start
    → h.heap_max ≡ heap_start
    → IsHeap h (λ b. false) []
start-IsHeap h e cur max = record {
  cur_le_max = omega (arith, cur, max);
  max_fits = omega (arith, max);
  start_le_cur = omega (arith, cur);
  max_aligned = omega (arith, max);
  cur_aligned = omega (arith, cur);
  low = λ b t. ground (arith, t);
  aligned = λ b t. ground (arith, t);
  size_aligned = λ b t. ground (arith, t);
  wide = λ b t. ground (arith, t);
  within = λ b t. ground (arith, t);
  apart = λ b c t u l. ground (arith, t);
  follows = λ b t l. ground (arith, t);
  marked = λ b t. ground (arith, t);
  listed = λ b. refl;
  chained = e;
}

-- With an empty free list and eight frames to be had, malloc serves a request of up to 32752 bytes.
pub malloc_empty :
    {h : Heap} {blocks : ℕ → Bool}
    → IsHeap h blocks []
    → (fuel size : ℕ) → 2 ≤ fuel
    → 0 < size
    → size ≤ 32752
    → h.heap_max + 32768 < 2 ^ 32
    → (grow_pages heap_grow_pages h).0 ≡ true
    → (b : ℕ) × (h' : Heap) × (blocks' : ℕ → Bool) × (frees' : List ℕ) × (malloc (suc fuel) size h
        ≡ some (b + block_sz, h'))
      × IsHeap h' blocks' frees'
      × (size + block_sz ≤ h'.words b)
      × (in_use h blocks b ≡ false)
      × ((y : ℕ) → y ≢ b → in_use h' blocks' y ≡ in_use h blocks y)
malloc_empty {h} {blocks} i fuel size some_fuel some_size small room done =
    elim (heap_grow_lem i (omega (arith, room))) [
      | inr e ↦ ground (arith, e.0, done)
      | inl e ↦
          let (blocks1, i1, full, large, same) = e.1 in
          let (b, h', blocks', frees', run, i', a, l) =
            malloc_serves h i1 (ground (arith, i.chained)) fuel size h.heap_cur
              (omega (arith, some_fuel)) some_size (omega (arith, small)) (ground arith)
              (omega (arith, large, small)) in
          (
            b,
            h',
            blocks',
            frees',
            run,
            i',
            a.enough,
            sym (same b) ∙ a.fresh,
            λ y ne. a.others y ne ∙ same y,
          )
    ]

-- Under the conditions of malloc_lem and free_lem, free of what malloc returned ends with a heap
-- with its invariant where the callers hold exactly the blocks they held before.
pub free-malloc :
    {h : Heap} {blocks : ℕ → Bool} {frees : List ℕ}
    → IsHeap h blocks frees
    → (fuel size x : ℕ) → length frees < fuel
    → h.heap_cur ≡ h.heap_max
    → 0 < size
    → size + 15 < 2 ^ 32
    → 1 ≤ count x frees
    → (size + 15) / 4 * 4 ≤ h.words x
    → (p : ℕ) × (h1 h2 : Heap) × (blocks2 : ℕ → Bool) × (frees2 : List ℕ) × (malloc
          (suc fuel)
          size
          h
        ≡ some (p, h1))
      × (free fuel p h1 ≡ some h2)
      × IsHeap h2 blocks2 frees2
      × ((y : ℕ) → in_use h2 blocks2 y ≡ in_use h blocks y)
free-malloc {h} {blocks} i fuel size x fuel_lem full some_size fits_word listed large =
    let (b, h1, blocks1, frees1, run, i1, a, l) =
      malloc_lem i fuel size x fuel_lem some_size fits_word listed large in
    let (h2, blocks2, frees2, run2, i2, fr) =
      free_lem i1 fuel b (omega (arith, l, fuel_lem)) (a.same_cur ∙ full ∙ sym a.same_max)
        a.given in
    let at_b : in_use h2 blocks2 b ≡ in_use h blocks b =
      ground (arith, fr.is_block, fr.is_free, a.fresh) in
    (
      b + block_sz,
      h1,
      h2,
      blocks2,
      frees2,
      run,
      run2,
      i2,
      λ y. elim (ℕ_cases y b) [ inl e ↦ rw e at_b | inr ne ↦ fr.others y ne ∙ a.others y ne ],
    )
