-- ===== src/Heap/Errors.antt =====
-- Where `malloc` and `free` of kernel/drivers/mm/mm.c are asked for what they cannot do.
use deva.Prelude.{
  ℕ, zero, suc, ◌+◌, ◌-◌, ◌%◌, ◌^◌, ◌≤◌, ◌<◌, ◌≡◌, ◌≢◌, ◌⊎◌, inl, inr, refl, ap, ◌∙◌, Bool, true,
  false, none, some, List, ◌∷◌, arith, ltb, ◌==◌, if◌then◌else◌, length,
}
use deva.Paging.{alloc_frame}
use deva.Heap.{
  Heap, heap_grow_pages, used_magic, magic_of, block_sz, walk, fits, needed_for, grow_pages,
  heap_grow, malloc, free,
}
use deva.Heap.FreeList.{count, pick, walk-pick, walk-fails, pick-none}
use deva.Heap.Blocks.{IsHeap, in_use}
use deva.Heap.Grow.{heap_grow_lem}
use deva.Heap.Free.{free_lem}

free_refused :
    (fuel b : ℕ) (h : Heap)
    → b < 2 ^ 32
    → h.words (magic_of b) ≢ used_magic
    → free fuel (b + block_sz) h ≡ some h
unfolding free
free_refused fuel b h small wrong =
    let e : (b + block_sz + 2 ^ 32 - block_sz) % 2 ^ 32 ≡ b = omega (arith, small) in
    rw e (ground (arith, wrong))

-- On a heap with its invariant whose pages are all in blocks: free of a block that a caller holds
-- ends, and a second free of it changes nothing.
pub free_twice :
    {h : Heap} {blocks : ℕ → Bool} {frees : List ℕ}
    → IsHeap h blocks frees
    → (fuel b : ℕ) → length frees < fuel
    → h.heap_cur ≡ h.heap_max
    → in_use h blocks b ≡ true
    → (h' : Heap) × (free fuel (b + block_sz) h ≡ some h') × (free fuel (b + block_sz) h' ≡ some h')
free_twice {h} i fuel b fuel_lem full used =
    let (h', blocks', frees', run, i', f) = free_lem i fuel b fuel_lem full used in
    let small : b < 2 ^ 32 = omega (arith, i'.within b f.is_block, i'.cur_le_max, i'.max_fits) in
    (h', run, free_refused fuel b h' small (ground (arith, f.is_free)))

malloc_missed :
    (fuel size prev : ℕ) (h : Heap)
    → size ≢ 0
    → h.free_list ≢ 0
    → walk fuel h.words (fits h.words (needed_for size)) 0 h.free_list ≡ some (prev, 0)
    → malloc (suc fuel) size h ≡ (
        if ltb (heap_grow h).heap_cur (heap_grow h).heap_max
        then malloc fuel size (heap_grow h)
        else some (0, heap_grow h))
unfolding malloc
malloc_missed fuel size prev h some_size some_list w =
    let list : (h.free_list == 0) ≡ false = ground (arith, some_list) in
    let s : (size == 0) ≡ false = ground (arith, some_size) in rw (list, s, w, list) refl

malloc_walks :
    (fuel size : ℕ) (h : Heap)
    → size ≢ 0
    → h.free_list ≢ 0
    → walk fuel h.words (fits h.words (needed_for size)) 0 h.free_list ≡ none
    → malloc (suc fuel) size h ≡ none
unfolding malloc
malloc_walks fuel size h some_size some_list w =
    let list : (h.free_list == 0) ≡ false = ground (arith, some_list) in
    let s : (size == 0) ≡ false = ground (arith, some_size) in rw (list, s, w, list) refl

malloc_zero : (size : ℕ) (h : Heap) → malloc 0 size h ≡ none
unfolding malloc
malloc_zero size h = refl

-- Without a frame the heap does not grow.
heap_grow_out : (h : Heap) → alloc_frame h.paging ≡ (0, h.paging) → heap_grow h ≡ h
unfolding heap_grow grow_pages
heap_grow_out h out = rw out refl

-- No block of the list is large enough.
module _ {h : Heap} {blocks : ℕ → Bool} {frees : List ℕ} (i : IsHeap h blocks frees) (size : ℕ)
    (some_size : 0 < size) (some_list : h.free_list ≢ 0)
    (too_small : (y : ℕ) → 1 ≤ count y frees → h.words y < needed_for size) where
  no_fit : (y : ℕ) → 1 ≤ count y frees → fits h.words (needed_for size) y ≡ false
  no_fit y m = ground (arith, too_small y m)

  malloc_missed_lem :
      (fuel : ℕ)
      → (malloc (suc fuel) size h ≡ none)
        ⊎ (malloc (suc fuel) size h ≡ (
            if ltb (heap_grow h).heap_cur (heap_grow h).heap_max
            then malloc fuel size (heap_grow h)
            else some (0, heap_grow h)))
  malloc_missed_lem fuel =
      elim (walk-fails fuel h.words (fits h.words (needed_for size)) 0 h.free_list frees i.chained
        no_fit) [
          | inl e ↦ inl (malloc_walks fuel size h (omega (arith, some_size)) some_list e)
          | inr e ↦ inr (malloc_missed fuel size e.0 h (omega (arith, some_size)) some_list e.1)
        ]

  -- With no frame left, and a page that an earlier call mapped and that is in no block yet, malloc
  -- with a list where no block is large enough never returns, whatever the fuel: it calls itself
  -- for ever.
  pub malloc_stuck :
      alloc_frame h.paging ≡ (0, h.paging)
      → h.heap_cur < h.heap_max
      → (fuel : ℕ) → malloc fuel size h ≡ none
  malloc_stuck out pending zero = malloc_zero size h
  malloc_stuck out pending (suc fuel) = elim (malloc_missed_lem fuel) [
    | inl e ↦ e
    | inr e ↦
        let g : heap_grow h ≡ h = heap_grow_out h out in
        e ∙ rw g (ground (arith, pending, malloc_stuck out pending fuel))
  ]

  -- Where the list is not empty and no block of it is large enough, and heap_grow gets its eight
  -- pages: malloc returns NULL, though the heap it leaves has a free block of 32768 bytes more.
  pub malloc_in_vain :
      (fuel : ℕ)
      → length frees < fuel
      → h.heap_max + 32768 < 2 ^ 32
      → (grow_pages heap_grow_pages h).0 ≡ true
      → (h' : Heap) × (blocks' : ℕ → Bool) × (malloc (suc fuel) size h ≡ some (0, h'))
        × IsHeap h' blocks' (h.heap_cur ∷ frees)
        × (32768 ≤ h'.words h.heap_cur)
  malloc_in_vain fuel fuel_lem room done = elim (heap_grow_lem i (omega (arith, room))) [
    | inr e ↦ ground (arith, e.0, done)
    | inl e ↦
        let (blocks', i', full, large, same) = e.1 in
        let test = fits h.words (needed_for size) in
        let w : walk fuel h.words test 0 h.free_list ≡ some ((pick test 0 frees).0, 0) =
          walk-pick fuel h.words test 0 h.free_list frees i.chained fuel_lem
          ∙ ap (λ c. some ((pick test 0 frees).0, c)) (pick-none test 0 frees no_fit) in
        (
          heap_grow h,
          blocks',
          malloc_missed fuel size (pick test 0 frees).0 h (omega (arith, some_size)) some_list w
              ∙ ground (arith, full),
          i',
          large,
        )
  ]
