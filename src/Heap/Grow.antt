-- ===== src/Heap/Grow.antt =====
-- `heap_grow` of kernel/drivers/mm/mm.c.
use deva.Prelude.{
  ℕ, zero, suc, ◌+◌, ◌-◌, ◌*◌, ◌%◌, ◌^◌, ◌≤◌, ◌<◌, ◌≡◌, ◌⊎◌, inl, inr, refl, sym, ap, ◌∙◌, Bool,
  true, false, ◌&&◌, ◌||◌, List, ◌∷◌, arith, ◌==◌, if◌then◌else◌, Bool-cases,
}
use deva.Paging.{page_size, alloc_frame, Paging}
use deva.Heap.{
  Heap, heap_grow_pages, free_magic, magic_of, next_of, add_page, grow_pages, add_block, heap_grow,
}
use deva.Heap.FreeList.{count, Chain-frame}
use deva.Heap.Blocks.{IsHeap, in_use, listed_free}
use deva.Heap.Found.{ℕ_cases}

-- The pages that were mapped follow the heap, and nothing else of it has changed.
pub record Grown (h h' : Heap) (n : ℕ) (done : Bool) : Type 0 where
  pub same_words : h'.words ≡ h.words
  pub same_list : h'.free_list ≡ h.free_list
  pub same_cur : h'.heap_cur ≡ h.heap_cur
  pub pages : ℕ
  pub few : pages ≤ n
  pub all : done ≡ true → pages ≡ n
  pub new_max : h'.heap_max ≡ h.heap_max + pages * page_size

add_page_lem :
    (frame : ℕ) (pg : Paging) (h : Heap)
    → h.heap_max + page_size < 2 ^ 32
    → ((add_page frame pg h).words ≡ h.words)
      × ((add_page frame pg h).free_list ≡ h.free_list)
      × ((add_page frame pg h).heap_cur ≡ h.heap_cur)
      × ((add_page frame pg h).heap_max ≡ h.heap_max + page_size)
unfolding add_page
add_page_lem frame pg h fits = (refl, refl, refl, omega (arith, fits))

pub grow_pages_lem :
    (n : ℕ) (h : Heap)
    → h.heap_max + n * page_size < 2 ^ 32
    → Grown h (grow_pages n h).1 n (grow_pages n h).0
unfolding grow_pages
grow_pages_lem zero h fits = record {
  same_words = refl;
  same_list = refl;
  same_cur = refl;
  pages = 0;
  few = omega arith;
  all = λ e. refl;
  new_max = omega arith;
}
grow_pages_lem (suc n) h fits = elim (Bool-cases ((alloc_frame h.paging).0 == 0)) [
  | inl e ↦ rw e (record {
    same_words = refl;
    same_list = refl;
    same_cur = refl;
    pages = 0;
    few = omega arith;
    all = λ e. ground (arith, e);
    new_max = omega arith;
  })
  | inr e ↦
      let next = add_page (alloc_frame h.paging).0 (alloc_frame h.paging).1 h in
      let (words, list, cur, max) =
        add_page_lem (alloc_frame h.paging).0 (alloc_frame h.paging).1 h (omega (arith, fits)) in
      let ih = grow_pages_lem n next (omega (arith, fits, max)) in
      rw e (record {
        same_words = ih.same_words ∙ words;
        same_list = ih.same_list ∙ list;
        same_cur = ih.same_cur ∙ cur;
        pages = suc ih.pages;
        few = omega (arith, ih.few);
        all = λ d. omega (arith, ih.all d);
        new_max = omega (arith, ih.new_max, max);
      })
]

-- The heap after pages were mapped, before they are a block.
Grown-IsHeap :
    {h h' : Heap} {blocks : ℕ → Bool} {frees : List ℕ} {n : ℕ} {done : Bool}
    → IsHeap h blocks frees
    → Grown h h' n done
    → h.heap_max + n * page_size < 2 ^ 32
    → IsHeap h' blocks frees
Grown-IsHeap {h} {h'} {blocks} {frees} {n} i g fits =
    let few : g.pages * page_size ≤ n * page_size = omega (arith, g.few) in
    let w = g.same_words in
    record {
      cur_le_max = rw (g.same_cur, g.new_max) (omega (arith, i.cur_le_max));
      max_fits = rw g.new_max (omega (arith, few, fits));
      start_le_cur = rw g.same_cur i.start_le_cur;
      max_aligned = rw g.new_max (omega (arith, i.max_aligned));
      cur_aligned = rw g.same_cur i.cur_aligned;
      low = i.low;
      aligned = i.aligned;
      size_aligned = λ b t. rw w (i.size_aligned b t);
      wide = λ b t. rw w (i.wide b t);
      within = λ b t. rw (w, g.same_cur) (i.within b t);
      apart = λ b c t u l. rw w (i.apart b c t u l);
      follows =
          λ b t l. rw w (i.follows b t (ground (arith, l, g.same_cur, ap (λ (f : ℕ → ℕ). f b) w)));
      marked = λ b t. rw w (i.marked b t);
      listed = λ b. rw w (i.listed b);
      chained = rw (w, g.same_list) i.chained;
    }

-- The new memory as a block.
pub with_new : Heap → (ℕ → Bool) → ℕ → Bool
with_new h blocks b = blocks b || h.heap_cur == b

module _ {h : Heap} {blocks : ℕ → Bool} {frees : List ℕ} (i : IsHeap h blocks frees)
    (room : h.heap_cur + 16 ≤ h.heap_max) where
  size_lem : (h.heap_max + 2 ^ 32 - h.heap_cur) % 2 ^ 32 ≡ h.heap_max - h.heap_cur
  size_lem = omega (arith, i.max_fits, i.cur_le_max, room)

  old_below : (b : ℕ) → blocks b ≡ true → b + 16 ≤ h.heap_cur
  old_below b t = omega (arith, i.within b t, i.wide b t)

  add_old :
      (b : ℕ)
      → blocks b ≡ true
      → ((add_block h).words b ≡ h.words b)
        × ((add_block h).words (magic_of b) ≡ h.words (magic_of b))
        × ((add_block h).words (next_of b) ≡ h.words (next_of b))
  unfolding add_block
  add_old b t =
      let below = old_below b t in
      (ground (arith, below), ground (arith, below), ground (arith, below))

  add_own :
      ((add_block h).words h.heap_cur ≡ h.heap_max - h.heap_cur)
      × ((add_block h).words (magic_of h.heap_cur) ≡ free_magic)
      × ((add_block h).words (next_of h.heap_cur) ≡ h.free_list)
      × ((add_block h).heap_cur ≡ h.heap_max)
      × ((add_block h).heap_max ≡ h.heap_max)
      × ((add_block h).free_list ≡ h.heap_cur)
  unfolding add_block
  add_own = (ground (arith, size_lem), ground arith, ground arith, refl, refl, refl)

  add_view :
      (b : ℕ)
      → with_new h blocks b ≡ true
      → ((b ≡ h.heap_cur)
          × ((add_block h).words b ≡ h.heap_max - h.heap_cur)
          × ((add_block h).words (magic_of b) ≡ free_magic))
        ⊎ ((blocks b ≡ true)
            × (b + 16 ≤ h.heap_cur)
            × ((add_block h).words b ≡ h.words b)
            × ((add_block h).words (magic_of b) ≡ h.words (magic_of b)))
  unfolding with_new
  add_view b t = elim (ℕ_cases b h.heap_cur) [
    | inl e ↦ inl (e, rw e add_own.0, rw e add_own.1)
    | inr ne ↦
        let old : blocks b ≡ true = ground (arith, t, ne) in
        inr (old, old_below b old, (add_old b old).0, (add_old b old).1)
  ]

  add_follows :
      (b : ℕ)
      → with_new h blocks b ≡ true
      → b + (add_block h).words b < (add_block h).heap_cur
      → with_new h blocks (b + (add_block h).words b) ≡ true
  unfolding with_new
  add_follows b t l = elim (add_view b t) [
    | inl v ↦ ground (arith, v, add_own, l)
    | inr v ↦ elim (ℕ_cases (b + h.words b) h.heap_cur) [
      | inl e ↦ rw (v.2, e) (ground arith)
      | inr ne ↦ rw v.2 (ground (arith, i.follows b v.0 (ground (arith, ne, i.within b v.0))))
    ]
  ]

  cur_new : blocks h.heap_cur ≡ false
  cur_new = ground (arith, old_below h.heap_cur)

  add_listed :
      (b : ℕ)
      → count b (h.heap_cur ∷ frees)
        ≡ (if with_new h blocks b && (add_block h).words (magic_of b) == free_magic then 1 else 0)
  unfolding with_new
  add_listed b = elim (ℕ_cases b h.heap_cur) [
    | inl e ↦ rw e (ground (arith, add_own, i.listed h.heap_cur, cur_new))
    | inr ne ↦ ground (arith, ne, add_old b, i.listed b)
  ]

  pub add_in_use : (b : ℕ) → in_use (add_block h) (with_new h blocks) b ≡ in_use h blocks b
  unfolding with_new
  add_in_use b = elim (ℕ_cases b h.heap_cur) [
    | inl e ↦ rw e (ground (arith, add_own, cur_new))
    | inr ne ↦ ground (arith, ne, add_old b)
  ]

  pub add_block-IsHeap : IsHeap (add_block h) (with_new h blocks) (h.heap_cur ∷ frees)
  unfolding with_new
  add_block-IsHeap = record {
    cur_le_max = ground (arith, add_own);
    max_fits = ground (arith, add_own, i.max_fits);
    start_le_cur = ground (arith, add_own, i.start_le_cur, i.cur_le_max);
    max_aligned = ground (arith, add_own, i.max_aligned);
    cur_aligned = ground (arith, add_own, i.max_aligned);
    low = λ b t. ground (arith, add_view b t, i.low b, i.start_le_cur);
    aligned = λ b t. ground (arith, add_view b t, i.aligned b, i.cur_aligned);
    size_aligned =
        λ b t. ground (arith, add_view b t, i.size_aligned b, i.cur_aligned, i.max_aligned, room);
    wide = λ b t. ground (arith, add_view b t, i.wide b, room);
    within = λ b t. ground (arith, add_view b t, add_own, i.within b, room);
    apart = λ b c t u l. ground (arith, add_view b t, add_view c u, i.apart b c, i.within b);
    follows = add_follows;
    marked = λ b t. ground (arith, add_view b t, i.marked b);
    listed = add_listed;
    chained = (
      add_own.5,
      ground (arith, i.start_le_cur),
      rw add_own.2 (
          Chain-frame h.words (add_block h).words h.free_list frees
            (λ y m. (add_old y (listed_free i y m).0).2) i.chained),
    );
  }

add_block_at :
    {h : Heap} {blocks : ℕ → Bool} {frees : List ℕ} (i : IsHeap h blocks frees) (c n : ℕ)
    → h.heap_cur ≡ c
    → 16 ≤ n
    → h.heap_cur + n ≤ h.heap_max
    → (blocks' : ℕ → Bool) × IsHeap (add_block h) blocks' (c ∷ frees)
      × ((add_block h).heap_cur ≡ (add_block h).heap_max)
      × (n ≤ (add_block h).words c)
      × ((b : ℕ) → in_use (add_block h) blocks' b ≡ in_use h blocks b)
add_block_at {h} {blocks} i c n e large room =
    let room' : h.heap_cur + 16 ≤ h.heap_max = omega (arith, large, room) in
    let own = add_own i room' in
    (
      with_new h blocks,
      rw (sym e) (add_block-IsHeap i room'),
      own.3 ∙ sym own.4,
      rw (sym e, own.0) (omega (arith, room)),
      add_in_use i room',
    )

-- With eight frames to be had, the new memory is one free block at the head of the list. Without,
-- the heap has the blocks it had.
pub heap_grow_lem :
    {h : Heap} {blocks : ℕ → Bool} {frees : List ℕ}
    → IsHeap h blocks frees
    → h.heap_max + heap_grow_pages * page_size < 2 ^ 32
    → (((grow_pages heap_grow_pages h).0 ≡ true)
        × ((blocks' : ℕ → Bool) × IsHeap (heap_grow h) blocks' (h.heap_cur ∷ frees)
            × ((heap_grow h).heap_cur ≡ (heap_grow h).heap_max)
            × (heap_grow_pages * page_size ≤ (heap_grow h).words h.heap_cur)
            × ((b : ℕ) → in_use (heap_grow h) blocks' b ≡ in_use h blocks b)))
      ⊎ (((grow_pages heap_grow_pages h).0 ≡ false)
          × IsHeap (heap_grow h) blocks frees
          × ((b : ℕ) → in_use (heap_grow h) blocks b ≡ in_use h blocks b))
unfolding heap_grow
heap_grow_lem {h} {blocks} {frees} i fits =
    let g = grow_pages_lem heap_grow_pages h fits in
    let i' = Grown-IsHeap i g fits in
    let h' = (grow_pages heap_grow_pages h).1 in
    elim (Bool-cases (grow_pages heap_grow_pages h).0) [
      | inl e ↦
          let room : h'.heap_cur + 32768 ≤ h'.heap_max =
            omega (arith, g.same_cur, g.new_max, g.all e, i.cur_le_max) in
          let (blocks', i2, full, large, same) =
            add_block_at i' h.heap_cur 32768 g.same_cur (omega arith) room in
          inl (e, rw e (blocks', i2, full, large, λ b. same b ∙ rw g.same_words refl))
      | inr e ↦ inr (e, rw e i', λ b. rw (e, g.same_words) refl)
    ]
