-- ===== src/Heap/Malloc/Whole.antt =====
-- `malloc` of kernel/drivers/mm/mm.c, where what would be left of the block is too small for another.
use deva.Prelude.{
  not, ℕ, ◌+◌, ◌≤◌, ◌<◌, ◌≡◌, ◌≢◌, ◌⊎◌, inl, inr, refl, Bool, true, ◌&&◌, List, ◌++◌, arith, ◌==◌,
  if◌then◌else◌,
}
use deva.Heap.{Heap, used_magic, magic_of, next_of, take_block}
use deva.Heap.FreeList.{count-append, Chain, Chain-frame}
use deva.Heap.Blocks.{IsHeap, Allocated, blocks_apart}
use deva.Heap.Found.{ℕ_cases, Found, before_lem, after_lem, other_block}

module _ {h : Heap} {blocks : ℕ → Bool} {frees : List ℕ} {prev cur : ℕ} {front back : List ℕ}
    (i : IsHeap h blocks frees) (f : Found h blocks frees prev cur front back) (needed : ℕ)
    (tight : h.words cur < needed + 16) where
  pub whole_other :
      (b : ℕ)
      → blocks b ≡ true
      → b ≢ cur
      → ((take_block prev cur needed h).words b ≡ h.words b)
        × ((take_block prev cur needed h).words (magic_of b) ≡ h.words (magic_of b))
        × ((take_block prev cur needed h).words (next_of b)
            ≡ (if not (prev == 0) && prev == b then h.words (next_of cur) else h.words (next_of b)))
  unfolding take_block
  whole_other b t ne =
      let far = other_block i f b t ne in
      let wide = i.wide cur f.cur_block in
      elim f.prev_lem [
        | inl e ↦ (ground (arith, e, far), ground (arith, e, far), ground (arith, e, far))
        | inr p ↦
            let apart : (b ≡ prev) ⊎ (b + 16 ≤ prev) ⊎ (prev + 16 ≤ b) =
              ground (arith, blocks_apart i b prev t p.1) in
            (
              ground (arith, p.0, far, apart),
              ground (arith, p.0, far, apart),
              ground (arith, p.0, far, apart),
            )
      ]

  pub whole_own :
      ((take_block prev cur needed h).words cur ≡ h.words cur)
      × ((take_block prev cur needed h).words (magic_of cur) ≡ used_magic)
  unfolding take_block
  whole_own = elim f.prev_lem [
    | inl e ↦ (ground (arith, e), ground (arith, e))
    | inr p ↦
        let far = other_block i f prev p.1 f.prev_ne in
        (ground (arith, p.0, far), ground (arith, p.0, far))
  ]

  whole_statics :
      ((take_block prev cur needed h).heap_cur ≡ h.heap_cur)
      × ((take_block prev cur needed h).heap_max ≡ h.heap_max)
      × ((take_block prev cur needed h).free_list
          ≡ (if prev == 0 then h.words (next_of cur) else h.free_list))
  unfolding take_block
  whole_statics = (ground arith, ground arith, ground arith)

  whole-Chain :
      Chain
        (take_block prev cur needed h).words
        (take_block prev cur needed h).free_list
        (front ++ back)
  whole-Chain =
      let w' = (take_block prev cur needed h).words in
      let behind =
        Chain-frame h.words w' (h.words (next_of cur)) back
          (λ y m. let (l, ne, np) = after_lem i f y m in ground (arith, (whole_other y l ne).2, np))
          f.chain_back in
      rw whole_statics.2 (
        f.relink w' (h.words (next_of cur)) back
          (λ y m ne.
            let (l, ne') = before_lem i f y m in ground (arith, (whole_other y l ne').2, ne))
          (λ ne. elim f.prev_lem [
            | inl e ↦ absurd (ne e)
            | inr p ↦ ground (arith, ne, (whole_other prev p.1 f.prev_ne).2)
          ])
          behind)

  -- A block of the new heap is the one taken or another.
  pub whole_view :
      (b : ℕ)
      → blocks b ≡ true
      → ((take_block prev cur needed h).words b ≡ h.words b)
        × (((b ≡ cur) × ((take_block prev cur needed h).words (magic_of b) ≡ used_magic))
            ⊎ ((b ≢ cur)
                × ((take_block prev cur needed h).words (magic_of b) ≡ h.words (magic_of b))))
  whole_view b t = elim (ℕ_cases b cur) [
    | inl e ↦ rw e (whole_own.0, inl (refl, whole_own.1))
    | inr ne ↦ let o = whole_other b t ne in (o.0, inr (ne, o.1))
  ]

  pub whole-IsHeap : IsHeap (take_block prev cur needed h) blocks (front ++ back)
  whole-IsHeap = record {
    cur_le_max = ground (arith, whole_statics, i.cur_le_max);
    max_fits = ground (arith, whole_statics, i.max_fits);
    start_le_cur = ground (arith, whole_statics, i.start_le_cur);
    max_aligned = ground (arith, whole_statics, i.max_aligned);
    cur_aligned = ground (arith, whole_statics, i.cur_aligned);
    low = i.low;
    aligned = i.aligned;
    size_aligned = λ b t. rw (whole_view b t).0 (i.size_aligned b t);
    wide = λ b t. rw (whole_view b t).0 (i.wide b t);
    within = λ b t. rw ((whole_view b t).0, whole_statics.0) (i.within b t);
    apart = λ b c t u l. rw (whole_view b t).0 (i.apart b c t u l);
    follows = λ b t l.
        rw (whole_view b t).0
          (i.follows b t (ground (arith, l, (whole_view b t).0, whole_statics.0)));
    marked = λ b t. ground (arith, whole_view b t, i.marked b t);
    listed = λ b. ground (
      arith,
      count-append b front back,
      f.parts b,
      i.listed b,
      whole_view b,
      f.cur_free,
      f.cur_block,
    );
    chained = whole-Chain;
  }

  pub whole-Allocated :
      needed ≤ h.words cur → Allocated h (take_block prev cur needed h) blocks blocks cur needed
  whole-Allocated enough = record {
    same_cur = whole_statics.0;
    same_max = whole_statics.1;
    given = ground (arith, f.cur_block, whole_own);
    enough = ground (arith, whole_own);
    fresh = ground (arith, f.cur_free);
    others = λ y ne. ground (arith, whole_other y, ne);
    same_size = λ y u. ground (arith, whole_view y, u);
  }
