-- ===== src/Heap/Free/Alone.antt =====
-- `free` of kernel/drivers/mm/mm.c, where no free block follows the one that is freed.
use deva.Prelude.{ℕ, ◌≡◌, ◌≢◌, inl, inr, refl, ap, Bool, true, List, ◌∷◌, arith}
use deva.Heap.{Heap, free_magic, magic_of, next_of, push_free, mark_free}
use deva.Heap.FreeList.{count, Chain-frame}
use deva.Heap.Blocks.{IsHeap, in_use, Freed, blocks_apart, listed_free}
use deva.Heap.Found.{ℕ_cases}

module _ {h : Heap} {blocks : ℕ → Bool} {frees : List ℕ} (i : IsHeap h blocks frees) (b : ℕ)
    (used : in_use h blocks b ≡ true) where
  is_block : blocks b ≡ true
  is_block = ground (arith, used)

  alone_other :
      (y : ℕ)
      → blocks y ≡ true
      → y ≢ b
      → ((push_free b (mark_free b h)).words y ≡ h.words y)
        × ((push_free b (mark_free b h)).words (magic_of y) ≡ h.words (magic_of y))
        × ((push_free b (mark_free b h)).words (next_of y) ≡ h.words (next_of y))
  unfolding mark_free
  alone_other y t ne =
      let far = blocks_apart i y b t is_block ne in
      (ground (arith, far), ground (arith, far), ground (arith, far))

  alone_own :
      ((push_free b (mark_free b h)).words b ≡ h.words b)
      × ((push_free b (mark_free b h)).words (magic_of b) ≡ free_magic)
      × ((push_free b (mark_free b h)).words (next_of b) ≡ h.free_list)
      × ((push_free b (mark_free b h)).heap_cur ≡ h.heap_cur)
      × ((push_free b (mark_free b h)).heap_max ≡ h.heap_max)
  unfolding mark_free
  alone_own = (ground arith, ground arith, ground arith, refl, refl)

  alone_size : (y : ℕ) → blocks y ≡ true → (push_free b (mark_free b h)).words y ≡ h.words y
  alone_size y t = elim (ℕ_cases y b) [ inl e ↦ rw e alone_own.0 | inr ne ↦ (alone_other y t ne).0 ]

  pub alone-IsHeap : IsHeap (push_free b (mark_free b h)) blocks (b ∷ frees)
  alone-IsHeap = record {
    cur_le_max = rw (alone_own.3, alone_own.4) i.cur_le_max;
    max_fits = rw alone_own.4 i.max_fits;
    start_le_cur = rw alone_own.3 i.start_le_cur;
    max_aligned = rw alone_own.4 i.max_aligned;
    cur_aligned = rw alone_own.3 i.cur_aligned;
    low = i.low;
    aligned = i.aligned;
    size_aligned = λ y t. rw (alone_size y t) (i.size_aligned y t);
    wide = λ y t. rw (alone_size y t) (i.wide y t);
    within = λ y t. rw (alone_size y t, alone_own.3) (i.within y t);
    apart = λ y z t u l. rw (alone_size y t) (i.apart y z t u l);
    follows = λ y t l.
        rw (alone_size y t) (i.follows y t (ground (arith, l, alone_size y t, alone_own.3)));
    marked = λ y t. elim (ℕ_cases y b) [
      | inl e ↦ inr (rw e alone_own.1)
      | inr ne ↦ rw (alone_other y t ne).1 (i.marked y t)
    ];
    listed = λ y. elim (ℕ_cases y b) [
      | inl e ↦ rw e (ground (arith, is_block, alone_own, i.listed b, used))
      | inr ne ↦ ground (arith, ne, alone_other y, i.listed y)
    ];
    chained = (
      refl,
      ground (arith, i.low b is_block),
      rw alone_own.2 (
          Chain-frame h.words (push_free b (mark_free b h)).words h.free_list frees
            (λ y m.
              (alone_other y (listed_free i y m).0
                (ground (arith, listed_free i y m, i.listed b, used, ap (λ z. count z frees)))).2)
            i.chained),
    );
  }

  pub alone-Freed : Freed h (push_free b (mark_free b h)) blocks blocks b
  alone-Freed = record {
    is_block = is_block;
    is_free = alone_own.1;
    no_smaller = omega (arith, alone_own);
    held = used;
    others = λ y ne. ground (arith, ne, alone_other y);
    same_size = λ y u. alone_size y (ground (arith, u));
  }
