-- ===== src/Heap/Free/Merged.antt =====
-- `free` of kernel/drivers/mm/mm.c, where the block that follows is free and becomes part of it.
use deva.Prelude.{
  not, ℕ, ◌+◌, ◌%◌, ◌^◌, ◌≤◌, ◌<◌, ◌≡◌, ◌≢◌, ◌⊎◌, inl, inr, refl, ap, Bool, true, false, ◌&&◌, List,
  ◌∷◌, ◌++◌, arith, ◌==◌, if◌then◌else◌, update,
}
use deva.Heap.{Heap, used_magic, free_magic, magic_of, next_of, link, push_free, mark_free, absorb}
use deva.Heap.FreeList.{count, count-append, Chain, Chain-frame}
use deva.Heap.Blocks.{IsHeap, in_use, Freed, blocks_apart, listed_free}
use deva.Heap.Found.{ℕ_cases, Found, before_lem, after_lem}

-- The following block leaves the list, and `b` has its bytes.
pub merged : ℕ → ℕ → ℕ → Heap → Heap
merged prev next b h =
    let h1 = link prev (h.words (next_of next)) (mark_free b h) in
    push_free b (record h1 { words = update h1.words b ((h.words b + h.words next) % 2 ^ 32) })

pub without : (ℕ → Bool) → ℕ → ℕ → Bool
without blocks next y = blocks y && not (next == y)

-- The list is what it was while the block has its new magic and is not in it.
pub mark_free-Chain :
    {h : Heap} {blocks : ℕ → Bool} {frees : List ℕ}
    → IsHeap h blocks frees
    → (b : ℕ) → in_use h blocks b ≡ true
    → Chain (mark_free b h).words (mark_free b h).free_list frees
unfolding mark_free
mark_free-Chain {h} {blocks} {frees} i b used =
    let is_block : blocks b ≡ true = ground (arith, used) in
    let same : (y : ℕ)
        → 1 ≤ count y frees
        → update h.words (magic_of b) free_magic (next_of y) ≡ h.words (next_of y) =
      λ y m.
        let l = listed_free i y m in
        let ne : y ≢ b = λ e. ground (arith, l, ap (λ z. h.words (magic_of z)) e, used) in
        ground (arith, blocks_apart i y b l.0 is_block ne) in
    Chain-frame h.words (update h.words (magic_of b) free_magic) h.free_list frees same i.chained

pub absorb_lem :
    (prev next b : ℕ) (h : Heap)
    → b + 16 ≤ next
    → (prev ≡ 0) ⊎ (((b + 16 ≤ prev) ⊎ (prev + 16 ≤ b)) × ((next + 16 ≤ prev) ⊎ (prev + 16 ≤ next)))
    → push_free b (absorb prev next b next (mark_free b h)) ≡ merged prev next b h
unfolding absorb merged mark_free
absorb_lem prev next b h far apart =
    let some_next : (next == 0) ≡ false = ground (arith, far) in
    let e : update h.words (magic_of b) free_magic (next_of next) ≡ h.words (next_of next) =
      ground (arith, far) in
    let w = (link prev (h.words (next_of next)) (mark_free b h)).words in
    let at_b : w b ≡ h.words b = ground (arith, far, apart) in
    let at_next : w next ≡ h.words next = ground (arith, far, apart) in
    rw (some_next, e, at_b, at_next) refl

module _ {h : Heap} {blocks : ℕ → Bool} {frees : List ℕ} {prev next : ℕ} {front back : List ℕ}
    (i : IsHeap h blocks frees) (f : Found h blocks frees prev next front back) (b : ℕ)
    (used : in_use h blocks b ≡ true) (adjacent : b + h.words b ≡ next) where
  is_block : blocks b ≡ true
  is_block = ground (arith, used)

  not_free : h.words (magic_of b) ≡ used_magic
  not_free = ground (arith, used)

  -- The block before the one that follows is not `b`, which is not in the list.
  prev_apart : (prev ≡ 0) ⊎ ((prev ≢ 0) × (blocks prev ≡ true) × (prev ≢ b))
  prev_apart = elim f.prev_lem [
    | inl e ↦ inl e
    | inr p ↦
        let free_prev = listed_free i prev (omega (arith, p.2, f.parts prev)) in
        inr
          (p.0, p.1, λ e. ground (arith, e, ap (λ z. h.words (magic_of z)) e, not_free, free_prev))
  ]

  pub prev_far :
      (prev ≡ 0) ⊎ (((b + 16 ≤ prev) ⊎ (prev + 16 ≤ b)) × ((next + 16 ≤ prev) ⊎ (prev + 16 ≤ next)))
  prev_far = elim prev_apart [
    | inl e ↦ inl e
    | inr p ↦ inr (
      ground (arith, blocks_apart i b prev is_block p.1, p.2),
      ground (arith, blocks_apart i next prev f.cur_block p.1, f.prev_ne),
    )
  ]

  merged_other :
      (y : ℕ)
      → blocks y ≡ true
      → y ≢ b
      → ((merged prev next b h).words y ≡ h.words y)
        × ((merged prev next b h).words (magic_of y) ≡ h.words (magic_of y))
        × ((merged prev next b h).words (next_of y) ≡ (
            if not (prev == 0) && prev == y then h.words (next_of next) else h.words (next_of y)))
  unfolding merged mark_free
  merged_other y t ne =
      let far = blocks_apart i y b t is_block ne in
      elim prev_apart [
        | inl e ↦ (ground (arith, e, far), ground (arith, e, far), ground (arith, e, far))
        | inr p ↦
            let apart : (y ≡ prev) ⊎ (y + 16 ≤ prev) ⊎ (prev + 16 ≤ y) =
              ground (arith, blocks_apart i y prev t p.1) in
            (
              ground (arith, p.0, far, apart),
              ground (arith, p.0, far, apart),
              ground (arith, p.0, far, apart),
            )
      ]

  sum_fits : (h.words b + h.words next) % 2 ^ 32 ≡ h.words b + h.words next
  sum_fits = omega (arith, i.within next f.cur_block, adjacent, i.cur_le_max, i.max_fits)

  merged_own :
      ((merged prev next b h).words b ≡ h.words b + h.words next)
      × ((merged prev next b h).words (magic_of b) ≡ free_magic)
      × ((merged prev next b h).words (next_of b)
          ≡ (if prev == 0 then h.words (next_of next) else h.free_list))
      × ((merged prev next b h).heap_cur ≡ h.heap_cur)
      × ((merged prev next b h).heap_max ≡ h.heap_max)
      × ((merged prev next b h).free_list ≡ b)
  unfolding merged mark_free
  merged_own = elim prev_apart [
    | inl e ↦ (
      ground (arith, e, sum_fits),
      ground (arith, e),
      ground (arith, e),
      ground arith,
      ground arith,
      refl,
    )
    | inr p ↦
        let far = blocks_apart i prev b p.1 is_block p.2 in
        (
          ground (arith, p.0, sum_fits),
          ground (arith, p.0, far),
          ground (arith, p.0),
          ground arith,
          ground arith,
          refl,
        )
  ]

  b_ne : b ≢ next
  b_ne = omega (arith, i.wide b is_block, adjacent)

  merged-Chain :
      Chain (merged prev next b h).words (merged prev next b h).free_list (b ∷ (front ++ back))
  merged-Chain =
      let w' = (merged prev next b h).words in
      let listed_ne : (y : ℕ) → 1 ≤ count y frees → y ≢ b =
        λ y m e. ground (arith, ap (λ z. h.words (magic_of z)) e, not_free, listed_free i y m) in
      let behind =
        Chain-frame h.words w' (h.words (next_of next)) back
          (λ y m.
            let (l, ne, np) = after_lem i f y m in
            ground (arith, merged_other y l (listed_ne y (omega (arith, m, f.parts y))), np))
          f.chain_back in
      (
        merged_own.5,
        ground (arith, i.low b is_block),
        rw merged_own.2 (
            f.relink w' (h.words (next_of next)) back
              (λ y m ne.
                let (l, ne') = before_lem i f y m in
                ground (arith, merged_other y l (listed_ne y (omega (arith, m, f.parts y))), ne))
              (λ ne. elim prev_apart [
                | inl e ↦ absurd (ne e)
                | inr p ↦ ground (arith, ne, merged_other prev p.1 p.2)
              ])
              behind),
      )

  merged_view :
      (y : ℕ)
      → without blocks next y ≡ true
      → (blocks y ≡ true)
        × (y ≢ next)
        × (((y ≡ b)
              × ((merged prev next b h).words y ≡ h.words b + h.words next)
              × ((merged prev next b h).words (magic_of y) ≡ free_magic))
            ⊎ ((y ≢ b)
                × ((merged prev next b h).words y ≡ h.words y)
                × ((merged prev next b h).words (magic_of y) ≡ h.words (magic_of y))))
  unfolding without
  merged_view y t = (
    ground (arith, t),
    ground (arith, t),
    elim (ℕ_cases y b) [
      | inl e ↦ inl (e, rw e merged_own.0, rw e merged_own.1)
      | inr ne ↦ let o = merged_other y (ground (arith, t)) ne in inr (ne, o.0, o.1)
    ],
  )

  merged_follows :
      (y : ℕ)
      → without blocks next y ≡ true
      → y + (merged prev next b h).words y < (merged prev next b h).heap_cur
      → without blocks next (y + (merged prev next b h).words y) ≡ true
  unfolding without
  merged_follows y t l =
      let (old, ne, v) = merged_view y t in
      let wide = i.wide next f.cur_block in
      elim v [
        | inl v ↦
            let e : b + (h.words b + h.words next) ≡ next + h.words next =
              omega (arith, adjacent) in
            let l' : next + h.words next < h.heap_cur = ground (arith, v, l, merged_own, e) in
            let after = i.follows next f.cur_block l' in
            rw (v.1, v.0, e) (ground (arith, after, wide))
        | inr v ↦ rw v.1 (
            ground (
              arith,
              i.follows y old (ground (arith, v, l, merged_own)),
              i.apart y b old is_block,
              i.apart b y is_block old,
              i.wide b is_block,
              adjacent,
              v.0,
            ))
      ]

  merged_listed :
      (y : ℕ)
      → count y (b ∷ (front ++ back)) ≡ (
          if without blocks next y && (merged prev next b h).words (magic_of y) == free_magic
          then 1
          else 0)
  unfolding without
  merged_listed y =
      let sum = λ (z : ℕ). count-append z front back in
      elim (ℕ_cases y b) [
        | inl e ↦
            rw e
              (ground (arith, sum b, f.parts b, i.listed b, merged_own, is_block, not_free, b_ne))
        | inr ne ↦ elim (ℕ_cases y next) [
          | inl e ↦ rw e (ground (arith, sum next, f.parts next, i.listed next, b_ne))
          | inr nn ↦ ground (arith, sum y, f.parts y, i.listed y, merged_other y, ne, nn)
        ]
      ]

  pub merged-IsHeap : IsHeap (merged prev next b h) (without blocks next) (b ∷ (front ++ back))
  merged-IsHeap = record {
    cur_le_max = rw (merged_own.3, merged_own.4) i.cur_le_max;
    max_fits = rw merged_own.4 i.max_fits;
    start_le_cur = rw merged_own.3 i.start_le_cur;
    max_aligned = rw merged_own.4 i.max_aligned;
    cur_aligned = rw merged_own.3 i.cur_aligned;
    low = λ y t. i.low y (merged_view y t).0;
    aligned = λ y t. i.aligned y (merged_view y t).0;
    size_aligned = λ y t. ground (
      arith,
      merged_view y t,
      i.size_aligned y,
      i.size_aligned b is_block,
      i.size_aligned next f.cur_block,
    );
    wide = λ y t. ground (arith, merged_view y t, i.wide y, i.wide b is_block);
    within = λ y t.
        ground
          (arith, merged_view y t, i.within y, i.within next f.cur_block, adjacent, merged_own);
    apart = λ y z t u l. ground (
      arith,
      merged_view y t,
      merged_view z u,
      i.apart y z,
      i.apart b z is_block,
      i.apart next z f.cur_block,
      i.apart z next,
      i.wide z,
      adjacent,
    );
    follows = merged_follows;
    marked = λ y t. ground (arith, merged_view y t, i.marked y);
    listed = merged_listed;
    chained = merged-Chain;
  }

  pub merged-Freed : Freed h (merged prev next b h) blocks (without blocks next) b
  unfolding without
  merged-Freed = record {
    is_block = ground (arith, is_block, b_ne);
    is_free = merged_own.1;
    no_smaller = omega (arith, merged_own);
    held = used;
    others = λ y ne. elim (ℕ_cases y next) [
      | inl e ↦ rw e (ground (arith, f.cur_free))
      | inr nn ↦ ground (arith, ne, nn, merged_other y)
    ];
    same_size = λ y u. ground (arith, u, merged_view y);
  }
