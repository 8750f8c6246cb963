-- ===== src/Heap/Malloc/Split.antt =====
-- `malloc` of kernel/drivers/mm/mm.c, where the block is larger than what is needed and is split.
use deva.Prelude.{
  not, ℕ, ◌+◌, ◌-◌, ◌%◌, ◌≤◌, ◌<◌, ◌≡◌, ◌≢◌, ◌⊎◌, inl, inr, refl, Bool, true, false, ◌&&◌, ◌||◌,
  List, ◌∷◌, ◌++◌, arith, ◌==◌, if◌then◌else◌,
}
use deva.Heap.{Heap, used_magic, free_magic, magic_of, next_of, split_block, take_block}
use deva.Heap.FreeList.{count, count-append, Chain, Chain-frame}
use deva.Heap.Blocks.{IsHeap, Allocated, blocks_apart}
use deva.Heap.Found.{ℕ_cases, Found, before_lem, after_lem, other_block}

module _ {h : Heap} {blocks : ℕ → Bool} {frees : List ℕ} {prev cur : ℕ} {front back : List ℕ}
    (i : IsHeap h blocks frees) (f : Found h blocks frees prev cur front back) (needed : ℕ)
    (whole : needed % 4 ≡ 0) (some_data : 16 ≤ needed) (enough : needed ≤ h.words cur) where
  pub rest : ℕ
  rest = cur + needed

  rest_eq : rest ≡ cur + needed
  unfolding rest
  rest_eq = refl

  module _ (splits : needed + 16 ≤ h.words cur) where
    pub split_other :
        (b : ℕ)
        → blocks b ≡ true
        → b ≢ cur
        → ((take_block prev cur needed h).words b ≡ h.words b)
          × ((take_block prev cur needed h).words (magic_of b) ≡ h.words (magic_of b))
          × ((take_block prev cur needed h).words (next_of b)
              ≡ (if not (prev == 0) && prev == b then rest else h.words (next_of b)))
    unfolding take_block split_block rest
    split_other b t ne =
        let far = other_block i f b t ne in
        elim f.prev_lem [
          | inl e ↦ (ground (arith, e, far), ground (arith, e, far), ground (arith, e, far))
          | inr p ↦
              let apart : (b ≡ prev) ⊎ (b + 16 ≤ prev) ⊎ (prev + 16 ≤ b) =
                ground (arith, blocks_apart i b prev t p.1) in
              (
                ground (arith, p.0, far, apart),
                ground (arith, p.0, far, apart),
                ground (arith, p.0, far, apart),
              )
        ]

    pub split_own :
        ((take_block prev cur needed h).words cur ≡ needed)
        × ((take_block prev cur needed h).words (magic_of cur) ≡ used_magic)
        × ((take_block prev cur needed h).words rest ≡ h.words cur - needed)
        × ((take_block prev cur needed h).words (magic_of rest) ≡ free_magic)
        × ((take_block prev cur needed h).words (next_of rest) ≡ h.words (next_of cur))
    unfolding take_block split_block rest
    split_own = elim f.prev_lem [
      | inl e ↦ (
        ground (arith, e),
        ground (arith, e),
        ground (arith, e),
        ground (arith, e),
        ground (arith, e),
      )
      | inr p ↦
          let far = other_block i f prev p.1 f.prev_ne in
          (
            ground (arith, p.0, far),
            ground (arith, p.0, far),
            ground (arith, p.0, far),
            ground (arith, p.0, far),
            ground (arith, p.0, far),
          )
    ]

    split_statics :
        ((take_block prev cur needed h).heap_cur ≡ h.heap_cur)
        × ((take_block prev cur needed h).heap_max ≡ h.heap_max)
        × ((take_block prev cur needed h).free_list ≡ (if prev == 0 then rest else h.free_list))
    unfolding take_block split_block rest
    split_statics = (ground arith, ground arith, ground arith)

    split-Chain :
        Chain
          (take_block prev cur needed h).words
          (take_block prev cur needed h).free_list
          (front ++ (rest ∷ back))
    unfolding rest
    split-Chain =
        let w' = (take_block prev cur needed h).words in
        let behind =
          Chain-frame h.words w' (h.words (next_of cur)) (back)
            (λ y m.
              let (l, ne, np) = after_lem i f y m in ground (arith, (split_other y l ne).2, np))
            f.chain_back in
        rw split_statics.2 (
          f.relink w' rest (rest ∷ back)
            (λ y m ne.
              let (l, ne') = before_lem i f y m in ground (arith, (split_other y l ne').2, ne))
            (λ ne. elim f.prev_lem [
              | inl e ↦ absurd (ne e)
              | inr p ↦ ground (arith, ne, (split_other prev p.1 f.prev_ne).2)
            ])
            (refl, ground (arith, f.cur_some), rw split_own.4 behind))

    pub split_blocks : ℕ → Bool
    split_blocks b = blocks b || rest == b

    pub rest_new : blocks rest ≡ false
    unfolding rest
    rest_new = ground (arith, i.apart cur rest f.cur_block, i.wide cur f.cur_block)

    -- A block of the new heap is the one taken, the one split off, or another.
    pub split_view :
        (b : ℕ)
        → split_blocks b ≡ true
        → ((b ≡ cur)
            × ((take_block prev cur needed h).words b ≡ needed)
            × ((take_block prev cur needed h).words (magic_of b) ≡ used_magic))
          ⊎ ((b ≡ rest)
              × ((take_block prev cur needed h).words b ≡ h.words cur - needed)
              × ((take_block prev cur needed h).words (magic_of b) ≡ free_magic))
          ⊎ ((blocks b ≡ true)
              × (b ≢ cur)
              × ((take_block prev cur needed h).words b ≡ h.words b)
              × ((take_block prev cur needed h).words (magic_of b) ≡ h.words (magic_of b)))
    unfolding split_blocks
    split_view b t = elim (ℕ_cases b cur) [
      | inl e ↦ inl (e, rw e split_own.0, rw e split_own.1)
      | inr ne ↦ elim (ℕ_cases b rest) [
        | inl e ↦ inr (inl (e, rw e split_own.2, rw e split_own.3))
        | inr nr ↦
            let old : blocks b ≡ true = ground (arith, t, nr) in
            let o = split_other b old ne in inr (inr (old, ne, o.0, o.1))
      ]
    ]

    split_follows :
        (b : ℕ)
        → split_blocks b ≡ true
        → b + (take_block prev cur needed h).words b < (take_block prev cur needed h).heap_cur
        → split_blocks (b + (take_block prev cur needed h).words b) ≡ true
    unfolding split_blocks rest
    split_follows b t l =
        let in_heap : b + (take_block prev cur needed h).words b < h.heap_cur =
          ground (arith, l, split_statics.0) in
        elim (split_view b t) [
          | inl v ↦ rw (v.1, v.0) (ground arith)
          | inr (inl v) ↦
              let e : rest + (h.words cur - needed) ≡ cur + h.words cur =
                omega (arith, enough, rest_eq) in
              let l' : rest + (h.words cur - needed) < h.heap_cur = ground (arith, v, in_heap) in
              let next = i.follows cur f.cur_block (omega (arith, e, l')) in
              rw (v.1, v.0, e) (ground (arith, next))
          | inr (inr v) ↦ rw v.2 (ground (arith, i.follows b v.0 (ground (arith, v, in_heap))))
        ]

    split_listed :
        (b : ℕ)
        → count b (front ++ (rest ∷ back)) ≡ (
            if split_blocks b && (take_block prev cur needed h).words (magic_of b) == free_magic
            then 1
            else 0)
    unfolding split_blocks
    split_listed b =
        let sum = λ (y : ℕ). count-append y (front) (rest ∷ back) in
        elim (ℕ_cases b cur) [
          | inl e ↦
              rw e
                (ground (arith, sum cur, f.parts cur, i.listed cur, f.cur_free, split_own, rest_eq))
          | inr ne ↦ elim (ℕ_cases b rest) [
            | inl e ↦
                rw e (ground (arith, sum rest, f.parts rest, i.listed rest, rest_new, split_own))
            | inr nr ↦ ground (arith, sum b, f.parts b, i.listed b, split_other b, ne, nr)
          ]
        ]

    pub split-IsHeap : IsHeap (take_block prev cur needed h) split_blocks (front ++ (rest ∷ back))
    unfolding split_blocks
    split-IsHeap =
        let bc = f.cur_block in
        let nc = enough in
        let start : rest ≡ cur + needed = rest_eq in
        record {
          cur_le_max = ground (arith, split_statics, i.cur_le_max);
          max_fits = ground (arith, split_statics, i.max_fits);
          start_le_cur = ground (arith, split_statics, i.start_le_cur);
          max_aligned = ground (arith, split_statics, i.max_aligned);
          cur_aligned = ground (arith, split_statics, i.cur_aligned);
          low = λ b t. ground (arith, split_view b t, i.low b, i.low cur bc, start);
          aligned =
              λ b t. ground (arith, split_view b t, i.aligned b, i.aligned cur bc, start, whole);
          size_aligned = λ b t.
              ground (arith, split_view b t, i.size_aligned b, i.size_aligned cur bc, whole, nc);
          wide = λ b t. ground (arith, split_view b t, i.wide b, some_data, splits);
          within = λ b t.
              ground
                (arith, split_view b t, split_statics.0, i.within b, i.within cur bc, start, nc);
          apart = λ b c t u l. ground (
            arith,
            split_view b t,
            split_view c u,
            i.apart b c,
            i.apart cur c bc,
            i.apart cur b bc,
            i.apart b cur,
            start,
            nc,
          );
          follows = λ b t l. split_follows b t l;
          marked = λ b t. ground (arith, split_view b t, i.marked b);
          listed = λ b. split_listed b;
          chained = split-Chain;
        }

    pub split-Allocated : Allocated h (take_block prev cur needed h) blocks split_blocks cur needed
    unfolding split_blocks
    split-Allocated = record {
      same_cur = split_statics.0;
      same_max = split_statics.1;
      given = ground (arith, f.cur_block, split_own);
      enough = ground (arith, split_own);
      fresh = ground (arith, f.cur_free);
      others = λ y ne. elim (ℕ_cases y rest) [
        | inl e ↦ rw e (ground (arith, rest_new, split_own))
        | inr nr ↦ ground (arith, nr, split_other y, ne)
      ];
      same_size = λ y u. ground (arith, u, f.cur_free, split_other y);
    }
