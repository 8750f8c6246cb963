-- ===== src/Heap/Malloc.antt =====
-- `malloc` of kernel/drivers/mm/mm.c.
pub mod Split
pub mod Whole
use deva.Prelude.{
  length-append, ℕ, zero, suc, ◌+◌, ◌-◌, ◌*◌, ◌/◌, ◌%◌, ◌^◌, ◌≤◌, ◌<◌, min, ◌≡◌, ◌≢◌, ◌⊎◌, inl, inr,
  refl, sym, ap, ◌∙◌, Bool, true, false, ◌&&◌, ◌||◌, Option, none, some, List, [], ◌∷◌, ◌++◌, arith,
  ltb, leb, ◌==◌, if◌then◌else◌, not_zero, Bool-cases, Option-cases, update, bit_and, bit_or,
  length, get_or, take, drop, replicate,
}
use deva.Prelude.Bits.{bit_and_high}
use deva.Heap.{
  Heap, used_magic, free_magic, magic_of, block_sz, walk, fits, take_block, needed_for, heap_grow,
  malloc,
}
use deva.Heap.FreeList.{Chain, count, pick, before, after, walk-pick, pick-some}
use deva.Heap.Blocks.{IsHeap, listed_free, in_use, Allocated}
use deva.Heap.Found.{ℕ_cases, Found, pick-is_Found}
use deva.Heap.Malloc.Split.{rest, split_blocks, split-IsHeap, split-Allocated}
use deva.Heap.Malloc.Whole.{whole-IsHeap, whole-Allocated}

module _ {h : Heap} {blocks : ℕ → Bool} {frees : List ℕ} {prev cur : ℕ} {front back : List ℕ}
    (i : IsHeap h blocks frees) (f : Found h blocks frees prev cur front back) (needed : ℕ)
    (whole : needed % 4 ≡ 0) (some_data : 16 ≤ needed) (enough : needed ≤ h.words cur) where
  take_lem :
      (blocks' : ℕ → Bool) × (frees' : List ℕ) × IsHeap
        (take_block prev cur needed h)
        blocks'
        frees'
      × Allocated h (take_block prev cur needed h) blocks blocks' cur needed
      × (length frees' ≤ length frees)
  take_lem = elim (Bool-cases (leb (needed + 16) (h.words cur))) [
    | inl t ↦
        let big : needed + 16 ≤ h.words cur = ground (arith, t) in
        (
          split_blocks i f needed whole some_data enough big,
          front ++ (rest i f needed whole some_data enough ∷ back),
          split-IsHeap i f needed whole some_data enough big,
          split-Allocated i f needed whole some_data enough big,
          omega (
            arith,
            f.length_lem,
            length-append front (rest i f needed whole some_data enough ∷ back),
          ),
        )
    | inr t ↦
        let tight : h.words cur < needed + 16 = ground (arith, t) in
        (
          blocks,
          front ++ back,
          whole-IsHeap i f needed tight,
          whole-Allocated i f needed tight enough,
          omega (arith, f.length_lem, length-append front back),
        )
  ]

pub needed_for_lem : (size : ℕ) → size + 15 < 2 ^ 32 → needed_for size ≡ (size + 15) / 4 * 4
unfolding needed_for
needed_for_lem size h =
    let e : ((block_sz + size) % 2 ^ 32 + 3) % 2 ^ 32 ≡ size + 15 = omega (arith, h) in
    rw e (bit_and_high 2 30 (size + 15) (omega (arith, h)))

-- `malloc` after the heap has grown, if the list was empty.
malloc_found :
    (h h1 : Heap) (fuel size needed prev cur : ℕ)
    → (if h.free_list == 0 then heap_grow h else h) ≡ h1
    → size ≢ 0
    → h1.free_list ≢ 0
    → needed_for size ≡ needed
    → walk fuel h1.words (fits h1.words needed) 0 h1.free_list ≡ some (prev, cur)
    → cur ≢ 0
    → malloc (suc fuel) size h ≡ some (cur + block_sz, take_block prev cur needed h1)
unfolding malloc
malloc_found h h1 fuel size needed prev zero grown some_size some_list e w found =
    absurd (found refl)
malloc_found h h1 fuel size needed prev (suc c) grown some_size some_list e w found =
    rw (grown, e, w) (ground (arith, some_size, some_list))

list_some : (w : ℕ → ℕ) (p x : ℕ) (xs : List ℕ) → Chain w p xs → 1 ≤ count x xs → p ≢ 0
list_some w p x [] c m = ground (arith, m)
list_some w p x (y ∷ xs) c m = ground (arith, c.0, c.1)

-- With a free block `x` that is large enough, the walk finds one, and its data are given out.
Allocated-le :
    {h h' : Heap} {blocks blocks' : ℕ → Bool} {b n m : ℕ}
    → n ≤ m
    → Allocated h h' blocks blocks' b m
    → Allocated h h' blocks blocks' b n
Allocated-le l a = record {
  same_cur = a.same_cur;
  same_max = a.same_max;
  given = a.given;
  enough = omega (arith, l, a.enough);
  fresh = a.fresh;
  others = a.others;
  same_size = a.same_size;
}

pub malloc_serves :
    (h : Heap) {h1 : Heap} {blocks : ℕ → Bool} {frees : List ℕ}
    → IsHeap h1 blocks frees
    → (if h.free_list == 0 then heap_grow h else h) ≡ h1
    → (fuel size x : ℕ) → length frees < fuel
    → 0 < size
    → size + 15 < 2 ^ 32
    → 1 ≤ count x frees
    → (size + 15) / 4 * 4 ≤ h1.words x
    → (b : ℕ) × (h' : Heap) × (blocks' : ℕ → Bool) × (frees' : List ℕ) × (malloc (suc fuel) size h
        ≡ some (b + block_sz, h'))
      × IsHeap h' blocks' frees'
      × Allocated h1 h' blocks blocks' b (size + block_sz)
      × (length frees' ≤ length frees)
malloc_serves h {h1} {blocks} {frees} i grown fuel size x fuel_lem some_size fits_word listed
      large =
    let needed = (size + 15) / 4 * 4 in
    let test = fits h1.words needed in
    let free_x = listed_free i x listed in
    let found =
      pick-some h1.words test 0 h1.free_list x frees i.chained listed
        (ground (arith, free_x, large)) in
    let (f, t) = pick-is_Found i test found in
    let enough : needed ≤ h1.words (pick test 0 frees).1 = ground (arith, t) in
    let (blocks', frees', i', a, shorter) =
      take_lem i f needed (omega arith) (omega (arith, some_size)) enough in
    (
      (pick test 0 frees).1,
      take_block (pick test 0 frees).0 (pick test 0 frees).1 needed h1,
      blocks',
      frees',
      malloc_found h h1 fuel size needed (pick test 0 frees).0 (pick test 0 frees).1 grown
          (omega (arith, some_size)) (list_some h1.words h1.free_list x frees i.chained listed)
          (needed_for_lem size fits_word)
          (walk-pick fuel h1.words test 0 h1.free_list frees i.chained fuel_lem) found,
      i',
      Allocated-le (omega arith) a,
      shorter,
    )

module _ {h : Heap} {blocks : ℕ → Bool} {frees : List ℕ} (i : IsHeap h blocks frees) where
  -- On a heap with its invariant and a free block x of its list that has room for the header and
  -- size bytes, rounded up to words, with size positive and below 2^32 - 15 and more fuel than the
  -- list is long: malloc returns the data of a block with that room that no caller held; the
  -- blocks callers held keep place and size, the heap keeps its invariant, and the list is no
  -- longer.
  pub malloc_lem :
      (fuel size x : ℕ)
      → length frees < fuel
      → 0 < size
      → size + 15 < 2 ^ 32
      → 1 ≤ count x frees
      → (size + 15) / 4 * 4 ≤ h.words x
      → (b : ℕ) × (h' : Heap) × (blocks' : ℕ → Bool) × (frees' : List ℕ) × (malloc (suc fuel) size h
          ≡ some (b + block_sz, h'))
        × IsHeap h' blocks' frees'
        × Allocated h h' blocks blocks' b (size + block_sz)
        × (length frees' ≤ length frees)
  malloc_lem fuel size x fuel_lem some_size fits_word listed large =
      let some_list = list_some h.words h.free_list x frees i.chained listed in
      malloc_serves h i (ground (arith, some_list)) fuel size x fuel_lem some_size fits_word listed
        large
