-- ===== src/Heap/Found.antt =====
-- A block of the free list that a walk of kernel/drivers/mm/mm.c found, with the block before it and
-- the parts of the list around it.
use deva.Prelude.{
  length-append, not, ℕ, ◌+◌, ◌≤◌, ◌<◌, ◌≡◌, ◌≢◌, ◌⊎◌, inl, inr, ◌∙◌, Bool, true, false, ◌&&◌, List,
  ◌++◌, arith, ◌==◌, if◌then◌else◌, length,
}
use deva.Heap.{Heap, free_magic, magic_of, next_of}
use deva.Heap.FreeList.{
  count, count-append, Chain, pick, before, after, pick-Found, pick-prev, pick-ne, pick-length,
  Chain-after, Chain-relink,
}
use deva.Heap.Blocks.{IsHeap, listed_once, listed_free, blocks_apart, null_unlisted}

pub ℕ_cases : (a b : ℕ) → (a ≡ b) ⊎ (a ≢ b)
ℕ_cases a b = ground arith

pub record Found (h : Heap) (blocks : ℕ → Bool) (frees : List ℕ) (prev cur : ℕ)
    (front back : List ℕ) : Type 0 where
  pub cur_block : blocks cur ≡ true
  pub cur_free : h.words (magic_of cur) ≡ free_magic
  pub cur_some : cur ≢ 0
  pub parts : (y : ℕ) → count y frees ≡ (if cur == y then 1 else 0) + count y front + count y back
  pub length_lem : length frees ≡ length front + length back + 1
  pub prev_lem : (prev ≡ 0) ⊎ ((prev ≢ 0) × (blocks prev ≡ true) × (1 ≤ count prev front))
  pub prev_ne : prev ≢ cur
  pub chain_back : Chain h.words (h.words (next_of cur)) back
  pub relink :
      (w' : ℕ → ℕ) (t : ℕ) (ys : List ℕ)
      → ((y : ℕ) → 1 ≤ count y front → y ≢ prev → w' (next_of y) ≡ h.words (next_of y))
      → (prev ≢ 0 → w' (next_of prev) ≡ t)
      → Chain w' t ys
      → Chain w' (if prev == 0 then t else h.free_list) (front ++ ys)

module _ {h : Heap} {blocks : ℕ → Bool} {frees : List ℕ} (i : IsHeap h blocks frees) where
  pub pick-is_Found :
      (test : ℕ → Bool)
      → (pick test 0 frees).1 ≢ 0
      → Found h blocks frees
          (pick test 0 frees).0
          (pick test 0 frees).1
          (before test frees)
          (after test frees)
        × (test (pick test 0 frees).1 ≡ true)
  pick-is_Found test found =
      let f = pick-Found h.words test 0 h.free_list frees i.chained found in
      let l = listed_free i (pick test 0 frees).1 (ground (arith, f.1 (pick test 0 frees).1)) in
      let parts' : (y : ℕ)
          → count y frees
            ≡ (if (pick test 0 frees).1 == y then 1 else 0)
              + count y (before test frees)
              + count y (after test frees) =
        λ y. omega (arith, f.1 y, count-append y (before test frees) (after test frees)) in
      (
        record {
          cur_block = l.0;
          cur_free = l.1;
          cur_some = found;
          parts = parts';
          length_lem =
              pick-length test 0 frees found
              ∙ omega (arith, length-append (before test frees) (after test frees));
          prev_lem = elim (pick-prev test 0 frees found) [
            | inl e ↦ inl e
            | inr c ↦
                let p = (pick test 0 frees).0 in
                let l' = listed_free i p (omega (arith, c, parts' p)) in
                inr (ground (arith, i.low p l'.0), l'.0, c)
          ];
          prev_ne = pick-ne test 0 frees (listed_once i) (null_unlisted i) found;
          chain_back = Chain-after h.words test 0 h.free_list frees i.chained found;
          relink = λ w' t ys same turned d.
              Chain-relink h.words w' test 0 h.free_list t frees ys i.chained found (listed_once i)
                (null_unlisted i) same turned d;
        },
        f.0,
      )

module _ {h : Heap} {blocks : ℕ → Bool} {frees : List ℕ} {prev cur : ℕ} {front back : List ℕ}
    (i : IsHeap h blocks frees) (f : Found h blocks frees prev cur front back) where
  pub before_lem : (y : ℕ) → 1 ≤ count y front → (blocks y ≡ true) × (y ≢ cur)
  before_lem y m =
      ((listed_free i y (omega (arith, f.parts y))).0, ground (arith, f.parts y, listed_once i y))

  pub after_lem :
      (y : ℕ)
      → 1 ≤ count y back
      → (blocks y ≡ true) × (y ≢ cur) × ((not (prev == 0) && prev == y) ≡ false)
  after_lem y m = (
    (listed_free i y (omega (arith, f.parts y))).0,
    ground (arith, f.parts y, listed_once i y),
    ground (arith, f.parts y, listed_once i y, f.prev_lem),
  )

  pub other_block :
      (b : ℕ) → blocks b ≡ true → b ≢ cur → ((b < cur) × (b + 16 ≤ cur)) ⊎ (cur + h.words cur ≤ b)
  other_block b t ne = ground (arith, blocks_apart i b cur t f.cur_block ne)
