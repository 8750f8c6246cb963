-- ===== src/Paging/Frames.antt =====
-- The frame bitmap of kernel/drivers/paging/paging.c: which frame `alloc_frame` hands out, and
-- what `free_frame` gives back.
use deva.Prelude.{
  ℕ, zero, suc, ◌+◌, ◌-◌, ◌*◌, ◌/◌, ◌%◌, ◌^◌, ◌≤◌, ◌<◌, ◌≡◌, ap, ◌∙◌, ◌⊎◌, inl, inr, Bool, true,
  false, ◌&&◌, Option, none, some, bit_and, bit_or, arith, ltb, ◌==◌, if◌then◌else◌, update,
  not_zero, Bool-cases, Option-cases,
}
use deva.Prelude.Bits.{bit, bit-set, bit-clear, shift-bit, bit_and-one}
use deva.Paging.{Paging, page_size, bm_set, bm_clear, bm_test, find_free, alloc_frame, free_frame}

bm_test-bit : (bm : ℕ → ℕ) (f : ℕ) → bm_test bm f ≡ not_zero (bit (bm (f / 32)) (f % 32))
unfolding bm_test
bm_test-bit bm f =
    ap not_zero (bit_and-one (bm (f / 32) / 2 ^ (f % 32)) ∙ shift-bit (bm (f / 32)) (f % 32))

-- Setting the bit of one frame marks it and no other.
pub bm_test-bm_set :
    (bm : ℕ → ℕ) (f g : ℕ) → bm_test (bm_set bm f) g ≡ (if f == g then true else bm_test bm g)
unfolding bm_set
bm_test-bm_set bm f g = ground (
  arith,
  bm_test-bit (update bm (f / 32) (bit_or (bm (f / 32)) (2 ^ (f % 32)))) g,
  bm_test-bit bm g,
  bit-set (bm (f / 32)) (f % 32) (g % 32),
)

-- Clearing the bit of one frame frees it and no other.
pub bm_test-bm_clear :
    (bm : ℕ → ℕ) (f g : ℕ) → bm_test (bm_clear bm f) g ≡ (if f == g then false else bm_test bm g)
unfolding bm_clear
bm_test-bm_clear bm f g = ground (
  arith,
  bm_test-bit (update bm (f / 32) (bit_and (bm (f / 32)) (2 ^ 32 - 1 - 2 ^ (f % 32)))) g,
  bm_test-bit bm g,
  bit-clear 32 (bm (f / 32)) (f % 32) (g % 32) (omega arith) (omega arith),
)

-- The lowest free frame among those from `i` on, if there is one.
abbrev pub FindsFree : (ℕ → ℕ) → ℕ → ℕ → Option ℕ → Type 0
FindsFree bm i n none = (j : ℕ) → i ≤ j → j < i + n → bm_test bm j ≡ true
FindsFree bm i n (some f) =
    (i ≤ f) × (f < i + n) × (bm_test bm f ≡ false) × ((j : ℕ) → i ≤ j → j < f → bm_test bm j ≡ true)

find_free_later :
    (bm : ℕ → ℕ) (i n : ℕ) (o : Option ℕ)
    → bm_test bm i ≡ true
    → FindsFree bm (i + 1) n o
    → FindsFree bm i (suc n) o
find_free_later bm i n none used h = λ j lo hi. ground (arith, h j)
find_free_later bm i n (some f) used h =
    (omega arith, omega arith, h.2, λ j lo hi. ground (arith, h.3 j))

pub find_free_lem : (bm : ℕ → ℕ) (i n : ℕ) → FindsFree bm i n (find_free bm i n)
unfolding find_free
find_free_lem bm i zero = λ j lo hi. absurd (omega arith)
find_free_lem bm i (suc n) = elim (Bool-cases (bm_test bm i)) [
  | inl used ↦
      rw used (find_free_later bm i n (find_free bm (i + 1) n) used (find_free_lem bm (i + 1) n))
  | inr free ↦ rw free (omega arith, omega arith, free, λ j lo hi. absurd (omega arith))
]

abbrev pub is_used : Paging → ℕ → Bool
is_used s f = bm_test s.frame_bitmap f

-- No more frames than 4 GiB hold.
abbrev pub FewFrames : Paging → Type 0
FewFrames s = s.total_frames ≤ 2 ^ 20

-- What one call of `alloc_frame` does.
pub record Allocates (s : Paging) (f : ℕ) : Type 0 where
  pub in_range : f < s.total_frames
  pub was_free : is_used s f ≡ false
  pub lowest : (j : ℕ) → j < f → is_used s j ≡ true
  pub address : (alloc_frame s).0 ≡ f * page_size
  pub marked : (j : ℕ) → is_used (alloc_frame s).1 j ≡ (if f == j then true else is_used s j)
  pub rest : (alloc_frame s).1 ≡ record s { frame_bitmap = (alloc_frame s).1.frame_bitmap }

Allocates-found :
    (s : Paging)
    → FewFrames s
    → (f : ℕ) → find_free s.frame_bitmap 0 s.total_frames ≡ some f
    → FindsFree s.frame_bitmap 0 s.total_frames (some f)
    → Allocates s f
unfolding alloc_frame
Allocates-found s few f e found = record {
  in_range = omega arith;
  was_free = found.2;
  lowest = λ j lt. found.3 j (omega arith) lt;
  address = ground arith;
  marked = λ j. ground (arith, bm_test-bm_set s.frame_bitmap f j);
  rest = ground arith;
}

-- `alloc_frame` hands out the lowest free frame, marks that frame and no other, and changes
-- nothing else; or every frame is in use, the answer is 0, and nothing changes.
pub alloc_frame_lem :
    (s : Paging)
    → FewFrames s
    → ((f : ℕ) × Allocates s f)
      ⊎ (((j : ℕ) → j < s.total_frames → is_used s j ≡ true) × (alloc_frame s ≡ (0, s)))
unfolding alloc_frame
alloc_frame_lem s few = elim (Option-cases (find_free s.frame_bitmap 0 s.total_frames)) [
  | inl e ↦
      let found = find_free_lem s.frame_bitmap 0 s.total_frames in
      let all : FindsFree s.frame_bitmap 0 s.total_frames none = rw e at found in
      inr (λ j lt. all j (omega arith) (omega arith), ground arith)
  | inr (f, e) ↦
      let found = find_free_lem s.frame_bitmap 0 s.total_frames in
      let first : FindsFree s.frame_bitmap 0 s.total_frames (some f) = rw e at found in
      inl (f, Allocates-found s few f e first)
]

-- `free_frame` frees the frame of the address, if there is one, and no other.
pub is_used-free_frame :
    (s : Paging) (addr j : ℕ)
    → is_used (free_frame addr s) j
      ≡ (if addr / page_size == j && ltb j s.total_frames then false else is_used s j)
unfolding free_frame
is_used-free_frame s addr j = ground (arith, bm_test-bm_clear s.frame_bitmap (addr / page_size) j)
