-- ===== src/Video/Scroll.antt =====
-- `video_scroll` of kernel/drivers/framebuffer/framebuffer.c: the rows move up within the same memory.
use deva.Prelude.{
  ℕ, zero, suc, ◌+◌, ◌-◌, ◌*◌, ◌/◌, ◌≤◌, ◌<◌, ◌≡◌, ◌≢◌, refl, ◌∙◌, ◌&&◌, arith, ltb, leb, ◌==◌,
  if◌then◌else◌, update,
}
use deva.Video.{Video, color_base, move_row, move_rows, clear_row, clear_rows, video_scroll}
use deva.Video.Clip.{pixel, WideEnough, SameShape, Inside, place_injective}

module _ (rs lines width : ℕ) (fits : width ≤ rs) where
  -- A row moves up; a row below it, and the rest of the row, stay.
  move_row_lem :
      (n y x : ℕ) (fb : ℕ → ℕ) (x' y' : ℕ)
      → 0 < lines
      → x + n ≤ width
      → x' < rs
      → move_row rs lines y x n fb (y' * rs + x') ≡ (
          if y == y' && (leb x x' && ltb x' (x + n))
          then fb ((y' + lines) * rs + x')
          else fb (y' * rs + x'))
  unfolding move_row
  move_row_lem zero y x fb x' y' some_lines h g = ground arith
  move_row_lem (suc n) y x fb x' y' some_lines h g =
      let fb1 = update fb (y * rs + x) (fb ((y + lines) * rs + x)) in
      let here = move_row_lem n y (x + 1) fb1 x' y' some_lines (omega arith) g in
      let same = place_injective rs x y x' y' (omega arith) g in
      let below = place_injective rs x y x' (y' + lines) (omega arith) g in
      ground (arith, here, same, below)

  move_rows_lem :
      (n y : ℕ) (fb : ℕ → ℕ) (x' y' : ℕ)
      → 0 < lines
      → x' < rs
      → move_rows rs lines width y n fb (y' * rs + x') ≡ (
          if ltb x' width && (leb y y' && ltb y' (y + n))
          then fb ((y' + lines) * rs + x')
          else fb (y' * rs + x'))
  unfolding move_rows
  move_rows_lem zero y fb x' y' some_lines g = ground arith
  move_rows_lem (suc n) y fb x' y' some_lines g =
      let fb1 = move_row rs lines y 0 width fb in
      let here = move_rows_lem n (y + 1) fb1 x' y' some_lines g in
      let row = move_row_lem width y 0 fb x' y' some_lines (omega arith) g in
      let source = move_row_lem width y 0 fb x' (y' + lines) some_lines (omega arith) g in
      ground (arith, here, row, source)

  clear_row_lem :
      (n y x : ℕ) (fb : ℕ → ℕ) (x' y' : ℕ)
      → x + n ≤ width
      → x' < rs
      → clear_row rs y x n fb (y' * rs + x')
        ≡ (if y == y' && (leb x x' && ltb x' (x + n)) then color_base else fb (y' * rs + x'))
  unfolding clear_row
  clear_row_lem zero y x fb x' y' h g = ground arith
  clear_row_lem (suc n) y x fb x' y' h g =
      let here =
        clear_row_lem n y (x + 1) (update fb (y * rs + x) color_base) x' y' (omega arith) g in
      let same = place_injective rs x y x' y' (omega arith) g in ground (arith, here, same)

  clear_rows_lem :
      (n y : ℕ) (fb : ℕ → ℕ) (x' y' : ℕ)
      → x' < rs
      → clear_rows rs width y n fb (y' * rs + x')
        ≡ (if ltb x' width && (leb y y' && ltb y' (y + n)) then color_base else fb (y' * rs + x'))
  unfolding clear_rows
  clear_rows_lem zero y fb x' y' g = ground arith
  clear_rows_lem (suc n) y fb x' y' g =
      let here = clear_rows_lem n (y + 1) (clear_row rs y 0 width fb) x' y' g in
      let row = clear_row_lem width y 0 fb x' y' (omega arith) g in ground (arith, here, row)

-- video_scroll by a positive number of lines that the screen has, with rows that fit the pitch: every
-- pixel shows what stood that many lines below, and the last lines show the background.
pub video_scroll-pixel :
    (lines : ℕ) (v : Video) (x y : ℕ)
    → WideEnough v
    → 0 < lines
    → lines ≤ v.height
    → x < v.width
    → y < v.height
    → pixel (video_scroll lines v) x y
      ≡ (if ltb (y + lines) v.height then pixel v x (y + lines) else color_base)
unfolding video_scroll WideEnough
video_scroll-pixel lines v x y wide some_lines fits h g =
    let rs = v.pitch / 4 in
    let fb1 = move_rows rs lines v.width 0 (v.height - lines) v.fb in
    let moved =
      move_rows_lem rs lines v.width wide (v.height - lines) 0 v.fb x y some_lines (omega arith) in
    let cleared =
      clear_rows_lem rs lines v.width wide lines (v.height - lines) fb1 x y (omega arith) in
    ground (arith, moved, cleared)

-- The loops write only pixels of the screen.
module _ (rs lines width height i : ℕ)
    (no : (x y : ℕ) → x < width → y < height → i ≢ y * rs + x) where
  move_row-off :
      (n y x : ℕ) (fb : ℕ → ℕ) → x + n ≤ width → y < height → move_row rs lines y x n fb i ≡ fb i
  unfolding move_row
  move_row-off zero y x fb h g = refl
  move_row-off (suc n) y x fb h g =
      let fb1 = update fb (y * rs + x) (fb ((y + lines) * rs + x)) in
      let rest = move_row-off n y (x + 1) fb1 (omega arith) g in
      let other = no x y (omega arith) g in ground (arith, rest, other)

  move_rows-off : (n y : ℕ) (fb : ℕ → ℕ) → y + n ≤ height → move_rows rs lines width y n fb i ≡ fb i
  unfolding move_rows
  move_rows-off zero y fb h = refl
  move_rows-off (suc n) y fb h =
      move_rows-off n (y + 1) (move_row rs lines y 0 width fb) (omega arith)
      ∙ move_row-off width y 0 fb (omega arith) (omega arith)

  clear_row-off :
      (n y x : ℕ) (fb : ℕ → ℕ) → x + n ≤ width → y < height → clear_row rs y x n fb i ≡ fb i
  unfolding clear_row
  clear_row-off zero y x fb h g = refl
  clear_row-off (suc n) y x fb h g =
      let rest = clear_row-off n y (x + 1) (update fb (y * rs + x) color_base) (omega arith) g in
      let other = no x y (omega arith) g in ground (arith, rest, other)

  clear_rows-off : (n y : ℕ) (fb : ℕ → ℕ) → y + n ≤ height → clear_rows rs width y n fb i ≡ fb i
  unfolding clear_rows
  clear_rows-off zero y fb h = refl
  clear_rows-off (suc n) y fb h =
      clear_rows-off n (y + 1) (clear_row rs y 0 width fb) (omega arith)
      ∙ clear_row-off width y 0 fb (omega arith) (omega arith)

pub video_scroll-Inside : (lines : ℕ) (v : Video) → Inside v (video_scroll lines v)
unfolding video_scroll SameShape
video_scroll-Inside lines v = record {
  shape = ground arith;
  off = λ i no.
      let moves =
        move_rows-off (v.pitch / 4) lines v.width v.height i no (v.height - lines) 0 v.fb
          (omega arith) in
      let fb1 = move_rows (v.pitch / 4) lines v.width 0 (v.height - lines) v.fb in
      let clears = λ (le : lines ≤ v.height).
        clear_rows-off (v.pitch / 4) lines v.width v.height i no lines (v.height - lines) fb1
          (omega arith) in
      ground (arith, moves, clears);
}
