-- ===== src/Video.antt =====
-- The framebuffer, kernel/drivers/framebuffer/framebuffer.c, and the terminal's output on it,
-- kernel/drivers/term/tty_fb.c. `fb` is a function of the pixel index; an index of a pixel in range
-- is below 2^30 for a framebuffer that fits the address space, so no product wraps.
pub mod Clip
pub mod Scroll
mod Tests
use deva.Prelude.{ℕ, zero, suc, ◌+◌, ◌-◌, ◌*◌, ◌/◌, ◌&&◌, ltb, leb, if◌then◌else◌, update}
use deva.Prelude.Int.{ℤ, pos, ◌+ℤ◌, pos_part}

-- `COLOR_BASE`
abbrev pub color_base : ℕ
color_base = 0

-- The static variables.
pub record Video : Type 0 where
  pub fb : ℕ → ℕ
  pub width : ℕ
  pub height : ℕ
  pub pitch : ℕ

-- `video_put_pixel` at a place that is not negative, and at any place.
pub put_pixel_at : ℕ → ℕ → ℕ → Video → Video
put_pixel_at x y color v =
    if ltb x v.width && ltb y v.height
    then record v { fb = update v.fb (y * (v.pitch / 4) + x) color }
    else v

pub put_pixel : ℤ → ℤ → ℕ → Video → Video
put_pixel (pos x) (pos y) color v = put_pixel_at x y color v
put_pixel x y color v = v

-- One row of `video_fill_screen`, `n` pixels from `x` on, and its `n` rows from `y` on.
pub fill_row : ℕ → ℕ → ℕ → ℕ → Video → Video
fill_row y color x zero v = v
fill_row y color x (suc n) v = fill_row y color (x + 1) n (put_pixel (pos x) (pos y) color v)

pub fill_rows : ℕ → ℕ → ℕ → ℕ → Video → Video
fill_rows width color y zero v = v
fill_rows width color y (suc n) v = fill_rows width color (y + 1) n (fill_row y color 0 width v)

pub fill_screen : ℕ → Video → Video
fill_screen color v = fill_rows v.width color 0 v.height v

-- The inner and the outer loop of `video_fill_rect`.
pub rect_row : ℤ → ℤ → ℕ → ℕ → ℕ → Video → Video
rect_row x y color ix zero v = v
rect_row x y color ix (suc n) v = rect_row x y color (ix + 1) n (put_pixel (x +ℤ pos ix) y color v)

pub rect_rows : ℤ → ℤ → ℕ → ℕ → ℕ → ℕ → Video → Video
rect_rows x y w color iy zero v = v
rect_rows x y w color iy (suc n) v =
    rect_rows x y w color (iy + 1) n (rect_row x (y +ℤ pos iy) color 0 w v)

pub fill_rect : ℤ → ℤ → ℤ → ℤ → ℕ → Video → Video
fill_rect x y w h color v = rect_rows x y (pos_part w) color 0 (pos_part h) v

-- The loops of `video_scroll`: pixels of one row moved up by `lines` rows, and rows of them.
pub move_row : ℕ → ℕ → ℕ → ℕ → ℕ → (ℕ → ℕ) → ℕ → ℕ
move_row row_size lines y x zero fb = fb
move_row row_size lines y x (suc n) fb =
    move_row row_size lines y (x + 1) n
      (update fb (y * row_size + x) (fb ((y + lines) * row_size + x)))

pub move_rows : ℕ → ℕ → ℕ → ℕ → ℕ → (ℕ → ℕ) → ℕ → ℕ
move_rows row_size lines width y zero fb = fb
move_rows row_size lines width y (suc n) fb =
    move_rows row_size lines width (y + 1) n (move_row row_size lines y 0 width fb)

pub clear_row : ℕ → ℕ → ℕ → ℕ → (ℕ → ℕ) → ℕ → ℕ
clear_row row_size y x zero fb = fb
clear_row row_size y x (suc n) fb =
    clear_row row_size y (x + 1) n (update fb (y * row_size + x) color_base)

pub clear_rows : ℕ → ℕ → ℕ → ℕ → (ℕ → ℕ) → ℕ → ℕ
clear_rows row_size width y zero fb = fb
clear_rows row_size width y (suc n) fb =
    clear_rows row_size width (y + 1) n (clear_row row_size y 0 width fb)

-- `video_scroll` by a number of lines that is not negative. With more lines than the screen has,
-- `rows_to_move` is negative: the first loop does not run, and the second compares it as unsigned
-- and does not run either.
pub video_scroll : ℕ → Video → Video
video_scroll lines v =
    let row_size = v.pitch / 4 in
    let rows_to_move = v.height - lines in
    if leb lines v.height
    then record v {
      fb =
          clear_rows row_size v.width rows_to_move lines
            (move_rows row_size lines v.width 0 rows_to_move v.fb);
    }
    else v
