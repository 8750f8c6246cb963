-- ===== src/Tty/Screen.antt =====
-- The output of the terminal on the framebuffer: `draw_char` of kernel/drivers/text/text.c and the
-- functions of kernel/drivers/term/tty_fb.c. The font is a parameter: the bytes of a character's rows.
use deva.Prelude.{
  ℕ, zero, suc, ◌+◌, ◌*◌, ◌/◌, ◌^◌, ◌≡◌, refl, Bool, true, false, List, bit_and, not_zero,
  if◌then◌else◌,
}
use deva.Prelude.Int.{pos}
use deva.Video.{Video, color_base, put_pixel, fill_screen, fill_rect, video_scroll}
use deva.Video.Clip.{
  WideEnough, SameShape, Inside, Inside-refl, Inside-trans, Paints-Inside, put_pixel-Paints,
  fill_rect-Paints, wide_after,
}
use deva.Video.Scroll.{video_scroll-Inside}
use deva.Tty.{TtyOutput, Tty, tty_write}
use deva.Tty.Cursor.{IsSteady, IsKept, OnScreen, tty_write-OnScreen}

abbrev pub font_width : ℕ
font_width = 8

abbrev pub font_height : ℕ
font_height = 8

abbrev pub row_height : ℕ
row_height = font_height + 1

module _ (font : ℕ → ℕ → ℕ) where
  -- The loops of `draw_char` over columns and rows, `n` of each from `col` and `row` on.
  pub char_row : ℕ → ℕ → ℕ → ℕ → ℕ → ℕ → Video → Video
  char_row bits x y color col zero v = v
  char_row bits x y color col (suc n) v =
      char_row bits x y color (col + 1) n
        (if not_zero (bit_and bits (2 ^ col)) then put_pixel (pos (x + col)) (pos y) color v else v)

  pub char_rows : ℕ → ℕ → ℕ → ℕ → ℕ → ℕ → Video → Video
  char_rows c x y color row zero v = v
  char_rows c x y color row (suc n) v =
      char_rows c x y color (row + 1) n (char_row (font c row) x (y + row) color 0 8 v)

  pub draw_char : ℕ → ℕ → ℕ → ℕ → Video → Video
  draw_char c x y color v = char_rows c x y color 0 8 v

  pub fb_draw_char : ℕ → ℕ → ℕ → ℕ → ℕ → Video → Video
  fb_draw_char col row c fg bg v =
      let x = col * font_width in
      let y = row * font_height in
      draw_char c x y fg (fill_rect (pos x) (pos y) (pos font_width) (pos font_height) bg v)

  pub fb_scroll : ℕ → Video → Video
  fb_scroll zero v = v
  fb_scroll (suc rows) v = fb_scroll rows (video_scroll row_height v)

  unfoldable pub tty_fb_output : TtyOutput Video
  tty_fb_output = record {
    draw_char = fb_draw_char;
    scroll = fb_scroll;
    clear = fill_screen color_base;
    get_cols = λ v. v.width / font_width;
    get_rows = λ v. v.height / row_height;
  }

  put-Inside :
      (b : Bool) (x y color : ℕ) (v : Video)
      → WideEnough v
      → Inside v (if b then put_pixel (pos x) (pos y) color v else v)
  put-Inside true x y color v wide = Paints-Inside (put_pixel-Paints (pos x) (pos y) color v wide)
  put-Inside false x y color v wide = Inside-refl v

  char_row-Inside :
      (n bits x y color col : ℕ) (v : Video)
      → WideEnough v
      → Inside v (char_row bits x y color col n v)
  unfolding char_row
  char_row-Inside zero bits x y color col v wide = Inside-refl v
  char_row-Inside (suc n) bits x y color col v wide =
      let put = put-Inside (not_zero (bit_and bits (2 ^ col))) (x + col) y color v wide in
      Inside-trans put
        (char_row-Inside n bits x y color (col + 1) _ (wide_after v _ wide put.shape))

  char_rows-Inside :
      (n c x y color row : ℕ) (v : Video) → WideEnough v → Inside v (char_rows c x y color row n v)
  unfolding char_rows
  char_rows-Inside zero c x y color row v wide = Inside-refl v
  char_rows-Inside (suc n) c x y color row v wide =
      let p = char_row-Inside 8 (font c row) x (y + row) color 0 v wide in
      Inside-trans p (char_rows-Inside n c x y color (row + 1) _ (wide_after v _ wide p.shape))

  fb_draw_char-Inside :
      (col row c fg bg : ℕ) (v : Video) → WideEnough v → Inside v (fb_draw_char col row c fg bg v)
  unfolding fb_draw_char draw_char
  fb_draw_char-Inside col row c fg bg v wide =
      let p =
        Paints-Inside
          (fill_rect-Paints (pos (col * 8)) (pos (row * 8)) (pos 8) (pos 8) bg v wide) in
      Inside-trans p (char_rows-Inside 8 c (col * 8) (row * 8) fg 0 _ (wide_after v _ wide p.shape))

  fb_scroll-Inside : (rows : ℕ) (v : Video) → Inside v (fb_scroll rows v)
  unfolding fb_scroll
  fb_scroll-Inside zero v = Inside-refl v
  fb_scroll-Inside (suc rows) v =
      Inside-trans (video_scroll-Inside row_height v) (fb_scroll-Inside rows _)

-- Screens of the same shape have the same columns and rows.
same_size :
    (v v' : Video)
    → SameShape v v'
    → (v'.width / font_width ≡ v.width / font_width)
      × (v'.height / row_height ≡ v.height / row_height)
unfolding SameShape
same_size v v' h = (rw h.0 refl, rw h.1 refl)

-- A screen that differs from the first one only in its pixels.
pub Derived : Video → Video → Type 0
Derived first v = WideEnough v × Inside first v

module _ (font : ℕ → ℕ → ℕ) (first : Video) where
  fb-IsSteady : IsSteady (tty_fb_output font) (Derived first)
  unfolding tty_fb_output Derived
  fb-IsSteady = record {
    draw_cols =
        λ x y c fg bg s p. (same_size s _ (fb_draw_char-Inside font x y c fg bg s p.0).shape).0;
    draw_rows =
        λ x y c fg bg s p. (same_size s _ (fb_draw_char-Inside font x y c fg bg s p.0).shape).1;
    scroll_cols = λ s p. (same_size s _ (fb_scroll-Inside font 1 s).shape).0;
    scroll_rows = λ s p. (same_size s _ (fb_scroll-Inside font 1 s).shape).1;
  }

  fb-IsKept : IsKept (tty_fb_output font) (Derived first)
  unfolding tty_fb_output Derived
  fb-IsKept = record {
    draw = λ x y c fg bg s h g p.
        let i = fb_draw_char-Inside font x y c fg bg s p.0 in
        (wide_after s _ p.0 i.shape, Inside-trans p.1 i);
    scroll = λ s p.
        let i = fb_scroll-Inside font 1 s in (wide_after s _ p.0 i.shape, Inside-trans p.1 i);
  }

  -- The terminal on the framebuffer, on a screen whose rows fit the pitch and with the cursor on the
  -- screen: tty_write of any characters keeps the cursor on the screen, keeps the screen's shape, and
  -- changes no word of the framebuffer that is no pixel of the screen.
  pub tty_write-Inside :
      (cs : List ℕ) (t : Tty Video)
      → t.screen ≡ first
      → WideEnough first
      → OnScreen (tty_fb_output font) t
      → OnScreen (tty_fb_output font) (tty_write (tty_fb_output font) cs t)
        × Inside first (tty_write (tty_fb_output font) cs t).screen
  unfolding Derived
  tty_write-Inside cs t e wide on =
      let start : Derived first t.screen = rw e (wide, Inside-refl first) in
      let (on1, kept) = tty_write-OnScreen (Derived first) fb-IsSteady fb-IsKept cs t on start in
      (on1, kept.1)
