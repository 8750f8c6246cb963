-- ===== src/Video/Tests.antt =====
-- Runs of kernel/drivers/framebuffer/framebuffer.c on a small screen, and its theorems there.
use deva.Prelude.{◌+◌, ◌≡◌, refl, arith, ltb, if◌then◌else◌, ◌&&◌}
use deva.Prelude.Int.{pos, negsuc, ◌+ℤ◌}
use deva.Video.{
  Video, color_base, put_pixel_at, put_pixel, fill_rect, rect_row, rect_rows, video_scroll,
}
use deva.Video.Clip.{pixel, WideEnough, Paints, covers, fill_rect-Paints}
use deva.Video.Scroll.{video_scroll-pixel}

-- 6 columns and 4 rows, in rows of 8 words.
abbrev small : Video
small = record { fb = λ i. i + 100; width = 6; height = 4; pitch = 32 }

small-WideEnough : WideEnough small
unfolding WideEnough
small-WideEnough = omega arith

-- A rectangle that hangs over the upper left corner.
corner : pixel (fill_rect (negsuc 1) (negsuc 0) (pos 4) (pos 3) 7 small) 1 1 ≡ 7
unfolding fill_rect rect_rows rect_row put_pixel put_pixel_at ◌+ℤ◌
corner = refl

fill_rect-Paints_example :
    Paints small
      (fill_rect (negsuc 1) (negsuc 0) (pos 4) (pos 3) 7 small)
      7
      (λ x y. covers (negsuc 1) 0 4 x && covers (negsuc 0) 0 3 y)
fill_rect-Paints_example =
    fill_rect-Paints (negsuc 1) (negsuc 0) (pos 4) (pos 3) 7 small small-WideEnough

video_scroll-pixel_example :
    pixel (video_scroll 1 small) 2 1 ≡ (if ltb (1 + 1) 4 then pixel small 2 (1 + 1) else color_base)
video_scroll-pixel_example =
    video_scroll-pixel 1 small 2 1 small-WideEnough (omega arith) (omega arith) (omega arith)
      (omega arith)
