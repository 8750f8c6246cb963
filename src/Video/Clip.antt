-- ===== src/Video/Clip.antt =====
-- Pixels by place, and what `video_put_pixel`, `video_fill_screen` and `video_fill_rect` of
-- kernel/drivers/framebuffer/framebuffer.c do to them.
use deva.Prelude.{
  ℕ, zero, suc, ◌+◌, ◌*◌, ◌/◌, ◌≤◌, ◌<◌, ◌≡◌, ◌≢◌, refl, ap, false, ◌||◌, ◌∙◌, Bool, ◌&&◌, arith,
  ltb, leb, ◌==◌, if◌then◌else◌,
}
use deva.Prelude.Int.{ℤ, pos, negsuc, ◌+ℤ◌, pos_part, neg_part, +ℤ_parts}
use deva.Video.{
  Video, put_pixel_at, put_pixel, fill_row, fill_rows, fill_screen, rect_row, rect_rows, fill_rect,
}

-- The pixel at column `x` of row `y`.
abbrev pub pixel : Video → ℕ → ℕ → ℕ
pixel v x y = v.fb (y * (v.pitch / 4) + x)

-- Every row has room for its pixels.
unfoldable pub WideEnough : Video → Type 0
WideEnough v = v.width ≤ v.pitch / 4

-- Two places in rows of `n` are the same index only if they are the same place.
pub place_injective :
    (n x y x' y' : ℕ) → x < n → x' < n → y * n + x ≡ y' * n + x' → (x ≡ x') × (y ≡ y')
place_injective n x zero x' zero h h' e = (omega arith, refl)
place_injective n x zero x' (suc y') h h' e = absurd (grind arith)
place_injective n x (suc y) x' zero h h' e = absurd (grind arith)
place_injective n x (suc y) x' (suc y') h h' e =
    let (p, q) = place_injective n x y x' y' h h' (grind arith) in (p, ap suc q)

-- What stays of a screen when its pixels change.
unfoldable pub SameShape : Video → Video → Type 0
SameShape v v' = (v'.width ≡ v.width) × (v'.height ≡ v.height) × (v'.pitch ≡ v.pitch)

-- The columns that a loop paints which starts at `x + first` and takes `n` steps; also the rows.
abbrev pub covers : ℤ → ℕ → ℕ → ℕ → Bool
covers x first n x' =
    leb (pos_part x + first) (x' + neg_part x) && ltb (x' + neg_part x) (pos_part x + first + n)

-- The change of the screen by a drawing function: the places of `area` on the screen get `color`,
-- the other places of the screen and every index that is no place of the screen keep their value.
pub record Paints (v v' : Video) (color : ℕ) (area : ℕ → ℕ → Bool) : Type 0 where
  pub shape : SameShape v v'
  pub on :
      (x y : ℕ)
      → x < v.width
      → y < v.height
      → pixel v' x y ≡ (if area x y then color else pixel v x y)
  pub off :
      (i : ℕ)
      → ((x y : ℕ) → x < v.width → y < v.height → i ≢ y * (v.pitch / 4) + x)
      → v'.fb i ≡ v.fb i

put_pixel_at-Paints :
    (x y color : ℕ) (v : Video)
    → WideEnough v
    → Paints v (put_pixel_at x y color v) color (λ x' y'. x == x' && y == y')
unfolding put_pixel_at WideEnough SameShape
put_pixel_at-Paints x y color v wide = record {
  shape = ground arith;
  on = λ x' y' h g. let same = place_injective (v.pitch / 4) x y x' y' in ground (arith, same);
  off = λ i no. let here = no x y in ground (arith, here);
}

same-Paints : (color : ℕ) (v : Video) → Paints v v color (λ x y. false)
unfolding SameShape
same-Paints color v = record {
  shape = (refl, refl, refl);
  on = λ x y h g. refl;
  off = λ i no. refl;
}

-- One drawing after another paints what either paints.
then-Paints :
    {u v w : Video} {color : ℕ} {a b c : ℕ → ℕ → Bool}
    → Paints u v color a
    → Paints v w color b
    → ((x y : ℕ) → (a x y || b x y) ≡ c x y)
    → Paints u w color c
unfolding SameShape
then-Paints {u = u} {v = v} {w = w} p q whole = record {
  shape = ground (arith, p.shape, q.shape);
  on = λ x y h g.
      let first = p.on x y h g in
      let second = q.on x y (ground (arith, p.shape)) (ground (arith, p.shape)) in
      let both = whole x y in ground (arith, first, second, both, p.shape);
  off = λ i no.
      let first = p.off i no in
      let second =
        q.off i
          (λ x y h g. rw p.shape.2 (no x y (ground (arith, p.shape)) (ground (arith, p.shape)))) in
      second ∙ first;
}

same_area :
    {u v : Video} {color : ℕ} {a b : ℕ → ℕ → Bool}
    → Paints u v color a
    → ((x y : ℕ) → a x y ≡ b x y)
    → Paints u v color b
same_area p e = record {
  shape = p.shape;
  on = λ x y h g. let one = e x y in let here = p.on x y h g in ground (arith, one, here);
  off = p.off;
}

pub wide_after : (v v' : Video) → WideEnough v → SameShape v v' → WideEnough v'
unfolding WideEnough SameShape
wide_after v v' h g = ground (arith, g)

pub put_pixel-Paints :
    (x y : ℤ) (color : ℕ) (v : Video)
    → WideEnough v
    → Paints v (put_pixel x y color v) color (λ x' y'. covers x 0 1 x' && covers y 0 1 y')
unfolding put_pixel
put_pixel-Paints (pos x) (pos y) color v wide =
    same_area (put_pixel_at-Paints x y color v wide) (λ x' y'. ground arith)
put_pixel-Paints (pos x) (negsuc y) color v wide =
    same_area (same-Paints color v) (λ x' y'. ground arith)
put_pixel-Paints (negsuc x) (pos y) color v wide =
    same_area (same-Paints color v) (λ x' y'. ground arith)
put_pixel-Paints (negsuc x) (negsuc y) color v wide =
    same_area (same-Paints color v) (λ x' y'. ground arith)

covers_shift : (x : ℤ) (k x' : ℕ) → covers (x +ℤ pos k) 0 1 x' ≡ covers x k 1 x'
covers_shift x k x' = let e = +ℤ_parts x (pos k) in ground (arith, e)

rect_row-Paints :
    (n : ℕ) (x y : ℤ) (color ix : ℕ) (v : Video)
    → WideEnough v
    → Paints v (rect_row x y color ix n v) color (λ x' y'. covers x ix n x' && covers y 0 1 y')
unfolding rect_row
rect_row-Paints zero x y color ix v wide = same_area (same-Paints color v) (λ x' y'. ground arith)
rect_row-Paints (suc n) x y color ix v wide =
    let p = put_pixel-Paints (x +ℤ pos ix) y color v wide in
    let q =
      rect_row-Paints n x y color (ix + 1) (put_pixel (x +ℤ pos ix) y color v)
        (wide_after v _ wide p.shape) in
    then-Paints p q (λ x' y'. let e = covers_shift x ix x' in ground (arith, e))

rect_rows-Paints :
    (n : ℕ) (x y : ℤ) (w color iy : ℕ) (v : Video)
    → WideEnough v
    → Paints v (rect_rows x y w color iy n v) color (λ x' y'. covers x 0 w x' && covers y iy n y')
unfolding rect_rows
rect_rows-Paints zero x y w color iy v wide =
    same_area (same-Paints color v) (λ x' y'. ground arith)
rect_rows-Paints (suc n) x y w color iy v wide =
    let p = rect_row-Paints w x (y +ℤ pos iy) color 0 v wide in
    let q =
      rect_rows-Paints n x y w color (iy + 1) (rect_row x (y +ℤ pos iy) color 0 w v)
        (wide_after v _ wide p.shape) in
    then-Paints p q (λ x' y'. let e = covers_shift y iy y' in ground (arith, e))

-- video_fill_rect, at any place and of any size, on a screen whose rows fit the pitch: the pixels of
-- the rectangle that are on the screen get the colour, and no other word of the framebuffer changes.
pub fill_rect-Paints :
    (x y w h : ℤ) (color : ℕ) (v : Video)
    → WideEnough v
    → Paints v
        (fill_rect x y w h color v)
        color
        (λ x' y'. covers x 0 (pos_part w) x' && covers y 0 (pos_part h) y')
unfolding fill_rect
fill_rect-Paints x y w h color v wide =
    rect_rows-Paints (pos_part h) x y (pos_part w) color 0 v wide

fill_row-Paints :
    (n y color x : ℕ) (v : Video)
    → WideEnough v
    → Paints v (fill_row y color x n v) color (λ x' y'. covers (pos x) 0 n x' && y == y')
unfolding fill_row
fill_row-Paints zero y color x v wide = same_area (same-Paints color v) (λ x' y'. ground arith)
fill_row-Paints (suc n) y color x v wide =
    let p = put_pixel-Paints (pos x) (pos y) color v wide in
    let q =
      fill_row-Paints n y color (x + 1) (put_pixel (pos x) (pos y) color v)
        (wide_after v _ wide p.shape) in
    then-Paints p q (λ x' y'. ground arith)

pub fill_rows-Paints :
    (n width color y : ℕ) (v : Video)
    → WideEnough v
    → Paints v (fill_rows width color y n v) color (λ x' y'. ltb x' width && covers (pos y) 0 n y')
unfolding fill_rows
fill_rows-Paints zero width color y v wide = same_area (same-Paints color v) (λ x' y'. ground arith)
fill_rows-Paints (suc n) width color y v wide =
    let p = fill_row-Paints width y color 0 v wide in
    let q =
      fill_rows-Paints n width color (y + 1) (fill_row y color 0 width v)
        (wide_after v _ wide p.shape) in
    then-Paints p q (λ x' y'. ground arith)

-- video_fill_screen on a screen whose rows fit the pitch: every pixel of the screen gets the colour.
pub fill_screen_lem :
    (color : ℕ) (v : Video)
    → WideEnough v
    → (x y : ℕ) → x < v.width
    → y < v.height
    → pixel (fill_screen color v) x y ≡ color
unfolding fill_screen
fill_screen_lem color v wide x y h g =
    let p = fill_rows-Paints v.height v.width color 0 v wide in
    let here = p.on x y h g in ground (arith, here)

-- The two screens have the same shape, and no word changes that is no pixel of the screen.
pub record Inside (v v' : Video) : Type 0 where
  pub shape : SameShape v v'
  pub off :
      (i : ℕ)
      → ((x y : ℕ) → x < v.width → y < v.height → i ≢ y * (v.pitch / 4) + x)
      → v'.fb i ≡ v.fb i

pub Inside-refl : (v : Video) → Inside v v
unfolding SameShape
Inside-refl v = record { shape = (refl, refl, refl); off = λ i no. refl }

pub Inside-trans : {u v w : Video} → Inside u v → Inside v w → Inside u w
unfolding SameShape
Inside-trans p q = record {
  shape = ground (arith, p.shape, q.shape);
  off = λ i no.
      let first = p.off i no in
      let second =
        q.off i
          (λ x y h g. rw p.shape.2 (no x y (ground (arith, p.shape)) (ground (arith, p.shape)))) in
      second ∙ first;
}

pub Paints-Inside :
    {v v' : Video} {color : ℕ} {area : ℕ → ℕ → Bool} → Paints v v' color area → Inside v v'
Paints-Inside p = record { shape = p.shape; off = p.off }
