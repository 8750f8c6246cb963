-- ===== src/Tty/Cursor.antt =====
-- The cursor of kernel/drivers/term/tty.c stays on the screen, and every character is drawn there.
use deva.Prelude.{
  ℕ, zero, suc, Bool, true, false, ◌+◌, ◌-◌, ◌*◌, ◌/◌, ◌≤◌, ◌<◌, ◌≡◌, List, [], ◌∷◌, arith, ltb,
  ◌==◌, if◌then◌else◌, ◌&&◌, Bool-cases, inl, inr,
}
use deva.Tty.{
  TtyOutput, Tty, tty_scroll, tty_check_scroll, draw_here, new_line, carriage_return, step_back,
  tab_loop, wrap_line, tab, put_plain, tty_putchar, tty_write,
}

-- What the terminal takes for granted of its output: on a screen with the property `P` no operation
-- changes the size of the screen.
pub record IsSteady {S : Type 0} (out : TtyOutput S) (P : S → Type 0) : Type 0 where
  pub draw_cols :
      (x y c fg bg : ℕ) (s : S) → P s → out.get_cols (out.draw_char x y c fg bg s) ≡ out.get_cols s
  pub draw_rows :
      (x y c fg bg : ℕ) (s : S) → P s → out.get_rows (out.draw_char x y c fg bg s) ≡ out.get_rows s
  pub scroll_cols : (s : S) → P s → out.get_cols (out.scroll 1 s) ≡ out.get_cols s
  pub scroll_rows : (s : S) → P s → out.get_rows (out.scroll 1 s) ≡ out.get_rows s

unfoldable pub OnScreen : {S : Type 0} → TtyOutput S → Tty S → Type 0
OnScreen out t = (t.cursor_x < out.get_cols t.screen) × (t.cursor_y < out.get_rows t.screen)

-- A property of the screen that drawing inside it and scrolling keep.
pub record IsKept {S : Type 0} (out : TtyOutput S) (P : S → Type 0) : Type 0 where
  pub draw :
      (x y c fg bg : ℕ) (s : S)
      → x < out.get_cols s
      → y < out.get_rows s
      → P s
      → P (out.draw_char x y c fg bg s)
  pub scroll : (s : S) → P s → P (out.scroll 1 s)

module _ {S : Type 0} {out : TtyOutput S} (P : S → Type 0) (steady : IsSteady out P)
    (kept : IsKept out P) where
  -- The invariant of the terminal.
  abbrev Good : Tty S → Type 0
  Good t = OnScreen out t × P t.screen

  new_line-Good :
      (t : Tty S)
      → t.cursor_y < out.get_rows t.screen
      → 0 < out.get_cols t.screen
      → P t.screen
      → Good (new_line out t)
  unfolding new_line tty_check_scroll tty_scroll OnScreen
  new_line-Good t h g p =
      let cols = steady.scroll_cols t.screen p in
      let rows = steady.scroll_rows t.screen p in
      let scrolled = kept.scroll t.screen p in ground (arith, cols, rows, scrolled)

  -- A character drawn at the cursor.
  draw_here-Good : (c : ℕ) (t : Tty S) → Good t → Good (draw_here out c t)
  unfolding draw_here OnScreen
  draw_here-Good c t g =
      let cols = steady.draw_cols t.cursor_x t.cursor_y c t.fg t.bg t.screen g.1 in
      let rows = steady.draw_rows t.cursor_x t.cursor_y c t.fg t.bg t.screen g.1 in
      let drawn = kept.draw t.cursor_x t.cursor_y c t.fg t.bg t.screen g.0.0 g.0.1 g.1 in
      ground (arith, cols, rows, drawn)

  -- The cursor may stand behind the last column until the line wraps.
  abbrev AtMost : ℕ → Tty S → Type 0
  AtMost cols t =
      (t.cursor_x ≤ cols)
      × (cols ≡ out.get_cols t.screen)
      × (0 < cols)
      × (t.cursor_y < out.get_rows t.screen)
      × P t.screen

  wrap_line-Good : (cols : ℕ) (t : Tty S) → AtMost cols t → Good (wrap_line out cols t)
  unfolding wrap_line OnScreen
  wrap_line-Good cols t (h, e, pos, rows, p) =
      let wrapped = new_line-Good t rows (ground arith) p in ground (arith, wrapped)

  draw_step :
      (c : ℕ) (cols : ℕ) (t : Tty S)
      → AtMost cols t
      → t.cursor_x < cols
      → AtMost cols (let t1 = draw_here out c t in record t1 { cursor_x = t.cursor_x + 1 })
  unfolding draw_here OnScreen
  draw_step c cols t (h, e, pos, rows, p) lt =
      let drawn = draw_here-Good c t ((ground arith, rows), p) in
      let same = steady.draw_cols t.cursor_x t.cursor_y c t.fg t.bg t.screen p in
      ground (arith, drawn, same)

  tab_loop-AtMost :
      (rounds next cols : ℕ) (t : Tty S)
      → AtMost cols t
      → AtMost cols (tab_loop out rounds next cols t)
  unfolding tab_loop
  tab_loop-AtMost zero next cols t a = a
  tab_loop-AtMost (suc rounds) next cols t a =
      elim (Bool-cases (ltb t.cursor_x next && ltb t.cursor_x cols)) [
        | inl go ↦ rw go (
            tab_loop-AtMost rounds next cols
              (record (draw_here out b' ' t) { cursor_x = t.cursor_x + 1 })
              (draw_step b' ' cols t a (ground arith)))
        | inr stop ↦ rw stop a
      ]

  step_back-Good : (t : Tty S) → Good t → Good (step_back out t)
  unfolding step_back OnScreen
  step_back-Good t g =
      let back = draw_here-Good b' ' (record t { cursor_x = t.cursor_x - 1 }) (ground arith) in
      ground (arith, back)

  tab-Good : (t : Tty S) → Good t → Good (tab out t)
  unfolding tab OnScreen
  tab-Good t g =
      let cols = out.get_cols t.screen in
      let stop = (t.cursor_x / 4 + 1) * 4 in
      wrap_line-Good cols (tab_loop out 4 stop cols t)
        (tab_loop-AtMost 4 stop cols t (ground arith))

  put_plain-Good : (c : ℕ) (t : Tty S) → Good t → Good (put_plain out c t)
  unfolding put_plain draw_here OnScreen
  put_plain-Good c t g =
      let drawn = draw_step c (out.get_cols t.screen) t (ground arith) g.0.0 in
      let after : Tty S = record (draw_here out c t) { cursor_x = t.cursor_x + 1 } in
      wrap_line-Good (out.get_cols after.screen) after (ground (arith, drawn))

  if-Good : (b : Bool) (x y : Tty S) → Good x → Good y → Good (if b then x else y)
  if-Good true x y g h = g
  if-Good false x y g h = h

  tty_putchar-Good : (c : ℕ) (t : Tty S) → Good t → Good (tty_putchar out c t)
  unfolding tty_putchar carriage_return OnScreen
  tty_putchar-Good c t g =
      let newline = new_line-Good t g.0.1 (ground arith) g.1 in
      let back = step_back-Good t g in
      let tabbed = tab-Good t g in
      let plain = put_plain-Good c t g in
      let nine = if c == 9 then tab out t else put_plain out c t in
      let eight = if c == 8 then step_back out t else nine in
      let thirteen = if c == 13 then carriage_return out t else eight in
      let last : Good nine = if-Good (c == 9) (tab out t) (put_plain out c t) tabbed plain in
      let third : Good eight = if-Good (c == 8) (step_back out t) nine back last in
      let second : Good thirteen =
        if-Good (c == 13) (carriage_return out t) eight (ground arith) third in
      if-Good (c == 10) (new_line out t) thirteen newline second

  -- From a cursor on the screen, and with a property of the screen that drawing inside it and scrolling
  -- keep and under which its size is steady, tty_write of any characters leaves the cursor on the screen
  -- and the property true: so every character is drawn inside.
  pub tty_write-OnScreen :
      (cs : List ℕ) (t : Tty S)
      → OnScreen out t
      → P t.screen
      → OnScreen out (tty_write out cs t) × P (tty_write out cs t).screen
  unfolding tty_write
  tty_write-OnScreen [] t h p = (h, p)
  tty_write-OnScreen (c ∷ cs) t h p =
      let (h1, p1) = tty_putchar-Good c t (h, p) in
      tty_write-OnScreen cs (tty_putchar out c t) h1 p1
