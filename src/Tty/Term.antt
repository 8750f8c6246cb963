-- ===== src/Tty/Term.antt =====
-- The console of the kernel, kernel/drivers/term/term.c, on the terminal that it opens, and the
-- calls SYS_WRITE, SYS_PUTCHAR and SYS_CLEAR of kernel/arch/i686/syscall.c on it. The output is a
-- parameter; the kernel takes that of kernel/drivers/term/tty_fb.c.
use deva.Prelude.{
  ℕ, zero, suc, ◌+◌, ◌*◌, ◌/◌, ◌≡◌, refl, sym, ap, ◌∙◌, List, [], ◌∷◌, arith, length,
}
use deva.Tty.{
  TtyOutput, Tty, tty_init, tty_scroll, tty_check_scroll, draw_here, new_line, carriage_return,
  step_back, tab_loop, wrap_line, tab, put_plain, tty_putchar, tty_write, tty_clear,
}

abbrev pub color_text : ℕ
color_text = 0xFFFFFF

module _ {S : Type 0} (out : TtyOutput S) where
  pub term_init : S → Tty S
  term_init screen = tty_init out screen

  pub term_putchar : ℕ → ℕ → Tty S → Tty S
  term_putchar c color t = tty_putchar out c (record t { fg = color })

  pub term_write : List ℕ → ℕ → Tty S → Tty S
  term_write str color t = tty_write out str (record t { fg = color })

  pub term_clear : Tty S → Tty S
  term_clear t = tty_clear out t

  pub kprint : List ℕ → Tty S → Tty S
  kprint str t = tty_write out str (record t { fg = color_text })

  -- The loop of both calls, over the bytes of the buffer.
  pub put_chars : ℕ → List ℕ → Tty S → Tty S
  put_chars color [] t = t
  put_chars color (c ∷ cs) t = put_chars color cs (term_putchar c color t)

  -- With what stands in `eax` afterwards.
  pub sys_putchar : ℕ → List ℕ → Tty S → ℕ × Tty S
  sys_putchar color buf t = (length buf, put_chars color buf t)

  pub sys_write : List ℕ → Tty S → ℕ × Tty S
  sys_write buf t = (length buf, put_chars color_text buf t)

  pub sys_clear : Tty S → ℕ × Tty S
  sys_clear t = (0, term_clear t)

  new_line-fg : (t : Tty S) → (new_line out t).fg ≡ t.fg
  unfolding new_line tty_check_scroll tty_scroll
  new_line-fg t = ground arith

  draw_here-fg : (c : ℕ) (t : Tty S) → (draw_here out c t).fg ≡ t.fg
  unfolding draw_here
  draw_here-fg c t = refl

  step_back-fg : (t : Tty S) → (step_back out t).fg ≡ t.fg
  unfolding step_back draw_here
  step_back-fg t = ground arith

  wrap_line-fg : (cols : ℕ) (t : Tty S) → (wrap_line out cols t).fg ≡ t.fg
  unfolding wrap_line
  wrap_line-fg cols t = let n = new_line-fg t in ground (arith, n)

  tab_loop-fg : (rounds next cols : ℕ) (t : Tty S) → (tab_loop out rounds next cols t).fg ≡ t.fg
  unfolding tab_loop draw_here
  tab_loop-fg zero next cols t = refl
  tab_loop-fg (suc rounds) next cols t =
      let t1 = draw_here out b' ' t in
      let ih = tab_loop-fg rounds next cols (record t1 { cursor_x = t.cursor_x + 1 }) in
      ground (arith, ih)

  tab-fg : (t : Tty S) → (tab out t).fg ≡ t.fg
  unfolding tab
  tab-fg t =
      let cols = out.get_cols t.screen in
      let t1 = tab_loop out 4 ((t.cursor_x / 4 + 1) * 4) cols t in
      wrap_line-fg cols t1 ∙ tab_loop-fg 4 ((t.cursor_x / 4 + 1) * 4) cols t

  put_plain-fg : (c : ℕ) (t : Tty S) → (put_plain out c t).fg ≡ t.fg
  unfolding put_plain
  put_plain-fg c t =
      let t1 = draw_here out c t in
      let t2 = record t1 { cursor_x = t1.cursor_x + 1 } in
      wrap_line-fg (out.get_cols t2.screen) t2 ∙ draw_here-fg c t

  tty_putchar-fg : (c : ℕ) (t : Tty S) → (tty_putchar out c t).fg ≡ t.fg
  unfolding tty_putchar carriage_return
  tty_putchar-fg c t =
      let n = new_line-fg t in
      let b = step_back-fg t in
      let tb = tab-fg t in let p = put_plain-fg c t in ground (arith, n, b, tb, p)

  -- A terminal that has the color is not changed by setting it.
  put_chars-tty_write :
      (color : ℕ) (cs : List ℕ) (t : Tty S)
      → t.fg ≡ color
      → put_chars color cs t ≡ tty_write out cs t
  unfolding put_chars tty_write term_putchar
  put_chars-tty_write color [] t e = refl
  put_chars-tty_write color (c ∷ cs) t e =
      let same : record t { fg = color } ≡ t = ap (λ (f : ℕ). record t { fg = f }) (sym e) in
      let ih = put_chars-tty_write color cs (tty_putchar out c t) (tty_putchar-fg c t ∙ e) in
      ap (λ (u : Tty S). put_chars color cs (tty_putchar out c u)) same ∙ ih

  -- SYS_PUTCHAR and SYS_WRITE of one byte or more draw what one call of term_write, or of kprint,
  -- draws for the same characters, and answer their number.
  pub sys_putchar-term_write :
      (color c : ℕ) (cs : List ℕ) (t : Tty S)
      → (sys_putchar color (c ∷ cs) t ≡ (length (c ∷ cs), term_write (c ∷ cs) color t))
        × (sys_write (c ∷ cs) t ≡ (length (c ∷ cs), kprint (c ∷ cs) t))
  unfolding sys_putchar sys_write term_write kprint put_chars term_putchar tty_write
  sys_putchar-term_write color c cs t =
      let drawn = λ (f : ℕ).
        ap (λ (u : Tty S). (suc (length cs), u))
          (put_chars-tty_write f cs (tty_putchar out c (record t { fg = f }))
            (tty_putchar-fg c (record t { fg = f }))) in
      (drawn color, drawn color_text)
