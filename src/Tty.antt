-- ===== src/Tty.antt =====
-- The terminal, kernel/drivers/term/tty.c. What it draws on is the interface `TtyOutput` of
-- kernel/include/tty.h, whose state is the type `S`. The cursor never gets negative, so its
-- coordinates are natural numbers. `tty_readline` takes the events that `get_key` delivers as a list.
pub mod Cursor
pub mod Line
pub mod Screen
pub mod Term
mod Tests
use deva.Prelude.{
  ℕ, zero, suc, ◌+◌, ◌-◌, ◌*◌, ◌/◌, Bool, true, false, ◌&&◌, Option, none, some, List, [], ◌∷◌, ltb,
  leb, ◌==◌, if◌then◌else◌, update,
}
use deva.Kbd.{
  KeyType, KeyEvent, key_none, key_char, key_backspace, key_enter, key_tab, key_esc, key_up,
  key_down, key_left, key_right, key_home, key_end, key_delete,
}

-- `tty_output_t`: `draw_char` takes column, row, character, foreground and background.
pub record TtyOutput (S : Type 0) : Type 0 where
  pub draw_char : ℕ → ℕ → ℕ → ℕ → ℕ → S → S
  pub scroll : ℕ → S → S
  pub clear : S → S
  pub get_cols : S → ℕ
  pub get_rows : S → ℕ

-- `tty_t`, with the state of its output.
pub record Tty (S : Type 0) : Type 0 where
  pub cursor_x : ℕ
  pub cursor_y : ℕ
  pub fg : ℕ
  pub bg : ℕ
  pub screen : S

abbrev pub form_feed : ℕ
form_feed = 12

module _ {S : Type 0} (out : TtyOutput S) where
  pub tty_init : S → Tty S
  tty_init screen = record { cursor_x = 0; cursor_y = 0; fg = 0xFFFFFF; bg = 0; screen = screen }

  pub tty_scroll : Tty S → Tty S
  tty_scroll t = record t {
    screen = out.scroll 1 t.screen;
    cursor_y = if ltb 0 t.cursor_y then t.cursor_y - 1 else t.cursor_y;
  }

  pub tty_check_scroll : Tty S → Tty S
  tty_check_scroll t = if leb (out.get_rows t.screen) t.cursor_y then tty_scroll t else t

  -- `tty->output->draw_char` at the cursor.
  pub draw_here : ℕ → Tty S → Tty S
  draw_here c t = record t { screen = out.draw_char t.cursor_x t.cursor_y c t.fg t.bg t.screen }

  -- `cursor_x = 0; cursor_y++; tty_check_scroll`
  pub new_line : Tty S → Tty S
  new_line t = tty_check_scroll (record t { cursor_x = 0; cursor_y = t.cursor_y + 1 })

  pub carriage_return : Tty S → Tty S
  carriage_return t = record t { cursor_x = 0 }

  pub step_back : Tty S → Tty S
  step_back t =
      if ltb 0 t.cursor_x then draw_here b' ' (record t { cursor_x = t.cursor_x - 1 }) else t

  -- The loop of a tab; the distance to the next stop is at most 4 rounds.
  pub tab_loop : ℕ → ℕ → ℕ → Tty S → Tty S
  tab_loop zero next cols t = t
  tab_loop (suc rounds) next cols t =
      if ltb t.cursor_x next && ltb t.cursor_x cols
      then (let t1 = draw_here b' ' t in
          tab_loop rounds next cols (record t1 { cursor_x = t.cursor_x + 1 }))
      else t

  -- What a tab and an ordinary character end with.
  pub wrap_line : ℕ → Tty S → Tty S
  wrap_line cols t = if leb cols t.cursor_x then new_line t else t

  pub tab : Tty S → Tty S
  tab t =
      let cols = out.get_cols t.screen in
      wrap_line cols (tab_loop 4 ((t.cursor_x / 4 + 1) * 4) cols t)

  pub put_plain : ℕ → Tty S → Tty S
  put_plain c t =
      let t1 = draw_here c t in
      let t2 = record t1 { cursor_x = t1.cursor_x + 1 } in wrap_line (out.get_cols t2.screen) t2

  pub tty_putchar : ℕ → Tty S → Tty S
  tty_putchar c t =
      if c == 10
      then new_line t
      else if c == 13
      then carriage_return t
      else if c == 8
      then step_back t
      else if c == 9
      then tab t
      else put_plain c t

  -- `tty_write`, on the characters of the string.
  pub tty_write : List ℕ → Tty S → Tty S
  tty_write [] t = t
  tty_write (c ∷ cs) t = tty_write cs (tty_putchar c t)

  pub tty_clear : Tty S → Tty S
  tty_clear t = record t { screen = out.clear t.screen; cursor_x = 0; cursor_y = 0 }

-- What the loop of `tty_readline` does with an event.
pub data Outcome : Type 0 where
  finish give_up erase store ignore : Outcome

pub is_char : KeyType → Bool
is_char key_char = true
is_char k = false

pub outcome : ℕ → ℕ → KeyEvent → Outcome
unfolding is_char
outcome n max ev = elim ev.kind [
  | key_enter ↦ finish
  | key_backspace ↦ if ltb 0 n then erase else ignore
  | key_char ↦ if ev.c == form_feed then give_up else if ltb n (max - 1) then store else ignore
  | _ ↦ ignore
]

-- The value that `tty_readline` returns, the buffer and the terminal.
pub record Reading (S : Type 0) : Type 0 where
  pub count : ℕ
  pub buf : ℕ → ℕ
  pub tty : Tty S

module _ {S : Type 0} (out : TtyOutput S) where
  -- The loop of `tty_readline` at count `n`; `none` while the line is not finished.
  pub readline_loop : ℕ → ℕ → (ℕ → ℕ) → Tty S → List KeyEvent → Option (Reading S)
  readline_loop max n buf t [] = none
  readline_loop max n buf t (ev ∷ evs) = elim (outcome n max ev) [
    | finish ↦ some (record { count = n; buf = update buf n 0; tty = tty_putchar out 10 t })
    | give_up ↦ some (record { count = 1; buf = update (update buf 0 form_feed) 1 0; tty = t })
    | erase ↦ readline_loop max (n - 1) buf (tty_putchar out 8 t) evs
    | store ↦ readline_loop max (n + 1) (update buf n ev.c) (tty_putchar out ev.c t) evs
    | ignore ↦ readline_loop max n buf t evs
  ]

  -- A negative `max` is answered like 0.
  pub tty_readline : ℕ → (ℕ → ℕ) → Tty S → List KeyEvent → Option (Reading S)
  tty_readline max buf t evs =
      if max == 0
      then some (record { count = 0; buf = buf; tty = t })
      else readline_loop max 0 buf t evs
