-- ===== src/Tty/Tests.antt =====
-- Runs of kernel/drivers/term/tty.c, and its theorems at concrete inputs.
use deva.Prelude.{ℕ, ◌+◌, ◌≤◌, ◌≡◌, refl, List, [], ◌∷◌, arith, some}
use deva.Kbd.{KeyEvent, KeyType, key_char, key_enter, key_backspace}
use deva.Video.{Video}
use deva.Video.Clip.{WideEnough, Inside}
use deva.Tty.{TtyOutput, Tty, tty_write, tty_readline}
use deva.Tty.Cursor.{OnScreen, tty_write-OnScreen}
use deva.Tty.Line.{edit, Agrees, tty_readline_lem}
use deva.Tty.Screen.{tty_fb_output, tty_write-Inside}

-- A screen of 5 columns and 2 rows that counts what is drawn.
abbrev counter : TtyOutput ℕ
counter = record {
  draw_char = λ x y c fg bg n. n + 1;
  scroll = λ rows n. n;
  clear = λ n. 0;
  get_cols = λ n. 5;
  get_rows = λ n. 2;
}

abbrev blank : Tty ℕ
blank = record { cursor_x = 0; cursor_y = 1; fg = 0; bg = 0; screen = 0 }

abbrev text : List ℕ
text = b'a' ∷ 9 ∷ b'b' ∷ 8 ∷ 10 ∷ []

blank-OnScreen : OnScreen counter blank
unfolding OnScreen
blank-OnScreen = (omega arith, omega arith)

tty_write-OnScreen_example :
    OnScreen counter (tty_write counter text blank) × (0 ≤ (tty_write counter text blank).screen)
tty_write-OnScreen_example =
    tty_write-OnScreen (λ n. 0 ≤ n)
      (record {
        draw_cols = λ x y c fg bg s p. refl;
        draw_rows = λ x y c fg bg s p. refl;
        scroll_cols = λ s p. refl;
        scroll_rows = λ s p. refl;
      })
      (record { draw = λ x y c fg bg s h g p. omega arith; scroll = λ s p. p }) text blank
      blank-OnScreen (omega arith)

abbrev key : KeyType → ℕ → KeyEvent
key kind c = record { kind = kind; c = c; mods = 0 }

abbrev typed : List KeyEvent
typed =
    key key_char b'l'
    ∷ key key_char b'x'
    ∷ key key_backspace 8
    ∷ key key_char b's'
    ∷ key key_enter 10
    ∷ []

edited : edit 16 [] typed ≡ some (b's' ∷ b'l' ∷ [])
unfolding edit
edited = refl

tty_readline_lem_example :
    Agrees 16 (λ i. 0) (edit 16 [] typed) (tty_readline counter 16 (λ i. 0) blank typed)
tty_readline_lem_example = tty_readline_lem counter 16 (omega arith) (λ i. 0) typed blank

-- 3 columns and 2 rows of characters, in rows of 32 words.
abbrev screen : Video
screen = record { fb = λ i. 0; width = 24; height = 18; pitch = 128 }

abbrev console : Tty Video
console = record { cursor_x = 2; cursor_y = 1; fg = 1; bg = 0; screen = screen }

abbrev bars : ℕ → ℕ → ℕ
bars c row = 0xAA

screen-WideEnough : WideEnough screen
unfolding WideEnough
screen-WideEnough = omega arith

console-OnScreen : OnScreen (tty_fb_output bars) console
unfolding OnScreen tty_fb_output
console-OnScreen = (omega arith, omega arith)

tty_write-Inside_example :
    OnScreen (tty_fb_output bars) (tty_write (tty_fb_output bars) text console)
    × Inside screen (tty_write (tty_fb_output bars) text console).screen
tty_write-Inside_example =
    tty_write-Inside bars screen text console refl screen-WideEnough console-OnScreen
