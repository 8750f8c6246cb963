-- ===== src/Kbd.antt =====
-- The PS/2 keyboard driver, kernel/drivers/kbd/kbd.c: the ring of key events that the interrupt
-- handler fills and `kbd_get_key` drains, and the decoder of scan codes.
-- The byte that `inb(0x60)` delivers is the argument `sc` of `keyboard_handler`; registering the
-- driver is not modelled. A key event is that of kernel/include/tty.h.
pub mod Ring
pub mod Decode
pub mod Stream
mod Tests
use deva.Prelude.{
  ℕ, ◌+◌, ◌-◌, ◌%◌, Bool, true, false, ◌&&◌, ◌||◌, Option, none, some, List, [], ◌∷◌, bit_and,
  bit_or, ltb, leb, ◌==◌, if◌then◌else◌, get_or, update, not_zero,
}

-- `key_type_t`
pub data KeyType : Type 0 where
  key_none key_char key_backspace key_enter key_tab key_esc : KeyType
  key_up key_down key_left key_right key_home key_end key_delete : KeyType

-- `key_event_t`
pub record KeyEvent : Type 0 where
  pub kind : KeyType
  pub c : ℕ
  pub mods : ℕ

-- The static variables of the driver. The flags are `int`s that only ever hold 0 and 1.
pub record Kbd : Type 0 where
  pub shift : Bool
  pub ctrl : Bool
  pub extended : Bool
  pub buf : ℕ → KeyEvent
  pub head : ℕ
  pub tail : ℕ

abbrev pub kbd_buf_size : ℕ
kbd_buf_size = 256

-- `kbd_push_key`: a full ring drops the event.
pub push_key : KeyEvent → Kbd → Kbd
push_key ev s =
    let next = (s.head + 1) % kbd_buf_size in
    if next == s.tail then s else record s { buf = update s.buf s.head ev; head = next }

-- `kbd_get_key`: `none` is the return value 0, and `some` holds what goes to `*ev`.
pub get_key : Kbd → Option KeyEvent × Kbd
get_key s =
    if s.head == s.tail
    then (none, s)
    else (some (s.buf s.tail), record s { tail = (s.tail + 1) % kbd_buf_size })

abbrev pub kbd_map : List ℕ
kbd_map =
    0 ∷ 27 ∷ b'1' ∷ b'2' ∷ b'3' ∷ b'4' ∷ b'5' ∷ b'6' ∷ b'7' ∷ b'8' ∷ b'9' ∷ b'0' ∷ b'-' ∷ b'=' ∷ 8
    ∷ 9 ∷ b'q' ∷ b'w' ∷ b'e' ∷ b'r' ∷ b't' ∷ b'y' ∷ b'u' ∷ b'i' ∷ b'o' ∷ b'p' ∷ b'[' ∷ b']' ∷ 10 ∷ 0
    ∷ b'a' ∷ b's' ∷ b'd' ∷ b'f' ∷ b'g' ∷ b'h' ∷ b'j' ∷ b'k' ∷ b'l' ∷ b';' ∷ 39 ∷ b'`' ∷ 0 ∷ 92
    ∷ b'z' ∷ b'x' ∷ b'c' ∷ b'v' ∷ b'b' ∷ b'n' ∷ b'm' ∷ b',' ∷ b'.' ∷ b'/' ∷ 0 ∷ b'*' ∷ 0 ∷ b' ' ∷ []

abbrev pub kbd_shift_map : List ℕ
kbd_shift_map =
    0 ∷ 27 ∷ b'!' ∷ b'@' ∷ b'#' ∷ b'$' ∷ b'%' ∷ b'^' ∷ b'&' ∷ b'*' ∷ b'(' ∷ b')' ∷ b'_' ∷ b'+' ∷ 8
    ∷ 9 ∷ b'Q' ∷ b'W' ∷ b'E' ∷ b'R' ∷ b'T' ∷ b'Y' ∷ b'U' ∷ b'I' ∷ b'O' ∷ b'P' ∷ b'{' ∷ b'}' ∷ 10 ∷ 0
    ∷ b'A' ∷ b'S' ∷ b'D' ∷ b'F' ∷ b'G' ∷ b'H' ∷ b'J' ∷ b'K' ∷ b'L' ∷ b':' ∷ 34 ∷ b'~' ∷ 0 ∷ b'|'
    ∷ b'Z' ∷ b'X' ∷ b'C' ∷ b'V' ∷ b'B' ∷ b'N' ∷ b'M' ∷ b'<' ∷ b'>' ∷ b'?' ∷ 0 ∷ b'*' ∷ 0 ∷ b' ' ∷ []

-- The character of a make code, before and after the test of `ctrl`.
pub char_of : Bool → ℕ → ℕ
char_of shift sc = if shift then get_or kbd_shift_map sc 0 else get_or kbd_map sc 0

pub control_char : Bool → ℕ → ℕ
control_char ctrl c =
    if ctrl
    then (if leb b'a' c && leb c b'z'
        then c - b'a' + 1
        else if leb b'A' c && leb c b'Z'
        then c - b'A' + 1
        else c)
    else c

pub event_mods : Bool → Bool → ℕ
event_mods shift ctrl = let m = if shift then bit_or 0 1 else 0 in if ctrl then bit_or m 2 else m

pub event_type : ℕ → KeyType
event_type c =
    if c == 8
    then key_backspace
    else if c == 10
    then key_enter
    else if c == 9
    then key_tab
    else if c == 27
    then key_esc
    else key_char

-- The last part of the handler: what a make code below `sizeof(kbd_map)` appends.
pub type_key : ℕ → Kbd → Kbd
unfolding char_of control_char
type_key sc s =
    let c = control_char s.ctrl (char_of s.shift sc) in
    if c == 0
    then s
    else push_key (record { kind = event_type c; c = c; mods = event_mods s.shift s.ctrl }) s

-- A break code: `sc & 0x7F` is the key that was let go.
pub release : ℕ → Kbd → Kbd
release key s = record s {
  shift = if key == 0x2A || key == 0x36 then false else s.shift;
  ctrl = if key == 0x1D then false else s.ctrl;
}

-- `keyboard_handler`, for the byte `sc` that the port delivers.
pub keyboard_handler : ℕ → Kbd → Kbd
unfolding release
keyboard_handler sc s =
    if sc == 0xE0
    then record s { extended = true }
    else if not_zero (bit_and sc 0x80)
    then release (bit_and sc 0x7F) s
    else if s.extended
    then record s { extended = false }
    else if sc == 0x2A || sc == 0x36
    then record s { shift = true }
    else if sc == 0x1D
    then record s { ctrl = true }
    else if ltb sc 58
    then type_key sc s
    else s
