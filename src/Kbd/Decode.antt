-- ===== src/Kbd/Decode.antt =====
-- The decoder of kernel/drivers/kbd/kbd.c apart from the ring: what each scan code does to the
-- modifiers and which event it makes, by the meaning of the code: a prefix, a release or a press.
use deva.Prelude.{
  ℕ, ◌+◌, ◌-◌, ◌%◌, ◌≤◌, ◌<◌, ◌≡◌, ◌≢◌, refl, Bool, true, false, ◌&&◌, ◌||◌, Option, none, some,
  arith, ltb, leb, ◌==◌, if◌then◌else◌, bit_and, not_zero,
}
use deva.Prelude.Bits.{all_pass, all_pass_lem}
use deva.Kbd.{
  KeyEvent, Kbd, push_key, keyboard_handler, type_key, char_of, control_char, event_type,
  event_mods,
}

pub record Decoder : Type 0 where
  pub shift : Bool
  pub ctrl : Bool
  pub extended : Bool

-- What a byte on the wire means: the prefix of an extended key, a key let go, a key pressed.
pub data Code : Type 0 where
  prefix : Code
  up : ℕ → Code
  down : ℕ → Code

unfoldable pub classify : ℕ → Code
classify sc = if sc == 0xE0 then prefix else if leb 128 sc then up (sc - 128) else down sc

abbrev pub is_shift : ℕ → Bool
is_shift key = key == 0x2A || key == 0x36

abbrev pub is_ctrl : ℕ → Bool
is_ctrl key = key == 0x1D

-- The event of a pressed key, if it has a character.
unfoldable pub press : Bool → Bool → ℕ → Option KeyEvent
press shift ctrl key =
    let c = control_char ctrl (char_of shift key) in
    if ltb key 58 && not_zero c
    then some (record { kind = event_type c; c = c; mods = event_mods shift ctrl })
    else none

unfoldable pub decode : Code → Decoder → Decoder × Option KeyEvent
decode prefix d = (record d { extended = true }, none)
decode (up key) d = (
  record {
    shift = d.shift && not_zero (if is_shift key then 0 else 1);
    ctrl = d.ctrl && not_zero (if is_ctrl key then 0 else 1);
    extended = d.extended;
  },
  none,
)
decode (down key) d =
    if d.extended
    then (record d { extended = false }, none)
    else if is_shift key
    then (record d { shift = true }, none)
    else if is_ctrl key
    then (record d { ctrl = true }, none)
    else (d, press d.shift d.ctrl key)

abbrev pub decoder : Kbd → Decoder
decoder s = record { shift = s.shift; ctrl = s.ctrl; extended = s.extended }

abbrev pub push_all : Option KeyEvent → Kbd → Kbd
push_all none s = s
push_all (some ev) s = push_key ev s

high_bit_table :
    all_pass 256 (λ sc.
      (if leb 128 sc then not_zero (bit_and sc 0x80) else bit_and sc 0x80 == 0)
      && bit_and sc 0x7F == sc % 128)
    ≡ true
unfolding all_pass
high_bit_table = refl

-- The two masks of the handler, on a byte.
pub high_bit :
    (sc : ℕ) → sc < 256 → (not_zero (bit_and sc 0x80) ≡ leb 128 sc) × (bit_and sc 0x7F ≡ sc % 128)
high_bit sc h = ground (arith, all_pass_lem 256 _ sc high_bit_table h)

pub decoder-push_key : (ev : KeyEvent) (s : Kbd) → decoder (push_key ev s) ≡ decoder s
unfolding push_key
decoder-push_key ev s = ground arith

decoder-type_key : (sc : ℕ) (s : Kbd) → decoder (type_key sc s) ≡ decoder s
unfolding type_key
decoder-type_key sc s = ground (
  arith,
  decoder-push_key
      (record {
        kind = event_type (control_char s.ctrl (char_of s.shift sc));
        c = control_char s.ctrl (char_of s.shift sc);
        mods = event_mods s.shift s.ctrl;
      })
      s,
)

-- The handler moves the modifiers as the decoder does.
pub decoder-keyboard_handler :
    (sc : ℕ) (s : Kbd)
    → sc < 256
    → decoder (keyboard_handler sc s) ≡ (decode (classify sc) (decoder s)).0
unfolding keyboard_handler decode classify
decoder-keyboard_handler sc s h = ground (arith, high_bit sc h, decoder-type_key sc s)

abbrev pub with_decoder : Decoder → Kbd → Kbd
with_decoder d s = record s { shift = d.shift; ctrl = d.ctrl; extended = d.extended }

type_key-push_all :
    (sc : ℕ) (s : Kbd) → sc < 58 → type_key sc s ≡ push_all (press s.shift s.ctrl sc) s
unfolding type_key press
type_key-push_all sc s h = ground arith

with_decoder-push_all :
    (o : Option KeyEvent) (s : Kbd) → with_decoder (decoder s) (push_all o s) ≡ push_all o s
unfolding push_key
with_decoder-push_all none s = refl
with_decoder-push_all (some ev) s = ground arith

press-none : (shift ctrl : Bool) (key : ℕ) → 58 ≤ key → press shift ctrl key ≡ none
unfolding press
press-none shift ctrl key h = ground arith

-- For every byte that the port can deliver, the interrupt handler does what the decoder says: it
-- moves the three flags so, and pushes the decoder's event, if there is one, and nothing else.
pub keyboard_handler-eq-decode :
    (sc : ℕ) (s : Kbd)
    → sc < 256
    → keyboard_handler sc s
      ≡ with_decoder
          (decode (classify sc) (decoder s)).0
          (push_all (decode (classify sc) (decoder s)).1 s)
unfolding keyboard_handler decode classify
keyboard_handler-eq-decode sc s h = ground (
  arith,
  high_bit sc h,
  type_key-push_all sc s,
  press-none s.shift s.ctrl sc,
  with_decoder-push_all (press s.shift s.ctrl sc) s,
)

-- A press that follows the release of an extended key is lost: after the prefix and any release,
-- the next byte that is a press leaves the ring and the modifiers as the release left them.
pub extended_release_loses_key :
    (up_code key : ℕ) (s : Kbd)
    → 128 ≤ up_code
    → up_code < 256
    → up_code ≢ 0xE0
    → key < 128
    → (let after = keyboard_handler up_code (keyboard_handler 0xE0 s) in
        (after.extended ≡ true) × (keyboard_handler key after ≡ record after { extended = false }))
unfolding keyboard_handler
extended_release_loses_key up_code key s h lt ne k =
    ground (arith, high_bit up_code lt, high_bit key (omega arith))

abbrev is_letter : ℕ → Bool
is_letter c = leb b'a' c && leb c b'z'

letter_table :
    all_pass 58 (λ key.
      let plain = char_of false key in
      if is_letter plain
      then control_char true plain == plain - 96
        && control_char true (char_of true key) == plain - 96
        && char_of true key == plain - 32
      else true)
    ≡ true
unfolding all_pass char_of control_char
letter_table = refl

-- A letter key that types `c` alone types its capital with shift, and with control it types the
-- control code 1 to 26 of the letter, shift held or not.
pub control_letters :
    (key : ℕ)
    → key < 58
    → is_letter (char_of false key) ≡ true
    → (char_of true key + 32 ≡ char_of false key)
      × (control_char true (char_of false key) + 96 ≡ char_of false key)
      × (control_char true (char_of true key) + 96 ≡ char_of false key)
      × (control_char true (char_of false key) ≤ 26)
control_letters key h l = ground (arith, all_pass_lem 58 _ key letter_table h)
