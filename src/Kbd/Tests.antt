-- ===== src/Kbd/Tests.antt =====
-- Runs of the keyboard driver, kernel/drivers/kbd/kbd.c, and its theorems at concrete inputs.
use deva.Prelude.{◌≡◌, refl, true, false, none, some, List, [], ◌∷◌, arith}
use deva.Kbd.{
  KeyEvent, Kbd, push_key, get_key, keyboard_handler, char_of, control_char, type_key, event_type,
  event_mods, key_char, key_none,
}
use deva.Kbd.Ring.{contents}
use deva.Kbd.Decode.{decoder, extended_release_loses_key}
use deva.Kbd.Stream.{Op, interrupt, read, run, spec_run, run_refines}

abbrev blank : KeyEvent
blank = record { kind = key_none; c = 0; mods = 0 }

abbrev booted : Kbd
booted = record {
  shift = false;
  ctrl = false;
  extended = false;
  buf = λ i. blank;
  head = 0;
  tail = 0;
}

-- Shift down, `a`, shift up, `a`.
abbrev typed : List Op
typed = interrupt 0x2A ∷ interrupt 0x1E ∷ interrupt 0xAA ∷ interrupt 0x1E ∷ read ∷ read ∷ read ∷ []

run-typed :
    run booted typed
    ≡ some (record { kind = key_char; c = b'A'; mods = 1 })
      ∷ some (record { kind = key_char; c = b'a'; mods = 0 })
      ∷ none
      ∷ []
unfolding run keyboard_handler type_key push_key get_key char_of control_char event_type event_mods
run-typed = refl

run_refines_example : run booted typed ≡ spec_run (decoder booted) (contents booted) typed
run_refines_example = run_refines typed {s = booted} (omega arith) (omega arith)

-- Up arrow pressed and let go, and then `a`: the `a` is lost.
extended_release_loses_key_example :
    (let after = keyboard_handler 0xC8 (keyboard_handler 0xE0 booted) in
      (after.extended ≡ true) × (keyboard_handler 0x1E after ≡ record after { extended = false }))
extended_release_loses_key_example =
    extended_release_loses_key 0xC8 0x1E booted (omega arith) (omega arith) (omega arith)
      (omega arith)
