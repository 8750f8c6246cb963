-- ===== src/Kbd/Stream.antt =====
-- The keyboard driver as its two users see it: interrupts that deliver bytes, and readers that ask
-- for a key, in any order. kernel/drivers/kbd/kbd.c.
use deva.Prelude.{ℕ, ◌<◌, ◌≡◌, refl, ap, ◌∙◌, Option, none, some, List, [], ◌∷◌, arith}
use deva.Kbd.{KeyEvent, Kbd, get_key, keyboard_handler}
use deva.Kbd.Ring.{
  IsValid, push_key-IsValid, get_key-IsValid, contents, enqueue, dequeue, push_key_refines,
  get_key_refines,
}
use deva.Kbd.Decode.{
  Decoder, classify, decode, decoder, push_all, keyboard_handler-eq-decode,
  decoder-keyboard_handler,
}

-- One event at the driver: the interrupt with its byte, or a call of `kbd_get_key`.
pub data Op : Type 0 where
  interrupt : ℕ → Op
  read : Op

-- Every byte fits the port.
abbrev pub AreBytes : List Op → Type 0
AreBytes [] = Unit {0}
AreBytes (interrupt sc ∷ ops) = (sc < 256) × AreBytes ops
AreBytes (read ∷ ops) = AreBytes ops

-- The answers of the reads, in order.
unfoldable pub run : Kbd → List Op → List (Option KeyEvent)
run s [] = []
run s (interrupt sc ∷ ops) = run (keyboard_handler sc s) ops
run s (read ∷ ops) = let (out, s') = get_key s in out ∷ run s' ops

abbrev enqueue_all : Option KeyEvent → List KeyEvent → List KeyEvent
enqueue_all none q = q
enqueue_all (some ev) q = enqueue q ev

-- The specification: a decoder of bytes in front of a bounded queue of events.
unfoldable pub spec_run : Decoder → List KeyEvent → List Op → List (Option KeyEvent)
spec_run d q [] = []
spec_run d q (interrupt sc ∷ ops) =
    let (d', made) = decode (classify sc) d in spec_run d' (enqueue_all made q) ops
spec_run d q (read ∷ ops) = let (out, q') = dequeue q in out ∷ spec_run d q' ops

push_all-IsValid : (o : Option KeyEvent) {s : Kbd} → IsValid s → IsValid (push_all o s)
push_all-IsValid none v = v
push_all-IsValid (some ev) v = push_key-IsValid ev v

contents-push_all :
    (o : Option KeyEvent) {s : Kbd}
    → IsValid s
    → contents (push_all o s) ≡ enqueue_all o (contents s)
contents-push_all none v = refl
contents-push_all (some ev) v = push_key_refines ev v

-- The interrupt handler keeps both indices inside the array, whatever byte arrives.
pub keyboard_handler-IsValid :
    (sc : ℕ) {s : Kbd} → sc < 256 → IsValid s → IsValid (keyboard_handler sc s)
keyboard_handler-IsValid sc {s} h v =
    let p = push_all-IsValid (decode (classify sc) (decoder s)).1 v in
    ground (arith, keyboard_handler-eq-decode sc s h)

contents-keyboard_handler :
    (sc : ℕ) {s : Kbd}
    → sc < 256
    → IsValid s
    → contents (keyboard_handler sc s)
      ≡ enqueue_all (decode (classify sc) (decoder s)).1 (contents s)
contents-keyboard_handler sc {s} h v =
    ap contents (keyboard_handler-eq-decode sc s h)
    ∙ contents-push_all (decode (classify sc) (decoder s)).1 v

decoder-get_key : (s : Kbd) → decoder (get_key s).1 ≡ decoder s
unfolding get_key
decoder-get_key s = ground arith

-- Interrupts and reads in any order: every read answers what the decoder in front of a queue of
-- 255 events answers, from any state of the driver with its indices in range.
pub run_refines :
    (ops : List Op) {s : Kbd}
    → AreBytes ops
    → IsValid s
    → run s ops ≡ spec_run (decoder s) (contents s) ops
unfolding run spec_run
run_refines [] b v = refl
run_refines (interrupt sc ∷ ops) {s} b v =
    run_refines ops b.1 (keyboard_handler-IsValid sc b.0 v)
    ∙ ground (arith, contents-keyboard_handler sc b.0 v, decoder-keyboard_handler sc s b.0)
run_refines (read ∷ ops) {s} b v =
    ground (arith, run_refines ops b (get_key-IsValid v), get_key_refines v, decoder-get_key s)
