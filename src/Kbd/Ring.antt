-- ===== src/Kbd/Ring.antt =====
-- The ring of key events, kernel/drivers/kbd/kbd.c: its invariant, and the bounded queue that it
-- implements. One slot of the 256 stays free, so the queue holds 255 events.
use deva.Prelude.{
  ℕ, zero, suc, ◌+◌, ◌-◌, ◌%◌, ◌≤◌, ◌<◌, ◌≡◌, refl, ap, ◌∙◌, List, [], ◌∷◌, ◌++◌, Option, none,
  some, arith, length, update, ltb, ◌==◌, if◌then◌else◌, Bool-cases, inl, inr,
}
use deva.Kbd.{KeyEvent, Kbd, kbd_buf_size, push_key, get_key}

-- The two indices stay inside the array.
pub record IsValid (s : Kbd) : Type 0 where
  pub head_in : s.head < kbd_buf_size
  pub tail_in : s.tail < kbd_buf_size

pub push_key-IsValid : (ev : KeyEvent) {s : Kbd} → IsValid s → IsValid (push_key ev s)
unfolding push_key
push_key-IsValid ev v = ground arith

pub get_key-IsValid : {s : Kbd} → IsValid s → IsValid (get_key s).1
unfolding get_key
get_key-IsValid v = ground arith

-- The `n` events from index `t` on, going round at the end of the array.
abbrev pub window : (ℕ → KeyEvent) → ℕ → ℕ → List KeyEvent
window buf t zero = []
window buf t (suc n) = buf t ∷ window buf ((t + 1) % kbd_buf_size) n

abbrev pub pending : Kbd → ℕ
pending s = (s.head + kbd_buf_size - s.tail) % kbd_buf_size

-- What is waiting in the ring, oldest first.
abbrev pub contents : Kbd → List KeyEvent
contents s = window s.buf s.tail (pending s)

pub length-window : (buf : ℕ → KeyEvent) (t n : ℕ) → length (window buf t n) ≡ n
length-window buf t zero = refl
length-window buf t (suc n) = ap suc (length-window buf ((t + 1) % kbd_buf_size) n)

-- A write outside the window leaves it.
window-update :
    (buf : ℕ → KeyEvent) (i : ℕ) (ev : KeyEvent) (t n : ℕ)
    → i < kbd_buf_size
    → t < kbd_buf_size
    → n ≤ (i + kbd_buf_size - t) % kbd_buf_size
    → window (update buf i ev) t n ≡ window buf t n
window-update buf i ev t zero hi ht h = refl
window-update buf i ev t (suc n) hi ht h =
    ground (arith, window-update buf i ev ((t + 1) % kbd_buf_size) n hi (omega arith) (omega arith))

window_snoc :
    (buf : ℕ → KeyEvent) (t n : ℕ)
    → t < kbd_buf_size
    → window buf t (suc n) ≡ window buf t n ++ (buf ((t + n) % kbd_buf_size) ∷ [])
window_snoc buf t zero ht = ap (λ k. buf k ∷ []) (omega arith)
window_snoc buf t (suc n) ht =
    ap (λ r. buf t ∷ r) (window_snoc buf ((t + 1) % kbd_buf_size) n (omega arith))
    ∙ ap (λ k. buf t ∷ (window buf ((t + 1) % kbd_buf_size) n ++ (buf k ∷ []))) (omega arith)

-- The abstract queue: at most 255 events, a new one at the end, the oldest out first.
abbrev pub capacity : ℕ
capacity = 255

unfoldable pub enqueue : List KeyEvent → KeyEvent → List KeyEvent
enqueue q ev = if ltb (length q) capacity then q ++ (ev ∷ []) else q

unfoldable pub dequeue : List KeyEvent → Option KeyEvent × List KeyEvent
dequeue [] = (none, [])
dequeue (ev ∷ q) = (some ev, q)

window_pred :
    (buf : ℕ → KeyEvent) (t n : ℕ)
    → 0 < n
    → window buf t n ≡ buf t ∷ window buf ((t + 1) % kbd_buf_size) (n - 1)
window_pred buf t zero h = absurd (omega arith)
window_pred buf t (suc n) h = ap (λ k. buf t ∷ window buf ((t + 1) % kbd_buf_size) k) (omega arith)

-- `kbd_push_key` is the bounded queue's insertion, and a full queue drops the event.
pub push_key_refines :
    (ev : KeyEvent) {s : Kbd} → IsValid s → contents (push_key ev s) ≡ enqueue (contents s) ev
unfolding push_key enqueue
push_key_refines ev {s} v = elim (Bool-cases ((s.head + 1) % kbd_buf_size == s.tail)) [
  | inl full ↦ ground (arith, length-window s.buf s.tail (pending s))
  | inr room ↦
      let grown : ((s.head + 1) % kbd_buf_size + kbd_buf_size - s.tail) % kbd_buf_size
          ≡ suc (pending s) =
        ground arith in
      let here : (s.tail + pending s) % kbd_buf_size ≡ s.head = omega arith in
      rw (room, grown)
        (ground (
          arith,
          length-window s.buf s.tail (pending s),
          window_snoc (update s.buf s.head ev) s.tail (pending s),
          window-update s.buf s.head ev s.tail (pending s),
        ))
]

-- `kbd_get_key` takes the oldest event, and says so when there is none.
pub get_key_refines :
    {s : Kbd} → IsValid s → ((get_key s).0, contents (get_key s).1) ≡ dequeue (contents s)
unfolding get_key dequeue
get_key_refines {s} v = elim (Bool-cases (s.head == s.tail)) [
  | inl none_left ↦ let e : pending s ≡ 0 = ground arith in rw (none_left, e, dequeue)
  | inr some_left ↦ ground (arith, window_pred s.buf s.tail (pending s))
]
