-- ===== src/Tty/Line.antt =====
-- `tty_readline` of kernel/drivers/term/tty.c as a line editor.
use deva.Prelude.{
  ℕ, ◌+◌, ◌-◌, ◌≤◌, ◌<◌, ◌≡◌, refl, ◌∙◌, true, false, List, [], ◌∷◌, Option, none, some, arith,
  length, drop, ltb, ◌==◌, if◌then◌else◌, update, Bool-cases, inl, inr,
}
use deva.Kbd.{
  KeyType, KeyEvent, key_none, key_char, key_backspace, key_enter, key_tab, key_esc, key_up,
  key_down, key_left, key_right, key_home, key_end, key_delete,
}
use deva.Tty.{
  TtyOutput, Tty, Reading, form_feed, outcome, give_up, erase, store, ignore, readline_loop,
  tty_readline, tty_putchar,
}

-- The editor: characters are kept with the last one first, up to `max - 1` of them. The answer is the
-- line, or `none` while no key ends it; a form feed is a line of its own.
unfoldable pub edit : ℕ → List ℕ → List KeyEvent → Option (List ℕ)
edit max cs [] = none
edit max cs (ev ∷ evs) = elim ev.kind [
  | key_enter ↦ some cs
  | key_backspace ↦ edit max (drop 1 cs) evs
  | key_char ↦
      if ev.c == form_feed
      then some (form_feed ∷ [])
      else edit max (if ltb (length cs + 1) max then ev.c ∷ cs else cs) evs
  | _ ↦ edit max cs evs
]

-- The buffer starts with these characters, the last one first.
abbrev pub Holds : (ℕ → ℕ) → List ℕ → Type 0
Holds buf [] = Unit {0}
Holds buf (c ∷ cs) = (buf (length cs) ≡ c) × Holds buf cs

-- The answer of `tty_readline` fits the line of the editor.
pub record IsLine {S : Type 0} (max : ℕ) (buf : ℕ → ℕ) (cs : List ℕ) (r : Reading S) : Type 0 where
  pub counted : r.count ≡ length cs
  pub fits : length cs < max
  pub holds : Holds r.buf cs
  pub ends : r.buf (length cs) ≡ 0
  pub inside : (i : ℕ) → max ≤ i → r.buf i ≡ buf i

pub Agrees : {S : Type 0} → ℕ → (ℕ → ℕ) → Option (List ℕ) → Option (Reading S) → Type 0
Agrees max buf none o = o ≡ none
Agrees {S = S} max buf (some cs) o = (r : Reading S) × (o ≡ some r) × IsLine max buf cs r

-- A write behind the characters changes none of them.
Holds-update :
    (buf : ℕ → ℕ) (cs : List ℕ) (i v : ℕ) → length cs ≤ i → Holds buf cs → Holds (update buf i v) cs
Holds-update buf [] i v le h = tt
Holds-update buf (c ∷ cs) i v le h = (ground arith, Holds-update buf cs i v (omega arith) h.1)

-- What both do with a character.
edit_char :
    (max : ℕ) (cs : List ℕ) (ev : KeyEvent) (evs : List KeyEvent)
    → ev.kind ≡ key_char
    → edit max cs (ev ∷ evs) ≡ (
        if ev.c == form_feed
        then some (form_feed ∷ [])
        else edit max (if ltb (length cs + 1) max then ev.c ∷ cs else cs) evs)
unfolding edit
edit_char max cs ev evs e = rw e refl

outcome_char :
    (n max : ℕ) (ev : KeyEvent)
    → ev.kind ≡ key_char
    → outcome n max ev
      ≡ (if ev.c == form_feed then give_up else if ltb n (max - 1) then store else ignore)
unfolding outcome
outcome_char n max ev e = rw e refl

module _ {S : Type 0} (out : TtyOutput S) (max : ℕ) (two : 2 ≤ max) (first : ℕ → ℕ) where
  -- The buffer between two events.
  abbrev Started : (ℕ → ℕ) → List ℕ → Type 0
  Started buf cs = Holds buf cs × (length cs < max) × ((i : ℕ) → max ≤ i → buf i ≡ first i)

  -- The loop agrees with the editor on these events.
  Follows : List KeyEvent → Type 0
  Follows evs =
      (buf : ℕ → ℕ) (cs : List ℕ) (t : Tty S)
      → Started buf cs
      → Agrees max first (edit max cs evs) (readline_loop out max (length cs) buf t evs)

  Follows-char :
      (ev : KeyEvent) (evs : List KeyEvent) → Follows evs → ev.kind ≡ key_char → Follows (ev ∷ evs)
  unfolding readline_loop Agrees Follows
  Follows-char ev evs rest e buf cs t (h, lt, same) = elim (Bool-cases (ev.c == form_feed)) [
    | inl ff ↦
        let answer : edit max cs (ev ∷ evs) ≡ some (form_feed ∷ []) =
          edit_char max cs ev evs e ∙ rw ff refl in
        let ends : outcome (length cs) max ev ≡ give_up =
          outcome_char (length cs) max ev e ∙ rw ff refl in
        rw answer (
          record { count = 1; buf = update (update buf 0 form_feed) 1 0; tty = t },
          rw (ends, readline_loop) refl,
          record {
            counted = refl;
            fits = two;
            holds = (refl, tt);
            ends = refl;
            inside = λ i le. let e = same i le in ground (arith, e);
          },
        )
    | inr plain ↦ elim (Bool-cases (ltb (length cs + 1) max)) [
      | inl room ↦
          let room1 : ltb (length cs) (max - 1) ≡ true = ground arith in
          let longer : length cs + 1 ≡ length (ev.c ∷ cs) = omega arith in
          let answer : edit max cs (ev ∷ evs) ≡ edit max (ev.c ∷ cs) evs =
            edit_char max cs ev evs e ∙ rw plain (rw room refl) in
          let stores : outcome (length cs) max ev ≡ store =
            outcome_char (length cs) max ev e ∙ rw plain (rw room1 refl) in
          let held = Holds-update buf cs (length cs) ev.c (omega arith) h in
          let outside : (i : ℕ) → max ≤ i → update buf (length cs) ev.c i ≡ first i =
            λ i le. (let e = same i le in ground (arith, e)) in
          rw answer (
            rw (stores, readline_loop)
              (rw longer (
                rest (update buf (length cs) ev.c) (ev.c ∷ cs) (tty_putchar out ev.c t)
                  ((ground arith, held), ground arith, outside))))
      | inr full ↦
          let full1 : ltb (length cs) (max - 1) ≡ false = ground arith in
          let answer : edit max cs (ev ∷ evs) ≡ edit max cs evs =
            edit_char max cs ev evs e ∙ rw plain (rw full refl) in
          let skips : outcome (length cs) max ev ≡ ignore =
            outcome_char (length cs) max ev e ∙ rw plain (rw full1 refl) in
          rw answer (rw (skips, readline_loop) (rest buf cs t (h, lt, same)))
    ]
  ]

  Follows-event :
      (ev : KeyEvent) (evs : List KeyEvent)
      → Follows evs
      → (k : KeyType) → ev.kind ≡ k
      → Follows (ev ∷ evs)
  unfolding readline_loop edit outcome Agrees Follows
  Follows-event ev evs rest key_enter e buf cs t (h, lt, same) = rw e (
    record { count = length cs; buf = update buf (length cs) 0; tty = tty_putchar out 10 t },
    refl,
    record {
      counted = refl;
      fits = lt;
      holds = Holds-update buf cs (length cs) 0 (omega arith) h;
      ends = ground arith;
      inside = λ i le. let e = same i le in ground (arith, e);
    },
  )
  Follows-event ev evs rest key_backspace e buf [] t s = rw e (rest buf [] t s)
  Follows-event ev evs rest key_backspace e buf (c ∷ cs) t (h, lt, same) =
      let erased : ltb 0 (length (c ∷ cs)) ≡ true = ground arith in
      let shorter : length (c ∷ cs) - 1 ≡ length cs = omega arith in
      let erases : outcome (length (c ∷ cs)) max ev ≡ erase = rw e (rw erased refl) in
      rw (erases, readline_loop)
        (rw e (rw shorter (rest buf cs (tty_putchar out 8 t) (h.1, omega arith, same))))
  Follows-event ev evs rest key_char e buf cs t s = Follows-char ev evs rest e buf cs t s
  Follows-event ev evs rest key_none e buf cs t s = rw e (rest buf cs t s)
  Follows-event ev evs rest key_tab e buf cs t s = rw e (rest buf cs t s)
  Follows-event ev evs rest key_esc e buf cs t s = rw e (rest buf cs t s)
  Follows-event ev evs rest key_up e buf cs t s = rw e (rest buf cs t s)
  Follows-event ev evs rest key_down e buf cs t s = rw e (rest buf cs t s)
  Follows-event ev evs rest key_left e buf cs t s = rw e (rest buf cs t s)
  Follows-event ev evs rest key_right e buf cs t s = rw e (rest buf cs t s)
  Follows-event ev evs rest key_home e buf cs t s = rw e (rest buf cs t s)
  Follows-event ev evs rest key_end e buf cs t s = rw e (rest buf cs t s)
  Follows-event ev evs rest key_delete e buf cs t s = rw e (rest buf cs t s)

  follows : (evs : List KeyEvent) → Follows evs
  unfolding readline_loop edit Agrees Follows
  follows [] buf cs t s = refl
  follows (ev ∷ evs) buf cs t s = Follows-event ev evs (follows evs) ev.kind refl buf cs t s

  -- For a buffer of 2 characters or more tty_readline answers as the line editor does, and waits for more
  -- keys exactly when the editor does: the count is the length of the line, which the buffer holds with
  -- a NUL behind it, and nothing from `max` on is written.
  pub tty_readline_lem :
      (evs : List KeyEvent) (t : Tty S)
      → Agrees max first (edit max [] evs) (tty_readline out max first t evs)
  unfolding tty_readline Follows
  tty_readline_lem evs t =
      let positive : (max == 0) ≡ false = ground arith in
      rw positive (follows evs first [] t (tt, omega arith, λ i le. refl))
