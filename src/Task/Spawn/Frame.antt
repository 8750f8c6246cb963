-- ===== src/Task/Spawn/Frame.antt =====
-- Words pushed on a stack of kernel/drivers/task/task.c, and what `context_switch` pops.
use deva.Prelude.{
  ℕ, zero, suc, ◌+◌, ◌-◌, ◌*◌, ◌^◌, ◌≤◌, ◌<◌, ◌≡◌, inl, inr, refl, ap, ◌∙◌, List, [], ◌∷◌, ◌++◌,
  arith, replicate,
}
use deva.Fat32.{get32, put32}
use deva.Fat32.Words.{get32-put32, put32_outside, get32_agree}
use deva.Task.Spawn.{push, push_zeros, push_context}

-- `n` words of memory from `a` on.
abbrev pub words : ℕ → (ℕ → ℕ) → ℕ → List ℕ
words zero mem a = []
words (suc n) mem a = get32 mem a ∷ words n mem (a + 4)

-- From `lo` on both memories have the same bytes.
abbrev pub Agree : (ℕ → ℕ) → (ℕ → ℕ) → ℕ → Type 0
Agree m m' lo = (b : ℕ) → lo ≤ b → m' b ≡ m b

-- One push, and zeros.
Agree-trans : (m m' m'' : ℕ → ℕ) (lo : ℕ) → Agree m m' lo → Agree m' m'' lo → Agree m m'' lo
Agree-trans m m' m'' lo f g b le = g b le ∙ f b le

pub push-sp : (v : ℕ) (s : ℕ × (ℕ → ℕ)) → (push v s).0 ≡ s.0 - 4
unfolding push
push-sp v (sp, mem) = refl

pub push-Agree : (v : ℕ) (s : ℕ × (ℕ → ℕ)) → 4 ≤ s.0 → Agree s.1 (push v s).1 s.0
unfolding push
push-Agree v (sp, mem) room b le = put32_outside mem (sp - 4) v b (inr (omega (arith, room, le)))

words-Agree : (n : ℕ) (m m' : ℕ → ℕ) (a : ℕ) → Agree m m' a → words n m' a ≡ words n m a
words-Agree zero m m' a h = refl
words-Agree (suc n) m m' a h =
    let head = get32_agree m' m a (λ b le lt. h b le) in
    rw (head, words-Agree n m m' (a + 4) (λ b le. h b (omega (arith, le)))) refl

pub words-push :
    (n v : ℕ) (s : ℕ × (ℕ → ℕ))
    → 4 ≤ s.0
    → v < 2 ^ 32
    → words (suc n) (push v s).1 (push v s).0 ≡ v ∷ words n s.1 s.0
unfolding push
words-push n v (sp, mem) room h =
    let back : sp - 4 + 4 ≡ sp = omega (arith, room) in
    let rest = words-Agree n mem (put32 mem (sp - 4) v) sp (push-Agree v (sp, mem) room) in
    rw (back, get32-put32 mem (sp - 4) v h, rest) refl

pub push_zeros-sp : (n : ℕ) (s : ℕ × (ℕ → ℕ)) → (push_zeros n s).0 ≡ s.0 - 4 * n
unfolding push_zeros
push_zeros-sp zero s = omega arith
push_zeros-sp (suc n) s = push_zeros-sp n (push 0 s) ∙ rw (push-sp 0 s) (omega arith)

pub push_zeros-Agree : (n : ℕ) (s : ℕ × (ℕ → ℕ)) → 4 * n ≤ s.0 → Agree s.1 (push_zeros n s).1 s.0
unfolding push_zeros
push_zeros-Agree zero s room b le = refl
push_zeros-Agree (suc n) s room b le =
    push_zeros-Agree n (push 0 s) (omega (arith, push-sp 0 s, room)) b
      (omega (arith, push-sp 0 s, le))
    ∙ push-Agree 0 s (omega (arith, room)) b le

-- The zero that is pushed first.
pub push_zeros_first :
    (n : ℕ) (s : ℕ × (ℕ → ℕ)) → 4 * suc n ≤ s.0 → get32 (push_zeros (suc n) s).1 (s.0 - 4) ≡ 0
unfolding push_zeros push
push_zeros_first n (sp, mem) room =
    let h = push_zeros-Agree n (push 0 (sp, mem)) (omega (arith, room)) in
    get32_agree (push_zeros n (push 0 (sp, mem))).1 (put32 mem (sp - 4) 0) (sp - 4)
      (λ b le lt. h b le)
    ∙ get32-put32 mem (sp - 4) 0 (omega arith)

replicate-snoc : (k a : ℕ) (xs : List ℕ) → replicate k a ++ (a ∷ xs) ≡ replicate (suc k) a ++ xs
replicate-snoc zero a xs = refl
replicate-snoc (suc k) a xs = ap (λ (ys : List ℕ). a ∷ ys) (replicate-snoc k a xs)

-- `n` zeros above the words that are there.
words-push_zeros :
    (k n : ℕ) (s : ℕ × (ℕ → ℕ))
    → 4 * k ≤ s.0
    → words (k + n) (push_zeros k s).1 (push_zeros k s).0 ≡ replicate k 0 ++ words n s.1 s.0
unfolding push_zeros
words-push_zeros zero n s room = ap (λ (m : ℕ). words m s.1 s.0) {x = 0 + n} {y = n} (omega arith)
words-push_zeros (suc k) n s room =
    let t = push_zeros k (push 0 s) in
    ap (λ (m : ℕ). words m t.1 t.0) {x = suc k + n} {y = k + suc n} (omega arith)
    ∙ words-push_zeros k (suc n) (push 0 s) (omega (arith, push-sp 0 s, room))
    ∙ ap (λ (ws : List ℕ). replicate k 0 ++ ws)
        (words-push n 0 s (omega (arith, room)) (omega arith))
    ∙ replicate-snoc k 0 (words n s.1 s.0)

-- What `context_switch` pops: ds, es, fs and gs, eight registers, and the place to go on.
abbrev pub frame : ℕ → List ℕ
frame entry = replicate 4 0x10 ++ replicate 8 0 ++ (entry ∷ [])

pub push_context_lem :
    (entry : ℕ) (s : ℕ × (ℕ → ℕ))
    → 52 ≤ s.0
    → entry < 2 ^ 32
    → ((push_context entry s).0 ≡ s.0 - 52)
      × (words 14 (push_context entry s).1 (push_context entry s).0
          ≡ frame entry ++ words 1 s.1 s.0)
      × Agree s.1 (push_context entry s).1 s.0
unfolding push_context
push_context_lem entry s room h =
    let s1 = push entry s in
    let s2 = push_zeros 8 s1 in
    let s3 = push 0x10 s2 in
    let s4 = push 0x10 s3 in
    let s5 = push 0x10 s4 in
    let e1 : s1.0 ≡ s.0 - 4 = push-sp entry s in
    let e2 : s2.0 ≡ s.0 - 36 = omega (arith, push_zeros-sp 8 s1, e1) in
    let e3 : s3.0 ≡ s.0 - 40 = omega (arith, push-sp 0x10 s2, e2) in
    let e4 : s4.0 ≡ s.0 - 44 = omega (arith, push-sp 0x10 s3, e3) in
    let e5 : s5.0 ≡ s.0 - 48 = omega (arith, push-sp 0x10 s4, e4) in
    let w1 = words-push 1 entry s (omega (arith, room)) h in
    let w2 = words-push_zeros 8 2 s1 (omega (arith, room, e1)) in
    let w3 = words-push 10 0x10 s2 (omega (arith, room, e2)) (omega arith) in
    let w4 = words-push 11 0x10 s3 (omega (arith, room, e3)) (omega arith) in
    let w5 = words-push 12 0x10 s4 (omega (arith, room, e4)) (omega arith) in
    let w6 = words-push 13 0x10 s5 (omega (arith, room, e5)) (omega arith) in
    let more : List ℕ → List ℕ = λ ws. 0x10 ∷ ws in
    (
      omega (arith, push-sp 0x10 s5, e5),
      w6
          ∙ ap more (
              w5
              ∙ ap more (
                  w4 ∙ ap more (w3 ∙ ap more (w2 ∙ ap (λ (ws : List ℕ). replicate 8 0 ++ ws) w1)))),
      λ b le.
          push-Agree 0x10 s5 (omega (arith, room, e5)) b (omega (arith, e5, le))
          ∙ push-Agree 0x10 s4 (omega (arith, room, e4)) b (omega (arith, e4, le))
          ∙ push-Agree 0x10 s3 (omega (arith, room, e3)) b (omega (arith, e3, le))
          ∙ push-Agree 0x10 s2 (omega (arith, room, e2)) b (omega (arith, e2, le))
          ∙ push_zeros-Agree 8 s1 (omega (arith, room, e1)) b (omega (arith, e1, le))
          ∙ push-Agree entry s (omega (arith, room)) b le,
    )

-- Nothing is written below the new pointer.
pub push_below : (v : ℕ) (s : ℕ × (ℕ → ℕ)) (b : ℕ) → b < s.0 - 4 → (push v s).1 b ≡ s.1 b
unfolding push
push_below v (sp, mem) b lt = put32_outside mem (sp - 4) v b (inl lt)

pub push_zeros_below :
    (n : ℕ) (s : ℕ × (ℕ → ℕ)) (b : ℕ) → b < s.0 - 4 * n → (push_zeros n s).1 b ≡ s.1 b
unfolding push_zeros
push_zeros_below zero s b lt = refl
push_zeros_below (suc n) s b lt =
    push_zeros_below n (push 0 s) b (omega (arith, push-sp 0 s, lt))
    ∙ push_below 0 s b (omega (arith, lt))

pub push_context_below :
    (entry : ℕ) (s : ℕ × (ℕ → ℕ)) (b : ℕ) → b < s.0 - 52 → (push_context entry s).1 b ≡ s.1 b
unfolding push_context
push_context_below entry s b lt =
    let s1 = push entry s in
    let s2 = push_zeros 8 s1 in
    let s3 = push 0x10 s2 in
    let s4 = push 0x10 s3 in
    let s5 = push 0x10 s4 in
    let e1 = push-sp entry s in
    let e2 = push_zeros-sp 8 s1 in
    let e3 = push-sp 0x10 s2 in
    let e4 = push-sp 0x10 s3 in
    let e5 = push-sp 0x10 s4 in
    push_below 0x10 s5 b (omega (arith, e1, e2, e3, e4, e5, lt))
    ∙ push_below 0x10 s4 b (omega (arith, e1, e2, e3, e4, lt))
    ∙ push_below 0x10 s3 b (omega (arith, e1, e2, e3, lt))
    ∙ push_below 0x10 s2 b (omega (arith, e1, e2, lt))
    ∙ push_zeros_below 8 s1 b (omega (arith, e1, lt))
    ∙ push_below entry s b (omega (arith, lt))
