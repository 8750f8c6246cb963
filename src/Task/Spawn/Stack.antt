-- ===== src/Task/Spawn/Stack.antt =====
-- The stack that `build_user_stack` of kernel/drivers/task/task.c leaves: what `context_switch` pops,
-- and `argc` and `argv` above it.
use deva.Prelude.{
  ℕ, suc, ◌+◌, ◌-◌, ◌*◌, ◌^◌, ◌≤◌, ◌<◌, ◌≡◌, ◌⊎◌, inl, inr, ap, ◌∙◌, List, [], ◌∷◌, ◌++◌, arith,
  length,
}
use deva.Fat32.{get32}
use deva.Task.Spawn.{
  push, push_zeros, push_context, total_str, put_strings, put_pointers, build_user_stack,
}
use deva.Task.Spawn.Frame.{
  Agree, words, push-sp, push-Agree, words-push, push_zeros-sp, push_zeros-Agree, push_zeros_first,
  frame, push_context_lem, push_below, push_zeros_below, push_context_below,
}
use deva.Task.Spawn.Argv.{
  AreCStrings, IsArgv, Texts-frame, Pointers-frame, IsArgv-Pointers, put_strings_outside,
  put_strings-Texts, put_pointers_outside, put_pointers-Pointers,
}

-- The stack of a new program: its pointer, what `context_switch` pops and `argc`, the arguments, and
-- the memory around.
pub record UserStack (top entry : ℕ) (args : List (List ℕ)) (mem : ℕ → ℕ) (made : ℕ × (ℕ → ℕ))
    : Type 0 where
  pub esp : made.0 + (total_str args + 4 * length args + 60) ≡ top
  pub popped : words 14 made.1 made.0 ≡ frame entry ++ (length args ∷ [])
  pub argv : IsArgv made.1 (made.0 + 56) args
  pub around : (b : ℕ) → (b < made.0) ⊎ (top ≤ b) → made.1 b ≡ mem b

-- build_user_stack, for arguments without a NUL inside that have room below top, with top and entry
-- below 2^32: the stack pointer it leaves points at the words that context_switch pops, the entry of
-- the program last, then argc and argv, whose pointers lead to the NUL-terminated arguments in their
-- order, with NULL behind them; no byte below the pointer or from top on is written.
pub build_user_stack-UserStack :
    (top entry : ℕ) (args : List (List ℕ)) (mem : ℕ → ℕ)
    → AreCStrings args
    → total_str args + 4 * length args + 60 ≤ top
    → top < 2 ^ 32
    → entry < 2 ^ 32
    → UserStack top entry args mem (build_user_stack top entry args mem)
unfolding build_user_stack
build_user_stack-UserStack top entry args mem strings room w h =
    let n = length args in
    let sp0 = top - total_str args in
    let m0 = put_strings args sp0 mem in
    let z = push_zeros (suc n) (sp0, m0) in
    let m2 = put_pointers args sp0 z.0 z.1 in
    let s = push n (z.0, m2) in
    let f = push_context entry s in
    let ez : z.0 ≡ sp0 - 4 * suc n = push_zeros-sp (suc n) (sp0, m0) in
    let es : s.0 ≡ z.0 - 4 = push-sp n (z.0, m2) in
    let (ef, popped, same) = push_context_lem entry s (omega (arith, room, ez, es)) h in
    let null : get32 z.1 (z.0 + 4 * n) ≡ 0 =
      ap (get32 z.1) {x = z.0 + 4 * n} {y = sp0 - 4} (omega (arith, ez, room))
      ∙ push_zeros_first n (sp0, m0) (omega (arith, room)) in
    let pushed : Agree m2 f.1 z.0 = λ b le.
      same b (omega (arith, es, le)) ∙ push-Agree n (z.0, m2) (omega (arith, ez, room)) b le in
    let written : Agree m0 m2 sp0 = λ b le.
      put_pointers_outside args sp0 z.0 z.1 b (inr (omega (arith, ez, room, le)))
      ∙ push_zeros-Agree (suc n) (sp0, m0) (omega (arith, room)) b le in
    let pointers =
      Pointers-frame m2 f.1 z.0 sp0 args pushed
        (put_pointers-Pointers args sp0 z.0 z.1 (omega (arith, room, w)) null) in
    let texts =
      Texts-frame m0 f.1 sp0 args (λ b le. pushed b (omega (arith, ez, le)) ∙ written b le)
        (put_strings-Texts args sp0 mem strings) in
    let at_argv : f.0 + 56 ≡ z.0 = omega (arith, ef, es, ez, room) in
    record {
      esp = omega (arith, ef, es, ez, room);
      popped =
          popped
          ∙ ap (λ (ws : List ℕ). frame entry ++ ws)
              (words-push 0 n (z.0, m2) (omega (arith, ez, room)) (omega (arith, room, w)));
      argv = rw at_argv (IsArgv-Pointers f.1 z.0 sp0 args pointers texts);
      around = λ b out. elim out [
        | inl lt ↦
            push_context_below entry s b (omega (arith, ef, lt))
            ∙ push_below n (z.0, m2) b (omega (arith, ef, es, lt))
            ∙ put_pointers_outside args sp0 z.0 z.1 b (inl (omega (arith, ef, es, lt)))
            ∙ push_zeros_below (suc n) (sp0, m0) b (omega (arith, ef, es, ez, lt))
            ∙ put_strings_outside args sp0 mem b (inl (omega (arith, ef, es, ez, lt)))
        | inr ge ↦
            pushed b (omega (arith, ez, ge))
            ∙ written b (omega (arith, ge))
            ∙ put_strings_outside args sp0 mem b (inr (omega (arith, room, ge)))
      ];
    }
