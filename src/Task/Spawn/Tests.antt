-- ===== src/Task/Spawn/Tests.antt =====
-- The first stack of a program, from kernel/drivers/task/task.c.
use deva.Prelude.{ℕ, ◌≡◌, refl, List, [], ◌∷◌, arith}
use deva.Task.Spawn.{build_user_stack, total_str, leaf_name, after_slash}
use deva.Task.Spawn.Stack.{UserStack, build_user_stack-UserStack}

abbrev cat_args : List (List ℕ)
cat_args = (b'c' ∷ b'a' ∷ b't' ∷ []) ∷ (b'a' ∷ []) ∷ []

build_user_stack-UserStack_example :
    UserStack 0x00204000 0x08048000 cat_args
      (λ a. 0)
      (build_user_stack 0x00204000 0x08048000 cat_args (λ a. 0))
unfolding total_str
build_user_stack-UserStack_example =
    build_user_stack-UserStack 0x00204000 0x08048000 cat_args (λ a. 0)
      ((omega arith, (omega arith, (omega arith, tt))), ((omega arith, tt), tt)) (omega arith)
      (omega arith) (omega arith)

leaf_name_runs :
    (leaf_name (b'/' ∷ b'b' ∷ b'/' ∷ b'l' ∷ b's' ∷ []) ≡ b'l' ∷ b's' ∷ [])
    × (leaf_name (b'd' ∷ b'/' ∷ []) ≡ b'd' ∷ b'/' ∷ [])
unfolding leaf_name after_slash
leaf_name_runs = (refl, refl)
