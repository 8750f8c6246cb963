-- ===== src/Syscall/Exec.antt =====
-- SYS_EXEC of kernel/arch/i686/syscall.c on the ring of kernel/drivers/task/task.c: what becomes of
-- the stack of the new program.
use deva.Prelude.{ℕ, ◌≡◌, ◌≢◌, ◌⊎◌, inl, inr, refl, ◌∙◌, some, List, ◌∷◌, arith, ◌==◌, Bool-cases}
use deva.Task.{Machine, schedule, switch_to}
use deva.Task.Ring.{IsRing, first_ready}
use deva.Task.Kill.{kill_task-IsRing}
use deva.Task.Schedule.{schedule-first_ready, switch_to_lem}
use deva.Syscall.{take_over}

-- The end of SYS_EXEC in a current task `c` whose pid is not that of the new program, with `x`
-- behind it in the ring: it ends, and either `x` is current while the processor stays on the stack of
-- `c`, or the stack pointer of `c` is written over the one of `x`.
pub take_over_lem :
    (pid : ℕ) (m : Machine) {c x : ℕ} (xs : List ℕ)
    → IsRing m.tasks c (x ∷ xs)
    → (m.tasks.table c).id ≢ pid
    → (m' : Machine) × (take_over pid m ≡ some m')
      × (((m'.esp ≡ m.esp) × (m'.tasks.current ≡ some x)) ⊎ ((m'.tasks.table x).esp ≡ m.esp))
unfolding take_over
take_over_lem pid m {c} {x} xs r other =
    let id = (m.tasks.table c).id in
    let (s, killed, r1, same) = kill_task-IsRing id x xs r refl in
    let m1 : Machine = record m { tasks = s } in
    let t = first_ready s.table x xs in
    let scheduled = schedule-first_ready m1 xs r1 in
    let gone : take_over pid m ≡ schedule m1 = ground (arith, r.is_current, other, killed) in
    elim (Bool-cases (t == x)) [
      | inl e ↦ (m1, gone ∙ scheduled ∙ ground (arith, e), inl (refl, r1.is_current))
      | inr ne ↦
          let apart : x ≢ t = λ e. ground (arith, ne, e) in
          (
            switch_to x t m1,
            gone ∙ scheduled ∙ ground (arith, ne),
            inr ((switch_to_lem x t m1 apart).0),
          )
    ]
