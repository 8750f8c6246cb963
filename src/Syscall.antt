-- ===== src/Syscall.antt =====
-- The system calls on the current task: SYS_EXIT, SYS_GETPID, SYS_YIELD, SYS_WAITPID, SYS_EXEC and
-- SYS_SPAWN of kernel/arch/i686/syscall.c. What a call writes into `eax` stands beside the machine;
-- a call of SYS_WAITPID goes on, in `resume_waitpid`, when the scheduler comes back to its task. As
-- in Task, where the source follows a null `current_task`, `none` leaves the state alone.
pub mod Exit
pub mod Exec
mod Tests
use deva.Prelude.{
  ℕ, zero, suc, ◌-◌, ◌^◌, Bool, Option, none, some, ◌==◌, if◌then◌else◌, update, List,
}
use deva.Prelude.Int.{ℤ, pos, negsuc}
use deva.Vfs.{FileSystem}
use deva.Task.Spawn.{Processes, spawn_elf}
use deva.Task.{
  Task, Tasks, Machine, max_tasks, task_running, task_waiting, is_waiting, kill_task,
  unblock_waiter, find_task_by_pid, context_switch, enter_space, schedule,
}

-- The pattern of -1 in `eax`.
abbrev pub refused : ℕ
refused = 2 ^ 32 - 1

-- The `do` loop of SYS_EXIT: where it stops.
pub find_running : ℕ → (ℕ → Task) → ℕ → ℕ → Option ℕ
find_running zero table start t = none
find_running (suc fuel) table start t =
    let rest = find_running fuel table start (table t).next in
    let on = if (table t).next == start then some start else rest in
    if is_waiting (table t).state then on else some t

-- The last part of SYS_EXIT, for the task that was killed.
pub leave : ℕ → Machine → Option Machine
leave me m = elim m.tasks.current [
  | none ↦ some m
  | some start ↦ elim (find_running max_tasks m.tasks.table start start) [
    | none ↦ none
    | some next ↦
        let entered = enter_space (m.tasks.table next).cr3 m in
        if is_waiting (m.tasks.table next).state
        then some m
        else some (context_switch me (m.tasks.table next).esp entered)
  ]
]

pub sys_exit : Machine → Option Machine
sys_exit m = elim m.tasks.current [
  | none ↦ some m
  | some me ↦
      let id = (m.tasks.table me).id in
      elim (kill_task id (unblock_waiter id m.tasks)) [
        | none ↦ none
        | some s ↦ leave me (record m { tasks = s })
      ]
]

pub sys_getpid : Machine → Option ℕ
sys_getpid m = elim m.tasks.current [ none ↦ none | some me ↦ some (m.tasks.table me).id ]

pub sys_yield : Machine → Option (ℕ × Machine)
sys_yield m = elim (schedule m) [ none ↦ none | some m' ↦ some (0, m') ]

-- `none` is a loop that does not end; an answer is one where no task has the pid.
pub sys_waitpid : ℕ → Machine → Option (Option ℕ × Machine)
sys_waitpid pid m = elim m.tasks.current [
  | none ↦ some (some refused, m)
  | some me ↦
      let waiting : Task = record (m.tasks.table me) {
        state = task_waiting;
        waiting_for_pid = pid;
      } in
      let blocked = record m {
        tasks = record (m.tasks) { table = update m.tasks.table me waiting };
      } in
      elim (find_task_by_pid pid m.tasks) [
        | none ↦ some (some refused, m)
        | some t ↦ elim (schedule blocked) [ none ↦ none | some m' ↦ some (none, m') ]
      ]
]

-- What is left of SYS_WAITPID for the task that called it.
pub resume_waitpid : ℕ → Machine → ℕ × Machine
resume_waitpid me m =
    let running : Task = record (m.tasks.table me) { state = task_running } in
    (0, record m { tasks = record (m.tasks) { table = update m.tasks.table me running } })

-- SYS_EXEC behind `spawn_elf`, with the pid of the new program.
pub take_over : ℕ → Machine → Option Machine
take_over pid m = elim m.tasks.current [
  | none ↦ some m
  | some me ↦
      let id = (m.tasks.table me).id in
      elim (if id == pid then some m.tasks else kill_task id m.tasks) [
        | none ↦ none
        | some s ↦ schedule (record m { tasks = s })
      ]
]

-- The static variables and the processor.
pub record Kernel (S : Type 0) : Type 0 where
  pub processes : Processes S
  pub esp : ℕ
  pub cr3 : ℕ

module _ {S : Type 0} where
  pub on_machine : (Machine → Option Machine) → Kernel S → Option (Kernel S)
  on_machine f k = elim (f (record { tasks = k.processes.tasks; esp = k.esp; cr3 = k.cr3 })) [
    | none ↦ none
    | some m ↦
        some (record {
          processes = record (k.processes) { tasks = m.tasks };
          esp = m.esp;
          cr3 = m.cr3;
        })
  ]

  pub sys_spawn : (ℕ → ℕ) → FileSystem S → List ℕ → List (List ℕ) → Kernel S → Option (ℤ × Kernel S)
  sys_spawn stack_top below path args k = elim (spawn_elf stack_top below path args k.processes) [
    | none ↦ none
    | some (pid, processes) ↦ some (pid, record k { processes = processes })
  ]

  pub sys_exec : (ℕ → ℕ) → FileSystem S → List ℕ → List (List ℕ) → Kernel S → Option (ℤ × Kernel S)
  sys_exec stack_top below path args k = elim (sys_spawn stack_top below path args k) [
    | none ↦ none
    | some (negsuc n, k1) ↦ some (negsuc 0, k1)
    | some (pos pid, k1) ↦ elim (on_machine (take_over pid) k1) [
      | none ↦ none
      | some k2 ↦ some (pos 0, k2)
    ]
  ]
