-- ===== src/Task.antt =====
-- Tasks and the round-robin scheduler, kernel/drivers/task/task.c.
-- A task is its index in `task_table`, and `next` is an index too. A pid and `waiting_for_pid` are
-- the 32-bit patterns of the source's `int`s, so -1 is 2^32 - 1. `esp` is a number that stands for
-- a saved context. The null tests of `current_task` are the option; where the source follows the
-- pointer without a test, `none` leaves the state alone. A loop round the ring has fuel for the 8
-- slots, and `none` means that it would not end.
-- The stacks that `build_initial_stack` and `build_user_stack` lay out, and the starts of programs
-- by `create_process` and `spawn_elf`, stand in Spawn.
pub mod Ring
pub mod Alloc
pub mod Kill
pub mod Schedule
pub mod Wake
pub mod Spawn
mod Tests
use deva.Prelude.{
  ℕ, zero, suc, ◌+◌, ◌-◌, ◌%◌, ◌^◌, Bool, true, false, ◌&&◌, not, Option, none, some, List, [], ◌∷◌,
  ltb, leb, ◌==◌, if◌then◌else◌, update, take,
}

abbrev pub max_tasks : ℕ
max_tasks = 8

-- The pattern of -1.
abbrev pub no_pid : ℕ
no_pid = 2 ^ 32 - 1

pub data TaskState : Type 0 where
  task_running task_waiting : TaskState

abbrev pub is_waiting : TaskState → Bool
is_waiting task_running = false
is_waiting task_waiting = true

pub record Task : Type 0 where
  pub id : ℕ
  pub name : List ℕ
  pub esp : ℕ
  pub cr3 : ℕ
  pub private_page_phys : ℕ
  pub state : TaskState
  pub waiting_for_pid : ℕ
  pub next : ℕ

-- The static variables of task.c.
pub record Tasks : Type 0 where
  pub table : ℕ → Task
  pub task_count : ℕ
  pub next_pid : ℕ
  pub current : Option ℕ

-- `t->next = q`.
abbrev pub set_next : (ℕ → Task) → ℕ → ℕ → ℕ → Task
set_next table t q = update table t (record (table t) { next = q })

abbrev pub add_pid : ℕ → ℕ
add_pid n = (n + 1) % 2 ^ 32

-- `init_multitasking`: the kernel is the first task, alone in the ring.
pub init_multitasking : ℕ → Tasks → Tasks
init_multitasking kernel_dir s = record {
  table = update s.table 0 (record {
    id = 1;
    name = b'k' ∷ b'e' ∷ b'r' ∷ b'n' ∷ b'e' ∷ b'l' ∷ [];
    esp = 0;
    cr3 = kernel_dir;
    private_page_phys = 0;
    state = task_running;
    waiting_for_pid = no_pid;
    next = 0;
  });
  task_count = 1;
  next_pid = 2;
  current = some 0;
}

-- The last part of `task_alloc`, when there is a slot and a current task `c`: the new task goes
-- into slot `task_count` and into the ring behind `c`.
pub insert_task : List ℕ → ℕ → Tasks → Tasks
insert_task name c s =
    let t = s.task_count in
    let made : Task = record (s.table t) {
      id = s.next_pid;
      name = take 15 name;
      cr3 = 0;
      private_page_phys = 0;
      state = task_running;
      waiting_for_pid = no_pid;
    } in
    let table1 = update s.table t made in
    let table2 = set_next table1 t (table1 c).next in
    record s { table = set_next table2 c t; task_count = t + 1; next_pid = add_pid s.next_pid }

-- `task_alloc`: the index of the new task, `none` for a full table.
pub task_alloc : List ℕ → Tasks → Option ℕ × Tasks
task_alloc name s =
    if leb max_tasks s.task_count
    then (none, s)
    else elim s.current [ none ↦ (none, s) | some c ↦ (some s.task_count, insert_task name c s) ]

-- `while (prev->next != t) prev = prev->next;`
pub find_prev : ℕ → (ℕ → Task) → ℕ → ℕ → Option ℕ
find_prev zero table t prev = none
find_prev (suc fuel) table t prev =
    let rest = find_prev fuel table t (table prev).next in
    if (table prev).next == t then some prev else rest

-- `remove_task`, with the current task `c`; `none` if its loop does not end.
pub remove_task : ℕ → ℕ → Tasks → Option Tasks
remove_task t c s = elim (find_prev max_tasks s.table t c) [
  | none ↦ none
  | some prev ↦
      let table1 = set_next s.table prev (s.table t).next in
      some (record s {
        table = table1;
        current = if t == c then some (table1 t).next else s.current;
        task_count = s.task_count - 1;
      })
]

-- The loops of `kill_task` and `find_task_by_pid`: the first task with this pid, from `t` on.
pub find_from : (ℕ → Task) → ℕ → ℕ → ℕ → Option ℕ
find_from table pid t zero = none
find_from table pid t (suc n) =
    let rest = find_from table pid (table t).next n in if (table t).id == pid then some t else rest

pub kill_task : ℕ → Tasks → Option Tasks
kill_task pid s = elim s.current [
  | none ↦ some s
  | some c ↦ elim (find_from s.table pid c s.task_count) [
    | none ↦ some s
    | some t ↦ remove_task t c s
  ]
]

pub find_task_by_pid : ℕ → Tasks → Option ℕ
find_task_by_pid pid s = elim s.current [
  | none ↦ none
  | some c ↦ find_from s.table pid c s.task_count
]

-- `while (new_task->state == TASK_WAITING && new_task != current_task) new_task = new_task->next;`
pub skip_waiting : ℕ → (ℕ → Task) → ℕ → ℕ → Option ℕ
skip_waiting zero table c t = none
skip_waiting (suc fuel) table c t =
    let rest = skip_waiting fuel table c (table t).next in
    if is_waiting (table t).state && not (t == c) then rest else some t

-- The processor beside the tasks: the stack pointer that runs, and the directory in CR3.
pub record Machine : Type 0 where
  pub tasks : Tasks
  pub esp : ℕ
  pub cr3 : ℕ

-- The call of kernel/arch/i686/context_switch.asm: `*old_esp = esp; esp = new_esp`.
unfoldable pub context_switch : ℕ → ℕ → Machine → Machine
context_switch old new_esp m = record m {
  tasks = record (m.tasks) {
    table = update m.tasks.table old (record (m.tasks.table old) { esp = m.esp });
  };
  esp = new_esp;
}

-- `if (t->cr3 && t->cr3 != get_current_directory()) switch_page_directory(t->cr3);`
unfoldable pub enter_space : ℕ → Machine → Machine
enter_space dir m = if dir == 0 then m else if dir == m.cr3 then m else record m { cr3 = dir }

-- What `schedule` does once it has found another task `t` than the current one `c`.
pub switch_to : ℕ → ℕ → Machine → Machine
unfolding enter_space context_switch
switch_to c t m =
    context_switch c (m.tasks.table t).esp (
      enter_space (m.tasks.table t).cr3
        (record m { tasks = record (m.tasks) { current = some t } }))

-- `schedule`; `none` if its loop does not end.
pub schedule : Machine → Option Machine
schedule m = elim m.tasks.current [
  | none ↦ some m
  | some c ↦
      if (m.tasks.table c).next == c
      then some m
      else elim (skip_waiting max_tasks m.tasks.table c (m.tasks.table c).next) [
        | none ↦ none
        | some t ↦ if t == c then some m else some (switch_to c t m)
      ]
]

-- The loop of `unblock_waiter`, with `n` tasks to go.
unfoldable pub unblock_from : ℕ → (ℕ → Task) → ℕ → ℕ → ℕ → Task
unblock_from pid table t zero = table
unblock_from pid table t (suc n) =
    let woken =
      if is_waiting (table t).state && ((table t).waiting_for_pid == pid)
      then update table t (record (table t) { state = task_running; waiting_for_pid = no_pid })
      else table in
    unblock_from pid woken (woken t).next n

unfoldable pub unblock_waiter : ℕ → Tasks → Tasks
unblock_waiter pid s = elim s.current [
  | none ↦ s
  | some c ↦ record s { table = unblock_from pid s.table c s.task_count }
]
