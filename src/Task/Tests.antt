-- ===== src/Task/Tests.antt =====
-- The theorems on kernel/drivers/task/task.c at concrete inputs.
use deva.Prelude.{
  ℕ, suc, ◌*◌, ◌≤◌, ◌≡◌, refl, arith, [], ◌∷◌, some, ◌==◌, if◌then◌else◌, is_in, ◌&&◌,
}
use deva.Task.{
  Task, TaskState, task_running, task_waiting, Tasks, Machine, no_pid, task_alloc, kill_task,
  find_from, find_prev, remove_task, schedule, switch_to, unblock_waiter,
}
use deva.Task.Ring.{IsRing, Chain}
use deva.Task.Alloc.{IsFresh, task_alloc-IsRing, task_alloc_live_slot}
use deva.Task.Wake.{waits_for, woken, unblock_waiter_lem}
use deva.Task.Kill.{Outcome, kill_task_lem}
use deva.Task.Schedule.{schedule-first_ready, turns, turns_reach}

abbrev task : ℕ → ℕ → TaskState → ℕ → Task
task id next state pid = record {
  id = id;
  name = [];
  esp = 100 * id;
  cr3 = 0;
  private_page_phys = 0;
  state = state;
  waiting_for_pid = pid;
  next = next;
}

-- Tasks 0, 2, 1 in a ring; task 2 waits for pid 2.
abbrev three : Tasks
three = record {
  table = λ i.
      if i == 0
      then task 1 2 task_running no_pid
      else if i == 1
      then task 2 0 task_running no_pid
      else task 3 1 task_waiting 2;
  task_count = 3;
  next_pid = 4;
  current = some 0;
}

three-IsRing : IsRing three 0 (2 ∷ 1 ∷ [])
three-IsRing = record {
  is_current = refl;
  chain = (refl, (refl, refl));
  apart = omega arith;
  counted = refl;
  few = omega arith;
}

abbrev machine : Machine
machine = record { tasks = three; esp = 7; cr3 = 0 }

-- The state after `kill_task` of the task in slot 1: slot 2 is live and `task_count` is 2.
abbrev holed : Tasks
holed = record three {
  table = λ i. if i == 0 then task 1 2 task_running no_pid else task 3 0 task_waiting 2;
  task_count = 2;
}

holed-IsRing : IsRing holed 0 (2 ∷ [])
holed-IsRing = record {
  is_current = refl;
  chain = (refl, refl);
  apart = omega arith;
  counted = refl;
  few = omega arith;
}

-- Killing pid 2 leaves the ring 0, 2 with `task_count` 2.
kill_makes_hole :
    (s' : Tasks) × (kill_task 2 three ≡ some s')
    × (s'.task_count ≡ 2)
    × ((s'.table 0).next ≡ 2)
    × ((s'.table 2).next ≡ 0)
unfolding kill_task find_from remove_task find_prev
kill_makes_hole = (
  record three {
    table = λ j. if 2 == j then (record (three.table 2) { next = 0 }) else three.table j;
    task_count = 2;
  },
  refl,
  refl,
  refl,
  refl,
)

task_alloc-IsRing_example :
    ((task_alloc (b'a' ∷ []) three).0 ≡ some 3)
    × IsRing (task_alloc (b'a' ∷ []) three).1 0 (3 ∷ 2 ∷ 1 ∷ [])
    × IsFresh three (b'a' ∷ []) 3 (task_alloc (b'a' ∷ []) three).1
task_alloc-IsRing_example = task_alloc-IsRing (b'a' ∷ []) three-IsRing (omega arith) (omega arith)

task_alloc_live_slot_example :
    ((task_alloc [] holed).0 ≡ some 2)
    × (((task_alloc [] holed).1.table 2).id ≡ 4)
    × Chain (task_alloc [] holed).1.table ((task_alloc [] holed).1.table 2).next [] 2
task_alloc_live_slot_example = task_alloc_live_slot [] {c = 0} [] [] holed-IsRing (omega arith)

kill_task_lem_example : Outcome 2 three 0 (2 ∷ 1 ∷ [])
kill_task_lem_example = kill_task_lem 2 (2 ∷ 1 ∷ []) three-IsRing

schedule-first_ready_example : schedule machine ≡ some (switch_to 0 1 machine)
schedule-first_ready_example = schedule-first_ready machine (2 ∷ 1 ∷ []) three-IsRing

turns_reach_example :
    (k : ℕ) × (m' : Machine) × (k ≤ suc 1)
    × (turns k machine ≡ some m')
    × (m'.tasks.current ≡ some 1)
turns_reach_example = turns_reach 1 machine 0 1 (2 ∷ []) [] three-IsRing refl (omega arith)

unblock_waiter_lem_example : (unblock_waiter 2 three).table 2 ≡ (
    if is_in 2 (0 ∷ 2 ∷ 1 ∷ []) && waits_for (three.table 2) 2
    then woken (three.table 2)
    else three.table 2)
unblock_waiter_lem_example = unblock_waiter_lem three-IsRing 2 2
