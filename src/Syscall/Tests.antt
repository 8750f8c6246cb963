-- ===== src/Syscall/Tests.antt =====
-- SYS_EXIT, SYS_WAITPID and SYS_GETPID of kernel/arch/i686/syscall.c at concrete inputs.
use deva.Prelude.{ℕ, ◌*◌, ◌≡◌, ◌⊎◌, refl, some, [], ◌∷◌, arith, ◌==◌, if◌then◌else◌}
use deva.Task.{
  Task, TaskState, task_running, task_waiting, Machine, no_pid, unblock_from, unblock_waiter,
}
use deva.Task.Ring.{IsRing}
use deva.Syscall.{sys_exit, sys_getpid, take_over, resume_waitpid}
use deva.Syscall.Exit.{sys_exit_lem}
use deva.Syscall.Exec.{take_over_lem}

abbrev a_task : ℕ → ℕ → TaskState → ℕ → Task
a_task id next state pid = record {
  id = id;
  name = [];
  esp = 100 * id;
  cr3 = 0;
  private_page_phys = 0;
  state = state;
  waiting_for_pid = pid;
  next = next;
}

-- Tasks 0, 1 and 2 in a ring, of which task 1 waits for the pid in slot 2.
abbrev one_waits : Machine
one_waits = record {
  tasks = record {
    table = λ i.
        if i == 0
        then a_task 1 1 task_running no_pid
        else if i == 1
        then a_task 2 2 task_waiting 3
        else a_task 3 0 task_running no_pid;
    task_count = 3;
    next_pid = 4;
    current = some 0;
  };
  esp = 7;
  cr3 = 0;
}

one_waits-IsRing : IsRing one_waits.tasks 0 (1 ∷ 2 ∷ [])
one_waits-IsRing = record {
  is_current = refl;
  chain = (refl, (refl, refl));
  apart = omega arith;
  counted = refl;
  few = omega arith;
}

-- Task 2 runs, and the waiting task 1 is current.
sys_exit_lem_example :
    (m' : Machine) × (sys_exit one_waits ≡ some m')
    × IsRing m'.tasks 1 (2 ∷ [])
    × ((m'.esp ≡ 300) × (m'.cr3 ≡ 0))
unfolding unblock_waiter unblock_from
sys_exit_lem_example = sys_exit_lem one_waits (2 ∷ []) one_waits-IsRing

-- The pid of the current task, and the answer of a wait that is over.
sys_getpid_runs : (sys_getpid one_waits ≡ some 1) × ((resume_waitpid 1 one_waits).0 ≡ 0)
unfolding sys_getpid resume_waitpid
sys_getpid_runs = (refl, refl)

-- Task 0 started pid 2, in slot 1, and takes it over.
take_over_lem_example :
    (m' : Machine) × (take_over 2 one_waits ≡ some m')
    × (((m'.esp ≡ 7) × (m'.tasks.current ≡ some 1)) ⊎ ((m'.tasks.table 1).esp ≡ 7))
take_over_lem_example = take_over_lem 2 one_waits (2 ∷ []) one_waits-IsRing (omega arith)
