-- ===== src/Syscall/Exit.antt =====
-- SYS_EXIT of kernel/arch/i686/syscall.c on the ring of kernel/drivers/task/task.c.
use deva.Prelude.{
  ℕ, zero, suc, ◌<◌, ◌≡◌, inl, inr, refl, sym, ◌∙◌, ◌||◌, some, List, [], ◌∷◌, arith, length, ◌==◌,
  if◌then◌else◌, Bool-cases, NotIn,
}
use mathlib.Core.Path.{subst}
use deva.Task.{Task, Machine, max_tasks, is_waiting, unblock_waiter, context_switch, enter_space}
use deva.Task.Ring.{IsRing, Chain, Chain-frame, Chain-start, SameNext, first_ready}
use deva.Task.Kill.{SameBesideNext, kill_task-IsRing}
use deva.Task.Wake.{unblock_waiter_lem, unblock_waiter-IsRing}
use deva.Syscall.{find_running, leave, sys_exit}

-- The search ends at the first ready task from `t` on, or where it started.
find_running-first_ready :
    (fuel : ℕ) (table : ℕ → Task) (start t : ℕ) (xs : List ℕ)
    → Chain table (table t).next xs start
    → NotIn start xs
    → length xs < fuel
    → find_running fuel table start t ≡ some (first_ready table start (t ∷ xs))
unfolding find_running
find_running-first_ready zero table start t xs h n lt = absurd (omega (arith, lt))
find_running-first_ready (suc fuel) table start t [] h n lt = ground (arith, h)
find_running-first_ready (suc fuel) table start t (x ∷ xs) h n lt =
    let rest =
      find_running-first_ready fuel table start (table t).next xs (rw (h.0) h.1) n.1
        (omega (arith, lt)) in
    ground (arith, rest, h.0, n.0)

context_switch-SameNext :
    (me esp : ℕ) (m : Machine) (xs : List ℕ)
    → SameNext m.tasks.table (context_switch me esp m).tasks.table xs
unfolding context_switch
context_switch-SameNext me esp m [] = tt
context_switch-SameNext me esp m (x ∷ xs) = (ground arith, context_switch-SameNext me esp m xs)

context_switch-fields :
    (me esp t : ℕ) (m : Machine)
    → ((context_switch me esp m).tasks.current ≡ m.tasks.current)
      × ((context_switch me esp m).tasks.task_count ≡ m.tasks.task_count)
      × (((context_switch me esp m).tasks.table t).next ≡ (m.tasks.table t).next)
      × ((context_switch me esp m).esp ≡ esp)
      × ((context_switch me esp m).cr3 ≡ m.cr3)
unfolding context_switch
context_switch-fields me esp t m = ground arith

enter_space-tasks :
    (dir : ℕ) (m : Machine)
    → ((enter_space dir m).tasks ≡ m.tasks)
      × ((enter_space dir m).cr3 ≡ (if dir == 0 then m.cr3 else dir))
unfolding enter_space
enter_space-tasks dir m = elim (Bool-cases (dir == 0)) [
  | inl z ↦ ground (arith, z)
  | inr nz ↦ ground (arith, nz)
]

context_switch-IsRing :
    (me esp x : ℕ) (m : Machine) (xs : List ℕ)
    → IsRing m.tasks x xs
    → IsRing (context_switch me esp m).tasks x xs
context_switch-IsRing me esp x m xs r =
    let f = context_switch-fields me esp x m in
    let table' = (context_switch me esp m).tasks.table in
    record {
      is_current = f.0 ∙ r.is_current;
      chain =
          Chain-frame m.tasks.table table' (table' x).next xs x
            (context_switch-SameNext me esp m xs)
            (Chain-start m.tasks.table (m.tasks.table x).next (table' x).next xs x (sym (f.2))
              r.chain);
      apart = r.apart;
      counted = f.1 ∙ r.counted;
      few = r.few;
    }

-- What `leave` makes of a ring whose current task is `x`.
leave_lem :
    (me x : ℕ) (xs : List ℕ) (m : Machine)
    → IsRing m.tasks x xs
    → leave me m ≡ (
        let t = first_ready m.tasks.table x (x ∷ xs) in
        if is_waiting (m.tasks.table t).state
        then some m
        else some (context_switch me (m.tasks.table t).esp (enter_space (m.tasks.table t).cr3 m)))
unfolding leave
leave_lem me x xs m r =
    let found =
      find_running-first_ready max_tasks m.tasks.table x x xs r.chain r.apart.0
        (omega (arith, r.few)) in
    ground (arith, r.is_current, found)

-- The ring stays, and the processor goes on with the stack of `t`.
leave-IsRing :
    (me x : ℕ) (xs : List ℕ) (m : Machine) (t : ℕ)
    → IsRing m.tasks x xs
    → first_ready m.tasks.table x (x ∷ xs) ≡ t
    → (m' : Machine) × (leave me m ≡ some m')
      × IsRing m'.tasks x xs
      × (m'.esp ≡ (if is_waiting (m.tasks.table t).state then m.esp else (m.tasks.table t).esp))
      × (m'.cr3 ≡ (
          if is_waiting (m.tasks.table t).state || (m.tasks.table t).cr3 == 0
          then m.cr3
          else (m.tasks.table t).cr3))
leave-IsRing me x xs m t r e =
    let task = m.tasks.table t in
    let entered = enter_space task.cr3 m in
    let (kept, space) = enter_space-tasks task.cr3 m in
    let r1 : IsRing entered.tasks x xs = subst (λ s. IsRing s x xs) (sym kept) r in
    let f = context_switch-fields me task.esp t entered in
    let left : leave me m
        ≡ (if is_waiting task.state then some m else some (context_switch me task.esp entered)) =
      subst
        (λ u. leave me m ≡ (
          if is_waiting (m.tasks.table u).state
          then some m
          else some
              (context_switch me (m.tasks.table u).esp (enter_space (m.tasks.table u).cr3 m))))
        e (leave_lem me x xs m r) in
    elim (Bool-cases (is_waiting task.state)) [
      | inl waits ↦
          (m, left ∙ ground (arith, waits), r, ground (arith, waits), ground (arith, waits))
      | inr ready ↦ (
        context_switch me task.esp entered,
        left ∙ ground (arith, ready),
        context_switch-IsRing me task.esp x entered xs r1,
        f.3 ∙ ground (arith, ready),
        f.4 ∙ space ∙ ground (arith, ready),
      )
    ]

first_ready-same :
    (a b : ℕ → Task) (c : ℕ) (xs : List ℕ)
    → ((i : ℕ) → SameBesideNext (a i) (b i))
    → first_ready b c xs ≡ first_ready a c xs
first_ready-same a b c [] h = refl
first_ready-same a b c (x ∷ xs) h = ground (arith, (h x).0, first_ready-same a b c xs h)

-- SYS_EXIT of the current task `c`, with other tasks in the ring behind it, of which `x` is the
-- next: it ends, `c` is out of the ring, and `x` is current, whether it waits or not. Where `t` is
-- the first task from `x` on that does not wait once the tasks that waited for the pid of `c` are
-- awake, the processor goes on with the stack of `t`, in its address space; where there is none it
-- goes on with the stack of `c`.
pub sys_exit_lem :
    (m : Machine) {c x : ℕ} (xs : List ℕ)
    → IsRing m.tasks c (x ∷ xs)
    → (m' : Machine) × (sys_exit m ≡ some m')
      × IsRing m'.tasks x xs
      × (let table1 = (unblock_waiter (m.tasks.table c).id m.tasks).table in
          let t = first_ready table1 x (x ∷ xs) in
          (m'.esp ≡ (if is_waiting (table1 t).state then m.esp else (m.tasks.table t).esp))
          × (m'.cr3 ≡ (
              if is_waiting (table1 t).state || (m.tasks.table t).cr3 == 0
              then m.cr3
              else (m.tasks.table t).cr3)))
unfolding sys_exit
sys_exit_lem m {c} {x} xs r =
    let id = (m.tasks.table c).id in
    let s1 = unblock_waiter id m.tasks in
    let awake = λ (i : ℕ). unblock_waiter_lem r id i in
    let same_id : (s1.table c).id ≡ id = ground (arith, awake c) in
    let (s2, killed, r2, same) = kill_task-IsRing id x xs (unblock_waiter-IsRing r id) same_id in
    let m2 : Machine = record m { tasks = s2 } in
    let left = leave_lem c x xs m2 r2 in
    let gone : sys_exit m ≡ leave c m2 = ground (arith, r.is_current, killed) in
    let t = first_ready s1.table x (x ∷ xs) in
    let (m', q, r', e1, e2) =
      leave-IsRing c x xs m2 t r2 (first_ready-same s1.table s2.table x (x ∷ xs) same) in
    let waits = (same t).0 in
    let esp_same : (s2.table t).esp ≡ (m.tasks.table t).esp =
      (same t).1 ∙ ground (arith, awake t) in
    let cr3_same : (s2.table t).cr3 ≡ (m.tasks.table t).cr3 =
      (same t).2 ∙ ground (arith, awake t) in
    (m', gone ∙ q, r', (e1 ∙ ground (arith, waits, esp_same), e2 ∙ ground (arith, waits, cr3_same)))
