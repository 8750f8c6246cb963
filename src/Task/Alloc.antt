-- ===== src/Task/Alloc.antt =====
-- `init_multitasking` and `task_alloc` of kernel/drivers/task/task.c.
use deva.Prelude.{ℕ, ◌≤◌, ◌<◌, ◌≡◌, refl, sym, none, some, List, [], ◌∷◌, ◌++◌, arith, take, NotIn}
use deva.Task.{task_running, Tasks, max_tasks, init_multitasking, insert_task, task_alloc}
use deva.Task.Ring.{
  IsRing, Chain, Chain-frame, SameNext, Chain-split, NotIn-append, Chain-start, Distinct-split,
}

-- After `init_multitasking` the kernel's task is current and alone in the ring.
pub init_multitasking-IsRing : (dir : ℕ) (s : Tasks) → IsRing (init_multitasking dir s) 0 []
unfolding init_multitasking
init_multitasking-IsRing dir s = record {
  is_current = refl;
  chain = ground arith;
  apart = (tt, tt);
  counted = refl;
  few = omega arith;
}

-- The ring's `next` fields, but for `c`, survive the writes of `insert_task` into another slot.
insert_task-SameNext :
    (name : List ℕ) (c : ℕ) (s : Tasks) (xs : List ℕ)
    → NotIn c xs
    → NotIn s.task_count xs
    → SameNext s.table (insert_task name c s).table xs
unfolding insert_task
insert_task-SameNext name c s [] n k = tt
insert_task-SameNext name c s (x ∷ xs) n k =
    (ground arith, insert_task-SameNext name c s xs n.1 k.1)

-- What the new task looks like.
pub record IsFresh (s : Tasks) (name : List ℕ) (t : ℕ) (s' : Tasks) : Type 0 where
  pub id : (s'.table t).id ≡ s.next_pid
  pub name_kept : (s'.table t).name ≡ take 15 name
  pub ready : (s'.table t).state ≡ task_running

module _ (name : List ℕ) {c : ℕ} {xs : List ℕ} {s : Tasks} (r : IsRing s c xs) where
  -- With a slot that no live task occupies, `task_alloc` puts a new running task into it, behind
  -- the current one in the ring, and the other tasks keep their order; a full table is refused.
  pub task_alloc-IsRing :
      s.task_count < max_tasks
      → NotIn s.task_count (c ∷ xs)
      → ((task_alloc name s).0 ≡ some s.task_count)
        × IsRing (task_alloc name s).1 c (s.task_count ∷ xs)
        × IsFresh s name s.task_count (task_alloc name s).1
  unfolding task_alloc insert_task
  task_alloc-IsRing room free =
      let is = r.is_current in
      let moved : (task_alloc name s).1 ≡ insert_task name c s = ground arith in
      (
        ground arith,
        rw moved (record {
          is_current = is;
          chain = (
            ground arith,
            Chain-frame s.table (insert_task name c s).table
                ((insert_task name c s).table s.task_count).next xs c
                (insert_task-SameNext name c s xs r.apart.0 free.1)
                (let e : (s.table c).next ≡ ((insert_task name c s).table s.task_count).next =
                    ground arith in
                  rw e at (r.chain)),
          );
          apart = ((λ e. free.0 (sym e), r.apart.0), (free.1, r.apart.1));
          counted = ground (arith, r.counted);
          few = omega (arith, r.counted);
        }),
        rw moved (record { id = ground arith; name_kept = ground arith; ready = ground arith }),
      )

  pub task_alloc_full : max_tasks ≤ s.task_count → task_alloc name s ≡ (none, s)
  unfolding task_alloc
  task_alloc_full h = ground arith

-- If the slot `task_count` holds a live task, `task_alloc` hands that slot out all the same: the
-- live task's pid is overwritten, and the walk from it comes back to it without meeting the
-- current task or any task that stood behind it.
pub task_alloc_live_slot :
    (name : List ℕ) {c : ℕ} (ys zs : List ℕ) {s : Tasks}
    → IsRing s c (ys ++ (s.task_count ∷ zs))
    → s.task_count < max_tasks
    → ((task_alloc name s).0 ≡ some s.task_count)
      × (((task_alloc name s).1.table s.task_count).id ≡ s.next_pid)
      × Chain
          (task_alloc name s).1.table
          ((task_alloc name s).1.table s.task_count).next
          ys
          s.task_count
unfolding task_alloc insert_task
task_alloc_live_slot name {c} ys zs {s} r room =
    let t = s.task_count in
    let (n, k, w, x) = Distinct-split t ys zs r.apart.1 in
    let (nc, kc) = NotIn-append c ys (t ∷ zs) r.apart.0 in
    let (front, back) = Chain-split s.table (s.table c).next c t ys zs r.chain in
    let moved : (task_alloc name s).1 ≡ insert_task name c s = ground (arith, r.is_current) in
    let start : (s.table c).next ≡ ((insert_task name c s).table t).next = ground (arith, kc.0) in
    (
      ground (arith, r.is_current),
      rw moved (ground (arith, kc.0)),
      rw moved (
          Chain-frame s.table (insert_task name c s).table ((insert_task name c s).table t).next ys
            t (insert_task-SameNext name c s ys nc n)
            (Chain-start s.table (s.table c).next ((insert_task name c s).table t).next ys t start
              front)),
    )
