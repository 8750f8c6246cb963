-- ===== src/Task/Wake.antt =====
-- `unblock_waiter` and `find_task_by_pid` of kernel/drivers/task/task.c.
use deva.Prelude.{
  ℕ, ◌≡◌, refl, sym, ap, some, ◌∙◌, Bool, ◌&&◌, List, [], ◌∷◌, arith, length, update, ◌==◌,
  if◌then◌else◌, Distinct, is_in, is_in-NotIn,
}
use deva.Task.{
  Task, Tasks, task_running, no_pid, is_waiting, find_from, find_task_by_pid, unblock_from,
  unblock_waiter,
}
use deva.Task.Ring.{
  IsRing, Chain, Chain-frame, Chain-start, SameNext, first_with, find_from-first_with,
}

-- The task waits for this pid.
abbrev pub waits_for : Task → ℕ → Bool
waits_for t pid = is_waiting t.state && (t.waiting_for_pid == pid)

abbrev pub woken : Task → Task
woken t = record t { state = task_running; waiting_for_pid = no_pid }

-- One round of the loop.
abbrev wake_one : ℕ → (ℕ → Task) → ℕ → ℕ → Task
wake_one pid table t =
    if is_waiting (table t).state && ((table t).waiting_for_pid == pid)
    then update table t (record (table t) { state = task_running; waiting_for_pid = no_pid })
    else table

wake_one_lem :
    (pid : ℕ) (table : ℕ → Task) (t x : ℕ)
    → wake_one pid table t x
      ≡ (if t == x && waits_for (table x) pid then woken (table x) else table x)
wake_one_lem pid table t x = ground arith

wake_one-SameNext :
    (pid : ℕ) (table : ℕ → Task) (t : ℕ) (xs : List ℕ) → SameNext table (wake_one pid table t) xs
wake_one-SameNext pid table t [] = tt
wake_one-SameNext pid table t (x ∷ xs) =
    (ground (arith, wake_one_lem pid table t x), wake_one-SameNext pid table t xs)

unblock_from_lem :
    (pid : ℕ) (table : ℕ → Task) (t q : ℕ) (xs : List ℕ) (x : ℕ)
    → Chain table t xs q
    → Distinct xs
    → unblock_from pid table t (length xs) x
      ≡ (if is_in x xs && waits_for (table x) pid then woken (table x) else table x)
unfolding unblock_from
unblock_from_lem pid table t q [] x h d = refl
unblock_from_lem pid table t q (y ∷ ys) x h d =
    let table1 = wake_one pid table t in
    let next_same : (table1 t).next ≡ (table t).next = ground (arith, wake_one_lem pid table t t) in
    let chain1 : Chain table1 (table1 t).next ys q =
      Chain-frame table table1 (table1 t).next ys q (wake_one-SameNext pid table t ys) (
        Chain-start table (table y).next (table1 t).next ys q (ground (arith, next_same, h.0))
          h.1) in
    ground (
      arith,
      unblock_from_lem pid table1 (table1 t).next q ys x chain1 d.1,
      wake_one_lem pid table t x,
      is_in-NotIn y ys d.0,
    )

module _ {s : Tasks} {c : ℕ} {xs : List ℕ} (r : IsRing s c xs) where
  -- `unblock_waiter` wakes exactly the tasks of the ring that wait for this pid, and changes
  -- nothing else.
  pub unblock_waiter_lem :
      (pid x : ℕ)
      → (unblock_waiter pid s).table x
        ≡ (if is_in x (c ∷ xs) && waits_for (s.table x) pid then woken (s.table x) else s.table x)
  unfolding unblock_waiter
  unblock_waiter_lem pid x = ground (
    arith,
    r.is_current,
    r.counted,
    unblock_from_lem pid s.table c c (c ∷ xs) x (refl, r.chain) r.apart,
    ap (λ n. unblock_from pid s.table c n x) r.counted,
  )

  -- `find_task_by_pid` answers the first task with the pid, from the current one on.
  pub find_task_by_pid-first_with :
      (pid : ℕ) → find_task_by_pid pid s ≡ first_with s.table pid (c ∷ xs)
  unfolding find_task_by_pid
  find_task_by_pid-first_with pid = ground (arith, r.is_current, found)
    where
      found : find_from s.table pid c s.task_count ≡ first_with s.table pid (c ∷ xs)
      found =
          ap (λ n. find_from s.table pid c n) r.counted
          ∙ find_from-first_with s.table pid c c (c ∷ xs) (refl, r.chain)

  unblock_waiter-SameNext :
      (pid : ℕ) (ys : List ℕ) → SameNext s.table (unblock_waiter pid s).table ys
  unblock_waiter-SameNext pid [] = tt
  unblock_waiter-SameNext pid (y ∷ ys) =
      (ground (arith, unblock_waiter_lem pid y), unblock_waiter-SameNext pid ys)

  unblock_waiter-current :
      (pid : ℕ)
      → ((unblock_waiter pid s).current ≡ some c)
        × ((unblock_waiter pid s).task_count ≡ s.task_count)
  unfolding unblock_waiter
  unblock_waiter-current pid = ground (arith, r.is_current)

  -- Waking changes no link.
  pub unblock_waiter-IsRing : (pid : ℕ) → IsRing (unblock_waiter pid s) c xs
  unblock_waiter-IsRing pid =
      let table' = (unblock_waiter pid s).table in
      let next_same : (table' c).next ≡ (s.table c).next =
        ground (arith, unblock_waiter_lem pid c) in
      record {
        is_current = (unblock_waiter-current pid).0;
        chain =
            Chain-frame s.table table' (table' c).next xs c (unblock_waiter-SameNext pid xs)
              (Chain-start s.table (s.table c).next (table' c).next xs c (sym next_same) r.chain);
        apart = r.apart;
        counted = (unblock_waiter-current pid).1 ∙ r.counted;
        few = r.few;
      }
