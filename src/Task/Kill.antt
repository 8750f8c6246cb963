-- ===== src/Task/Kill.antt =====
-- `kill_task` of kernel/drivers/task/task.c: unlinking from the ring.
use deva.Prelude.{
  ℕ, ◌-◌, ◌≡◌, ◌≢◌, refl, ap, ◌∙◌, false, Option, none, some, List, [], ◌∷◌, ◌++◌, arith,
  length-append, ◌==◌, Bool-cases, Option-cases, inl, inr, Distinct, NotIn,
}
use deva.Task.{Task, Tasks, max_tasks, set_next, find_from, remove_task, kill_task}
use deva.Task.Ring.{
  IsRing, Chain, Chain-frame, SameNext-set_next, Chain-split, Chain-append, NotIn-append,
  append-NotIn, Distinct-split, Chain-end, last_of, find_prev_lem, first_with, find_from-first_with,
  split_first_with,
}

ne_last_of : (c y : ℕ) (ys : List ℕ) → NotIn c (y ∷ ys) → c ≢ last_of y ys
ne_last_of c y [] n = n.0
ne_last_of c y (z ∷ zs) n = ne_last_of c z zs n.1

-- A write of the last member's `next` field turns the end of the chain.
Chain-relink :
    (table : ℕ → Task) (c t q : ℕ) (ys : List ℕ)
    → Chain table (table c).next ys t
    → Distinct (c ∷ ys)
    → Chain (set_next table (last_of c ys) q) (set_next table (last_of c ys) q c).next ys q
Chain-relink table c t q [] h d = ground arith
Chain-relink table c t q (y ∷ ys) h d =
    (ground (arith, ne_last_of c y ys d.0), Chain-relink table y t q ys h.1 d.1)

last_of-NotIn : (c : ℕ) (ys zs : List ℕ) → Distinct (c ∷ (ys ++ zs)) → NotIn (last_of c ys) zs
last_of-NotIn c [] zs d = d.0
last_of-NotIn c (y ∷ ys) zs d = last_of-NotIn y ys zs d.1

-- A write of the link keeps these.
abbrev pub SameBesideNext : Task → Task → Type 0
SameBesideNext a b = (b.state ≡ a.state) × (b.esp ≡ a.esp) × (b.cr3 ≡ a.cr3)

module _ {s : Tasks} {c : ℕ} where
  -- The task `t` inside the ring is unlinked, and the others keep their order.
  remove_other :
      (t : ℕ) (ys zs : List ℕ)
      → IsRing s c (ys ++ (t ∷ zs))
      → (s' : Tasks) × (remove_task t c s ≡ some s') × IsRing s' c (ys ++ zs)
  unfolding remove_task
  remove_other t ys zs r =
      let (n, k, w, x) = Distinct-split t ys zs r.apart.1 in
      let (nc, kc) = NotIn-append c ys (t ∷ zs) r.apart.0 in
      let (front, back) = Chain-split s.table (s.table c).next c t ys zs r.chain in
      let table' = set_next s.table (last_of c ys) (s.table t).next in
      let ne : (t == c) ≡ false = ground (arith, kc.0) in
      let found =
        find_prev_lem max_tasks s.table t c ys front n
          (omega (arith, r.few, length-append ys (t ∷ zs))) in
      let apart' : Distinct (c ∷ (ys ++ zs)) = (append-NotIn c ys zs nc kc.1, w) in
      (
        record s { table = table'; task_count = s.task_count - 1 },
        ground (arith, found, ne),
        record {
          is_current = r.is_current;
          chain =
              Chain-append table' (table' c).next (s.table t).next c ys zs
                (Chain-relink s.table c t (s.table t).next ys front (nc, x))
                (Chain-frame s.table table' (s.table t).next zs c
                  (SameNext-set_next s.table (last_of c ys) (s.table t).next zs
                    (last_of-NotIn c ys zs apart'))
                  back);
          apart = apart';
          counted = omega (arith, r.counted, length-append ys (t ∷ zs), length-append ys zs);
          few = omega (arith, r.few, length-append ys (t ∷ zs), length-append ys zs);
        },
      )

  -- The current task is unlinked, and the next one becomes current; only links change.
  remove_current :
      (x : ℕ) (xs : List ℕ)
      → IsRing s c (x ∷ xs)
      → (s' : Tasks) × (remove_task c c s ≡ some s')
        × IsRing s' x xs
        × ((i : ℕ) → SameBesideNext (s.table i) (s'.table i))
  unfolding remove_task
  remove_current x xs r =
      let found =
        find_prev_lem max_tasks s.table c c (x ∷ xs) r.chain r.apart.0 (omega (arith, r.few)) in
      let ne = ne_last_of c x xs r.apart.0 in
      let table' = set_next s.table (last_of x xs) (s.table c).next in
      let relinked = Chain-relink s.table x c (s.table c).next xs r.chain.1 r.apart.1 in
      (
        record s { table = table'; task_count = s.task_count - 1; current = some (table' c).next },
        ground (arith, found),
        record {
          is_current = ground (arith, ne, r.chain.0);
          chain = Chain-end table' (table' x).next xs (s.table c).next x r.chain.0 relinked;
          apart = r.apart.1;
          counted = omega (arith, r.counted);
          few = omega (arith, r.few);
        },
        λ i. (ground arith, ground arith, ground arith),
      )

-- What can become of a call of `kill_task` on a ring with current task `c` and rest `xs`.
pub data Outcome (pid : ℕ) (s : Tasks) (c : ℕ) (xs : List ℕ) : Type 0 where
  -- No task has the pid, and nothing changes.
  nobody : first_with s.table pid (c ∷ xs) ≡ none → kill_task pid s ≡ some s → Outcome pid s c xs
  -- The current task is alone: it stays current, and only the count falls.
  alone :
      (s' : Tasks)
      → xs ≡ []
      → (s.table c).id ≡ pid
      → kill_task pid s ≡ some s'
      → s'.current ≡ some c
      → s'.task_count ≡ 0
      → Outcome pid s c xs
  -- The current task goes, and the next one becomes current.
  current_gone :
      (s' : Tasks) (x : ℕ) (rest : List ℕ)
      → xs ≡ x ∷ rest
      → (s.table c).id ≡ pid
      → kill_task pid s ≡ some s'
      → IsRing s' x rest
      → Outcome pid s c xs
  -- Another task goes, and the current one stays.
  other_gone :
      (s' : Tasks) (t : ℕ) (ys zs : List ℕ)
      → xs ≡ ys ++ (t ∷ zs)
      → (s.table t).id ≡ pid
      → kill_task pid s ≡ some s'
      → IsRing s' c (ys ++ zs)
      → Outcome pid s c xs

module _ (pid : ℕ) {s : Tasks} {c : ℕ} where
  found_in_ring :
      (xs : List ℕ)
      → IsRing s c xs
      → find_from s.table pid c s.task_count ≡ first_with s.table pid (c ∷ xs)
  found_in_ring xs r =
      ap (λ n. find_from s.table pid c n) r.counted
      ∙ find_from-first_with s.table pid c c (c ∷ xs) (refl, r.chain)

  kill_found :
      (xs : List ℕ) (t : ℕ) {o : Option Tasks}
      → IsRing s c xs
      → first_with s.table pid (c ∷ xs) ≡ some t
      → remove_task t c s ≡ o
      → kill_task pid s ≡ o
  unfolding kill_task
  kill_found xs t r e q = ground (arith, r.is_current, found_in_ring xs r)

  kill_nobody :
      (xs : List ℕ)
      → IsRing s c xs
      → first_with s.table pid (c ∷ xs) ≡ none
      → kill_task pid s ≡ some s
  unfolding kill_task
  kill_nobody xs r e = ground (arith, r.is_current, found_in_ring xs r)

  kill_current : (xs : List ℕ) → IsRing s c xs → (s.table c).id ≡ pid → Outcome pid s c xs
  unfolding remove_task
  kill_current [] r e =
      let found = find_prev_lem max_tasks s.table c c [] r.chain tt (omega arith) in
      let table' = set_next s.table c (s.table c).next in
      let s' : Tasks = record s {
        table = table';
        task_count = s.task_count - 1;
        current = some (table' c).next;
      } in
      alone s' refl e (kill_found [] c r (ground arith) (ground (arith, found)))
        (ground (arith, r.chain)) (omega (arith, r.counted))
  kill_current (x ∷ xs) r e =
      let (s', q, r', same) = remove_current x xs r in
      current_gone s' x xs refl e (kill_found (x ∷ xs) c r (ground arith) q) r'

  kill_other :
      (xs : List ℕ) (t : ℕ)
      → IsRing s c xs
      → first_with s.table pid (c ∷ xs) ≡ some t
      → first_with s.table pid xs ≡ some t
      → Outcome pid s c xs
  kill_other xs t r e e' =
      let (ys, zs, eq, same) = split_first_with s.table pid t xs e' in
      let r1 : IsRing s c (ys ++ (t ∷ zs)) = rw eq at r in
      let (s', q, r') = remove_other t ys zs r1 in
      other_gone s' t ys zs eq same (kill_found xs t r e q) r'

  -- `kill_task` on a ring ends in one of these ways: the task with the pid is unlinked, and the
  -- others keep their order in the ring; or there is none and nothing changes; or it is the last
  -- one, which stays current.
  pub kill_task_lem : (xs : List ℕ) → IsRing s c xs → Outcome pid s c xs
  kill_task_lem xs r = elim (Bool-cases ((s.table c).id == pid)) [
    | inl here ↦ kill_current xs r (ground arith)
    | inr other ↦ elim (Option-cases (first_with s.table pid xs)) [
      | inl e ↦ nobody (ground arith) (kill_nobody xs r (ground arith))
      | inr (t, e) ↦ kill_other xs t r (ground arith) e
    ]
  ]

  -- The current task kills itself, with others in the ring.
  pub kill_task-IsRing :
      (x : ℕ) (xs : List ℕ)
      → IsRing s c (x ∷ xs)
      → (s.table c).id ≡ pid
      → (s' : Tasks) × (kill_task pid s ≡ some s')
        × IsRing s' x xs
        × ((i : ℕ) → SameBesideNext (s.table i) (s'.table i))
  kill_task-IsRing x xs r e =
      let (s', q, r', same) = remove_current x xs r in
      (s', kill_found (x ∷ xs) c r (ground arith) q, r', same)
