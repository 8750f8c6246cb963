-- ===== src/Task/Schedule.antt =====
-- `schedule` of kernel/drivers/task/task.c: round robin over the tasks that do not wait.
use deva.Prelude.{
  ℕ, zero, suc, ◌≤◌, ◌≡◌, ◌≢◌, refl, sym, ap, ◌⊎◌, false, Option, none, some, List, [], ◌∷◌, ◌++◌,
  arith, length, length-append, ◌==◌, if◌then◌else◌, Bool-cases, inl, inr,
}
use mathlib.Core.List.{append_assoc}
use deva.Task.{
  Task, max_tasks, is_waiting, Machine, context_switch, enter_space, switch_to, schedule,
}
use deva.Task.Ring.{
  IsRing, Chain-frame, Chain-append, Chain-start, SameNext, Chain-split, NotIn-append, append-NotIn,
  Distinct-split, Distinct-insert, Distinct-swap, first_ready, skip_waiting-first_ready,
}

-- `schedule` ends; it switches to the first task behind the current one that does not wait, and
-- does nothing if there is none.
pub schedule-first_ready :
    (m : Machine) {c : ℕ} (xs : List ℕ)
    → IsRing m.tasks c xs
    → schedule m ≡ (
        let t = first_ready m.tasks.table c xs in if t == c then some m else some (switch_to c t m))
unfolding schedule
schedule-first_ready m [] r = ground (arith, r.is_current, r.chain)
schedule-first_ready m {c} (x ∷ xs) r = ground (
  arith,
  r.is_current,
  r.chain.0,
  r.apart.0,
  skip_waiting-first_ready max_tasks m.tasks.table c (m.tasks.table c).next (x ∷ xs) r.chain
      r.apart.0 (omega (arith, r.few)),
)

-- Where the first ready task stands in the list.
pub ready_split :
    (table : ℕ → Task) (c : ℕ) (xs : List ℕ)
    → (first_ready table c xs ≡ c)
      ⊎ ((ys : List ℕ) × (zs : List ℕ) × (xs ≡ ys ++ (first_ready table c xs ∷ zs)))
ready_split table c [] = inl refl
ready_split table c (x ∷ xs) = elim (Bool-cases (is_waiting (table x).state)) [
  | inl waits ↦ elim (ready_split table c xs) [
    | inl e ↦ inl (ground arith)
    | inr (ys, zs, e) ↦ inr (x ∷ ys, zs, rw waits (ap (λ r. x ∷ r) e))
  ]
  | inr ready ↦ rw ready (inr ([], xs, refl))
]

-- A switch writes one `esp`, and leaves the links, the states and the pids.
switch_to-SameNext :
    (c t : ℕ) (m : Machine) (xs : List ℕ) → SameNext m.tasks.table (switch_to c t m).tasks.table xs
unfolding switch_to enter_space context_switch
switch_to-SameNext c t m [] = tt
switch_to-SameNext c t m (x ∷ xs) = (ground arith, switch_to-SameNext c t m xs)

switch_to-next :
    (c t x : ℕ) (m : Machine)
    → (((switch_to c t m).tasks.table x).next ≡ (m.tasks.table x).next)
      × (((switch_to c t m).tasks.table x).state ≡ (m.tasks.table x).state)
unfolding switch_to enter_space context_switch
switch_to-next c t x m = ground arith

switch_to-current :
    (c t : ℕ) (m : Machine)
    → ((switch_to c t m).tasks.current ≡ some t)
      × ((switch_to c t m).tasks.task_count ≡ m.tasks.task_count)
unfolding switch_to enter_space context_switch
switch_to-current c t m = ground arith

-- A switch saves the running stack pointer in the task that was current, loads that of the chosen
-- task, and enters its address space unless it has none.
pub switch_to_lem :
    (c t : ℕ) (m : Machine)
    → c ≢ t
    → (((switch_to c t m).tasks.table c).esp ≡ m.esp)
      × ((switch_to c t m).esp ≡ (m.tasks.table t).esp)
      × ((switch_to c t m).cr3
          ≡ (if (m.tasks.table t).cr3 == 0 then m.cr3 else (m.tasks.table t).cr3))
unfolding switch_to enter_space context_switch
switch_to_lem c t m ne = ground arith

-- After a switch to a task of the ring, the ring is the same, read from that task.
pub switch_to-IsRing :
    (m : Machine) (c t : ℕ) (ys zs : List ℕ)
    → IsRing m.tasks c (ys ++ (t ∷ zs))
    → IsRing (switch_to c t m).tasks t (zs ++ (c ∷ ys))
switch_to-IsRing m c t ys zs r =
    let (n, k, w, x) = Distinct-split t ys zs r.apart.1 in
    let (nc, kc) = NotIn-append c ys (t ∷ zs) r.apart.0 in
    let (front, back) = Chain-split m.tasks.table (m.tasks.table c).next c t ys zs r.chain in
    let whole =
      Chain-append m.tasks.table (m.tasks.table t).next c t zs (c ∷ ys) back (refl, front) in
    let table' = (switch_to c t m).tasks.table in
    record {
      is_current = (switch_to-current c t m).0;
      chain =
          Chain-frame m.tasks.table table' (table' t).next (zs ++ (c ∷ ys)) t
            (switch_to-SameNext c t m (zs ++ (c ∷ ys)))
            (Chain-start m.tasks.table (m.tasks.table t).next (table' t).next (zs ++ (c ∷ ys)) t
              (sym (switch_to-next c t t m).0) whole);
      apart = (
        append-NotIn t zs (c ∷ ys) k ((λ e. kc.0 (sym e)), n),
        Distinct-insert c zs ys (Distinct-swap ys zs w) kc.1 nc,
      );
      counted = omega (
        arith,
        r.counted,
        (switch_to-current c t m).1,
        length-append ys (t ∷ zs),
        length-append zs (c ∷ ys),
      );
      few = omega (arith, r.few, length-append ys (t ∷ zs), length-append zs (c ∷ ys));
    }

-- `n` calls of `schedule` in a row, as the timer makes them.
pub turns : ℕ → Machine → Option Machine
turns zero m = some m
turns (suc n) m = elim (schedule m) [ none ↦ none | some m' ↦ turns n m' ]

-- With a ready task `t` in the list, the first ready one is `t` or stands before it.
ready_before :
    (table : ℕ → Task) (c t : ℕ) (ys zs : List ℕ)
    → is_waiting (table t).state ≡ false
    → (first_ready table c (ys ++ (t ∷ zs)) ≡ t)
      ⊎ ((u : ℕ) × (front : List ℕ) × (back : List ℕ) × (ys ≡ front ++ (u ∷ back))
          × (first_ready table c (ys ++ (t ∷ zs)) ≡ u))
ready_before table c t [] zs h = inl (ground arith)
ready_before table c t (y ∷ ys) zs h = elim (Bool-cases (is_waiting (table y).state)) [
  | inl waits ↦ elim (ready_before table c t ys zs h) [
    | inl e ↦ inl (ground arith)
    | inr (u, front, back, e, f) ↦ inr (u, y ∷ front, back, ap (λ r. y ∷ r) e, ground arith)
  ]
  | inr ready ↦ inr (y, [], ys, refl, ground arith)
]

schedule_to :
    (m : Machine) (c u : ℕ) (xs : List ℕ)
    → IsRing m.tasks c xs
    → first_ready m.tasks.table c xs ≡ u
    → c ≢ u
    → schedule m ≡ some (switch_to c u m)
schedule_to m c u xs r e ne = ground (arith, schedule-first_ready m xs r)

-- The ring after a switch to a task before `t`: `t` is nearer.
nearer :
    (m : Machine) (c t u : ℕ) (front back zs : List ℕ)
    → IsRing m.tasks c ((front ++ (u ∷ back)) ++ (t ∷ zs))
    → IsRing (switch_to c u m).tasks u (back ++ (t ∷ (zs ++ (c ∷ front)))) × (c ≢ u)
nearer m c t u front back zs r =
    let r1 : IsRing m.tasks c (front ++ (u ∷ (back ++ (t ∷ zs)))) =
      rw (append_assoc front (u ∷ back) (t ∷ zs)) at r in
    let r2 = switch_to-IsRing m c u front (back ++ (t ∷ zs)) r1 in
    let (nc, kc) = NotIn-append c front (u ∷ (back ++ (t ∷ zs))) r1.apart.0 in
    (rw (append_assoc back (t ∷ zs) (c ∷ front)) at r2, kc.0)

reached :
    (m : Machine) (c t : ℕ) (ys zs : List ℕ) (n : ℕ)
    → IsRing m.tasks c (ys ++ (t ∷ zs))
    → first_ready m.tasks.table c (ys ++ (t ∷ zs)) ≡ t
    → (k : ℕ) × (m' : Machine) × (k ≤ suc n) × (turns k m ≡ some m') × (m'.tasks.current ≡ some t)
unfolding turns
reached m c t ys zs n r e =
    let (nc, kc) = NotIn-append c ys (t ∷ zs) r.apart.0 in
    (
      suc zero,
      switch_to c t m,
      omega arith,
      ground (arith, schedule_to m c t (ys ++ (t ∷ zs)) r e kc.0),
      (switch_to-current c t m).0,
    )

-- No starvation: a task that does not wait, with `n` tasks or fewer between the current one and
-- itself, becomes current within `n + 1` calls of `schedule`.
pub turns_reach :
    (n : ℕ) (m : Machine) (c t : ℕ) (ys zs : List ℕ)
    → IsRing m.tasks c (ys ++ (t ∷ zs))
    → is_waiting (m.tasks.table t).state ≡ false
    → length ys ≤ n
    → (k : ℕ) × (m' : Machine) × (k ≤ suc n) × (turns k m ≡ some m') × (m'.tasks.current ≡ some t)
unfolding turns
turns_reach zero m c t [] zs r ready le = reached m c t [] zs zero r (ground arith)
turns_reach zero m c t (y ∷ ys) zs r ready le = absurd (omega arith)
turns_reach (suc n) m c t ys zs r ready le = elim (ready_before m.tasks.table c t ys zs ready) [
  | inl e ↦ reached m c t ys zs (suc n) r e
  | inr (u, front, back, eq, f) ↦
      let r1 : IsRing m.tasks c ((front ++ (u ∷ back)) ++ (t ∷ zs)) = rw eq at r in
      let (r2, ne) = nearer m c t u front back zs r1 in
      let step = schedule_to m c u (ys ++ (t ∷ zs)) r f ne in
      let ready' : is_waiting ((switch_to c u m).tasks.table t).state ≡ false =
        ground (arith, (switch_to-next c u t m).1) in
      let short : length back ≤ n = omega (arith, ap length eq, length-append front (u ∷ back)) in
      let (k, m', small, run, there) =
        turns_reach n (switch_to c u m) u t back (zs ++ (c ∷ front)) r2 ready' short in
      (suc k, m', omega arith, ground (arith, step), there)
]
