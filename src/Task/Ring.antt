-- ===== src/Task/Ring.antt =====
-- The circular list of the tasks, kernel/drivers/task/task.c: the invariant that the scheduler
-- relies on, and how far one has to walk round the ring.
use deva.Prelude.{
  ℕ, zero, suc, ◌≤◌, ◌<◌, ◌≡◌, refl, sym, ap, Option, none, some, List, [], ◌∷◌, ◌++◌, arith,
  length, ◌==◌, if◌then◌else◌, Bool-cases, inl, inr, NotIn, Distinct,
}
use mathlib.Core.List.{append-nil}
use deva.Task.{Task, Tasks, max_tasks, set_next, find_prev, find_from, skip_waiting, is_waiting}

-- From `p` the `next` fields lead through `xs`, in order, to `q`.
abbrev pub Chain : (ℕ → Task) → ℕ → List ℕ → ℕ → Type 0
Chain table p [] q = p ≡ q
Chain table p (x ∷ xs) q = (p ≡ x) × Chain table (table x).next xs q

-- The current task is `c`, and behind it come `xs` and then `c` again; all of them are different
-- and `task_count` counts them.
pub record IsRing (s : Tasks) (c : ℕ) (xs : List ℕ) : Type 0 where
  pub is_current : s.current ≡ some c
  pub chain : Chain s.table (s.table c).next xs c
  pub apart : Distinct (c ∷ xs)
  pub counted : s.task_count ≡ suc (length xs)
  pub few : suc (length xs) ≤ max_tasks

-- A chain depends on the `next` fields of its members alone.
abbrev pub SameNext : (ℕ → Task) → (ℕ → Task) → List ℕ → Type 0
SameNext table table' [] = Unit {0}
SameNext table table' (x ∷ xs) = ((table' x).next ≡ (table x).next) × SameNext table table' xs

pub Chain-frame :
    (table table' : ℕ → Task) (p : ℕ) (xs : List ℕ) (q : ℕ)
    → SameNext table table' xs
    → Chain table p xs q
    → Chain table' p xs q
Chain-frame table table' p [] q same h = h
Chain-frame table table' p (x ∷ xs) q same h =
    (h.0, Chain-frame table table' (table' x).next xs q same.1 (rw (same.0) h.1))

-- A write of the `next` field outside the list keeps those of the list.
pub SameNext-set_next :
    (table : ℕ → Task) (t q : ℕ) (xs : List ℕ) → NotIn t xs → SameNext table (set_next table t q) xs
SameNext-set_next table t q [] n = tt
SameNext-set_next table t q (x ∷ xs) n = (ground arith, SameNext-set_next table t q xs n.1)

pub Chain-start :
    (table : ℕ → Task) (p p' : ℕ) (xs : List ℕ) (q : ℕ)
    → p ≡ p'
    → Chain table p xs q
    → Chain table p' xs q
Chain-start table p p' xs q e h = rw e at h

pub Chain-end :
    (table : ℕ → Task) (p : ℕ) (xs : List ℕ) (q q' : ℕ)
    → q ≡ q'
    → Chain table p xs q
    → Chain table p xs q'
Chain-end table p xs q q' e h = rw e at h

pub Chain-append :
    (table : ℕ → Task) (p q r : ℕ) (xs ys : List ℕ)
    → Chain table p xs q
    → Chain table q ys r
    → Chain table p (xs ++ ys) r
Chain-append table p q r [] ys h k = rw h k
Chain-append table p q r (x ∷ xs) ys h k = (h.0, Chain-append table (table x).next q r xs ys h.1 k)

-- Where the walk along `xs` stands when it meets `y`.
pub Chain-split :
    (table : ℕ → Task) (p r y : ℕ) (xs ys : List ℕ)
    → Chain table p (xs ++ (y ∷ ys)) r
    → Chain table p xs y × Chain table (table y).next ys r
Chain-split table p r y [] ys h = (h.0, h.1)
Chain-split table p r y (x ∷ xs) ys h =
    let (a, b) = Chain-split table (table x).next r y xs ys h.1 in ((h.0, a), b)

pub NotIn-append : (a : ℕ) (xs ys : List ℕ) → NotIn a (xs ++ ys) → NotIn a xs × NotIn a ys
NotIn-append a [] ys n = (tt, n)
NotIn-append a (x ∷ xs) ys n = let (u, v) = NotIn-append a xs ys n.1 in ((n.0, u), v)

pub append-NotIn : (a : ℕ) (xs ys : List ℕ) → NotIn a xs → NotIn a ys → NotIn a (xs ++ ys)
append-NotIn a [] ys n k = k
append-NotIn a (x ∷ xs) ys n k = (n.0, append-NotIn a xs ys n.1 k)

-- The last member of `c ∷ xs`.
abbrev pub last_of : ℕ → List ℕ → ℕ
last_of c [] = c
last_of c (x ∷ xs) = last_of x xs

-- The walk that looks for the task before `t` stops at the one before `t` in the ring.
pub find_prev_lem :
    (fuel : ℕ) (table : ℕ → Task) (t p : ℕ) (xs : List ℕ)
    → Chain table (table p).next xs t
    → NotIn t xs
    → length xs < fuel
    → find_prev fuel table t p ≡ some (last_of p xs)
unfolding find_prev
find_prev_lem zero table t p xs h n lt = absurd (omega arith)
find_prev_lem (suc fuel) table t p [] h n lt = ground arith
find_prev_lem (suc fuel) table t p (x ∷ xs) h n lt =
    let h' : Chain table (table x).next xs t = h.1 in
    ground (arith, find_prev_lem fuel table t x xs h' n.1)

-- The first member of a list with this pid.
abbrev pub first_with : (ℕ → Task) → ℕ → List ℕ → Option ℕ
first_with table pid [] = none
first_with table pid (x ∷ xs) = if (table x).id == pid then some x else first_with table pid xs

pub find_from-first_with :
    (table : ℕ → Task) (pid p q : ℕ) (xs : List ℕ)
    → Chain table p xs q
    → find_from table pid p (length xs) ≡ first_with table pid xs
unfolding find_from
find_from-first_with table pid p q [] h = refl
find_from-first_with table pid p q (x ∷ xs) h =
    let found = find_from-first_with table pid (table x).next q xs h.1 in ground (arith, found)

-- The first member that does not wait, or `c`.
abbrev pub first_ready : (ℕ → Task) → ℕ → List ℕ → ℕ
first_ready table c [] = c
first_ready table c (x ∷ xs) = if is_waiting (table x).state then first_ready table c xs else x

pub skip_waiting-first_ready :
    (fuel : ℕ) (table : ℕ → Task) (c p : ℕ) (xs : List ℕ)
    → Chain table p xs c
    → NotIn c xs
    → length xs < fuel
    → skip_waiting fuel table c p ≡ some (first_ready table c xs)
unfolding skip_waiting
skip_waiting-first_ready zero table c p xs h n lt = absurd (omega arith)
skip_waiting-first_ready (suc fuel) table c p [] h n lt = ground arith
skip_waiting-first_ready (suc fuel) table c p (x ∷ xs) h n lt =
    ground (arith, skip_waiting-first_ready fuel table c (table x).next xs h.1 n.1)

-- A task that is found is a member.
pub split_first_with :
    (table : ℕ → Task) (pid t : ℕ) (xs : List ℕ)
    → first_with table pid xs ≡ some t
    → (ys : List ℕ) × (zs : List ℕ) × (xs ≡ ys ++ (t ∷ zs)) × ((table t).id ≡ pid)
split_first_with table pid t [] e = absurd (cc)
split_first_with table pid t (x ∷ xs) e = elim (Bool-cases ((table x).id == pid)) [
  | inl here ↦ ([], xs, ground arith, ground arith)
  | inr later ↦
      let (ys, zs, eq, same) = split_first_with table pid t xs (ground arith) in
      (x ∷ ys, zs, ap (λ r. x ∷ r) eq, same)
]

-- Taking one member out of a list of different ones.
pub Distinct-split :
    (t : ℕ) (ys zs : List ℕ)
    → Distinct (ys ++ (t ∷ zs))
    → NotIn t ys × NotIn t zs × Distinct (ys ++ zs) × Distinct ys
Distinct-split t [] zs d = (tt, d.0, d.1, tt)
Distinct-split t (y ∷ ys) zs d =
    let (u, v, w, x) = Distinct-split t ys zs d.1 in
    let (n, k) = NotIn-append y ys (t ∷ zs) d.0 in
    ((λ e. k.0 (sym e), u), v, (append-NotIn y ys zs n k.1, w), (n, x))

pub Distinct-insert :
    (a : ℕ) (xs ys : List ℕ)
    → Distinct (xs ++ ys)
    → NotIn a xs
    → NotIn a ys
    → Distinct (xs ++ (a ∷ ys))
Distinct-insert a [] ys d n k = (k, d)
Distinct-insert a (x ∷ xs) ys d n k =
    let (u, v) = NotIn-append x xs ys d.0 in
    (append-NotIn x xs (a ∷ ys) u ((λ e. n.0 (sym e)), v), Distinct-insert a xs ys d.1 n.1 k)

-- Two parts of a list of different members change places.
pub Distinct-swap : (xs ys : List ℕ) → Distinct (xs ++ ys) → Distinct (ys ++ xs)
Distinct-swap [] ys d = rw append-nil d
Distinct-swap (x ∷ xs) ys d =
    let (u, v) = NotIn-append x xs ys d.0 in Distinct-insert x ys xs (Distinct-swap xs ys d.1) v u
