-- ===== src/Heap/FreeList.antt =====
-- The free list of kernel/drivers/mm/mm.c: a chain of blocks, and what the walks of `malloc` and
-- `free` find in it.
use deva.Prelude.{
  ℕ, zero, suc, ◌+◌, ◌≤◌, ◌<◌, ◌≡◌, ◌≢◌, ◌⊎◌, inl, inr, refl, ap, ◌∙◌, Bool, true, false, none,
  some, List, [], ◌∷◌, ◌++◌, arith, ◌==◌, if◌then◌else◌, Bool-cases, length,
}
use deva.Heap.{next_of, walk}

-- How often an address stands in a list.
abbrev pub count : ℕ → List ℕ → ℕ
count y [] = 0
count y (x ∷ xs) = (if x == y then 1 else 0) + count y xs

pub count-append : (y : ℕ) (xs ys : List ℕ) → count y (xs ++ ys) ≡ count y xs + count y ys
count-append y [] ys = omega arith
count-append y (x ∷ xs) ys = omega (arith, count-append y xs ys)

-- From the pointer `p`, the blocks `xs`, and then NULL.
abbrev pub Chain : (ℕ → ℕ) → ℕ → List ℕ → Type 0
Chain w p [] = p ≡ 0
Chain w p (x ∷ xs) = (p ≡ x) × (x ≢ 0) × Chain w (w (next_of x)) xs

-- What a walk over the list finds, the blocks before it and those after it.
abbrev pub pick : (ℕ → Bool) → ℕ → List ℕ → ℕ × ℕ
pick test prev [] = (prev, 0)
pick test prev (x ∷ xs) = let rest = pick test x xs in if test x then (prev, x) else rest

abbrev pub before : (ℕ → Bool) → List ℕ → List ℕ
before test [] = []
before test (x ∷ xs) = let rest = before test xs in if test x then [] else x ∷ rest

abbrev pub after : (ℕ → Bool) → List ℕ → List ℕ
after test [] = []
after test (x ∷ xs) = let rest = after test xs in if test x then xs else rest

pub walk-pick :
    (fuel : ℕ) (w : ℕ → ℕ) (test : ℕ → Bool) (prev cur : ℕ) (xs : List ℕ)
    → Chain w cur xs
    → length xs < fuel
    → walk fuel w test prev cur ≡ some (pick test prev xs)
unfolding walk
walk-pick zero w test prev cur xs c h = ground (arith, h)
walk-pick (suc fuel) w test prev cur [] c h = ground arith
walk-pick (suc fuel) w test prev cur (x ∷ xs) c h =
    let ih = walk-pick fuel w test x (w (next_of x)) xs c.2 (omega (arith, h)) in
    rw c.0 (ground (arith, ih, c.1))

-- The walk finds a member that passes the test.
pub pick-Found :
    (w : ℕ → ℕ) (test : ℕ → Bool) (prev cur : ℕ) (xs : List ℕ)
    → Chain w cur xs
    → (pick test prev xs).1 ≢ 0
    → (test (pick test prev xs).1 ≡ true)
      × ((y : ℕ)
          → count y xs
            ≡ (if (pick test prev xs).1 == y then 1 else 0)
              + count y (before test xs ++ after test xs))
pick-Found w test prev cur [] c found = absurd (found refl)
pick-Found w test prev cur (x ∷ xs) c found = elim (Bool-cases (test x)) [
  | inl t ↦ rw t (t, λ y. ground arith)
  | inr t ↦ (
    ground (arith, t, (pick-Found w test x (w (next_of x)) xs c.2 (ground (arith, t, found))).0),
    λ y.
        ground
          (arith, t, (pick-Found w test x (w (next_of x)) xs c.2 (ground (arith, t, found))).1 y),
  )
]

-- The block before it is a member of what stands before, unless the walk stopped at the head.
pub pick-prev :
    (test : ℕ → Bool) (prev : ℕ) (xs : List ℕ)
    → (pick test prev xs).1 ≢ 0
    → ((pick test prev xs).0 ≡ prev) ⊎ (1 ≤ count (pick test prev xs).0 (before test xs))
pick-prev test prev [] found = inl refl
pick-prev test prev (x ∷ xs) found = elim (Bool-cases (test x)) [
  | inl t ↦ ground (arith, t)
  | inr t ↦ ground (arith, t, pick-prev test x xs (ground (arith, t, found)))
]

pub Chain-after :
    (w : ℕ → ℕ) (test : ℕ → Bool) (prev cur : ℕ) (xs : List ℕ)
    → Chain w cur xs
    → (pick test prev xs).1 ≢ 0
    → Chain w (w (next_of (pick test prev xs).1)) (after test xs)
Chain-after w test prev cur [] c found = absurd (found refl)
Chain-after w test prev cur (x ∷ xs) c found = elim (Bool-cases (test x)) [
  | inl t ↦ rw t c.2
  | inr t ↦ rw t (Chain-after w test x (w (next_of x)) xs c.2 (ground (arith, t, found)))
]

before_le : (test : ℕ → Bool) (xs : List ℕ) (y : ℕ) → count y (before test xs) ≤ count y xs
before_le test [] y = ground arith
before_le test (x ∷ xs) y = ground (arith, before_le test xs y)

-- The chain after a write that leaves its links alone.
pub Chain-frame :
    (w w' : ℕ → ℕ) (cur : ℕ) (xs : List ℕ)
    → ((y : ℕ) → 1 ≤ count y xs → w' (next_of y) ≡ w (next_of y))
    → Chain w cur xs
    → Chain w' cur xs
Chain-frame w w' cur [] same c = c
Chain-frame w w' cur (x ∷ xs) same c = (
  c.0,
  c.1,
  rw (same x (ground arith))
      (Chain-frame w w' (w (next_of x)) xs (λ y h. same y (ground (arith, h))) c.2),
)

-- The block before the one found points to `t`, where another chain starts.
pub Chain-relink :
    (w w' : ℕ → ℕ) (test : ℕ → Bool) (prev cur t : ℕ) (xs ys : List ℕ)
    → Chain w cur xs
    → (pick test prev xs).1 ≢ 0
    → ((y : ℕ) → count y xs ≤ 1)
    → count prev xs ≡ 0
    → ((y : ℕ)
        → 1 ≤ count y (before test xs)
        → y ≢ (pick test prev xs).0
        → w' (next_of y) ≡ w (next_of y))
    → ((pick test prev xs).0 ≢ prev → w' (next_of (pick test prev xs).0) ≡ t)
    → Chain w' t ys
    → Chain w' (if (pick test prev xs).0 == prev then t else cur) (before test xs ++ ys)
Chain-relink w w' test prev cur t [] ys c found once new same turned d = absurd (found refl)
Chain-relink w w' test prev cur t (x ∷ xs) ys c found once new same turned d =
    elim (Bool-cases (test x)) [
      | inl t' ↦ rw t' (ground (arith, d))
      | inr t' ↦
          let found' : (pick test x xs).1 ≢ 0 = ground (arith, t', found) in
          let fresh : count x xs ≡ 0 = ground (arith, once x) in
          let p = (pick test x xs).0 in
          let e : (pick test prev (x ∷ xs)).0 ≡ p = ground (arith, t') in
          let member : p ≡ prev → count p xs ≡ count prev xs = λ e'. ap (λ z. count z xs) e' in
          let moved : p ≢ prev =
            ground (arith, pick-prev test x xs found', before_le test xs p, new, member) in
          let ih =
            Chain-relink w w' test x (w (next_of x)) t xs ys c.2 found'
              (λ y. ground (arith, once y)) fresh
              (λ y h ne. same y (ground (arith, t', h)) (ground (arith, e, ne)))
              (λ ne. ground (arith, e, turned (ground (arith, e, moved)))) d in
          let turned' : w' (next_of p) ≡ t = ground (arith, e, turned (ground (arith, e, moved))) in
          let same' : x ≢ p → w' (next_of x) ≡ w (next_of x) =
            λ ne. same x (ground (arith, t')) (ground (arith, e, ne)) in
          let linked : w' (next_of x) ≡ (if p == x then t else w (next_of x)) =
            ground (arith, turned', same') in
          rw (e, t') (ground (arith, moved, c.0), c.1, rw linked ih)
    ]

pub pick-ne :
    (test : ℕ → Bool) (prev : ℕ) (xs : List ℕ)
    → ((y : ℕ) → count y xs ≤ 1)
    → count prev xs ≡ 0
    → (pick test prev xs).1 ≢ 0
    → (pick test prev xs).0 ≢ (pick test prev xs).1
pick-ne test prev [] once new found = absurd (found refl)
pick-ne test prev (x ∷ xs) once new found = elim (Bool-cases (test x)) [
  | inl t ↦ ground (arith, t, new)
  | inr t ↦ ground (
    arith,
    t,
    pick-ne test x xs (λ y. ground (arith, once y)) (ground (arith, once x))
        (ground (arith, t, found)),
  )
]

pub pick-some :
    (w : ℕ → ℕ) (test : ℕ → Bool) (prev cur x : ℕ) (xs : List ℕ)
    → Chain w cur xs
    → 1 ≤ count x xs
    → test x ≡ true
    → (pick test prev xs).1 ≢ 0
pick-some w test prev cur x [] c m t = ground (arith, m)
pick-some w test prev cur x (y ∷ xs) c m t = elim (Bool-cases (test y)) [
  | inl u ↦ ground (arith, u, c.1)
  | inr u ↦
      let other : x ≢ y = λ e. ground (arith, t, ap test e, u) in
      ground (arith, u, pick-some w test y (w (next_of y)) x xs c.2 (ground (arith, m, other)) t)
]

pub pick-length :
    (test : ℕ → Bool) (prev : ℕ) (xs : List ℕ)
    → (pick test prev xs).1 ≢ 0
    → length xs ≡ length (before test xs ++ after test xs) + 1
pick-length test prev [] found = absurd (found refl)
pick-length test prev (x ∷ xs) found = elim (Bool-cases (test x)) [
  | inl t ↦ ground (arith, t)
  | inr t ↦ ground (arith, t, pick-length test x xs (ground (arith, t, found)))
]

-- Where no member passes the test, the walk comes to the end, or out of fuel.
pub walk-fails :
    (fuel : ℕ) (w : ℕ → ℕ) (test : ℕ → Bool) (prev cur : ℕ) (xs : List ℕ)
    → Chain w cur xs
    → ((y : ℕ) → 1 ≤ count y xs → test y ≡ false)
    → (walk fuel w test prev cur ≡ none) ⊎ ((p : ℕ) × (walk fuel w test prev cur ≡ some (p, 0)))
unfolding walk
walk-fails zero w test prev cur xs c no_test = inl refl
walk-fails (suc fuel) w test prev cur [] c no_test = inr (prev, ground arith)
walk-fails (suc fuel) w test prev cur (x ∷ xs) c no_test =
    let passed = no_test x (ground arith) in
    let step : walk (suc fuel) w test prev x ≡ walk fuel w test x (w (next_of x)) =
      ground (arith, passed, c.1) in
    rw c.0
      (elim (walk-fails fuel w test x (w (next_of x)) xs c.2
        (λ y m. no_test y (ground (arith, m)))) [
          | inl e ↦ inl (step ∙ e)
          | inr e ↦ inr (e.0, step ∙ e.1)
        ])

pub pick-none :
    (test : ℕ → Bool) (prev : ℕ) (xs : List ℕ)
    → ((y : ℕ) → 1 ≤ count y xs → test y ≡ false)
    → (pick test prev xs).1 ≡ 0
pick-none test prev [] no_test = refl
pick-none test prev (x ∷ xs) no_test =
    ground (arith, no_test x, pick-none test x xs (λ y m. no_test y (ground (arith, m))))
