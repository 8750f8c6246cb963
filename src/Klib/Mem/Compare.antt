-- ===== src/Klib/Mem/Compare.antt =====
-- What `memcmp` and `memchr` of kernel/klib/string/string.c answer.
use deva.Prelude.{
  ℕ, zero, suc, ◌+◌, ◌%◌, ◌≤◌, ◌<◌, ◌≡◌, ◌≢◌, refl, ◌⊎◌, inl, inr, arith, ◌==◌, Bool-cases, Option,
  none, some,
}
use deva.Prelude.Int.{pos, sub_ℕ}
use deva.Klib.Mem.{Mem, memcmp, memchr}

-- The first place where the two regions of `n` bytes differ is `i`.
pub record Differs (m : Mem) (p1 p2 n i : ℕ) : Type 0 where
  pub below : i < n
  pub before : (j : ℕ) → j < i → m (p1 + j) ≡ m (p2 + j)
  pub at : m (p1 + i) ≢ m (p2 + i)

abbrev pub Compared : Mem → ℕ → ℕ → ℕ → Type 0
Compared m p1 p2 n =
    ((memcmp m p1 p2 n ≡ pos 0) × ((j : ℕ) → j < n → m (p1 + j) ≡ m (p2 + j)))
    ⊎ ((i : ℕ) × Differs m p1 p2 n i × (memcmp m p1 p2 n ≡ sub_ℕ (m (p1 + i)) (m (p2 + i))))

Compared-here : (m : Mem) (p1 p2 n : ℕ) → m p1 ≢ m p2 → Compared m p1 p2 (suc n)
unfolding memcmp
Compared-here m p1 p2 n ne = inr (
  0,
  record { below = omega arith; before = λ j h. absurd (omega arith); at = ground arith },
  ground arith,
)

shift_before :
    (m : Mem) (p1 p2 i : ℕ)
    → m p1 ≡ m p2
    → ((j : ℕ) → j < i → m (p1 + 1 + j) ≡ m (p2 + 1 + j))
    → (j : ℕ) → j < suc i
    → m (p1 + j) ≡ m (p2 + j)
shift_before m p1 p2 i e h zero lt = ground arith
shift_before m p1 p2 i e h (suc j) lt = ground (arith, h j)

Compared-later :
    (m : Mem) (p1 p2 n : ℕ)
    → m p1 ≡ m p2
    → Compared m (p1 + 1) (p2 + 1) n
    → Compared m p1 p2 (suc n)
unfolding memcmp
Compared-later m p1 p2 n e (inl (z, h)) = inl (ground arith, shift_before m p1 p2 n e h)
Compared-later m p1 p2 n e (inr (i, d, r)) = inr (
  suc i,
  record {
    below = omega (arith, d.below);
    before = shift_before m p1 p2 i e d.before;
    at = ground (arith, d.at);
  },
  ground arith,
)

-- `memcmp` is 0 and the regions are equal, or its result is the difference of the two bytes, as
-- unsigned numbers, at the first place where the regions differ.
pub memcmp_lem : (m : Mem) (p1 p2 n : ℕ) → Compared m p1 p2 n
unfolding memcmp
memcmp_lem m p1 p2 zero = inl (refl, λ j h. absurd (omega arith))
memcmp_lem m p1 p2 (suc n) = elim (Bool-cases (m p1 == m p2)) [
  | inl same ↦ Compared-later m p1 p2 n (ground arith) (memcmp_lem m (p1 + 1) (p2 + 1) n)
  | inr other ↦ Compared-here m p1 p2 n (ground arith)
]

abbrev pub Found : Mem → ℕ → ℕ → ℕ → Option ℕ → Type 0
Found m p c n none = (j : ℕ) → j < n → m (p + j) ≢ c % 256
Found m p c n (some q) =
    (p ≤ q) × (q < p + n) × (m q ≡ c % 256) × ((j : ℕ) → p + j < q → m (p + j) ≢ c % 256)

none_later :
    (m : Mem) (p c n : ℕ)
    → m p ≢ c % 256
    → Found m (p + 1) c n none
    → (j : ℕ) → j < suc n
    → m (p + j) ≢ c % 256
none_later m p c n ne h zero lt = ground arith
none_later m p c n ne h (suc j) lt = ground (arith, h j)

Found-later :
    (m : Mem) (p c n : ℕ) (o : Option ℕ)
    → m p ≢ c % 256
    → Found m (p + 1) c n o
    → Found m p c (suc n) o
Found-later m p c n none ne h = none_later m p c n ne h
Found-later m p c n (some q) ne h = (omega arith, omega arith, h.2, others)
  where
    others : (j : ℕ) → p + j < q → m (p + j) ≢ c % 256
    others zero lt = ground arith
    others (suc j) lt = ground (arith, h.3 j)

-- `memchr` finds the first of the `n` bytes that is the low byte of `c`, and answers `NULL` only
-- if there is none.
pub memchr_lem : (m : Mem) (p c n : ℕ) → Found m p c n (memchr m p c n)
unfolding memchr
memchr_lem m p c zero = λ j lt. absurd (omega arith)
memchr_lem m p c (suc n) = elim (Bool-cases (m p == c % 256)) [
  | inl same ↦ rw same (omega arith, omega arith, ground arith, λ j h. absurd (omega arith))
  | inr other ↦
      rw other
        (Found-later m p c n (memchr m (p + 1) c n) (ground arith) (memchr_lem m (p + 1) c n))
]
