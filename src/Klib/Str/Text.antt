-- ===== src/Klib/Str/Text.antt =====
-- A NUL-terminated string in memory, as the string functions of kernel/klib/string/string.c see it.
use deva.Prelude.{ℕ, zero, suc, ◌+◌, ◌≤◌, ◌<◌, ◌≡◌, ◌≢◌, List, [], ◌∷◌, ◌++◌, arith, length, get_or}
use deva.Klib.Mem.{Mem}

-- The characters `xs`, none of them NUL, stand at `p` and a NUL behind them.
abbrev pub IsText : Mem → ℕ → List ℕ → Type 0
IsText m p [] = m p ≡ 0
IsText m p (x ∷ xs) = (m p ≡ x) × (x ≢ 0) × IsText m (p + 1) xs

-- Only the bytes from `p` up to the NUL matter.
pub IsText-frame :
    (m m' : Mem) (p : ℕ) (xs : List ℕ)
    → ((a : ℕ) → p ≤ a → a ≤ p + length xs → m' a ≡ m a)
    → IsText m p xs
    → IsText m' p xs
IsText-frame m m' p [] same t = ground (arith, same p)
IsText-frame m m' p (x ∷ xs) same t = (
  ground (arith, same p),
  t.1,
  IsText-frame m m' (p + 1) xs (λ a lo hi. same a (omega arith) (omega arith)) t.2,
)

-- The string moved by a copy.
pub IsText-move :
    (m m' : Mem) (p q : ℕ) (xs : List ℕ)
    → ((k : ℕ) → k ≤ length xs → m' (q + k) ≡ m (p + k))
    → IsText m p xs
    → IsText m' q xs
IsText-move m m' p q [] same t = ground (arith, same 0)
IsText-move m m' p q (x ∷ xs) same t = (
  ground (arith, same 0),
  t.1,
  IsText-move m m' (p + 1) (q + 1) xs (λ k h. ground (arith, same (suc k))) t.2,
)

-- The characters alone, with anything behind them.
abbrev pub Chars : Mem → ℕ → List ℕ → Type 0
Chars m p [] = Unit {0}
Chars m p (x ∷ xs) = (m p ≡ x) × (x ≢ 0) × Chars m (p + 1) xs

pub Chars-frame :
    (m m' : Mem) (p : ℕ) (xs : List ℕ)
    → ((a : ℕ) → p ≤ a → a < p + length xs → m' a ≡ m a)
    → IsText m p xs
    → Chars m' p xs
Chars-frame m m' p [] same t = tt
Chars-frame m m' p (x ∷ xs) same t = (
  ground (arith, same p),
  t.1,
  Chars-frame m m' (p + 1) xs (λ a lo hi. same a (omega arith) (omega arith)) t.2,
)

pub IsText-append :
    (m : Mem) (p q : ℕ) (xs ys : List ℕ)
    → Chars m p xs
    → p + length xs ≡ q
    → IsText m q ys
    → IsText m p (xs ++ ys)
IsText-append m p q [] ys c e t = let e' : q ≡ p = omega arith in rw e' at t
IsText-append m p q (x ∷ xs) ys c e t =
    (c.0, c.1, IsText-append m (p + 1) q xs ys c.2 (omega arith) t)

pub IsText-end : (m : Mem) (p : ℕ) (xs : List ℕ) → IsText m p xs → m (p + length xs) ≡ 0
IsText-end m p [] t = ground arith
IsText-end m p (x ∷ xs) t = ground (arith, IsText-end m (p + 1) xs t.2)

pub IsText-inside :
    (m : Mem) (p : ℕ) (xs : List ℕ) → IsText m p xs → (k : ℕ) → k < length xs → m (p + k) ≢ 0
IsText-inside m p [] t k h = absurd (omega arith)
IsText-inside m p (x ∷ xs) t zero h = ground arith
IsText-inside m p (x ∷ xs) t (suc k) h = ground (arith, IsText-inside m (p + 1) xs t.2 k)

-- A string is given by what is read at each place.
pub IsText-of_reads :
    (m : Mem) (p : ℕ) (xs : List ℕ)
    → ((k : ℕ) → k < length xs → (m (p + k) ≡ get_or xs k 0) × (get_or xs k 0 ≢ 0))
    → m (p + length xs) ≡ 0
    → IsText m p xs
IsText-of_reads m p [] reads e = ground arith
IsText-of_reads m p (x ∷ xs) reads e = (
  ground (arith, (reads 0 (omega arith)).0),
  (reads 0 (omega arith)).1,
  IsText-of_reads m (p + 1) xs
      (λ k h. let (r, ne) = reads (suc k) (omega arith) in (ground arith, ne)) (ground arith),
)
