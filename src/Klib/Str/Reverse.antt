-- ===== src/Klib/Str/Reverse.antt =====
-- The exchange loop at the end of `itoa`, and what its digit loop writes.
-- kernel/klib/string/string.c.
use deva.Prelude.{
  ℕ, zero, suc, ◌+◌, ◌-◌, ◌*◌, ◌/◌, ◌%◌, ◌<◌, ◌≡◌, refl, ap, ◌&&◌, List, [], ◌∷◌, ◌++◌, arith,
  length, length-append, get_or, update, ltb, leb, if◌then◌else◌, Bool-cases, inl, inr,
}
use deva.Klib.Mem.{Mem}
use deva.Klib.Str.{reverse_loop, itoa_digits}

-- The loop turns the bytes from index `start` to index `i` round, and changes nothing else.
pub reverse_loop_lem :
    (fuel : ℕ) (m : Mem) (str start i a : ℕ)
    → i < start + 2 * fuel
    → reverse_loop fuel m str start i a
      ≡ (if leb (str + start) a && leb a (str + i) then m (str + start + (str + i - a)) else m a)
unfolding reverse_loop
reverse_loop_lem zero m str start i a h = ground arith
reverse_loop_lem (suc fuel) m str start i a h = elim (Bool-cases (ltb start i)) [
  | inl more ↦
      let swapped : Mem =
        update (update m (str + start) (m (str + i))) (str + i) (m (str + start)) in
      rw more
        (ground (arith, reverse_loop_lem fuel swapped str (start + 1) (i - 1) a (ground arith)))
  | inr done ↦ ground arith
]

-- The digits of a number, the lowest first, and the highest first.
unfoldable pub digits_up : ℕ → ℕ → List ℕ
digits_up zero n = []
digits_up (suc fuel) n =
    let rest = digits_up fuel (n / 10) in if ltb 0 n then (n % 10 + 48) ∷ rest else []

unfoldable pub digits_down : ℕ → ℕ → List ℕ
digits_down zero n = []
digits_down (suc fuel) n =
    let rest = digits_down fuel (n / 10) in if ltb 0 n then rest ++ ((n % 10 + 48) ∷ []) else []

-- The memory with a list of bytes written from `p` on.
unfoldable pub write : Mem → ℕ → List ℕ → Mem
write m p [] = m
write m p (x ∷ xs) = write (update m p x) (p + 1) xs

get_or-append :
    (xs ys : List ℕ) (k : ℕ)
    → get_or (xs ++ ys) k 0
      ≡ (if ltb k (length xs) then get_or xs k 0 else get_or ys (k - length xs) 0)
get_or-append [] ys k = ground arith
get_or-append (x ∷ xs) ys zero = ground arith
get_or-append (x ∷ xs) ys (suc k) = ground (arith, get_or-append xs ys k)

get_or-cons : (x : ℕ) (xs : List ℕ) (k : ℕ) → 0 < k → get_or (x ∷ xs) k 0 ≡ get_or xs (k - 1) 0
get_or-cons x xs zero h = absurd (omega arith)
get_or-cons x xs (suc k) h = ap (λ j. get_or xs j 0) (omega arith)

get_or_first : (x : ℕ) (xs : List ℕ) (k : ℕ) → k ≡ 0 → get_or (x ∷ xs) k 0 ≡ x
get_or_first x xs zero h = refl
get_or_first x xs (suc k) h = absurd (omega arith)

pub write_lem :
    (m : Mem) (p : ℕ) (xs : List ℕ) (a : ℕ)
    → write m p xs a ≡ (if leb p a && ltb a (p + length xs) then get_or xs (a - p) 0 else m a)
unfolding write
write_lem m p [] a = ground arith
write_lem m p (x ∷ xs) a = ground (
  arith,
  write_lem (update m p x) (p + 1) xs a,
  get_or-cons x xs (a - p),
  get_or_first x xs (a - p),
)

pub itoa_digits-write :
    (fuel : ℕ) (m : Mem) (str i num : ℕ)
    → itoa_digits fuel m str i num
      ≡ (write m (str + i) (digits_up fuel num), i + length (digits_up fuel num))
unfolding itoa_digits write digits_up
itoa_digits-write zero m str i num = ground arith
itoa_digits-write (suc fuel) m str i num = elim (Bool-cases (ltb 0 num)) [
  | inl more ↦ rw more (
      ground
        (arith, itoa_digits-write fuel (update m (str + i) (num % 10 + 48)) str (i + 1) (num / 10)))
  | inr done ↦ ground arith
]

pub length-digits : (fuel n : ℕ) → length (digits_down fuel n) ≡ length (digits_up fuel n)
unfolding digits_up digits_down
length-digits zero n = refl
length-digits (suc fuel) n = ground (
  arith,
  length-digits fuel (n / 10),
  length-append (digits_down fuel (n / 10)) ((n % 10 + 48) ∷ []),
)

-- The one is the other turned round.
pub get_or-digits :
    (fuel n k : ℕ)
    → k < length (digits_up fuel n)
    → get_or (digits_down fuel n) k 0
      ≡ get_or (digits_up fuel n) (length (digits_up fuel n) - 1 - k) 0
unfolding digits_up digits_down
get_or-digits zero n k h = absurd (omega arith)
get_or-digits (suc fuel) n k h = elim (Bool-cases (ltb 0 n)) [
  | inl more ↦
      let xs = digits_up fuel (n / 10) in
      let ys = digits_down fuel (n / 10) in
      ground (
        arith,
        get_or-append ys ((n % 10 + 48) ∷ []) k,
        get_or-digits fuel (n / 10) k,
        get_or-cons (n % 10 + 48) xs (length xs - k),
        get_or_first (n % 10 + 48) xs (length xs - k),
        get_or_first (n % 10 + 48) [] (k - length ys),
        length-digits fuel (n / 10),
      )
  | inr done ↦ absurd (ground arith)
]
