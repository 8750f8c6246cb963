-- ===== src/Prelude/Bits/Digits.antt =====
-- Binary digits of `bit_and` and `bit_or` at variables, from the recursion that the native
-- operations stand for; setting and clearing one digit of a word.
use Prim.Native.Nat.{
  ℕ, zero, suc, ◌+◌, ◌-◌, ◌*◌, ◌/◌, ◌%◌, ◌^◌, ◌≤◌, ◌<◌, min, max, bit_and, bit_or, digits,
  bit_and-bitwise, bit_or-bitwise,
}
use mathlib.Core.Path.{◌≡◌, refl, sym, ◌∙◌}
use mathlib.Core.Bool.{Bool, true, ◌&&◌}
use native.Mathlib.Omega.{arith}
use native.Mathlib.Nat.{pow-suc, div-div-eq-div-mul}
use deva.Prelude.Tests.{◌==◌, if◌then◌else◌}

-- A test that passes on every value under a bound, by evaluation.
unfoldable pub all_pass : ℕ → (ℕ → Bool) → Bool
all_pass zero test = true
all_pass (suc bound) test = all_pass bound test && test bound

pub all_pass_lem :
    (bound : ℕ) (test : ℕ → Bool) (x : ℕ) → all_pass bound test ≡ true → x < bound → test x ≡ true
unfolding all_pass
all_pass_lem zero test x ok lt = absurd (omega arith)
all_pass_lem (suc bound) test x ok lt = ground (arith, all_pass_lem bound test x)

-- A recursion on halves.
by_halves_under {ℓ} :
    (P : ℕ → Type ℓ) → P 0 → ((a : ℕ) → P (suc a / 2) → P (suc a)) → (bound a : ℕ) → a ≤ bound → P a
by_halves_under P base step bound zero le = base
by_halves_under P base step zero (suc a) le = absurd (omega arith)
by_halves_under P base step (suc bound) (suc a) le =
    step a (by_halves_under P base step bound (suc a / 2) (omega arith))

pub by_halves {ℓ} : (P : ℕ → Type ℓ) → P 0 → ((a : ℕ) → P (suc a / 2) → P (suc a)) → (a : ℕ) → P a
by_halves P base step a = by_halves_under P base step a a (omega arith)

module _ (end : ℕ → ℕ) (op : ℕ → ℕ → ℕ) where
  digits-zero : (rounds b : ℕ) → digits end op rounds 0 b ≡ end b
  digits-zero zero b = refl
  digits-zero (suc rounds) b = refl

  -- The recursion behind the native operations gives the same for any two sufficient counts of rounds.
  digits_rounds : (n m a b : ℕ) → a ≤ n → a ≤ m → digits end op n a b ≡ digits end op m a b
  digits_rounds n m zero b le le' = digits-zero n b ∙ sym (digits-zero m b)
  digits_rounds zero m (suc a) b le le' = absurd (omega arith)
  digits_rounds (suc n) zero (suc a) b le le' = absurd (omega arith)
  digits_rounds (suc n) (suc m) (suc a) b le le' =
      let halves = digits_rounds n m (suc a / 2) (b / 2) (omega arith) (omega arith) in
      omega (arith, halves)

-- One binary digit at a time.
pub bit_and_step : (x y : ℕ) → bit_and x y ≡ bit_and (x / 2) (y / 2) * 2 + min (x % 2) (y % 2)
bit_and_step zero y = omega (arith, bit_and-bitwise 0 y, bit_and-bitwise 0 (y / 2))
bit_and_step (suc x) y =
    let more =
      digits_rounds (λ e. zero) min x (suc x / 2) (suc x / 2) (y / 2) (omega arith) (omega arith) in
    omega (arith, more, bit_and-bitwise (suc x) y, bit_and-bitwise (suc x / 2) (y / 2))

pub bit_or_step : (x y : ℕ) → bit_or x y ≡ bit_or (x / 2) (y / 2) * 2 + max (x % 2) (y % 2)
bit_or_step zero y = omega (arith, bit_or-bitwise 0 y, bit_or-bitwise 0 (y / 2))
bit_or_step (suc x) y =
    let more =
      digits_rounds (λ e. e) max x (suc x / 2) (suc x / 2) (y / 2) (omega arith) (omega arith) in
    omega (arith, more, bit_or-bitwise (suc x) y, bit_or-bitwise (suc x / 2) (y / 2))

-- The digit of `w` at place `k`.
unfoldable pub bit : ℕ → ℕ → ℕ
bit w zero = w % 2
bit w (suc k) = bit (w / 2) k

pub bit-le-one : (w k : ℕ) → bit w k ≤ 1
unfolding bit
bit-le-one w zero = omega arith
bit-le-one w (suc k) = bit-le-one (w / 2) k

pub bit-bit_and : (a b k : ℕ) → bit (bit_and a b) k ≡ min (bit a k) (bit b k)
unfolding bit
bit-bit_and a b zero = omega (arith, bit_and_step a b)
bit-bit_and a b (suc k) =
    let e : bit_and a b / 2 ≡ bit_and (a / 2) (b / 2) = omega (arith, bit_and_step a b) in
    rw e (bit-bit_and (a / 2) (b / 2) k)

pub bit-bit_or : (a b k : ℕ) → bit (bit_or a b) k ≡ max (bit a k) (bit b k)
unfolding bit
bit-bit_or a b zero = omega (arith, bit_or_step a b)
bit-bit_or a b (suc k) =
    let e : bit_or a b / 2 ≡ bit_or (a / 2) (b / 2) = omega (arith, bit_or_step a b) in
    rw e (bit-bit_or (a / 2) (b / 2) k)

-- A shift by `k` and the mask 1, or the remainder by 2, reads the digit at place `k`.
pub shift-bit : (w k : ℕ) → w / 2 ^ k % 2 ≡ bit w k
unfolding bit
shift-bit w zero = omega arith
shift-bit w (suc k) =
    ground (arith, shift-bit (w / 2) k, div-div-eq-div-mul w 2 (2 ^ k), pow-suc 2 k)

bit-zero : (k : ℕ) → bit 0 k ≡ 0
unfolding bit
bit-zero zero = refl
bit-zero (suc k) = bit-zero k

pub bit-pow : (j k : ℕ) → bit (2 ^ j) k ≡ (if j == k then 1 else 0)
unfolding bit
bit-pow zero zero = refl
bit-pow zero (suc k) = ground (arith, bit-zero k)
bit-pow (suc j) zero = ground (arith, pow-suc 2 j)
bit-pow (suc j) (suc k) =
    let e : 2 ^ suc j / 2 ≡ 2 ^ j = omega (arith, pow-suc 2 j) in rw e (ground (arith, bit-pow j k))

-- Setting one digit, and clearing one below place `n`, leaves the others.
pub bit-set : (w j k : ℕ) → bit (bit_or w (2 ^ j)) k ≡ (if j == k then 1 else bit w k)
bit-set w j k = ground (arith, bit-bit_or w (2 ^ j) k, bit-pow j k, bit-le-one w k)

pub pow-pos : (n : ℕ) → 0 < 2 ^ n
pow-pos zero = omega arith
pow-pos (suc n) = omega (arith, pow-suc 2 n, pow-pos n)

bit-ones : (n k : ℕ) → k < n → bit (2 ^ n - 1) k ≡ 1
unfolding bit
bit-ones zero k h = absurd (omega arith)
bit-ones (suc n) zero h = omega (arith, pow-suc 2 n, pow-pos n)
bit-ones (suc n) (suc k) h =
    let e : (2 ^ suc n - 1) / 2 ≡ 2 ^ n - 1 = omega (arith, pow-suc 2 n, pow-pos n) in
    rw e (bit-ones n k (omega arith))

pow_mono : (j n : ℕ) → j < n → 2 ^ j < 2 ^ n
pow_mono j zero h = absurd (omega arith)
pow_mono zero (suc n) h = omega (arith, pow-suc 2 n, pow-pos n)
pow_mono (suc j) (suc n) h = omega (arith, pow-suc 2 n, pow-suc 2 j, pow_mono j n (omega arith))

pub bit-complement :
    (n j k : ℕ) → j < n → k < n → bit (2 ^ n - 1 - 2 ^ j) k ≡ (if j == k then 0 else 1)
unfolding bit
bit-complement zero j k h g = absurd (omega arith)
bit-complement (suc n) zero zero h g = ground (arith, pow-suc 2 n, pow-pos n)
bit-complement (suc n) zero (suc k) h g =
    let e : (2 ^ suc n - 1 - 1) / 2 ≡ 2 ^ n - 1 = omega (arith, pow-suc 2 n, pow-pos n) in
    ground (arith, e, bit-ones n k (omega arith))
bit-complement (suc n) (suc j) zero h g =
    ground (arith, pow-suc 2 n, pow-suc 2 j, pow_mono j n (omega arith))
bit-complement (suc n) (suc j) (suc k) h g =
    let e : (2 ^ suc n - 1 - 2 ^ suc j) / 2 ≡ 2 ^ n - 1 - 2 ^ j =
      omega (arith, pow-suc 2 n, pow-suc 2 j, pow_mono j n (omega arith)) in
    rw e (ground (arith, bit-complement n j k (omega arith) (omega arith)))

pub bit-clear :
    (n w j k : ℕ)
    → j < n
    → k < n
    → bit (bit_and w (2 ^ n - 1 - 2 ^ j)) k ≡ (if j == k then 0 else bit w k)
bit-clear n w j k h g =
    ground (arith, bit-bit_and w (2 ^ n - 1 - 2 ^ j) k, bit-complement n j k h g, bit-le-one w k)
