-- ===== src/Prelude/Bits/Masks.antt =====
-- Masks of low and of high bits, and a flag word below an aligned address.
use Prim.Native.Nat.{ℕ, zero, suc, ◌+◌, ◌-◌, ◌*◌, ◌/◌, ◌%◌, ◌^◌, ◌<◌, bit_and, bit_or}
use mathlib.Core.Path.{◌≡◌, refl, ap, ◌∙◌}
use native.Mathlib.Omega.{arith}
use native.Mathlib.Nat.{pow-suc, div-div-eq-div-mul, div-add-mod, mod-eq_of_lt}
use deva.Prelude.Bits.Digits.{bit_and_step, bit_or_step, pow-pos, by_halves}

bit_or-zero : (w : ℕ) → bit_or w 0 ≡ w
bit_or-zero =
    by_halves (λ w. bit_or w 0 ≡ w) refl (λ w half. omega (arith, half, bit_or_step (suc w) 0))

bit_and-zero : (w : ℕ) → bit_and w 0 ≡ 0
bit_and-zero =
    by_halves (λ w. bit_and w 0 ≡ 0) refl (λ w half. omega (arith, half, bit_and_step (suc w) 0))

-- Small masks.
pub bit_and-one : (w : ℕ) → bit_and w 1 ≡ w % 2
bit_and-one w = let high = bit_and-zero (w / 2) in omega (arith, high, bit_and_step w 1)

pub bit_or-one : (a : ℕ) → bit_or a 1 ≡ a / 2 * 2 + 1
bit_or-one a = omega (arith, bit_or_step a 1, bit_or-zero (a / 2))

pub bit_or_two : (a : ℕ) → bit_or a 2 ≡ a / 4 * 4 + 2 + a % 2
bit_or_two a = omega (arith, bit_or_step a 2, bit_or-one (a / 2))

-- A word of flags below an aligned address.
pub bit_or_fields : (k q r : ℕ) → r < 2 ^ k → bit_or (q * 2 ^ k) r ≡ q * 2 ^ k + r
bit_or_fields zero q r h = ground (arith, bit_or-zero q)
bit_or_fields (suc k) q r h =
    let e : q * 2 ^ suc k / 2 ≡ q * 2 ^ k = omega (arith, ap (λ (t : ℕ). q * t) (pow-suc 2 k)) in
    ground (
      arith,
      e,
      bit_or_step (q * 2 ^ suc k) r,
      bit_or_fields k q (r / 2),
      pow-suc 2 k,
      ap (λ (t : ℕ). q * t) (pow-suc 2 k),
    )

mod-double : (a p : ℕ) → a % (2 * p) ≡ a / 2 % p * 2 + a % 2
mod-double a p =
    let e : p * (a / 2 / p) * 2 ≡ 2 * p * (a / (2 * p)) =
      rw (div-div-eq-div-mul a 2 p) (grind arith) in
    omega (arith, e, div-add-mod a (2 * p), div-add-mod (a / 2) p)

-- A mask of `k` ones, and a mask of `n` ones above `k` zeros.
pub bit_and-mask : (k a : ℕ) → bit_and a (2 ^ k - 1) ≡ a % 2 ^ k
bit_and-mask zero a = omega (arith, bit_and-zero a)
bit_and-mask (suc k) a =
    let half : (2 ^ suc k - 1) / 2 ≡ 2 ^ k - 1 = omega (arith, pow-suc 2 k, pow-pos k) in
    let double : 2 ^ suc k ≡ 2 * 2 ^ k = omega (arith, pow-suc 2 k) in
    let split : a % 2 ^ suc k ≡ a / 2 % 2 ^ k * 2 + a % 2 = rw double (mod-double a (2 ^ k)) in
    ground (
      arith,
      half,
      split,
      double,
      pow-pos k,
      bit_and_step a (2 ^ suc k - 1),
      bit_and-mask k (a / 2),
    )

pub bit_and_high :
    (k n a : ℕ) → a < 2 ^ n * 2 ^ k → bit_and a ((2 ^ n - 1) * 2 ^ k) ≡ a / 2 ^ k * 2 ^ k
bit_and_high zero n a h =
    let e : (2 ^ n - 1) * 2 ^ 0 ≡ 2 ^ n - 1 = omega arith in
    rw e (bit_and-mask n a ∙ mod-eq_of_lt (omega arith) ∙ omega arith)
bit_and_high (suc k) n a h =
    let mask = (2 ^ n - 1) * 2 ^ suc k in
    let e : mask ≡ (2 ^ n - 1) * 2 ^ k * 2 = rw (pow-suc 2 k) (grind arith) in
    let half : mask / 2 ≡ (2 ^ n - 1) * 2 ^ k = omega (arith, e) in
    let even : mask % 2 ≡ 0 = omega (arith, e) in
    let small : a / 2 < 2 ^ n * 2 ^ k = omega (arith, ap (λ (t : ℕ). 2 ^ n * t) (pow-suc 2 k)) in
    let quotient : a / 2 / 2 ^ k ≡ a / 2 ^ suc k =
      div-div-eq-div-mul a 2 (2 ^ k) ∙ ap (λ (t : ℕ). a / t) (omega (arith, pow-suc 2 k)) in
    ground (
      arith,
      half,
      even,
      quotient,
      bit_and_step a mask,
      bit_and_high k n (a / 2) small,
      ap (λ (t : ℕ). a / 2 ^ suc k * t) (pow-suc 2 k),
    )
