-- ===== src/Interrupts/Exception.antt =====
-- The numbers in the message of an exception: `term_put_hex` of kernel/arch/i686/isr.c.
use native.Mathlib.Nat.{div-div-eq-div-mul, pow-suc}
use deva.Prelude.{
  ℕ, zero, suc, ◌+◌, ◌-◌, ◌*◌, ◌/◌, ◌%◌, ◌^◌, ◌<◌, ◌≡◌, ap, ◌∙◌, List, [], ◌∷◌, arith, ltb,
  if◌then◌else◌, drop,
}

-- `hex[d]`
pub hex_char : ℕ → ℕ
hex_char d = if ltb d 10 then b'0' + d else b'A' + (d - 10)

-- The loop for `n` digits, the highest first.
pub hex_digits : ℕ → ℕ → List ℕ
hex_digits zero val = []
hex_digits (suc n) val = hex_char (val / 2 ^ (4 * n) % 2 ^ 4) ∷ hex_digits n val

-- The text that is written.
pub put_hex : ℕ → List ℕ
put_hex val = b'0' ∷ b'x' ∷ hex_digits 8 val

-- A reader of hexadecimal digits in capitals.
abbrev pub digit_of : ℕ → ℕ
digit_of c = if ltb c b'A' then c - b'0' else c - b'A' + 10

abbrev pub read_hex : ℕ → List ℕ → ℕ
read_hex n [] = n
read_hex n (c ∷ cs) = read_hex (n * 2 ^ 4 + digit_of c) cs

digit_of-hex_char : (d : ℕ) → d < 2 ^ 4 → digit_of (hex_char d) ≡ d
unfolding hex_char
digit_of-hex_char d h = ground arith

pow_four : (m : ℕ) → 2 ^ suc (suc (suc (suc m))) ≡ 2 ^ m * 2 ^ 4
pow_four m =
    omega (
      arith,
      pow-suc 2 m,
      pow-suc 2 (suc m),
      pow-suc 2 (suc (suc m)),
      pow-suc 2 (suc (suc (suc m))),
    )

read_hex_lem : (n val : ℕ) → read_hex (val / 2 ^ (4 * n)) (hex_digits n val) ≡ val
unfolding hex_digits
read_hex_lem zero val = omega arith
read_hex_lem (suc n) val =
    let digit = digit_of-hex_char (val / 2 ^ (4 * n) % 2 ^ 4) (omega arith) in
    let pow_step : 2 ^ (4 * suc n) ≡ 2 ^ (4 * n) * 2 ^ 4 =
      ap (λ (m : ℕ). 2 ^ m) {x = 4 * suc n} {y = suc (suc (suc (suc (4 * n))))} (omega arith)
      ∙ pow_four (4 * n) in
    let e : val / 2 ^ (4 * suc n) * 2 ^ 4 + val / 2 ^ (4 * n) % 2 ^ 4 ≡ val / 2 ^ (4 * n) = omega (
      arith,
      pow_step,
      div-div-eq-div-mul val (2 ^ (4 * n)) (2 ^ 4),
      ap (λ (p : ℕ). val / p) pow_step,
    ) in
    ap (λ (m : ℕ). read_hex m (hex_digits n val))
      (ap (λ (d : ℕ). val / 2 ^ (4 * suc n) * 2 ^ 4 + d) digit ∙ e)
    ∙ read_hex_lem n val

-- What term_put_hex writes behind `0x` of a 32-bit number reads as the number in base 16.
pub read_hex-put_hex : (val : ℕ) → val < 2 ^ 32 → read_hex 0 (drop 2 (put_hex val)) ≡ val
unfolding put_hex
read_hex-put_hex val h =
    ap (λ (m : ℕ). read_hex m (hex_digits 8 val)) {x = 0} {y = val / 2 ^ (4 * 8)} (omega (arith, h))
    ∙ read_hex_lem 8 val
