-- ===== src/Klib/Str/RoundTrip.antt =====
-- `atoi` of kernel/klib/string/string.c reads back what `itoa` writes.
use deva.Prelude.{
  ℕ, zero, suc, ◌+◌, ◌-◌, ◌*◌, ◌/◌, ◌%◌, ◌^◌, ◌≤◌, ◌<◌, ◌≡◌, ◌≢◌, refl, List, [], ◌∷◌, ◌++◌, arith,
  length, ltb, Bool-cases, inl, inr, some,
}
use native.Mathlib.Nat.{pow-suc}
use deva.Prelude.Int.{ℤ, pos, negsuc}
use deva.Klib.Mem.{Mem}
use deva.Klib.Str.{itoa, skip_spaces, atoi_digits, atoi_signed, atoi}
use deva.Klib.Str.Text.{IsText}
use deva.Klib.Str.Reverse.{digits_down, length-digits}
use deva.Klib.Str.Number.{signed_digits, decimal, itoa-decimal, length-digits_up, digits_up_pos}

-- The number that a list of digit characters stands for, after a prefix worth `res`.
unfoldable pub value : ℕ → List ℕ → ℕ
value res [] = res
value res (x ∷ xs) = value (res * 10 + (x - 48)) xs

value-snoc : (res d : ℕ) (xs : List ℕ) → value res (xs ++ (d ∷ [])) ≡ value res xs * 10 + (d - 48)
unfolding value
value-snoc res d [] = refl
value-snoc res d (x ∷ xs) = value-snoc (res * 10 + (x - 48)) d xs

abbrev AreDigits : List ℕ → Type 0
AreDigits [] = Unit {0}
AreDigits (x ∷ xs) = (48 ≤ x) × (x ≤ 57) × AreDigits xs

AreDigits-snoc : (xs : List ℕ) (d : ℕ) → AreDigits xs → 48 ≤ d → d ≤ 57 → AreDigits (xs ++ (d ∷ []))
AreDigits-snoc [] d a lo hi = (lo, hi, tt)
AreDigits-snoc (x ∷ xs) d a lo hi = (a.0, a.1, AreDigits-snoc xs d a.2 lo hi)

digits_down-AreDigits : (fuel n : ℕ) → AreDigits (digits_down fuel n)
unfolding digits_down
digits_down-AreDigits zero n = tt
digits_down-AreDigits (suc fuel) n = elim (Bool-cases (ltb 0 n)) [
  | inl more ↦ rw more (
      AreDigits-snoc (digits_down fuel (n / 10)) (n % 10 + 48) (digits_down-AreDigits fuel (n / 10))
        (omega arith) (omega arith))
  | inr done ↦ rw done tt
]

value-digits_down : (fuel n : ℕ) → n < 2 ^ fuel → value 0 (digits_down fuel n) ≡ n
unfolding digits_down value
value-digits_down zero n h = omega arith
value-digits_down (suc fuel) n h = ground (
  arith,
  pow-suc 2 fuel,
  value-digits_down fuel (n / 10),
  value-snoc 0 (n % 10 + 48) (digits_down fuel (n / 10)),
)

atoi_digits-value :
    (fuel : ℕ) (m : Mem) (str res : ℕ) (xs : List ℕ)
    → IsText m str xs
    → AreDigits xs
    → length xs < fuel
    → atoi_digits fuel m str res ≡ some (value res xs)
unfolding atoi_digits value
atoi_digits-value zero m str res xs t a h = absurd (omega arith)
atoi_digits-value (suc fuel) m str res [] t a h = ground arith
atoi_digits-value (suc fuel) m str res (x ∷ xs) t a h =
    ground (arith, atoi_digits-value fuel m (str + 1) (res * 10 + (x - 48)) xs t.2 a.2)

-- The first character of a decimal form is no space and no plus.
first_digit :
    (m : Mem) (str : ℕ) (xs : List ℕ)
    → IsText m str xs
    → AreDigits xs
    → 0 < length xs
    → (48 ≤ m str) × (m str ≤ 57)
first_digit m str [] t a h = absurd (omega arith)
first_digit m str (x ∷ xs) t a h = ground arith

skip_none : (fuel : ℕ) (m : Mem) (str : ℕ) → 33 ≤ m str → skip_spaces (suc fuel) m str ≡ some str
unfolding skip_spaces
skip_none fuel m str h = ground arith

atoi-digits :
    (fuel : ℕ) (m : Mem) (str n : ℕ)
    → 0 < n
    → n < 2 ^ 32
    → IsText m str (digits_down 32 n)
    → 32 < fuel
    → (atoi_digits fuel m str 0 ≡ some n) × (48 ≤ m str)
atoi-digits fuel m str n some_digit small t h = ground (
  arith,
  atoi_digits-value fuel m str 0 (digits_down 32 n) t (digits_down-AreDigits 32 n),
  value-digits_down 32 n small,
  first_digit m str (digits_down 32 n) t (digits_down-AreDigits 32 n),
  length-digits 32 n,
  length-digits_up 32 n,
  digits_up_pos 31 n,
)

-- The integers whose magnitude an `int` holds: every `int` but the least.
abbrev pub Fits : ℤ → Type 0
Fits (pos n) = n < 2 ^ 31
Fits (negsuc n) = suc n < 2 ^ 31

zero_value : value 0 (b'0' ∷ []) ≡ 0
unfolding value
zero_value = refl

not_least : (num : ℤ) → Fits num → num ≢ negsuc (2 ^ 31 - 1)
not_least (pos n) fits = ground arith
not_least (negsuc n) fits = ground arith

-- `atoi` reads the decimal form of any of them.
atoi-decimal :
    (fuel : ℕ) (m : Mem) (str : ℕ) (num : ℤ)
    → IsText m str (decimal num)
    → 32 ≤ fuel
    → Fits num
    → atoi (suc fuel) m str ≡ some num
unfolding atoi atoi_signed decimal signed_digits
atoi-decimal fuel m str (pos zero) t h fits =
    let digits : AreDigits (b'0' ∷ []) = (omega arith, omega arith, tt) in
    ground (
      arith,
      skip_none fuel m str,
      atoi_digits-value (suc fuel) m str 0 (b'0' ∷ []) t digits,
      zero_value,
    )
atoi-decimal fuel m str (pos (suc n)) t h fits = ground (
  arith,
  skip_none fuel m str,
  atoi-digits (suc fuel) m str (suc n) (omega arith) (omega arith) t,
)
atoi-decimal fuel m str (negsuc n) t h fits = ground (
  arith,
  skip_none fuel m str,
  atoi-digits (suc fuel) m (str + 1) (suc n) (omega arith) (omega arith) t.2,
)

-- For every `int` but the least, `atoi` of what `itoa` wrote is the number again; 33 characters
-- are enough fuel.
pub atoi-itoa :
    (fuel : ℕ) (m : Mem) (str : ℕ) (num : ℤ)
    → 32 ≤ fuel
    → Fits num
    → atoi (suc fuel) (itoa m num str) str ≡ some num
atoi-itoa fuel m str num h fits =
    atoi-decimal fuel (itoa m num str) str num (itoa-decimal m num str (not_least num fits)).0 h
      fits
