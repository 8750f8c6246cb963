-- ===== src/Klib/Str/Number.antt =====
-- `itoa` of kernel/klib/string/string.c writes the decimal form of a number.
use deva.Prelude.{
  ℕ, zero, suc, ◌+◌, ◌-◌, ◌/◌, ◌^◌, ◌≤◌, ◌<◌, ◌≡◌, ◌≢◌, ap, ◌∙◌, ◌⊎◌, Bool, true, false, ◌&&◌, List,
  [], ◌∷◌, arith, length, get_or, update, leb, ◌==◌, if◌then◌else◌,
}
use deva.Prelude.Int.{ℤ, pos, negsuc}
use deva.Klib.Mem.{Mem}
use deva.Klib.Str.{itoa_digits, itoa_tail, itoa}
use deva.Klib.Str.Text.{IsText, IsText-of_reads}
use deva.Klib.Str.Reverse.{
  reverse_loop_lem, digits_up, digits_down, write, write_lem, itoa_digits-write, length-digits,
  get_or-digits,
}

pub length-digits_up : (fuel n : ℕ) → length (digits_up fuel n) ≤ fuel
unfolding digits_up
length-digits_up zero n = omega arith
length-digits_up (suc fuel) n = ground (arith, length-digits_up fuel (n / 10))

pub digits_up_pos : (fuel n : ℕ) → 0 < n → 0 < length (digits_up (suc fuel) n)
unfolding digits_up
digits_up_pos fuel n h = ground arith

digits_up-ge : (fuel n k : ℕ) → k < length (digits_up fuel n) → 48 ≤ get_or (digits_up fuel n) k 0
unfolding digits_up
digits_up-ge zero n k h = absurd (omega arith)
digits_up-ge (suc fuel) n zero h = ground arith
digits_up-ge (suc fuel) n (suc k) h = ground (arith, digits_up-ge fuel (n / 10) k)

-- The sign, and the digits, the highest first.
unfoldable pub signed_digits : Bool → ℕ → List ℕ
signed_digits negative num = if negative then b'-' ∷ digits_down 32 num else digits_down 32 num

unfoldable pub decimal : ℤ → List ℕ
decimal (pos zero) = b'0' ∷ []
decimal (pos (suc n)) = signed_digits false (suc n)
decimal (negsuc n) = signed_digits true (suc n)

-- What a read of the finished text gives, for a text of `digits` and a sign.
abbrev pub Writes : Mem → Mem → ℕ → List ℕ → Type 0
Writes m m' str xs = IsText m' str xs × ((a : ℕ) → (a < str) ⊎ (str + length xs < a) → m' a ≡ m a)

digits_down_ne_zero : (n k : ℕ) → k < length (digits_down 32 n) → get_or (digits_down 32 n) k 0 ≢ 0
digits_down_ne_zero n k h = ground (
  arith,
  length-digits 32 n,
  get_or-digits 32 n k,
  digits_up-ge 32 n (length (digits_up 32 n) - 1 - k),
)

-- The memory before the reversal, and the number of characters in it.
abbrev count_of : Bool → ℕ → ℕ
count_of negative num = length (digits_up 32 num) + (if negative then 1 else 0)

abbrev unreversed : Mem → ℕ → Bool → ℕ → Mem
unreversed m str negative num a =
    if str + count_of negative num == a
    then 0
    else if negative && str + length (digits_up 32 num) == a
    then b'-'
    else write m str (digits_up 32 num) a

itoa_digits_from_zero :
    (m : Mem) (str num : ℕ)
    → itoa_digits 32 m str 0 num ≡ (write m str (digits_up 32 num), length (digits_up 32 num))
itoa_digits_from_zero m str num =
    let e : str + 0 ≡ str = omega arith in
    itoa_digits-write 32 m str 0 num
    ∙ ap (λ p. (write m p (digits_up 32 num), 0 + length (digits_up 32 num))) e
    ∙ ap (λ n. (write m str (digits_up 32 num), n)) (omega arith)

itoa_tail_lem :
    (m : Mem) (str : ℕ) (negative : Bool) (num a : ℕ)
    → itoa_tail m str negative num a ≡ (
        let e = count_of negative num - 1 in
        if leb str a && leb a (str + e)
        then unreversed m str negative num (str + (str + e - a))
        else unreversed m str negative num a)
unfolding itoa_tail
itoa_tail_lem m str true num a =
    let n = length (digits_up 32 num) in
    let mem : Mem =
      update (update (write m str (digits_up 32 num)) (str + n) b'-') (str + (n + 1)) 0 in
    rw (itoa_digits_from_zero m str num)
      (ground (arith, reverse_loop_lem 32 mem str 0 (n + 1 - 1) a, length-digits_up 32 num))
itoa_tail_lem m str false num a =
    let n = length (digits_up 32 num) in
    let mem : Mem = update (write m str (digits_up 32 num)) (str + n) 0 in
    rw (itoa_digits_from_zero m str num)
      (ground (arith, reverse_loop_lem 32 mem str 0 (n - 1) a, length-digits_up 32 num))

itoa_tail-digits :
    (m : Mem) (str num : ℕ)
    → 0 < num
    → Writes m (itoa_tail m str false num) str (signed_digits false num)
unfolding itoa_tail signed_digits
itoa_tail-digits m str num h = (
  IsText-of_reads (itoa_tail m str false num) str (digits_down 32 num)
      (λ k lt. (
        ground (
          arith,
          itoa_tail_lem m str false num (str + k),
          write_lem m str (digits_up 32 num) (str + (length (digits_up 32 num) - 1 - k)),
          get_or-digits 32 num k,
          length-digits 32 num,
        ),
        digits_down_ne_zero num k lt,
      ))
      (ground (
        arith,
        itoa_tail_lem m str false num (str + length (digits_down 32 num)),
        length-digits 32 num,
        digits_up_pos 31 num,
      )),
  λ a out. ground (
    arith,
    itoa_tail_lem m str false num a,
    write_lem m str (digits_up 32 num) a,
    length-digits 32 num,
    digits_up_pos 31 num,
  ),
)

itoa_tail_negative :
    (m : Mem) (str num : ℕ)
    → 0 < num
    → Writes m (itoa_tail m str true num) str (signed_digits true num)
unfolding itoa_tail signed_digits
itoa_tail_negative m str num h = (
  (
    ground (arith, itoa_tail_lem m str true num str),
    omega arith,
    IsText-of_reads (itoa_tail m str true num) (str + 1) (digits_down 32 num)
        (λ k lt. (
          ground (
            arith,
            itoa_tail_lem m str true num (str + 1 + k),
            write_lem m str (digits_up 32 num) (str + (length (digits_up 32 num) - 1 - k)),
            get_or-digits 32 num k,
            length-digits 32 num,
          ),
          digits_down_ne_zero num k lt,
        ))
        (ground (
          arith,
          itoa_tail_lem m str true num (str + 1 + length (digits_down 32 num)),
          length-digits 32 num,
        )),
  ),
  λ a out. ground (
    arith,
    itoa_tail_lem m str true num a,
    write_lem m str (digits_up 32 num) a,
    length-digits 32 num,
  ),
)

itoa-pos : (m : Mem) (str n : ℕ) → itoa m (pos (suc n)) str ≡ itoa_tail m str false (suc n)
unfolding itoa
itoa-pos m str n = ground arith

itoa-negsuc :
    (m : Mem) (str n : ℕ) → n ≢ 2 ^ 31 - 1 → itoa m (negsuc n) str ≡ itoa_tail m str true (suc n)
unfolding itoa
itoa-negsuc m str n ne = ground arith

-- For every `int` but the least, `itoa` leaves its decimal form at `str`, closed by a NUL, and
-- changes nothing outside.
pub itoa-decimal :
    (m : Mem) (num : ℤ) (str : ℕ)
    → num ≢ negsuc (2 ^ 31 - 1)
    → Writes m (itoa m num str) str (decimal num)
unfolding itoa decimal
itoa-decimal m (pos zero) str ne =
    ((ground arith, omega arith, ground arith), λ a out. ground arith)
itoa-decimal m (pos (suc n)) str ne =
    rw (itoa-pos m str n) (itoa_tail-digits m str (suc n) (omega arith))
itoa-decimal m (negsuc n) str ne =
    rw (itoa-negsuc m str n (ground arith)) (itoa_tail_negative m str (suc n) (omega arith))
