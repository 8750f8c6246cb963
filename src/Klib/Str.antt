-- ===== src/Klib/Str.antt =====
-- The string functions of kernel/klib/string/string.c. A loop that runs to the NUL byte takes fuel,
-- and `none` means that the fuel ran out; the lemmas give fuel that is enough. An `int` is an
-- integer between -2^31 and 2^31 - 1; lengths are assumed not to pass 2^31 - 1.
pub mod Text
pub mod Length
pub mod Copies
pub mod Number
pub mod Reverse
pub mod RoundTrip
mod Tests
use deva.Prelude.{
  ℕ, zero, suc, ◌+◌, ◌-◌, ◌*◌, ◌/◌, ◌%◌, ◌^◌, Bool, true, false, ◌&&◌, ◌||◌, Option, none, some,
  ltb, leb, ◌==◌, if◌then◌else◌, update, not_zero,
}
use deva.Prelude.Int.{ℤ, pos, negsuc, sub_ℕ, pos_part}
use deva.Klib.Mem.{Mem}

-- `while (s[ch++] != 0) len++;`
pub strlen_loop : ℕ → Mem → ℕ → ℕ → ℕ → Option ℕ
strlen_loop zero m s ch len = none
strlen_loop (suc fuel) m s ch len =
    let rest = strlen_loop fuel m s (ch + 1) (len + 1) in
    if not_zero (m (s + ch)) then rest else some len

pub strlen : ℕ → Mem → ℕ → Option ℕ
unfolding strlen_loop
strlen fuel m s = strlen_loop fuel m s 0 0

-- The loop of `strcmp` over `n` remaining characters.
pub count_differences : Mem → ℕ → ℕ → ℕ → ℕ → ℕ → ℕ
count_differences m s1 s2 ch zero differences = differences
count_differences m s1 s2 ch (suc n) differences =
    count_differences m s1 s2 (ch + 1) n
      (differences + (if m (s1 + ch) == m (s2 + ch) then 0 else 1))

pub strcmp : ℕ → Mem → ℕ → ℕ → Option ℕ
strcmp fuel m s1 s2 = elim (strlen fuel m s1) [
  | none ↦ none
  | some len1 ↦ elim (strlen fuel m s2) [
    | none ↦ none
    | some len2 ↦ if len1 == len2 then some (count_differences m s1 s2 0 len1 0) else some 1
  ]
]

-- The loop of `strcpy`, with the NUL that is written behind it.
pub strcpy_loop : ℕ → Mem → ℕ → ℕ → ℕ → Option Mem
strcpy_loop zero m dest src i = none
strcpy_loop (suc fuel) m dest src i =
    let rest = strcpy_loop fuel (update m (dest + i) (m (src + i))) dest src (i + 1) in
    if not_zero (m (src + i)) then rest else some (update m (dest + i) 0)

pub strcpy : ℕ → Mem → ℕ → ℕ → Option Mem
unfolding strcpy_loop
strcpy fuel m dest src = strcpy_loop fuel m dest src 0

-- `while (*dest != '\0') dest++;`
pub end_of : ℕ → Mem → ℕ → Option ℕ
end_of zero m dest = none
end_of (suc fuel) m dest =
    let rest = end_of fuel m (dest + 1) in if not_zero (m dest) then rest else some dest

pub strcat : ℕ → Mem → ℕ → ℕ → Option Mem
unfolding end_of
strcat fuel m dest src = elim (end_of fuel m dest) [ none ↦ none | some e ↦ strcpy fuel m e src ]

-- `-num` on an `int`: the least one is its own negation on this machine.
pub neg_int : ℤ → ℤ
neg_int (pos zero) = pos 0
neg_int (pos (suc n)) = negsuc n
neg_int (negsuc n) = if n == 2 ^ 31 - 1 then negsuc n else pos (suc n)

-- `while (num > 0) { str[i++] = (num % 10) + 48; num = num / 10; }`; the fuel is enough for an
-- `int`, and what is left of it is of no consequence.
pub itoa_digits : ℕ → Mem → ℕ → ℕ → ℕ → Mem × ℕ
itoa_digits zero m str i num = (m, i)
itoa_digits (suc fuel) m str i num =
    let rest = itoa_digits fuel (update m (str + i) (num % 10 + 48)) str (i + 1) (num / 10) in
    if ltb 0 num then rest else (m, i)

-- `while (start < i)`: exchange the bytes at both ends and move inwards.
pub reverse_loop : ℕ → Mem → ℕ → ℕ → ℕ → Mem
reverse_loop zero m str start i = m
reverse_loop (suc fuel) m str start i =
    let swapped = update (update m (str + start) (m (str + i))) (str + i) (m (str + start)) in
    let rest = reverse_loop fuel swapped str (start + 1) (i - 1) in if ltb start i then rest else m

abbrev pub is_negative : ℤ → Bool
is_negative (pos n) = false
is_negative (negsuc n) = true

abbrev pub is_zero : ℤ → Bool
is_zero (pos n) = n == 0
is_zero (negsuc n) = false

-- The digits, the sign behind them, the NUL, and the reversal. A negative `num` has no digits.
pub itoa_tail : Mem → ℕ → Bool → ℕ → Mem
itoa_tail m str negative num =
    let (m1, i1) = itoa_digits 32 m str 0 num in
    let m2 = if negative then update m1 (str + i1) b'-' else m1 in
    let i2 = if negative then i1 + 1 else i1 in
    let m3 = update m2 (str + i2) 0 in reverse_loop 32 m3 str 0 (i2 - 1)

pub itoa : Mem → ℤ → ℕ → Mem
unfolding neg_int
itoa m num str =
    if is_zero num
    then update (update m str b'0') (str + 1) 0
    else if is_negative num
    then itoa_tail m str true (pos_part (neg_int num))
    else itoa_tail m str false (pos_part num)

abbrev pub is_space : ℕ → Bool
is_space c = c == b' ' || c == 9 || c == 10 || c == 13

abbrev pub is_digit : ℕ → Bool
is_digit c = leb b'0' c && leb c b'9'

pub skip_spaces : ℕ → Mem → ℕ → Option ℕ
skip_spaces zero m str = none
skip_spaces (suc fuel) m str =
    let rest = skip_spaces fuel m (str + 1) in if is_space (m str) then rest else some str

-- `while (*str >= '0' && *str <= '9')`; the value before any overflow of `int`.
pub atoi_digits : ℕ → Mem → ℕ → ℕ → Option ℕ
atoi_digits zero m str res = none
atoi_digits (suc fuel) m str res =
    let rest = atoi_digits fuel m (str + 1) (res * 10 + (m str - b'0')) in
    if is_digit (m str) then rest else some res

abbrev pub signed : Bool → ℕ → ℤ
signed negative res = if negative then sub_ℕ 0 res else pos res

-- The sign, and the digits behind it.
pub atoi_signed : ℕ → Mem → ℕ → Option ℤ
atoi_signed fuel m str =
    let negative = m str == b'-' in
    let start = if negative then str + 1 else if m str == b'+' then str + 1 else str in
    elim (atoi_digits fuel m start 0) [ none ↦ none | some res ↦ some (signed negative res) ]

pub atoi : ℕ → Mem → ℕ → Option ℤ
atoi fuel m str = elim (skip_spaces fuel m str) [
  | none ↦ none
  | some start ↦ atoi_signed fuel m start
]
