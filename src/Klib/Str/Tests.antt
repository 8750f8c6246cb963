-- ===== src/Klib/Str/Tests.antt =====
-- Runs of the string functions of kernel/klib/string/string.c, and their theorems at concrete
-- inputs.
use deva.Prelude.{ℕ, ◌-◌, ◌^◌, ◌≡◌, refl, some, arith, List, [], ◌∷◌, ◌==◌, if◌then◌else◌}
use deva.Prelude.Int.{negsuc}
use deva.Klib.Mem.{Mem}
use deva.Klib.Str.{
  strlen, strcmp, count_differences, itoa, itoa_tail, itoa_digits, reverse_loop, atoi,
}
use deva.Klib.Str.Text.{IsText}
use deva.Klib.Str.Number.{Writes, decimal, itoa-decimal}
use deva.Klib.Str.RoundTrip.{atoi-itoa}

-- `hi` at 10 and `yo!` at 40, zeros elsewhere.
abbrev texts : Mem
texts a =
    if a == 10
    then b'h'
    else if a == 11
    then b'i'
    else if a == 40
    then b'y'
    else if a == 41
    then b'o'
    else if a == 42
    then b'!'
    else 0

abbrev hi : List ℕ
hi = b'h' ∷ b'i' ∷ []

abbrev yo : List ℕ
yo = b'y' ∷ b'o' ∷ b'!' ∷ []

hi-IsText : IsText texts 10 hi
hi-IsText = omega arith

yo-IsText : IsText texts 40 yo
yo-IsText = omega arith

strlen_runs : strlen 9 texts 40 ≡ some 3
unfolding strlen
strlen_runs = refl

strcmp_runs : strcmp 9 texts 10 40 ≡ some 1
unfolding strcmp strlen count_differences
strcmp_runs = refl

-- `-42`, NUL.
itoa_runs :
    (itoa texts (negsuc 41) 70 70 ≡ b'-')
    × (itoa texts (negsuc 41) 70 71 ≡ b'4')
    × (itoa texts (negsuc 41) 70 72 ≡ b'2')
    × (itoa texts (negsuc 41) 70 73 ≡ 0)
unfolding itoa itoa_tail itoa_digits reverse_loop
itoa_runs = (refl, refl, refl, refl)

-- The least `int` has no digits: only the sign is written.
itoa_least :
    (itoa texts (negsuc (2 ^ 31 - 1)) 70 70 ≡ b'-') × (itoa texts (negsuc (2 ^ 31 - 1)) 70 71 ≡ 0)
unfolding itoa itoa_tail itoa_digits reverse_loop
itoa_least = (refl, refl)

itoa-decimal_example : Writes texts (itoa texts (negsuc 41) 70) 70 (decimal (negsuc 41))
itoa-decimal_example = itoa-decimal texts (negsuc 41) 70 (ground arith)

atoi-itoa_example : atoi 33 (itoa texts (negsuc 41) 70) 70 ≡ some (negsuc 41)
atoi-itoa_example = atoi-itoa 32 texts 70 (negsuc 41) (omega arith) (omega arith)
