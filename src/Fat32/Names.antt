-- ===== src/Fat32/Names.antt =====
-- 8.3 names, `to_83` and `from_83` of kernel/drivers/fat32/fat32.c. A name is the list of its
-- characters before the NUL; an entry is a buffer of bytes.
pub mod RoundTrip
use deva.Prelude.{
  ℕ, zero, suc, ◌+◌, ◌-◌, ◌*◌, ◌/◌, ◌%◌, ◌^◌, ◌≤◌, ◌<◌, min, ◌≡◌, ◌≢◌, ◌⊎◌, inl, inr, refl, sym, ap,
  ◌∙◌, Bool, true, false, ◌&&◌, ◌||◌, Option, none, some, List, [], ◌∷◌, ◌++◌, arith, ltb, leb,
  ◌==◌, if◌then◌else◌, not_zero, Bool-cases, Option-cases, update, bit_and, bit_or, length, get_or,
  take, drop, replicate,
}

-- `if (c >= 'a' && c <= 'z') c -= 32;`
unfoldable pub upper : ℕ → ℕ
upper c = if leb b'a' c && leb c b'z' then c - 32 else c

-- The loop over the first part: `n` characters from place `i` on.
unfoldable pub put_base : ℕ → ℕ → List ℕ → (ℕ → ℕ) → ℕ → ℕ
put_base i zero name out = out
put_base i (suc n) [] out = out
put_base i (suc n) (c ∷ cs) out =
    let rest = put_base (i + 1) n cs (update out i (upper c)) in if c == b'.' then out else rest

-- The text behind the first dot, or the empty text at the end.
unfoldable pub after_dot : List ℕ → List ℕ
after_dot [] = []
after_dot (c ∷ cs) = if c == b'.' then cs else after_dot cs

unfoldable pub put_extension : ℕ → ℕ → List ℕ → (ℕ → ℕ) → ℕ → ℕ
put_extension i zero name out = out
put_extension i (suc n) [] out = out
put_extension i (suc n) (c ∷ cs) out = put_extension (i + 1) n cs (update out (8 + i) (upper c))

-- `memset(out, ' ', 11)`
unfoldable pub spaces : (ℕ → ℕ) → ℕ → ℕ
spaces out i = if ltb i 11 then b' ' else out i

unfoldable pub to_83 : List ℕ → (ℕ → ℕ) → ℕ → ℕ
to_83 name out = put_extension 0 3 (after_dot name) (put_base 0 8 name (spaces out))

-- The characters from `at` on up to a space, `n` at most.
pub read_part : (ℕ → ℕ) → ℕ → ℕ → List ℕ
read_part entry at zero = []
read_part entry at (suc n) =
    let rest = read_part entry (at + 1) n in if entry at == b' ' then [] else entry at ∷ rest

pub from_83 : (ℕ → ℕ) → List ℕ
from_83 entry = read_part entry 0 8 ++ (if entry 8 == b' ' then [] else b'.' ∷ read_part entry 8 3)
