-- ===== src/Klib/Str/Copies.antt =====
-- `strcpy` and `strcat` of kernel/klib/string/string.c.
use deva.Prelude.{
  ℕ, zero, suc, ◌+◌, ◌≤◌, ◌<◌, ◌≡◌, refl, ◌⊎◌, List, [], ◌∷◌, ◌++◌, arith, length, update, Option,
  some,
}
use deva.Klib.Mem.{Mem}
use deva.Klib.Mem.Copy.{copied}
use deva.Klib.Str.{strcpy_loop, strcpy, end_of, strcat}
use deva.Klib.Str.Text.{IsText, IsText-frame, IsText-move, Chars-frame, IsText-append}

-- The call ends, in a memory that is `m` with `n` bytes copied.
abbrev pub Copies : Option Mem → Mem → ℕ → ℕ → ℕ → Type 0
Copies o m d s n = (m' : Mem) × (o ≡ some m') × ((a : ℕ) → m' a ≡ copied m d s n a)

strcpy_loop-copied :
    (fuel : ℕ) (m : Mem) (dest src i : ℕ) (xs : List ℕ)
    → IsText m (src + i) xs
    → length xs < fuel
    → (dest ≤ src) ⊎ (src + i + length xs < dest)
    → Copies (strcpy_loop fuel m dest src i) m (dest + i) (src + i) (length xs + 1)
unfolding strcpy_loop
strcpy_loop-copied zero m dest src i xs t h apart = absurd (omega arith)
strcpy_loop-copied (suc fuel) m dest src i [] t h apart =
    (update m (dest + i) 0, ground arith, λ a. ground arith)
strcpy_loop-copied (suc fuel) m dest src i (x ∷ xs) t h apart =
    let m1 : Mem = update m (dest + i) (m (src + i)) in
    let e : src + i + 1 ≡ src + (i + 1) = omega arith in
    let t' : IsText m (src + (i + 1)) xs = rw e at t.2 in
    let t1 = IsText-frame m m1 (src + (i + 1)) xs (λ a lo hi. ground arith) t' in
    let (m', r, c) =
      strcpy_loop-copied fuel m1 dest src (i + 1) xs t1 (omega arith) (omega arith) in
    (m', ground arith, λ a. ground (arith, c a))

-- `strcpy` of a string, downwards or to a place that the string does not reach, ends; it copies
-- the characters and the NUL, and changes no other address.
pub strcpy_lem :
    (fuel : ℕ) (m : Mem) (dest src : ℕ) (xs : List ℕ)
    → IsText m src xs
    → length xs < fuel
    → (dest ≤ src) ⊎ (src + length xs < dest)
    → Copies (strcpy fuel m dest src) m dest src (length xs + 1)
unfolding strcpy
strcpy_lem fuel m dest src xs t h apart =
    let e : src ≡ src + 0 = omega arith in
    let t' : IsText m (src + 0) xs = rw e at t in
    let (m', r, c) = strcpy_loop-copied fuel m dest src 0 xs t' h (omega arith) in
    (m', r, λ a. ground (arith, c a))

end_of-length :
    (fuel : ℕ) (m : Mem) (dest : ℕ) (xs : List ℕ)
    → IsText m dest xs
    → length xs < fuel
    → end_of fuel m dest ≡ some (dest + length xs)
unfolding end_of
end_of-length zero m dest xs t h = absurd (omega arith)
end_of-length (suc fuel) m dest [] t h = ground arith
end_of-length (suc fuel) m dest (x ∷ xs) t h =
    ground (arith, end_of-length fuel m (dest + 1) xs t.2)

-- `strcat` of two strings, the second outside what is written, ends with the two in a row at
-- `dest`, and changes nothing before the end of the first nor behind the new NUL.
pub strcat-append :
    (fuel : ℕ) (m : Mem) (dest src : ℕ) (xs ys : List ℕ)
    → IsText m dest xs
    → IsText m src ys
    → length xs < fuel
    → length ys < fuel
    → (dest + length xs + length ys < src) ⊎ (src + length ys < dest + length xs)
    → (m' : Mem) × (strcat fuel m dest src ≡ some m')
      × IsText m' dest (xs ++ ys)
      × ((a : ℕ) → (a < dest + length xs) ⊎ (dest + length xs + length ys < a) → m' a ≡ m a)
unfolding strcat
strcat-append fuel m dest src xs ys t u h k apart =
    let (m', r, c) = strcpy_lem fuel m (dest + length xs) src ys u k (omega arith) in
    (
      m',
      ground (arith, end_of-length fuel m dest xs t h),
      IsText-append m' dest (dest + length xs) xs ys
          (Chars-frame m m' dest xs (λ a lo hi. ground (arith, c a)) t) refl
          (IsText-move m m' src (dest + length xs) ys
            (λ k' hk. ground (arith, c (dest + length xs + k'))) u),
      λ a out. ground (arith, c a),
    )
