-- ===== src/Klib/Str/Length.antt =====
-- `strlen` and `strcmp` of kernel/klib/string/string.c.
use deva.Prelude.{
  ℕ, zero, suc, ◌+◌, ◌<◌, ◌≡◌, ◌↔◌, refl, ap, ◌∙◌, List, [], ◌∷◌, arith, length, some, ◌==◌,
  if◌then◌else◌,
}
use deva.Klib.Mem.{Mem}
use deva.Klib.Str.{strlen_loop, strlen, count_differences, strcmp}
use deva.Klib.Str.Text.{IsText}

strlen_loop-length :
    (fuel : ℕ) (m : Mem) (s ch len : ℕ) (xs : List ℕ)
    → IsText m (s + ch) xs
    → length xs < fuel
    → strlen_loop fuel m s ch len ≡ some (len + length xs)
unfolding strlen_loop
strlen_loop-length zero m s ch len xs t h = absurd (omega arith)
strlen_loop-length (suc fuel) m s ch len [] t h = ground arith
strlen_loop-length (suc fuel) m s ch len (x ∷ xs) t h =
    let e : s + ch + 1 ≡ s + (ch + 1) = omega arith in
    let t' : IsText m (s + (ch + 1)) xs = rw e at t.2 in
    ground (arith, strlen_loop-length fuel m s (ch + 1) (len + 1) xs t')

-- On a string `strlen` ends and returns the number of characters before the NUL.
pub strlen-length :
    (fuel : ℕ) (m : Mem) (s : ℕ) (xs : List ℕ)
    → IsText m s xs
    → length xs < fuel
    → strlen fuel m s ≡ some (length xs)
unfolding strlen
strlen-length fuel m s xs t h =
    let e : s ≡ s + 0 = omega arith in
    let t' : IsText m (s + 0) xs = rw e at t in
    ground (arith, strlen_loop-length fuel m s 0 0 xs t' h)

-- The number of places at which two lists of one length differ.
abbrev pub distance : List ℕ → List ℕ → ℕ
distance [] ys = 0
distance (x ∷ xs) [] = 0
distance (x ∷ xs) (y ∷ ys) = (if x == y then 0 else 1) + distance xs ys

count_differences-distance :
    (m : Mem) (s1 s2 ch d : ℕ) (xs ys : List ℕ)
    → IsText m (s1 + ch) xs
    → IsText m (s2 + ch) ys
    → length xs ≡ length ys
    → count_differences m s1 s2 ch (length xs) d ≡ d + distance xs ys
unfolding count_differences
count_differences-distance m s1 s2 ch d [] ys t u e = ground arith
count_differences-distance m s1 s2 ch d (x ∷ xs) [] t u e = absurd (omega arith)
count_differences-distance m s1 s2 ch d (x ∷ xs) (y ∷ ys) t u e =
    let e1 : s1 + ch + 1 ≡ s1 + (ch + 1) = omega arith in
    let e2 : s2 + ch + 1 ≡ s2 + (ch + 1) = omega arith in
    let t' : IsText m (s1 + (ch + 1)) xs = rw e1 at t.2 in
    let u' : IsText m (s2 + (ch + 1)) ys = rw e2 at u.2 in
    count_differences-distance m s1 s2 (ch + 1) (d + (if m (s1 + ch) == m (s2 + ch) then 0 else 1))
      xs ys t' u' (omega arith)
    ∙ ground arith

distance-eq-zero : (xs ys : List ℕ) → length xs ≡ length ys → distance xs ys ≡ 0 → xs ≡ ys
distance-eq-zero [] [] e d = refl
distance-eq-zero [] (y ∷ ys) e d = absurd (omega arith)
distance-eq-zero (x ∷ xs) [] e d = absurd (omega arith)
distance-eq-zero (x ∷ xs) (y ∷ ys) e d =
    ground (arith, distance-eq-zero xs ys (omega arith) (ground arith))

distance_self : (xs : List ℕ) → distance xs xs ≡ 0
distance_self [] = refl
distance_self (x ∷ xs) = ground (arith, distance_self xs)

distance_same : (xs ys : List ℕ) → xs ≡ ys → distance xs ys ≡ 0
distance_same xs ys e = rw (← e) (distance_self xs)

count_from_start :
    (m : Mem) (s1 s2 : ℕ) (xs ys : List ℕ)
    → IsText m s1 xs
    → IsText m s2 ys
    → length xs ≡ length ys
    → count_differences m s1 s2 0 (length xs) 0 ≡ distance xs ys
count_from_start m s1 s2 xs ys t u e =
    let e1 : s1 ≡ s1 + 0 = omega arith in
    let e2 : s2 ≡ s2 + 0 = omega arith in
    let t' : IsText m (s1 + 0) xs = rw e1 at t in
    let u' : IsText m (s2 + 0) ys = rw e2 at u in
    count_differences-distance m s1 s2 0 0 xs ys t' u' e ∙ omega arith

-- On two strings the kernel's `strcmp` ends with 1 for lengths that differ, and else with the
-- number of places where the characters differ; it is 0 exactly when the strings are equal.
pub strcmp_lem :
    (fuel : ℕ) (m : Mem) (s1 s2 : ℕ) (xs ys : List ℕ)
    → IsText m s1 xs
    → IsText m s2 ys
    → length xs < fuel
    → length ys < fuel
    → (let r = if length xs == length ys then distance xs ys else 1 in
        (strcmp fuel m s1 s2 ≡ some r) × (r ≡ 0 ↔ xs ≡ ys))
unfolding strcmp
strcmp_lem fuel m s1 s2 xs ys t u h k = (
  ground (
    arith,
    strlen-length fuel m s1 xs t h,
    strlen-length fuel m s2 ys u k,
    count_from_start m s1 s2 xs ys t u,
  ),
  (
    λ z. ground (arith, distance-eq-zero xs ys),
    λ e. ground (arith, ap length e, distance_same xs ys e),
  ),
)
