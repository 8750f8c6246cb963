-- ===== src/Fat32/Names/RoundTrip.antt =====
-- A short name survives `to_83` and `from_83` of kernel/drivers/fat32/fat32.c, in capitals.
use deva.Prelude.{
  map, ==_iff, length-map, ℕ, zero, suc, ◌+◌, ◌≤◌, ◌<◌, ◌≡◌, ◌≢◌, ◌⊎◌, inl, inr, refl, ap, ◌∙◌,
  true, false, List, [], ◌∷◌, ◌++◌, arith, ◌==◌, Bool-cases, update, length,
}
use deva.Fat32.Names.{upper, put_base, after_dot, put_extension, spaces, to_83, read_part, from_83}

-- Characters that may stand in a part of a name.
abbrev pub IsPlain : List ℕ → Type 0
IsPlain [] = Unit {0}
IsPlain (c ∷ cs) = (c ≢ b'.') × (c ≢ b' ') × IsPlain cs

-- The characters written from `at` on.
fill : ℕ → List ℕ → (ℕ → ℕ) → ℕ → ℕ
fill at [] out = out
fill at (c ∷ cs) out = fill (at + 1) cs (update out at c)

fill-other :
    (at : ℕ) (cs : List ℕ) (out : ℕ → ℕ) (i : ℕ)
    → (i < at) ⊎ (at + length cs ≤ i)
    → fill at cs out i ≡ out i
unfolding fill
fill-other at [] out i h = refl
fill-other at (c ∷ cs) out i (inl h) =
    fill-other (at + 1) cs (update out at c) i (inl (omega arith)) ∙ ground arith
fill-other at (c ∷ cs) out i (inr h) =
    fill-other (at + 1) cs (update out at c) i (inr (omega arith)) ∙ ground arith

-- The buffer has these characters from `at` on.
Written : (ℕ → ℕ) → ℕ → List ℕ → Type 0
Written e at [] = Unit {0}
Written e at (c ∷ cs) = (e at ≡ c) × Written e (at + 1) cs

fill-Written : (at : ℕ) (cs : List ℕ) (out : ℕ → ℕ) → Written (fill at cs out) at cs
unfolding fill Written
fill-Written at [] out = tt
fill-Written at (c ∷ cs) out = (
  fill-other (at + 1) cs (update out at c) at (inl (omega arith)) ∙ ground arith,
  fill-Written (at + 1) cs (update out at c),
)

Written-same :
    (e e' : ℕ → ℕ) (at : ℕ) (cs : List ℕ)
    → ((i : ℕ) → i < at + length cs → e' i ≡ e i)
    → Written e at cs
    → Written e' at cs
unfolding Written
Written-same e e' at [] same w = tt
Written-same e e' at (c ∷ cs) same w =
    (same at (omega arith) ∙ w.0, Written-same e e' (at + 1) cs (λ i lt. same i (omega arith)) w.1)

upper-plain : (c : ℕ) → c ≢ b' ' → upper c ≢ b' '
unfolding upper
upper-plain c h e = ground (arith, e)

-- What is read is what was written, up to the space or to the end of the part.
read_part_lem :
    (cs : List ℕ) (e : ℕ → ℕ) (at n : ℕ)
    → IsPlain cs
    → Written e at (map upper cs)
    → (length cs ≡ n) ⊎ ((length cs < n) × (e (at + length cs) ≡ b' '))
    → read_part e at n ≡ map upper cs
unfolding read_part Written
read_part_lem [] e at zero p w h = refl
read_part_lem [] e at (suc n) p w (inl h) = absurd (omega arith)
read_part_lem [] e at (suc n) p w (inr h) =
    let here : (e at == b' ') ≡ true = (==_iff (e at) b' ').1 (ap e (omega arith) ∙ h.1) in
    rw here refl
read_part_lem (c ∷ cs) e at zero p w h = absurd (ground (arith, h))
read_part_lem (c ∷ cs) e at (suc n) p w h =
    let ends : (length cs ≡ n) ⊎ ((length cs < n) × (e (at + 1 + length cs) ≡ b' ')) = elim h [
      | inl whole ↦ inl (omega arith)
      | inr (short, space) ↦ inr (omega arith, ap e (omega arith) ∙ space)
    ] in
    let rest = read_part_lem cs e (at + 1) n p.2 w.1 ends in
    let plain : (e at == b' ') ≡ false = ground (arith, w.0, upper-plain c p.1) in
    rw plain (rw w.0 (rw rest refl))

put_base_lem :
    (cs rest : List ℕ) (i n : ℕ) (out : ℕ → ℕ)
    → IsPlain cs
    → length cs ≤ n
    → (rest ≡ []) ⊎ ((ext : List ℕ) × (rest ≡ b'.' ∷ ext))
    → put_base i n (cs ++ rest) out ≡ fill i (map upper cs) out
unfolding put_base fill
put_base_lem [] rest i zero out p le h = refl
put_base_lem [] rest i (suc n) out p le (inl h) = rw h refl
put_base_lem [] rest i (suc n) out p le (inr (ext, h)) = rw h refl
put_base_lem (c ∷ cs) rest i zero out p le h = absurd (omega arith)
put_base_lem (c ∷ cs) rest i (suc n) out p le h =
    let plain : (c == b'.') ≡ false = ground (arith, p.0) in
    rw plain (put_base_lem cs rest (i + 1) n (update out i (upper c)) p.2 (omega arith) h)

after_dot-base : (cs ext : List ℕ) → IsPlain cs → after_dot (cs ++ b'.' ∷ ext) ≡ ext
unfolding after_dot
after_dot-base [] ext p = refl
after_dot-base (c ∷ cs) ext p =
    let plain : (c == b'.') ≡ false = ground (arith, p.0) in rw plain (after_dot-base cs ext p.2)

put_extension_lem :
    (cs : List ℕ) (i n : ℕ) (out : ℕ → ℕ)
    → length cs ≤ n
    → put_extension i n cs out ≡ fill (8 + i) (map upper cs) out
unfolding put_extension fill
put_extension_lem [] i zero out le = refl
put_extension_lem [] i (suc n) out le = refl
put_extension_lem (c ∷ cs) i zero out le = absurd (omega arith)
put_extension_lem (c ∷ cs) i (suc n) out le =
    let next : 8 + (i + 1) ≡ 8 + i + 1 = omega arith in
    put_extension_lem cs (i + 1) n (update out (8 + i) (upper c)) (omega arith) ∙ rw next refl

module _ (base ext : List ℕ) (out : ℕ → ℕ) (p : IsPlain base) (q : IsPlain ext)
    (le : length base ≤ 8) (le' : length ext ≤ 3) where
  -- The entry, and the entry before the extension is written.
  abbrev half : ℕ → ℕ
  half = fill 0 (map upper base) (spaces out)

  abbrev whole : ℕ → ℕ
  whole = fill 8 (map upper ext) half

  to_83-fill : to_83 (base ++ b'.' ∷ ext) out ≡ whole
  unfolding to_83
  to_83-fill = rw (after_dot-base base ext p) (
      rw (put_base_lem base (b'.' ∷ ext) 0 8 (spaces out) p le (inr (ext, refl)))
        (put_extension_lem ext 0 3 half le'))

  -- Where neither part is written there is a space.
  space_at : (i : ℕ) → length base ≤ i → (i < 8) ⊎ (8 + length ext ≤ i) → i < 11 → whole i ≡ b' '
  unfolding spaces
  space_at i past out_of_ext small =
      let clear : (i < 8) ⊎ (8 + length (map upper ext) ≤ i) = elim out_of_ext [
        | inl l ↦ inl l
        | inr g ↦ inr (omega (arith, length-map ext upper))
      ] in
      let first = fill-other 8 (map upper ext) half i clear in
      let second =
        fill-other 0 (map upper base) (spaces out) i (inr (omega (arith, length-map base upper))) in
      first ∙ second ∙ ground arith

  read_base : read_part whole 0 8 ≡ map upper base
  read_base =
      let kept : (i : ℕ) → i < 0 + length (map upper base) → whole i ≡ half i =
        λ i lt. fill-other 8 (map upper ext) half i (inl (omega (arith, length-map base upper))) in
      let written =
        Written-same half whole 0 (map upper base) kept
          (fill-Written 0 (map upper base) (spaces out)) in
      read_part_lem base whole 0 8 p written (elim (Bool-cases (length base == 8)) [
        | inl full ↦ inl (ground arith)
        | inr short ↦ inr (
          ground arith,
          space_at (0 + length base) (omega arith) (inl (ground arith)) (omega arith),
        )
      ])

  read_ext : read_part whole 8 3 ≡ map upper ext
  read_ext =
      read_part_lem ext whole 8 3 q (fill-Written 8 (map upper ext) half)
        (elim (Bool-cases (length ext == 3)) [
          | inl full ↦ inl (ground arith)
          | inr short ↦ inr (
            ground arith,
            space_at (8 + length ext) (omega arith) (inr (omega arith)) (ground arith),
          )
        ])

-- For a name of up to 8 characters, a dot and 1 to 3 characters, none of them a dot or a space, from_83 of
-- what to_83 writes over any buffer is the name in capitals.
pub from_83-to_83 :
    (base ext : List ℕ) (out : ℕ → ℕ)
    → IsPlain base
    → IsPlain ext
    → length base ≤ 8
    → 1 ≤ length ext
    → length ext ≤ 3
    → from_83 (to_83 (base ++ b'.' ∷ ext) out) ≡ map upper base ++ b'.' ∷ map upper ext
unfolding from_83 Written
from_83-to_83 base [] out p q le one le' = absurd (omega arith)
from_83-to_83 base (x ∷ xs) out p q le one le' =
    let ext = x ∷ xs in
    let first = (fill-Written 8 (map upper ext) (fill 0 (map upper base) (spaces out))).0 in
    let has_ext : (fill 8 (map upper ext) (fill 0 (map upper base) (spaces out)) 8 == b' ')
        ≡ false =
      ground (arith, first, upper-plain x q.1) in
    rw (to_83-fill base ext out p q le le') (
      rw has_ext
        (rw (read_base base ext out p q le le') (rw (read_ext base ext out p q le le') refl)))
