-- ===== src/Task/Spawn/Argv.antt =====
-- The arguments that `build_user_stack` of kernel/drivers/task/task.c writes, and the pointers to
-- them.
use deva.Prelude.{
  ℕ, suc, ◌+◌, ◌*◌, ◌^◌, ◌≤◌, ◌<◌, ◌≡◌, ◌≢◌, ◌⊎◌, inl, inr, refl, ap, ◌∙◌, List, [], ◌∷◌, arith,
  update, length,
}
use deva.Fat32.{get32, put32}
use deva.Fat32.Words.{get32-put32, put32_outside, get32_agree}
use deva.Klib.Str.Text.{IsText, IsText-frame}
use deva.Task.Spawn.{total_str, put_string, put_strings, put_pointers}
use deva.Task.Spawn.Frame.{Agree}

-- No character of an argument is NUL.
abbrev pub IsCString : List ℕ → Type 0
IsCString [] = Unit {0}
IsCString (c ∷ cs) = (c ≢ 0) × IsCString cs

abbrev pub AreCStrings : List (List ℕ) → Type 0
AreCStrings [] = Unit {0}
AreCStrings (arg ∷ args) = IsCString arg × AreCStrings args

-- `argv` at `at`: a pointer to each argument, and NULL behind the last.
abbrev pub IsArgv : (ℕ → ℕ) → ℕ → List (List ℕ) → Type 0
IsArgv mem at [] = get32 mem at ≡ 0
IsArgv mem at (arg ∷ args) = IsText mem (get32 mem at) arg × IsArgv mem (at + 4) args

-- What `put_string` and `put_strings` write, with the arguments one behind the other.
abbrev Texts : (ℕ → ℕ) → ℕ → List (List ℕ) → Type 0
Texts mem p [] = Unit {0}
Texts mem p (arg ∷ args) = IsText mem p arg × Texts mem (p + (length arg + 1)) args

abbrev Pointers : (ℕ → ℕ) → ℕ → ℕ → List (List ℕ) → Type 0
Pointers mem at p [] = get32 mem at ≡ 0
Pointers mem at p (arg ∷ args) =
    (get32 mem at ≡ p) × Pointers mem (at + 4) (p + (length arg + 1)) args

pub Texts-frame :
    (m m' : ℕ → ℕ) (p : ℕ) (args : List (List ℕ)) → Agree m m' p → Texts m p args → Texts m' p args
Texts-frame m m' p [] h t = t
Texts-frame m m' p (arg ∷ args) h (t, ts) = (
  IsText-frame m m' p arg (λ a le le'. h a le) t,
  Texts-frame m m' (p + (length arg + 1)) args (λ b le. h b (omega (arith, le))) ts,
)

pub Pointers-frame :
    (m m' : ℕ → ℕ) (at p : ℕ) (args : List (List ℕ))
    → Agree m m' at
    → Pointers m at p args
    → Pointers m' at p args
Pointers-frame m m' at p [] h e = get32_agree m' m at (λ b le lt. h b le) ∙ e
Pointers-frame m m' at p (arg ∷ args) h (e, es) = (
  get32_agree m' m at (λ b le lt. h b le) ∙ e,
  Pointers-frame m m' (at + 4) (p + (length arg + 1)) args (λ b le. h b (omega (arith, le))) es,
)

pub IsArgv-Pointers :
    (m : ℕ → ℕ) (at p : ℕ) (args : List (List ℕ))
    → Pointers m at p args
    → Texts m p args
    → IsArgv m at args
IsArgv-Pointers m at p [] e t = e
IsArgv-Pointers m at p (arg ∷ args) (e, es) (t, ts) =
    (rw e t, IsArgv-Pointers m (at + 4) (p + (length arg + 1)) args es ts)

put_string_below :
    (cs : List ℕ) (p : ℕ) (mem : ℕ → ℕ) (b : ℕ)
    → (b < p) ⊎ (p + length cs < b)
    → put_string cs p mem b ≡ mem b
unfolding put_string
put_string_below [] p mem b h = ground (arith, h)
put_string_below (c ∷ cs) p mem b h =
    let ih = put_string_below cs (p + 1) (update mem p c) b (ground (arith, h)) in
    ih ∙ ground (arith, h)

put_string-IsText :
    (cs : List ℕ) (p : ℕ) (mem : ℕ → ℕ) → IsCString cs → IsText (put_string cs p mem) p cs
unfolding put_string
put_string-IsText [] p mem h = ground arith
put_string-IsText (c ∷ cs) p mem (nz, h) = (
  put_string_below cs (p + 1) (update mem p c) p (inl (omega arith)) ∙ ground arith,
  nz,
  put_string-IsText cs (p + 1) (update mem p c) h,
)

pub put_strings_outside :
    (args : List (List ℕ)) (p : ℕ) (mem : ℕ → ℕ) (b : ℕ)
    → (b < p) ⊎ (p + total_str args ≤ b)
    → put_strings args p mem b ≡ mem b
unfolding put_strings total_str
put_strings_outside [] p mem b h = refl
put_strings_outside (arg ∷ args) p mem b h =
    put_strings_outside args (p + (length arg + 1)) (put_string arg p mem) b (ground (arith, h))
    ∙ put_string_below arg p mem b (ground (arith, h))

pub put_strings-Texts :
    (args : List (List ℕ)) (p : ℕ) (mem : ℕ → ℕ)
    → AreCStrings args
    → Texts (put_strings args p mem) p args
unfolding put_strings
put_strings-Texts [] p mem h = h
put_strings-Texts (arg ∷ args) p mem (h, hs) =
    let q = p + (length arg + 1) in
    (
      IsText-frame (put_string arg p mem) (put_strings args q (put_string arg p mem)) p arg
          (λ a lo hi. put_strings_outside args q (put_string arg p mem) a (inl (omega (arith, hi))))
          (put_string-IsText arg p mem h),
      put_strings-Texts args q (put_string arg p mem) hs,
    )

pub put_pointers_outside :
    (args : List (List ℕ)) (p at : ℕ) (mem : ℕ → ℕ) (b : ℕ)
    → (b < at) ⊎ (at + 4 * length args ≤ b)
    → put_pointers args p at mem b ≡ mem b
unfolding put_pointers
put_pointers_outside [] p at mem b h = refl
put_pointers_outside (arg ∷ args) p at mem b h =
    put_pointers_outside args (p + (length arg + 1)) (at + 4) (put32 mem at p) b (ground (arith, h))
    ∙ put32_outside mem at p b (ground (arith, h))

pub put_pointers-Pointers :
    (args : List (List ℕ)) (p at : ℕ) (mem : ℕ → ℕ)
    → p + total_str args < 2 ^ 32
    → get32 mem (at + 4 * length args) ≡ 0
    → Pointers (put_pointers args p at mem) at p args
unfolding put_pointers total_str
put_pointers-Pointers [] p at mem room e =
    ap (get32 mem) {x = at} {y = at + 4 * 0} (omega arith) ∙ e
put_pointers-Pointers (arg ∷ args) p at mem room e =
    let q = p + (length arg + 1) in
    let m1 = put32 mem at p in
    let end_zero : get32 m1 (at + 4 + 4 * length args) ≡ 0 =
      get32_agree m1 mem (at + 4 + 4 * length args)
        (λ i lo hi. put32_outside mem at p i (inr (omega (arith, lo))))
      ∙ ap (get32 mem) {x = at + 4 + 4 * length args} {y = at + 4 * suc (length args)} (omega arith)
      ∙ e in
    (
      get32_agree (put_pointers args q (at + 4) m1) m1 at
            (λ i lo hi. put_pointers_outside args q (at + 4) m1 i (inl hi))
          ∙ get32-put32 mem at p (omega (arith, room)),
      put_pointers-Pointers args q (at + 4) m1 (omega (arith, room)) end_zero,
    )
