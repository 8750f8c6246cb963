-- ===== src/Fat32/Path.antt =====
-- Paths of kernel/drivers/fat32/fat32.c, as the list of their characters before the NUL.
-- `resolve_path` and `resolve_parent` take the fuel of the walks along a chain; their own loop goes
-- round once for each character at most.
pub mod Parent
use deva.Prelude.{
  ℕ, zero, suc, ◌+◌, ◌-◌, ◌*◌, ◌/◌, ◌%◌, ◌^◌, ◌≤◌, ◌<◌, min, ◌≡◌, ◌≢◌, ◌⊎◌, inl, inr, refl, sym, ap,
  ◌∙◌, Bool, true, false, ◌&&◌, ◌||◌, Option, none, some, List, [], ◌∷◌, ◌++◌, arith, ltb, leb,
  ◌==◌, if◌then◌else◌, not_zero, Bool-cases, Option-cases, update, bit_and, bit_or, length, get_or,
  take, drop, replicate,
}
use deva.Fat32.{SectorDevice, Fs}
use deva.Fat32.Dir.{Place, first_cluster, find_entry, find_in_dir}

abbrev pub slash : ℕ
slash = 47

-- The loop that copies a component of at most `room` characters: it and what is left of the path.
pub take_component : ℕ → List ℕ → List ℕ × List ℕ
take_component zero path = ([], path)
take_component (suc room) [] = ([], [])
take_component (suc room) (c ∷ cs) =
    let (component, rest) = take_component room cs in
    if c == slash then ([], c ∷ cs) else (c ∷ component, rest)

-- `if (*path == '/') path++;`
pub skip_slash : List ℕ → List ℕ
skip_slash [] = []
skip_slash (c ∷ cs) = if c == slash then cs else c ∷ cs

-- The component is `.`
pub is_dot : List ℕ → Bool
is_dot [] = false
is_dot (c ∷ []) = c == b'.'
is_dot (c ∷ d ∷ cs) = false

pub is_empty : List ℕ → Bool
is_empty [] = true
is_empty (c ∷ cs) = false

-- The cluster, or 0, and what goes to `*size_out`: `none` if the size stays unset.
pub record Resolved (D : Type 0) : Type 0 where
  pub cluster : ℕ
  pub size : Option ℕ
  pub fs : Fs D

abbrev pub answer : {D : Type 0} → ℕ → Option ℕ → Fs D → Option (Resolved D)
answer cluster size s = some (record { cluster = cluster; size = size; fs = s })

-- A path without its first slash gets one, if it is not too long.
pub normalized : List ℕ → Option (List ℕ)
normalized [] = some (slash ∷ [])
normalized (c ∷ cs) =
    if c == slash
    then some (c ∷ cs)
    else if leb 256 (length (c ∷ cs) + 1)
    then none
    else some (slash ∷ c ∷ cs)

module _ {D : Type 0} (dev : SectorDevice D) (fuel : ℕ) where
  -- The last component: the cluster of its entry.
  pub resolve_last : ℕ → List ℕ → Fs D → Option (Resolved D)
  resolve_last dir_cluster component s = elim (find_entry dev fuel dir_cluster component s) [
    | none ↦ none
    | some (none, s1) ↦ answer 0 none s1
    | some (some (p, size), s1) ↦ answer (first_cluster s1.cluster_buf p.offset) (some size) s1
  ]

  -- The loop over the components.
  pub resolve_from : ℕ → List ℕ → ℕ → Fs D → Option (Resolved D)
  resolve_from zero path dir_cluster s = none
  resolve_from (suc rounds) path dir_cluster s =
      let (component, left) = take_component 63 path in
      let rest = skip_slash left in
      let on = resolve_from rounds rest dir_cluster s in
      let down : Option (Resolved D) = elim (find_in_dir dev fuel dir_cluster component s) [
        | none ↦ none
        | some ((next, size), s1) ↦
            (let deeper = resolve_from rounds rest next s1 in
              if next == 0 then answer 0 none s1 else deeper)
      ] in
      if is_empty path
      then answer 0 none s
      else if is_empty component
      then on
      else if is_dot component
      then (if is_empty rest then answer dir_cluster none s else on)
      else if is_empty rest
      then resolve_last dir_cluster component s
      else down

  -- `none` as path is the null pointer.
  pub resolve_path : Option (List ℕ) → Fs D → Option (Resolved D)
  resolve_path none s = answer 0 none s
  resolve_path (some path) s = elim (normalized path) [
    | none ↦ answer 0 none s
    | some whole ↦
        if is_empty (drop 1 whole)
        then answer s.root_cluster (some 0) s
        else resolve_from (length whole) (drop 1 whole) s.root_cluster s
  ]
