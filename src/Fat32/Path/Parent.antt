-- ===== src/Fat32/Path/Parent.antt =====
-- `resolve_parent` of kernel/drivers/fat32/fat32.c: the directory and the last component of a path.
-- `leaf_max` is not looked at, in the code either.
use deva.Prelude.{ℕ, ◌&&◌, Option, none, some, List, [], ◌∷◌, leb, ◌==◌, if◌then◌else◌, length}
use deva.Fat32.{SectorDevice, Fs}
use deva.Fat32.Path.{slash, Resolved, normalized, is_empty, resolve_path}

-- `while (len > 1 && tmp[len - 1] == '/') tmp[--len] = '\0';`: no slash is left at the end of a path
-- but its first character.
pub strip_tail : List ℕ → List ℕ
strip_tail [] = []
strip_tail (c ∷ cs) =
    let rest = strip_tail cs in if c == slash && is_empty rest then [] else c ∷ rest

pub strip_slashes : List ℕ → List ℕ
strip_slashes [] = []
strip_slashes (c ∷ cs) = c ∷ strip_tail cs

-- The parts of a path before and behind its last slash, which `none` says there is not.
pub split_last : List ℕ → Option (List ℕ × List ℕ)
split_last [] = none
split_last (c ∷ cs) = elim (split_last cs) [
  | some (parent, leaf) ↦ some (c ∷ parent, leaf)
  | none ↦ if c == slash then some ([], cs) else none
]

module _ {D : Type 0} (dev : SectorDevice D) (fuel : ℕ) where
  -- The cluster of the directory, or 0, with what is copied to `leaf`, if anything is.
  pub resolve_parent : Option (List ℕ) → Fs D → Option (Option (List ℕ) × Resolved D)
  resolve_parent none s = some (none, record { cluster = 0; size = none; fs = s })
  resolve_parent (some path) s = elim (normalized path) [
    | none ↦ some (none, record { cluster = 0; size = none; fs = s })
    | some whole ↦
        if leb 256 (length whole)
        then some (none, record { cluster = 0; size = none; fs = s })
        else elim (split_last (strip_slashes whole)) [
          | none ↦
              some (
                some (strip_slashes whole),
                record { cluster = s.root_cluster; size = none; fs = s },
              )
          | some (parent, leaf) ↦
              if is_empty parent
              then some (some leaf, record { cluster = s.root_cluster; size = none; fs = s })
              else elim (resolve_path dev fuel (some parent) s) [
                | none ↦ none
                | some r ↦ some (some leaf, r)
              ]
        ]
  ]
