-- ===== src/Fat32/File/Info.antt =====
-- `fat32_stat` of kernel/drivers/fat32/fat32.c.
use deva.Prelude.{
  ℕ, Bool, false, ◌&&◌, Option, none, some, List, [], ◌∷◌, ◌==◌, if◌then◌else◌, update, take,
}
use deva.Fat32.{SectorDevice, Fs, is_data, read_cluster}
use deva.Fat32.Dir.{find_entry, same_bytes}
use deva.Fat32.Dir.Slot.{fill_bytes}
use deva.Fat32.Path.{slash, resolve_path}
use deva.Fat32.File.{parent_of}

-- `fat32_stat_t`; the name is without its NUL.
pub record Stat : Type 0 where
  pub is_dir : Bool
  pub size : ℕ
  pub name : List ℕ

-- The text behind the last slash, or the whole path: `slash` moves on at every slash.
pub behind_slash : List ℕ → List ℕ → List ℕ
behind_slash [] best = best
behind_slash (c ∷ cs) best = behind_slash cs (if c == slash then cs else best)

-- The cluster starts with the entry `.`, as `dir_init` writes it.
pub starts_with_dot : (ℕ → ℕ) → Bool
starts_with_dot buf = same_bytes buf 0 (update (fill_bytes (λ i. 0) 0 b' ' 11) 0 b'.') 0 11

module _ {D : Type 0} (dev : SectorDevice D) (fuel : ℕ) (stack : ℕ → ℕ) where
  -- The size in the entry of a path that leads to cluster 0; `none` inside is the answer -1.
  pub size_of_empty : List ℕ → Fs D → Option (Option ℕ × Fs D)
  size_of_empty path s = elim (parent_of dev fuel stack path s) [
    | none ↦ none
    | some (none, s1) ↦ some (none, s1)
    | some (some (parent, leaf), s1) ↦ elim (find_entry dev fuel parent leaf s1) [
      | none ↦ none
      | some (none, s2) ↦ some (none, s2)
      | some (some (p, size), s2) ↦ some (some size, s2)
    ]
  ]

  -- What `out` gets.
  pub stat_at : List ℕ → ℕ → ℕ → Fs D → Option Stat × Fs D
  stat_at path cluster size s =
      let (ok, s1) = read_cluster dev cluster s in
      let out : Bool → Stat =
        λ dir. record { is_dir = dir; size = size; name = take 12 (behind_slash path path) } in
      if is_data cluster
      then (some (out (ok && starts_with_dot s1.cluster_buf)), s1)
      else (some (out false), s)

  -- `unset` is what the variable `size` holds if `resolve_path` does not set it; `none` inside is the
  -- answer -1.
  pub fat32_stat : ℕ → List ℕ → Fs D → Option (Option Stat × Fs D)
  fat32_stat unset path s = elim (resolve_path dev fuel (some path) s) [
    | none ↦ none
    | some r ↦
        (let size : ℕ = elim r.size [ none ↦ unset | some n ↦ n ] in
          let empty : Option (Option Stat × Fs D) = elim (size_of_empty path r.fs) [
            | none ↦ none
            | some (none, s1) ↦ some (none, s1)
            | some (some n, s1) ↦ some (stat_at path 0 n s1)
          ] in
          if r.cluster == 0 then empty else some (stat_at path r.cluster size r.fs))
  ]
