-- ===== src/Fat32/File/Write.antt =====
-- `fat32_write` of kernel/drivers/fat32/fat32.c: the old chain is freed and the entry deleted before the
-- new clusters are reserved.
pub mod Linked
use deva.Prelude.{
  ℕ, zero, suc, ◌+◌, ◌-◌, ◌/◌, ◌%◌, ◌^◌, min, Bool, true, false, Option, none, some, List, ltb,
  ◌==◌, if◌then◌else◌,
}
use deva.Prelude.Int.{ℤ, pos, negsuc}
use deva.Fat32.{SectorDevice, Fs, write_cluster}
use deva.Fat32.Fat.{fat_read, fat_write, fat_alloc, fat_free_chain}
use deva.Fat32.Dir.{delete_entry_in_dir}
use deva.Fat32.Dir.Slot.{fill_bytes, dir_add_entry}
use deva.Fat32.Path.{resolve_path}
use deva.Fat32.File.{failed, parent_of}
use deva.Fat32.File.Read.{copy_bytes}

module _ {D : Type 0} (dev : SectorDevice D) (fuel : ℕ) (stack : ℕ → ℕ) where
  -- The loop that reserves `n` more clusters behind `prev`; false if there is none left.
  pub link_clusters : ℕ → ℕ → Fs D → Bool × Fs D
  link_clusters zero prev s = (true, s)
  link_clusters (suc n) prev s =
      let (next, s1) = fat_alloc dev stack s in
      let rest = link_clusters n next (fat_write dev stack prev next s1) in
      if next == 0 then (false, s1) else rest

  -- The loop over the clusters of the data; false if a write failed. A round writes at least a byte, so
  -- `size` rounds are enough.
  pub write_loop : ℕ → (ℕ → ℕ) → ℕ → ℕ → ℕ → Fs D → Bool × Fs D
  write_loop zero buf size written cl s = (true, s)
  write_loop (suc rounds) buf size written cl s =
      let n = min s.cluster_bytes (size - written) in
      let cleared = fill_bytes s.cluster_buf 0 0 s.cluster_bytes in
      let s1 = record s { cluster_buf = copy_bytes cleared 0 buf written n } in
      let (ok, s2) = write_cluster dev cl s1 in
      let (next, s3) = fat_read dev cl s2 in
      let rest = write_loop rounds buf size (written + n) next s3 in
      if ltb written size then (if ok then rest else (false, s2)) else (true, s)

  -- The new chain is freed again.
  pub undo : ℕ → Fs D → Option (ℤ × Fs D)
  undo first s = elim (fat_free_chain dev fuel stack first s) [
    | none ↦ none
    | some s1 ↦ failed (negsuc 0) s1
  ]

  -- The part of `fat32_write` that fills new clusters and adds the entry.
  pub write_new : ℕ → List ℕ → (ℕ → ℕ) → ℕ → Fs D → Option (ℤ × Fs D)
  write_new parent leaf buf size s =
      let needed = (size + s.cluster_bytes + (2 ^ 32 - 1)) % 2 ^ 32 / s.cluster_bytes in
      let (first, s1) = fat_alloc dev stack s in
      let (linked, s2) = link_clusters (needed - 1) first s1 in
      let (stored, s3) = write_loop size buf size 0 first s2 in
      let added : Option (ℤ × Fs D) =
        elim (dir_add_entry dev stack fuel parent leaf 0x20 first size s3) [
          | none ↦ none
          | some (ok, s4) ↦ if ok then some (pos size, s4) else undo first s4
        ] in
      if first == 0
      then failed (negsuc 0) s1
      else if linked
      then (if stored then added else undo first s3)
      else undo first s2

  -- The old file goes, if there is one.
  pub remove_old : ℕ → List ℕ → ℕ → Fs D → Option (Fs D)
  remove_old parent leaf old_cluster s =
      let freed : Option (Fs D) =
        if old_cluster == 0 then some s else fat_free_chain dev fuel stack old_cluster s in
      elim freed [
        | none ↦ none
        | some s1 ↦ elim (delete_entry_in_dir dev fuel parent leaf s1) [
          | none ↦ none
          | some (ok, s2) ↦ some s2
        ]
      ]

  pub fat32_write : List ℕ → (ℕ → ℕ) → ℕ → Fs D → Option (ℤ × Fs D)
  fat32_write path buf size s = elim (parent_of dev fuel stack path s) [
    | none ↦ none
    | some (none, s1) ↦ failed (negsuc 0) s1
    | some (some (parent, leaf), s1) ↦ elim (resolve_path dev fuel (some path) s1) [
      | none ↦ none
      | some r ↦ elim (remove_old parent leaf r.cluster r.fs) [
        | none ↦ none
        | some s2 ↦
            (let new = write_new parent leaf buf size s2 in
              if size == 0 then some (pos 0, s2) else new)
      ]
    ]
  ]
