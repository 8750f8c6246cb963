-- ===== src/Fat32/File/Remove.antt =====
-- `delete_recursive` and `fat32_delete_recursive` of kernel/drivers/fat32/fat32.c. All levels share
-- `cluster_buf`, as in the code: after a directory inside is deleted the loop goes on over what that
-- left in the buffer. `depth` bounds the levels and `fuel` the chains; `none` means that one ran out.
use deva.Prelude.{
  ℕ, zero, suc, ◌+◌, Bool, true, false, ◌&&◌, ◌||◌, Option, none, some, List, ltb, ◌==◌,
  if◌then◌else◌, not_zero, update, bit_and,
}
use deva.Prelude.Int.{ℤ, pos, negsuc}
use deva.Fat32.{SectorDevice, Fs, is_data, read_cluster, write_cluster}
use deva.Fat32.Fat.{fat_read, fat_free_chain}
use deva.Fat32.Dir.{attr_dir, deleted, is_skipped, entry_count, first_cluster, find_entry}
use deva.Fat32.Path.{resolve_path}
use deva.Fat32.File.{failed, parent_of, delete_entry}

-- The entry is `.` or `..`.
pub is_dots : (ℕ → ℕ) → ℕ → Bool
is_dots buf at = buf at == b'.' && (buf (at + 1) == b' ' || buf (at + 1) == b'.')

module _ {D : Type 0} (dev : SectorDevice D) (fuel : ℕ) (stack : ℕ → ℕ) where
  -- The body of the loop over the entries, for the entry at `at`; `inside` deletes a directory.
  pub delete_one : (ℕ → Fs D → Option (ℤ × Fs D)) → ℕ → Fs D → Option (Fs D)
  delete_one inside at s =
      let sub = first_cluster s.cluster_buf at in
      let emptied : Option (Fs D) =
        if not_zero (bit_and (s.cluster_buf (at + 11)) attr_dir)
        then elim (inside sub s) [ none ↦ none | some (code, s1) ↦ some s1 ]
        else some s in
      elim emptied [
        | none ↦ none
        | some s1 ↦ elim (fat_free_chain dev fuel stack sub s1) [
          | none ↦ none
          | some s2 ↦ some (record s2 { cluster_buf = update s2.cluster_buf at deleted })
        ]
      ]

  -- The loop over `n` entries from `at` on; true for the jump to the end.
  pub delete_entries : (ℕ → Fs D → Option (ℤ × Fs D)) → ℕ → ℕ → Fs D → Option (Bool × Fs D)
  delete_entries inside at zero s = some (false, s)
  delete_entries inside at (suc n) s =
      let on = delete_entries inside (at + 32) n s in
      let one : Option (Bool × Fs D) = elim (delete_one inside at s) [
        | none ↦ none
        | some s1 ↦ delete_entries inside (at + 32) n s1
      ] in
      if s.cluster_buf at == 0
      then some (true, s)
      else if is_skipped s.cluster_buf at || is_dots s.cluster_buf at
      then on
      else one

  -- The loop over the chain; false for a failed read.
  pub delete_chain : (ℕ → Fs D → Option (ℤ × Fs D)) → ℕ → ℕ → Fs D → Option (Bool × Fs D)
  delete_chain inside zero cluster s = none
  delete_chain inside (suc rounds) cluster s =
      let (ok, s1) = read_cluster dev cluster s in
      let entries : Option (Bool × Fs D) = elim (delete_entries inside 0 (entry_count s1) s1) [
        | none ↦ none
        | some (true, s2) ↦ some (true, s2)
        | some (false, s2) ↦
            (let (next, s3) = fat_read dev cluster s2 in delete_chain inside rounds next s3)
      ] in
      if is_data cluster then (if ok then entries else some (false, s1)) else some (true, s)

  pub delete_recursive : ℕ → ℕ → Fs D → Option (ℤ × Fs D)
  delete_recursive zero dir_cluster s = none
  delete_recursive (suc depth) dir_cluster s =
      let walked : Option (ℤ × Fs D) =
        elim (delete_chain (delete_recursive depth) fuel dir_cluster s) [
          | none ↦ none
          | some (false, s1) ↦ failed (negsuc 0) s1
          | some (true, s1) ↦
              (let (ok, s2) = write_cluster dev dir_cluster s1 in
                some (if ok then pos 0 else negsuc 0, s2))
        ] in
      if ltb dir_cluster 2 then some (pos 0, s) else walked

  -- The part of `fat32_delete_recursive` for a directory or a file with clusters.
  pub delete_tree : ℕ → ℕ → List ℕ → ℕ → Fs D → Option (ℤ × Fs D)
  delete_tree depth parent leaf cluster s = elim (delete_recursive depth cluster s) [
    | none ↦ none
    | some (code, s1) ↦ elim (fat_free_chain dev fuel stack cluster s1) [
      | none ↦ none
      | some s2 ↦ delete_entry dev fuel stack parent leaf s2
    ]
  ]

  pub fat32_delete_recursive : ℕ → List ℕ → Fs D → Option (ℤ × Fs D)
  fat32_delete_recursive depth path s = elim (parent_of dev fuel stack path s) [
    | none ↦ none
    | some (none, s1) ↦ failed (negsuc 0) s1
    | some (some (parent, leaf), s1) ↦ elim (resolve_path dev fuel (some path) s1) [
      | none ↦ none
      | some r ↦
          (let empty : Option (ℤ × Fs D) = elim (find_entry dev fuel parent leaf r.fs) [
            | none ↦ none
            | some (none, s2) ↦ failed (negsuc 0) s2
            | some (some found, s2) ↦ delete_entry dev fuel stack parent leaf s2
          ] in
            let tree = delete_tree depth parent leaf r.cluster r.fs in
            if ltb r.cluster 2 then empty else tree)
    ]
  ]
