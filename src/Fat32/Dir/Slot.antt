-- ===== src/Fat32/Dir/Slot.antt =====
-- New entries and new directories of kernel/drivers/fat32/fat32.c: `find_free_dir_slot`,
-- `dir_add_entry` and `dir_init`.
use deva.Prelude.{
  ℕ, zero, suc, ◌+◌, ◌/◌, ◌%◌, ◌^◌, Bool, false, ◌&&◌, ◌||◌, Option, none, some, List, ltb, leb,
  ◌==◌, if◌then◌else◌, update,
}
use deva.Fat32.{SectorDevice, Fs, is_data, read_cluster, write_cluster}
use deva.Fat32.Fat.{fat_read, fat_write, fat_alloc}
use deva.Fat32.Dir.{Place, attr_dir, deleted, entry_count, new_entry, modify_dir_entry}

-- The loop over `n` entries from `at` on: the first free slot.
unfoldable pub free_slot : (ℕ → ℕ) → ℕ → ℕ → Option ℕ
free_slot buf at zero = none
free_slot buf at (suc n) =
    let rest = free_slot buf (at + 32) n in
    if buf at == 0 || buf at == deleted then some at else rest

-- `*(uint16_t *)(buf + off) = value`
pub put16 : (ℕ → ℕ) → ℕ → ℕ → ℕ → ℕ
put16 buf off value = update (update buf off (value % 2 ^ 8)) (off + 1) (value / 2 ^ 8 % 2 ^ 8)

-- `memset(buf + at, c, n)`
pub fill_bytes : (ℕ → ℕ) → ℕ → ℕ → ℕ → ℕ → ℕ
fill_bytes buf at c n i = if leb at i && ltb i (at + n) then c else buf i

-- The two entries that `dir_init` writes into an empty cluster.
pub dot_entries : (ℕ → ℕ) → ℕ → ℕ → ℕ → ℕ → ℕ
unfolding put16 fill_bytes
dot_entries buf cluster_bytes dir_cluster parent_cluster =
    let b0 = fill_bytes (fill_bytes buf 0 0 cluster_bytes) 0 b' ' 11 in
    let b1 = update (update b0 0 b'.') 11 attr_dir in
    let b2 = put16 (put16 b1 26 (dir_cluster % 2 ^ 16)) 20 (dir_cluster / 2 ^ 16 % 2 ^ 16) in
    let b3 = update (update (fill_bytes b2 32 b' ' 11) 32 b'.') 33 b'.' in
    let b4 = update b3 43 attr_dir in
    put16 (put16 b4 58 (parent_cluster % 2 ^ 16)) 52 (parent_cluster / 2 ^ 16 % 2 ^ 16)

-- What the walk for a slot comes to: a failed read, a slot, or the last cluster of the chain.
pub data SlotSearch : Type 0 where
  failed : SlotSearch
  slot : Place → SlotSearch
  full : ℕ → SlotSearch

module _ {D : Type 0} (dev : SectorDevice D) (stack : ℕ → ℕ) where
  pub find_slot_from : ℕ → ℕ → ℕ → Fs D → Option (SlotSearch × Fs D)
  find_slot_from zero cluster last s = none
  find_slot_from (suc fuel) cluster last s =
      let (ok, s1) = read_cluster dev cluster s in
      let (next, s2) = fat_read dev cluster s1 in
      let rest = find_slot_from fuel next cluster s2 in
      let found : Option (SlotSearch × Fs D) = elim (free_slot s1.cluster_buf 0 (entry_count s1)) [
        | some offset ↦ some (slot (record { cluster = cluster; offset = offset }), s1)
        | none ↦ rest
      ] in
      if is_data cluster then (if ok then found else some (failed, s1)) else some (full last, s)

  -- The directory gets one more cluster, all zero, behind `last`. The result of the write is not
  -- looked at.
  pub grow_dir : ℕ → Fs D → Option Place × Fs D
  grow_dir last s =
      let (new_cl, s1) = fat_alloc dev stack s in
      let s2 = fat_write dev stack last new_cl s1 in
      let s3 = record s2 { cluster_buf = fill_bytes s2.cluster_buf 0 0 s2.cluster_bytes } in
      let s4 = (write_cluster dev new_cl s3).1 in
      if last == 0
      then (none, s)
      else if new_cl == 0
      then (none, s1)
      else (some (record { cluster = new_cl; offset = 0 }), s4)

  pub find_free_dir_slot : ℕ → ℕ → Fs D → Option (Option Place × Fs D)
  find_free_dir_slot fuel dir_cluster s = elim (find_slot_from fuel dir_cluster 0 s) [
    | none ↦ none
    | some (failed, s1) ↦ some (none, s1)
    | some (slot p, s1) ↦ some (some p, s1)
    | some (full last, s1) ↦ some (grow_dir last s1)
  ]

  pub dir_add_entry : ℕ → ℕ → List ℕ → ℕ → ℕ → ℕ → Fs D → Option (Bool × Fs D)
  dir_add_entry fuel dir_cluster name attr first size s =
      elim (find_free_dir_slot fuel dir_cluster s) [
        | none ↦ none
        | some (none, s1) ↦ some (false, s1)
        | some (some p, s1) ↦
            some (modify_dir_entry dev p.cluster p.offset (new_entry name attr first size) s1)
      ]

  pub dir_init : ℕ → ℕ → Fs D → Bool × Fs D
  dir_init dir_cluster parent_cluster s = write_cluster dev dir_cluster (record s {
    cluster_buf = dot_entries s.cluster_buf s.cluster_bytes dir_cluster parent_cluster;
  })
