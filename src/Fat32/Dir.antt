-- ===== src/Fat32/Dir.antt =====
-- Directories of kernel/drivers/fat32/fat32.c: the search for a name, for a free slot, and the changes
-- of an entry. An entry is 32 bytes at a multiple of 32 in `cluster_buf`. The walks along a chain take
-- fuel, and `none` means that it ran out, as the code runs on for ever on a chain that bites its tail.
pub mod Scan
pub mod Slot
pub mod Added
mod Tests
use deva.Prelude.{
  ℕ, zero, suc, ◌+◌, ◌-◌, ◌*◌, ◌/◌, ◌%◌, ◌^◌, ◌≤◌, ◌<◌, min, ◌≡◌, ◌≢◌, ◌⊎◌, inl, inr, refl, sym, ap,
  ◌∙◌, Bool, true, false, ◌&&◌, ◌||◌, Option, none, some, List, [], ◌∷◌, ◌++◌, arith, ltb, leb,
  ◌==◌, if◌then◌else◌, not_zero, Bool-cases, Option-cases, update, bit_and, bit_or, length, get_or,
  take, drop, replicate,
}
use deva.Fat32.{SectorDevice, Fs, get16, get32, is_data, read_cluster, write_cluster}
use deva.Fat32.Fat.{fat_read, fat_write, fat_alloc}
use deva.Fat32.Names.{to_83}

abbrev pub attr_lfn : ℕ
attr_lfn = 0x0F

abbrev pub attr_dir : ℕ
attr_dir = 0x10

abbrev pub deleted : ℕ
deleted = 0xE5

-- `memcmp(e, target, 11) == 0`, over `n` bytes of the entry at `at` and of the target from `i` on.
pub same_bytes : (ℕ → ℕ) → ℕ → (ℕ → ℕ) → ℕ → ℕ → Bool
same_bytes buf at target i zero = true
same_bytes buf at target i (suc n) =
    (buf (at + i) == target i) && same_bytes buf at target (i + 1) n

-- The entry at `at` is skipped: deleted, or part of a long name.
pub is_skipped : (ℕ → ℕ) → ℕ → Bool
is_skipped buf at = buf at == deleted || bit_and (buf (at + 11)) attr_lfn == attr_lfn

-- What the loop over the entries of a cluster comes to.
pub data Scanned : Type 0 where
  ended past : Scanned
  hit : ℕ → Scanned

-- The loop over `n` entries from `at` on, in `find_in_dir` and in `find_entry`.
pub scan_entries : (ℕ → ℕ) → (ℕ → ℕ) → ℕ → ℕ → Scanned
unfolding same_bytes is_skipped
scan_entries target buf at zero = past
scan_entries target buf at (suc n) =
    let rest = scan_entries target buf (at + 32) n in
    if buf at == 0
    then ended
    else if is_skipped buf at
    then rest
    else if same_bytes buf at target 0 11
    then hit at
    else rest

-- The rounds of `for (i = 0; i < cluster_bytes; i += 32)`.
pub entry_count : {D : Type 0} → Fs D → ℕ
entry_count s = (s.cluster_bytes + 31) / 32

-- `(hi << 16) | lo` of the entry at `at`
pub first_cluster : (ℕ → ℕ) → ℕ → ℕ
first_cluster buf at = get16 buf (at + 20) * 2 ^ 16 + get16 buf (at + 26)

-- Where an entry is; its cluster is in `cluster_buf`.
pub record Place : Type 0 where
  pub cluster : ℕ
  pub offset : ℕ

-- `put8` writes one byte of an entry.
abbrev put8 : (ℕ → ℕ) → ℕ → ℕ → ℕ → ℕ
put8 buf i v = update buf i (v % 2 ^ 8)

-- The 32 bytes of an entry copied into a cluster at `offset`.
pub put_entry : (ℕ → ℕ) → ℕ → (ℕ → ℕ) → ℕ → ℕ
put_entry buf offset entry i =
    if leb offset i && ltb i (offset + 32) then entry (i - offset) else buf i

-- The entry that `dir_add_entry` builds.
pub new_entry : List ℕ → ℕ → ℕ → ℕ → ℕ → ℕ
new_entry name attr cluster size =
    let e0 = to_83 name (λ i. 0) in
    let e1 = put8 e0 11 attr in
    let e2 = put8 (put8 e1 26 cluster) 27 (cluster / 2 ^ 8) in
    let e3 = put8 (put8 e2 20 (cluster / 2 ^ 16)) 21 (cluster / 2 ^ 24) in
    put8 (put8 (put8 (put8 e3 28 size) 29 (size / 2 ^ 8)) 30 (size / 2 ^ 16)) 31 (size / 2 ^ 24)

module _ {D : Type 0} (dev : SectorDevice D) where
  -- The loop over the chain in `find_in_dir` and in `find_entry`.
  pub find_from : ℕ → (ℕ → ℕ) → ℕ → Fs D → Option (Option Place × Fs D)
  find_from zero target cluster s = none
  find_from (suc fuel) target cluster s =
      let (ok, s1) = read_cluster dev cluster s in
      let (next, s2) = fat_read dev cluster s1 in
      let rest = find_from fuel target next s2 in
      let found : Option (Option Place × Fs D) =
        elim (scan_entries target s1.cluster_buf 0 (entry_count s1)) [
          | ended ↦ some (none, s1)
          | hit offset ↦ some (some (record { cluster = cluster; offset = offset }), s1)
          | past ↦ rest
        ] in
      if is_data cluster then (if ok then found else some (none, s1)) else some (none, s)

  -- The place of the entry and the size in it; `none` inside is the answer 0.
  pub find_entry : ℕ → ℕ → List ℕ → Fs D → Option (Option (Place × ℕ) × Fs D)
  find_entry fuel dir_cluster name s = elim (find_from fuel (to_83 name (λ i. 0)) dir_cluster s) [
    | none ↦ none
    | some (none, s1) ↦ some (none, s1)
    | some (some p, s1) ↦ some (some (p, get32 s1.cluster_buf (p.offset + 28)), s1)
  ]

  -- The first cluster of the entry, or 0, and the size, which stays unset if there is none.
  pub find_in_dir : ℕ → ℕ → List ℕ → Fs D → Option ((ℕ × Option ℕ) × Fs D)
  find_in_dir fuel dir_cluster name s = elim (find_from fuel (to_83 name (λ i. 0)) dir_cluster s) [
    | none ↦ none
    | some (none, s1) ↦ some ((0, none), s1)
    | some (some p, s1) ↦
        some
          ((first_cluster s1.cluster_buf p.offset, some (get32 s1.cluster_buf (p.offset + 28))), s1)
  ]

  pub modify_dir_entry : ℕ → ℕ → (ℕ → ℕ) → Fs D → Bool × Fs D
  modify_dir_entry cluster offset entry s =
      let (ok, s1) = read_cluster dev cluster s in
      if ok
      then write_cluster dev cluster
          (record s1 { cluster_buf = put_entry s1.cluster_buf offset entry })
      else (false, s1)

  -- The byte 0xE5 over the first one of the entry; false is the answer -1.
  pub delete_entry_in_dir : ℕ → ℕ → List ℕ → Fs D → Option (Bool × Fs D)
  delete_entry_in_dir fuel dir_cluster name s = elim (find_entry fuel dir_cluster name s) [
    | none ↦ none
    | some (none, s1) ↦ some (false, s1)
    | some (some (p, size), s1) ↦
        (let (ok, s2) = read_cluster dev p.cluster s1 in
          some (
            if ok
            then write_cluster dev p.cluster
                (record s2 { cluster_buf = update s2.cluster_buf p.offset deleted })
            else (false, s2)))
  ]
