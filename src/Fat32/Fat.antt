-- ===== src/Fat32/Fat.antt =====
-- The file allocation table of kernel/drivers/fat32/fat32.c: reading through the cache of one sector,
-- writing all copies, finding and reserving a free cluster, and freeing a chain.
pub mod Device
pub mod Cache
pub mod Alloc
pub mod Chain
use deva.Prelude.{
  ℕ, zero, suc, ◌+◌, ◌-◌, ◌*◌, ◌/◌, ◌%◌, ◌^◌, Bool, Option, none, some, ◌==◌, if◌then◌else◌,
  not_zero, bit_and,
}
use deva.Fat32.{SectorDevice, Fs, fat_eoc, fat_mask, get32, put32, is_data}

module _ {D : Type 0} where
  -- The sector of a cluster's entry in the first copy, and the place in it.
  unfoldable pub fat_sector : ℕ → Fs D → ℕ
  fat_sector cluster s = (s.fat_start + cluster * 4 % 2 ^ 32 / s.bytes_per_sector) % 2 ^ 32

  unfoldable pub fat_offset : ℕ → Fs D → ℕ
  fat_offset cluster s = cluster * 4 % 2 ^ 32 % s.bytes_per_sector

  pub fat_total : Fs D → ℕ
  fat_total s = s.fat_size_sectors * s.bytes_per_sector % 2 ^ 32 / 4

module _ {D : Type 0} (dev : SectorDevice D) where
  unfoldable pub fat_read : ℕ → Fs D → ℕ × Fs D
  fat_read cluster s =
      let sector = fat_sector cluster s in
      let off = fat_offset cluster s in
      if sector == s.fat_cache_sector
      then (bit_and (get32 s.fat_cache off) fat_mask, s)
      else elim (dev.read_sector sector s.disk) [
        | none ↦ (0, record s { fat_cache_sector = 0xFFFFFFFF })
        | some bytes ↦ (
          bit_and (get32 bytes off) fat_mask,
          record s { fat_cache = bytes; fat_cache_sector = sector },
        )
      ]

  -- The other copies: `n` from copy `c` on. The results are not looked at.
  pub write_copies : ℕ → ℕ → ℕ → ℕ → (ℕ → ℕ) → D → D
  write_copies fat_size sector c zero buf disk = disk
  write_copies fat_size sector c (suc n) buf disk =
      write_copies fat_size sector (c + 1) n buf
        (dev.write_sector ((sector + c * fat_size) % 2 ^ 32) buf disk).1

  -- `stack` is what the buffer on the stack holds if the read fails.
  pub fat_write : (ℕ → ℕ) → ℕ → ℕ → Fs D → Fs D
  fat_write stack cluster value s =
      let sector = fat_sector cluster s in
      let off = fat_offset cluster s in
      let old : ℕ → ℕ = elim (dev.read_sector sector s.disk) [
        | none ↦ stack
        | some bytes ↦ bytes
      ] in
      let buf = put32 old off value in
      let disk1 = (dev.write_sector sector buf s.disk).1 in
      record s {
        disk = write_copies s.fat_size_sectors sector 1 (s.num_fats - 1) buf disk1;
        fat_cache =
            if sector == s.fat_cache_sector then put32 s.fat_cache off value else s.fat_cache;
      }

  -- The loop of `fat_find_free`: `n` clusters from `c` on.
  pub find_free_from : ℕ → ℕ → Fs D → ℕ × Fs D
  find_free_from c zero s = (0, s)
  find_free_from c (suc n) s =
      let (value, s1) = fat_read c s in
      let rest = find_free_from (c + 1) n s1 in if value == 0 then (c, s1) else rest

  pub fat_find_free : Fs D → ℕ × Fs D
  fat_find_free s = find_free_from 2 (fat_total s - 2) s

  pub fat_alloc : (ℕ → ℕ) → Fs D → ℕ × Fs D
  fat_alloc stack s =
      let (c, s1) = fat_find_free s in
      if not_zero c then (c, fat_write stack c fat_eoc s1) else (c, s1)

  -- `none` when the fuel runs out: a chain that bites its tail ends all the same, since the entry
  -- read second is 0.
  pub fat_free_chain : ℕ → (ℕ → ℕ) → ℕ → Fs D → Option (Fs D)
  fat_free_chain zero stack cluster s = none
  fat_free_chain (suc fuel) stack cluster s =
      let (next, s1) = fat_read cluster s in
      let rest = fat_free_chain fuel stack next (fat_write stack cluster 0 s1) in
      if is_data cluster then rest else some s
