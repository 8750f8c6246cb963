-- ===== src/Fat32.antt =====
-- The FAT32 driver, kernel/drivers/fat32/fat32.c. The disk is the interface `SectorDevice`, which
-- stands for `ata_read_sector` and `ata_write_sector` of kernel/drivers/ata/ata.c, with the content
-- of the disk of type `D`. A failed read leaves the buffer as it is. Buffers are functions of the
-- index to bytes. A `uint32_t` keeps its wrap-around.
pub mod Fat
pub mod Words
pub mod Names
pub mod Dir
pub mod Path
pub mod File
mod Tests
use deva.Prelude.{
  ℕ, zero, suc, ◌+◌, ◌-◌, ◌*◌, ◌/◌, ◌%◌, ◌^◌, Bool, true, false, ◌&&◌, Option, none, some, ltb, leb,
  ◌==◌, if◌then◌else◌, bit_and,
}

abbrev pub fat_eoc : ℕ
fat_eoc = 0x0FFFFFF8

abbrev pub fat_mask : ℕ
fat_mask = 0x0FFFFFFF

-- `none` is a failed read; a write tells whether it succeeded.
pub record SectorDevice (D : Type 0) : Type 0 where
  pub read_sector : ℕ → D → Option (ℕ → ℕ)
  pub write_sector : ℕ → (ℕ → ℕ) → D → Bool × D

-- The static variables: the parameters of the file system, the two buffers, and the disk.
pub record Fs (D : Type 0) : Type 0 where
  pub bytes_per_sector : ℕ
  pub sectors_per_cluster : ℕ
  pub reserved_sectors : ℕ
  pub num_fats : ℕ
  pub fat_size_sectors : ℕ
  pub root_cluster : ℕ
  pub fat_start : ℕ
  pub data_start : ℕ
  pub cluster_bytes : ℕ
  pub fat_cache : ℕ → ℕ
  pub fat_cache_sector : ℕ
  pub cluster_buf : ℕ → ℕ
  pub disk : D

-- `*(uint16_t *)(buf + off)` and `*(uint32_t *)(buf + off)`
unfoldable pub get16 : (ℕ → ℕ) → ℕ → ℕ
get16 buf off = buf off + 2 ^ 8 * buf (off + 1)

unfoldable pub get32 : (ℕ → ℕ) → ℕ → ℕ
get32 buf off = buf off + 2 ^ 8 * buf (off + 1) + 2 ^ 16 * buf (off + 2) + 2 ^ 24 * buf (off + 3)

-- `*(uint32_t *)(buf + off) = value`
pub put32 : (ℕ → ℕ) → ℕ → ℕ → ℕ → ℕ
put32 buf off value i =
    if i == off
    then value % 2 ^ 8
    else if i == off + 1
    then value / 2 ^ 8 % 2 ^ 8
    else if i == off + 2
    then value / 2 ^ 16 % 2 ^ 8
    else if i == off + 3
    then value / 2 ^ 24 % 2 ^ 8
    else buf i

-- The 512 bytes of a sector copied to `at`.
pub blit : (ℕ → ℕ) → ℕ → (ℕ → ℕ) → ℕ → ℕ
blit buf at sector i = if leb at i && ltb i (at + 512) then sector (i - at) else buf i

-- True if `cluster` is an end of chain.
pub is_eoc : ℕ → Bool
is_eoc cluster = leb fat_eoc cluster

-- The condition of the loops over a chain.
pub is_data : ℕ → Bool
unfolding is_eoc
is_data cluster = (if is_eoc cluster then false else true) && leb 2 cluster

module _ {D : Type 0} (dev : SectorDevice D) where
  -- The part of `fat32_init` behind the calls that find and select the first disk: the fields that it
  -- reads; a failed read leaves the bytes of the stack, `boot`.
  pub fat32_init : (ℕ → ℕ) → Fs D → Fs D
  fat32_init stack s =
      let boot : ℕ → ℕ = elim (dev.read_sector 0 s.disk) [ none ↦ stack | some sector ↦ sector ] in
      record s {
        bytes_per_sector = get16 boot 11;
        sectors_per_cluster = boot 13;
        reserved_sectors = get16 boot 14;
        num_fats = boot 16;
        fat_size_sectors = get32 boot 36;
        root_cluster = get32 boot 44;
        fat_start = get16 boot 14;
        data_start = (get16 boot 14 + boot 16 * get32 boot 36) % 2 ^ 32;
        cluster_bytes = boot 13 * get16 boot 11;
        fat_cache_sector = 0xFFFFFFFF;
      }

  -- `cluster - 2` as a `uint32_t`.
  pub cluster_to_lba : ℕ → Fs D → ℕ
  cluster_to_lba cluster s =
      (s.data_start + (cluster + (2 ^ 32 - 2)) % 2 ^ 32 * s.sectors_per_cluster) % 2 ^ 32

  -- The loops of `read_cluster` and `write_cluster`: `n` sectors from sector `i` on.
  pub read_sectors : ℕ → ℕ → ℕ → ℕ → D → (ℕ → ℕ) → Bool × (ℕ → ℕ)
  read_sectors bps lba i zero disk buf = (true, buf)
  read_sectors bps lba i (suc n) disk buf = elim (dev.read_sector ((lba + i) % 2 ^ 32) disk) [
    | none ↦ (false, buf)
    | some sector ↦ read_sectors bps lba (i + 1) n disk (blit buf (i * bps) sector)
  ]

  -- Into `cluster_buf`, the only buffer that the driver passes; it is not bounded here, where the
  -- source has room for 8 sectors.
  unfoldable pub read_cluster : ℕ → Fs D → Bool × Fs D
  read_cluster cluster s =
      let (ok, buf) =
        read_sectors s.bytes_per_sector (cluster_to_lba cluster s) 0 s.sectors_per_cluster s.disk
          s.cluster_buf in
      (ok, record s { cluster_buf = buf })

  pub write_sectors : ℕ → ℕ → ℕ → ℕ → (ℕ → ℕ) → D → Bool × D
  write_sectors bps lba i zero buf disk = (true, disk)
  write_sectors bps lba i (suc n) buf disk =
      let written = dev.write_sector ((lba + i) % 2 ^ 32) (λ j. buf (i * bps + j)) disk in
      let rest = write_sectors bps lba (i + 1) n buf written.1 in
      if written.0 then rest else (false, written.1)

  pub write_cluster : ℕ → Fs D → Bool × Fs D
  write_cluster cluster s =
      let (ok, disk) =
        write_sectors s.bytes_per_sector (cluster_to_lba cluster s) 0 s.sectors_per_cluster
          s.cluster_buf s.disk in
      (ok, record s { disk = disk })
