-- ===== src/Fat32/Fat/Device.antt =====
-- A disk that works, and the entries of the file allocation table on it.
use deva.Prelude.{
  ℕ, zero, suc, ◌+◌, ◌-◌, ◌*◌, ◌/◌, ◌%◌, ◌^◌, ◌≤◌, ◌<◌, ◌≡◌, refl, ◌∙◌, some, arith, ◌==◌,
  if◌then◌else◌,
}
use native.Mathlib.Nat.{mul-le-mul_right, suc-mul}
use deva.Fat32.{SectorDevice, Fs, get32}
use deva.Fat32.Fat.{fat_sector, fat_offset, fat_total}

-- The sectors below `size` hold bytes and read back the 512 that were written last, and writing one
-- changes no other.
pub record IsReliable {D : Type 0} (dev : SectorDevice D) (size : ℕ) : Type 0 where
  pub view : D → ℕ → ℕ → ℕ
  pub reads :
      (n : ℕ) (d : D)
      → n < size
      → (bytes : ℕ → ℕ) × (dev.read_sector n d ≡ some bytes)
        × ((i : ℕ) → i < 512 → bytes i ≡ view d n i)
  pub is_byte : (d : D) (n i : ℕ) → view d n i < 2 ^ 8
  pub writes :
      (n m i : ℕ) (buf : ℕ → ℕ) (d : D)
      → n < size
      → i < 512
      → ((j : ℕ) → j < 512 → buf j < 2 ^ 8)
      → view (dev.write_sector n buf d).1 m i ≡ (if n == m then buf i else view d m i)

-- A file system with sectors of 512 bytes and a table of at most 2^28 entries, all of whose copies
-- lie on the disk.
pub record HasTable {D : Type 0} (size : ℕ) (s : Fs D) : Type 0 where
  pub sectors : s.bytes_per_sector ≡ 512
  pub copies : 1 ≤ s.num_fats
  pub entries : s.fat_size_sectors ≤ 2 ^ 21
  pub start : 1 ≤ s.fat_start
  pub on_disk : s.fat_start + s.num_fats * s.fat_size_sectors ≤ size
  pub addressed : size < 2 ^ 32 - 1

-- The clusters that the table has entries for.
abbrev pub clusters : {D : Type 0} → Fs D → ℕ
clusters s = s.fat_size_sectors * 128

-- The two states have the same table; they agree on the content of the disk as well.
pub record SameTable {D : Type 0} (s s' : Fs D) : Type 0 where
  pub bytes_per_sector : s'.bytes_per_sector ≡ s.bytes_per_sector
  pub num_fats : s'.num_fats ≡ s.num_fats
  pub fat_size_sectors : s'.fat_size_sectors ≡ s.fat_size_sectors
  pub fat_start : s'.fat_start ≡ s.fat_start

pub record SameDisk {D : Type 0} (s s' : Fs D) : Type 0 where
  pub same_table : SameTable s s'
  pub disk : s'.disk ≡ s.disk

pub SameTable-refl : {D : Type 0} (s : Fs D) → SameTable s s
SameTable-refl s = record {
  bytes_per_sector = refl;
  num_fats = refl;
  fat_size_sectors = refl;
  fat_start = refl;
}

pub SameTable-trans : {D : Type 0} {s t u : Fs D} → SameTable s t → SameTable t u → SameTable s u
SameTable-trans p q = record {
  bytes_per_sector = q.bytes_per_sector ∙ p.bytes_per_sector;
  num_fats = q.num_fats ∙ p.num_fats;
  fat_size_sectors = q.fat_size_sectors ∙ p.fat_size_sectors;
  fat_start = q.fat_start ∙ p.fat_start;
}

pub HasTable-same :
    {D : Type 0} {size : ℕ} {s s' : Fs D} → HasTable size s → SameTable s s' → HasTable size s'
HasTable-same {size = size} {s = s} table e = record {
  sectors = e.bytes_per_sector ∙ table.sectors;
  copies = omega (arith, e.num_fats, table.copies);
  entries = omega (arith, e.fat_size_sectors, table.entries);
  start = omega (arith, e.fat_start, table.start);
  on_disk = rw e.fat_start (rw e.num_fats (rw e.fat_size_sectors table.on_disk));
  addressed = table.addressed;
}

module _ {D : Type 0} {dev : SectorDevice D} {size : ℕ} (works : IsReliable dev size) where
  -- The entry of a cluster in the first copy, all 32 bits.
  unfoldable pub entry : Fs D → ℕ → ℕ
  entry s c = get32 (works.view s.disk (s.fat_start + c / 128)) (4 * (c % 128))

  -- If the cache holds a sector of the disk, it is one of the first copy, as it is on the disk.
  unfoldable pub IsCoherent : Fs D → Type 0
  IsCoherent s =
      s.fat_cache_sector < size
      → (s.fat_cache_sector < s.fat_start + s.fat_size_sectors)
        × ((i : ℕ) → i < 512 → s.fat_cache i ≡ works.view s.disk s.fat_cache_sector i)

pub le_mul : (n m : ℕ) → 1 ≤ n → m ≤ n * m
le_mul zero m h = absurd (omega arith)
le_mul (suc n) m h = grind arith

module _ {D : Type 0} {size : ℕ} {s : Fs D} (table : HasTable size s) where
  pub first_copy : s.fat_start + s.fat_size_sectors ≤ size
  first_copy = omega (arith, le_mul s.num_fats s.fat_size_sectors table.copies, table.on_disk)

  pub fat_sector_lem : (c : ℕ) → c < clusters s → fat_sector c s ≡ s.fat_start + c / 128
  unfolding fat_sector
  fat_sector_lem c h =
      let small : c * 4 % 2 ^ 32 ≡ c * 4 = omega (arith, table.entries) in
      rw small (rw table.sectors (omega (arith, first_copy, table.addressed)))

  pub sector_on_disk : (c : ℕ) → c < clusters s → s.fat_start + c / 128 < size
  sector_on_disk c h = omega (arith, first_copy)

  pub fat_offset_lem : (c : ℕ) → c < clusters s → fat_offset c s ≡ 4 * (c % 128)
  unfolding fat_offset
  fat_offset_lem c h =
      let small : c * 4 % 2 ^ 32 ≡ c * 4 = omega (arith, table.entries) in
      rw small (rw table.sectors (omega arith))

  pub fat_total_lem : fat_total s ≡ clusters s
  unfolding fat_total
  fat_total_lem = rw table.sectors (omega (arith, table.entries))

  -- Where the other copies are.
  pub copy_on_disk :
      (n k : ℕ)
      → n < s.fat_size_sectors
      → k < s.num_fats
      → s.fat_start + n + k * s.fat_size_sectors < size
  copy_on_disk n k h g =
      let below : suc k * s.fat_size_sectors ≤ s.num_fats * s.fat_size_sectors =
        mul-le-mul_right _ g in
      omega (arith, below, table.on_disk, suc-mul k s.fat_size_sectors)
