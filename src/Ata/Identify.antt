-- ===== src/Ata/Identify.antt =====
-- Finding and selecting the drives: `ata_identify`, `ata_init`, `ata_detect_drives` and
-- `ata_select_drive` of kernel/drivers/ata/ata.c.
pub mod Table
use deva.Prelude.{
  ℕ, zero, suc, ◌+◌, ◌-◌, ◌*◌, ◌/◌, ◌%◌, ◌^◌, Bool, true, false, ◌&&◌, not, ltb, leb, ◌==◌,
  if◌then◌else◌, update, bit_and, bit_or, not_zero, Option, none, some,
}
use deva.Prelude.Int.{ℤ, pos, negsuc}
use deva.Ata.{
  Bus, AtaDevice, Ata, reg_data, reg_drive, reg_status, cmd_identify, is_bsy, is_drdy, is_drq,
  is_err, wait_bsy, delay,
}

abbrev pub max_drives : ℕ
max_drives = 4

abbrev pub primary_io : ℕ
primary_io = 0x1F0

abbrev pub secondary_io : ℕ
secondary_io = 0x170

-- The loop that cuts the spaces off the right of the model: positions below `n`.
pub trim : ℕ → (ℕ → ℕ) → ℕ → ℕ
trim zero model = model
trim (suc n) model = let rest = trim n (update model n 0) in if model n == 32 then rest else model

-- The 40 characters of the model, two in a word with the first one in the high byte.
pub model_of : (ℕ → ℕ) → (ℕ → ℕ) → ℕ → ℕ
model_of words old i =
    if ltb i 40
    then (if i % 2 == 0 then words (27 + i / 2) / 2 ^ 8 else words (27 + i / 2) % 2 ^ 8)
    else if i == 40
    then 0
    else old i

-- The number of sectors: of the 48 bits the high half counts as all ones.
pub sectors_of : (ℕ → ℕ) → ℕ
sectors_of words =
    if not_zero (bit_and (words 83) (2 ^ 10))
    then (if not_zero (words 103 * 2 ^ 16 + words 102)
        then 0xFFFFFFFF
        else words 101 * 2 ^ 16 + words 100)
    else words 61 * 2 ^ 16 + words 60

pub described : (ℕ → ℕ) → AtaDevice → AtaDevice
described words dev = record dev {
  model = trim 40 (model_of words dev.model);
  sectors = sectors_of words;
  size_mb = sectors_of words / 2048;
  is_removable = not_zero (bit_and (words 0) 0x80);
  present = true;
}

module _ {D : Type 0} (bus : Bus D) where
  -- The loop that waits for the answer. `timeout--` has been done when the status is read, so an
  -- answer at the last read counts as none.
  pub poll_identify : ℕ → ℕ → D → Bool × D
  poll_identify io zero d = (false, d)
  poll_identify io (suc timeout) d =
      let (status, d1) = bus.inb (io + reg_status) d in
      let rest = poll_identify io timeout d1 in
      if is_err status
      then (false, d1)
      else if not (is_bsy status) && is_drq status
      then (not_zero timeout, d1)
      else rest

  pub identify_words : ℕ → ℕ → ℕ → (ℕ → ℕ) → D → (ℕ → ℕ) × D
  identify_words io i zero words d = (words, d)
  identify_words io i (suc n) words d =
      let (w, d1) = bus.inw (io + reg_data) d in identify_words io (i + 1) n (update words i w) d1

  -- `stack` is what the array `identify` holds before.
  pub ata_identify : (ℕ → ℕ) → ℕ → ℕ → AtaDevice → D → Bool × AtaDevice × D
  ata_identify stack io drive dev d =
      let named = record dev { io_base = io; drive = drive; present = false } in
      let d1 = delay bus io (bus.outb (io + reg_drive) (bit_or 0xA0 (drive * 2 ^ 4)) d) in
      let d2 = delay bus io (bus.outb (io + reg_status) cmd_identify d1) in
      let (status, d3) = bus.inb (io + reg_status) d2 in
      let (answered, d4) = poll_identify io 10000 d3 in
      let (words, d5) = identify_words io 0 256 stack d4 in
      if status == 0
      then (false, named, d3)
      else if answered
      then (true, described words named, d5)
      else (false, named, d4)

  -- The next free entry of the table takes the drive, which counts if it answers.
  pub detect : (ℕ → ℕ) → ℕ → ℕ → Ata D → Ata D
  detect stack io drive s =
      let (found, dev, d) = ata_identify stack io drive (s.drives s.drive_count) s.device in
      record s {
        drives = update s.drives s.drive_count dev;
        drive_count = if found then s.drive_count + 1 else s.drive_count;
        device = d;
      }

  pub ata_detect_drives : (ℕ → ℕ) → Ata D → Ata D
  ata_detect_drives stack s =
      let s0 = record s { drive_count = 0 } in
      let s1 = detect stack primary_io 0 s0 in
      let s2 = detect stack primary_io 1 s1 in
      let s3 = detect stack secondary_io 0 s2 in detect stack secondary_io 1 s3

  -- False is the result -1.
  pub ata_select_drive : ℤ → Ata D → Bool × Ata D
  ata_select_drive (negsuc n) s = (false, s)
  ata_select_drive (pos n) s =
      let dev = s.drives n in
      let io = dev.io_base in
      let d1 =
        delay bus io (bus.outb (io + reg_drive) (bit_or 0xA0 (dev.drive * 2 ^ 4)) s.device) in
      let (free, d2) = wait_bsy bus io d1 in
      let (status, d3) = bus.inb (io + reg_status) d2 in
      if leb s.drive_count n
      then (false, s)
      else if dev.present
      then (if free
          then (if is_drdy status
              then (true, record s { device = d3; selected_drive = pos n })
              else (false, record s { device = d3 }))
          else (false, record s { device = d2 }))
      else (false, s)

-- The loop of `ata_init` over the table, `n` entries from `i` on.
pub reset_drives : ℕ → ℕ → (ℕ → AtaDevice) → ℕ → AtaDevice
reset_drives i zero drives = drives
reset_drives i (suc n) drives =
    reset_drives (i + 1) n (update drives i (record (drives i) { present = false; io_base = 0 }))

module _ {D : Type 0} where
  pub ata_init : Ata D → Ata D
  ata_init s = record s {
    drives = reset_drives 0 max_drives s.drives;
    drive_count = 0;
    selected_drive = negsuc 0;
  }

  pub ata_is_selected : Ata D → Bool
  ata_is_selected s = elim s.selected_drive [ pos n ↦ true | negsuc n ↦ false ]

  pub ata_get_drive : ℤ → Ata D → Option AtaDevice
  ata_get_drive (negsuc n) s = none
  ata_get_drive (pos n) s = if leb s.drive_count n then none else some (s.drives n)
