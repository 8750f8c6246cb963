-- ===== src/Ata.antt =====
-- The ATA driver in PIO mode, kernel/drivers/ata/ata.c with kernel/include/ata.h.
-- The ports are the interface `Bus`, over the state `D` of what is behind them: `inb`, `outb`, `inw`
-- and `outw` are assembly in kernel/include/cpu.h. Buffers are functions of the index to bytes.
pub mod Identify
pub mod Disk
pub mod Protocol
pub mod Words
pub mod Sector
pub mod Reliable
pub mod Errors
mod Tests
use deva.Prelude.{
  ℕ, zero, suc, ◌+◌, ◌*◌, ◌/◌, ◌%◌, ◌^◌, Bool, true, false, ◌||◌, not, Option, none, some, ltb, leb,
  ◌==◌, if◌then◌else◌, update, bit_and, bit_or, not_zero,
}
use deva.Prelude.Int.{ℤ, pos, negsuc}

pub record Bus (D : Type 0) : Type 0 where
  pub inb : ℕ → D → ℕ × D
  pub outb : ℕ → ℕ → D → D
  pub inw : ℕ → D → ℕ × D
  pub outw : ℕ → ℕ → D → D

-- The registers, as offsets from the channel's base.
abbrev pub reg_data : ℕ
reg_data = 0

abbrev pub reg_seccount : ℕ
reg_seccount = 2

abbrev pub reg_lba_lo : ℕ
reg_lba_lo = 3

abbrev pub reg_lba_mid : ℕ
reg_lba_mid = 4

abbrev pub reg_lba_hi : ℕ
reg_lba_hi = 5

abbrev pub reg_drive : ℕ
reg_drive = 6

-- Reading gives the status, writing is a command.
abbrev pub reg_status : ℕ
reg_status = 7

abbrev pub cmd_read_pio : ℕ
cmd_read_pio = 0x20

abbrev pub cmd_write_pio : ℕ
cmd_write_pio = 0x30

abbrev pub cmd_identify : ℕ
cmd_identify = 0xEC

abbrev pub is_bsy : ℕ → Bool
is_bsy status = not_zero (bit_and status 0x80)

abbrev pub is_drdy : ℕ → Bool
is_drdy status = not_zero (bit_and status 0x40)

abbrev pub is_drq : ℕ → Bool
is_drq status = not_zero (bit_and status 0x08)

abbrev pub is_err : ℕ → Bool
is_err status = not_zero (bit_and status 0x01)

pub record AtaDevice : Type 0 where
  pub io_base : ℕ
  pub drive : ℕ
  pub present : Bool
  pub model : ℕ → ℕ
  pub size_mb : ℕ
  pub is_removable : Bool
  pub sectors : ℕ

-- The static variables, and what is behind the ports.
pub record Ata (D : Type 0) : Type 0 where
  pub drives : ℕ → AtaDevice
  pub drive_count : ℕ
  pub selected_drive : ℤ
  pub device : D

-- `buf16[i]` of a buffer of bytes, read and written.
abbrev pub word_at : (ℕ → ℕ) → ℕ → ℕ
word_at buf i = (buf (2 * i) + 2 ^ 8 * buf (2 * i + 1)) % 2 ^ 16

abbrev pub put_word : (ℕ → ℕ) → ℕ → ℕ → ℕ → ℕ
put_word buf i w = update (update buf (2 * i) (w % 2 ^ 8)) (2 * i + 1) (w / 2 ^ 8)

-- The value of the drive register, in LBA mode.
pub drive_select : ℕ → ℕ → ℕ
drive_select drive lba = bit_or (bit_or 0xE0 (drive * 2 ^ 4)) (bit_and (lba / 2 ^ 24) 0x0F)

module _ {D : Type 0} (bus : Bus D) where
  -- The loops of `ata_wait_bsy` and `ata_wait_drq`: false is the result -1, which the code returns
  -- whenever its counter is 0 in the end.
  pub wait_while : (ℕ → Bool) → ℕ → ℕ → D → Bool × D
  wait_while pending io zero d = (false, (bus.inb (io + reg_status) d).1)
  wait_while pending io (suc timeout) d =
      let (status, d1) = bus.inb (io + reg_status) d in
      let rest = wait_while pending io timeout d1 in if pending status then rest else (true, d1)

  pub wait_bsy : ℕ → D → Bool × D
  wait_bsy io = wait_while is_bsy io 100000

  pub wait_drq : ℕ → D → Bool × D
  wait_drq io = wait_while (λ status. not (is_drq status)) io 100000

  -- `ata_400ns_delay`.
  pub delay : ℕ → D → D
  delay io d =
      let d1 = (bus.inb (io + reg_status) d).1 in
      let d2 = (bus.inb (io + reg_status) d1).1 in
      let d3 = (bus.inb (io + reg_status) d2).1 in (bus.inb (io + reg_status) d3).1

  -- What `ata_read_sector` and `ata_write_sector` send before they wait for the data.
  pub send_command : ℕ → ℕ → ℕ → ℕ → D → D
  send_command io drive lba command d =
      let d1 = delay io (bus.outb (io + reg_drive) (drive_select drive lba) d) in
      let d2 = bus.outb (io + reg_seccount) 1 d1 in
      let d3 = bus.outb (io + reg_lba_lo) (lba % 2 ^ 8) d2 in
      let d4 = bus.outb (io + reg_lba_mid) (lba / 2 ^ 8 % 2 ^ 8) d3 in
      let d5 = bus.outb (io + reg_lba_hi) (lba / 2 ^ 16 % 2 ^ 8) d4 in
      bus.outb (io + reg_status) command d5

  -- The loops over the data port: `n` words from word `i` on.
  pub read_words : ℕ → ℕ → ℕ → (ℕ → ℕ) → D → (ℕ → ℕ) × D
  read_words io i zero buf d = (buf, d)
  read_words io i (suc n) buf d =
      let (w, d1) = bus.inw (io + reg_data) d in read_words io (i + 1) n (put_word buf i w) d1

  pub write_words : ℕ → ℕ → ℕ → (ℕ → ℕ) → D → D
  write_words io i zero buf d = d
  write_words io i (suc n) buf d =
      write_words io (i + 1) n buf (bus.outw (io + reg_data) (word_at buf i) d)

  -- `ata_read_sector` behind its guards: success, the buffer and the device.
  pub read_pio : ℕ → ℕ → ℕ → (ℕ → ℕ) → D → Bool × (ℕ → ℕ) × D
  read_pio io drive lba buf d =
      let (free, d1) = wait_bsy io d in
      let (ready, d2) = wait_drq io (send_command io drive lba cmd_read_pio d1) in
      let (buf', d3) = read_words io 0 256 buf d2 in
      if free then (if ready then (true, buf', d3) else (false, buf, d2)) else (false, buf, d1)

  pub write_pio : ℕ → ℕ → ℕ → (ℕ → ℕ) → D → Bool × D
  write_pio io drive lba buf d =
      let (free, d1) = wait_bsy io d in
      let (ready, d2) = wait_drq io (send_command io drive lba cmd_write_pio d1) in
      if free
      then (if ready then wait_bsy io (write_words io 0 256 buf d2) else (false, d2))
      else (false, d1)

  -- The device that the guards of both let through: one that is selected, detected and present.
  pub selected : Ata D → Option AtaDevice
  selected s = elim s.selected_drive [
    | negsuc n ↦ none
    | pos n ↦
        let dev = s.drives n in
        if leb s.drive_count n
        then none
        else if not dev.present || dev.io_base == 0
        then none
        else some dev
  ]

  -- `none` is the result -1 with no port touched.
  pub ata_read_sector : ℕ → (ℕ → ℕ) → Ata D → Bool × (ℕ → ℕ) × Ata D
  ata_read_sector lba buf s = elim (selected s) [
    | none ↦ (false, buf, s)
    | some dev ↦
        let (ok, buf', d) = read_pio dev.io_base dev.drive lba buf s.device in
        (ok, buf', record s { device = d })
  ]

  pub ata_write_sector : ℕ → (ℕ → ℕ) → Ata D → Bool × Ata D
  ata_write_sector lba buf s = elim (selected s) [
    | none ↦ (false, s)
    | some dev ↦
        let (ok, d) = write_pio dev.io_base dev.drive lba buf s.device in
        (ok, record s { device = d })
  ]
