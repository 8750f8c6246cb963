-- ===== src/Ata/Disk.antt =====
-- A drive behind its ports, as kernel/include/ata.h and the ATA standard describe it: registers, a
-- transfer that goes on, and sectors of 256 words; it is drive `unit` of its channel, 0 or 1, and
-- there is no other. It is busy for `latency` reads of the status after a command and after a sector,
-- but the last of a read; while it is busy it takes no register. A command is for the drive that the
-- drive register names, for as many sectors as the sector count says, where 0 is 256, and from the
-- address in the registers on: without the LBA bit that is a cylinder, head and sector, which
-- `chs` turns into the number of a sector.
use deva.Prelude.{
  ℕ, Bool, not, ◌+◌, ◌-◌, ◌*◌, ◌/◌, ◌%◌, ◌^◌, ◌<◌, ◌≡◌, ◌&&◌, ◌==◌, if◌then◌else◌, not_zero, update,
}
use deva.Ata.{
  Bus, reg_data, reg_seccount, reg_lba_lo, reg_lba_mid, reg_lba_hi, reg_drive, reg_status,
  cmd_read_pio, cmd_write_pio,
}

-- The next word of a transfer.
pub data Transfer : Type 0 where
  idle : Transfer
  reading : ℕ → Transfer
  writing : ℕ → Transfer

pub record Drive : Type 0 where
  pub unit : ℕ
  pub chs : ℕ → ℕ
  pub select : ℕ
  pub seccount : ℕ
  pub lba_lo : ℕ
  pub lba_mid : ℕ
  pub lba_hi : ℕ
  pub transfer : Transfer
  pub busy : ℕ
  pub content : ℕ → ℕ → ℕ

-- The 28 bits of the address, the top four in the drive register.
abbrev pub address : Drive → ℕ
address v = v.select % 2 ^ 4 * 2 ^ 24 + v.lba_hi * 2 ^ 16 + v.lba_mid * 2 ^ 8 + v.lba_lo

-- Bit 6 of the drive register says what kind of address it is.
abbrev pub lba_of : Drive → ℕ
lba_of v = if v.select / 2 ^ 6 % 2 == 1 then address v else v.chs (address v)

-- Bit 4 names the drive.
abbrev pub chosen : Drive → Bool
chosen v = v.select / 2 ^ 4 % 2 == v.unit

-- The words of the transfer that a command starts.
abbrev pub total_words : Drive → ℕ
total_words v = (if v.seccount == 0 then 256 else v.seccount) * 256

abbrev pub status_of : Drive → ℕ
status_of v =
    if not (chosen v)
    then 0
    else if not_zero v.busy
    then 0x80
    else elim v.transfer [ idle ↦ 0x40 | reading i ↦ 0x48 | writing i ↦ 0x48 ]

abbrev pub polled : Drive → Drive
polled v = record v { busy = v.busy - 1 }

-- A command that the drive takes; `latency` as above.
abbrev pub accepted : ℕ → ℕ → Drive → Drive
accepted latency x v =
    if x == cmd_read_pio
    then record v { transfer = reading 0; busy = latency }
    else if x == cmd_write_pio
    then record v { transfer = writing 0; busy = latency }
    else v

-- What a byte sent to a register does.
abbrev pub set_register : ℕ → ℕ → ℕ → Drive → Drive
set_register latency r x v =
    if not_zero v.busy
    then v
    else if r == reg_drive
    then record v { select = x }
    else if r == reg_seccount
    then record v { seccount = x }
    else if r == reg_lba_lo
    then record v { lba_lo = x }
    else if r == reg_lba_mid
    then record v { lba_mid = x }
    else if r == reg_lba_hi
    then record v { lba_hi = x }
    else if r == reg_status
    then (if chosen v then accepted latency x v else v)
    else v

-- After word `i` of the transfer.
abbrev pub next_word : Drive → (ℕ → Transfer) → ℕ → Transfer
next_word v transfer i = if i + 1 == total_words v then idle else transfer (i + 1)

abbrev pub word_of : Drive → ℕ
word_of v = elim v.transfer [
  | idle ↦ 0
  | reading i ↦ v.content (lba_of v + i / 256) (i % 256)
  | writing i ↦ 0
]

abbrev pub taken : ℕ → Drive → Drive
taken latency v = elim v.transfer [
  | idle ↦ v
  | reading i ↦ record v {
    transfer = next_word v reading i;
    busy = if i % 256 == 255 && not (i + 1 == total_words v) then latency else v.busy;
  }
  | writing i ↦ v
]

abbrev pub given : ℕ → ℕ → Drive → Drive
given latency w v = elim v.transfer [
  | idle ↦ v
  | reading i ↦ v
  | writing i ↦
      let n = lba_of v + i / 256 in
      record v {
        transfer = next_word v writing i;
        busy = if i % 256 == 255 then latency else v.busy;
        content = update v.content n (update (v.content n) (i % 256) w);
      }
]

-- Behind the channel at `io` there is such a drive.
pub record IsDrive {D : Type 0} (bus : Bus D) (io latency : ℕ) : Type 0 where
  pub view : D → Drive
  pub inb-view : (d : D) → (bus.inb (io + reg_status) d).0 ≡ status_of (view d)
  pub inb-next : (d : D) → view (bus.inb (io + reg_status) d).1 ≡ polled (view d)
  pub outb-view :
      (d : D) (r x : ℕ) → view (bus.outb (io + r) x d) ≡ set_register latency r x (view d)
  pub inw-view : (d : D) → (bus.inw (io + reg_data) d).0 ≡ word_of (view d)
  pub inw-next : (d : D) → view (bus.inw (io + reg_data) d).1 ≡ taken latency (view d)
  pub outw-view :
      (d : D) (w : ℕ) → w < 2 ^ 16 → view (bus.outw (io + reg_data) w d) ≡ given latency w (view d)
