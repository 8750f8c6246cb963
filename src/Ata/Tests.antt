-- ===== src/Ata/Tests.antt =====
-- Runs of kernel/drivers/ata/ata.c on a drive in memory, and its theorems there.
use deva.Prelude.{
  ℕ, ◌+◌, ◌-◌, ◌^◌, ◌≡◌, ◌%◌, inl, inr, refl, ap, true, false, some, arith, ◌==◌, if◌then◌else◌,
}
use deva.Prelude.Int.{pos}
use deva.Ata.{
  Bus, AtaDevice, Ata, wait_while, wait_bsy, wait_drq, delay, drive_select, send_command,
  read_words, read_pio, selected, ata_read_sector, ata_write_sector,
}
use deva.Ata.Disk.{idle, Drive, status_of, polled, set_register, word_of, taken, given, IsDrive}
use deva.Ata.Identify.{max_drives, primary_io, ata_detect_drives}
use deva.Ata.Identify.Table.{IsTable, ata_detect_drives-IsTable}
use deva.Ata.Reliable.{IsReady, ata_sectors, ata_sectors-IsReliable}
use deva.Ata.Errors.{StaysBusy, sector_calls_fail}
use deva.Fat32.Fat.Device.{IsReliable}

-- A drive on the first channel that is busy for three reads of the status after each command.
abbrev one_drive : Bus Drive
one_drive = record {
  inb = λ p v. if p == 0x1F7 then (status_of v, polled v) else (0, v);
  outb = λ p x v. set_register 3 (p - primary_io) x v;
  inw = λ p v. if p == primary_io then (word_of v, taken 3 v) else (0, v);
  outw = λ p w v. if p == primary_io then given 3 w v else v;
}

abbrev drive_behind : IsDrive one_drive primary_io 3
drive_behind = record {
  view = λ v. v;
  inb-view = λ v. refl;
  inb-next = λ v. refl;
  outb-view = λ v r x.
      ap (λ (p : ℕ). set_register 3 p x v) {x = primary_io + r - primary_io} {y = r} (omega arith);
  inw-view = λ v. refl;
  inw-next = λ v. refl;
  outw-view = λ v w small. refl;
}

-- A channel that answers busy to every read.
abbrev busy_bus : Bus ℕ
busy_bus = record {
  inb = λ p d. (0x80, d);
  outb = λ p x d. d;
  inw = λ p d. (0, d);
  outw = λ p w d. d;
}

busy_bus-StaysBusy : StaysBusy busy_bus primary_io (λ d. d ≡ 0)
busy_bus-StaysBusy = record { busy = λ d st. refl; stays = λ d st. st }

abbrev first_device : AtaDevice
first_device = record {
  io_base = primary_io;
  drive = 0;
  present = true;
  model = λ i. 0;
  size_mb = 1;
  is_removable = false;
  sectors = 2048;
}

abbrev one_selected : Ata ℕ
one_selected = record {
  drives = λ i. first_device;
  drive_count = 1;
  selected_drive = pos 0;
  device = 0;
}

one_selected_lem : selected busy_bus one_selected ≡ some first_device
unfolding selected
one_selected_lem = refl

abbrev resting : Drive
resting = record {
  unit = 0;
  chs = λ n. 0;
  select = 0;
  seccount = 0;
  lba_lo = 0;
  lba_mid = 0;
  lba_hi = 0;
  transfer = idle;
  busy = 0;
  content = λ n i. (n + i) % 2 ^ 16;
}

-- The bytes 0x04 and 0x03 of the second word of sector 0x302.
abbrev second_word : ℕ × ℕ
second_word =
    let (ok, buf, v) = read_pio one_drive primary_io 0 0x302 (λ i. 0) resting in (buf 4, buf 5)

second_word_test : second_word ≡ (4, 3)
unfolding read_pio wait_bsy wait_drq wait_while send_command delay drive_select read_words
second_word_test = refl

abbrev drive_selected : Ata Drive
drive_selected = record {
  drives = λ i. first_device;
  drive_count = 1;
  selected_drive = pos 0;
  device = resting;
}

drive_selected-IsReady : IsReady drive_behind drive_selected
unfolding selected
drive_selected-IsReady = record {
  dev = first_device;
  is_selected = refl;
  at_base = refl;
  one_of_two = omega arith;
  same_unit = refl;
  at_rest = refl;
  heard = inl refl;
  soon = omega arith;
  words_fit = λ n i. omega arith;
}

ata_sectors-IsReliable_example : IsReliable (ata_sectors drive_behind (omega arith)) (2 ^ 28)
ata_sectors-IsReliable_example = ata_sectors-IsReliable drive_behind (omega arith)

sector_calls_fail_example :
    ((ata_read_sector busy_bus 7 (λ i. 9) one_selected).0 ≡ false)
    × ((ata_read_sector busy_bus 7 (λ i. 9) one_selected).1 ≡ (λ i. 9))
    × ((ata_write_sector busy_bus 7 (λ i. 9) one_selected).0 ≡ false)
    × ((ata_read_sector busy_bus 7 (λ i. 9) one_selected).2
        ≡ (ata_write_sector busy_bus 7 (λ i. 9) one_selected).1)
sector_calls_fail_example =
    sector_calls_fail busy_bus-StaysBusy 7 (λ i. 9) one_selected
      (inr (first_device, one_selected_lem, refl, refl))

ata_detect_drives-IsTable_example :
    IsTable one_selected.drives (ata_detect_drives busy_bus (λ i. 0) one_selected) max_drives
ata_detect_drives-IsTable_example = ata_detect_drives-IsTable busy_bus (λ i. 0) one_selected
