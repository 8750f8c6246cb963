-- ===== src/Ata/Errors.antt =====
-- Where the sector calls of kernel/drivers/ata/ata.c give up.
use deva.Prelude.{ℕ, zero, suc, ◌+◌, ◌≡◌, ◌⊎◌, inl, inr, refl, true, false, none, some}
use deva.Ata.{
  Bus, AtaDevice, Ata, reg_status, is_bsy, wait_while, wait_bsy, read_pio, write_pio, selected,
  ata_read_sector, ata_write_sector,
}
use deva.Ata.Reliable.{ata_read_sector-eq, ata_write_sector-eq}

-- From a state in `Stuck` on, every read of the status of the channel at `io` says busy.
pub record StaysBusy {D : Type 0} (bus : Bus D) (io : ℕ) (Stuck : D → Type 0) : Type 0 where
  pub busy : (d : D) → Stuck d → is_bsy (bus.inb (io + reg_status) d).0 ≡ true
  pub stays : (d : D) → Stuck d → Stuck (bus.inb (io + reg_status) d).1

ata_read_sector-none :
    {D : Type 0} (bus : Bus D) (lba : ℕ) (buf : ℕ → ℕ) (s : Ata D)
    → selected bus s ≡ none
    → ata_read_sector bus lba buf s ≡ (false, buf, s)
unfolding ata_read_sector
ata_read_sector-none bus lba buf s e = rw (e, ata_read_sector) refl

ata_write_sector-none :
    {D : Type 0} (bus : Bus D) (lba : ℕ) (buf : ℕ → ℕ) (s : Ata D)
    → selected bus s ≡ none
    → ata_write_sector bus lba buf s ≡ (false, s)
unfolding ata_write_sector
ata_write_sector-none bus lba buf s e = rw (e, ata_write_sector) refl

module _ {D : Type 0} {bus : Bus D} {io : ℕ} {Stuck : D → Type 0} (b : StaysBusy bus io Stuck) where
  wait_ends :
      (timeout : ℕ) (d : D)
      → Stuck d
      → ((wait_while bus is_bsy io timeout d).0 ≡ false)
        × Stuck (wait_while bus is_bsy io timeout d).1
  unfolding wait_while
  wait_ends zero d st = (refl, b.stays d st)
  wait_ends (suc timeout) d st =
      let ih = wait_ends timeout (bus.inb (io + reg_status) d).1 (b.stays d st) in
      rw (b.busy d st) ih

  pio_fails :
      (drive lba : ℕ) (buf : ℕ → ℕ) (s : Ata D)
      → Stuck s.device
      → ((read_pio bus io drive lba buf s.device).0 ≡ false)
        × ((read_pio bus io drive lba buf s.device).1 ≡ buf)
        × ((write_pio bus io drive lba buf s.device).0 ≡ false)
        × (record s { device = (read_pio bus io drive lba buf s.device).2 }
            ≡ record s { device = (write_pio bus io drive lba buf s.device).1 })
  unfolding read_pio write_pio wait_bsy
  pio_fails drive lba buf s st =
      let late = (wait_ends 100000 s.device st).0 in rw late (refl, refl, refl, refl)

  -- Where no drive is selected, or the selected one is busy at every read of the status,
  -- ata_read_sector and ata_write_sector end with -1, the buffer keeps its bytes, and both leave
  -- the same state.
  pub sector_calls_fail :
      (lba : ℕ) (buf : ℕ → ℕ) (s : Ata D)
      → (selected bus s ≡ none)
        ⊎ ((dev : AtaDevice) × (selected bus s ≡ some dev) × (dev.io_base ≡ io) × Stuck s.device)
      → ((ata_read_sector bus lba buf s).0 ≡ false)
        × ((ata_read_sector bus lba buf s).1 ≡ buf)
        × ((ata_write_sector bus lba buf s).0 ≡ false)
        × ((ata_read_sector bus lba buf s).2 ≡ (ata_write_sector bus lba buf s).1)
  sector_calls_fail lba buf s (inl e) =
      rw (ata_read_sector-none bus lba buf s e, ata_write_sector-none bus lba buf s e)
        (refl, refl, refl, refl)
  sector_calls_fail lba buf s (inr (dev, e, at, st)) =
      rw
        (
          ata_read_sector-eq bus io lba buf s dev e at,
          ata_write_sector-eq bus io lba buf s dev e at,
        )
        (pio_fails dev.drive lba buf s st)
