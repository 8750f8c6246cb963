-- ===== src/Ata/Reliable.antt =====
-- The driver of kernel/drivers/ata/ata.c as the disk that kernel/drivers/fat32/fat32.c stands on.
use deva.Prelude.{
  ℕ, ◌+◌, ◌*◌, ◌/◌, ◌%◌, ◌^◌, ◌≤◌, ◌<◌, ◌≡◌, refl, sym, ap, ◌∙◌, ◌⊎◌, inr, true, ◌&&◌, none, some,
  arith, ltb, ◌==◌, if◌then◌else◌,
}
use deva.Ata.{
  Bus, AtaDevice, Ata, word_at, selected, read_pio, write_pio, ata_read_sector, ata_write_sector,
}
use deva.Ata.Disk.{idle, chosen, IsDrive}
use deva.Ata.Words.{byte_of}
use deva.Ata.Sector.{read_pio_lem, write_pio_lem}
use deva.Fat32.{SectorDevice}
use deva.Fat32.Fat.Device.{IsReliable}

-- The drive of the channel is the one selected, has no transfer, and is soon not busy; where another
-- is named in the drive register, it is not busy at all.
pub record IsReady {D : Type 0} {bus : Bus D} {io latency : ℕ} (k : IsDrive bus io latency)
    (s : Ata D) : Type 0 where
  pub dev : AtaDevice
  pub is_selected : selected bus s ≡ some dev
  pub at_base : dev.io_base ≡ io
  pub one_of_two : dev.drive ≤ 1
  pub same_unit : (k.view s.device).unit ≡ dev.drive
  pub at_rest : (k.view s.device).transfer ≡ idle
  pub heard : (chosen (k.view s.device) ≡ true) ⊎ ((k.view s.device).busy ≡ 0)
  pub soon : (k.view s.device).busy < 100000
  pub words_fit : (n i : ℕ) → (k.view s.device).content n i < 2 ^ 16

selected_same :
    {D : Type 0} (bus : Bus D) (s : Ata D) (d : D)
    → selected bus (record s { device = d }) ≡ selected bus s
unfolding selected
selected_same bus s d = refl

pub ata_read_sector-eq :
    {D : Type 0} (bus : Bus D) (io lba : ℕ) (buf : ℕ → ℕ) (s : Ata D) (dev : AtaDevice)
    → selected bus s ≡ some dev
    → dev.io_base ≡ io
    → ata_read_sector bus lba buf s ≡ (
      (read_pio bus io dev.drive lba buf s.device).0,
      (read_pio bus io dev.drive lba buf s.device).1,
      record s { device = (read_pio bus io dev.drive lba buf s.device).2 },
    )
unfolding ata_read_sector
ata_read_sector-eq bus io lba buf s dev e at = rw (e, ata_read_sector) (rw at refl)

pub ata_write_sector-eq :
    {D : Type 0} (bus : Bus D) (io lba : ℕ) (buf : ℕ → ℕ) (s : Ata D) (dev : AtaDevice)
    → selected bus s ≡ some dev
    → dev.io_base ≡ io
    → ata_write_sector bus lba buf s ≡ (
      (write_pio bus io dev.drive lba buf s.device).0,
      record s { device = (write_pio bus io dev.drive lba buf s.device).1 },
    )
unfolding ata_write_sector
ata_write_sector-eq bus io lba buf s dev e at = rw (e, ata_write_sector) (rw at refl)

-- The bytes of a sector whose words are those of the buffer.
bytes_back :
    (buf now old : ℕ → ℕ) (h n m i : ℕ)
    → i < 512
    → ((j : ℕ) → j < 512 → buf j < 2 ^ 8)
    → h ≡ i / 2
    → n < 2 ^ 28
    → now h ≡ (if n % 2 ^ 28 == m && ltb h 256 then word_at buf h else old h)
    → byte_of now i ≡ (if n == m then buf i else byte_of old i)
bytes_back buf now old h n m i l byte half lt e =
    let even : i % 2 ≡ 0 → buf (2 * h) ≡ buf i = λ x. ap buf (omega (arith, x, half)) in
    let odd : i % 2 ≡ 1 → buf (2 * h + 1) ≡ buf i = λ x. ap buf (omega (arith, x, half)) in
    let low : buf (2 * h) < 2 ^ 8 = byte (2 * h) (omega (arith, half, l)) in
    let high : buf (2 * h + 1) < 2 ^ 8 = byte (2 * h + 1) (omega (arith, half, l)) in
    rw (sym half) (ground (arith, e, lt, even, odd, low, high, l, half))

module _ {D : Type 0} {bus : Bus D} {io latency : ℕ} (k : IsDrive bus io latency)
    (fast : latency < 100000) where
  read-IsReady :
      (lba : ℕ) (buf : ℕ → ℕ) (s : Ata D) (r : IsReady k s)
      → IsReady k (record s { device = (read_pio bus io r.dev.drive lba buf s.device).2 })
  read-IsReady lba buf s r =
      let p =
        read_pio_lem k r.dev.drive lba buf s.device r.one_of_two r.same_unit r.at_rest r.heard
          r.soon fast in
      record {
        dev = r.dev;
        is_selected =
            selected_same bus s (read_pio bus io r.dev.drive lba buf s.device).2 ∙ r.is_selected;
        at_base = r.at_base;
        one_of_two = r.one_of_two;
        same_unit = p.5;
        at_rest = p.2;
        heard = inr (p.3);
        soon = omega (arith, p.3);
        words_fit = λ n i. rw p.4 (r.words_fit n i);
      }

  -- With a drive of the channel selected and at rest, a read succeeds with the bytes of the sector
  -- whose number is the low 28 bits of `lba`, and leaves the drive at rest with the content it had.
  pub ata_read_sector_lem :
      (lba : ℕ) (buf : ℕ → ℕ) (s : Ata D)
      → IsReady k s
      → ((ata_read_sector bus lba buf s).0 ≡ true)
        × ((j : ℕ)
            → (ata_read_sector bus lba buf s).1 j
              ≡ (if ltb j 512 then byte_of ((k.view s.device).content (lba % 2 ^ 28)) j else buf j))
        × IsReady k (ata_read_sector bus lba buf s).2
        × ((k.view (ata_read_sector bus lba buf s).2.device).content ≡ (k.view s.device).content)
  ata_read_sector_lem lba buf s r =
      let p =
        read_pio_lem k r.dev.drive lba buf s.device r.one_of_two r.same_unit r.at_rest r.heard
          r.soon fast in
      rw (ata_read_sector-eq bus io lba buf s r.dev r.is_selected r.at_base)
        (p.0, p.1, read-IsReady lba buf s r, p.4)

  -- A write succeeds; the sector at the low 28 bits of `lba` has the words of the buffer, and every
  -- other sector what it had.
  ata_write_sector_lem :
      (lba : ℕ) (buf : ℕ → ℕ) (s : Ata D)
      → IsReady k s
      → ((ata_write_sector bus lba buf s).0 ≡ true)
        × IsReady k (ata_write_sector bus lba buf s).1
        × ((m j : ℕ)
            → (k.view (ata_write_sector bus lba buf s).1.device).content m j ≡ (
                if lba % 2 ^ 28 == m && ltb j 256
                then word_at buf j
                else (k.view s.device).content m j))
  ata_write_sector_lem lba buf s r =
      let p =
        write_pio_lem k r.dev.drive lba buf s.device r.one_of_two r.same_unit r.at_rest r.heard
          r.soon fast in
      rw (ata_write_sector-eq bus io lba buf s r.dev r.is_selected r.at_base) (
        p.0,
        record {
          dev = r.dev;
          is_selected =
              selected_same bus s (write_pio bus io r.dev.drive lba buf s.device).1 ∙ r.is_selected;
          at_base = r.at_base;
          one_of_two = r.one_of_two;
          same_unit = p.4;
          at_rest = p.1;
          heard = inr (p.2);
          soon = omega (arith, p.2);
          words_fit = λ n i. ground (arith, p.3 n i, r.words_fit n i);
        },
        p.3,
      )

  -- The states of the driver in which a drive is ready, with its two operations.
  pub ata_sectors : SectorDevice ((s : Ata D) × IsReady k s)
  ata_sectors = record {
    read_sector = λ n d.
        let (ok, buf, s) = ata_read_sector bus n (λ i. 0) d.0 in if ok then some buf else none;
    write_sector = λ n buf d.
        let w = ata_write_sector bus n buf d.0 in
        (w.0, (w.1, (ata_write_sector_lem n buf d.0 d.1).1));
  }

  -- On a channel with one drive, master or slave, that is busy for fewer than 100000 reads of the
  -- status, the driver with that drive selected and at rest is a reliable disk of 2^28 sectors: a read
  -- gives the 512 bytes written last, and a write changes no other sector.
  pub ata_sectors-IsReliable : IsReliable ata_sectors (2 ^ 28)
  unfolding ata_sectors
  ata_sectors-IsReliable = record {
    view = λ d n i. byte_of ((k.view d.0.device).content n) i;
    reads = λ n d lt.
        let p = ata_read_sector_lem n (λ i. 0) d.0 d.1 in
        let low : n % 2 ^ 28 ≡ n = omega (arith, lt) in
        (
          (ata_read_sector bus n (λ i. 0) d.0).1,
          rw p.0 refl,
          λ i l. p.1 i ∙ rw low (ground (arith, l)),
        );
    is_byte = λ d n i. ground (arith, d.1.words_fit n (i / 2));
    writes = λ n m i buf d lt l byte.
        let p = ata_write_sector_lem n buf d.0 d.1 in
        bytes_back buf ((k.view (ata_write_sector bus n buf d.0).1.device).content m)
          ((k.view d.0.device).content m) (i / 2) n m i l byte refl lt (p.2 m (i / 2));
  }
