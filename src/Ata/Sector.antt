-- ===== src/Ata/Sector.antt =====
-- `ata_read_sector` and `ata_write_sector` of kernel/drivers/ata/ata.c on a channel with a drive.
use deva.Prelude.{
  not, ℕ, ◌*◌, ◌/◌, ◌%◌, ◌^◌, ◌≤◌, ◌<◌, ◌≡◌, refl, ap, ◌∙◌, ◌⊎◌, Bool, true, false, ◌&&◌, arith,
  ltb, leb, ◌==◌, if◌then◌else◌,
}
use deva.Ata.{
  Bus, cmd_read_pio, cmd_write_pio, is_bsy, is_drq, word_at, wait_while, wait_bsy, wait_drq,
  send_command, write_words, read_pio, write_pio,
}
use deva.Ata.Disk.{idle, reading, Drive, lba_of, chosen, status_of, IsDrive}
use deva.Ata.Protocol.{
  ready, addressed, addressed-chosen, addressed-lba_of, idle_free, wait_lem, settle_lem,
  send_command_lem,
}
use deva.Ata.Words.{byte_of, read_words_lem, write_words_lem}

from_start :
    {a b : ℕ} (c j : ℕ)
    → a ≡ b
    → (if leb (2 * 0) j && ltb j 512 then a else c) ≡ (if ltb j 512 then b else c)
from_start c j e = ground (arith, e)

module _ {D : Type 0} {bus : Bus D} {io latency : ℕ} (k : IsDrive bus io latency) where
  -- The sector arrives in the buffer, and the drive is idle with the content it had.
  pub read_pio_lem :
      (drive lba : ℕ) (buf : ℕ → ℕ) (d : D)
      → drive ≤ 1
      → (k.view d).unit ≡ drive
      → (k.view d).transfer ≡ idle
      → (chosen (k.view d) ≡ true) ⊎ ((k.view d).busy ≡ 0)
      → (k.view d).busy < 100000
      → latency < 100000
      → ((read_pio bus io drive lba buf d).0 ≡ true)
        × ((j : ℕ)
            → (read_pio bus io drive lba buf d).1 j
              ≡ (if ltb j 512 then byte_of ((k.view d).content (lba % 2 ^ 28)) j else buf j))
        × ((k.view (read_pio bus io drive lba buf d).2).transfer ≡ idle)
        × ((k.view (read_pio bus io drive lba buf d).2).busy ≡ 0)
        × ((k.view (read_pio bus io drive lba buf d).2).content ≡ (k.view d).content)
        × ((k.view (read_pio bus io drive lba buf d).2).unit ≡ drive)
  unfolding read_pio wait_bsy wait_drq
  read_pio_lem drive lba buf d small unit rest heard short fast =
      let free = settle_lem k d rest heard short in
      let d1 = (wait_while bus is_bsy io 100000 d).1 in
      let d2 = send_command bus io drive lba cmd_read_pio d1 in
      let unit1 : (k.view d1).unit ≡ drive = ap (λ (v : Drive). v.unit) free.1 ∙ unit in
      let none_left : (k.view d1).busy ≡ 0 = ap (λ (v : Drive). v.busy) free.1 in
      let sent = send_command_lem k drive lba cmd_read_pio d1 small unit1 none_left in
      let heard2 = ap chosen sent ∙ addressed-chosen drive lba (k.view d1) small unit1 in
      let shown : not (is_drq (status_of (ready (k.view d2)))) ≡ false =
        ap (λ (v : Drive). not (is_drq (status_of (ready v)))) sent
        ∙ ap (λ (b : Bool). not (is_drq (if not b then 0 else 0x48)))
            (addressed-chosen drive lba (k.view d1) small unit1) in
      let drq =
        wait_lem k (λ status. not (is_drq status)) 100000 latency d2 heard2
          (ap (λ (v : Drive). v.busy) sent) fast refl shown in
      let d3 = (wait_while bus (λ status. not (is_drq status)) io 100000 d2).1 in
      let v = addressed drive lba (k.view d1) in
      let at : k.view d3 ≡ record v { transfer = reading 0 } = drq.1 ∙ ap ready sent in
      let got = read_words_lem k 255 0 buf d3 v refl at refl in
      let same : v.content ≡ (k.view d).content = ap (λ (v : Drive). v.content) free.1 in
      let words : v.content (lba_of v) ≡ (k.view d).content (lba % 2 ^ 28) =
        ap v.content (addressed-lba_of drive lba (k.view d1) small)
        ∙ ap (λ (c : ℕ → ℕ → ℕ). c (lba % 2 ^ 28)) same in
      rw (free.0, drq.0)
        (
          refl,
          λ j. got.0 j ∙ from_start (buf j) j (ap (λ (f : ℕ → ℕ). byte_of f j) words),
          ap (λ (v : Drive). v.transfer) got.1,
          ap (λ (v : Drive). v.busy) got.1,
          ap (λ (v : Drive). v.content) got.1 ∙ same,
          ap (λ (v : Drive). v.unit) got.1 ∙ unit1,
        )

  -- The words of the buffer are the sector, and every other sector is what it was.
  pub write_pio_lem :
      (drive lba : ℕ) (buf : ℕ → ℕ) (d : D)
      → drive ≤ 1
      → (k.view d).unit ≡ drive
      → (k.view d).transfer ≡ idle
      → (chosen (k.view d) ≡ true) ⊎ ((k.view d).busy ≡ 0)
      → (k.view d).busy < 100000
      → latency < 100000
      → ((write_pio bus io drive lba buf d).0 ≡ true)
        × ((k.view (write_pio bus io drive lba buf d).1).transfer ≡ idle)
        × ((k.view (write_pio bus io drive lba buf d).1).busy ≡ 0)
        × ((m j : ℕ)
            → (k.view (write_pio bus io drive lba buf d).1).content m j
              ≡ (if lba % 2 ^ 28 == m && ltb j 256 then word_at buf j else (k.view d).content m j))
        × ((k.view (write_pio bus io drive lba buf d).1).unit ≡ drive)
  unfolding write_pio wait_bsy wait_drq
  write_pio_lem drive lba buf d small unit rest heard short fast =
      let free = settle_lem k d rest heard short in
      let d1 = (wait_while bus is_bsy io 100000 d).1 in
      let d2 = send_command bus io drive lba cmd_write_pio d1 in
      let unit1 : (k.view d1).unit ≡ drive = ap (λ (v : Drive). v.unit) free.1 ∙ unit in
      let none_left : (k.view d1).busy ≡ 0 = ap (λ (v : Drive). v.busy) free.1 in
      let sent = send_command_lem k drive lba cmd_write_pio d1 small unit1 none_left in
      let heard2 = ap chosen sent ∙ addressed-chosen drive lba (k.view d1) small unit1 in
      let shown : not (is_drq (status_of (ready (k.view d2)))) ≡ false =
        ap (λ (v : Drive). not (is_drq (status_of (ready v)))) sent
        ∙ ap (λ (b : Bool). not (is_drq (if not b then 0 else 0x48)))
            (addressed-chosen drive lba (k.view d1) small unit1) in
      let drq =
        wait_lem k (λ status. not (is_drq status)) 100000 latency d2 heard2
          (ap (λ (v : Drive). v.busy) sent) fast refl shown in
      let d3 = (wait_while bus (λ status. not (is_drq status)) io 100000 d2).1 in
      let at = drq.1 ∙ ap ready sent in
      let got =
        write_words_lem k 255 0 buf d3 (ap (λ (v : Drive). v.transfer) at)
          (ap (λ (v : Drive). v.seccount) at) refl in
      let d4 = write_words bus io 0 256 buf d3 in
      let select4 : (k.view d4).select ≡ (k.view d3).select = got.3 in
      let heard4 : chosen (k.view d4) ≡ true =
        ap (λ (n : ℕ). n / 2 ^ 4 % 2 == (k.view d4).unit) select4
        ∙ ap (λ (n : ℕ). (k.view d3).select / 2 ^ 4 % 2 == n) got.4
        ∙ ap chosen at
        ∙ addressed-chosen drive lba (k.view d1) small unit1 in
      let flush =
        wait_lem k is_bsy 100000 latency d4 heard4 got.1 fast refl (idle_free (k.view d4) got.0) in
      let flushed_unit : (k.view d4).unit ≡ drive = got.4 ∙ ap (λ (v : Drive). v.unit) at ∙ unit1 in
      let addr : lba_of (k.view d3) ≡ lba % 2 ^ 28 =
        ap lba_of at ∙ addressed-lba_of drive lba (k.view d1) small in
      rw (free.0, drq.0)
        (
          flush.0,
          ap (λ (v : Drive). v.transfer) flush.1 ∙ got.0,
          ap (λ (v : Drive). v.busy) flush.1,
          λ m j.
              let same : (k.view d3).content m j ≡ (k.view d).content m j =
                ap (λ (v : Drive). v.content m j) at ∙ ap (λ (v : Drive). v.content m j) free.1 in
              ap (λ (v : Drive). v.content m j) flush.1
              ∙ got.2 m j
              ∙ rw addr (ground (arith, same)),
          ap (λ (v : Drive). v.unit) flush.1 ∙ flushed_unit,
        )
