-- ===== src/Ata/Protocol.antt =====
-- The waits and the commands of kernel/drivers/ata/ata.c on a channel with a drive.
use deva.Prelude.{
  ℕ, zero, suc, ◌+◌, ◌-◌, ◌*◌, ◌/◌, ◌%◌, ◌^◌, ◌≤◌, ◌<◌, ◌≡◌, refl, ap, ◌∙◌, ◌⊎◌, inl, inr, Bool,
  Bool-cases, true, false, if◌then◌else◌, arith,
}
use deva.Prelude.Bits.{bit_and-mask, bit_or_fields}
use deva.Ata.{
  Bus, reg_seccount, reg_lba_lo, reg_lba_mid, reg_lba_hi, reg_drive, reg_status, is_bsy, wait_while,
  delay, drive_select, send_command,
}
use deva.Ata.Disk.{idle, Drive, lba_of, chosen, status_of, polled, accepted, set_register, IsDrive}

abbrev pub ready : Drive → Drive
ready v = record v { busy = 0 }

-- The address in the registers: 28 bits of it.
drive_select_lem :
    (drive lba : ℕ)
    → drive ≤ 1
    → drive_select drive lba ≡ (14 + drive) * 2 ^ 4 + lba / 2 ^ 24 % 2 ^ 4
unfolding drive_select
drive_select_lem zero lba h =
    rw (bit_and-mask 4 (lba / 2 ^ 24)) (bit_or_fields 4 14 (lba / 2 ^ 24 % 2 ^ 4) (omega arith))
drive_select_lem (suc zero) lba h =
    rw (bit_and-mask 4 (lba / 2 ^ 24)) (bit_or_fields 4 15 (lba / 2 ^ 24 % 2 ^ 4) (omega arith))
drive_select_lem (suc (suc n)) lba h = ground (arith, h)

lba_lem :
    (drive lba : ℕ)
    → drive ≤ 1
    → drive_select drive lba % 2 ^ 4 * 2 ^ 24
        + lba / 2 ^ 16 % 2 ^ 8 * 2 ^ 16
        + lba / 2 ^ 8 % 2 ^ 8 * 2 ^ 8
        + lba % 2 ^ 8
      ≡ lba % 2 ^ 28
lba_lem drive lba h = rw (drive_select_lem drive lba h) (omega arith)

-- The drive after the registers are written.
abbrev pub addressed : ℕ → ℕ → Drive → Drive
addressed drive lba v = record v {
  select = drive_select drive lba;
  seccount = 1;
  lba_lo = lba % 2 ^ 8;
  lba_mid = lba / 2 ^ 8 % 2 ^ 8;
  lba_hi = lba / 2 ^ 16 % 2 ^ 8;
  busy = 0;
}

-- It is named, and the address counts sectors.
pub addressed-chosen :
    (drive lba : ℕ) (v : Drive) → drive ≤ 1 → v.unit ≡ drive → chosen (addressed drive lba v) ≡ true
addressed-chosen drive lba v h e =
    let bit : drive_select drive lba / 2 ^ 4 % 2 ≡ drive =
      rw (drive_select_lem drive lba h) (omega (arith, h)) in
    ground (arith, bit, e)

pub addressed-lba_of :
    (drive lba : ℕ) (v : Drive) → drive ≤ 1 → lba_of (addressed drive lba v) ≡ lba % 2 ^ 28
addressed-lba_of drive lba v h =
    let bit : drive_select drive lba / 2 ^ 6 % 2 ≡ 1 =
      rw (drive_select_lem drive lba h) (omega (arith, h)) in
    let at = lba_lem drive lba h in ground (arith, bit, at)

pub idle_free : (v : Drive) → v.transfer ≡ idle → is_bsy (status_of (ready v)) ≡ false
idle_free v e = elim (Bool-cases (chosen v)) [ inl c ↦ rw (c, e) refl | inr c ↦ rw c refl ]

module _ {D : Type 0} {bus : Bus D} {io latency : ℕ} (k : IsDrive bus io latency) where
  -- A wait for a drive that is busy for fewer reads than the counter allows ends.
  pub wait_lem :
      (pending : ℕ → Bool) (timeout b : ℕ) (d : D)
      → chosen (k.view d) ≡ true
      → (k.view d).busy ≡ b
      → b < timeout
      → pending 0x80 ≡ true
      → pending (status_of (ready (k.view d))) ≡ false
      → ((wait_while bus pending io timeout d).0 ≡ true)
        × (k.view (wait_while bus pending io timeout d).1 ≡ ready (k.view d))
  unfolding wait_while
  wait_lem pending zero b d ch e lt busy done = ground (arith, lt)
  wait_lem pending (suc timeout) zero d ch e lt busy done =
      let same : k.view d ≡ ready (k.view d) = ap (λ n. record (k.view d) { busy = n }) e in
      let free : pending (bus.inb (io + reg_status) d).0 ≡ false =
        ap pending (k.inb-view d ∙ ap status_of same) ∙ done in
      rw free (refl, k.inb-next d ∙ ap polled same)
  wait_lem pending (suc timeout) (suc b) d ch e lt busy done =
      let bsy : status_of (k.view d) ≡ 0x80 = ground (arith, e, ch) in
      let again : pending (bus.inb (io + reg_status) d).0 ≡ true =
        ap pending (k.inb-view d ∙ bsy) ∙ busy in
      let d1 = (bus.inb (io + reg_status) d).1 in
      let next : ready (k.view d1) ≡ ready (k.view d) = ap ready (k.inb-next d) in
      let less : (k.view d1).busy ≡ b =
        ap (λ (v : Drive). v.busy) (k.inb-next d) ∙ omega (arith, e) in
      let ih =
        wait_lem pending timeout b d1 (ap chosen (k.inb-next d) ∙ ch) less (omega (arith, lt)) busy
          (ap (λ v. pending (status_of v)) next ∙ done) in
      rw again (ih.0, ih.1 ∙ next)

  unheard_lem :
      (timeout : ℕ) (d : D)
      → chosen (k.view d) ≡ false
      → (k.view d).busy ≡ 0
      → ((wait_while bus is_bsy io (suc timeout) d).0 ≡ true)
        × (k.view (wait_while bus is_bsy io (suc timeout) d).1 ≡ ready (k.view d))
  unfolding wait_while
  unheard_lem timeout d ch e =
      let answer : status_of (k.view d) ≡ 0 = rw ch refl in
      let free : is_bsy (bus.inb (io + reg_status) d).0 ≡ false =
        ap is_bsy (k.inb-view d ∙ answer) in
      let none_left : (k.view d).busy - 1 ≡ 0 = omega (arith, e) in
      rw free (refl, k.inb-next d ∙ ap (λ n. record (k.view d) { busy = n }) none_left)

  -- The wait before the registers: a drive that is not named answers with no bit, and is not busy.
  pub settle_lem :
      (d : D)
      → (k.view d).transfer ≡ idle
      → (chosen (k.view d) ≡ true) ⊎ ((k.view d).busy ≡ 0)
      → (k.view d).busy < 100000
      → ((wait_while bus is_bsy io 100000 d).0 ≡ true)
        × (k.view (wait_while bus is_bsy io 100000 d).1 ≡ ready (k.view d))
  settle_lem d rest (inl ch) short =
      wait_lem is_bsy 100000 (k.view d).busy d ch refl short refl (idle_free (k.view d) rest)
  settle_lem d rest (inr e) short = elim (Bool-cases (chosen (k.view d))) [
    | inl ch ↦
        wait_lem is_bsy 100000 (k.view d).busy d ch refl short refl (idle_free (k.view d) rest)
    | inr not_ch ↦ unheard_lem 99999 d not_ch e
  ]

  delay_lem : (d : D) → k.view (delay bus io d) ≡ record (k.view d) { busy = (k.view d).busy - 4 }
  unfolding delay
  delay_lem d =
      let d1 = (bus.inb (io + reg_status) d).1 in
      let d2 = (bus.inb (io + reg_status) d1).1 in
      let d3 = (bus.inb (io + reg_status) d2).1 in
      k.inb-next d3
      ∙ ap polled (k.inb-next d2)
      ∙ ap (λ v. polled (polled v)) (k.inb-next d1)
      ∙ ap (λ v. polled (polled (polled v))) (k.inb-next d)
      ∙ ap (λ n. record (k.view d) { busy = n }) (omega arith)

  -- After the registers are set the drive is at the address and busy with the command.
  pub send_command_lem :
      (drive lba command : ℕ) (d : D)
      → drive ≤ 1
      → (k.view d).unit ≡ drive
      → (k.view d).busy ≡ 0
      → k.view (send_command bus io drive lba command d)
        ≡ accepted latency command (addressed drive lba (k.view d))
  unfolding send_command
  send_command_lem drive lba command d small unit free =
      let v = k.view d in
      let d0 = bus.outb (io + reg_drive) (drive_select drive lba) d in
      let d1 = delay bus io d0 in
      let d2 = bus.outb (io + reg_seccount) 1 d1 in
      let d3 = bus.outb (io + reg_lba_lo) (lba % 2 ^ 8) d2 in
      let d4 = bus.outb (io + reg_lba_mid) (lba / 2 ^ 8 % 2 ^ 8) d3 in
      let d5 = bus.outb (io + reg_lba_hi) (lba / 2 ^ 16 % 2 ^ 8) d4 in
      let e0 =
        k.outb-view d reg_drive (drive_select drive lba)
        ∙ ap (λ n. set_register latency reg_drive (drive_select drive lba) (record v { busy = n }))
            free in
      let e1 = delay_lem d0 ∙ ap (λ (v : Drive). record v { busy = v.busy - 4 }) e0 in
      let e2 = k.outb-view d1 reg_seccount 1 ∙ ap (set_register latency reg_seccount 1) e1 in
      let e3 =
        k.outb-view d2 reg_lba_lo (lba % 2 ^ 8)
        ∙ ap (set_register latency reg_lba_lo (lba % 2 ^ 8)) e2 in
      let e4 =
        k.outb-view d3 reg_lba_mid (lba / 2 ^ 8 % 2 ^ 8)
        ∙ ap (set_register latency reg_lba_mid (lba / 2 ^ 8 % 2 ^ 8)) e3 in
      let e5 =
        k.outb-view d4 reg_lba_hi (lba / 2 ^ 16 % 2 ^ 8)
        ∙ ap (set_register latency reg_lba_hi (lba / 2 ^ 16 % 2 ^ 8)) e4 in
      let taken =
        ap
          (λ (b : Bool).
            if b then accepted latency command (addressed drive lba v) else addressed drive lba v)
          (addressed-chosen drive lba v small unit) in
      k.outb-view d5 reg_status command ∙ ap (set_register latency reg_status command) e5 ∙ taken
