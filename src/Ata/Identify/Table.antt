-- ===== src/Ata/Identify/Table.antt =====
-- The table of drives that `ata_detect_drives` of kernel/drivers/ata/ata.c fills, and selection.
use deva.Prelude.{
  update_ne, ℕ, suc, ◌≤◌, ◌<◌, ◌≡◌, ◌⊎◌, inl, inr, refl, ◌∙◌, true, false, some, arith, Bool-cases,
}
use deva.Prelude.Int.{ℤ, pos, negsuc}
use deva.Ata.{Bus, AtaDevice, Ata, selected}
use deva.Ata.Identify.{
  max_drives, primary_io, secondary_io, described, ata_identify, detect, ata_detect_drives,
  ata_select_drive,
}

-- The entries below `drive_count` are drives that answered on one of the two channels, and the
-- entries from `max_drives` on, which the array does not have, are those of `old`.
pub record IsTable {D : Type 0} (old : ℕ → AtaDevice) (s : Ata D) (most : ℕ) : Type 0 where
  pub few : s.drive_count ≤ most
  pub present : (i : ℕ) → i < s.drive_count → (s.drives i).present ≡ true
  pub channel :
      (i : ℕ)
      → i < s.drive_count
      → ((s.drives i).io_base ≡ primary_io) ⊎ ((s.drives i).io_base ≡ secondary_io)
  pub one_of_two : (i : ℕ) → i < s.drive_count → (s.drives i).drive ≤ 1
  pub outside : (i : ℕ) → max_drives ≤ i → s.drives i ≡ old i

module _ {D : Type 0} (bus : Bus D) where
  ata_identify_lem :
      (stack : ℕ → ℕ) (io drive : ℕ) (dev : AtaDevice) (d : D)
      → ((ata_identify bus stack io drive dev d).1.io_base ≡ io)
        × ((ata_identify bus stack io drive dev d).1.drive ≡ drive)
        × ((ata_identify bus stack io drive dev d).1.present
            ≡ (ata_identify bus stack io drive dev d).0)
  unfolding ata_identify described
  ata_identify_lem stack io drive dev d = (ground arith, ground arith, ground arith)

  detect-IsTable :
      (old : ℕ → AtaDevice) (stack : ℕ → ℕ) (io drive n : ℕ) (s : Ata D)
      → (io ≡ primary_io) ⊎ (io ≡ secondary_io)
      → drive ≤ 1
      → n < max_drives
      → IsTable old s n
      → IsTable old (detect bus stack io drive s) (suc n)
  unfolding detect
  detect-IsTable old stack io drive n s at small room t =
      let (base, unit, found) = ata_identify_lem stack io drive (s.drives s.drive_count) s.device in
      let few = t.few in
      record {
        few = ground (arith, few);
        present = λ i lt. ground (arith, found, t.present i, lt);
        channel = λ i lt. ground (arith, base, at, t.channel i, lt);
        one_of_two = λ i lt. ground (arith, unit, small, t.one_of_two i, lt);
        outside = λ i le.
            update_ne s.drives s.drive_count i
              (ata_identify bus stack io drive (s.drives s.drive_count) s.device).1
              (omega (arith, few, room, le))
            ∙ t.outside i le;
      }

  -- However the ports answer, ata_detect_drives leaves at most four drives in the table; each of
  -- them is present, on one of the two channels and number 0 or 1 there, and no entry outside the
  -- array is written.
  pub ata_detect_drives-IsTable :
      (stack : ℕ → ℕ) (s : Ata D) → IsTable s.drives (ata_detect_drives bus stack s) max_drives
  unfolding ata_detect_drives
  ata_detect_drives-IsTable stack s =
      let s0 = record s { drive_count = 0 } in
      let s1 = detect bus stack primary_io 0 s0 in
      let s2 = detect bus stack primary_io 1 s1 in
      let s3 = detect bus stack secondary_io 0 s2 in
      let t0 : IsTable s.drives s0 0 = record {
        few = omega arith;
        present = λ i lt. ground (arith, lt);
        channel = λ i lt. ground (arith, lt);
        one_of_two = λ i lt. ground (arith, lt);
        outside = λ i le. refl;
      } in
      let t1 =
        detect-IsTable s.drives stack primary_io 0 0 s0 (inl refl) (omega arith) (omega arith) t0 in
      let t2 =
        detect-IsTable s.drives stack primary_io 1 1 s1 (inl refl) (omega arith) (omega arith) t1 in
      let t3 =
        detect-IsTable s.drives stack secondary_io 0 2 s2 (inr refl) (omega arith) (omega arith)
          t2 in
      detect-IsTable s.drives stack secondary_io 1 3 s3 (inr refl) (omega arith) (omega arith) t3

  select_done :
      (n : ℕ) (s : Ata D)
      → (ata_select_drive bus (pos n) s).0 ≡ true
      → (n < s.drive_count)
        × ((ata_select_drive bus (pos n) s).1.selected_drive ≡ pos n)
        × ((ata_select_drive bus (pos n) s).1.drive_count ≡ s.drive_count)
        × ((ata_select_drive bus (pos n) s).1.drives ≡ s.drives)
  unfolding ata_select_drive
  select_done n s e = (ground (arith, e), ground (arith, e), ground (arith, e), ground (arith, e))

  select_failed :
      (n : ℕ) (s : Ata D)
      → (ata_select_drive bus (pos n) s).0 ≡ false
      → ((ata_select_drive bus (pos n) s).1.selected_drive ≡ s.selected_drive)
        × ((ata_select_drive bus (pos n) s).1.drives ≡ s.drives)
  unfolding ata_select_drive
  select_failed n s e = (ground (arith, e), ground (arith, e))

  selected_now :
      {old : ℕ → AtaDevice} (n : ℕ) (s : Ata D)
      → IsTable old s max_drives
      → n < s.drive_count
      → (s' : Ata D) → s'.selected_drive ≡ pos n
      → s'.drive_count ≡ s.drive_count
      → s'.drives ≡ s.drives
      → selected bus s' ≡ some (s.drives n)
  unfolding selected
  selected_now n s t lt s' now count table =
      rw (now, count, table) (ground (arith, lt, t.present n lt, t.channel n lt))

  -- Of a drive in the table, ata_select_drive either fails, and the selection is what it was, or it
  -- succeeds, and the guards of the sector calls let that drive through from then on; of any other
  -- number it fails and touches no port.
  pub ata_select_drive_lem :
      (old : ℕ → AtaDevice) (n : ℤ) (s : Ata D)
      → IsTable old s max_drives
      → (((ata_select_drive bus n s).0 ≡ false)
          × ((ata_select_drive bus n s).1.selected_drive ≡ s.selected_drive)
          × ((ata_select_drive bus n s).1.drives ≡ s.drives))
        ⊎ ((m : ℕ) × (n ≡ pos m)
            × (m < s.drive_count)
            × ((ata_select_drive bus n s).0 ≡ true)
            × (selected bus (ata_select_drive bus n s).1 ≡ some (s.drives m)))
  unfolding ata_select_drive selected
  ata_select_drive_lem old (negsuc n) s t = inl (refl, refl, refl)
  ata_select_drive_lem old (pos n) s t = elim (Bool-cases (ata_select_drive bus (pos n) s).0) [
    | inl e ↦
        let (lt, now, count, table) = select_done n s e in
        inr
          (n, refl, lt, e, selected_now n s t lt (ata_select_drive bus (pos n) s).1 now count table)
    | inr e ↦ inl (e, (select_failed n s e).0, (select_failed n s e).1)
  ]
