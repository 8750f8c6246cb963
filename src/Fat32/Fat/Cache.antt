-- ===== src/Fat32/Fat/Cache.antt =====
-- `fat_read` and `fat_write` of kernel/drivers/fat32/fat32.c: with the cache, the table reads as the
-- disk has it.
use deva.Prelude.{
  ℕ, zero, suc, ◌+◌, ◌-◌, ◌*◌, ◌/◌, ◌%◌, ◌^◌, ◌≤◌, ◌<◌, ◌≡◌, ◌≢◌, inl, inr, refl, sym, ap, ◌∙◌,
  false, arith, ◌==◌, if◌then◌else◌, Bool-cases, bit_and,
}
use deva.Prelude.Bits.{bit_and-mask}
use deva.Fat32.{put32, SectorDevice, Fs, fat_mask, get32}
use deva.Fat32.Words.{get32-put32, get32-put32_ne, get32_same, put32_same}
use deva.Fat32.Fat.{fat_sector, fat_offset, fat_read, write_copies, fat_write}
use deva.Fat32.Fat.Device.{
  IsReliable, HasTable, SameTable, SameDisk, clusters, entry, IsCoherent, fat_sector_lem,
  sector_on_disk, fat_offset_lem, HasTable-same, copy_on_disk, le_mul,
}

mask_lem : (w : ℕ) → bit_and w fat_mask ≡ w % 2 ^ 28
mask_lem w = bit_and-mask 28 w

module _ {D : Type 0} {dev : SectorDevice D} {size : ℕ} (works : IsReliable dev size) where
  -- What fat_read does: the entry of the disk, and a state that differs in the cache alone.
  pub record Reads (c : ℕ) (s : Fs D) (r : ℕ × Fs D) : Type 0 where
    pub value : r.0 ≡ entry works s c % 2 ^ 28
    pub same : SameDisk s r.1
    pub coherent : IsCoherent works r.1

  -- The word at the place of an entry, in a buffer that holds the sector.
  word_at :
      (c : ℕ) (s : Fs D) (bytes : ℕ → ℕ)
      → HasTable size s
      → c < clusters s
      → ((i : ℕ) → i < 512 → bytes i ≡ works.view s.disk (fat_sector c s) i)
      → bit_and (get32 bytes (fat_offset c s)) fat_mask ≡ entry works s c % 2 ^ 28
  unfolding entry
  word_at c s bytes table h held =
      let sector = fat_sector_lem table c h in
      let there : (i : ℕ) → i < 512 → bytes i ≡ works.view s.disk (s.fat_start + c / 128) i =
        λ i lt. held i lt ∙ ap (λ n. works.view s.disk n i) sector in
      let word = get32_same bytes _ (4 * (c % 128)) there (omega arith) in
      rw (fat_offset_lem table c h) (mask_lem _ ∙ ap (λ w. w % 2 ^ 28) word)

  same :
      (s : Fs D) (cache : ℕ → ℕ) (n : ℕ)
      → SameDisk s (record s { fat_cache = cache; fat_cache_sector = n })
  same s cache n = record {
    same_table = record {
      bytes_per_sector = refl;
      num_fats = refl;
      fat_size_sectors = refl;
      fat_start = refl;
    };
    disk = refl;
  }

  pub fat_read_lem :
      (c : ℕ) (s : Fs D)
      → HasTable size s
      → IsCoherent works s
      → c < clusters s
      → Reads c s (fat_read dev c s)
  unfolding fat_read IsCoherent
  fat_read_lem c s table coherent h = elim (Bool-cases (fat_sector c s == s.fat_cache_sector)) [
    | inl here ↦
        let e : fat_sector c s ≡ s.fat_cache_sector = ground arith in
        let on_disk : s.fat_cache_sector < size =
          omega (arith, e, fat_sector_lem table c h, sector_on_disk table c h) in
        rw here (record {
          value =
              word_at c s s.fat_cache table h
                (λ i lt. (coherent on_disk).1 i lt ∙ ap (λ n. works.view s.disk n i) (sym e));
          same = same s s.fat_cache s.fat_cache_sector;
          coherent = coherent;
        })
    | inr miss ↦
        let on_disk : fat_sector c s < size =
          rw (fat_sector_lem table c h) (sector_on_disk table c h) in
        let (bytes, e, held) = works.reads (fat_sector c s) s.disk on_disk in
        rw miss (
          rw e (record {
            value = word_at c s bytes table h held;
            same = same s bytes (fat_sector c s);
            coherent = λ lt. (omega (arith, fat_sector_lem table c h), held);
          }))
  ]

  put32_byte : (buf : ℕ → ℕ) (off value i : ℕ) → buf i < 2 ^ 8 → put32 buf off value i < 2 ^ 8
  unfolding put32
  put32_byte buf off value i h = ground arith

  -- A sector apart from the other copies stays as it is.
  write_copies-view :
      (n k fat_size sector m i : ℕ) (buf : ℕ → ℕ) (d : D)
      → ((j : ℕ) → j < k + n → sector + j * fat_size < size)
      → ((j : ℕ) → k ≤ j → sector + j * fat_size ≢ m)
      → size < 2 ^ 32
      → i < 512
      → ((j : ℕ) → j < 512 → buf j < 2 ^ 8)
      → works.view (write_copies dev fat_size sector k n buf d) m i ≡ works.view d m i
  unfolding write_copies
  write_copies-view zero k fat_size sector m i buf d fits apart small lt byte = refl
  write_copies-view (suc n) k fat_size sector m i buf d fits apart small lt byte =
      let here = fits k (omega arith) in
      let no_wrap : (sector + k * fat_size) % 2 ^ 32 ≡ sector + k * fat_size =
        omega (arith, here) in
      let other = apart k (omega arith) in
      let one = works.writes (sector + k * fat_size) m i buf d here lt byte in
      rw no_wrap (
        write_copies-view n (k + 1) fat_size sector m i buf _ (λ j h. fits j (omega arith))
          (λ j h. apart j (omega arith)) small lt byte
        ∙ ground (arith, one, other))

  module _ (stack : ℕ → ℕ) (c value : ℕ) (s : Fs D) (table : HasTable size s)
      (h : c < clusters s) where
    -- The first copy after the writes.
    fat_write-view :
        (m i : ℕ)
        → m < s.fat_start + s.fat_size_sectors
        → i < 512
        → works.view (fat_write dev stack c value s).disk m i ≡ (
            if s.fat_start + c / 128 == m
            then put32 (works.view s.disk m) (4 * (c % 128)) value i
            else works.view s.disk m i)
    unfolding fat_write
    fat_write-view m i in_first lt =
        let n = s.fat_start + c / 128 in
        let (bytes, e, held) = works.reads n s.disk (sector_on_disk table c h) in
        let buf = put32 bytes (4 * (c % 128)) value in
        let byte : (j : ℕ) → j < 512 → buf j < 2 ^ 8 = λ j g.
          put32_byte bytes (4 * (c % 128)) value j
            (omega (arith, held j g, works.is_byte s.disk n j)) in
        let fits : (j : ℕ) → j < 1 + (s.num_fats - 1) → n + j * s.fat_size_sectors < size =
          λ j g. copy_on_disk table (c / 128) j (omega arith) (omega (arith, table.copies)) in
        let apart : (j : ℕ) → 1 ≤ j → n + j * s.fat_size_sectors ≢ m =
          λ j g x. omega (arith, x, le_mul j s.fat_size_sectors g) in
        let copies =
          write_copies-view (s.num_fats - 1) 1 s.fat_size_sectors n m i buf
            (dev.write_sector n buf s.disk).1 fits apart (omega (arith, table.addressed)) lt byte in
        let first = works.writes n m i buf s.disk (sector_on_disk table c h) lt byte in
        let put = put32_same bytes (works.view s.disk n) (4 * (c % 128)) value i (held i lt) in
        rw (fat_sector_lem table c h) (
          rw (fat_offset_lem table c h) (
            rw e (
              copies ∙ first ∙ elim (Bool-cases (n == m)) [
                | inl here ↦ rw here (
                    put
                    ∙ ap (λ k. put32 (works.view s.disk k) (4 * (c % 128)) value i) (ground arith))
                | inr other ↦ rw other refl
              ])))

    pub fat_write-SameTable : SameTable s (fat_write dev stack c value s)
    unfolding fat_write
    fat_write-SameTable = record {
      bytes_per_sector = refl;
      num_fats = refl;
      fat_size_sectors = refl;
      fat_start = refl;
    }

    pub fat_write-entry :
        (c' : ℕ)
        → value < 2 ^ 32
        → c' < clusters s
        → entry works (fat_write dev stack c value s) c'
          ≡ (if c == c' then value else entry works s c')
    unfolding entry fat_write
    fat_write-entry c' small g =
        let n = s.fat_start + c / 128 in
        let m = s.fat_start + c' / 128 in
        let after = fat_write-view m in
        let in_first : m < s.fat_start + s.fat_size_sectors = omega arith in
        elim (Bool-cases (n == m)) [
          | inl here ↦
              let word =
                get32_same _ (put32 (works.view s.disk m) (4 * (c % 128)) value) (4 * (c' % 128))
                  (λ i lt. after i in_first lt ∙ rw here refl) (omega arith) in
              word ∙ elim (Bool-cases (c == c')) [
                | inl e ↦
                    let p : c ≡ c' = ground arith in
                    rw e (rw p (get32-put32 (works.view s.disk m) (4 * (c' % 128)) value small))
                | inr ne ↦
                    rw ne (
                      get32-put32_ne (works.view s.disk m) (c % 128) (c' % 128) value
                        (ground arith))
              ]
          | inr other ↦
              let ne : (c == c') ≡ false = ground arith in
              let word =
                get32_same _ (works.view s.disk m) (4 * (c' % 128))
                  (λ i lt. after i in_first lt ∙ rw other refl) (omega arith) in
              rw ne word
        ]

    fat_write-cache :
        (i : ℕ)
        → (fat_write dev stack c value s).fat_cache i ≡ (
            if s.fat_start + c / 128 == s.fat_cache_sector
            then put32 s.fat_cache (4 * (c % 128)) value i
            else s.fat_cache i)
    unfolding fat_write
    fat_write-cache i = rw (fat_sector_lem table c h) (
        rw (fat_offset_lem table c h)
          (elim (Bool-cases (s.fat_start + c / 128 == s.fat_cache_sector)) [
            | inl here ↦ rw here refl
            | inr other ↦ rw other refl
          ]))

    pub fat_write-IsCoherent : IsCoherent works s → IsCoherent works (fat_write dev stack c value s)
    unfolding IsCoherent fat_write
    fat_write-IsCoherent coherent lt =
        let (in_first, held) = coherent lt in
        let n = s.fat_start + c / 128 in
        let off = 4 * (c % 128) in
        (
          in_first,
          λ i le.
              let after = fat_write-view s.fat_cache_sector i in_first le in
              let disk_bytes = works.view s.disk s.fat_cache_sector in
              let cached : (if n == s.fat_cache_sector
                    then put32 s.fat_cache off value i
                    else s.fat_cache i)
                  ≡ (if n == s.fat_cache_sector
                      then put32 disk_bytes off value i
                      else disk_bytes i) =
                elim (Bool-cases (n == s.fat_cache_sector)) [
                  | inl here ↦ rw here (put32_same s.fat_cache disk_bytes off value i (held i le))
                  | inr other ↦ rw other (held i le)
                ] in
              fat_write-cache i ∙ cached ∙ sym after,
        )

  pub entry-same : (c : ℕ) (s s' : Fs D) → SameDisk s s' → entry works s' c ≡ entry works s c
  unfolding entry
  entry-same c s s' e = rw (e.disk, e.same_table.fat_start) refl

  -- A reliable disk with the table on it, and a coherent cache: after fat_write of a word fat_read gives
  -- its low 28 bits for the cluster, and for every other cluster what it gave before.
  pub fat_read-fat_write :
      (stack : ℕ → ℕ) (c c' value : ℕ) (s : Fs D)
      → HasTable size s
      → IsCoherent works s
      → c < clusters s
      → c' < clusters s
      → value < 2 ^ 32
      → (fat_read dev c' (fat_write dev stack c value s)).0
        ≡ (if c == c' then value % 2 ^ 28 else (fat_read dev c' s).0)
  fat_read-fat_write stack c c' value s table coherent h g small =
      let s1 = fat_write dev stack c value s in
      let shape = fat_write-SameTable stack c value s table h in
      let table1 = HasTable-same table shape in
      let coherent1 = fat_write-IsCoherent stack c value s table h coherent in
      let now =
        (fat_read_lem c' s1 table1 coherent1 (omega (arith, shape.fat_size_sectors))).value in
      let before = (fat_read_lem c' s table coherent g).value in
      let change = fat_write-entry stack c value s table h c' small g in
      ground (arith, now, before, change)
