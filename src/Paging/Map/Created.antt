-- ===== src/Paging/Map/Created.antt =====
-- `map_page` of kernel/drivers/paging/paging.c where the table has to be made.
use deva.Prelude.{
  ℕ, ◌+◌, ◌*◌, ◌%◌, ◌^◌, ◌<◌, ◌≡◌, ◌≢◌, ap, ◌∙◌, sym, inl, inr, true, false, arith, ◌==◌,
  if◌then◌else◌, update, Bool-cases,
}
use deva.Paging.{
  Paging, page_size, dir_idx, is_present, entry_at, set_entry, map_page, get_physical,
  alloc_page_table, alloc_frame, zero_page,
}
use deva.Paging.Frames.{is_used, Allocates}
use deva.Paging.Tables.{
  page_of, base_of, frame_mask, tbl_idx_lem, page_entry, table_entry, page_entry_lem,
  table_entry_lem, slot, IsDirectory,
}
use deva.Paging.Map.Present.{get_physical_lem}

module _ {dir : ℕ} {s : Paging} (d : IsDirectory dir s) (v paddr flags : ℕ) (in_space : v < 2 ^ 32)
    (frame_in : paddr < 2 ^ 32) (flag_bits : flags < page_size) (f : ℕ) (a : Allocates s f)
    (missing : is_present (slot s dir (dir_idx v)) ≡ false) where
  -- The table is made: the directory's word, and one word of the new table.
  abbrev pub created : Paging
  created = record s {
    frame_bitmap = (alloc_frame s).1.frame_bitmap;
    mem =
        update
          (update (zero_page s.mem (f * page_size)) (entry_at dir (dir_idx v))
            (table_entry (f * page_size) flags))
          (f * page_size + 4 * (page_of v % 1024)) (page_entry paddr flags);
  }

  pub not_frame_zero : f ≢ 0
  not_frame_zero = ground (arith, a.was_free, d.zero_marked)

  pub map_page-created : map_page dir v paddr flags s ≡ created
  unfolding map_page set_entry alloc_page_table
  map_page-created = ground (arith, missing, a.address, a.rest, not_frame_zero, tbl_idx_lem v)

  slot-created :
      (di : ℕ)
      → di < 1024
      → slot created dir di
        ≡ (if di == dir_idx v then table_entry (f * page_size) flags else slot s dir di)
  slot-created di lt = ground (arith, d.aligned, d.marked, a.was_free)

  dir_apart : page_of dir ≢ f
  dir_apart = ground (arith, d.marked, a.was_free)

  -- The new table holds the one entry, and the pages of the other tables are as they were.
  mem_new :
      (k : ℕ)
      → k < 1024
      → created.mem (f * page_size + 4 * k)
        ≡ (if k == page_of v % 1024 then page_entry paddr flags else 0)
  mem_new k lt = ground (arith, d.aligned, dir_apart)

  mem_old :
      (b k : ℕ)
      → k < 1024
      → b ≢ f
      → b ≢ page_of dir
      → created.mem (b * page_size + 4 * k) ≡ s.mem (b * page_size + 4 * k)
  mem_old b k lt ne ne' = ground (arith, d.aligned)

  lookup_new :
      (w : ℕ)
      → w < 2 ^ 32
      → dir_idx w ≡ dir_idx v
      → get_physical dir w created ≡ (if page_of w == page_of v then base_of paddr else 0)
  lookup_new w in_w e =
      let (base, there', word) = page_entry_lem paddr flags frame_in flag_bits in
      let (base2, there2, word2) =
        table_entry_lem f flags (omega (arith, a.in_range, d.few)) flag_bits in
      let masked = frame_mask (page_entry paddr flags) word in
      let slots : slot created dir (dir_idx w) ≡ table_entry (f * page_size) flags =
        ground (arith, slot-created (dir_idx w) (omega arith)) in
      let fits : slot created dir (dir_idx w) < 2 ^ 32 = ground (arith, slots, word2) in
      get_physical_lem dir w created fits
      ∙ rw (slots, base2, mem_new (page_of w % 1024) (omega arith), there2)
          (ground (arith, masked, base, there'))

  lookup_old :
      (w : ℕ)
      → w < 2 ^ 32
      → dir_idx w ≢ dir_idx v
      → get_physical dir w created ≡ get_physical dir w s
  lookup_old w in_w ne =
      let dw = dir_idx w in
      let old = d.words dw (omega arith) in
      let slots : slot created dir dw ≡ slot s dir dw =
        ground (arith, slot-created dw (omega arith)) in
      let fits : slot created dir dw < 2 ^ 32 = ground (arith, slots, old) in
      get_physical_lem dir w created fits
      ∙ rw slots (
          ground (
            arith,
            get_physical_lem dir w s old,
            d.tables dw (omega arith),
            a.was_free,
            d.aligned,
            mem_old (page_of (slot s dir dw)) (page_of w % 1024) (omega arith),
          ))

  pub created_lookup :
      (w : ℕ)
      → w < 2 ^ 32
      → get_physical dir w created
        ≡ (if page_of w == page_of v then base_of paddr else get_physical dir w s)
  created_lookup w in_w = elim (Bool-cases (dir_idx w == dir_idx v)) [
    | inl same ↦ ground (
      arith,
      lookup_new w in_w (ground arith),
      get_physical_lem dir w s (d.words (dir_idx w) (omega arith)),
      missing,
    )
    | inr other ↦ ground (arith, lookup_old w in_w (ground arith))
  ]

  slot_kept : (di : ℕ) → di < 1024 → di ≢ dir_idx v → slot created dir di ≡ slot s dir di
  slot_kept di lt ne = ground (arith, slot-created di lt)

  slot_new : slot created dir (dir_idx v) ≡ table_entry (f * page_size) flags
  slot_new = ground (arith, slot-created (dir_idx v) (omega arith))

  new_entry :
      (base_of (slot created dir (dir_idx v)) ≡ f * page_size)
      × (slot created dir (dir_idx v) < 2 ^ 32)
  new_entry =
      let (base, there, word) =
        table_entry_lem f flags (omega (arith, a.in_range, d.few)) flag_bits in
      rw slot_new (base, word)

  created_tables :
      (di : ℕ)
      → di < 1024
      → is_present (slot created dir di) ≡ true
      → (is_used created (page_of (slot created dir di)) ≡ true)
        × (base_of (slot created dir di) ≢ dir)
  created_tables di lt p = elim (Bool-cases (di == dir_idx v)) [
    | inl same ↦
        let e : di ≡ dir_idx v = ground arith in
        rw e (ground (arith, new_entry.0, a.marked f, dir_apart, d.aligned))
    | inr other ↦
        let e : slot created dir di ≡ slot s dir di = slot_kept di lt (ground arith) in
        let q : is_present (slot s dir di) ≡ true = rw e at p in
        rw e (ground (arith, d.tables di lt q, a.marked (page_of (slot s dir di))))
  ]

  created_words : (di : ℕ) → di < 1024 → slot created dir di < 2 ^ 32
  created_words di lt = elim (Bool-cases (di == dir_idx v)) [
    | inl same ↦ let e : di ≡ dir_idx v = ground arith in rw e new_entry.1
    | inr other ↦ rw (slot_kept di lt (ground arith)) (d.words di lt)
  ]

  -- A table that was there does not stand in the new frame.
  kept_apart :
      (di : ℕ)
      → di < 1024
      → di ≢ dir_idx v
      → is_present (slot created dir di) ≡ true
      → base_of (slot created dir di) ≢ base_of (slot created dir (dir_idx v))
  kept_apart di lt ne p =
      let e = slot_kept di lt ne in
      let q : is_present (slot s dir di) ≡ true = rw e at p in
      rw e (ground (arith, new_entry.0, d.tables di lt q, a.was_free))

  created_apart :
      (di dj : ℕ)
      → di < 1024
      → dj < 1024
      → is_present (slot created dir di) ≡ true
      → is_present (slot created dir dj) ≡ true
      → base_of (slot created dir di) ≡ base_of (slot created dir dj)
      → di ≡ dj
  created_apart di dj li lj p q e = elim (Bool-cases (di == dir_idx v)) [
    | inl same_i ↦
        let ei : di ≡ dir_idx v = ground arith in
        elim (Bool-cases (dj == dir_idx v)) [
          | inl same_j ↦ ground arith
          | inr other ↦ absurd (kept_apart dj lj (ground arith) q (sym e ∙ ap base_slot ei))
        ]
    | inr other_i ↦ elim (Bool-cases (dj == dir_idx v)) [
      | inl same_j ↦
          let ej : dj ≡ dir_idx v = ground arith in
          absurd (kept_apart di li (ground arith) p (e ∙ ap base_slot ej))
      | inr other_j ↦
          let ei = slot_kept di li (ground arith) in
          let ej = slot_kept dj lj (ground arith) in
          d.apart di dj li lj (rw ei at p) (rw ej at q)
            (sym (ap (λ x. base_of x) ei) ∙ e ∙ ap (λ x. base_of x) ej)
    ]
  ]
    where
      base_slot : ℕ → ℕ
      base_slot k = base_of (slot created dir k)

  pub created-IsDirectory : IsDirectory dir created
  created-IsDirectory = record {
    few = d.few;
    zero_marked = ground (arith, a.marked 0, d.zero_marked);
    aligned = d.aligned;
    marked = ground (arith, a.marked (page_of dir), d.marked);
    words = created_words;
    tables = created_tables;
    apart = created_apart;
  }
