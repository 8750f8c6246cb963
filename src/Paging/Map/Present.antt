-- ===== src/Paging/Map/Present.antt =====
-- `map_page` of kernel/drivers/paging/paging.c where the table is there already.
use deva.Prelude.{
  ℕ, ◌+◌, ◌*◌, ◌%◌, ◌^◌, ◌<◌, ◌≡◌, true, bit_and, arith, ◌==◌, if◌then◌else◌, update,
}
use deva.Paging.{
  Paging, page_size, pte_frame_mask, dir_idx, is_present, set_entry, map_page, get_physical,
}
use deva.Paging.Tables.{
  page_of, base_of, frame_mask, tbl_idx_lem, page_entry, page_entry_lem, slot, IsDirectory,
}

-- What a lookup finds, without masks.
pub get_physical_lem :
    (dir w : ℕ) (s : Paging)
    → slot s dir (dir_idx w) < 2 ^ 32
    → (let p = s.mem (base_of (slot s dir (dir_idx w)) + 4 * (page_of w % 1024)) in
        get_physical dir w s ≡ (
          if is_present (slot s dir (dir_idx w))
          then (if is_present p then bit_and p pte_frame_mask else 0)
          else 0))
unfolding get_physical
get_physical_lem dir w s h = ground (arith, frame_mask (slot s dir (dir_idx w)) h, tbl_idx_lem w)

module _ {dir : ℕ} {s : Paging} (d : IsDirectory dir s) (v paddr flags : ℕ) (in_space : v < 2 ^ 32)
    (frame_in : paddr < 2 ^ 32) (flag_bits : flags < page_size) where
  -- The table is there: one word changes.
  abbrev pub written : Paging
  written = record s {
    mem =
        update s.mem (base_of (slot s dir (dir_idx v)) + 4 * (page_of v % 1024))
          (page_entry paddr flags);
  }

  pub map_page_present :
      is_present (slot s dir (dir_idx v)) ≡ true → map_page dir v paddr flags s ≡ written
  unfolding map_page set_entry
  map_page_present there = ground (
    arith,
    frame_mask (slot s dir (dir_idx v)) (d.words (dir_idx v) (omega arith)),
    tbl_idx_lem v,
  )

  pub written_lookup :
      is_present (slot s dir (dir_idx v)) ≡ true
      → (w : ℕ) → w < 2 ^ 32
      → get_physical dir w written
        ≡ (if page_of w == page_of v then base_of paddr else get_physical dir w s)
  written_lookup there w in_w =
      let dv = dir_idx v in
      let dw = dir_idx w in
      let other = (d.tables dv (omega arith) there).1 in
      let (base, there', word) = page_entry_lem paddr flags frame_in flag_bits in
      let same : slot written dir dw ≡ slot s dir dw = ground (arith, d.aligned, other) in
      let masked = frame_mask (page_entry paddr flags) word in
      let fits : slot written dir dw < 2 ^ 32 = ground (arith, same, d.words dw (omega arith)) in
      ground (
        arith,
        get_physical_lem dir w written fits,
        get_physical_lem dir w s (d.words dw (omega arith)),
        d.apart dv dw (omega arith) (omega arith) there,
        same,
        masked,
        base,
        there',
      )

  pub written-IsDirectory : is_present (slot s dir (dir_idx v)) ≡ true → IsDirectory dir written
  written-IsDirectory there =
      let other = (d.tables (dir_idx v) (omega arith) there).1 in
      let same = λ (di : ℕ) (lt : di < 1024).
        let e : slot written dir di ≡ slot s dir di = ground (arith, d.aligned, other) in e in
      record {
        few = d.few;
        zero_marked = d.zero_marked;
        aligned = d.aligned;
        marked = d.marked;
        words = λ di lt. ground (arith, same di lt, d.words di lt);
        tables = λ di lt. ground (arith, same di lt, d.tables di lt);
        apart = λ di dj li lj. ground (arith, same di li, same dj lj, d.apart di dj li lj);
      }
