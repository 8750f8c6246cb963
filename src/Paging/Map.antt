-- ===== src/Paging/Map.antt =====
-- `map_page` and `get_physical` of kernel/drivers/paging/paging.c: a page directory is a map from
-- pages to frames, and mapping one page changes that page alone.
pub mod Present
pub mod Created
use deva.Prelude.{
  ℕ, zero, suc, ◌+◌, ◌-◌, ◌*◌, ◌/◌, ◌%◌, ◌^◌, ◌≤◌, ◌<◌, ◌≡◌, ◌≢◌, refl, ap, ◌∙◌, ◌⊎◌, inl, inr,
  Bool, true, false, ◌||◌, ◌&&◌, bit_and, bit_or, arith, ltb, leb, ◌==◌, ==_iff, if◌then◌else◌,
  not_zero, update, Bool-cases,
}
use deva.Paging.{
  Paging, page_size, pte_frame_mask, dir_idx, tbl_idx, is_present, entry_at, set_entry, map_page,
  get_physical, alloc_page_table, alloc_frame, zero_page,
}
use deva.Paging.Frames.{is_used, FewFrames, Allocates, alloc_frame_lem}
use deva.Paging.Tables.{
  page_of, base_of, frame_mask, tbl_idx_lem, page_entry, table_entry, page_entry_lem,
  table_entry_lem, slot, IsDirectory,
}
use deva.Paging.Map.Present.{
  get_physical_lem, written, map_page_present, written_lookup, written-IsDirectory,
}
use deva.Paging.Map.Created.{
  created, not_frame_zero, map_page-created, created_lookup, created-IsDirectory,
}

-- There is a table for the page, or a frame for a new one.
abbrev pub can_map : ℕ → ℕ → Paging → Bool
can_map dir v s = is_present (slot s dir (dir_idx v)) || not_zero (alloc_frame s).0

abbrev pub Mapped : ℕ → ℕ → ℕ → Paging → Paging → Type 0
Mapped dir v paddr s s' =
    IsDirectory dir s'
    × ((w : ℕ)
        → w < 2 ^ 32
        → get_physical dir w s' ≡ (
            if page_of w == page_of v && can_map dir v s
            then base_of paddr
            else get_physical dir w s))
    × ((can_map dir v s ≡ true) ⊎ (s' ≡ s))

module _ {dir : ℕ} {s : Paging} (d : IsDirectory dir s) (v paddr flags : ℕ) (in_space : v < 2 ^ 32)
    (frame_in : paddr < 2 ^ 32) (flag_bits : flags < page_size) where
  map_page_failed :
      is_present (slot s dir (dir_idx v)) ≡ false
      → alloc_frame s ≡ (0, s)
      → map_page dir v paddr flags s ≡ s
  unfolding map_page alloc_page_table
  map_page_failed missing e = ground arith

  missing_case :
      is_present (slot s dir (dir_idx v)) ≡ false
      → Mapped dir v paddr s (map_page dir v paddr flags s)
  missing_case missing = elim (alloc_frame_lem s d.few) [
    | inl (f, a) ↦ rw (map_page-created d v paddr flags in_space frame_in flag_bits f a missing) (
      created-IsDirectory d v paddr flags in_space frame_in flag_bits f a missing,
      λ w in_w. ground (
        arith,
        created_lookup d v paddr flags in_space frame_in flag_bits f a missing w in_w,
        a.address,
        not_frame_zero d v paddr flags in_space frame_in flag_bits f a missing,
      ),
      inl (
          ground (
            arith,
            a.address,
            not_frame_zero d v paddr flags in_space frame_in flag_bits f a missing,
          )),
    )
    | inr (all, e) ↦
        let kept : map_page dir v paddr flags s ≡ s = map_page_failed missing e in
        rw kept (d, (λ w in_w. ground (arith, e, missing)), inr refl)
  ]

-- `map_page` keeps the directory well formed, and afterwards the page of `v` is found at the frame
-- of `paddr`, every other page where it was; without a table and without a free frame the whole
-- state is what it was.
pub map_page-Mapped :
    {dir : ℕ} {s : Paging} (d : IsDirectory dir s) (v paddr flags : ℕ)
    → v < 2 ^ 32
    → paddr < 2 ^ 32
    → flags < page_size
    → Mapped dir v paddr s (map_page dir v paddr flags s)
map_page-Mapped {dir} {s} d v paddr flags hv hp hf =
    elim (Bool-cases (is_present (slot s dir (dir_idx v)))) [
      | inl there ↦ rw (map_page_present d v paddr flags hv hp hf there) (
        written-IsDirectory d v paddr flags hv hp hf there,
        λ w in_w. ground (arith, written_lookup d v paddr flags hv hp hf there w in_w, there),
        inl (ground (arith, there)),
      )
      | inr missing ↦ missing_case d v paddr flags hv hp hf missing
    ]
