-- ===== src/Paging/Tables.antt =====
-- Page-table entries of kernel/drivers/paging/paging.c: the masks and flags in closed form, and
-- the invariant of one page directory with its tables.
use deva.Prelude.{
  ℕ, ◌+◌, ◌*◌, ◌/◌, ◌%◌, ◌^◌, ◌<◌, ◌≡◌, ◌≢◌, ap, ◌∙◌, true, bit_and, bit_or, arith, ◌==◌,
}
use deva.Prelude.Bits.{
  bit_and-mask, bit_and_high, bit_and-one, bit_or-one, bit_or_two, bit_or_fields,
}
use deva.Paging.{
  Paging, page_size, pte_frame_mask, pte_present, pte_rw, tbl_idx, is_present, entry_at,
}
use deva.Paging.Frames.{is_used, FewFrames}

-- The page that an address lies in, by its number and by its start.
abbrev pub page_of : ℕ → ℕ
page_of v = v / page_size

abbrev pub base_of : ℕ → ℕ
base_of v = v / page_size * page_size

pub frame_mask : (x : ℕ) → x < 2 ^ 32 → bit_and x pte_frame_mask ≡ base_of x
frame_mask x h = bit_and_high 12 20 x h

pub tbl_idx_lem : (v : ℕ) → tbl_idx v ≡ page_of v % 1024
tbl_idx_lem v = bit_and-mask 10 (v / 2 ^ 12)

pub is_present-odd : (e : ℕ) → is_present e ≡ (e % 2 == 1)
is_present-odd e = ground (arith, bit_and-one e)

-- What `map_page` writes into a table, and into the directory for a new table.
abbrev pub page_entry : ℕ → ℕ → ℕ
page_entry paddr flags = bit_or (bit_or (bit_and paddr pte_frame_mask) flags) pte_present

abbrev pub table_entry : ℕ → ℕ → ℕ
table_entry table flags = bit_or (bit_or (bit_or table flags) pte_present) pte_rw

flags_below :
    (q flags : ℕ) → flags < page_size → bit_or (q * page_size) flags ≡ q * page_size + flags
flags_below q flags h = bit_or_fields 12 q flags h

pub page_entry_lem :
    (paddr flags : ℕ)
    → paddr < 2 ^ 32
    → flags < page_size
    → (base_of (page_entry paddr flags) ≡ base_of paddr)
      × (is_present (page_entry paddr flags) ≡ true)
      × (page_entry paddr flags < 2 ^ 32)
page_entry_lem paddr flags h f =
    let e1 = frame_mask paddr h in
    let e2 = flags_below (page_of paddr) flags f in
    let e3 = bit_or-one (base_of paddr + flags) in
    let e : page_entry paddr flags ≡ (base_of paddr + flags) / 2 * 2 + 1 =
      ap (λ x. bit_or (bit_or x flags) pte_present) e1 ∙ ap (λ x. bit_or x pte_present) e2 ∙ e3 in
    (omega (arith, e), ground (arith, is_present-odd (page_entry paddr flags)), omega (arith, e))

pub table_entry_lem :
    (f flags : ℕ)
    → f < 2 ^ 20
    → flags < page_size
    → (base_of (table_entry (f * page_size) flags) ≡ f * page_size)
      × (is_present (table_entry (f * page_size) flags) ≡ true)
      × (table_entry (f * page_size) flags < 2 ^ 32)
table_entry_lem f flags h g =
    let x : ℕ = (f * page_size + flags) / 2 * 2 + 1 in
    let e : table_entry (f * page_size) flags ≡ x / 4 * 4 + 2 + x % 2 =
      ap (λ y. bit_or (bit_or y pte_present) pte_rw) (flags_below f flags g)
      ∙ ap (λ y. bit_or y pte_rw) (bit_or-one (f * page_size + flags))
      ∙ bit_or_two x in
    (
      omega (arith, e),
      ground (arith, is_present-odd (table_entry (f * page_size) flags)),
      omega (arith, e),
    )

-- The table of a directory's slot.
abbrev pub slot : Paging → ℕ → ℕ → ℕ
slot s dir di = s.mem (entry_at dir di)

-- A directory with its tables: every present table stands in a frame of its own that is in use and
-- is not the directory's.
pub record IsDirectory (dir : ℕ) (s : Paging) : Type 0 where
  pub few : FewFrames s
  pub zero_marked : is_used s 0 ≡ true
  pub aligned : dir % page_size ≡ 0
  pub marked : is_used s (page_of dir) ≡ true
  pub words : (di : ℕ) → di < 1024 → slot s dir di < 2 ^ 32
  pub tables :
      (di : ℕ)
      → di < 1024
      → is_present (slot s dir di) ≡ true
      → (is_used s (page_of (slot s dir di)) ≡ true) × (base_of (slot s dir di) ≢ dir)
  pub apart :
      (di dj : ℕ)
      → di < 1024
      → dj < 1024
      → is_present (slot s dir di) ≡ true
      → is_present (slot s dir dj) ≡ true
      → base_of (slot s dir di) ≡ base_of (slot s dir dj)
      → di ≡ dj
