-- ===== src/Fat32/Fat/Alloc.antt =====
-- `fat_find_free` and `fat_alloc` of kernel/drivers/fat32/fat32.c: the lowest free cluster.
use deva.Prelude.{
  ℕ, zero, suc, ◌+◌, ◌-◌, ◌%◌, ◌^◌, ◌≤◌, ◌<◌, ◌≡◌, ◌≢◌, ◌⊎◌, inl, inr, refl, sym, ap, ◌∙◌, true,
  false, arith, ◌==◌, if◌then◌else◌, not_zero, Bool-cases,
}
use deva.Fat32.{SectorDevice, Fs, fat_eoc}
use deva.Fat32.Fat.{fat_read, find_free_from, fat_total, fat_find_free, fat_alloc}
use deva.Fat32.Fat.Device.{
  IsReliable, HasTable, SameTable, SameDisk, SameTable-refl, SameTable-trans, HasTable-same,
  clusters, entry, IsCoherent, fat_total_lem,
}
use deva.Fat32.Fat.Cache.{
  fat_read_lem, fat_write-SameTable, fat_write-entry, fat_write-IsCoherent, entry-same,
}

-- The value that the driver sees in an entry.
abbrev pub link :
    {D : Type 0} {dev : SectorDevice D} {size : ℕ} → IsReliable dev size → Fs D → ℕ → ℕ
link works s c = entry works s c % 2 ^ 28

module _ {D : Type 0} {dev : SectorDevice D} {size : ℕ} (works : IsReliable dev size) where
  -- What a search from `c` over `n` clusters finds: the first free one, or 0 and there is none.
  pub record Finds (c n : ℕ) (s : Fs D) (r : ℕ × Fs D) : Type 0 where
    pub same : SameDisk s r.1
    pub coherent : IsCoherent works r.1
    pub found :
        ((r.0 ≡ 0) × ((k : ℕ) → c ≤ k → k < c + n → link works s k ≢ 0))
        ⊎ ((c ≤ r.0)
            × (r.0 < c + n)
            × (link works s r.0 ≡ 0)
            × ((k : ℕ) → c ≤ k → k < r.0 → link works s k ≢ 0))

  SameDisk-trans : (s t u : Fs D) → SameDisk s t → SameDisk t u → SameDisk s u
  SameDisk-trans s t u p q = record {
    same_table = SameTable-trans p.same_table q.same_table;
    disk = q.disk ∙ p.disk;
  }

  used_here_or_later :
      (s : Fs D) (c k : ℕ)
      → c ≤ k
      → link works s c ≢ 0
      → (c + 1 ≤ k → link works s k ≢ 0)
      → link works s k ≢ 0
  used_here_or_later s c k le here next e = elim (Bool-cases (c == k)) [
    | inl same ↦ here (ap (λ i. link works s i) (ground (arith, same)) ∙ e)
    | inr other ↦ next (ground (arith, other)) e
  ]

  find_free_from_lem :
      (n c : ℕ) (s : Fs D)
      → HasTable size s
      → IsCoherent works s
      → c + n ≤ clusters s
      → Finds c n s (find_free_from dev c n s)
  unfolding find_free_from
  find_free_from_lem zero c s table coherent h = record {
    same = record { same_table = SameTable-refl s; disk = refl };
    coherent = coherent;
    found = inl (refl, λ k le lt. absurd (omega arith));
  }
  find_free_from_lem (suc n) c s table coherent h =
      let one = fat_read_lem works c s table coherent (omega arith) in
      let s1 = (fat_read dev c s).1 in
      elim (Bool-cases ((fat_read dev c s).0 == 0)) [
        | inl free ↦ rw free (record {
          same = one.same;
          coherent = one.coherent;
          found = inr (
            omega arith,
            omega arith,
            sym one.value ∙ ground (arith, free),
            λ k le lt. absurd (omega arith),
          );
        })
        | inr used ↦
            let shape = one.same.same_table in
            let same_link = λ (k : ℕ). ap (λ w. w % 2 ^ 28) (entry-same works k s s1 one.same) in
            let here : link works s c ≢ 0 =
              λ e. (let v = one.value in ground (arith, v, e, used)) in
            let later : (k : ℕ) → c ≤ k → (c + 1 ≤ k → link works s1 k ≢ 0) → link works s k ≢ 0 =
              λ k le next. used_here_or_later s c k le here (λ le1 e. next le1 (same_link k ∙ e)) in
            let rest =
              find_free_from_lem n (c + 1) s1 (HasTable-same table shape) one.coherent
                (omega (arith, shape.fat_size_sectors)) in
            rw used (record {
              same = SameDisk-trans s s1 _ one.same rest.same;
              coherent = rest.coherent;
              found = elim rest.found [
                | inl (none_left, all) ↦
                    inl (none_left, λ k le lt. later k le (λ le1. all k le1 (omega arith)))
                | inr (low, high, free, before) ↦ inr (
                  omega arith,
                  omega arith,
                  sym (same_link _) ∙ free,
                  λ k le lt. later k le (λ le1. before k le1 lt),
                )
              ];
            })
      ]

  -- A cluster is reserved, or none is free.
  pub record Allocates (s : Fs D) (r : ℕ × Fs D) : Type 0 where
    pub same : SameTable s r.1
    pub coherent : IsCoherent works r.1
    pub found :
        ((r.0 ≡ 0) × (r.1.disk ≡ s.disk) × ((k : ℕ) → 2 ≤ k → k < clusters s → link works s k ≢ 0))
        ⊎ ((2 ≤ r.0)
            × (r.0 < clusters s)
            × (link works s r.0 ≡ 0)
            × ((k : ℕ) → 2 ≤ k → k < r.0 → link works s k ≢ 0)
            × ((k : ℕ)
                → k < clusters s
                → entry works r.1 k ≡ (if r.0 == k then fat_eoc else entry works s k)))

  -- fat_alloc on a reliable disk with a table of 2 entries or more and a coherent cache: it reserves the
  -- lowest free cluster from 2 on, whose entry becomes the end mark while the others stay, or no cluster
  -- is free, the answer is 0 and the disk stays; the cache stays coherent.
  pub fat_alloc_lem :
      (stack : ℕ → ℕ) (s : Fs D)
      → HasTable size s
      → IsCoherent works s
      → 2 ≤ clusters s
      → Allocates s (fat_alloc dev stack s)
  unfolding fat_alloc fat_find_free
  fat_alloc_lem stack s table coherent some_entries =
      let total : fat_total s - 2 ≡ clusters s - 2 = ap (λ t. t - 2) (fat_total_lem table) in
      let search = find_free_from_lem (clusters s - 2) 2 s table coherent (omega arith) in
      let s1 = (find_free_from dev 2 (clusters s - 2) s).1 in
      let c = (find_free_from dev 2 (clusters s - 2) s).0 in
      rw total (elim search.found [
        | inl (nothing, all) ↦
            let stop : not_zero c ≡ false = ground (arith, nothing) in
            rw stop (record {
              same = search.same.same_table;
              coherent = search.coherent;
              found = inl (nothing, search.same.disk, λ k le lt. all k le (omega arith));
            })
        | inr (low, high, free, before) ↦
            let go : not_zero c ≡ true = ground (arith, low) in
            let shape = search.same.same_table in
            let table1 = HasTable-same table shape in
            let in1 : c < clusters s1 = omega (arith, shape.fat_size_sectors) in
            rw go (record {
              same =
                  SameTable-trans shape (fat_write-SameTable works stack c fat_eoc s1 table1 in1);
              coherent = fat_write-IsCoherent works stack c fat_eoc s1 table1 in1 search.coherent;
              found = inr (
                low,
                omega arith,
                free,
                before,
                λ k lt.
                    (let new =
                        fat_write-entry works stack c fat_eoc s1 table1 in1 k (omega arith)
                          (omega (arith, shape.fat_size_sectors)) in
                      let old = entry-same works k s s1 search.same in ground (arith, new, old)),
              );
            })
      ])
