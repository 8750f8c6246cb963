-- ===== src/Fat32/File/Write/Linked.antt =====
-- The chain that `fat32_write` of kernel/drivers/fat32/fat32.c reserves for the data.
use deva.Prelude.{
  ℕ, zero, suc, ◌%◌, ◌^◌, ◌≤◌, ◌<◌, ◌≡◌, ◌≢◌, ◌⊎◌, inl, inr, refl, sym, ap, ◌∙◌, Bool, true, false,
  List, [], ◌∷◌, arith, ◌==◌, if◌then◌else◌, length,
}
use deva.Fat32.{SectorDevice, Fs, is_data, is_eoc, fat_eoc}
use deva.Fat32.Fat.{fat_alloc, fat_write}
use deva.Fat32.Fat.Device.{
  IsReliable, HasTable, SameTable, SameDisk, SameTable-refl, SameTable-trans, HasTable-same,
  clusters, entry, IsCoherent,
}
use deva.Fat32.Fat.Cache.{fat_write-SameTable, fat_write-entry, fat_write-IsCoherent, entry-same}
use deva.Fat32.Fat.Alloc.{link, fat_alloc_lem}
use deva.Fat32.Fat.Chain.{IsChain}
use deva.Fat32.File.Write.{link_clusters}

module _ {D : Type 0} {dev : SectorDevice D} {size : ℕ} (works : IsReliable dev size) where
  -- The clusters are in the table, and free.
  abbrev pub WereFree : Fs D → List ℕ → Type 0
  WereFree s [] = Unit {0}
  WereFree s (x ∷ xs) = (x < clusters s) × (link works s x ≡ 0) × WereFree s xs

  -- The table after the loop: clusters that were free hang behind `prev`, `n` of them, or fewer and
  -- none is free any more; all that were in use keep their entries.
  pub record Links (n prev : ℕ) (s : Fs D) (r : Bool × Fs D) : Type 0 where
    pub same : SameTable s r.1
    pub linked : List ℕ
    pub were_free : WereFree s linked
    pub chain : IsChain works r.1 prev (prev ∷ linked)
    pub enough :
        ((r.0 ≡ true) × (length linked ≡ n))
        ⊎ ((r.0 ≡ false)
            × (length linked < n)
            × ((k : ℕ) → 2 ≤ k → k < clusters s → link works r.1 k ≢ 0))
    pub kept :
        (k : ℕ)
        → k < clusters s
        → prev ≢ k
        → link works s k ≢ 0
        → entry works r.1 k ≡ entry works s k

  is_data-true : (c : ℕ) → 2 ≤ c → c < fat_eoc → is_data c ≡ true
  unfolding is_data is_eoc
  is_data-true c h g = ground arith

  WereFree-later :
      (s t : Fs D)
      → ((k : ℕ) → k < clusters t → (k < clusters s) × (link works t k ≡ 0 → link works s k ≡ 0))
      → (xs : List ℕ) → WereFree t xs
      → WereFree s xs
  WereFree-later s t h [] free = tt
  WereFree-later s t h (x ∷ xs) (low, free, rest) =
      ((h x low).0, (h x low).1 free, WereFree-later s t h xs rest)

  -- On a reliable disk with at most 0x0FFFFFF8 entries and a coherent cache, behind a cluster that
  -- ends its chain: link_clusters hangs clusters that were free behind it as one chain, n of them
  -- with the answer true, or fewer with the answer false, and then no cluster of the table is free
  -- any more; every other cluster that was in use keeps its entry.
  pub link_clusters_lem :
      (fuel : ℕ) (stack : ℕ → ℕ) (n prev : ℕ) (s : Fs D)
      → HasTable size s
      → IsCoherent works s
      → clusters s ≤ fat_eoc
      → 2 ≤ prev
      → prev < clusters s
      → entry works s prev ≡ fat_eoc
      → Links n prev s (link_clusters dev fuel stack n prev s)
  unfolding link_clusters IsChain is_data is_eoc
  link_clusters_lem fuel stack zero prev s table coherent few low high last = record {
    same = SameTable-refl s;
    linked = [];
    were_free = tt;
    chain = (refl, is_data-true prev low (omega arith), high, rw last refl);
    enough = inl (refl, refl);
    kept = λ k lt ne used. refl;
  }
  link_clusters_lem fuel stack (suc n) prev s table coherent few low high last =
      let got = fat_alloc_lem works stack s table coherent (omega arith) in
      let next = (fat_alloc dev stack s).0 in
      let s1 = (fat_alloc dev stack s).1 in
      elim got.found [
        | inl (nothing, same, all) ↦
            let stop : (next == 0) ≡ true = ground (arith, nothing) in
            let same1 : SameDisk s s1 = record { same_table = got.same; disk = same } in
            let last1 = entry-same works prev s s1 same1 ∙ last in
            rw stop (record {
              same = got.same;
              linked = [];
              were_free = tt;
              chain = (
                refl,
                is_data-true prev low (omega arith),
                omega (arith, got.same.fat_size_sectors),
                rw last1 refl,
              );
              enough = inr (
                refl,
                omega arith,
                λ k le lt e.
                    all k le lt (sym (ap (λ w. w % 2 ^ 28) (entry-same works k s s1 same1)) ∙ e),
              );
              kept = λ k lt ne used. entry-same works k s s1 same1;
            })
        | inr (low1, high1, free, before, change) ↦
            let go : (next == 0) ≡ false = ground (arith, low1) in
            let table1 = HasTable-same table got.same in
            let in1 : prev < clusters s1 = omega (arith, got.same.fat_size_sectors) in
            let s2 = fat_write dev stack prev next s1 in
            let shape =
              SameTable-trans got.same (fat_write-SameTable works stack prev next s1 table1 in1) in
            let other : next ≢ prev =
              λ e. (let used = ap (λ k. link works s k) e in ground (arith, used, free, last)) in
            let entry2 : (k : ℕ)
                → k < clusters s
                → entry works s2 k
                  ≡ (if prev == k then next else if next == k then fat_eoc else entry works s k) =
              λ k lt.
                (let new =
                    fat_write-entry works stack prev next s1 table1 in1 k (omega arith)
                      (omega (arith, got.same.fat_size_sectors)) in
                  let old = change k lt in ground (arith, new, old)) in
            let mine = entry2 next high1 in
            let rest =
              link_clusters_lem fuel stack n next s2 (HasTable-same table shape)
                (fat_write-IsCoherent works stack prev next s1 table1 in1 got.coherent)
                (omega (arith, shape.fat_size_sectors)) low1 (omega (arith, shape.fat_size_sectors))
                (ground (arith, mine, other)) in
            let r = (link_clusters dev fuel stack n next s2).1 in
            let first = entry2 prev high in
            let behind : entry works r prev ≡ next =
              rest.kept prev (omega (arith, shape.fat_size_sectors)) other
                (λ e. (let z = low1 in ground (arith, first, e, z, high1, few)))
              ∙ ground (arith, first) in
            let link_behind : link works r prev ≡ next =
              ap (λ w. w % 2 ^ 28) behind ∙ omega (arith, high1, few) in
            rw go (record {
              same = SameTable-trans shape rest.same;
              linked = next ∷ rest.linked;
              were_free = (
                high1,
                free,
                WereFree-later s s2
                    (λ k lt.
                      let lt1 : k < clusters s = omega (arith, shape.fat_size_sectors, lt) in
                      (
                        lt1,
                        λ e.
                            (let now = entry2 k lt1 in
                              let z = low1 in ground (arith, now, e, z, high1, few)),
                      ))
                    rest.linked rest.were_free,
              );
              chain = (
                refl,
                is_data-true prev low (omega arith),
                omega (arith, shape.fat_size_sectors, rest.same.fat_size_sectors),
                rw link_behind rest.chain,
              );
              enough = elim rest.enough [
                | inl (yes_all, count) ↦ inl (yes_all, omega (arith, count))
                | inr (no_more, count, full) ↦ inr (
                  no_more,
                  omega (arith, count),
                  λ k le lt. full k le (omega (arith, shape.fat_size_sectors, lt)),
                )
              ];
              kept = λ k lt ne used.
                  (let apart : next ≢ k = λ e. used (ap (λ j. link works s j) (sym e) ∙ free) in
                    let now = entry2 k lt in
                    rest.kept k (omega (arith, shape.fat_size_sectors)) apart
                      (λ e. (let z = used in ground (arith, now, e, z, ne, apart)))
                    ∙ ground (arith, now, ne, apart));
            })
      ]
