-- ===== src/Fat32/Fat/Chain.antt =====
-- `fat_free_chain` of kernel/drivers/fat32/fat32.c: a chain of clusters is freed, and nothing else.
use deva.Prelude.{
  NotIn, Distinct, is_in, ℕ, zero, suc, ◌<◌, ◌≡◌, ◌≢◌, refl, ap, ◌∙◌, true, false, some, List, [],
  ◌∷◌, arith, ◌==◌, if◌then◌else◌, length,
}
use deva.Fat32.{SectorDevice, Fs, is_data}
use deva.Fat32.Fat.{fat_read, fat_write, fat_free_chain}
use deva.Fat32.Fat.Device.{
  IsReliable, HasTable, SameTable, SameDisk, SameTable-refl, SameTable-trans, HasTable-same,
  clusters, entry, IsCoherent,
}
use deva.Fat32.Fat.Cache.{
  fat_read_lem, fat_write-SameTable, fat_write-entry, fat_write-IsCoherent, entry-same,
}
use deva.Fat32.Fat.Alloc.{link}

module _ {D : Type 0} {dev : SectorDevice D} {size : ℕ} (works : IsReliable dev size) where
  -- From `c` the links lead through the clusters of the list, in order, to an end of chain or a number
  -- below 2.
  unfoldable pub IsChain : Fs D → ℕ → List ℕ → Type 0
  IsChain s c [] = is_data c ≡ false
  IsChain s c (x ∷ xs) =
      (c ≡ x) × (is_data x ≡ true) × (x < clusters s) × IsChain s (link works s x) xs

  -- A chain stays if the links of its clusters do.
  IsChain-frame :
      (s s' : Fs D) (x : ℕ) (xs : List ℕ) (c : ℕ)
      → SameTable s s'
      → ((k : ℕ) → k < clusters s → x ≢ k → entry works s' k ≡ entry works s k)
      → NotIn x xs
      → IsChain s c xs
      → IsChain s' c xs
  unfolding IsChain
  IsChain-frame s s' x [] c shape kept apart h = h
  IsChain-frame s s' x (y ∷ ys) c shape kept (ne, apart) (e, on, lt, rest) =
      let same = kept y lt ne in
      let in_table : y < clusters s' = omega (arith, shape.fat_size_sectors) in
      (e, on, in_table, rw same (IsChain-frame s s' x ys _ shape kept apart rest))

  -- A chain is on the disk.
  pub IsChain-same :
      (s s' : Fs D) (xs : List ℕ) (c : ℕ) → SameDisk s s' → IsChain s c xs → IsChain s' c xs
  unfolding IsChain
  IsChain-same s s' [] c same h = h
  IsChain-same s s' (x ∷ xs) c same (e, on, lt, rest) =
      let in_table : x < clusters s' = omega (arith, same.same_table.fat_size_sectors) in
      (e, on, in_table, rw (entry-same works x s s' same) (IsChain-same s s' xs _ same rest))

  -- The state after a chain is freed.
  pub record Frees (s : Fs D) (xs : List ℕ) (s' : Fs D) : Type 0 where
    pub same : SameTable s s'
    pub coherent : IsCoherent works s'
    pub freed :
        (k : ℕ) → k < clusters s → entry works s' k ≡ (if is_in k xs then 0 else entry works s k)

  -- One round of the loop.
  free_step :
      (fuel : ℕ) (stack : ℕ → ℕ) (c v : ℕ) (s : Fs D)
      → is_data c ≡ true
      → (fat_read dev c s).0 ≡ v
      → fat_free_chain dev (suc fuel) stack c s
        ≡ fat_free_chain dev fuel stack v (fat_write dev stack c 0 (fat_read dev c s).1)
  unfolding fat_free_chain
  free_step fuel stack c v s on e =
      rw on
        (ap (λ n. fat_free_chain dev fuel stack n (fat_write dev stack c 0 (fat_read dev c s).1)) e)

  -- A chain of different clusters on a reliable disk, with a coherent cache and more fuel than the chain
  -- has clusters: fat_free_chain ends, the entries of the chain are 0, every other entry stays, and the
  -- cache is coherent.
  pub fat_free_chain_lem :
      (xs : List ℕ) (fuel : ℕ) (stack : ℕ → ℕ) (c : ℕ) (s : Fs D)
      → HasTable size s
      → IsCoherent works s
      → IsChain s c xs
      → Distinct xs
      → length xs < fuel
      → (s' : Fs D) × (fat_free_chain dev fuel stack c s ≡ some s') × Frees s xs s'
  unfolding fat_free_chain IsChain
  fat_free_chain_lem xs zero stack c s table coherent h d lt = absurd (omega arith)
  fat_free_chain_lem [] (suc fuel) stack c s table coherent h d lt =
      (s, rw h refl, record { same = SameTable-refl s; coherent = coherent; freed = λ k l. refl })
  fat_free_chain_lem (x ∷ xs) (suc fuel) stack c s table coherent (e, on, in_table, rest) (apart, d)
        lt =
      let here : c < clusters s = omega (arith, e) in
      let got = fat_read_lem works c s table coherent here in
      let s1 = (fat_read dev c s).1 in
      let shape1 = got.same.same_table in
      let table1 = HasTable-same table shape1 in
      let in1 : c < clusters s1 = omega (arith, shape1.fat_size_sectors) in
      let s2 = fat_write dev stack c 0 s1 in
      let shape2 = SameTable-trans shape1 (fat_write-SameTable works stack c 0 s1 table1 in1) in
      let coherent2 = fat_write-IsCoherent works stack c 0 s1 table1 in1 got.coherent in
      let change : (k : ℕ)
          → k < clusters s
          → entry works s2 k ≡ (if c == k then 0 else entry works s k) =
        λ k l.
          (let new =
              fat_write-entry works stack c 0 s1 table1 in1 k (omega arith)
                (omega (arith, shape1.fat_size_sectors)) in
            let old = entry-same works k s s1 got.same in ground (arith, new, old)) in
      let v = link works s x in
      let chain2 =
        IsChain-frame s s2 c xs v shape2
          (λ k l ne. (let one = change k l in ground (arith, one, ne))) (rw e apart) rest in
      let (s', ends, frees) =
        fat_free_chain_lem xs fuel stack v s2 (HasTable-same table shape2) coherent2 chain2 d
          (omega arith) in
      let next : (fat_read dev c s).0 ≡ v = got.value ∙ ap (λ n. link works s n) e in
      (
        s',
        free_step fuel stack c v s (ap is_data e ∙ on) next ∙ ends,
        record {
          same = SameTable-trans shape2 frees.same;
          coherent = frees.coherent;
          freed = λ k l.
              let later = frees.freed k (omega (arith, shape2.fat_size_sectors)) in
              let first = change k l in ground (arith, later, first, e);
        },
      )
