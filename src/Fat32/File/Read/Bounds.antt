-- ===== src/Fat32/File/Read/Bounds.antt =====
-- The copying loop of `fat32_read`, kernel/drivers/fat32/fat32.c: it ends, and stays in the buffer.
use deva.Prelude.{
  ℕ, zero, suc, ◌+◌, ◌-◌, ◌%◌, ◌^◌, ◌≤◌, ◌<◌, ◌≡◌, ◌⊎◌, inl, inr, refl, ap, ◌∙◌, true, some, List,
  [], ◌∷◌, arith, ltb, Bool-cases, length,
}
use deva.Prelude.Int.{pos, negsuc}
use deva.Fat32.{SectorDevice, Fs, is_data, read_cluster}
use deva.Fat32.Fat.{fat_read}
use deva.Fat32.Fat.Device.{IsReliable, HasTable, SameDisk, HasTable-same, clusters, IsCoherent}
use deva.Fat32.Fat.Cache.{fat_read_lem, entry-same}
use deva.Fat32.Fat.Alloc.{link}
use deva.Fat32.Fat.Chain.{IsChain, IsChain-same}
use deva.Fat32.File.Read.{Read, copy_bytes, to_copy, read_loop}

-- A copy changes only the bytes it copies.
copy_bytes-past :
    (buf from : ℕ → ℕ) (to at n i : ℕ) → to + n ≤ i → copy_bytes buf to from at n i ≡ buf i
unfolding copy_bytes
copy_bytes-past buf from to at n i h = ground arith

to_copy-le :
    (cluster_bytes skip size offset read_bytes : ℕ)
    → to_copy cluster_bytes skip size offset read_bytes ≤ size - (offset + read_bytes)
unfolding to_copy
to_copy-le cluster_bytes skip size offset read_bytes = omega arith

-- The answer is -1 or a number of bytes that with the offset is at most `size`, and the buffer is
-- unchanged behind `size - offset` bytes.
pub record IsWithin {D : Type 0} (size offset : ℕ) (buf : ℕ → ℕ) (r : Read D) : Type 0 where
  pub answer : (r.result ≡ negsuc 0) ⊎ ((n : ℕ) × (r.result ≡ pos n) × (n + offset ≤ size))
  pub behind : (i : ℕ) → size ≤ offset + i → r.buf i ≡ buf i

module _ {D : Type 0} {dev : SectorDevice D} {size : ℕ} (works : IsReliable dev size) where
  -- Reading a cluster changes its buffer alone.
  read_cluster-SameDisk : (c : ℕ) (s : Fs D) → SameDisk s (read_cluster dev c s).1
  unfolding read_cluster
  read_cluster-SameDisk c s = record {
    same_table = record {
      bytes_per_sector = refl;
      num_fats = refl;
      fat_size_sectors = refl;
      fat_start = refl;
    };
    disk = refl;
  }

  read_cluster-IsCoherent :
      (c : ℕ) (s : Fs D) → IsCoherent works s → IsCoherent works (read_cluster dev c s).1
  unfolding read_cluster IsCoherent
  read_cluster-IsCoherent c s h = h

  -- On a chain of clusters of a reliable disk, with a coherent cache and more fuel than the chain has
  -- clusters, the copying loop of fat32_read ends; it reports an error or at most the bytes between the
  -- offset and the end, and never writes the buffer behind them.
  pub read_loop_lem :
      (xs : List ℕ) (fuel last offset c skip read_bytes : ℕ) (buf : ℕ → ℕ) (s : Fs D)
      → HasTable size s
      → IsCoherent works s
      → IsChain works s c xs
      → length xs < fuel
      → read_bytes + offset ≤ last
      → (r : Read D) × (read_loop dev fuel last offset c skip read_bytes buf s ≡ some r)
        × IsWithin last offset buf r
  unfolding read_loop IsChain
  read_loop_lem xs zero last offset c skip read_bytes buf s table coherent chain lt h =
      absurd (omega arith)
  read_loop_lem [] (suc fuel) last offset c skip read_bytes buf s table coherent chain lt h = (
    record { result = pos read_bytes; buf = buf; fs = s },
    rw chain refl,
    record { answer = inr (read_bytes, refl, h); behind = λ i le. refl },
  )
  read_loop_lem (x ∷ xs) (suc fuel) last offset c skip read_bytes buf s table coherent
        (e, on, in_table, rest) lt h =
      let s1 = (read_cluster dev c s).1 in
      let same1 = read_cluster-SameDisk c s in
      let table1 = HasTable-same table same1.same_table in
      let here : c < clusters s1 = omega (arith, e, same1.same_table.fat_size_sectors) in
      let got = fat_read_lem works c s1 table1 (read_cluster-IsCoherent c s coherent) here in
      let s2 = (fat_read dev c s1).1 in
      let next : (fat_read dev c s1).0 ≡ link works s x =
        got.value
        ∙ ap (λ w. w % 2 ^ 28) (entry-same works c s s1 same1)
        ∙ ap (λ k. link works s k) e in
      let chain2 =
        IsChain-same works s1 s2 xs _ got.same (IsChain-same works s s1 xs _ same1 rest) in
      let n = to_copy s.cluster_bytes skip last offset read_bytes in
      let few = to_copy-le s.cluster_bytes skip last offset read_bytes in
      let buf1 = copy_bytes buf read_bytes s1.cluster_buf skip n in
      let data_here : is_data c ≡ true = ap is_data e ∙ on in
      elim (Bool-cases (ltb (read_bytes + offset) last)) [
        | inr done ↦ (
          record { result = pos read_bytes; buf = buf; fs = s },
          rw data_here (rw done refl),
          record { answer = inr (read_bytes, refl, h); behind = λ i le. refl },
        )
        | inl more ↦ elim (Bool-cases (read_cluster dev c s).0) [
          | inr error ↦ (
            record { result = negsuc 0; buf = buf; fs = s1 },
            rw data_here (rw more (rw error refl)),
            record { answer = inl refl; behind = λ i le. refl },
          )
          | inl ok ↦
              (let (r, e1, within) =
                  read_loop_lem xs fuel last offset (link works s x) 0 (read_bytes + n) buf1 s2
                    (HasTable-same table1 got.same.same_table) got.coherent chain2 (omega arith)
                    (omega (arith, few)) in
                (
                  r,
                  rw data_here (rw more (rw ok (rw next e1))),
                  record {
                    answer = within.answer;
                    behind = λ i le.
                        within.behind i le
                        ∙ copy_bytes-past buf s1.cluster_buf read_bytes skip n i
                            (omega (arith, few));
                  },
                ))
        ]
      ]
