-- ===== src/Fat32/File/Read.antt =====
-- `fat32_read` of kernel/drivers/fat32/fat32.c: bytes of a file, from an offset on.
pub mod Bounds
use deva.Prelude.{
  ℕ, zero, suc, ◌+◌, ◌-◌, ◌*◌, ◌/◌, ◌%◌, ◌^◌, ◌≤◌, ◌<◌, min, ◌≡◌, ◌≢◌, ◌⊎◌, inl, inr, refl, sym, ap,
  ◌∙◌, Bool, true, false, ◌&&◌, ◌||◌, Option, none, some, List, [], ◌∷◌, ◌++◌, arith, ltb, leb,
  ◌==◌, if◌then◌else◌, not_zero, Bool-cases, Option-cases, update, bit_and, bit_or, length, get_or,
  take, drop, replicate,
}
use deva.Prelude.Int.{ℤ, pos, negsuc}
use deva.Fat32.{SectorDevice, Fs, is_data, read_cluster}
use deva.Fat32.Fat.{fat_read}
use deva.Fat32.Dir.{find_entry}
use deva.Fat32.Path.{Resolved, resolve_path}
use deva.Fat32.File.{parent_of}

-- `memcpy(buf + to, from + at, n)`
pub copy_bytes : (ℕ → ℕ) → ℕ → (ℕ → ℕ) → ℕ → ℕ → ℕ → ℕ
copy_bytes buf to from at n i = if leb to i && ltb i (to + n) then from (at + (i - to)) else buf i

-- The bytes that one round copies: `avail` and `remain` are `uint32_t`s.
pub to_copy : ℕ → ℕ → ℕ → ℕ → ℕ → ℕ
to_copy cluster_bytes skip size offset read_bytes =
    min ((cluster_bytes + (2 ^ 32 - skip)) % 2 ^ 32) (size - (offset + read_bytes))

-- The answer, the buffer and the file system.
pub record Read (D : Type 0) : Type 0 where
  pub result : ℤ
  pub buf : ℕ → ℕ
  pub fs : Fs D

module _ {D : Type 0} (dev : SectorDevice D) where
  -- The loop to the cluster of the offset: what is left to skip and the cluster, or a failed read.
  pub skip_loop : ℕ → ℕ → ℕ → Fs D → Option (Option (ℕ × ℕ) × Fs D)
  skip_loop zero skip cluster s = none
  skip_loop (suc fuel) skip cluster s =
      let (next, s1) = fat_read dev cluster s in
      let on = skip_loop fuel (skip - s.cluster_bytes) next s1 in
      let (ok, s2) = read_cluster dev cluster s in
      if is_data cluster && ltb 0 skip
      then (if leb s.cluster_bytes skip
          then on
          else if ok
          then some (some (skip, cluster), s2)
          else some (none, s2))
      else some (some (skip, cluster), s)

  pub read_loop : ℕ → ℕ → ℕ → ℕ → ℕ → ℕ → (ℕ → ℕ) → Fs D → Option (Read D)
  read_loop zero size offset cluster skip read_bytes buf s = none
  read_loop (suc fuel) size offset cluster skip read_bytes buf s =
      let (ok, s1) = read_cluster dev cluster s in
      let n = to_copy s.cluster_bytes skip size offset read_bytes in
      let (next, s2) = fat_read dev cluster s1 in
      let on =
        read_loop fuel size offset next 0 (read_bytes + n)
          (copy_bytes buf read_bytes s1.cluster_buf skip n) s2 in
      if is_data cluster && ltb (read_bytes + offset) size
      then (if ok then on else some (record { result = negsuc 0; buf = buf; fs = s1 }))
      else some (record { result = pos read_bytes; buf = buf; fs = s })

  -- The two loops, for a file of `size` bytes that starts at `cluster`.
  pub read_file : ℕ → ℕ → ℕ → ℕ → ℕ → (ℕ → ℕ) → Fs D → Option (Read D)
  read_file fuel cluster size max_size offset buf s =
      let last = (max_size + offset) % 2 ^ 32 in
      let size1 = if ltb last size then last else size in
      let copied : Option (Read D) = elim (skip_loop fuel offset cluster s) [
        | none ↦ none
        | some (none, s1) ↦ some (record { result = negsuc 0; buf = buf; fs = s1 })
        | some (some (skip, start), s1) ↦ read_loop fuel size1 offset start skip 0 buf s1
      ] in
      if leb size offset then some (record { result = pos 0; buf = buf; fs = s }) else copied

  -- A path that leads to cluster 0: an empty file, if there is an entry.
  pub read_nothing : ℕ → (ℕ → ℕ) → List ℕ → (ℕ → ℕ) → Fs D → Option (Read D)
  read_nothing fuel stack path buf s = elim (parent_of dev fuel stack path s) [
    | none ↦ none
    | some (none, s1) ↦ some (record { result = negsuc 0; buf = buf; fs = s1 })
    | some (some (parent, leaf), s1) ↦ elim (find_entry dev fuel parent leaf s1) [
      | none ↦ none
      | some (none, s2) ↦ some (record { result = negsuc 0; buf = buf; fs = s2 })
      | some (some found, s2) ↦ some (record { result = pos 0; buf = buf; fs = s2 })
    ]
  ]

  -- `unset` is what the variable `size` holds if `resolve_path` does not set it.
  pub fat32_read : ℕ → (ℕ → ℕ) → ℕ → List ℕ → (ℕ → ℕ) → ℕ → ℕ → Fs D → Option (Read D)
  fat32_read fuel stack unset path buf max_size offset s =
      elim (resolve_path dev fuel (some path) s) [
        | none ↦ none
        | some r ↦
            (let size : ℕ = elim r.size [ none ↦ unset | some n ↦ n ] in
              if r.cluster == 0
              then read_nothing fuel stack path buf r.fs
              else read_file fuel r.cluster size max_size offset buf r.fs)
      ]
