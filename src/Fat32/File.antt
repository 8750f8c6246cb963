-- ===== src/Fat32/File.antt =====
-- The calls on files of kernel/drivers/fat32/fat32.c. A path is never null here. `none` means that a
-- walk along a chain ran out of fuel; a negative answer is an error.
pub mod Read
pub mod Write
pub mod Info
pub mod Remove
use deva.Prelude.{
  ℕ, zero, suc, ◌+◌, ◌-◌, ◌*◌, ◌/◌, ◌%◌, ◌^◌, ◌≤◌, ◌<◌, min, ◌≡◌, ◌≢◌, ◌⊎◌, inl, inr, refl, sym, ap,
  ◌∙◌, Bool, true, false, ◌&&◌, ◌||◌, Option, none, some, List, [], ◌∷◌, ◌++◌, arith, ltb, leb,
  ◌==◌, if◌then◌else◌, not_zero, Bool-cases, Option-cases, update, bit_and, bit_or, length, get_or,
  take, drop, replicate,
}
use deva.Prelude.Int.{ℤ, pos, negsuc}
use deva.Fat32.{SectorDevice, Fs, is_data, is_eoc, read_cluster}
use deva.Fat32.Fat.{fat_read, fat_alloc, fat_free_chain}
use deva.Fat32.Dir.{find_entry, delete_entry_in_dir}
use deva.Fat32.Dir.Slot.{dir_add_entry, dir_init}
use deva.Fat32.Path.{Resolved, resolve_path}
use deva.Fat32.Path.Parent.{resolve_parent}

abbrev pub failed : {D : Type 0} → ℤ → Fs D → Option (ℤ × Fs D)
failed code s = some (code, s)

module _ {D : Type 0} (dev : SectorDevice D) (fuel : ℕ) (stack : ℕ → ℕ) where
  -- What `resolve_parent` finds: the directory and the leaf, unless the directory is 0.
  pub parent_of : List ℕ → Fs D → Option (Option (ℕ × List ℕ) × Fs D)
  parent_of path s = elim (resolve_parent dev fuel (some path) s) [
    | none ↦ none
    | some (none, r) ↦ some (none, r.fs)
    | some (some leaf, r) ↦ some (if r.cluster == 0 then none else some (r.cluster, leaf), r.fs)
  ]

  pub fat32_exists : List ℕ → Fs D → Option (Bool × Fs D)
  fat32_exists path s = elim (parent_of path s) [
    | none ↦ none
    | some (none, s1) ↦ some (false, s1)
    | some (some (parent, leaf), s1) ↦ elim (find_entry dev fuel parent leaf s1) [
      | none ↦ none
      | some (none, s2) ↦ some (false, s2)
      | some (some found, s2) ↦ some (true, s2)
    ]
  ]

  -- `-1` for a failed write of the entry.
  pub entry_answer : Option (Bool × Fs D) → Option (ℤ × Fs D)
  entry_answer none = none
  entry_answer (some (ok, s)) = some (if ok then pos 0 else negsuc 0, s)

  -- The part of `fat32_create` for a directory.
  pub create_dir : ℕ → List ℕ → Fs D → Option (ℤ × Fs D)
  create_dir parent leaf s =
      let (cl, s1) = fat_alloc dev stack s in
      let (ok, s2) = dir_init dev stack cl parent s1 in
      let added = entry_answer (dir_add_entry dev stack fuel parent leaf 0x10 cl 0 s2) in
      let undone : Option (ℤ × Fs D) = elim (fat_free_chain dev fuel stack cl s2) [
        | none ↦ none
        | some s3 ↦ failed (negsuc 0) s3
      ] in
      if cl == 0 then failed (negsuc 0) s1 else if ok then added else undone

  -- `-2` if the path is there already.
  pub fat32_create : List ℕ → Bool → Fs D → Option (ℤ × Fs D)
  fat32_create path is_dir s = elim (parent_of path s) [
    | none ↦ none
    | some (none, s1) ↦ failed (negsuc 0) s1
    | some (some (parent, leaf), s1) ↦ elim (resolve_path dev fuel (some path) s1) [
      | none ↦ none
      | some r ↦
          (let dir = create_dir parent leaf r.fs in
            let file = entry_answer (dir_add_entry dev stack fuel parent leaf 0x20 0 0 r.fs) in
            if r.cluster == 0 then (if is_dir then dir else file) else failed (negsuc 1) r.fs)
    ]
  ]

  pub delete_entry : ℕ → List ℕ → Fs D → Option (ℤ × Fs D)
  delete_entry parent leaf s = entry_answer (delete_entry_in_dir dev fuel parent leaf s)

  pub fat32_delete : List ℕ → Fs D → Option (ℤ × Fs D)
  fat32_delete path s = elim (parent_of path s) [
    | none ↦ none
    | some (none, s1) ↦ failed (negsuc 0) s1
    | some (some (parent, leaf), s1) ↦ elim (find_entry dev fuel parent leaf s1) [
      | none ↦ none
      | some (none, s2) ↦ failed (negsuc 0) s2
      | some (some found, s2) ↦ elim (resolve_path dev fuel (some path) s2) [
        | none ↦ none
        | some r ↦
            (let freed : Option (ℤ × Fs D) = elim (fat_free_chain dev fuel stack r.cluster r.fs) [
              | none ↦ none
              | some s3 ↦ delete_entry parent leaf s3
            ] in
              if leb 2 r.cluster then freed else delete_entry parent leaf r.fs)
      ]
    ]
  ]
