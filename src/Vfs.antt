-- ===== src/Vfs.antt =====
-- The layer in front of the file system, kernel/drivers/vfs/vfs.c with kernel/include/vfs.h. The
-- file system below is the interface `FileSystem`, which kernel/drivers/fat32/fat32.c fills.
-- A pointer that may be NULL is an option, a path a list of characters, and a buffer a function of
-- the index. `vfs_list` only passes its path on to a function that prints, and is left out.
pub mod Calls
pub mod Fat
mod Tests
use deva.Prelude.{ℕ, Bool, true, false, ◌||◌, not, Option, none, some, List, ◌==◌, if◌then◌else◌}
use deva.Prelude.Int.{ℤ, pos, negsuc}

-- `vfs_stat_t` and `fat32_stat_t`; the name is without its NUL.
pub record VfsStat : Type 0 where
  pub is_dir : Bool
  pub size : ℕ
  pub name : List ℕ

-- What the calls need of the file system, with its state of type `S`. `none` is a call that does
-- not end; `fs_stat` gives no answer when it fails.
pub record FileSystem (S : Type 0) : Type 0 where
  pub fs_init : S → S
  pub fs_read : List ℕ → (ℕ → ℕ) → ℕ → ℕ → S → Option (ℤ × (ℕ → ℕ) × S)
  pub fs_write : List ℕ → (ℕ → ℕ) → ℕ → S → Option (ℤ × S)
  pub fs_create : List ℕ → Bool → S → Option (ℤ × S)
  pub fs_delete : List ℕ → S → Option (ℤ × S)
  pub fs_delete_recursive : List ℕ → S → Option (ℤ × S)
  pub fs_exists : List ℕ → S → Option (Bool × S)
  pub fs_stat : List ℕ → S → Option (Option VfsStat × S)

-- The static variable, and the file system.
pub record Vfs (S : Type 0) : Type 0 where
  pub vfs_initialized : Bool
  pub fs : S

module _ {S : Type 0} (below : FileSystem S) where
  pub vfs_init : Vfs S → Bool × Vfs S
  vfs_init v = (
    true,
    if v.vfs_initialized then v else record v { fs = below.fs_init v.fs; vfs_initialized = true },
  )

  -- The answer of the file system, with its state put back.
  pub answer : {A : Type 0} → Vfs S → Option (A × S) → Option (A × Vfs S)
  answer v none = none
  answer v (some (a, s)) = some (a, record v { fs = s })

  -- A call that writes nothing but its answer: -1 without a file system or without a path.
  pub guarded : (List ℕ → S → Option (ℤ × S)) → Option (List ℕ) → Vfs S → Option (ℤ × Vfs S)
  guarded call none v = some (negsuc 0, v)
  guarded call (some path) v =
      let passed = answer v (call path v.fs) in
      if v.vfs_initialized then passed else some (negsuc 0, v)

  pub vfs_read :
      Option (List ℕ) → Option (ℕ → ℕ) → ℕ → ℕ → Vfs S → Option ((ℤ × Option (ℕ → ℕ)) × Vfs S)
  vfs_read none buffer max_size offset v = some ((negsuc 0, buffer), v)
  vfs_read (some path) none max_size offset v = some ((negsuc 0, none), v)
  vfs_read (some path) (some buf) max_size offset v =
      let passed : Option ((ℤ × Option (ℕ → ℕ)) × Vfs S) =
        elim (below.fs_read path buf max_size offset v.fs) [
          | none ↦ none
          | some (n, buf', s) ↦ some ((n, some buf'), record v { fs = s })
        ] in
      if not v.vfs_initialized || max_size == 0 then some ((negsuc 0, some buf), v) else passed

  pub vfs_write : Option (List ℕ) → Option (ℕ → ℕ) → ℕ → Vfs S → Option (ℤ × Vfs S)
  vfs_write path none size v = some (negsuc 0, v)
  vfs_write path (some content) size v = guarded (λ p s. below.fs_write p content size s) path v

  pub vfs_create : Option (List ℕ) → Bool → Vfs S → Option (ℤ × Vfs S)
  vfs_create path is_dir v = guarded (λ p s. below.fs_create p is_dir s) path v

  pub vfs_delete : Option (List ℕ) → Vfs S → Option (ℤ × Vfs S)
  vfs_delete path v = guarded below.fs_delete path v

  pub vfs_delete_recursive : Option (List ℕ) → Vfs S → Option (ℤ × Vfs S)
  vfs_delete_recursive path v = guarded below.fs_delete_recursive path v

  pub vfs_exists : Option (List ℕ) → Vfs S → Option (Bool × Vfs S)
  vfs_exists none v = some (false, v)
  vfs_exists (some path) v =
      let passed = answer v (below.fs_exists path v.fs) in
      if v.vfs_initialized then passed else some (false, v)

  -- The second part is what `out` points to; the flag tells whether `out` is not NULL.
  pub vfs_stat : Option (List ℕ) → Bool → Vfs S → Option ((ℤ × Option VfsStat) × Vfs S)
  vfs_stat none out v = some ((negsuc 0, none), v)
  vfs_stat (some path) out v =
      let passed : Option ((ℤ × Option VfsStat) × Vfs S) = elim (below.fs_stat path v.fs) [
        | none ↦ none
        | some (none, s) ↦ some ((negsuc 0, none), record v { fs = s })
        | some (some st, s) ↦ some ((pos 0, some st), record v { fs = s })
      ] in
      if not v.vfs_initialized || not out then some ((negsuc 0, none), v) else passed
