-- ===== src/Vfs/Fat.antt =====
-- kernel/drivers/fat32/fat32.c as the file system of kernel/drivers/vfs/vfs.c.
use deva.Prelude.{ℕ, Option, none, some}
use deva.Prelude.Int.{ℤ}
use deva.Fat32.{SectorDevice, Fs, fat32_init}
use deva.Fat32.File.{fat32_exists, fat32_create, fat32_delete}
use deva.Fat32.File.Info.{Stat, fat32_stat}
use deva.Fat32.File.Read.{Read, fat32_read}
use deva.Fat32.File.Write.{fat32_write}
use deva.Fat32.File.Remove.{fat32_delete_recursive}
use deva.Vfs.{VfsStat, FileSystem}

module _ {D : Type 0} where
  read_answer : Option (Read D) → Option (ℤ × (ℕ → ℕ) × Fs D)
  read_answer none = none
  read_answer (some r) = some (r.result, r.buf, r.fs)

  stat_answer : Option (Option Stat × Fs D) → Option (Option VfsStat × Fs D)
  stat_answer none = none
  stat_answer (some (none, s)) = some (none, s)
  stat_answer (some (some st, s)) =
      some (some (record { is_dir = st.is_dir; size = st.size; name = st.name }), s)

  -- With the fuel of the loops and of the depth, what the stack holds, and an uninitialised `size`.
  pub fat_file_system : SectorDevice D → ℕ → (ℕ → ℕ) → ℕ → FileSystem (Fs D)
  fat_file_system dev fuel stack unset = record {
    fs_init = fat32_init dev stack;
    fs_read = λ path buf max_size offset s.
        read_answer (fat32_read dev fuel stack unset path buf max_size offset s);
    fs_write = fat32_write dev fuel stack;
    fs_create = fat32_create dev fuel stack;
    fs_delete = fat32_delete dev fuel stack;
    fs_delete_recursive = fat32_delete_recursive dev fuel stack fuel;
    fs_exists = fat32_exists dev fuel stack;
    fs_stat = λ path s. stat_answer (fat32_stat dev fuel stack unset path s);
  }
