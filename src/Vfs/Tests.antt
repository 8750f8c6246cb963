-- ===== src/Vfs/Tests.antt =====
-- A run of kernel/drivers/vfs/vfs.c over a file system that counts its calls.
use deva.Prelude.{ℕ, ◌+◌, ◌≡◌, refl, true, false, none, some, List, [], ◌∷◌}
use deva.Prelude.Int.{pos, negsuc}
use deva.Vfs.{FileSystem}
use deva.Vfs.Calls.{
  Call, call_init, call_exists, call_write, code, truth, run_vfs, run_fs, call_fs, run_lazy,
  unmounted, run_vfs-eq-run_lazy,
}

abbrev counting : FileSystem ℕ
counting = record {
  fs_init = λ n. n + 100;
  fs_read = λ path buf max_size offset n. some (pos max_size, buf, n + 1);
  fs_write = λ path content size n. some (pos size, n + 1);
  fs_create = λ path dir n. some (pos 0, n + 1);
  fs_delete = λ path n. some (pos 0, n + 1);
  fs_delete_recursive = λ path n. some (pos 0, n + 1);
  fs_exists = λ path n. some (true, n + 1);
  fs_stat = λ path n. some (none, n + 1);
}

abbrev calls : List Call
calls =
    call_exists (some [])
    ∷ call_init
    ∷ call_write (some []) none 3
    ∷ call_init
    ∷ call_exists (some [])
    ∷ []

run_vfs-eq-run_lazy_example : run_vfs counting calls (unmounted 7) ≡ run_lazy counting calls 7
run_vfs-eq-run_lazy_example = run_vfs-eq-run_lazy counting calls 7

run_test :
    run_lazy counting calls 7
    ≡ some (
      truth false ∷ truth true ∷ code (negsuc 0) ∷ truth true ∷ truth true ∷ [],
      record { vfs_initialized = true; fs = 108 },
    )
unfolding run_lazy run_fs call_fs
run_test = refl
