-- ===== src/Paging/Tests.antt =====
-- The theorems on kernel/drivers/paging/paging.c at concrete inputs: four frames, of which frame 0
-- and the directory's frame 1 are in use.
use deva.Prelude.{◌*◌, ◌≡◌, ◌≢◌, refl, arith, [], ◌∷◌, ◌==◌, if◌then◌else◌}
use deva.Paging.{
  Paging, alloc_frame, find_free, bm_test, map_page, get_physical, create_page_directory,
  alloc_page_table, set_entry,
}
use deva.Paging.Owners.{take_frame, give_back, Clients, calls, IsSound, calls-IsSound}
use deva.Paging.Tables.{IsDirectory}
use deva.Paging.Map.{Mapped, map_page-Mapped}
use deva.Paging.Boot.{create_page_directory-get_physical}

abbrev small : Paging
small = record {
  frame_bitmap = λ i. if i == 0 then 3 else 0;
  total_frames = 4;
  kernel_dir = 4096;
  current_dir = 4096;
  mem = λ a. 0;
}

small-IsDirectory : IsDirectory 4096 small
unfolding bm_test
small-IsDirectory = record {
  few = omega arith;
  zero_marked = refl;
  aligned = refl;
  marked = refl;
  words = λ di lt. omega arith;
  tables = λ di lt p. absurd (ground arith);
  apart = λ di dj li lj p. absurd (ground arith);
}

alloc_small : (alloc_frame small).0 ≡ 2 * 4096
unfolding alloc_frame find_free bm_test
alloc_small = refl

map_small : get_physical 4096 0xA0000000 (map_page 4096 0xA0000000 0x5123 6 small) ≡ 0x5000
unfolding get_physical map_page alloc_page_table set_entry alloc_frame find_free bm_test
map_small = refl

abbrev clients : Clients
clients = record { paging = small; out = [] }

clients-IsSound : IsSound clients
unfolding bm_test
clients-IsSound = record { few = omega arith; zero_marked = refl; out = tt }

calls-IsSound_example :
    IsSound (calls (take_frame ∷ take_frame ∷ give_back 1 ∷ take_frame ∷ []) clients)
calls-IsSound_example =
    calls-IsSound (take_frame ∷ take_frame ∷ give_back 1 ∷ take_frame ∷ []) clients clients-IsSound

map_page-Mapped_example :
    Mapped 4096 0xA0000000 0x5123 small (map_page 4096 0xA0000000 0x5123 6 small)
map_page-Mapped_example =
    map_page-Mapped small-IsDirectory 0xA0000000 0x5123 6 (omega arith) (omega arith) (omega arith)

alloc_small_ne : (alloc_frame small).0 ≢ 0
alloc_small_ne = ground (arith, alloc_small)

create_page_directory-get_physical_example :
    get_physical (create_page_directory small).0 0x1234 (create_page_directory small).1
    ≡ get_physical 4096 0x1234 small
create_page_directory-get_physical_example =
    create_page_directory-get_physical small small-IsDirectory alloc_small_ne 0x1234 (omega arith)
