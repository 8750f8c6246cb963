-- ===== src/Fat32/Tests.antt =====
-- Runs of kernel/drivers/fat32/fat32.c on a disk in memory, and its theorems there.
use deva.Prelude.{
  Distinct, map, ℕ, ◌%◌, ◌^◌, ◌≡◌, refl, true, ◌||◌, some, List, [], ◌∷◌, ◌++◌, arith, ◌==◌,
  if◌then◌else◌, update,
}
use deva.Fat32.{SectorDevice, Fs, get32, put32, is_data, is_eoc, fat_eoc}
use deva.Fat32.Fat.{fat_read, fat_write, fat_alloc, fat_free_chain, fat_sector, fat_offset}
use deva.Fat32.Fat.Device.{IsReliable, HasTable, IsCoherent, entry}
use deva.Fat32.Fat.Cache.{fat_read-fat_write}
use deva.Fat32.Fat.Alloc.{Allocates, fat_alloc_lem}
use deva.Fat32.Names.{upper, to_83, from_83}
use deva.Fat32.File.Read.{Read, read_loop}
use deva.Fat32.File.Read.Bounds.{IsWithin, read_loop_lem}
use deva.Fat32.File.Write.{link_clusters}
use deva.Fat32.File.Write.Linked.{Links, link_clusters_lem}
use deva.Fat32.Names.RoundTrip.{IsPlain, from_83-to_83}
use deva.Fat32.Fat.Chain.{IsChain, Frees, fat_free_chain_lem}

-- Sectors as functions.
abbrev Ram : Type 0
Ram = ℕ → ℕ → ℕ

abbrev ram : SectorDevice Ram
ram = record {
  read_sector = λ n d. some (λ i. d n i % 2 ^ 8);
  write_sector = λ n buf d. (true, update d n buf);
}

ram-IsReliable : IsReliable ram 16
ram-IsReliable = record {
  view = λ d n i. d n i % 2 ^ 8;
  reads = λ n d lt. (λ i. d n i % 2 ^ 8, refl, λ i l. refl);
  is_byte = λ d n i. omega arith;
  writes = λ n m i buf d lt l byte. ground (arith, byte i);
}

-- Sector 1 is the table and sector 2 its copy: 2 → 3 → end.
abbrev table_sector : ℕ → ℕ
table_sector = put32 (put32 (put32 (put32 (λ i. 0) 0 0x0FFFFFF8) 4 0x0FFFFFFF) 8 3) 12 0x0FFFFFF8

abbrev mounted : Fs Ram
mounted = record {
  bytes_per_sector = 512;
  sectors_per_cluster = 1;
  reserved_sectors = 1;
  num_fats = 2;
  fat_size_sectors = 1;
  root_cluster = 2;
  fat_start = 1;
  data_start = 3;
  cluster_bytes = 512;
  fat_cache = λ i. 0;
  fat_cache_sector = 0xFFFFFFFF;
  cluster_buf = λ i. 0;
  disk = λ n. (if n == 1 || n == 2 then table_sector else (λ i. 0));
}

mounted-HasTable : HasTable 16 mounted
mounted-HasTable = record {
  sectors = refl;
  copies = omega arith;
  entries = omega arith;
  start = omega arith;
  on_disk = omega arith;
  addressed = omega arith;
}

mounted-IsCoherent : IsCoherent ram-IsReliable mounted
unfolding IsCoherent
mounted-IsCoherent lt = absurd (omega arith)

next_of_two : (fat_read ram 2 mounted).0 ≡ 3
unfolding fat_read fat_sector fat_offset get32 put32
next_of_two = refl

fat_read-fat_write_example :
    (fat_read ram 3 (fat_write ram (λ i. 0) 2 7 mounted)).0
    ≡ (if 2 == 3 then 7 % 2 ^ 28 else (fat_read ram 3 mounted).0)
fat_read-fat_write_example =
    fat_read-fat_write ram-IsReliable (λ i. 0) 2 3 7 mounted mounted-HasTable mounted-IsCoherent
      (omega arith) (omega arith) (omega arith)

fat_alloc_lem_example : Allocates ram-IsReliable mounted (fat_alloc ram (λ i. 0) mounted)
fat_alloc_lem_example =
    fat_alloc_lem ram-IsReliable (λ i. 0) mounted mounted-HasTable mounted-IsCoherent (omega arith)

two_three-IsChain : IsChain ram-IsReliable mounted 2 (2 ∷ 3 ∷ [])
unfolding IsChain is_data is_eoc entry get32 put32 ram-IsReliable
two_three-IsChain = (refl, refl, omega arith, (refl, refl, omega arith, refl))

two_three-Distinct : Distinct (2 ∷ 3 ∷ [])
two_three-Distinct = ((ground arith, tt), (tt, tt))

fat_free_chain_lem_example :
    (s' : Fs Ram) × (fat_free_chain ram 5 (λ i. 0) 2 mounted ≡ some s')
    × Frees ram-IsReliable mounted (2 ∷ 3 ∷ []) s'
fat_free_chain_lem_example =
    fat_free_chain_lem ram-IsReliable (2 ∷ 3 ∷ []) 5 (λ i. 0) 2 mounted mounted-HasTable
      mounted-IsCoherent two_three-IsChain two_three-Distinct (omega arith)

abbrev readme : List ℕ
readme = b'r' ∷ b'e' ∷ b'a' ∷ b'd' ∷ b'm' ∷ b'e' ∷ []

abbrev md : List ℕ
md = b'm' ∷ b'd' ∷ []

readme-IsPlain : IsPlain readme × IsPlain md
readme-IsPlain = ground arith

from_83-to_83_example :
    from_83 (to_83 (readme ++ b'.' ∷ md) (λ i. 0)) ≡ map upper readme ++ b'.' ∷ map upper md
from_83-to_83_example =
    from_83-to_83 readme md (λ i. 0) readme-IsPlain.0 readme-IsPlain.1 (omega arith) (omega arith)
      (omega arith)

read_loop_lem_example :
    (r : Read Ram) × (read_loop ram 5 600 100 2 100 0 (λ i. 7) mounted ≡ some r)
    × IsWithin 600 100 (λ i. 7) r
read_loop_lem_example =
    read_loop_lem ram-IsReliable (2 ∷ 3 ∷ []) 5 600 100 2 100 0 (λ i. 7) mounted mounted-HasTable
      mounted-IsCoherent two_three-IsChain (omega arith) (omega arith)

three_last : entry ram-IsReliable mounted 3 ≡ fat_eoc
unfolding entry get32 put32 ram-IsReliable
three_last = refl

link_clusters_lem_example :
    Links ram-IsReliable 2 3 mounted (link_clusters ram 5 (λ i. 0) 2 3 mounted)
link_clusters_lem_example =
    link_clusters_lem ram-IsReliable 5 (λ i. 0) 2 3 mounted mounted-HasTable mounted-IsCoherent
      (omega arith) (omega arith) (omega arith) three_last
