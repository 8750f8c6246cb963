-- ===== src/Fat32/Dir/Tests.antt =====
-- A new entry in an empty directory, kernel/drivers/fat32/fat32.c.
use deva.Prelude.{ℕ, ◌+◌, ◌≡◌, ◌≢◌, refl, some, List, [], ◌∷◌, arith}
use deva.Fat32.{get32}
use deva.Fat32.Names.{to_83, put_base, put_extension, after_dot, spaces, upper}
use deva.Fat32.Dir.{scan_entries, hit, put_entry, new_entry, first_cluster}
use deva.Fat32.Dir.Slot.{free_slot}
use deva.Fat32.Dir.Added.{target_of, added_lem}

abbrev empty : ℕ → ℕ
empty i = 0

abbrev name : List ℕ
name = b'a' ∷ b'.' ∷ b'c' ∷ []

name-first : target_of name 0 ≡ b'A'
unfolding to_83 put_base put_extension after_dot spaces upper
name-first = refl

slot : free_slot empty 0 16 ≡ some 0
unfolding free_slot
slot = refl

absent : (p : ℕ) → scan_entries (target_of name) empty 0 16 ≢ hit p
unfolding scan_entries
absent p e = ground (arith, e)

added_lem_example :
    (let after = put_entry empty 0 (new_entry name 0x20 5 300) in
      (scan_entries (target_of name) after 0 16 ≡ hit 0)
      × (first_cluster after 0 ≡ 5)
      × (get32 after (0 + 28) ≡ 300))
added_lem_example =
    added_lem 16 0 empty name 0x20 5 300 slot absent (λ e. ground (arith, name-first, e))
      (λ e. ground (arith, name-first, e)) (omega arith) (λ e. ground (arith, e)) (omega arith)
      (omega arith)
